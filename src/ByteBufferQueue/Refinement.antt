-- ===== src/ByteBufferQueue/Refinement.antt =====
-- ByteBufferQueue refines a queue of bytes: each method, on a valid queue, against `contents`.
use node_rtc_connection.Prelude.{
  ℕ, zero, suc, ◌+◌, ◌-◌, ◌≤◌, ◌<◌, min, ◌≡◌, refl, sym, ap, ◌∙◌, inl, inr, Bool, false, List, [],
  ◌∷◌, ◌++◌, append-nil, append_assoc, arith, ltb, ◌==◌, lt→ltb, Bool-cases, length, length-append,
  take, drop, length-take, length-drop, take_all, drop_all, take-append, drop-append, All,
  All-append, range_error, ok, err,
}
use node_rtc_connection.Buffer.{Buffer, slice, concat, copy, concat-append, copy-append}
use native.Mathlib.Decide.{dec_lt}
use node_rtc_connection.ByteBufferQueue.{
  ByteBufferQueue, Reading, read_loop, read_into, append, clear, create, read, peek, peek_loop,
}
use node_rtc_connection.ByteBufferQueue.Invariant.{
  IsFilled, IsFrontOffset, IsValid, contents, create-IsValid, size-length, check_invariants_lem,
}
use node_rtc_connection.ByteBufferQueue.Loop.{
  reading, pending, Reads, read_loop-Reads, offset-le, pending-split, IsFilled-IsFrontOffset,
}

IsFrontOffset-append :
    (bs : List Buffer) (b : Buffer) (offset : ℕ)
    → 0 < length b
    → IsFrontOffset bs offset
    → IsFrontOffset (bs ++ (b ∷ [])) offset
IsFrontOffset-append [] b offset h k = omega arith
IsFrontOffset-append (c ∷ bs) b offset h k = k

abbrev appended : ByteBufferQueue → Buffer → ByteBufferQueue
appended q b = record q { size = q.size + length b; buffers = q.buffers ++ (b ∷ []) }

module _ (q : ByteBufferQueue) (b : Buffer) (v : IsValid q) where
  concat_appended : concat (q.buffers ++ (b ∷ [])) ≡ concat q.buffers ++ b
  concat_appended = rw (concat-append q.buffers (b ∷ []), append-nil b)

  appended-IsValid : 0 < length b → IsValid (appended q b)
  appended-IsValid h = record {
    filled = All-append IsFilled q.buffers (b ∷ []) v.filled (h, tt);
    front = IsFrontOffset-append q.buffers b q.front_buffer_offset h v.front;
    sized = rw (concat_appended, length-append (concat q.buffers) b) (omega (arith, v.sized));
  }

  contents-appended : contents (appended q b) ≡ contents q ++ b
  contents-appended =
      let e : q.front_buffer_offset - length (concat q.buffers) ≡ 0 =
        omega (arith, offset-le q.buffers q.front_buffer_offset v.front) in
      rw (concat_appended, drop-append q.front_buffer_offset (concat q.buffers) b, e)

-- On a valid queue `append` throws nothing, keeps the invariant, and puts the bytes of the buffer
-- behind those that are still to be read.
pub append-contents :
    (production : Bool) (q : ByteBufferQueue) (b : Buffer)
    → IsValid q
    → (q' : ByteBufferQueue) × (append production q b ≡ ok q')
      × IsValid q'
      × (contents q' ≡ contents q ++ b)
unfolding append
append-contents production q [] v = (q, refl, v, sym (append-nil (contents q)))
append-contents production q (x ∷ b) v =
    let valid = appended-IsValid q (x ∷ b) v (omega arith) in
    (
      appended q (x ∷ b),
      ground (arith, check_invariants_lem production (appended q (x ∷ b)) valid),
      valid,
      contents-appended q (x ∷ b) v,
    )

-- `clear` throws nothing on any queue, and leaves a valid queue with nothing to read.
pub clear-contents :
    (production : Bool) (q : ByteBufferQueue)
    → (q' : ByteBufferQueue) × (clear production q ≡ ok q') × IsValid q' × (contents q' ≡ [])
unfolding clear
clear-contents production q = (
  create,
  rw (check_invariants_lem production create create-IsValid),
  create-IsValid,
  unfold create in refl,
)

abbrev after_read : ByteBufferQueue → Reading → ByteBufferQueue
after_read q r = record {
  size = q.size - r.read_amount;
  buffers = r.left;
  front_buffer_offset = r.offset;
}

module _ (q : ByteBufferQueue) (out : Buffer) (r : Reading) (v : IsValid q) where
  module _ (k : Reads q.buffers q.front_buffer_offset [] out 0 r) where
    after_read-IsValid : IsValid (after_read q r)
    after_read-IsValid = record {
      filled = k.filled;
      front = k.front;
      sized = omega (
        arith,
        k.amount',
        size-length q v,
        ap length k.left,
        length-drop {0} (length out) (contents q),
        length-drop {0} r.offset (concat r.left),
        offset-le r.left r.offset k.front,
      );
    }

module _ (production : Bool) (q : ByteBufferQueue) (out : Buffer) (r : Reading)
    (v : IsValid q) where
  read_into_lem :
      read_loop
          (suc (length q.buffers))
          q.buffers
          (reading q.buffers q.front_buffer_offset [] out 0)
        ≡ ok r
      → (k : Reads q.buffers q.front_buffer_offset [] out 0 r)
      → read_into production q out
        ≡ ok (
          after_read q r,
          take (length out) (contents q) ++ drop (length (contents q)) out,
          min (length out) (length (contents q)),
        )
  unfolding read_into
  read_into_lem e k =
      let amount : r.read_amount ≡ min (length out) (length (contents q)) =
        omega (arith, k.amount') in
      rw (e, check_invariants_lem production (after_read q r) (after_read-IsValid q out r v k))
        (cc (k.output, amount))

-- On a valid queue `readInto` throws nothing. It copies the oldest bytes, as many as the buffer
-- holds or the queue has, to the front of the buffer and leaves the rest of the buffer alone; it
-- returns their number, and takes exactly these bytes off the queue, which stays valid.
pub read_into-contents :
    (production : Bool) (q : ByteBufferQueue) (out : Buffer)
    → IsValid q
    → (q' : ByteBufferQueue) × (read_into production q out
        ≡ ok (
          q',
          take (length out) (contents q) ++ drop (length (contents q)) out,
          min (length out) (length (contents q)),
        ))
      × IsValid q'
      × (contents q' ≡ drop (length out) (contents q))
read_into-contents production q out v =
    let (r, e, k) =
      read_loop-Reads (suc (length q.buffers)) q.buffers q.front_buffer_offset [] out 0
        (omega arith) v.filled v.front in
    (after_read q r, read_into_lem production q out r v e k, after_read-IsValid q out r v k, k.left)

take-min : (n : ℕ) (xs : Buffer) → take (min (length xs) n) xs ≡ take n xs
take-min n xs = elim (dec_lt n (length xs)) [
  | yes p ↦ let e : min (length xs) n ≡ n = omega arith in rw e
  | no p ↦
      let e : min (length xs) n ≡ length xs = omega arith in
      rw (e, take_all (length xs) xs (omega arith), take_all n xs (omega arith))
]

module _ (alloc_unsafe : ℕ → Buffer) (sized : (n : ℕ) → length (alloc_unsafe n) ≡ n) where
  empty : alloc_unsafe 0 ≡ []
  empty = rw (← take_all 0 (alloc_unsafe 0) (omega (arith, sized 0)))

  -- `read(n)` of no more bytes than there are returns the oldest `n`, whatever `allocUnsafe` left in
  -- its buffer, and takes exactly these off the queue, which stays valid.
  pub read-contents :
      (production : Bool) (q : ByteBufferQueue) (n : ℕ)
      → IsValid q
      → n ≤ q.size
      → (q' : ByteBufferQueue) × (read alloc_unsafe production q n ≡ ok (q', take n (contents q)))
        × IsValid q'
        × (contents q' ≡ drop n (contents q))
  unfolding read
  read-contents production q zero v h = (q, rw empty (ground arith), v, refl)
  read-contents production q (suc n) v h =
      let (q', e, v', c) = read_into-contents production q (alloc_unsafe (suc n)) v in
      let full : drop (length (contents q)) (alloc_unsafe (suc n)) ≡ [] =
        drop_all _ (alloc_unsafe (suc n)) (omega (arith, sized (suc n), size-length q v)) in
      let count : min (suc n) (length (contents q)) ≡ suc n = omega (arith, size-length q v) in
      (
        q',
        rw (e, sized (suc n), count, full, append-nil (take (suc n) (contents q))) (ground arith),
        v',
        rw (sized (suc n)) at c,
      )

  -- `read(n)` of more bytes than there are throws a RangeError.
  pub read_too_many :
      (production : Bool) (q : ByteBufferQueue) (n : ℕ)
      → q.size < n
      → read alloc_unsafe production q n ≡ err range_error
  unfolding read
  read_too_many production q n h = rw (lt→ltb _ _ h)

  peek_round :
      (b : Buffer) (offset : ℕ) (done rest : Buffer)
      → copy
          (slice b offset (offset + min (length b - offset) (length rest)))
          (length done)
          (done ++ rest)
        ≡ (done ++ take (length rest) (drop offset b))
          ++ drop (min (length b - offset) (length rest)) rest
  peek_round b offset done rest =
      let size : length b - offset ≡ length (drop offset b) =
        omega (arith, length-drop {0} offset b) in
      let count = min (length b - offset) (length rest) in
      let span : offset + count - offset ≡ count = omega arith in
      let piece : take count (drop offset b) ≡ take (length rest) (drop offset b) =
        rw size (take-min (length rest) (drop offset b)) in
      let fits : length (take (length rest) (drop offset b)) ≡ count =
        omega (arith, length-take {0} (length rest) (drop offset b), size) in
      rw (
        span,
        piece,
        copy-append,
        fits,
        take_all (length rest) (take (length rest) (drop offset b)) (omega (arith, fits)),
        append_assoc,
      )

  peek_loop_lem :
      (bs : List Buffer) (offset : ℕ) (done rest : Buffer)
      → All IsFilled bs
      → IsFrontOffset bs offset
      → length rest ≤ length (pending offset bs)
      → peek_loop alloc_unsafe bs offset (length done) (length (done ++ rest)) (done ++ rest)
        ≡ done ++ take (length rest) (pending offset bs)
  unfolding peek_loop
  peek_loop_lem [] offset done [] fs f h = refl
  peek_loop_lem [] offset done (x ∷ xs) fs f h =
      absurd (omega (arith, length-drop {0} {A = ℕ} offset []))
  peek_loop_lem (b ∷ bs) offset done [] fs f h =
      let e : ltb (length done) (length (done ++ [])) ≡ false = rw append-nil (ground arith) in rw e
  peek_loop_lem (b ∷ bs) offset done (x ∷ xs) fs f h =
      rw
        (
          lt→ltb (length done) (length (done ++ rest)) (omega (arith, length-append {0} done rest)),
          room,
          peek_round,
          written,
          amount,
        )
        (peek_loop_lem bs 0 (done ++ piece) (drop count rest) fs.1 (IsFilled-IsFrontOffset bs fs.1)
            (omega (arith, left, split))
          ∙ rest_lem)
    where
      rest : Buffer
      rest = x ∷ xs

      count : ℕ
      count = min (length b - offset) (length rest)

      piece : Buffer
      piece = take (length rest) (drop offset b)

      room : length (done ++ rest) - length done ≡ length rest
      room = omega (arith, length-append {0} done rest)

      fits : length piece ≡ count
      fits = omega (arith, length-take {0} (length rest) (drop offset b), length-drop {0} offset b)

      left : length (drop count rest) ≡ length rest - count
      left = length-drop count rest

      written : length done + count ≡ length (done ++ piece)
      written = omega (arith, length-append {0} done piece, fits)

      amount : length (done ++ rest) ≡ length ((done ++ piece) ++ drop count rest)
      amount = omega (
        arith,
        length-append {0} done rest,
        length-append {0} (done ++ piece) (drop count rest),
        written,
        left,
      )

      split : length (pending offset (b ∷ bs)) ≡ length b - offset + length (concat bs)
      split = omega (
        arith,
        ap length (pending-split b bs offset f),
        length-append {0} (drop offset b) (concat bs),
        length-drop {0} offset b,
      )

      beyond : length (drop count rest) ≡ length rest - length (drop offset b)
      beyond = omega (arith, left, length-drop {0} offset b)

      rest_lem :
          (done ++ piece) ++ take (length (drop count rest)) (concat bs)
          ≡ done ++ take (length rest) (pending offset (b ∷ bs))
      rest_lem = rw (
        beyond,
        pending-split b bs offset f,
        take-append (length rest) (drop offset b) (concat bs),
        append_assoc,
      )

  -- `peek(n)` returns the oldest `n` bytes, or all where there are fewer. (The queue is not changed:
  -- `peek` assigns none of its fields.)
  pub peek-contents :
      (q : ByteBufferQueue) (n : ℕ) → IsValid q → peek alloc_unsafe q n ≡ take n (contents q)
  unfolding peek
  peek-contents q n v =
      let least : min n q.size ≡ min (length (contents q)) n = omega (arith, size-length q v) in
      let whole : take (min n q.size) (contents q) ≡ take n (contents q) =
        rw least (take-min n (contents q)) in
      let filled : peek_loop alloc_unsafe q.buffers q.front_buffer_offset 0
            (length (alloc_unsafe (min n q.size))) (alloc_unsafe (min n q.size))
          ≡ take (length (alloc_unsafe (min n q.size))) (contents q) =
        peek_loop_lem q.buffers q.front_buffer_offset [] (alloc_unsafe (min n q.size)) v.filled
          v.front (omega (arith, sized (min n q.size), size-length q v)) in
      elim (Bool-cases (min n q.size == 0)) [
        | inl z ↦
            let none_asked : min n q.size ≡ 0 = ground arith in
            rw (z, empty) (ap (λ (k : ℕ). take k (contents q)) (sym none_asked) ∙ whole)
        | inr z ↦ rw z ((rw (sized (min n q.size)) at filled) ∙ whole)
      ]
