-- ===== src/StunClient/Chunks.antt =====
-- The chunks of a stream do not matter: the messages are those of the whole stream.
use node_rtc_connection.Prelude.{
  ℕ, zero, suc, ◌+◌, ◌-◌, ◌≤◌, ◌<◌, ◌≡◌, refl, sym, ap, ◌∙◌, true, List, [], ◌∷◌, ◌++◌, append-nil,
  append_assoc, arith, ltb, length, length-append, take, drop, length-drop, take-append,
  drop-append, Result, ok, err, ◌>>=◌,
}
use node_rtc_connection.Buffer.{Buffer, read_uint16_be, uint16_be, concat}
use node_rtc_connection.StunClient.Stream.{
  Split, prepend, with_later, stream_loop, on_stream_data, on_chunks, short, part, whole, shape,
  stream_short, stream_partial, stream_whole, stream_fuel,
}

-- What the loop makes of what is kept and of later bytes.
abbrev continue : Buffer → Split → Result Split
continue b s = stream_loop (suc (length (s.1 ++ b))) (s.1 ++ b) >>= with_later s.0

with_later-nil : (r : Result Split) → (r >>= with_later []) ≡ r
with_later-nil (ok s) = refl
with_later-nil (err e) = refl

with_later-prepend :
    (m : Buffer) (ms : List Buffer) (r : Result Split)
    → ((r >>= with_later ms) >>= prepend m) ≡ (r >>= with_later (m ∷ ms))
with_later-prepend m ms (ok s) = refl
with_later-prepend m ms (err e) = refl

continue-prepend :
    (b m : Buffer) (r : Result Split)
    → ((r >>= continue b) >>= prepend m) ≡ ((r >>= prepend m) >>= continue b)
continue-prepend b m (ok s) =
    with_later-prepend m s.0 (stream_loop (suc (length (s.1 ++ b))) (s.1 ++ b))
continue-prepend b m (err e) = refl

uint16_be-append : (xs ys : Buffer) → 2 ≤ length xs → uint16_be (xs ++ ys) ≡ uint16_be xs
uint16_be-append [] ys h = absurd (omega arith)
uint16_be-append (x ∷ []) ys h = absurd (omega arith)
uint16_be-append (x ∷ y ∷ xs) ys h = refl

-- More bytes behind a buffer.
stream_append :
    (f g : ℕ) (a b : Buffer)
    → length a < f
    → length (a ++ b) < g
    → stream_loop g (a ++ b) ≡ (stream_loop f a >>= continue b)
stream_append zero g a b p q = absurd (omega arith)
stream_append (suc f) zero a b p q = absurd (omega arith)
stream_append (suc f) (suc g) a b p q = elim (shape a) [
  | short l ↦ kept (stream_short f a l)
  | part n h r l ↦ kept (stream_partial f n a h r l)
  | whole n r l ↦
      let none_of : 20 + n - length a ≡ 0 = omega arith in
      let none_of' : 2 - length a ≡ 0 = omega arith in
      let front : take (20 + n) (a ++ b) ≡ take (20 + n) a =
        rw (take-append (20 + n) a b, none_of) (append-nil (take (20 + n) a)) in
      let rest : drop (20 + n) (a ++ b) ≡ drop (20 + n) a ++ b =
        rw (drop-append (20 + n) a b, none_of) in
      let reads : read_uint16_be (a ++ b) 2 ≡ ok n =
        ap uint16_be (drop-append 2 a b ∙ rw none_of')
        ∙ uint16_be-append (drop 2 a) b (omega (arith, length-drop {0} 2 a))
        ∙ r in
      let total : length (a ++ b) ≡ length a + length b = length-append a b in
      let shorter : length (drop (20 + n) a ++ b) ≡ length a - (20 + n) + length b =
        omega (arith, length-append {0} (drop (20 + n) a) b, length-drop {0} (20 + n) a) in
      stream_whole g n (a ++ b) reads (omega (arith, total))
      ∙ ap (λ (m : Buffer). stream_loop g (drop (20 + n) (a ++ b)) >>= prepend m) front
      ∙ ap (λ (x : Buffer). stream_loop g x >>= prepend (take (20 + n) a)) rest
      ∙ ap (λ (s : Result Split). s >>= prepend (take (20 + n) a))
          (stream_append f g (drop (20 + n) a) b (omega (arith, length-drop {0} (20 + n) a))
            (omega (arith, total, shorter)))
      ∙ continue-prepend b (take (20 + n) a) (stream_loop f (drop (20 + n) a))
      ∙ ap (λ (s : Result Split). s >>= continue b) (sym (stream_whole f n a r l))
]
  where
    kept :
        stream_loop (suc f) a ≡ ok ([], a)
        → stream_loop (suc g) (a ++ b) ≡ (stream_loop (suc f) a >>= continue b)
    kept e =
        stream_fuel (suc g) (suc (length (a ++ b))) (a ++ b) q (omega arith)
        ∙ sym (with_later-nil (stream_loop (suc (length (a ++ b))) (a ++ b)))
        ∙ ap (λ (s : Result Split). s >>= continue b) (sym e)

-- What is kept has no whole message.
abbrev IsKept : Buffer → Type 0
IsKept buffer = stream_loop (suc (length buffer)) buffer ≡ ok ([], buffer)

-- The loop returns, and keeps such a buffer.
stream_returns :
    (f : ℕ) (a : Buffer) → length a < f → (s : Split) × (stream_loop f a ≡ ok s) × IsKept s.1
stream_returns zero a p = absurd (omega arith)
stream_returns (suc f) a p = elim (shape a) [
  | short l ↦ (([], a), stream_short f a l, stream_short (length a) a l)
  | part n h r l ↦ (([], a), stream_partial f n a h r l, stream_partial (length a) n a h r l)
  | whole n r l ↦
      let (s, e, k) =
        stream_returns f (drop (20 + n) a) (omega (arith, length-drop {0} (20 + n) a)) in
      (
        (take (20 + n) a ∷ s.0, s.1),
        stream_whole f n a r l ∙ ap (λ (x : Result Split). x >>= prepend (take (20 + n) a)) e,
        k,
      )
]

on_stream_data_lem :
    (held chunk : Buffer)
    → on_stream_data held chunk ≡ stream_loop (suc (length (held ++ chunk))) (held ++ chunk)
unfolding on_stream_data
on_stream_data_lem [] chunk = refl
on_stream_data_lem (c ∷ cs) chunk = let e : ltb 0 (suc (length cs)) ≡ true = ground arith in rw e

on_chunks_lem :
    (chunks : List Buffer) (held : Buffer)
    → IsKept held
    → on_chunks chunks held
      ≡ stream_loop (suc (length (held ++ concat chunks))) (held ++ concat chunks)
unfolding on_chunks
on_chunks_lem [] held k = rw (append-nil held) (sym k)
on_chunks_lem (c ∷ more) held k =
    let so_far = held ++ c in
    let (s, e, kept) = stream_returns (suc (length so_far)) so_far (omega arith) in
    let all = so_far ++ concat more in
    let later : stream_loop (suc (length all)) all
        ≡ (stream_loop (suc (length so_far)) so_far >>= continue (concat more)) =
      stream_append (suc (length so_far)) (suc (length all)) so_far (concat more) (omega arith)
        (omega arith) in
    rw (on_stream_data_lem held c, e, on_chunks_lem more s.1 kept)
      (sym (
        ap (λ (bytes : Buffer). stream_loop (suc (length bytes)) bytes)
          (sym (append_assoc held c (concat more)))
        ∙ later
        ∙ ap (λ (r : Result Split). r >>= continue (concat more)) e))

-- Whatever the chunks that a stream comes in, even when they cut a message or its length, or have
-- several messages: `#handleMessage` is called with the messages of the whole stream, in order, and
-- the same bytes are kept for later; the loop always returns.
pub chunks_lem :
    (chunks : List Buffer)
    → (s : Split) × (on_chunks chunks [] ≡ ok s) × (on_stream_data [] (concat chunks) ≡ ok s)
chunks_lem chunks =
    let (s, e, kept) =
      stream_returns (suc (length (concat chunks))) (concat chunks) (omega arith) in
    (
      s,
      on_chunks_lem chunks [] (stream_short 0 [] (omega arith)) ∙ e,
      on_stream_data_lem [] (concat chunks) ∙ e,
    )
