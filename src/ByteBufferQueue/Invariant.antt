-- ===== src/ByteBufferQueue/Invariant.antt =====
-- The invariant that the class comment states, and that `#checkInvariants` tests.
use node_rtc_connection.Prelude.{
  ℕ, ◌+◌, ◌<◌, ◌≡◌, refl, arith, List, [], ◌∷◌, Bool, true, false, length, drop, All, ok,
  length-append, length-drop, bind_returned,
}
use node_rtc_connection.Buffer.{Buffer, concat}
use node_rtc_connection.ByteBufferQueue.{
  ByteBufferQueue, create, buffer_size_sum, check_front, check_invariants,
}

abbrev pub IsFilled : Buffer → Type 0
IsFilled b = 0 < length b

-- The offset lies inside the front buffer, and is 0 where there is none.
abbrev pub IsFrontOffset : List Buffer → ℕ → Type 0
IsFrontOffset [] offset = offset ≡ 0
IsFrontOffset (b ∷ bs) offset = offset < length b

pub record IsValid (q : ByteBufferQueue) : Type 0 where
  pub filled : All IsFilled q.buffers
  pub front : IsFrontOffset q.buffers q.front_buffer_offset
  pub sized : q.size + q.front_buffer_offset ≡ length (concat q.buffers)

-- The bytes that are still to be read, in order: the abstract queue.
abbrev pub contents : ByteBufferQueue → Buffer
contents q = drop q.front_buffer_offset (concat q.buffers)

pub create-IsValid : IsValid create
unfolding create
create-IsValid = record { filled = tt; front = refl; sized = refl }

pub size-length : (q : ByteBufferQueue) → IsValid q → q.size ≡ length (contents q)
size-length q v = omega (arith, v.sized, length-drop q.front_buffer_offset (concat q.buffers))

buffer_size_sum_lem :
    (acc : ℕ) (bs : List Buffer)
    → All IsFilled bs
    → buffer_size_sum acc bs ≡ ok (acc + length (concat bs))
unfolding buffer_size_sum
buffer_size_sum_lem acc [] h = ground arith
buffer_size_sum_lem acc (b ∷ bs) h =
    ground (arith, buffer_size_sum_lem (acc + length b) bs h.1, length-append b (concat bs), h.0)

check_front_lem :
    (bs : List Buffer) (offset : ℕ) → IsFrontOffset bs offset → check_front bs offset ≡ ok tt
unfolding check_front
check_front_lem [] offset h = ground arith
check_front_lem (b ∷ bs) offset h = ground arith

-- On a valid queue `#checkInvariants` throws nothing, in either mode.
pub check_invariants_lem :
    (production : Bool) (q : ByteBufferQueue) → IsValid q → check_invariants production q ≡ ok tt
unfolding check_invariants
check_invariants_lem true q v = refl
check_invariants_lem false q v =
    rw (buffer_size_sum_lem 0 q.buffers v.filled)
      (ground (arith, v.sized, check_front_lem q.buffers q.front_buffer_offset v.front))

sum_inversion :
    (acc : ℕ) (bs : List Buffer) (n : ℕ)
    → buffer_size_sum acc bs ≡ ok n
    → All IsFilled bs × (n ≡ acc + length (concat bs))
unfolding buffer_size_sum
sum_inversion acc [] n h = ground arith
sum_inversion acc (b ∷ bs) n h =
    ground (arith, sum_inversion (acc + length b) bs n, length-append b (concat bs))

front_inversion :
    (bs : List Buffer) (offset : ℕ) → check_front bs offset ≡ ok tt → IsFrontOffset bs offset
unfolding check_front
front_inversion [] offset h = ground arith
front_inversion (b ∷ bs) offset h = ground arith

-- And in development mode it throws on every queue that is not valid.
pub check_invariants-IsValid : (q : ByteBufferQueue) → check_invariants false q ≡ ok tt → IsValid q
unfolding check_invariants
check_invariants-IsValid q h =
    let (n, e, rest) = bind_returned (buffer_size_sum 0 q.buffers) _ h in
    let (filled, total) = sum_inversion 0 q.buffers n e in
    record {
      filled = filled;
      front = front_inversion q.buffers q.front_buffer_offset (ground (arith, rest));
      sized = ground (arith, rest, total);
    }
