-- ===== src/Tests/Queue.antt =====
-- src/foundation/ByteBufferQueue.ts on concrete inputs.
use node_rtc_connection.Prelude.{◌≡◌, refl, false, [], ◌∷◌, arith, ok}
use node_rtc_connection.Buffer.{alloc, copy, length-alloc}
use node_rtc_connection.ByteBufferQueue.{
  ByteBufferQueue, read, read_into, read_round, read_loop, check_invariants,
}
use node_rtc_connection.ByteBufferQueue.Invariant.{IsValid, contents}
use node_rtc_connection.ByteBufferQueue.Refinement.{read-contents}

-- Three bytes in two buffers, the first of which is partly read.
abbrev partly_read : ByteBufferQueue
partly_read = record {
  size = 3;
  buffers = (7 ∷ 8 ∷ 9 ∷ []) ∷ (10 ∷ []) ∷ [];
  front_buffer_offset = 1;
}

partly_read-IsValid : IsValid partly_read
partly_read-IsValid = record { filled = omega arith; front = omega arith; sized = refl }

read_across :
    read alloc false partly_read 3
    ≡ ok (record { size = 0; buffers = []; front_buffer_offset = 0 }, 8 ∷ 9 ∷ 10 ∷ [])
unfolding read read_into read_loop read_round copy check_invariants
read_across = refl

read-contents_example :
    (q' : ByteBufferQueue) × (read alloc false partly_read 2 ≡ ok (q', 8 ∷ 9 ∷ []))
    × IsValid q'
    × (contents q' ≡ 10 ∷ [])
read-contents_example =
    read-contents alloc length-alloc false partly_read 2 partly_read-IsValid (omega arith)

partly_read_checked : check_invariants false partly_read ≡ ok tt
unfolding check_invariants
partly_read_checked = refl
