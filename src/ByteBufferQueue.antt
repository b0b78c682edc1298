-- ===== src/ByteBufferQueue.antt =====
-- src/foundation/ByteBufferQueue.ts: a queue of byte buffers with a read offset in the front one.
pub mod Invariant
pub mod Loop
pub mod Refinement
use node_rtc_connection.Prelude.{
  ℕ, zero, suc, ◌+◌, ◌-◌, ◌≤◌, ◌<◌, ◌≡◌, arith, List, [], ◌∷◌, ◌++◌, Bool, true, false, ltb, leb,
  ◌==◌, not, if◌then◌else◌, length, drop, Result, ok, err, range_error, internal_error, out_of_fuel,
  ◌>>=◌, ◌>>◌, guard, min,
}
use node_rtc_connection.Buffer.{Buffer, copy, slice, concat}

-- `#size`, `#buffers` and `#frontBufferOffset`.
pub record ByteBufferQueue : Type 0 where
  pub size : ℕ
  pub buffers : List Buffer
  pub front_buffer_offset : ℕ

-- The constructor.
unfoldable pub create : ByteBufferQueue
create = record { size = 0; buffers = []; front_buffer_offset = 0 }

unfoldable pub is_empty : ByteBufferQueue → Bool
is_empty q = q.size == 0

-- The `for` loop of `#checkInvariants`: the sum of the sizes, or an error at an empty buffer.
buffer_size_sum : ℕ → List Buffer → Result ℕ
buffer_size_sum acc [] = ok acc
buffer_size_sum acc (b ∷ bs) =
    let rest = buffer_size_sum (acc + length b) bs in
    if length b == 0 then err internal_error else rest

-- The last test of `#checkInvariants`, on the buffers and the offset.
check_front : List Buffer → ℕ → Result (Unit {0})
check_front [] offset = guard (offset == 0) internal_error
check_front (b ∷ bs) offset = guard (ltb offset (length b)) internal_error

-- `#checkInvariants`. The first argument is the test that NODE_ENV is 'production'.
-- `expectedSize` is a difference that may be negative, so it is compared as a sum.
unfoldable pub check_invariants : Bool → ByteBufferQueue → Result (Unit {0})
unfolding buffer_size_sum check_front
check_invariants true q = ok tt
check_invariants false q = do
  sum ← buffer_size_sum 0 q.buffers
  guard (q.size + q.front_buffer_offset == sum) internal_error
  check_front q.buffers q.front_buffer_offset

-- The variables of the loop of `readInto`.
pub record Reading : Type 0 where
  pub left : List Buffer
  pub offset : ℕ
  pub output : Buffer
  pub output_offset : ℕ
  pub read_amount : ℕ

-- One round of that loop, on the front buffer.
unfoldable pub read_round : Buffer → List Buffer → Reading → Reading
read_round front rest r =
    let available = length front - r.offset in
    let remaining = length r.output - r.output_offset in
    let to_copy = min available remaining in
    let output = copy (slice front r.offset (r.offset + to_copy)) r.output_offset r.output in
    if ltb to_copy available
    then record {
      left = front ∷ rest;
      offset = r.offset + to_copy;
      output = output;
      output_offset = r.output_offset + to_copy;
      read_amount = r.read_amount + to_copy;
    }
    else record {
      left = rest;
      offset = 0;
      output = output;
      output_offset = r.output_offset + to_copy;
      read_amount = r.read_amount + to_copy;
    }

-- The loop ends when the output is full or no buffer is left. A round takes a buffer away or fills
-- the output, so one round more than there are buffers is enough.
unfoldable pub read_loop : ℕ → List Buffer → Reading → Result Reading
read_loop fuel [] r = ok r
read_loop zero (front ∷ rest) r =
    if ltb r.output_offset (length r.output) then err out_of_fuel else ok r
read_loop (suc fuel) (front ∷ rest) r =
    let r' = read_round front rest r in
    let more = read_loop fuel r'.left r' in
    if ltb r.output_offset (length r.output) then more else ok r

-- `readInto(bufferOut)`: the queue after it, the buffer that it wrote into and the amount read.
-- The amount read is at most the size while the class invariant holds, so the subtraction is exact.
unfoldable pub read_into : Bool → ByteBufferQueue → Buffer → Result (ByteBufferQueue × Buffer × ℕ)
read_into production q out = do
  r ← read_loop (suc (length q.buffers)) q.buffers (record {
    left = q.buffers;
    offset = q.front_buffer_offset;
    output = out;
    output_offset = 0;
    read_amount = 0;
  })
  let q' : ByteBufferQueue = record {
    size = q.size - r.read_amount;
    buffers = r.left;
    front_buffer_offset = r.offset;
  }
  check_invariants production q'
  ok (q', r.output, r.read_amount)

unfoldable pub append : Bool → ByteBufferQueue → Buffer → Result ByteBufferQueue
append production q b =
    let q' : ByteBufferQueue = record q {
      size = q.size + length b;
      buffers = q.buffers ++ (b ∷ []);
    } in
    if length b == 0 then ok q else (check_invariants production q' >> ok q')

unfoldable pub clear : Bool → ByteBufferQueue → Result ByteBufferQueue
unfolding create
clear production q = check_invariants production create >> ok create

-- `Buffer.allocUnsafe`, whose bytes are whatever the memory holds, is a parameter.
module _ (alloc_unsafe : ℕ → Buffer) where
  unfoldable pub read : Bool → ByteBufferQueue → ℕ → Result (ByteBufferQueue × Buffer)
  read production q n =
      let body : Result (ByteBufferQueue × Buffer) = do
        (q', result, bytes_read) ← read_into production q (alloc_unsafe n)
        guard (bytes_read == n) internal_error
        ok (q', result)
      in if ltb q.size n then err range_error else (if n == 0 then ok (q, alloc_unsafe 0) else body)

  -- The loop of `peek`, over the buffers from `bufferIndex` on.
  unfoldable pub peek_loop : List Buffer → ℕ → ℕ → ℕ → Buffer → Buffer
  peek_loop [] offset written amount result = result
  peek_loop (b ∷ bs) offset written amount result =
      let to_copy = min (length b - offset) (amount - written) in
      let more =
        peek_loop bs 0 (written + to_copy) amount
          (copy (slice b offset (offset + to_copy)) written result) in
      if ltb written amount then more else result

  unfoldable pub peek : ByteBufferQueue → ℕ → Buffer
  peek q n =
      let amount = min n q.size in
      if amount == 0
      then alloc_unsafe 0
      else peek_loop q.buffers q.front_buffer_offset 0 amount (alloc_unsafe amount)
