-- ===== src/Sctp/Checksum.antt =====
-- src/sctp/crc32c.ts: CRC-32C, and the checksum field of an SCTP packet. A number that JavaScript's
-- bit operations hold as a signed 32-bit integer is its bit pattern, below 2^32.
pub mod Laws
use node_rtc_connection.Prelude.{
  ℕ, zero, suc, ◌+◌, ◌-◌, ◌*◌, ◌/◌, ◌%◌, ◌^◌, ◌≤◌, ◌<◌, min, max, ◌≡◌, refl, sym, ap, ◌∙◌, ◌≢◌, ◌↔◌,
  ◌⊎◌, inl, inr, Bool, true, false, ◌&&◌, ◌||◌, not, Option, none, some, List, [], ◌∷◌, ◌++◌, map,
  append-nil, append_assoc, arith, ltb, leb, ◌==◌, if◌then◌else◌, ltb→lt, lt→ltb, leb→le, ==_iff,
  tests, Bool-cases, Option-cases, length, get_elem?, length-append, get_or, take, drop, replicate,
  length-take, length-drop, length-replicate, length-map, replicate-add, drop-append_length,
  take-append_length, drop-drop, take_all, drop_all, take-append, drop-append, All, All-append,
  Exception, range_error, type_error, state_error, internal_error, out_of_fuel, Result, ok, err,
  ◌>>=◌, ◌>>◌, guard, bind_returned,
}
use node_rtc_connection.Buffer.{
  Buffer, IsByte, IsU16, IsU32, to_uint32, to_uint32_id, be16, be32, le32, uint8, uint16_be,
  uint32_be, uint32_le, read_uint8, read_uint16_be, read_uint32_be, read_uint32_le, slice, alloc,
  concat, overwrite, write_uint8, write_uint16_be, write_uint32_be, write_uint32_le, copy,
  overwrite_seam, alloc_four, drop-alloc, length-alloc, copy-alloc, be16_lem, be32_lem,
  concat-append, copy-append,
}
use Prim.Native.Nat.{bit_and, bit_xor}

-- `c & 1 ? 0x82f63b78 ^ (c >>> 1) : c >>> 1`.
abbrev shift_round : ℕ → ℕ
shift_round c = if bit_and c 1 == 0 then c / 2 else bit_xor 0x82f6_3b78 (c / 2)

-- The inner loop over `k`, with the rounds that are left.
shift_rounds : ℕ → ℕ → ℕ
shift_rounds zero c = c
shift_rounds (suc k) c = shift_rounds k (shift_round c)

-- The outer loop over `n`: the entries from `n` on, as many as are left.
table_from : ℕ → ℕ → List ℕ
unfolding shift_rounds
table_from zero n = []
table_from (suc left) n = to_uint32 (shift_rounds 8 n) ∷ table_from left (n + 1)

table : List ℕ
unfolding table_from
table = table_from 256 0

-- `crc = TABLE[(crc ^ buf[i]) & 0xff] ^ (crc >>> 8)`, over the bytes that are left.
crc_loop : List ℕ → ℕ → Buffer → ℕ
crc_loop entries crc [] = crc
crc_loop entries crc (b ∷ bs) =
    crc_loop entries (bit_xor (get_or entries (bit_and (bit_xor crc b) 0xff) 0) (crc / 256)) bs

pub crc32c : Buffer → ℕ
unfolding crc_loop table
crc32c buf = to_uint32 (bit_xor (crc_loop table 0xffff_ffff buf) 0xffff_ffff)

unfoldable pub apply_checksum : Buffer → Result Buffer
apply_checksum packet = do
  zeroed ← write_uint32_le 0 8 packet
  let crc = crc32c zeroed
  write_uint32_le crc 8 zeroed

-- The packet is written to and restored: it is returned beside the answer.
unfoldable pub verify_checksum : Buffer → Result (Bool × Buffer)
verify_checksum packet = do
  original ← read_uint32_le packet 8
  zeroed ← write_uint32_le 0 8 packet
  let crc = crc32c zeroed
  restored ← write_uint32_le original 8 zeroed
  ok (crc == original, restored)

-- The check value of CRC-32C: the CRC of "123456789".
crc32c_check_value :
    crc32c (0x31 ∷ 0x32 ∷ 0x33 ∷ 0x34 ∷ 0x35 ∷ 0x36 ∷ 0x37 ∷ 0x38 ∷ 0x39 ∷ []) ≡ 0xe306_9283
unfolding crc32c
crc32c_check_value = refl
