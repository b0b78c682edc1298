-- ===== src/Crypto/Der.antt =====
-- src/crypto/der.ts: the encoders of lengths, integers and wrapped values. (Object identifiers and times,
-- which start from strings and dates, are not modelled.)
pub mod Lengths
use node_rtc_connection.Prelude.{
  ℕ, zero, suc, ◌-◌, ◌/◌, ◌%◌, ◌&&◌, not, List, [], ◌∷◌, ◌++◌, ltb, ◌==◌, if◌then◌else◌, length,
  get_or, drop,
}
use Prim.Native.Nat.{bit_and, bit_or}
use node_rtc_connection.Buffer.{Buffer, alloc, concat}

-- The loop of `encodeLength`, with the rounds that are left: `n & 0xff`, then `n >>>= 8`. A round that
-- goes on makes the number smaller, so as many rounds as the number says are enough.
unfoldable pub length_bytes : ℕ → ℕ → Buffer → Buffer
length_bytes zero n bytes = bytes
length_bytes (suc fuel) n bytes =
    let rest = length_bytes fuel (n % 4294967296 / 256) (n % 256 ∷ bytes) in
    if n == 0 then bytes else rest

unfoldable pub encode_length : ℕ → Buffer
encode_length len =
    let bytes = length_bytes len len [] in
    if ltb len 0x80 then len ∷ [] else bit_or 0x80 (length bytes) ∷ bytes

-- `Buffer.from([tag])` keeps the low byte.
unfoldable pub tlv : ℕ → Buffer → Buffer
tlv tag body = concat ((tag % 256 ∷ []) ∷ encode_length (length body) ∷ body ∷ [])

-- The leading zeros that `encodeIntegerFromBuffer` strips: one byte stays.
unfoldable pub strip_zeros : Buffer → Buffer
strip_zeros [] = []
strip_zeros (a ∷ []) = a ∷ []
strip_zeros (a ∷ b ∷ bs) = let rest = strip_zeros (b ∷ bs) in if a == 0 then rest else a ∷ b ∷ bs

-- A zero in front where the high bit is set; `body[0]` of an empty body is undefined, and counts as 0.
unfoldable pub positive : Buffer → Buffer
positive body = if not (bit_and (get_or body 0 0) 0x80 == 0) then 0 ∷ body else body

unfoldable pub encode_integer_from_buffer : Buffer → Buffer
encode_integer_from_buffer buf = tlv 0x02 (positive (strip_zeros buf))

-- The loop of `encodeInteger`, with rounds as in `length_bytes`.
unfoldable pub integer_bytes : ℕ → ℕ → Buffer → Buffer
integer_bytes zero n bytes = bytes
integer_bytes (suc fuel) n bytes =
    let rest = integer_bytes fuel (n / 256) (n % 256 ∷ bytes) in if n == 0 then bytes else rest

unfoldable pub encode_integer : ℕ → Buffer
encode_integer value =
    if value == 0 then tlv 0x02 (0 ∷ []) else tlv 0x02 (positive (integer_bytes value value []))

unfoldable pub encode_bit_string : Buffer → Buffer
encode_bit_string data' = tlv 0x03 (concat ((0 ∷ []) ∷ data' ∷ []))

unfoldable pub encode_octet_string : Buffer → Buffer
encode_octet_string data' = tlv 0x04 data'

unfoldable pub encode_sequence : List Buffer → Buffer
encode_sequence components = tlv 0x30 (concat components)

unfoldable pub encode_set : List Buffer → Buffer
encode_set components = tlv 0x31 (concat components)

unfoldable pub encode_null : Buffer
encode_null = tlv 0x05 (alloc 0)

unfoldable pub encode_explicit : ℕ → Buffer → Buffer
encode_explicit n body = tlv (bit_or 0xa0 n) body
