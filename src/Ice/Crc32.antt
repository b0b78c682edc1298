-- ===== src/Ice/Crc32.antt =====
-- src/ice/stun-message.ts: CRC-32, for the FINGERPRINT attribute. A number that JavaScript's bit
-- operations hold as a signed 32-bit integer is its bit pattern, below 2^32.
use node_rtc_connection.Prelude.{
  ℕ, zero, suc, ◌+◌, ◌/◌, ◌≡◌, refl, List, [], ◌∷◌, get_or, ◌==◌, if◌then◌else◌,
}
use node_rtc_connection.Buffer.{Buffer, to_uint32}
use Prim.Native.Nat.{bit_and, bit_xor}

-- `c & 1 ? 0xedb88320 ^ (c >>> 1) : c >>> 1`.
abbrev shift_round : ℕ → ℕ
shift_round c = if bit_and c 1 == 0 then c / 2 else bit_xor 0xedb8_8320 (c / 2)

-- The inner loop over `k`, with the rounds that are left.
shift_rounds : ℕ → ℕ → ℕ
shift_rounds zero c = c
shift_rounds (suc k) c = shift_rounds k (shift_round c)

-- The outer loop over `n`: the entries from `n` on, as many as are left.
table_from : ℕ → ℕ → List ℕ
unfolding shift_rounds
table_from zero n = []
table_from (suc left) n = to_uint32 (shift_rounds 8 n) ∷ table_from left (n + 1)

crc_table : List ℕ
unfolding table_from
crc_table = table_from 256 0

-- `crc = CRC_TABLE[(crc ^ buf[i]) & 0xff] ^ (crc >>> 8)`, over the bytes that are left.
crc_loop : List ℕ → ℕ → Buffer → ℕ
crc_loop entries crc [] = crc
crc_loop entries crc (b ∷ bs) =
    crc_loop entries (bit_xor (get_or entries (bit_and (bit_xor crc b) 0xff) 0) (crc / 256)) bs

unfoldable pub crc32 : Buffer → ℕ
unfolding crc_loop crc_table
crc32 buf = to_uint32 (bit_xor (crc_loop crc_table 0xffff_ffff buf) 0xffff_ffff)

-- The check value of CRC-32: the CRC of "123456789".
crc32_check_value :
    crc32 (0x31 ∷ 0x32 ∷ 0x33 ∷ 0x34 ∷ 0x35 ∷ 0x36 ∷ 0x37 ∷ 0x38 ∷ 0x39 ∷ []) ≡ 0xcbf4_3926
unfolding crc32
crc32_check_value = refl
