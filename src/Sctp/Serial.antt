-- ===== src/Sctp/Serial.antt =====
-- src/sctp/association.ts: `snLt` and `snLte`, and the 32-bit arithmetic on TSNs.
use node_rtc_connection.Prelude.{ℕ, ◌+◌, ◌-◌, ◌%◌, ◌≡◌, Bool, false, ◌||◌, ◌==◌, arith}
use node_rtc_connection.Int.{pos, sub_ℕ, ltb_ℤ, and_int32, signed32, to_unsigned}
use node_rtc_connection.Buffer.{to_uint32, IsU32}

-- `((a - b) & 0xffffffff) > 0x80000000`.
unfoldable pub sn_lt : ℕ → ℕ → Bool
sn_lt a b = ltb_ℤ (pos 0x8000_0000) (and_int32 (sub_ℕ a b) (pos 0xffff_ffff))

unfoldable pub sn_lte : ℕ → ℕ → Bool
sn_lte a b = (a == b) || sn_lt a b

-- `(tsn + 1) >>> 0`.
abbrev pub next_tsn : ℕ → ℕ
next_tsn tsn = to_uint32 (tsn + 1)

-- `(a - b) >>> 0`.
unfoldable pub sub_tsn : ℕ → ℕ → ℕ
sub_tsn a b = to_unsigned (sub_ℕ a b)

signed_small : (w : ℕ) → ltb_ℤ (pos 0x8000_0000) (signed32 w) ≡ false
signed_small w = ground arith

-- `snLt` is false of all numbers: `&` gives a signed 32-bit integer, which never exceeds 2^31.
pub sn_lt-false : (a b : ℕ) → sn_lt a b ≡ false
unfolding sn_lt
sn_lt-false a b = signed_small _

pub sn_lte_lem : (a b : ℕ) → sn_lte a b ≡ (a == b)
unfolding sn_lte
sn_lte_lem a b = ground (arith, sn_lt-false a b)

pub sub_tsn_lem : (a b : ℕ) → IsU32 a → IsU32 b → sub_tsn a b ≡ (a + 4294967296 - b) % 4294967296
unfolding sub_tsn
sub_tsn_lem a b ha hb = ground arith
