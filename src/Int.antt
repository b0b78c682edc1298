-- ===== src/Int.antt =====
-- Signed integers over the native numbers, under the library's names, and JavaScript's conversion of
-- a number to a signed 32-bit integer, which its bit operations `&`, `|` and `^` work on.
use Prim.Native.Nat.{bit_and}
use node_rtc_connection.Prelude.{ℕ, suc, ◌+◌, ◌-◌, ◌%◌, Bool, ltb, leb, if◌then◌else◌}

-- `negsuc n` is -(n + 1).
pub data ℤ : Type 0 where
  pos : ℕ → ℤ
  negsuc : ℕ → ℤ

abbrev pub pos_part : ℤ → ℕ
pos_part (pos n) = n
pos_part (negsuc n) = 0

abbrev pub neg_part : ℤ → ℕ
neg_part (pos n) = 0
neg_part (negsuc n) = suc n

-- a - b, as an integer.
abbrev pub sub_ℕ : ℕ → ℕ → ℤ
sub_ℕ a b = if leb b a then pos (a - b) else negsuc (b - a - 1)

-- `a < b`.
abbrev pub ltb_ℤ : ℤ → ℤ → Bool
ltb_ℤ a b = ltb (pos_part a + neg_part b) (pos_part b + neg_part a)

-- The 32 low bits of an integer in two's complement, and the signed integer of 32 bits.
abbrev pub low_bits : ℤ → ℕ
low_bits (pos n) = n % 4294967296
low_bits (negsuc n) = 4294967295 - n % 4294967296

abbrev pub signed32 : ℕ → ℤ
signed32 w = if ltb w 2147483648 then pos w else negsuc (4294967295 - w)

-- `a & b`: both sides are converted to 32 bits, and the result is signed.
abbrev pub and_int32 : ℤ → ℤ → ℤ
and_int32 a b = signed32 (bit_and (low_bits a) (low_bits b))

-- `a >>> 0`: the same 32 bits as an unsigned integer.
abbrev pub to_unsigned : ℤ → ℕ
to_unsigned = low_bits
