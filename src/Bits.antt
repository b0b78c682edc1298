-- ===== src/Bits.antt =====
-- Exclusive or of numbers that vary: its bound, and that a mask applied twice is gone; and the or of
-- numbers whose digits do not meet.
use Prim.Native.Nat.{bit_or, bit_or-bitwise, bit_xor, digits, differ, bit_xor-bitwise}
use node_rtc_connection.Prelude.{
  ℕ, zero, suc, max, ◌+◌, ◌-◌, sym, ◌*◌, ◌/◌, ◌%◌, ◌≤◌, ◌<◌, ◌≡◌, refl, ap, ◌∙◌, arith,
}

module _ (digit : ℕ → ℕ → ℕ) where
  -- What `bit_xor` and `bit_or` stand for: the digits of the two numbers, in at most `rounds` rounds.
  abbrev by_digits : ℕ → ℕ → ℕ → ℕ
  by_digits rounds x y = digits (λ rest. rest) digit rounds x y

  -- A round more than the first number needs adds nothing, and so do more of them.
  one_round_more : (rounds x y : ℕ) → x ≤ rounds → by_digits (suc rounds) x y ≡ by_digits rounds x y
  one_round_more zero (suc x) y few = absurd (omega arith)
  one_round_more zero zero y few = refl
  one_round_more (suc rounds) zero y few = refl
  one_round_more (suc rounds) (suc x) y few =
      ap (λ (high : ℕ). high * 2 + digit (suc x % 2) (y % 2))
        (one_round_more rounds (suc x / 2) (y / 2) (omega arith))

  rounds_more :
      (surplus many rounds x y : ℕ)
      → many ≡ surplus + rounds
      → x ≤ rounds
      → by_digits many x y ≡ by_digits rounds x y
  rounds_more zero many rounds x y gap few =
      let same : many ≡ rounds = omega (arith, gap) in ap (λ (n : ℕ). by_digits n x y) same
  rounds_more (suc surplus) zero rounds x y gap few = absurd (omega (arith, gap))
  rounds_more (suc surplus) (suc many) rounds x y gap few =
      one_round_more many x y (omega (arith, gap))
      ∙ rounds_more surplus many rounds x y (omega (arith, gap)) few

  half_rounds :
      (x y : ℕ)
      → by_digits (suc x) (suc x) y
        ≡ by_digits (suc x / 2) (suc x / 2) (y / 2) * 2 + digit (suc x % 2) (y % 2)
  half_rounds x y =
      ap (λ (n : ℕ). n * 2 + digit (suc x % 2) (y % 2))
        (rounds_more (x - suc x / 2) x (suc x / 2) (suc x / 2) (y / 2) (omega arith) (omega arith))

-- The lowest digit by itself.
bit_xor_step : (x y : ℕ) → bit_xor x y ≡ bit_xor (x / 2) (y / 2) * 2 + differ (x % 2) (y % 2)
bit_xor_step zero y =
    let whole : bit_xor 0 y ≡ y = bit_xor-bitwise 0 y in
    let half : bit_xor 0 (y / 2) ≡ y / 2 = bit_xor-bitwise 0 (y / 2) in
    let low : differ 0 (y % 2) ≡ y % 2 = refl in omega (arith, whole, half, low)
bit_xor_step (suc x) y =
    bit_xor-bitwise (suc x) y
    ∙ half_rounds differ x y
    ∙ ap (λ (n : ℕ). n * 2 + differ (suc x % 2) (y % 2)) (sym (bit_xor-bitwise (suc x / 2) (y / 2)))

bit_or_step : (x y : ℕ) → bit_or x y ≡ bit_or (x / 2) (y / 2) * 2 + max (x % 2) (y % 2)
bit_or_step zero y =
    let whole : bit_or 0 y ≡ y = bit_or-bitwise 0 y in
    let half : bit_or 0 (y / 2) ≡ y / 2 = bit_or-bitwise 0 (y / 2) in omega (arith, whole, half)
bit_or_step (suc x) y =
    bit_or-bitwise (suc x) y
    ∙ half_rounds max x y
    ∙ ap (λ (n : ℕ). n * 2 + max (suc x % 2) (y % 2)) (sym (bit_or-bitwise (suc x / 2) (y / 2)))

abbrev power : ℕ → ℕ
power zero = 1
power (suc k) = power k * 2

-- A number moved up by `k` digits.
abbrev raised : ℕ → ℕ → ℕ
raised zero a = a
raised (suc k) a = raised k a * 2

bit_or_zero_below : (n a : ℕ) → a ≤ n → bit_or a 0 ≡ a
bit_or_zero_below zero zero h = refl
bit_or_zero_below zero (suc a) h = absurd (omega arith)
bit_or_zero_below (suc n) zero h = refl
bit_or_zero_below (suc n) (suc a) h =
    omega (arith, bit_or_step (suc a) 0, bit_or_zero_below n (suc a / 2) (omega arith))

-- What is put below a number that was moved up is added to it.
bit_or_below : (k a b : ℕ) → b < power k → bit_or (raised k a) b ≡ raised k a + b
bit_or_below zero a zero h = omega (arith, bit_or_zero_below a a (omega arith))
bit_or_below zero a (suc b) h = absurd (omega arith)
bit_or_below (suc k) a b h =
    let half : raised k a * 2 / 2 ≡ raised k a = omega arith in
    let high : bit_or (raised k a * 2 / 2) (b / 2) ≡ raised k a + b / 2 =
      ap (λ (n : ℕ). bit_or n (b / 2)) half ∙ bit_or_below k a (b / 2) (omega arith) in
    omega (arith, bit_or_step (raised k a * 2) b, high)

bit_or_at : (k a b whole : ℕ) → whole ≡ raised k a → b < power k → bit_or whole b ≡ whole + b
bit_or_at k a b whole same h = rw same (bit_or_below k a b h)

-- The four bytes of a number, put together from the top.
pub bit_or_bytes :
    (a b c d : ℕ)
    → b < 256
    → c < 256
    → d < 256
    → bit_or (bit_or (bit_or (a * 16777216) (b * 65536)) (c * 256)) d
      ≡ a * 16777216 + b * 65536 + c * 256 + d
bit_or_bytes a b c d p q r =
    let first : bit_or (a * 16777216) (b * 65536) ≡ a * 16777216 + b * 65536 =
      bit_or_at 24 a (b * 65536) (a * 16777216) (omega arith) (omega arith) in
    let second : bit_or (a * 16777216 + b * 65536) (c * 256) ≡ a * 16777216 + b * 65536 + c * 256 =
      bit_or_at 16 (a * 256 + b) (c * 256) (a * 16777216 + b * 65536) (omega arith) (omega arith) in
    let third : bit_or (a * 16777216 + b * 65536 + c * 256) d
        ≡ a * 16777216 + b * 65536 + c * 256 + d =
      bit_or_at 8 (a * 65536 + b * 256 + c) d (a * 16777216 + b * 65536 + c * 256) (omega arith)
        (omega arith) in
    rw (first, second, third) refl

differ_bound : (x y : ℕ) → x < 2 → y < 2 → differ x y < 2
differ_bound zero y p q = q
differ_bound (suc x) zero p q = p
differ_bound (suc zero) (suc zero) p q = omega arith
differ_bound (suc zero) (suc (suc y)) p q = absurd (omega arith)
differ_bound (suc (suc x)) (suc y) p q = absurd (omega arith)

differ_twice : (x y : ℕ) → x < 2 → y < 2 → differ (differ x y) y ≡ x
differ_twice zero zero p q = refl
differ_twice zero (suc zero) p q = refl
differ_twice zero (suc (suc y)) p q = absurd (omega arith)
differ_twice (suc zero) zero p q = refl
differ_twice (suc zero) (suc zero) p q = refl
differ_twice (suc zero) (suc (suc y)) p q = absurd (omega arith)
differ_twice (suc (suc x)) y p q = absurd (omega arith)

bit_xor_bound : (k a b : ℕ) → a < power k → b < power k → bit_xor a b < power k
bit_xor_bound zero zero zero p q = omega arith
bit_xor_bound zero zero (suc b) p q = absurd (omega arith)
bit_xor_bound zero (suc a) b p q = absurd (omega arith)
bit_xor_bound (suc k) a b p q = omega (
  arith,
  bit_xor_step a b,
  bit_xor_bound k (a / 2) (b / 2) (omega arith) (omega arith),
  differ_bound (a % 2) (b % 2) (omega arith) (omega arith),
)

pub bit_xor-IsU16 : (a b : ℕ) → a < 65536 → b < 65536 → bit_xor a b < 65536
bit_xor-IsU16 a b p q = bit_xor_bound 16 a b p q

pub bit_xor-IsU32 : (a b : ℕ) → a < 4294967296 → b < 4294967296 → bit_xor a b < 4294967296
bit_xor-IsU32 a b p q = bit_xor_bound 32 a b p q

bit_xor_twice_below : (n a b : ℕ) → a + b ≤ n → bit_xor (bit_xor a b) b ≡ a
bit_xor_twice_below zero zero zero h = refl
bit_xor_twice_below zero zero (suc b) h = absurd (omega arith)
bit_xor_twice_below zero (suc a) b h = absurd (omega arith)
bit_xor_twice_below (suc n) a b h =
    let x = bit_xor a b in
    let small : differ (a % 2) (b % 2) < 2 =
      differ_bound (a % 2) (b % 2) (omega arith) (omega arith) in
    let half : x / 2 ≡ bit_xor (a / 2) (b / 2) = omega (arith, bit_xor_step a b, small) in
    let low : x % 2 ≡ differ (a % 2) (b % 2) = omega (arith, bit_xor_step a b, small) in
    let high : bit_xor (x / 2) (b / 2) ≡ a / 2 =
      ap (λ (y : ℕ). bit_xor y (b / 2)) half
      ∙ bit_xor_twice_below n (a / 2) (b / 2) (omega arith) in
    let last : differ (x % 2) (b % 2) ≡ a % 2 =
      ap (λ (y : ℕ). differ y (b % 2)) low
      ∙ differ_twice (a % 2) (b % 2) (omega arith) (omega arith) in
    omega (arith, bit_xor_step x b, high, last)

-- A mask that is applied twice is gone.
pub bit_xor_twice : (a b : ℕ) → bit_xor (bit_xor a b) b ≡ a
bit_xor_twice a b = bit_xor_twice_below (a + b) a b (omega arith)
