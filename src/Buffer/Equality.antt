-- ===== src/Buffer/Equality.antt =====
-- Node's comparisons of buffers, as documented.
use node_rtc_connection.Prelude.{
  sym, ℕ, ◌≡◌, ◌≢◌, ◌⊎◌, refl, ap, ◌∙◌, inl, inr, Bool, true, false, ◌&&◌, [], ◌∷◌, arith, ◌==◌,
  ==_iff, Bool-cases, if◌then◌else◌, length, Exception, range_error, Result, ok, err,
}
use node_rtc_connection.Buffer.{Buffer}
use node_rtc_connection.Map.{Eq}

-- `a.equals(b)`.
unfoldable pub bytes_equal : Buffer → Buffer → Bool
bytes_equal [] [] = true
bytes_equal [] (b ∷ bs) = false
bytes_equal (a ∷ as') [] = false
bytes_equal (a ∷ as') (b ∷ bs) = (a == b) && bytes_equal as' bs

-- `crypto.timingSafeEqual`, which throws where the lengths differ.
unfoldable pub timing_safe_equal : Buffer → Buffer → Result Bool
unfolding bytes_equal
timing_safe_equal a b = if length a == length b then ok (bytes_equal a b) else err range_error

pub bytes_equal-true : (xs ys : Buffer) → bytes_equal xs ys ≡ true → xs ≡ ys
unfolding bytes_equal
bytes_equal-true [] [] h = refl
bytes_equal-true [] (y ∷ ys) h = cc
bytes_equal-true (x ∷ xs) [] h = cc
bytes_equal-true (x ∷ xs) (y ∷ ys) h = elim (Bool-cases (x == y)) [
  | inl e ↦
      ap (◌∷◌ x) (bytes_equal-true xs ys (rw e at h)) ∙ ap (λ (n : ℕ). n ∷ ys) ((==_iff x y).0 e)
  | inr e ↦ absurd (cc (rw e at h))
]

pub bytes_equal-false : (xs ys : Buffer) → xs ≢ ys → bytes_equal xs ys ≡ false
bytes_equal-false xs ys h = elim (Bool-cases (bytes_equal xs ys)) [
  | inl e ↦ absurd (h (bytes_equal-true xs ys e))
  | inr e ↦ e
]

pub bytes_equal_refl : (v : Buffer) → bytes_equal v v ≡ true
unfolding bytes_equal
bytes_equal_refl [] = refl
bytes_equal_refl (x ∷ xs) =
    let same : (x == x) ≡ true = ground arith in rw (same, bytes_equal_refl xs) refl

pub timing_safe_equal-same : (v : Buffer) → timing_safe_equal v v ≡ ok true
unfolding timing_safe_equal
timing_safe_equal-same v =
    let same : (length v == length v) ≡ true = ground arith in rw (same, bytes_equal_refl v) refl

-- Bytes that differ throw or compare as different.
pub timing_safe_equal-differs :
    (a b : Buffer)
    → a ≢ b
    → (timing_safe_equal a b ≡ ok false) ⊎ ((e : Exception) × (timing_safe_equal a b ≡ err e))
unfolding timing_safe_equal
timing_safe_equal-differs a b h = elim (Bool-cases (length a == length b)) [
  | inl same ↦ inl (rw (same, bytes_equal-false a b h) refl)
  | inr other ↦ inr (range_error, rw other refl)
]

instance abbrev pub buffer_eq : Eq Buffer
buffer_eq = record {
  beq = bytes_equal;
  beq_iff = λ a b. (bytes_equal-true a b, λ e. ap (bytes_equal a) (sym e) ∙ bytes_equal_refl a);
}
