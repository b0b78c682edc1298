-- ===== src/Map.antt =====
-- JavaScript's Map: entries in the order of insertion, each key once.
use node_rtc_connection.Prelude.{
  ℕ, suc, ◌≤◌, ◌≡◌, refl, sym, ap, ◌∙◌, Bool, true, false, ◌&&◌, Option, none, some, List, [], ◌∷◌,
  ◌==◌, if◌then◌else◌, length, ◌↔◌, arith, ==_iff, not, Bool-cases, inl, inr,
}

-- `===` on keys.
pub record Eq (K : Type 0) : Type 0 where
  pub beq : K → K → Bool
  pub beq_iff : (a b : K) → (beq a b ≡ true) ↔ (a ≡ b)

abbrev pub nat_beq : ℕ → ℕ → Bool
nat_beq a b = a == b

instance abbrev pub nat_eq : Eq ℕ
nat_eq = record { beq = nat_beq; beq_iff = ==_iff }

abbrev pub bool_beq : Bool → Bool → Bool
bool_beq true b = b
bool_beq false b = not b

abbrev pub pair_beq : ℕ × Bool → ℕ × Bool → Bool
pair_beq (a, b) (c, d) = (a == c) && bool_beq b d

pub pair_beq_iff : (p q : ℕ × Bool) → (pair_beq p q ≡ true) ↔ (p ≡ q)
pair_beq_iff (a, b) (c, d) = (forth b d, back b d)
  where
    forth : (b d : Bool) → ((a == c) && bool_beq b d) ≡ true → ◌≡◌ {A = ℕ × Bool} (a, b) (c, d)
    forth true true h = ground arith
    forth true false h = ground arith
    forth false true h = ground arith
    forth false false h = ground arith

    back : (b d : Bool) → ◌≡◌ {A = ℕ × Bool} (a, b) (c, d) → ((a == c) && bool_beq b d) ≡ true
    back true true h = ground arith
    back true false h = ground arith
    back false true h = ground arith
    back false false h = ground arith

instance abbrev pub pair_eq : Eq (ℕ × Bool)
pair_eq = record { beq = pair_beq; beq_iff = pair_beq_iff }

module _ {K V : Type 0} ⦃e : Eq K⦄ where
  -- `map.get(k)`; `none` is undefined.
  unfoldable pub get : K → List (K × V) → Option V
  get k [] = none
  get k ((j, v) ∷ m) = if e.beq j k then some v else get k m

  -- `map.set(k, v)`: a key that is there keeps its place.
  unfoldable pub put : K → V → List (K × V) → List (K × V)
  put k v [] = (k, v) ∷ []
  put k v ((j, w) ∷ m) = if e.beq j k then (j, v) ∷ m else (j, w) ∷ put k v m

  -- `map.delete(k)`.
  unfoldable pub delete : K → List (K × V) → List (K × V)
  delete k [] = []
  delete k ((j, v) ∷ m) = if e.beq j k then m else (j, v) ∷ delete k m

  -- `map.has(k)`.
  unfoldable pub has : K → List (K × V) → Bool
  has k [] = false
  has k ((j, v) ∷ m) = if e.beq j k then true else has k m

  abbrev pub keys : List (K × V) → List K
  keys [] = []
  keys ((j, v) ∷ m) = j ∷ keys m

  abbrev pub size : List (K × V) → ℕ
  size = length

  pub length-delete : (k : K) (m : List (K × V)) → length (delete k m) ≤ length m
  unfolding delete
  length-delete k [] = omega arith
  length-delete k ((j, v) ∷ m) = ground (arith, length-delete k m)

  pub length-put : (k : K) (v : V) (m : List (K × V)) → length (put k v m) ≤ suc (length m)
  unfolding put
  length-put k v [] = omega arith
  length-put k v ((j, w) ∷ m) = ground (arith, length-put k v m)

  pub length-delete_lt :
      (k : K) (m : List (K × V)) → has k m ≡ true → suc (length (delete k m)) ≡ length m
  unfolding delete has
  length-delete_lt k [] h = cc
  length-delete_lt k ((j, v) ∷ m) h = ground (arith, length-delete_lt k m)

  -- `get` answers where `has` does.
  pub has-get : (k : K) (m : List (K × V)) → has k m ≡ true → (v : V) × (get k m ≡ some v)
  unfolding has get
  has-get k [] h = cc
  has-get k ((j, v) ∷ m) h = elim (Bool-cases (e.beq j k)) [
    | inl same ↦ (v, rw same)
    | inr other ↦ rw other (has-get k m (rw other at h))
  ]

  pub get-put : (k : K) (v : V) (m : List (K × V)) → get k (put k v m) ≡ some v
  unfolding get put
  get-put k v [] = rw ((e.beq_iff k k).1 refl)
  get-put k v ((j, w) ∷ m) = elim (Bool-cases (e.beq j k)) [
    | inl same ↦ rw (same, same)
    | inr other ↦ rw (other, other) (get-put k v m)
  ]

  pub get-put_lem :
      (j k : K) (v : V) (m : List (K × V))
      → get j (put k v m) ≡ (if e.beq k j then some v else get j m)
  unfolding get put
  get-put_lem j k v [] = refl
  get-put_lem j k v ((i, w) ∷ m) = elim (Bool-cases (e.beq i k)) [
    | inl same ↦
        let i_is_k : i ≡ k = (e.beq_iff i k).0 same in
        rw (same, i_is_k) (elim (Bool-cases (e.beq k j)) [ inl h ↦ rw h | inr h ↦ rw h ])
    | inr other ↦ rw other (elim (Bool-cases (e.beq i j)) [
      | inl h ↦
          let i_is_j : i ≡ j = (e.beq_iff i j).0 h in
          let k_not_j : e.beq k j ≡ false = elim (Bool-cases (e.beq k j)) [
            | inl h' ↦
                let clash : e.beq i k ≡ true =
                  (e.beq_iff i k).1 (i_is_j ∙ sym ((e.beq_iff k j).0 h')) in
                absurd (cc (clash, other))
            | inr h' ↦ h'
          ] in
          rw (h, k_not_j)
      | inr h ↦ rw h (get-put_lem j k v m)
    ])
  ]

  pub get-delete_other :
      (j k : K) (m : List (K × V)) → e.beq k j ≡ false → get j (delete k m) ≡ get j m
  unfolding get delete
  get-delete_other j k [] h = refl
  get-delete_other j k ((i, w) ∷ m) h = elim (Bool-cases (e.beq i k)) [
    | inl same ↦
        let i_not_j : e.beq i j ≡ false = ap (λ (x : K). e.beq x j) ((e.beq_iff i k).0 same) ∙ h in
        rw (same, i_not_j)
    | inr other ↦ rw (other, get-delete_other j k m h)
  ]

  pub put-put : (k : K) (v w : V) (m : List (K × V)) → put k w (put k v m) ≡ put k w m
  unfolding put
  put-put k v w [] = rw ((e.beq_iff k k).1 refl)
  put-put k v w ((j, u) ∷ m) = elim (Bool-cases (e.beq j k)) [
    | inl same ↦ rw (same, same)
    | inr other ↦ rw (other, other) (ap (λ (t : List (K × V)). (j, u) ∷ t) (put-put k v w m))
  ]

  -- A key that is not there is put behind the others, and taken off again.
  pub delete-put :
      (k : K) (v : V) (m : List (K × V))
      → get k m ≡ none
      → (delete k (put k v m) ≡ m) × (length (put k v m) ≡ suc (length m))
  unfolding get put delete
  delete-put k v [] h = (rw ((e.beq_iff k k).1 refl), refl)
  delete-put k v ((j, u) ∷ m) h = elim (Bool-cases (e.beq j k)) [
    | inl same ↦ let clash : ◌≡◌ {A = Option V} (some u) none = rw same at h in absurd (cc clash)
    | inr other ↦
        let (back, one_more) = delete-put k v m (rw other at h) in
        (rw (other, other) (ap (λ (t : List (K × V)). (j, u) ∷ t) back), rw other (ap suc one_more))
  ]
