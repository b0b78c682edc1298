-- ===== src/Sdp/Lines.antt =====
-- Lines of a description: what is joined is split again.
use node_rtc_connection.Prelude.{
  ℕ, suc, zero, ◌+◌, ◌/◌, ◌%◌, ◌≡◌, refl, ap, ◌∙◌, Bool, true, false, ◌&&◌, ◌||◌, not, List, [],
  ◌∷◌, ◌++◌, ◌==◌, ==_iff, ltb, Bool-cases, inl, inr, arith, length,
}
use node_rtc_connection.Buffer.{Buffer}
use node_rtc_connection.Sdp.{is_space, split_lines, joined, trim, trim_start, trim_end, decimal}

-- A text without line breaks.
abbrev pub one_line : Buffer → Bool
one_line [] = true
one_line (c ∷ cs) = not (c == 10 || c == 13) && one_line cs

-- A text without white space.
abbrev pub one_word : Buffer → Bool
one_word [] = true
one_word (c ∷ cs) = not (is_space c) && one_word cs

abbrev pub all_lines : List Buffer → Bool
all_lines [] = true
all_lines (line ∷ lines) = one_line line && all_lines lines

pub both : (a b : Bool) → (a && b) ≡ true → (a ≡ true) × (b ≡ true)
both true true h = (refl, refl)
both true false h = absurd (cc h)
both false b h = absurd (cc h)

split_lines-append :
    (line rest : Buffer)
    → one_line line ≡ true
    → split_lines (line ++ (13 ∷ 10 ∷ rest)) ≡ line ∷ split_lines rest
unfolding split_lines
split_lines-append [] rest h = refl
split_lines-append (c ∷ cs) rest h =
    let (plain, more) = both (not (c == 10 || c == 13)) (one_line cs) h in
    let not_feed : (c == 10) ≡ false = ground (arith, plain) in
    let not_return : (c == 13) ≡ false = ground (arith, plain) in
    rw (not_feed, not_return, split_lines-append cs rest more) refl

pub split_lines-joined :
    (lines : List Buffer) → all_lines lines ≡ true → split_lines (joined lines) ≡ lines ++ ([] ∷ [])
unfolding joined split_lines
split_lines-joined [] h = refl
split_lines-joined (line ∷ lines) h =
    let (plain, more) = both (one_line line) (all_lines lines) h in
    split_lines-append line (joined lines) plain
    ∙ ap (λ (t : List Buffer). line ∷ t) (split_lines-joined lines more)

trim_start_lem : (text : Buffer) → one_word text ≡ true → trim_start text ≡ text
unfolding trim_start
trim_start_lem [] h = refl
trim_start_lem (c ∷ cs) h =
    let (plain, more) = both (not (is_space c)) (one_word cs) h in
    elim (Bool-cases (is_space c)) [ inl e ↦ absurd (cc (plain, ap not e)) | inr e ↦ rw e refl ]

trim_end_lem : (text : Buffer) → one_word text ≡ true → trim_end text ≡ text
unfolding trim_end
trim_end_lem [] h = refl
trim_end_lem (c ∷ cs) h =
    let (plain, more) = both (not (is_space c)) (one_word cs) h in
    elim (Bool-cases (is_space c)) [
      | inl e ↦ absurd (cc (plain, ap not e))
      | inr e ↦
          let kept : (length cs == 0 && is_space c) ≡ false = elim (Bool-cases (length cs == 0)) [
            | inl i ↦ rw (i, e) refl
            | inr i ↦ rw i refl
          ] in
          rw (trim_end_lem cs more, kept) refl
    ]

-- A word stands as it is.
pub trim_lem : (text : Buffer) → one_word text ≡ true → trim text ≡ text
unfolding trim
trim_lem text h = ap trim_end (trim_start_lem text h) ∙ trim_end_lem text h

pub one_line-append :
    (a b : Buffer) → one_line a ≡ true → one_line b ≡ true → one_line (a ++ b) ≡ true
one_line-append [] b h k = k
one_line-append (c ∷ cs) b h k =
    let (plain, more) = both (not (c == 10 || c == 13)) (one_line cs) h in
    rw (plain, one_line-append cs b more k) refl

-- A line break is white space.
no_break : (c : ℕ) → not (is_space c) ≡ true → not (c == 10 || c == 13) ≡ true
no_break c h = elim (Bool-cases (c == 10)) [
  | inl feed ↦
      let space : is_space c ≡ true = ap is_space ((==_iff c 10).0 feed) in
      absurd (cc (h, ap not space))
  | inr other ↦ elim (Bool-cases (c == 13)) [
    | inl back ↦
        let space : is_space c ≡ true = ap is_space ((==_iff c 13).0 back) in
        absurd (cc (h, ap not space))
    | inr neither ↦ rw (other, neither) refl
  ]
]

pub one_word-one_line : (text : Buffer) → one_word text ≡ true → one_line text ≡ true
one_word-one_line [] h = refl
one_word-one_line (c ∷ cs) h =
    let (plain, more) = both (not (is_space c)) (one_word cs) h in
    rw (no_break c plain, one_word-one_line cs more) refl

pub one_line-decimal : (rounds n : ℕ) → one_line (decimal rounds n) ≡ true
unfolding decimal
one_line-decimal zero n = refl
one_line-decimal (suc rounds) n =
    let digit : (d : ℕ) → one_line ((48 + d) ∷ []) ≡ true = λ d. ground arith in
    elim (Bool-cases (ltb n 10)) [
      | inl e ↦ rw e (digit n)
      | inr e ↦ rw e (
          one_line-append (decimal rounds (n / 10)) ((48 + n % 10) ∷ [])
            (one_line-decimal rounds (n / 10)) (digit (n % 10)))
    ]
