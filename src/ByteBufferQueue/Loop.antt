-- ===== src/ByteBufferQueue/Loop.antt =====
-- The loop of `readInto`: what it writes, what it leaves, and that its rounds are enough.
use node_rtc_connection.Prelude.{
  ℕ, zero, suc, ◌+◌, ◌-◌, ◌≤◌, ◌<◌, min, ◌≡◌, refl, sym, ◌∙◌, false, List, [], ◌∷◌, ◌++◌,
  append-nil, append_assoc, arith, ltb, lt→ltb, length, length-append, take, drop, length-take,
  length-drop, drop-drop, take_all, drop_all, take-append, drop-append, All, ok,
}
use node_rtc_connection.Buffer.{Buffer, concat, copy-append}
use native.Mathlib.Decide.{dec_lt}
use native.Mathlib.Nat.{le_refl}
use node_rtc_connection.ByteBufferQueue.{Reading, read_round, read_loop}
use node_rtc_connection.ByteBufferQueue.Invariant.{IsFilled, IsFrontOffset}

-- The loop's variables, with the output split where the next byte goes.
abbrev pub reading : List Buffer → ℕ → Buffer → Buffer → ℕ → Reading
reading bs offset done rest amount = record {
  left = bs;
  offset = offset;
  output = done ++ rest;
  output_offset = length done;
  read_amount = amount;
}

abbrev pub pending : ℕ → List Buffer → Buffer
pending offset bs = drop offset (concat bs)

-- What the loop has done when it ends.
pub record Reads (bs : List Buffer) (offset : ℕ) (done rest : Buffer) (amount : ℕ) (r : Reading)
    : Type 0 where
  pub output :
      r.output
      ≡ done ++ (take (length rest) (pending offset bs) ++ drop (length (pending offset bs)) rest)
  pub amount' : r.read_amount ≡ amount + min (length rest) (length (pending offset bs))
  pub filled : All IsFilled r.left
  pub front : IsFrontOffset r.left r.offset
  pub left : pending r.offset r.left ≡ drop (length rest) (pending offset bs)

pub offset-le :
    (bs : List Buffer) (offset : ℕ) → IsFrontOffset bs offset → offset ≤ length (concat bs)
offset-le [] offset h = omega arith
offset-le (b ∷ bs) offset h = omega (arith, length-append {0} b (concat bs))

read_loop_full :
    (fuel : ℕ) (bs : List Buffer) (r : Reading)
    → length r.output ≤ r.output_offset
    → read_loop fuel bs r ≡ ok r
unfolding read_loop
read_loop_full zero [] r h = refl
read_loop_full (suc fuel) [] r h = refl
read_loop_full zero (b ∷ bs) r h = ground arith
read_loop_full (suc fuel) (b ∷ bs) r h = ground arith

module _ (f : Buffer) (bs : List Buffer) (offset : ℕ) (done rest : Buffer) (amount : ℕ) where
  room : length (done ++ rest) - length done ≡ length rest
  room = omega (arith, length-append {0} done rest)

  round_partial :
      length rest < length f - offset
      → read_round f bs (reading (f ∷ bs) offset done rest amount)
        ≡ reading
            (f ∷ bs)
            (offset + length rest)
            (done ++ take (length rest) (drop offset f))
            []
            (amount + length rest)
  unfolding read_round
  round_partial h =
      let taken : length (take (length rest) (drop offset f)) ≡ length rest =
        omega (arith, length-take {0} (length rest) (drop offset f), length-drop {0} offset f) in
      let least : min (length f - offset) (length rest) ≡ length rest = omega arith in
      let span : offset + length rest - offset ≡ length rest = omega arith in
      rw (room, least, span, lt→ltb _ _ h, copy-append)
        (ground (
          arith,
          taken,
          take_all (length rest) (take (length rest) (drop offset f)),
          drop_all (length (take (length rest) (drop offset f))) rest,
          append-nil (take (length rest) (drop offset f)),
          append-nil (done ++ take (length rest) (drop offset f)),
          length-append done (take (length rest) (drop offset f)),
        ))

  round_whole :
      offset ≤ length f
      → length f - offset ≤ length rest
      → read_round f bs (reading (f ∷ bs) offset done rest amount)
        ≡ reading bs 0
            (done ++ drop offset f)
            (drop (length f - offset) rest)
            (amount + (length f - offset))
  unfolding read_round
  round_whole o h =
      let whole : length (drop offset f) ≡ length f - offset =
        omega (arith, length-drop {0} offset f) in
      let least : min (length f - offset) (length rest) ≡ length f - offset = omega arith in
      let span : offset + (length f - offset) - offset ≡ length f - offset = omega arith in
      let taken : take (length f - offset) (drop offset f) ≡ drop offset f =
        take_all _ _ (omega arith) in
      let kept : take (length rest) (drop offset f) ≡ drop offset f = take_all _ _ (omega arith) in
      let same : ltb (length f - offset) (length f - offset) ≡ false = ground arith in
      rw (room, least, span, same, taken, copy-append, kept, whole)
        (ground (
          arith,
          append_assoc done (drop offset f) (drop (length f - offset) rest),
          length-append done (drop offset f),
        ))

-- A loop that has nothing to write, or nothing to read, stops.
nothing-Reads :
    (bs : List Buffer) (offset : ℕ) (done : Buffer) (amount : ℕ)
    → All IsFilled bs
    → IsFrontOffset bs offset
    → Reads bs offset done [] amount (reading bs offset done [] amount)
nothing-Reads bs offset done amount fs fr = record {
  output = let e = drop_all {A = ℕ} (length (pending offset bs)) [] (omega arith) in rw e;
  amount' = omega arith;
  filled = fs;
  front = fr;
  left = refl;
}

end-Reads :
    (done rest : Buffer) (amount : ℕ) → Reads [] 0 done rest amount (reading [] 0 done rest amount)
end-Reads done rest amount = record {
  output = let e : take {A = ℕ} (length rest) [] ≡ [] = take_all _ _ (omega arith) in rw e;
  amount' = omega arith;
  filled = tt;
  front = refl;
  left = sym (drop_all {A = ℕ} (length rest) [] (omega arith));
}

module _ (f : Buffer) (bs : List Buffer) (offset : ℕ) (o : offset < length f) where
  pub pending-split : pending offset (f ∷ bs) ≡ drop offset f ++ concat bs
  pending-split =
      let e : offset - length f ≡ 0 = omega arith in rw (drop-append offset f (concat bs), e)

  -- The loop ends inside the front buffer.
  length-front : length (drop offset f) ≡ length f - offset
  length-front = omega (arith, length-drop {0} offset f)

  partial-Reads :
      (done rest : Buffer) (amount : ℕ)
      → All IsFilled bs
      → length rest < length f - offset
      → Reads (f ∷ bs) offset done rest amount (
          reading
            (f ∷ bs)
            (offset + length rest)
            (done ++ take (length rest) (drop offset f))
            []
            (amount + length rest))
  partial-Reads done rest amount fs h = record {
    output =
        let none_left : length rest - length (drop offset f) ≡ 0 = omega (arith, length-front) in
        let full : drop (length (pending offset (f ∷ bs))) rest ≡ [] = drop_all _ rest (
          rw (pending-split, length-append (drop offset f) (concat bs))
            (omega (arith, length-front))) in
        rw full (
          rw (pending-split, take-append (length rest) (drop offset f) (concat bs), none_left)
            (ground (
              arith,
              append-nil (take (length rest) (drop offset f)),
              append-nil (done ++ take (length rest) (drop offset f)),
            )));
    amount' =
        rw (pending-split, length-append (drop offset f) (concat bs)) (omega (arith, length-front));
    filled = (omega arith, fs);
    front = omega arith;
    left = sym (drop-drop (length rest) offset (f ++ concat bs));
  }

  -- The front buffer is read whole, and the loop goes on.
  whole-Reads :
      (done rest : Buffer) (amount : ℕ) (r : Reading)
      → length f - offset ≤ length rest
      → Reads bs 0
          (done ++ drop offset f)
          (drop (length f - offset) rest)
          (amount + (length f - offset))
          r
      → Reads (f ∷ bs) offset done rest amount r
  whole-Reads done rest amount r h k = record {
    output =
        k.output
        ∙ rw
            (
              pending-split,
              take-append (length rest) (drop offset f) (concat bs),
              length-append (drop offset f) (concat bs),
              length-front,
              length-drop (length f - offset) rest,
              drop-drop (length (concat bs)) (length f - offset) rest,
              take_all (length rest) (drop offset f) (omega (arith, length-front)),
            )
            (simp append_assoc);
    amount' =
        rw (pending-split, length-append (drop offset f) (concat bs))
          (omega (arith, length-front, k.amount', length-drop {0} (length f - offset) rest));
    filled = k.filled;
    front = k.front;
    left =
        k.left
        ∙ rw (
          pending-split,
          drop-append (length rest) (drop offset f) (concat bs),
          length-drop (length f - offset) rest,
          length-front,
          drop_all (length rest) (drop offset f) (omega (arith, length-front)),
        );
  }

read_loop_step :
    (fuel : ℕ) (f : Buffer) (bs : List Buffer) (r r' : Reading)
    → r.output_offset < length r.output
    → read_round f bs r ≡ r'
    → read_loop (suc fuel) (f ∷ bs) r ≡ read_loop fuel r'.left r'
unfolding read_loop
read_loop_step fuel f bs r r' h e = rw (lt→ltb _ _ h, e)

pub IsFilled-IsFrontOffset : (bs : List Buffer) → All IsFilled bs → IsFrontOffset bs 0
IsFilled-IsFrontOffset [] h = refl
IsFilled-IsFrontOffset (b ∷ bs) h = h.0

-- With more rounds than there are buffers the loop returns, and it has read what it could.
pub read_loop-Reads :
    (fuel : ℕ) (bs : List Buffer) (offset : ℕ) (done rest : Buffer) (amount : ℕ)
    → length bs < fuel
    → All IsFilled bs
    → IsFrontOffset bs offset
    → (r : Reading) × (read_loop fuel bs (reading bs offset done rest amount) ≡ ok r)
      × Reads bs offset done rest amount r
read_loop-Reads zero bs offset done rest amount h fs fr = absurd (omega arith)
read_loop-Reads (suc fuel) bs offset done [] amount h fs fr =
    let r = reading bs offset done [] amount in
    (
      r,
      read_loop_full (suc fuel) bs r (rw append-nil (le_refl _)),
      nothing-Reads bs offset done amount fs fr,
    )
read_loop-Reads (suc fuel) [] offset done (x ∷ xs) amount h fs fr = (
  reading [] 0 done (x ∷ xs) amount,
  unfold read_loop in rw fr,
  rw fr (end-Reads done (x ∷ xs) amount),
)
read_loop-Reads (suc fuel) (f ∷ bs) offset done (x ∷ xs) amount h fs fr =
    elim (dec_lt (length (x ∷ xs)) (length f - offset)) [
      | yes p ↦ partial p
      | no p ↦ whole p (λ q.
          read_loop-Reads fuel bs 0 (done ++ drop offset f) (drop (length f - offset) (x ∷ xs))
            (amount + (length f - offset)) q fs.1 (IsFilled-IsFrontOffset bs fs.1))
    ]
  where
    more : length done < length (done ++ (x ∷ xs))
    more = omega (arith, length-append {0} done (x ∷ xs))

    Goal : Type 0
    Goal =
        (r : Reading) × (read_loop (suc fuel) (f ∷ bs)
            (reading (f ∷ bs) offset done (x ∷ xs) amount)
          ≡ ok r)
        × Reads (f ∷ bs) offset done (x ∷ xs) amount r

    partial : length (x ∷ xs) < length f - offset → Goal
    partial p =
        let r =
          reading (f ∷ bs) (offset + length (x ∷ xs))
            (done ++ take (length (x ∷ xs)) (drop offset f)) [] (amount + length (x ∷ xs)) in
        (
          r,
          read_loop_step fuel f bs _ r more (round_partial f bs offset done (x ∷ xs) amount p)
              ∙ read_loop_full fuel (f ∷ bs) r (rw append-nil (le_refl _)),
          partial-Reads f bs offset fr done (x ∷ xs) amount fs.1 p,
        )

    whole :
        ¬ (length (x ∷ xs) < length f - offset)
        → (length bs < fuel
            → (r : Reading) × (read_loop fuel bs (
                  reading bs 0
                    (done ++ drop offset f)
                    (drop (length f - offset) (x ∷ xs))
                    (amount + (length f - offset)))
                ≡ ok r)
              × Reads bs 0
                  (done ++ drop offset f)
                  (drop (length f - offset) (x ∷ xs))
                  (amount + (length f - offset))
                  r)
        → Goal
    whole p rec =
        let q : length f - offset ≤ length (x ∷ xs) = omega arith in
        let (r, e, k) = rec (omega arith) in
        (
          r,
          read_loop_step fuel f bs _ _ more
                (round_whole f bs offset done (x ∷ xs) amount (omega arith) q)
              ∙ e,
          whole-Reads f bs offset fr done (x ∷ xs) amount r q k,
        )
