-- ===== src/Dtls/Prf/Laws.antt =====
-- src/dtls/prf.ts: `prf` against the definition of P_hash in RFC 5246.
use node_rtc_connection.Prelude.{
  ℕ, zero, suc, ◌+◌, ◌-◌, ◌*◌, ◌/◌, ◌≤◌, ◌<◌, ◌≡◌, refl, sym, ap, ◌∙◌, inl, inr, false, List, [],
  ◌∷◌, ◌++◌, append-nil, append_assoc, arith, ltb, Bool-cases, length, length-append, take,
  length-take, take-append, ok,
}
use node_rtc_connection.Buffer.{Buffer, concat, concat-append}
use node_rtc_connection.Dtls.Prf.{p_hash_loop, p_hash, prf}

module _ (hmac : Buffer → Buffer → Buffer) (secret seed : Buffer) where
  -- `HMAC(secret, A(i+1) + seed) | HMAC(secret, A(i+2) + seed) | …`, with `a` for A(i).
  abbrev pub blocks : ℕ → Buffer → Buffer
  blocks zero a = []
  blocks (suc k) a = hmac secret (hmac secret a ++ seed) ++ blocks k (hmac secret a)

module _ (hmac : Buffer → Buffer → Buffer)
    (sized : (key bytes : Buffer) → length (hmac key bytes) ≡ 32) (secret seed : Buffer) where
  length-blocks : (k : ℕ) (a : Buffer) → length (blocks hmac secret seed k a) ≡ 32 * k
  length-blocks zero a = omega arith
  length-blocks (suc k) a = omega (
    arith,
    length-append {0} (hmac secret (hmac secret a ++ seed))
        (blocks hmac secret seed k (hmac secret a)),
    sized secret (hmac secret a ++ seed),
    length-blocks k (hmac secret a),
  )

  take_front :
      (size : ℕ) (xs ys : Buffer) → size ≤ length xs → take size (xs ++ ys) ≡ take (size - 0) xs
  take_front size xs ys h =
      let z : size - length xs ≡ 0 = omega arith in
      let n : size - 0 ≡ size = omega arith in
      rw (take-append size xs ys, z, n, append-nil (take size xs))

  p_hash_loop_lem :
      (k fuel size total : ℕ) (a : Buffer) (out : List Buffer)
      → length (concat out) ≡ total
      → size ≤ total + 32 * k
      → k < fuel
      → p_hash_loop hmac fuel secret seed size a out total
        ≡ ok (take size (concat out ++ blocks hmac secret seed k a))
  unfolding p_hash_loop
  p_hash_loop_lem k zero size total a out t enough f = absurd (omega arith)
  p_hash_loop_lem zero (suc fuel) size total a out t enough f =
      let stop : ltb total size ≡ false = ground arith in
      rw stop (ap ok (sym (take_front size (concat out) [] (omega arith))))
  p_hash_loop_lem (suc k) (suc fuel) size total a out t enough f =
      let a' = hmac secret a in
      let chunk = hmac secret (a' ++ seed) in
      let grown : concat (out ++ (chunk ∷ [])) ≡ concat out ++ chunk =
        concat-append out (chunk ∷ []) ∙ ap (λ (q : Buffer). concat out ++ q) (append-nil chunk) in
      let n = sized secret (a' ++ seed) in
      elim (Bool-cases (ltb total size)) [
        | inl more ↦
            rw (more, append-nil seed)
              (p_hash_loop_lem k fuel size (total + length chunk) a' (out ++ (chunk ∷ []))
                  (omega (arith, ap length grown, length-append {0} (concat out) chunk))
                  (omega arith) (omega arith)
                ∙ rw (grown, append_assoc (concat out) chunk (blocks hmac secret seed k a')) refl)
        | inr done ↦ rw done (
            ap ok (
              sym (
                take_front size (concat out) (blocks hmac secret seed (suc k) a)
                  (ground (arith, done)))))
      ]

  p_hash_lem :
      (size k : ℕ)
      → size ≤ 32 * k
      → (k ≤ size)
      → (p_hash hmac secret seed size ≡ ok (take size (blocks hmac secret seed k seed)))
        × (length (take size (blocks hmac secret seed k seed)) ≡ size)
  unfolding p_hash
  p_hash_lem size k enough few = (
    p_hash_loop_lem k (suc size) size 0 seed [] refl (omega arith) (omega arith),
    omega (arith, length-take {0} size (blocks hmac secret seed k seed), length-blocks k seed),
  )

-- Over an HMAC of 32 bytes, `prf` returns for every length, and what it returns has that length: it is
-- the start of P_hash as RFC 5246 defines it, with any number of blocks that has as many bytes as are
-- wanted, and is not above the number of bytes wanted.
pub prf_lem :
    (hmac : Buffer → Buffer → Buffer) (secret label seed : Buffer) (size k : ℕ)
    → ((key bytes : Buffer) → length (hmac key bytes) ≡ 32)
    → size ≤ 32 * k
    → k ≤ size
    → (prf hmac secret label seed size
        ≡ ok (take size (blocks hmac secret (label ++ seed) k (label ++ seed))))
      × (length (take size (blocks hmac secret (label ++ seed) k (label ++ seed))) ≡ size)
unfolding prf
prf_lem hmac secret label seed size k sized enough few =
    rw (append-nil seed) (p_hash_lem hmac sized secret (label ++ seed) size k enough few)

pub prf_returns :
    (hmac : Buffer → Buffer → Buffer) (secret label seed : Buffer) (size : ℕ)
    → ((key bytes : Buffer) → length (hmac key bytes) ≡ 32)
    → (v : Buffer) × (prf hmac secret label seed size ≡ ok v) × (length v ≡ size)
prf_returns hmac secret label seed size sized =
    let (p, q) =
      prf_lem hmac secret label seed size ((size + 31) / 32) sized (omega arith) (omega arith) in
    (_, p, q)
