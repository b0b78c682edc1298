-- ===== src/Dtls/Prf.antt =====
-- src/dtls/prf.ts: the pseudo-random function of TLS 1.2, over an HMAC.
pub mod Laws
use node_rtc_connection.Prelude.{
  ℕ, zero, suc, ◌+◌, List, [], ◌∷◌, ◌++◌, ltb, if◌then◌else◌, length, Result, ok, err, out_of_fuel,
}
use node_rtc_connection.Buffer.{Buffer, slice, concat}

module _ (hmac : Buffer → Buffer → Buffer) where
  -- The loop of `pHash`. A round adds a digest, so one round more than there are bytes wanted is enough.
  unfoldable pub p_hash_loop : ℕ → Buffer → Buffer → ℕ → Buffer → List Buffer → ℕ → Result Buffer
  p_hash_loop zero secret seed size a out total = err out_of_fuel
  p_hash_loop (suc fuel) secret seed size a out total =
      let a' = hmac secret a in
      let chunk = hmac secret (concat (a' ∷ seed ∷ [])) in
      let more =
        p_hash_loop fuel secret seed size a' (out ++ (chunk ∷ [])) (total + length chunk) in
      if ltb total size then more else ok (slice (concat out) 0 size)

  unfoldable pub p_hash : Buffer → Buffer → ℕ → Result Buffer
  p_hash secret seed size = p_hash_loop (suc size) secret seed size seed [] 0

  -- `prf`; the label is its ASCII bytes.
  unfoldable pub prf : Buffer → Buffer → Buffer → ℕ → Result Buffer
  prf secret label seed size = p_hash secret (concat (label ∷ seed ∷ [])) size
