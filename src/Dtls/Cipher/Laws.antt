-- ===== src/Dtls/Cipher/Laws.antt =====
-- src/dtls/cipher.ts: `decrypt` undoes `encrypt`.
use node_rtc_connection.Prelude.{
  ℕ, ◌+◌, ◌<◌, ◌≡◌, refl, sym, ap, ◌∙◌, [], ◌∷◌, ◌++◌, append-nil, append_assoc, arith, ltb, true,
  length, length-append, ok,
}
use node_rtc_connection.Buffer.{Buffer, slice, slice_seam, IsByte, IsU16, be16}
use node_rtc_connection.Dtls.Protocol.{be48}
use node_rtc_connection.Dtls.Primitives.{Crypto, IsSound}
use node_rtc_connection.Dtls.Cipher.{from_end, GcmCipher, build_aad, encrypt, decrypt}

abbrev nonce_bytes : ℕ → ℕ → Buffer
nonce_bytes epoch seq = be16 epoch ++ be48 seq

abbrev aad_bytes : ℕ → ℕ → ℕ → ℕ → ℕ → Buffer
aad_bytes epoch seq type version size =
    be16 epoch ++ (be48 seq ++ (type ∷ (be16 version ++ be16 size)))

build_aad_lem :
    (epoch seq type version size : ℕ)
    → IsU16 epoch
    → seq < 281474976710656
    → IsByte type
    → IsU16 version
    → IsU16 size
    → build_aad epoch seq type version size ≡ ok (aad_bytes epoch seq type version size)
unfolding build_aad
build_aad_lem epoch seq type version size e s t v n = ground arith

-- The nonce, the ciphertext and the tag of a sealed record, as `decrypt` cuts them out.
sealed_parts :
    (head ct tag : Buffer)
    → length head ≡ 8
    → length tag ≡ 16
    → (slice (head ++ (ct ++ tag)) 0 8 ≡ head)
      × (slice (head ++ (ct ++ tag)) 8 (from_end (head ++ (ct ++ tag)) 16) ≡ ct)
      × (slice
            (head ++ (ct ++ tag))
            (from_end (head ++ (ct ++ tag)) 16)
            (length (head ++ (ct ++ tag)))
          ≡ tag)
sealed_parts head ct tag h t =
    let size : length (head ++ (ct ++ tag)) ≡ 8 + length ct + 16 =
      omega (arith, length-append {0} head (ct ++ tag), length-append {0} ct tag) in
    let end : from_end (head ++ (ct ++ tag)) 16 ≡ 8 + length ct = ground (arith, size) in
    (
      slice_seam [] head (ct ++ tag) 0 8 refl (omega arith),
      slice_seam head ct tag 8 _ (omega arith) (omega arith),
      ap
            (λ (q : Buffer).
              slice q (from_end (head ++ (ct ++ tag)) 16) (length (head ++ (ct ++ tag))))
            (sym (append_assoc head ct tag)
              ∙ ap (λ (q : Buffer). (head ++ ct) ++ q) (sym (append-nil tag)))
          ∙ slice_seam (head ++ ct) tag [] _ _ (omega (arith, length-append {0} head ct))
              (omega (arith, length-append {0} head ct)),
    )

module _ (c : Crypto) (sound : IsSound c) (g : GcmCipher) (epoch seq type version : ℕ)
    (plaintext : Buffer) (e : IsU16 epoch) (s : seq < 281474976710656) (t : IsByte type)
    (v : IsU16 version) (n : IsU16 (length plaintext)) where
  nonce : Buffer
  nonce = g.fixed_iv ++ nonce_bytes epoch seq

  sealed_bytes : Buffer
  unfolding nonce
  sealed_bytes =
      let (ct, tag) =
        c.seal g.key nonce (aad_bytes epoch seq type version (length plaintext)) plaintext in
      nonce_bytes epoch seq ++ (ct ++ tag)

  encrypt_lem : encrypt c g epoch seq type version plaintext ≡ ok sealed_bytes
  unfolding encrypt sealed_bytes nonce
  encrypt_lem =
      let aad = build_aad_lem epoch seq type version (length plaintext) e s t v n in
      let small : ltb epoch 65536 ≡ true = ground arith in
      let short : ltb seq 281474976710656 ≡ true = ground arith in
      let (ct, tag) =
        c.seal g.key nonce (aad_bytes epoch seq type version (length plaintext)) plaintext in
      rw (small, short, aad, append-nil (nonce_bytes epoch seq), append-nil tag) refl

  decrypt_lem : decrypt c g epoch seq type version sealed_bytes ≡ ok plaintext
  unfolding decrypt sealed_bytes nonce
  decrypt_lem =
      let aad = build_aad_lem epoch seq type version (length plaintext) e s t v n in
      let (ct, tag) =
        c.seal g.key nonce (aad_bytes epoch seq type version (length plaintext)) plaintext in
      let aad' = aad_bytes epoch seq type version (length plaintext) in
      let n₁ = sound.length-seal g.key nonce aad' plaintext in
      let n₂ = sound.length-tag g.key nonce aad' plaintext in
      let (front, middle, back) = sealed_parts (nonce_bytes epoch seq) ct tag refl n₂ in
      rw
        (
          front,
          middle,
          back,
          n₁,
          aad,
          append-nil (nonce_bytes epoch seq),
          sound.unseal-seal g.key nonce aad' plaintext,
        )
        refl

-- Over sound primitives `decrypt` gives back what `encrypt` was given, for the same key, epoch, sequence
-- number, type and version, when these and the length fit their fields; the sealed record is 24 bytes
-- longer.
pub decrypt-encrypt :
    (c : Crypto) (g : GcmCipher) (epoch seq type version : ℕ) (plaintext : Buffer)
    → IsSound c
    → IsU16 epoch
    → seq < 281474976710656
    → IsByte type
    → IsU16 version
    → IsU16 (length plaintext)
    → (sealed : Buffer) × (encrypt c g epoch seq type version plaintext ≡ ok sealed)
      × (decrypt c g epoch seq type version sealed ≡ ok plaintext)
      × (length sealed ≡ length plaintext + 24)
unfolding sealed_bytes
decrypt-encrypt c g epoch seq type version plaintext sound e s t v n =
    let nonce' = nonce c sound g epoch seq type version plaintext e s t v n in
    let aad' = aad_bytes epoch seq type version (length plaintext) in
    (
      sealed_bytes c sound g epoch seq type version plaintext e s t v n,
      encrypt_lem c sound g epoch seq type version plaintext e s t v n,
      decrypt_lem c sound g epoch seq type version plaintext e s t v n,
      omega (
        arith,
        length-append {0} (c.seal g.key nonce' aad' plaintext).0
            (c.seal g.key nonce' aad' plaintext).1,
        sound.length-seal g.key nonce' aad' plaintext,
        sound.length-tag g.key nonce' aad' plaintext,
      ),
    )
