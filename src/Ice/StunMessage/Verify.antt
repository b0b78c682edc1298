-- ===== src/Ice/StunMessage/Verify.antt =====
-- `verifyIntegrity`: what it accepts of the messages that `build` lays out, and what it leaves open.
use node_rtc_connection.Prelude.{
  ℕ, zero, suc, ◌+◌, ◌-◌, ◌*◌, ◌≤◌, ◌<◌, ◌≡◌, ◌≢◌, refl, sym, ap, ◌∙◌, true, false, some, List, [],
  ◌∷◌, ◌++◌, append_assoc, arith, leb, ◌==◌, if◌then◌else◌, length, length-append, take, drop, All,
  take-append_length, ok, lt→ltb,
}
use node_rtc_connection.Buffer.{Buffer, be16, slice, slice_seam, be16_lem}
use node_rtc_connection.Buffer.Fields.{first_field, second_field}
use node_rtc_connection.Buffer.Equality.{bytes_equal, timing_safe_equal, bytes_equal_refl}
use node_rtc_connection.Sctp.Chunks.{pad4}
use node_rtc_connection.Ice.StunMessage.{
  StunAttribute, StunMessageBuilder, build, find_integrity, message_integrity, check_integrity,
  verify_integrity,
}
use node_rtc_connection.Ice.StunMessage.Layout.{
  padding, attr_bytes, body_bytes, header_bytes, IsBuildable, build_lem, sent_attrs,
  body_bytes-append, integrity_of, fingerprint_of,
}
use node_rtc_connection.Ice.StunMessage.Parse.{behind, here, length-attr, message_bytes}

-- One round of the loop where four bytes are left.
module _ (msg : Buffer) (end off a b c d : ℕ) (rest : Buffer)
    (at : drop off msg ≡ a ∷ b ∷ c ∷ d ∷ rest) where
  pub find_round :
      (fuel : ℕ)
      → off + 4 ≤ end
      → find_integrity (suc fuel) msg end off ≡ (
          let more = find_integrity fuel msg end (off + (4 + pad4 (c * 256 + d))) in
          if a * 256 + b == message_integrity then ok (some off) else more)
  unfolding find_integrity
  find_round fuel h =
      let fits : leb (off + 4) end ≡ true = ground arith in
      rw (fits, first_field msg off a b c d rest at, second_field msg off a b c d rest at)

-- An attribute on the way to MESSAGE-INTEGRITY, and MESSAGE-INTEGRITY itself.
abbrev pub IsOther : StunAttribute → Type 0
IsOther a = a.type ≢ message_integrity

module _ (front tail : Buffer) (a : StunAttribute) (end fuel : ℕ)
    (h : length front + length (attr_bytes a) ≤ end) where
  round_here : find_integrity (suc fuel) (front ++ (attr_bytes a ++ tail)) end (length front) ≡ (
      let more =
        find_integrity fuel
          (front ++ (attr_bytes a ++ tail))
          end
          (length front + (4 + pad4 (length a.value))) in
      if a.type == message_integrity then ok (some (length front)) else more)
  round_here =
      find_round (front ++ (attr_bytes a ++ tail)) end (length front) _ _ _ _ (behind front tail a)
        (here front tail a) fuel (omega (arith, length-attr front tail a))
      ∙ rw (be16_lem a.type, be16_lem (length a.value))

  find_other :
      IsOther a
      → find_integrity (suc fuel) (front ++ (attr_bytes a ++ tail)) end (length front)
        ≡ find_integrity fuel ((front ++ attr_bytes a) ++ tail) end (length (front ++ attr_bytes a))
  find_other other =
      let differs : (a.type == message_integrity) ≡ false = ground (arith, other) in
      let next : length front + (4 + pad4 (length a.value)) ≡ length (front ++ attr_bytes a) =
        omega (arith, length-attr front tail a, length-append {0} front (attr_bytes a)) in
      round_here ∙ rw (differs, next, append_assoc front (attr_bytes a) tail)

  find_here :
      a.type ≡ message_integrity
      → find_integrity (suc fuel) (front ++ (attr_bytes a ++ tail)) end (length front)
        ≡ ok (some (length front))
  find_here same =
      let e : (a.type == message_integrity) ≡ true = ground (arith, same) in round_here ∙ rw e

module _ (m : StunAttribute) (later : List StunAttribute)
    (is_integrity : m.type ≡ message_integrity) where
  find_lem :
      (before : List StunAttribute) (fuel end : ℕ) (front : Buffer)
      → All IsOther before
      → length (body_bytes (before ++ (m ∷ later))) < fuel
      → end ≡ length front + length (body_bytes (before ++ (m ∷ later)))
      → find_integrity fuel (front ++ body_bytes (before ++ (m ∷ later))) end (length front)
        ≡ ok (some (length front + length (body_bytes before)))
  find_lem before zero end front o h e = absurd (omega arith)
  find_lem [] (suc fuel) end front o h e =
      let long : length (attr_bytes m ++ body_bytes later)
          ≡ length (attr_bytes m) + length (body_bytes later) =
        length-append (attr_bytes m) (body_bytes later) in
      find_here front (body_bytes later) m end fuel (omega (arith, long)) is_integrity
      ∙ ap (λ (n : ℕ). ok (some n)) (omega arith)
  find_lem (a ∷ more) (suc fuel) end front (other, os) h e =
      let rest = body_bytes (more ++ (m ∷ later)) in
      let long : length (attr_bytes a ++ rest) ≡ length (attr_bytes a) + length rest =
        length-append (attr_bytes a) rest in
      find_other front rest a end fuel (omega (arith, long)) other
      ∙ find_lem more fuel end (front ++ attr_bytes a) os
          (omega (arith, long, length-attr front rest a))
          (omega (arith, long, length-append {0} front (attr_bytes a)))
      ∙ ap (λ (n : ℕ). ok (some n))
          (omega (
            arith,
            length-append {0} front (attr_bytes a),
            length-append {0} (attr_bytes a) (body_bytes more),
          ))

-- What `verifyIntegrity` cuts out of a message, once it has found MESSAGE-INTEGRITY.
module _ (type size : ℕ) (tid : Buffer) (before later : Buffer) (m : StunAttribute)
    (h : length tid ≡ 12) (l : length m.value ≡ 20) where
  abbrev around : Buffer
  around = header_bytes type size tid ++ (before ++ (attr_bytes m ++ later))

  provided_lem : slice around (20 + length before + 4) (20 + length before + 4 + 20) ≡ m.value
  provided_lem =
      let head = be16 m.type ++ be16 (length m.value) in
      let split : (header_bytes type size tid ++ (before ++ head))
            ++ (m.value ++ (padding (length m.value) ++ later))
          ≡ around =
        rw (
          append_assoc tid (before ++ head) (m.value ++ (padding (length m.value) ++ later)),
          append_assoc before head (m.value ++ (padding (length m.value) ++ later)),
          append_assoc m.value (padding (length m.value)) later,
        ) in
      let seam : length (header_bytes type size tid ++ (before ++ head)) ≡ 20 + length before + 4 =
        omega (arith, h, length-append {0} tid (before ++ head), length-append {0} before head) in
      ap (λ (bytes : Buffer). slice bytes (20 + length before + 4) (20 + length before + 4 + 20))
        (sym split)
      ∙ slice_seam (header_bytes type size tid ++ (before ++ head)) m.value
          (padding (length m.value) ++ later) _ _ (sym seam) (omega (arith, seam, l))

  body_lem : slice around 20 (20 + length before) ≡ before
  body_lem =
      slice_seam (header_bytes type size tid) before (attr_bytes m ++ later) _ _ (omega (arith, h))
        (omega (arith, h))

  id_lem : take 12 (tid ++ (before ++ (attr_bytes m ++ later))) ≡ tid
  id_lem =
      ap (λ (n : ℕ). take n (tid ++ (before ++ (attr_bytes m ++ later)))) (sym h)
      ∙ take-append_length tid (before ++ (attr_bytes m ++ later))

  module _ (hmac_sha1 : Buffer → Buffer → Buffer)
      (length-hmac : (key bytes : Buffer) → length (hmac_sha1 key bytes) ≡ 20) where
    check_integrity_lem :
        (password : Buffer)
        → length before + 24 < 65536
        → check_integrity hmac_sha1 around password (some (20 + length before))
          ≡ ok (
              bytes_equal m.value
                (hmac_sha1 password (header_bytes type (length before + 24) tid ++ before)))
    unfolding check_integrity timing_safe_equal
    check_integrity_lem password r =
        let digest = hmac_sha1 password (header_bytes type (length before + 24) tid ++ before) in
        let raised : 20 + length before + 24 - 20 ≡ length before + 24 = omega arith in
        let same : (length m.value == length digest) ≡ true =
          let long : length digest ≡ 20 =
            length-hmac password (header_bytes type (length before + 24) tid ++ before) in
          ground (arith, l, long) in
        rw (provided_lem, body_lem, id_lem, raised, lt→ltb (length before + 24) 65536 r, h, same)

module _ (hmac_sha1 : Buffer → Buffer → Buffer)
    (length-hmac : (key bytes : Buffer) → length (hmac_sha1 key bytes) ≡ 20) where
  -- Of a message whose first MESSAGE-INTEGRITY has 20 bytes, `verifyIntegrity` answers whether they
  -- are the HMAC of the header and of the attributes in front, under the password. The attributes
  -- behind, and so the FINGERPRINT, are not looked at, whatever they are.
  pub verify_integrity_lem :
      (type : ℕ) (transaction_id password : Buffer) (before later : List StunAttribute)
      (m : StunAttribute)
      → length transaction_id ≡ 12
      → All IsOther before
      → m.type ≡ message_integrity
      → length m.value ≡ 20
      → length (body_bytes before) + 24 < 65536
      → verify_integrity hmac_sha1
          (message_bytes type transaction_id (before ++ (m ∷ later)))
          password
        ≡ ok (
            bytes_equal m.value (
              hmac_sha1 password (
                header_bytes type (length (body_bytes before) + 24) transaction_id
                ++ body_bytes before)))
  unfolding verify_integrity
  verify_integrity_lem type tid password before later m h o k l r =
      let all = before ++ (m ∷ later) in
      let msg = message_bytes type tid all in
      let n = length (body_bytes all) in
      let whole : length msg ≡ 20 + n = omega (arith, length-append {0} tid (body_bytes all), h) in
      let front = header_bytes type n tid in
      let found : find_integrity (suc (length msg)) msg (20 + n) 20
          ≡ ok (some (20 + length (body_bytes before))) =
        ap (λ (off : ℕ). find_integrity (suc (length msg)) msg (20 + n) off) (omega (arith, h))
        ∙ find_lem m later k before (suc (length msg)) (20 + n) front o (omega (arith, whole))
            (omega (arith, h))
        ∙ ap (λ (off : ℕ). ok (some off)) (omega (arith, h)) in
      let parts : msg ≡ around type n tid (body_bytes before) (body_bytes later) m h l =
        ap (λ (bytes : Buffer). header_bytes type n tid ++ bytes)
          (body_bytes-append before (m ∷ later)) in
      rw (be16_lem n, found)
        (ap
            (λ (bytes : Buffer).
              check_integrity hmac_sha1 bytes password (some (20 + length (body_bytes before))))
            parts
          ∙ check_integrity_lem type n tid (body_bytes before) (body_bytes later) m h l hmac_sha1
              length-hmac password r)

  -- The messages that `build` makes pass with the password that they were made with.
  pub verify_integrity-sent :
      (b : StunMessageBuilder) (first : ℕ) (more password : Buffer)
      → IsBuildable b
      → All IsOther b.attrs
      → verify_integrity hmac_sha1
          (message_bytes b.type b.transaction_id (sent_attrs hmac_sha1 b (first ∷ more)))
          password
        ≡ ok (
            bytes_equal
              (hmac_sha1 (first ∷ more) (
                header_bytes b.type (length (body_bytes b.attrs) + 24) b.transaction_id
                ++ body_bytes b.attrs))
              (hmac_sha1 password (
                header_bytes b.type (length (body_bytes b.attrs) + 24) b.transaction_id
                ++ body_bytes b.attrs)))
  verify_integrity-sent b first more password w o =
      let m = integrity_of hmac_sha1 b (first ∷ more) (body_bytes b.attrs) in
      let f = fingerprint_of b (body_bytes (b.attrs ++ (m ∷ []))) in
      let order : (b.attrs ++ (m ∷ [])) ++ (f ∷ []) ≡ b.attrs ++ (m ∷ f ∷ []) =
        append_assoc b.attrs (m ∷ []) (f ∷ []) in
      let long : length m.value ≡ 20 = length-hmac _ _ in
      ap
        (λ (attrs : List StunAttribute).
          verify_integrity hmac_sha1 (message_bytes b.type b.transaction_id attrs) password)
        order
      ∙ verify_integrity_lem b.type b.transaction_id password b.attrs (f ∷ []) m w.id_is_whole o
          refl long (omega (arith, w.room))

  -- Of a builder with no MESSAGE-INTEGRITY among its own attributes, and whose type, 12-byte transaction
  -- id and attributes fit a message as `build` needs it, the message that `build` made with a password
  -- that is not empty passes `verifyIntegrity` with another exactly when the two give the same HMAC of
  -- it, and passes with its own. The digests of HMAC-SHA1 have 20 bytes.
  pub verify_integrity-build :
      (b : StunMessageBuilder) (first : ℕ) (more password : Buffer)
      → IsBuildable b
      → All IsOther b.attrs
      → (message : Buffer) × (build hmac_sha1 b (first ∷ more) ≡ ok message)
        × (verify_integrity hmac_sha1 message password
            ≡ ok (
                bytes_equal
                  (hmac_sha1 (first ∷ more) (
                    header_bytes b.type (length (body_bytes b.attrs) + 24) b.transaction_id
                    ++ body_bytes b.attrs))
                  (hmac_sha1 password (
                    header_bytes b.type (length (body_bytes b.attrs) + 24) b.transaction_id
                    ++ body_bytes b.attrs))))
        × (verify_integrity hmac_sha1 message (first ∷ more) ≡ ok true)
  verify_integrity-build b first more password w o = (
    message_bytes b.type b.transaction_id (sent_attrs hmac_sha1 b (first ∷ more)),
    build_lem hmac_sha1 length-hmac b (first ∷ more) w,
    verify_integrity-sent b first more password w o,
    verify_integrity-sent b first more (first ∷ more) w o ∙ ap ok (bytes_equal_refl _),
  )
