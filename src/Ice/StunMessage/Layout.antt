-- ===== src/Ice/StunMessage/Layout.antt =====
-- The bytes that the builder of stun-message.ts writes.
use node_rtc_connection.Prelude.{
  ℕ, ◌+◌, ◌-◌, ◌≤◌, ◌<◌, ◌≡◌, refl, sym, ap, ◌∙◌, List, [], ◌∷◌, ◌++◌, append_assoc, arith, ltb,
  length, length-append, All, map, ok, append-nil, true, lt→ltb,
}
use node_rtc_connection.Buffer.{
  Buffer, to_uint32, be16, be32, alloc, copy, concat, copy-alloc, length-alloc,
}
use node_rtc_connection.Sctp.Chunks.{pad4}
use node_rtc_connection.Ice.Crc32.{crc32}
use node_rtc_connection.Ice.StunMessage.{
  StunAttribute, StunMessageBuilder, magic_cookie, message_integrity, fingerprint, encode_attr,
  encode_body, header, build_rest, build_integrity, build,
}
use Prim.Native.Nat.{bit_xor}

abbrev pub padding : ℕ → Buffer
padding n = alloc (pad4 n - n)

-- An attribute on the wire: type, length without the padding, value, zeros up to four bytes.
abbrev pub attr_bytes : StunAttribute → Buffer
attr_bytes a = be16 a.type ++ (be16 (length a.value) ++ (a.value ++ padding (length a.value)))

abbrev pub body_bytes : List StunAttribute → Buffer
body_bytes attrs = concat (map attr_bytes attrs)

abbrev pub header_bytes : ℕ → ℕ → Buffer → Buffer
header_bytes type size transaction_id =
    be16 type ++ (be16 size ++ (be32 magic_cookie ++ transaction_id))

-- The fields of an attribute fit.
abbrev pub Fits : StunAttribute → Type 0
Fits a = (a.type < 65536) × (length a.value < 65536)

pub encode_attr_lem : (a : StunAttribute) → Fits a → encode_attr a ≡ ok (attr_bytes a)
unfolding encode_attr
encode_attr_lem a (t, l) =
    let e : copy a.value 0 (alloc (pad4 (length a.value))) ≡ a.value ++ padding (length a.value) =
      copy-alloc a.value [] (pad4 (length a.value)) (omega arith) in
    rw (lt→ltb a.type 65536 t, lt→ltb (length a.value) 65536 l, e) refl

pub encode_body_lem :
    (attrs : List StunAttribute) → All Fits attrs → encode_body attrs ≡ ok (body_bytes attrs)
unfolding encode_body
encode_body_lem [] h = refl
encode_body_lem (a ∷ more) (h, k) = rw (encode_attr_lem a h, encode_body_lem more k) refl

pub header_lem :
    (b : StunMessageBuilder) (n : ℕ)
    → b.type < 65536
    → n < 65536
    → length b.transaction_id ≡ 12
    → header b n ≡ ok (header_bytes b.type n b.transaction_id)
unfolding header
header_lem b n t l h =
    let e : copy b.transaction_id 8 ((be16 b.type ++ (be16 n ++ be32 magic_cookie)) ++ alloc 12)
        ≡ (be16 b.type ++ (be16 n ++ be32 magic_cookie))
          ++ (b.transaction_id ++ alloc (12 - length b.transaction_id)) =
      copy-alloc b.transaction_id (be16 b.type ++ (be16 n ++ be32 magic_cookie)) 12
        (omega (arith, h)) in
    let full : 12 - length b.transaction_id ≡ 0 = omega (arith, h) in
    rw (lt→ltb b.type 65536 t, lt→ltb n 65536 l)
      (ap ok (e ∙ rw (full, append-nil b.transaction_id)))

-- What `build` adds behind the attributes.
abbrev pub fingerprint_of : StunMessageBuilder → Buffer → StunAttribute
fingerprint_of b body = record {
  type = fingerprint;
  value = be32 (
      to_uint32 (
        bit_xor (crc32 (header_bytes b.type (length body + 8) b.transaction_id ++ body))
          0x5354_554e));
}

pub build_rest_lem :
    (b : StunMessageBuilder) (body : Buffer)
    → b.type < 65536
    → length body + 8 < 65536
    → length b.transaction_id ≡ 12
    → build_rest b body
      ≡ ok (
          header_bytes b.type (length body + 8) b.transaction_id
          ++ (body ++ attr_bytes (fingerprint_of b body)))
unfolding build_rest
build_rest_lem b body t l h =
    let v : ℕ =
      bit_xor (crc32 (header_bytes b.type (length body + 8) b.transaction_id ++ body))
        0x5354_554e in
    let small : ltb (to_uint32 v) 4294967296 ≡ true = ground arith in
    let grown : length (body ++ attr_bytes (fingerprint_of b body)) ≡ length body + 8 =
      length-append body (attr_bytes (fingerprint_of b body)) in
    rw (header_lem b (length body + 8) t l h, small, grown, header_lem b (length body + 8) t l h)
      refl

pub body_bytes-append :
    (xs ys : List StunAttribute) → body_bytes (xs ++ ys) ≡ body_bytes xs ++ body_bytes ys
body_bytes-append [] ys = refl
body_bytes-append (x ∷ xs) ys =
    ap (λ (bytes : Buffer). attr_bytes x ++ bytes) (body_bytes-append xs ys)
    ∙ sym (append_assoc (attr_bytes x) (body_bytes xs) (body_bytes ys))

pub body_bytes-append_one :
    (xs : List StunAttribute) (a : StunAttribute)
    → body_bytes (xs ++ (a ∷ [])) ≡ body_bytes xs ++ attr_bytes a
body_bytes-append_one xs a =
    body_bytes-append xs (a ∷ [])
    ∙ ap (λ (bytes : Buffer). body_bytes xs ++ bytes) (append-nil (attr_bytes a))

module _ (hmac_sha1 : Buffer → Buffer → Buffer) where
  abbrev pub integrity_of : StunMessageBuilder → Buffer → Buffer → StunAttribute
  integrity_of b password body = record {
    type = message_integrity;
    value = hmac_sha1 password (header_bytes b.type (length body + 24) b.transaction_id ++ body);
  }

  -- The attributes in front of the FINGERPRINT, and all of them.
  abbrev pub signed_attrs : StunMessageBuilder → Buffer → List StunAttribute
  signed_attrs b [] = b.attrs
  signed_attrs b (c ∷ cs) = b.attrs ++ (integrity_of b (c ∷ cs) (body_bytes b.attrs) ∷ [])

  abbrev pub sent_attrs : StunMessageBuilder → Buffer → List StunAttribute
  sent_attrs b password =
      signed_attrs b password ++ (fingerprint_of b (body_bytes (signed_attrs b password)) ∷ [])

-- What `build` is given: fields that fit, with room for MESSAGE-INTEGRITY and FINGERPRINT.
pub record IsBuildable (b : StunMessageBuilder) : Type 0 where
  pub type_fits : b.type < 65536
  pub id_is_whole : length b.transaction_id ≡ 12
  pub attrs_fit : All Fits b.attrs
  pub room : length (body_bytes b.attrs) + 32 < 65536

module _ (hmac_sha1 : Buffer → Buffer → Buffer)
    (length-hmac : (key bytes : Buffer) → length (hmac_sha1 key bytes) ≡ 20) where
  pub length-signed :
      (b : StunMessageBuilder) (password : Buffer)
      → length (body_bytes (signed_attrs hmac_sha1 b password)) ≤ length (body_bytes b.attrs) + 24
  length-signed b [] = omega arith
  length-signed b (c ∷ cs) =
      let m = integrity_of hmac_sha1 b (c ∷ cs) (body_bytes b.attrs) in
      let long : length m.value ≡ 20 = length-hmac _ _ in
      omega (
        arith,
        ap length (body_bytes-append_one b.attrs m),
        length-append {0} (body_bytes b.attrs) (attr_bytes m),
        length-append {0} m.value (padding (length m.value)),
        length-alloc (pad4 (length m.value) - length m.value),
        long,
      )

  build_integrity_lem :
      (b : StunMessageBuilder) (password : Buffer)
      → IsBuildable b
      → build_integrity hmac_sha1 b password (body_bytes b.attrs)
        ≡ ok (body_bytes (signed_attrs hmac_sha1 b password))
  unfolding build_integrity
  build_integrity_lem b [] w = refl
  build_integrity_lem b (c ∷ cs) w =
      let m = integrity_of hmac_sha1 b (c ∷ cs) (body_bytes b.attrs) in
      let long : length m.value ≡ 20 = length-hmac _ _ in
      rw
        (
          header_lem b (length (body_bytes b.attrs) + 24) w.type_fits (omega (arith, w.room))
              w.id_is_whole,
          body_bytes-append_one b.attrs m,
          long,
          append-nil m.value,
        )
        refl

  -- The message that `build` returns, byte for byte.
  pub build_lem :
      (b : StunMessageBuilder) (password : Buffer)
      → IsBuildable b
      → build hmac_sha1 b password
        ≡ ok (
            header_bytes b.type
              (length (body_bytes (sent_attrs hmac_sha1 b password)))
              b.transaction_id
            ++ body_bytes (sent_attrs hmac_sha1 b password))
  unfolding build
  build_lem b password w =
      let body = body_bytes (signed_attrs hmac_sha1 b password) in
      let f = fingerprint_of b body in
      let whole : body_bytes (sent_attrs hmac_sha1 b password) ≡ body ++ attr_bytes f =
        body_bytes-append_one (signed_attrs hmac_sha1 b password) f in
      let size : length (body ++ attr_bytes f) ≡ length body + 8 =
        length-append body (attr_bytes f) in
      rw
        (
          encode_body_lem b.attrs w.attrs_fit,
          build_integrity_lem b password w,
          build_rest_lem b body w.type_fits (omega (arith, w.room, length-signed b password))
              w.id_is_whole,
          whole,
          size,
        )
        refl
