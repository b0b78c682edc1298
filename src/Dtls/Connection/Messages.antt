-- ===== src/Dtls/Connection/Messages.antt =====
-- src/dtls/connection.ts: the bodies of handshake messages, written and read.
use node_rtc_connection.Prelude.{
  ℕ, zero, suc, ◌+◌, ◌*◌, Bool, true, false, ◌||◌, ◌&&◌, Option, none, some, [], ◌∷◌, ◌++◌, ltb,
  leb, ◌==◌, if◌then◌else◌, length, Result, ok, ◌>>=◌, guard, ◌>>◌, handshake_error,
}
use node_rtc_connection.Buffer.{
  Buffer, slice, alloc, concat, be16, write_uint16_be, read_uint8, read_uint16_be,
}
use node_rtc_connection.Dtls.Protocol.{vec8, vec16, vec24, read_uint24}

abbrev pub cipher_suite : ℕ
cipher_suite = 0xc02b

abbrev pub secp256r1 : ℕ
secp256r1 = 0x0017

abbrev pub extended_master_secret : ℕ
extended_master_secret = 23

abbrev pub renegotiation_info : ℕ
renegotiation_info = 0xff01

-- `#ext`.
unfoldable pub ext : ℕ → Buffer → Result Buffer
ext type body = do
  h ← write_uint16_be type 0 (alloc 4)
  head ← write_uint16_be (length body) 2 h
  ok (concat (head ∷ body ∷ []))

-- `#buildClientExtensions`.
unfoldable pub build_client_extensions : Result Buffer
build_client_extensions = do
  groups ← vec16 (be16 secp256r1)
  supported_groups ← ext 10 groups
  ec_point_formats ← ext 11 (vec8 (0 ∷ []))
  sigalgs ← vec16 (4 ∷ 3 ∷ [])
  signature_algorithms ← ext 13 sigalgs
  ems ← ext extended_master_secret (alloc 0)
  ok (concat (supported_groups ∷ ec_point_formats ∷ signature_algorithms ∷ ems ∷ []))

-- `#buildClientHello`, with the client's random and the cookie.
unfoldable pub build_client_hello : Buffer → Buffer → Result Buffer
build_client_hello client_random cookie = do
  suites ← vec16 (be16 cipher_suite)
  extensions ← build_client_extensions
  exts ← vec16 extensions
  ok (
      concat (
        (0xfe ∷ 0xfd ∷ [])
        ∷ client_random
        ∷ vec8 (alloc 0)
        ∷ vec8 cookie
        ∷ suites
        ∷ vec8 (0 ∷ [])
        ∷ exts
        ∷ []))

-- `#buildServerHello`, with the server's random and the two flags.
unfoldable pub build_server_hello : Buffer → Bool → Bool → Result Buffer
build_server_hello server_random use_ems reneg = do
  ems ← ext extended_master_secret (alloc 0)
  formats ← ext 11 (vec8 (0 ∷ []))
  info ← ext renegotiation_info (vec8 (alloc 0))
  let front = if use_ems then ems ∷ formats ∷ [] else formats ∷ []
  exts ← vec16 (concat (if reneg then front ++ (info ∷ []) else front))
  ok (
      concat (
        (0xfe ∷ 0xfd ∷ [])
        ∷ server_random
        ∷ vec8 (alloc 0)
        ∷ be16 cipher_suite
        ∷ (0 ∷ [])
        ∷ exts
        ∷ []))

-- What a hello asks for.
pub record Asked : Type 0 where
  pub ems : Bool
  pub reneg : Bool

-- The loop over the extensions of a ClientHello. A round takes four bytes at least, so as many rounds as
-- `end` says are enough.
unfoldable pub client_extensions : ℕ → Buffer → ℕ → ℕ → Asked → Result Asked
client_extensions zero body o end asked = ok asked
client_extensions (suc fuel) body o end asked =
    let round : Result Asked = do
      etype ← read_uint16_be body o
      elen ← read_uint16_be body (o + 2)
      client_extensions fuel body (o + 4 + elen) end (record {
        ems = asked.ems || etype == extended_master_secret;
        reneg = asked.reneg || etype == renegotiation_info;
      })
    in if leb (o + 4) end then round else ok asked

-- Whether the list of cipher suites holds the signalling value 0x00ff.
unfoldable pub has_scsv : Buffer → Bool
has_scsv (a ∷ b ∷ rest) = (a * 256 + b == 0x00ff) || has_scsv rest
has_scsv _ = false

pub record ClientHello : Type 0 where
  pub random : Buffer
  pub cookie : Buffer
  pub asked : Asked

-- The extensions, where the body goes on behind `o`.
unfoldable pub client_hello_rest : Buffer → ℕ → Bool → Result Asked
client_hello_rest body o scsv =
    let none_asked : Asked = record { ems = false; reneg = scsv } in
    let read : Result Asked = do
      ext_len ← read_uint16_be body o
      client_extensions (o + 2 + ext_len) body (o + 2) (o + 2 + ext_len) none_asked
    in if leb (o + 2) (length body) then read else ok none_asked

-- The parsing at the head of `#handleClientHello`.
unfoldable pub parse_client_hello : Buffer → Result ClientHello
parse_client_hello body = do
  sid_len ← read_uint8 body 34
  let o₁ = 34 + (1 + sid_len)
  cookie_len ← read_uint8 body o₁
  let o₂ = o₁ + (1 + cookie_len)
  cs_len ← read_uint16_be body o₂
  let o₃ = o₂ + (2 + cs_len)
  comp_len ← read_uint8 body o₃
  asked ←
      client_hello_rest body (o₃ + (1 + comp_len))
        (has_scsv (slice body (o₂ + 2) (o₂ + 2 + cs_len)))
  ok (record {
    random = slice body 2 34;
    cookie = slice body (o₁ + 1) (o₁ + 1 + cookie_len);
    asked = asked;
  })

-- `#parseServerHello` between the random and the extensions: the offset behind the compression method.
unfoldable pub parse_server_hello : Buffer → Result ℕ
parse_server_hello body = do
  sid_len ← read_uint8 body 34
  let o = 34 + (1 + sid_len)
  suite ← read_uint16_be body o
  guard (suite == cipher_suite) handshake_error
  ok (o + 3)

-- `#buildCertificateMessage`.
unfoldable pub build_certificate_message : Buffer → Buffer
build_certificate_message cert_der = vec24 (vec24 cert_der)

-- `#parseCertificate`; the callback that verifies the fingerprint may be missing.
accepts : Option (Buffer → Bool) → Buffer → Bool
accepts none cert = true
accepts (some verify) cert = verify cert

unfoldable pub parse_certificate : Option (Buffer → Bool) → Buffer → Result (Option Buffer)
unfolding accepts
parse_certificate verify body =
    let end = 3 + read_uint24 body 0 in
    let cert = slice body 6 (6 + read_uint24 body 3) in
    let read : Result (Option Buffer) = (do
      guard (accepts verify cert) handshake_error
      ok (some cert)) in
    if ltb end 6 then ok none else read

-- The point that `#parseServerKeyExchange` reads, and the offset behind it.
unfoldable pub parse_key_point : Buffer → Result (Buffer × ℕ)
parse_key_point body = do
  curve_type ← read_uint8 body 0
  named_curve ← read_uint16_be body 1
  guard ((curve_type == 3) && (named_curve == secp256r1)) handshake_error
  pub_len ← read_uint8 body 3
  ok (slice body 4 (4 + pub_len), 4 + pub_len)

-- The signature behind the offset.
unfoldable pub parse_key_signature : Buffer → ℕ → Result Buffer
parse_key_signature body o = do
  sig_len ← read_uint16_be body (o + 2)
  ok (slice body (o + 4) (o + 4 + sig_len))

-- The parameters of `#sendServerFlight`, and its CertificateRequest.
unfoldable pub ecdh_params : Buffer → Buffer
ecdh_params point = concat ((3 ∷ []) ∷ be16 secp256r1 ∷ vec8 point ∷ [])

-- A signature behind its algorithm.
unfoldable pub signed_vector : Buffer → Result Buffer
signed_vector signature = do v ← vec16 signature; ok (concat ((4 ∷ 3 ∷ []) ∷ v ∷ []))

unfoldable pub certificate_request : Result Buffer
certificate_request = do
  sig_algs ← vec16 (4 ∷ 3 ∷ [])
  cas ← vec16 (alloc 0)
  ok (concat (vec8 (64 ∷ 1 ∷ []) ∷ sig_algs ∷ cas ∷ []))
