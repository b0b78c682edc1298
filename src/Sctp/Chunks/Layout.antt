-- ===== src/Sctp/Chunks/Layout.antt =====
-- The bytes that the encoders of chunks.ts write, and exactly when they throw.
use node_rtc_connection.Prelude.{
  ℕ, ◌+◌, ◌-◌, ◌≡◌, refl, sym, ap, ◌∙◌, ◌&&◌, ◌∷◌, ◌++◌, arith, ltb, if◌then◌else◌, length,
  range_error, ok, err,
}
use node_rtc_connection.Buffer.{Buffer, to_uint32, be16, be32, alloc, copy, alloc_four, copy-alloc}
use node_rtc_connection.Sctp.Chunks.{pad4, encode_common_header, encode_chunk, encode_param}

abbrev pub padding : ℕ → Buffer
padding n = alloc (pad4 n - n)

-- A chunk on the wire: type, flags, length without the padding, body, zeros up to four bytes.
abbrev pub chunk_bytes : ℕ → ℕ → Buffer → Buffer
chunk_bytes type flags body =
    type ∷ flags ∷ (be16 (4 + length body) ++ (body ++ padding (4 + length body)))

abbrev pub param_bytes : ℕ → Buffer → Buffer
param_bytes type value =
    be16 type ++ (be16 (4 + length value) ++ (value ++ padding (4 + length value)))

abbrev pub header_bytes : ℕ → ℕ → ℕ → Buffer
header_bytes src dst tag = be16 src ++ (be16 dst ++ (be32 (to_uint32 tag) ++ be32 0))

pub encode_common_header_lem :
    (src dst tag : ℕ)
    → encode_common_header src dst tag
      ≡ (if ltb src 65536 && ltb dst 65536 then ok (header_bytes src dst tag) else err range_error)
unfolding encode_common_header
encode_common_header_lem src dst tag = ground arith

copied :
    (body head : Buffer)
    → length head ≡ 4
    → copy body 4 (head ++ alloc (pad4 (4 + length body) - 4))
      ≡ head ++ (body ++ padding (4 + length body))
copied body head h =
    let k = pad4 (4 + length body) - 4 in
    let e : k - length body ≡ pad4 (4 + length body) - (4 + length body) = omega arith in
    ap (λ (n : ℕ). copy body n (head ++ alloc k)) (sym h)
    ∙ copy-alloc body head k (omega arith)
    ∙ ap (λ (n : ℕ). head ++ (body ++ alloc n)) e

pub encode_chunk_lem :
    (type flags : ℕ) (body : Buffer)
    → encode_chunk type flags body ≡ (
        if ltb type 256 && (ltb flags 256 && ltb (4 + length body) 65536)
        then ok (chunk_bytes type flags body)
        else err range_error)
unfolding encode_chunk
encode_chunk_lem type flags body =
    rw (alloc_four (pad4 (4 + length body)) (omega arith))
      (ground (arith, copied body (type ∷ flags ∷ be16 (4 + length body)) refl))

pub encode_param_lem :
    (type : ℕ) (value : Buffer)
    → encode_param type value ≡ (
        if ltb type 65536 && ltb (4 + length value) 65536
        then ok (param_bytes type value)
        else err range_error)
unfolding encode_param
encode_param_lem type value =
    rw (alloc_four (pad4 (4 + length value)) (omega arith))
      (ground (arith, copied value (be16 type ++ be16 (4 + length value)) refl))
