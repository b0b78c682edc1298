-- ===== src/Sctp/Dcep/RoundTrip.antt =====
-- src/sctp/dcep.ts: what `decodeOpen` makes of the bytes that `encodeOpen` wrote.
use node_rtc_connection.Prelude.{
  ℕ, ◌+◌, ◌-◌, ◌≡◌, refl, sym, ap, ◌∙◌, not, ◌∷◌, ◌++◌, append_assoc, append-nil, ◌==◌, length,
  length-append, take, drop, take_all, drop-drop, replicate-add, take-append_length,
  drop-append_length, ok, arith,
}
use Prim.Native.Nat.{bit_and}
use node_rtc_connection.Int.{pos}
use node_rtc_connection.Buffer.{
  Buffer, IsByte, IsU16, IsU32, to_uint32_id, alloc, copy, copy-alloc, slice, be16, be32, be16_lem,
  be32_lem,
}
use node_rtc_connection.Sctp.Dcep.{
  OpenParams, encode_open, decode_open, message_type, data_channel_open,
}

module _ {S : Type 0} (utf8 : S → Buffer) (of_utf8 : Buffer → S) where
  -- The fields fit, and the strings survive UTF-8, as well-formed strings do.
  pub record IsOpen (p : OpenParams S) : Type 0 where
    pub channel_type : IsByte p.channel_type
    pub priority : IsU16 p.priority
    pub reliability_parameter : IsU32 p.reliability_parameter
    pub label_size : IsU16 (length (utf8 p.label))
    pub protocol_size : IsU16 (length (utf8 p.protocol))
    pub label : of_utf8 (utf8 p.label) ≡ p.label
    pub protocol : of_utf8 (utf8 p.protocol) ≡ p.protocol

  open_header : OpenParams S → Buffer
  open_header p =
      data_channel_open
      ∷ p.channel_type
      ∷ (be16 p.priority
          ++ (be32 p.reliability_parameter
              ++ (be16 (length (utf8 p.label)) ++ be16 (length (utf8 p.protocol)))))

  open_bytes : OpenParams S → Buffer
  unfolding open_header
  open_bytes p = open_header p ++ (utf8 p.label ++ utf8 p.protocol)

  -- The two copies, behind the header.
  strings_copied :
      (label proto header : Buffer)
      → length header ≡ 12
      → copy proto
          (12 + length label)
          (copy label 12 (header ++ alloc (length label + length proto)))
        ≡ header ++ (label ++ proto)
  strings_copied label proto header h =
      let k = length label + length proto in
      let room : k - length label ≡ length proto = omega arith in
      let seam : 12 + length label ≡ length (header ++ label) =
        omega (arith, h, length-append {0} header label) in
      let full : length proto - length proto ≡ 0 = omega arith in
      ap (λ (n : ℕ). copy proto (12 + length label) (copy label n (header ++ alloc k))) (sym h)
      ∙ ap (copy proto (12 + length label)) (copy-alloc label header k (omega arith))
      ∙ ap (λ (n : ℕ). copy proto (12 + length label) (header ++ (label ++ alloc n))) room
      ∙ ap (copy proto (12 + length label)) (sym (append_assoc header label (alloc (length proto))))
      ∙ ap (λ (n : ℕ). copy proto n ((header ++ label) ++ alloc (length proto))) seam
      ∙ copy-alloc proto (header ++ label) (length proto) (omega arith)
      ∙ ap (λ (n : ℕ). (header ++ label) ++ (proto ++ alloc n)) full
      ∙ rw (append-nil proto, append_assoc header label proto) refl

  encode_open_lem : (p : OpenParams S) → IsOpen p → encode_open utf8 of_utf8 p ≡ ok (open_bytes p)
  unfolding encode_open open_bytes open_header
  encode_open_lem p v =
      let size : 12 + length (utf8 p.label) + length (utf8 p.protocol)
          ≡ 12 + (length (utf8 p.label) + length (utf8 p.protocol)) =
        omega arith in
      rw
        (
          size,
          replicate-add {A = ℕ} 12 (length (utf8 p.label) + length (utf8 p.protocol)) 0,
          to_uint32_id p.reliability_parameter v.reliability_parameter,
        )
        (ground (
          arith,
          v.channel_type,
          v.priority,
          v.reliability_parameter,
          v.label_size,
          v.protocol_size,
          strings_copied (utf8 p.label) (utf8 p.protocol) (open_header p) refl,
        ))

  label_read : (label proto : Buffer) → take (12 + length label - 12) (label ++ proto) ≡ label
  label_read label proto =
      let e : 12 + length label - 12 ≡ length label = omega arith in
      rw e (take-append_length label proto)

  protocol_read :
      (header label proto : Buffer)
      → drop 12 (header ++ (label ++ proto)) ≡ label ++ proto
      → slice (header ++ (label ++ proto)) (12 + length label) (12 + length label + length proto)
        ≡ proto
  protocol_read header label proto h =
      let behind : drop (12 + length label) (header ++ (label ++ proto)) ≡ proto =
        sym (drop-drop (length label) 12 (header ++ (label ++ proto)))
        ∙ ap (drop (length label)) h
        ∙ drop-append_length label proto in
      rw behind (take_all _ proto (omega arith))

  -- `decodeOpen` reads back what `encodeOpen` wrote.
  pub decode_open-encode_open :
      (p : OpenParams S)
      → IsOpen p
      → (b : Buffer) × (encode_open utf8 of_utf8 p ≡ ok b)
        × (message_type b ≡ pos data_channel_open)
        × (decode_open utf8 of_utf8 b
            ≡ ok (record { params = p; unordered = not (bit_and p.channel_type 0x80 == 0) }))
  unfolding decode_open open_bytes open_header message_type
  decode_open-encode_open p v = (
    open_bytes p,
    encode_open_lem p v,
    refl,
    rw
        (
          be16_lem p.priority,
          be32_lem p.reliability_parameter,
          be16_lem (length (utf8 p.label)),
          be16_lem (length (utf8 p.protocol)),
          label_read (utf8 p.label) (utf8 p.protocol),
          protocol_read (open_header p) (utf8 p.label) (utf8 p.protocol) refl,
          v.label,
          v.protocol,
        )
        refl,
  )
