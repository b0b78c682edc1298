-- ===== src/Sctp/Chunks/Params.antt =====
-- `parseParams` returns on every input, and reads back what `encodeParam` wrote.
use node_rtc_connection.Prelude.{
  ℕ, zero, suc, ◌+◌, ◌-◌, ◌*◌, ◌/◌, ◌%◌, ◌≤◌, ◌<◌, ◌≡◌, ap, ◌∙◌, inl, inr, true, false, ◌||◌, List,
  [], ◌∷◌, ◌++◌, append-nil, append_assoc, arith, ltb, leb, if◌then◌else◌, Bool-cases, length,
  length-append, drop, length-drop, drop-append_length, All, All-append, ok,
}
use node_rtc_connection.Buffer.{Buffer, slice, concat, length-alloc, be16_lem}
use native.Mathlib.Decide.{dec_le}
use node_rtc_connection.Buffer.Fields.{
  four_bytes, room_for_four, first_field, second_field, length-body, slice-body,
}
use node_rtc_connection.Sctp.Chunks.{
  ParsedParam, pad4, encode_param, parse_params_loop, parse_params,
}
use node_rtc_connection.Sctp.Chunks.Layout.{padding, param_bytes, encode_param_lem}

-- One round of the loop where four bytes are left.
module _ (packet : Buffer) (off a b c d : ℕ) (rest : Buffer)
    (here : drop off packet ≡ a ∷ b ∷ c ∷ d ∷ rest) where
  abbrev param_here : ParsedParam
  param_here = record {
    type = a * 256 + b;
    size = c * 256 + d;
    value = slice packet (off + 4) (off + (c * 256 + d));
  }

  param_round :
      (fuel : ℕ) (params : List ParsedParam)
      → parse_params_loop (suc fuel) packet off params ≡ (
          let more =
            parse_params_loop fuel packet
              (off + pad4 (c * 256 + d))
              (params ++ (param_here ∷ [])) in
          if ltb (c * 256 + d) 4 || ltb (length packet) (off + (c * 256 + d))
          then ok params
          else more)
  unfolding parse_params_loop
  param_round fuel params =
      let fits : leb (off + 4) (length packet) ≡ true =
        ground (arith, room_for_four packet off a b c d rest here) in
      rw (fits, first_field packet off a b c d rest here, second_field packet off a b c d rest here)

-- The length field of a param is the length of its body and header.
abbrev pub IsSized : ParsedParam → Type 0
IsSized c = c.size ≡ 4 + length c.value

-- The loop's own exit.
param_end :
    (fuel : ℕ) (packet : Buffer) (off : ℕ) (params : List ParsedParam)
    → ¬ (off + 4 ≤ length packet)
    → parse_params_loop (suc fuel) packet off params ≡ ok params
unfolding parse_params_loop
param_end fuel packet off params h =
    let e : leb (off + 4) (length packet) ≡ false = ground arith in rw e

param_loop_returns :
    (fuel : ℕ) (packet : Buffer) (off : ℕ) (params : List ParsedParam)
    → length packet - off < fuel
    → All IsSized params
    → (cs : List ParsedParam) × (parse_params_loop fuel packet off params ≡ ok cs) × All IsSized cs
param_loop_returns zero packet off params h k = absurd (omega arith)
param_loop_returns (suc fuel) packet off params h k = elim (dec_le (off + 4) (length packet)) [
  | no p ↦ (params, param_end fuel packet off params p, k)
  | yes p ↦
      let (a, b, c, d, rest, here) =
        four_bytes (drop off packet) (omega (arith, length-drop {0} off packet)) in
      let size : ℕ = c * 256 + d in
      elim (Bool-cases (ltb size 4 || ltb (length packet) (off + size))) [
        | inl stop ↦ (params, rw (param_round packet off a b c d rest here fuel params, stop), k)
        | inr more ↦
            let sized : size ≡ 4 + length (slice packet (off + 4) (off + size)) =
              length-body packet off a b c d rest here size (ground arith) (ground arith) in
            let (cs, e, all) =
              param_loop_returns fuel packet (off + pad4 size)
                (params ++ (param_here packet off a b c d rest here ∷ [])) (omega (arith, sized))
                (All-append IsSized params _ k (sized, tt)) in
            (cs, rw (param_round packet off a b c d rest here fuel params, more) e, all)
      ]
]

-- `parseParams` throws on no buffer, however short or damaged, and its loop ends; in every
-- parameter that it returns the length field counts the four bytes of the header and the value.
pub parse_params_returns :
    (buf : Buffer) → (ps : List ParsedParam) × (parse_params buf ≡ ok ps) × All IsSized ps
unfolding parse_params
parse_params_returns buf = param_loop_returns (suc (length buf)) buf 0 [] (omega arith) tt

-- A list of parameters, and their encodings by `encodeParam`.
abbrev pub Encodes : List ParsedParam → List Buffer → Type 0
Encodes [] [] = Unit {0}
Encodes (c ∷ cs) (e ∷ es) = (encode_param c.type c.value ≡ ok e) × IsSized c × Encodes cs es
Encodes _ _ = ⊥

-- What `encodeParam` returned, when it did return.
pub encode_param_inversion :
    (type : ℕ) (body e : Buffer)
    → encode_param type body ≡ ok e
    → (e ≡ param_bytes type body) × (4 + length body < 65536)
encode_param_inversion type body e h = ground (arith, encode_param_lem type body)

-- A round on a param that `encodeParam` wrote.
module _ (front tail e : Buffer) (c : ParsedParam) (w : encode_param c.type c.value ≡ ok e)
    (sized : IsSized c) where
  size_lem : (4 + length c.value) / 256 * 256 + (4 + length c.value) % 256 ≡ c.size
  size_lem = omega (arith, sized)

  wire : (e ≡ param_bytes c.type c.value) × (4 + length c.value < 65536)
  wire = encode_param_inversion c.type c.value e w

  abbrev behind : Buffer
  behind = (c.value ++ padding (4 + length c.value)) ++ tail

  here :
      drop (length front) (front ++ (e ++ tail))
      ≡ c.type / 256
        ∷ c.type % 256
        ∷ (4 + length c.value) / 256
        ∷ (4 + length c.value) % 256
        ∷ behind
  here = rw (drop-append_length front (e ++ tail), wire.0)

  length-wire : length e ≡ pad4 c.size
  length-wire =
      rw (wire.0, sized)
        (omega (
          arith,
          length-append {0} c.value (padding (4 + length c.value)),
          length-alloc (pad4 (4 + length c.value) - (4 + length c.value)),
        ))

  read_back : param_here (front ++ (e ++ tail)) (length front) _ _ _ _ behind here ≡ c
  read_back =
      let body : slice (front ++ (e ++ tail)) (length front + 4)
            (length front + (4 + length c.value))
          ≡ c.value =
        slice-body (front ++ (e ++ tail)) (length front) _ _ _ _ behind here c.value
          (padding (4 + length c.value) ++ tail) (append_assoc c.value _ tail) in
      rw (be16_lem c.type, size_lem, sized, body) (cc)

  param_step :
      (fuel : ℕ) (params : List ParsedParam)
      → parse_params_loop (suc fuel) (front ++ (e ++ tail)) (length front) params
        ≡ parse_params_loop fuel ((front ++ e) ++ tail) (length (front ++ e)) (params ++ (c ∷ []))
  param_step fuel params =
      let going : ltb c.size 4 || ltb (length (front ++ (e ++ tail))) (length front + c.size)
          ≡ false =
        ground (arith, sized, length-wire, length-append front (e ++ tail), length-append e tail) in
      let next : length front + pad4 c.size ≡ length (front ++ e) =
        omega (arith, length-wire, length-append {0} front e) in
      param_round (front ++ (e ++ tail)) (length front) _ _ _ _ behind here fuel params
      ∙ rw (read_back, size_lem, going, next, append_assoc)

param_loop_reads :
    (fuel : ℕ) (front : Buffer) (cs : List ParsedParam) (es : List Buffer)
    (params : List ParsedParam)
    → length (concat es) < fuel
    → Encodes cs es
    → parse_params_loop fuel (front ++ concat es) (length front) params ≡ ok (params ++ cs)
param_loop_reads zero front cs es params h k = absurd (omega arith)
param_loop_reads (suc fuel) front [] [] params h k =
    rw (append-nil front, append-nil params)
      (param_end fuel front (length front) params (omega arith))
param_loop_reads (suc fuel) front [] (e ∷ es) params h k = absurd k
param_loop_reads (suc fuel) front (c ∷ cs) [] params h k = absurd k
param_loop_reads (suc fuel) front (c ∷ cs) (e ∷ es) params h (w, sized, k) =
    param_step front (concat es) e c w sized fuel params
    ∙ param_loop_reads fuel (front ++ e) cs es (params ++ (c ∷ []))
        (omega (
          arith,
          sized,
          length-wire front (concat es) e c w sized,
          length-append {0} e (concat es),
        ))
        k
    ∙ ap ok (append_assoc params (c ∷ []) cs)

-- `parseParams` reads back every list of parameters that `encodeParam` encoded one after the
-- other: types, lengths and values, in order, without the padding.
pub parse_params-encode :
    (cs : List ParsedParam) (es : List Buffer) → Encodes cs es → parse_params (concat es) ≡ ok cs
unfolding parse_params
parse_params-encode cs es k = param_loop_reads _ [] cs es [] (omega arith) k
