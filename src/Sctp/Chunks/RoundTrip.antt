-- ===== src/Sctp/Chunks/RoundTrip.antt =====
-- `parseChunks` returns on every packet, and reads back what `encodeChunk` wrote.
use node_rtc_connection.Prelude.{
  ℕ, zero, suc, ◌+◌, ◌-◌, ◌*◌, ◌/◌, ◌%◌, ◌≤◌, ◌<◌, ◌≡◌, ap, ◌∙◌, inl, inr, true, false, ◌||◌, List,
  [], ◌∷◌, ◌++◌, append-nil, append_assoc, arith, ltb, leb, if◌then◌else◌, Bool-cases, length,
  length-append, drop, length-drop, drop-append_length, All, All-append, ok,
}
use node_rtc_connection.Buffer.{Buffer, slice, concat, length-alloc}
use node_rtc_connection.Buffer.Fields.{
  four_bytes, room_for_four, first_byte, second_byte, second_field, length-body, slice-body,
}
use native.Mathlib.Decide.{dec_le}
use node_rtc_connection.Sctp.Chunks.{
  ParsedChunk, pad4, encode_chunk, parse_chunks_loop, parse_chunks,
}
use node_rtc_connection.Sctp.Chunks.Layout.{padding, chunk_bytes, encode_chunk_lem}

-- One round of the loop where four bytes are left.
module _ (packet : Buffer) (off a b c d : ℕ) (rest : Buffer)
    (here : drop off packet ≡ a ∷ b ∷ c ∷ d ∷ rest) where
  abbrev chunk_here : ParsedChunk
  chunk_here = record {
    type = a;
    flags = b;
    size = c * 256 + d;
    body = slice packet (off + 4) (off + (c * 256 + d));
  }

  chunk_round :
      (fuel : ℕ) (chunks : List ParsedChunk)
      → parse_chunks_loop (suc fuel) packet off chunks ≡ (
          let more =
            parse_chunks_loop fuel packet
              (off + pad4 (c * 256 + d))
              (chunks ++ (chunk_here ∷ [])) in
          if ltb (c * 256 + d) 4 || ltb (length packet) (off + (c * 256 + d))
          then ok chunks
          else more)
  unfolding parse_chunks_loop
  chunk_round fuel chunks =
      let fits : leb (off + 4) (length packet) ≡ true =
        ground (arith, room_for_four packet off a b c d rest here) in
      rw (
        fits,
        first_byte packet off a b c d rest here,
        second_byte packet off a b c d rest here,
        second_field packet off a b c d rest here,
      )

-- The length field of a chunk is the length of its body and header.
abbrev pub IsSized : ParsedChunk → Type 0
IsSized c = c.size ≡ 4 + length c.body

-- The loop's own exit.
chunk_end :
    (fuel : ℕ) (packet : Buffer) (off : ℕ) (chunks : List ParsedChunk)
    → ¬ (off + 4 ≤ length packet)
    → parse_chunks_loop (suc fuel) packet off chunks ≡ ok chunks
unfolding parse_chunks_loop
chunk_end fuel packet off chunks h =
    let e : leb (off + 4) (length packet) ≡ false = ground arith in rw e

chunk_loop_returns :
    (fuel : ℕ) (packet : Buffer) (off : ℕ) (chunks : List ParsedChunk)
    → length packet - off < fuel
    → All IsSized chunks
    → (cs : List ParsedChunk) × (parse_chunks_loop fuel packet off chunks ≡ ok cs) × All IsSized cs
chunk_loop_returns zero packet off chunks h k = absurd (omega arith)
chunk_loop_returns (suc fuel) packet off chunks h k = elim (dec_le (off + 4) (length packet)) [
  | no p ↦ (chunks, chunk_end fuel packet off chunks p, k)
  | yes p ↦
      let (a, b, c, d, rest, here) =
        four_bytes (drop off packet) (omega (arith, length-drop {0} off packet)) in
      let size : ℕ = c * 256 + d in
      elim (Bool-cases (ltb size 4 || ltb (length packet) (off + size))) [
        | inl stop ↦ (chunks, rw (chunk_round packet off a b c d rest here fuel chunks, stop), k)
        | inr more ↦
            let sized : size ≡ 4 + length (slice packet (off + 4) (off + size)) =
              length-body packet off a b c d rest here size (ground arith) (ground arith) in
            let (cs, e, all) =
              chunk_loop_returns fuel packet (off + pad4 size)
                (chunks ++ (chunk_here packet off a b c d rest here ∷ [])) (omega (arith, sized))
                (All-append IsSized chunks _ k (sized, tt)) in
            (cs, rw (chunk_round packet off a b c d rest here fuel chunks, more) e, all)
      ]
]

-- `parseChunks` throws on no packet, however short or damaged, and its loop ends; in every chunk
-- that it returns the length field counts the four bytes of the header and the body.
pub parse_chunks_returns :
    (packet : Buffer) → (cs : List ParsedChunk) × (parse_chunks packet ≡ ok cs) × All IsSized cs
unfolding parse_chunks
parse_chunks_returns packet = chunk_loop_returns (suc (length packet)) packet 12 [] (omega arith) tt

-- The chunks of a packet, and their encodings by `encodeChunk`.
abbrev pub Encodes : List ParsedChunk → List Buffer → Type 0
Encodes [] [] = Unit {0}
Encodes (c ∷ cs) (e ∷ es) = (encode_chunk c.type c.flags c.body ≡ ok e) × IsSized c × Encodes cs es
Encodes _ _ = ⊥

-- What `encodeChunk` returned, when it did return.
pub encode_chunk_inversion :
    (type flags : ℕ) (body e : Buffer)
    → encode_chunk type flags body ≡ ok e
    → (e ≡ chunk_bytes type flags body) × (4 + length body < 65536)
encode_chunk_inversion type flags body e h = ground (arith, encode_chunk_lem type flags body)

-- A round on a chunk that `encodeChunk` wrote.
module _ (front tail e : Buffer) (c : ParsedChunk) (w : encode_chunk c.type c.flags c.body ≡ ok e)
    (sized : IsSized c) where
  size_lem : (4 + length c.body) / 256 * 256 + (4 + length c.body) % 256 ≡ c.size
  size_lem = omega (arith, sized)

  wire : (e ≡ chunk_bytes c.type c.flags c.body) × (4 + length c.body < 65536)
  wire = encode_chunk_inversion c.type c.flags c.body e w

  abbrev behind : Buffer
  behind = (c.body ++ padding (4 + length c.body)) ++ tail

  here :
      drop (length front) (front ++ (e ++ tail))
      ≡ c.type ∷ c.flags ∷ (4 + length c.body) / 256 ∷ (4 + length c.body) % 256 ∷ behind
  here = rw (drop-append_length front (e ++ tail), wire.0)

  length-wire : length e ≡ pad4 c.size
  length-wire =
      rw (wire.0, sized)
        (omega (
          arith,
          length-append {0} c.body (padding (4 + length c.body)),
          length-alloc (pad4 (4 + length c.body) - (4 + length c.body)),
        ))

  read_back : chunk_here (front ++ (e ++ tail)) (length front) c.type c.flags _ _ behind here ≡ c
  read_back =
      let body : slice (front ++ (e ++ tail)) (length front + 4)
            (length front + (4 + length c.body))
          ≡ c.body =
        slice-body (front ++ (e ++ tail)) (length front) c.type c.flags _ _ behind here c.body
          (padding (4 + length c.body) ++ tail) (append_assoc c.body _ tail) in
      rw (size_lem, sized, body) (cc)

  chunk_step :
      (fuel : ℕ) (chunks : List ParsedChunk)
      → parse_chunks_loop (suc fuel) (front ++ (e ++ tail)) (length front) chunks
        ≡ parse_chunks_loop fuel ((front ++ e) ++ tail) (length (front ++ e)) (chunks ++ (c ∷ []))
  chunk_step fuel chunks =
      let going : ltb c.size 4 || ltb (length (front ++ (e ++ tail))) (length front + c.size)
          ≡ false =
        ground (arith, sized, length-wire, length-append front (e ++ tail), length-append e tail) in
      let next : length front + pad4 c.size ≡ length (front ++ e) =
        omega (arith, length-wire, length-append {0} front e) in
      chunk_round (front ++ (e ++ tail)) (length front) c.type c.flags _ _ behind here fuel chunks
      ∙ rw (read_back, size_lem, going, next, append_assoc)

chunk_loop_reads :
    (fuel : ℕ) (front : Buffer) (cs : List ParsedChunk) (es : List Buffer)
    (chunks : List ParsedChunk)
    → length (concat es) < fuel
    → Encodes cs es
    → parse_chunks_loop fuel (front ++ concat es) (length front) chunks ≡ ok (chunks ++ cs)
chunk_loop_reads zero front cs es chunks h k = absurd (omega arith)
chunk_loop_reads (suc fuel) front [] [] chunks h k =
    rw (append-nil front, append-nil chunks)
      (chunk_end fuel front (length front) chunks (omega arith))
chunk_loop_reads (suc fuel) front [] (e ∷ es) chunks h k = absurd k
chunk_loop_reads (suc fuel) front (c ∷ cs) [] chunks h k = absurd k
chunk_loop_reads (suc fuel) front (c ∷ cs) (e ∷ es) chunks h (w, sized, k) =
    chunk_step front (concat es) e c w sized fuel chunks
    ∙ chunk_loop_reads fuel (front ++ e) cs es (chunks ++ (c ∷ []))
        (omega (
          arith,
          sized,
          length-wire front (concat es) e c w sized,
          length-append {0} e (concat es),
        ))
        k
    ∙ ap ok (append_assoc chunks (c ∷ []) cs)

-- `parseChunks` reads back every list of chunks that `encodeChunk` encoded, from a packet that has
-- them one after the other behind any 12 bytes: types, flags, lengths and bodies, in order, without
-- the padding.
pub parse_chunks-encode :
    (header : Buffer) (cs : List ParsedChunk) (es : List Buffer)
    → length header ≡ 12
    → Encodes cs es
    → parse_chunks (header ++ concat es) ≡ ok cs
unfolding parse_chunks
parse_chunks-encode header cs es h k =
    rw (← h)
      (chunk_loop_reads _ header cs es [] (omega (arith, length-append {0} header (concat es))) k)
