-- ===== src/Sctp/Association/Packets.antt =====
-- Packets out and in: what `#emitPacket` emits, and what `receivePacket` makes of it.
use node_rtc_connection.Prelude.{
  ℕ, ◌+◌, ◌*◌, ◌≤◌, ◌≡◌, refl, sym, ap, ◌∙◌, true, false, List, [], ◌∷◌, ◌++◌, append-nil, arith,
  ltb, length, take, length-take, Result, ok, err,
}
use node_rtc_connection.Buffer.{Buffer, IsU16, concat}
use node_rtc_connection.Sctp.Association.{Assoc, Event, output}
use node_rtc_connection.Sctp.Association.Monad.{Handler, and_then, ◌>>◌, skip, emit_packet}
use node_rtc_connection.Prelude.{take-append-drop}
use node_rtc_connection.Buffer.Fields.{four_bytes}
use node_rtc_connection.Sctp.Chunks.{
  ParsedChunk, CommonHeader, encode_common_header, parse_chunks, parse_common_header,
}
use node_rtc_connection.Sctp.Chunks.Layout.{encode_common_header_lem, header_bytes}
use node_rtc_connection.Sctp.Chunks.RoundTrip.{Encodes, parse_chunks-encode}
use node_rtc_connection.Sctp.Checksum.{verify_checksum}
use node_rtc_connection.Sctp.Checksum.Laws.{verify_checksum-apply_checksum}
use node_rtc_connection.Sctp.Association.Dispatch.{handle_chunk, handle_chunks, receive_packet}

-- A handler with nothing behind it.
bind_skip :
    (r : Result (Unit {0})) (a : Assoc) (es : List Event)
    → and_then r a es (λ _. skip) ≡ record { result = r; assoc = a; events = es }
bind_skip (ok tt) a es = rw (append-nil es)
bind_skip (err e) a es = refl

pub >>-skip : (m : Handler) (a : Assoc) → (m >> skip) a ≡ m a
>>-skip m a = bind_skip (m a).result (m a).assoc (m a).events

-- The ports of an association are 16-bit numbers; both are the constant 5000.
abbrev pub HasPorts : Assoc → Type 0
HasPorts a = IsU16 a.local_port × IsU16 a.remote_port

-- A packet of one checked checksum, with these bytes behind its header.
pub record IsPacket (p content : Buffer) : Type 0 where
  pub valid : verify_checksum p ≡ ok (true, p)
  pub header : length (take 12 p) ≡ 12
  pub content' : p ≡ take 12 p ++ content

pub emit_packet_lem :
    (tag : ℕ) (chunks : List Buffer) (a : Assoc)
    → HasPorts a
    → (p : Buffer) × (emit_packet tag chunks a
        ≡ record { result = ok tt; assoc = a; events = output p ∷ [] })
      × IsPacket p (concat chunks)
unfolding emit_packet
emit_packet_lem tag chunks a v =
    let header = header_bytes a.local_port a.remote_port tag in
    let (p, e, front, behind, long, valid) =
      verify_checksum-apply_checksum (header ++ concat chunks) (omega arith) in
    let encoded : encode_common_header a.local_port a.remote_port tag ≡ ok header =
      ground (arith, encode_common_header_lem a.local_port a.remote_port tag, v.0, v.1) in
    (
      p,
      rw (encoded, e),
      record {
        valid = valid;
        header = omega (arith, long, length-take {0} 12 p);
        content' = sym (take-append-drop 12 p) ∙ ap (λ (q : Buffer). take 12 p ++ q) behind;
      },
    )

header_spine :
    (a b c d f g i j k l m n : ℕ) (rest p : Buffer)
    → p ≡ a ∷ b ∷ c ∷ d ∷ f ∷ g ∷ i ∷ j ∷ k ∷ l ∷ m ∷ n ∷ rest
    → (h : CommonHeader) × (parse_common_header p ≡ ok h)
unfolding parse_common_header
header_spine a b c d f g i j k l m n rest p e = (
  record {
    src_port = a * 256 + b;
    dst_port = c * 256 + d;
    verification_tag = f * 16777216 + g * 65536 + i * 256 + j;
    checksum = n * 16777216 + m * 65536 + l * 256 + k;
  },
  rw e,
)

-- The header of 12 bytes is always read.
parse_common_header_returns :
    (p : Buffer) → 12 ≤ length p → (h : CommonHeader) × (parse_common_header p ≡ ok h)
parse_common_header_returns p long =
    let (a, b, c, d, rest, e) = four_bytes p (omega arith) in
    let (f, g, i, j, rest', e') = four_bytes rest (omega (arith, ap length e)) in
    let (k, l, m, n, rest'', e'') = four_bytes rest' (omega (arith, ap length e, ap length e')) in
    header_spine a b c d f g i j k l m n rest'' p
      (e ∙ ap (λ (q : Buffer). a ∷ b ∷ c ∷ d ∷ q) (e' ∙ ap (λ (q : Buffer). f ∷ g ∷ i ∷ j ∷ q) e''))

module _ (hmac : Buffer → Buffer → Buffer) (fresh_secret : Buffer) where
  -- A packet of one chunk that `encodeChunk` wrote comes to the handler of that chunk.
  pub receive_one :
      (p e : Buffer) (c : ParsedChunk) (a : Assoc)
      → IsPacket p (concat (e ∷ []))
      → Encodes (c ∷ []) (e ∷ [])
      → receive_packet hmac fresh_secret p a ≡ handle_chunk hmac fresh_secret c a
  unfolding receive_packet handle_chunks
  receive_one p e c a v k =
      let parsed : parse_chunks p ≡ ok (c ∷ []) =
        rw v.content' (parse_chunks-encode (take 12 p) (c ∷ []) (e ∷ []) v.header k) in
      let (h, header) =
        parse_common_header_returns p (omega (arith, v.header, length-take {0} 12 p)) in
      let long : ltb (length p) 12 ≡ false = ground (arith, v.header, length-take 12 p) in
      rw (long, v.valid, header, parsed) (>>-skip (handle_chunk hmac fresh_secret c) a)
