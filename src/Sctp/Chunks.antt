-- ===== src/Sctp/Chunks.antt =====
-- src/sctp/chunks.ts: the common header, chunks and parameters. (The bodies are in `Bodies`.)
pub mod Layout
pub mod RoundTrip
pub mod Params
use node_rtc_connection.Prelude.{
  ℕ, zero, suc, ◌+◌, ◌-◌, ◌*◌, ◌/◌, ◌%◌, ◌^◌, ◌≤◌, ◌<◌, min, max, ◌≡◌, refl, sym, ap, ◌∙◌, ◌≢◌, ◌↔◌,
  ◌⊎◌, inl, inr, Bool, true, false, ◌&&◌, ◌||◌, not, Option, none, some, List, [], ◌∷◌, ◌++◌, map,
  append-nil, append_assoc, arith, ltb, leb, ◌==◌, if◌then◌else◌, ltb→lt, lt→ltb, leb→le, ==_iff,
  tests, Bool-cases, Option-cases, length, get_elem?, length-append, get_or, take, drop, replicate,
  length-take, length-drop, length-replicate, length-map, replicate-add, drop-append_length,
  take-append_length, drop-drop, take_all, drop_all, take-append, drop-append, All, All-append,
  Exception, range_error, type_error, state_error, internal_error, out_of_fuel, Result, ok, err,
  ◌>>=◌, ◌>>◌, guard, bind_returned,
}
use node_rtc_connection.Buffer.{
  Buffer, IsByte, IsU16, IsU32, to_uint32, to_uint32_id, be16, be32, le32, uint8, uint16_be,
  uint32_be, uint32_le, read_uint8, read_uint16_be, read_uint32_be, read_uint32_le, slice, alloc,
  concat, overwrite, write_uint8, write_uint16_be, write_uint32_be, write_uint32_le, copy, be16_lem,
  be32_lem, concat-append, copy-append,
}

-- CHUNK_TYPE, as far as the association handles or sends it.
abbrev pub data_type : ℕ
data_type = 0

abbrev pub init : ℕ
init = 1

abbrev pub init_ack : ℕ
init_ack = 2

abbrev pub sack : ℕ
sack = 3

abbrev pub heartbeat : ℕ
heartbeat = 4

abbrev pub heartbeat_ack : ℕ
heartbeat_ack = 5

abbrev pub abort : ℕ
abort = 6

abbrev pub shutdown : ℕ
shutdown = 7

abbrev pub shutdown_ack : ℕ
shutdown_ack = 8

abbrev pub cookie_echo : ℕ
cookie_echo = 10

abbrev pub cookie_ack : ℕ
cookie_ack = 11

-- PARAM_TYPE, likewise.
abbrev pub state_cookie : ℕ
state_cookie = 7

abbrev pub forward_tsn_supported : ℕ
forward_tsn_supported = 49152

pub record CommonHeader : Type 0 where
  pub src_port : ℕ
  pub dst_port : ℕ
  pub verification_tag : ℕ
  pub checksum : ℕ

pub record ParsedChunk : Type 0 where
  pub type : ℕ
  pub flags : ℕ
  pub size : ℕ
  pub body : Buffer

pub record ParsedParam : Type 0 where
  pub type : ℕ
  pub size : ℕ
  pub value : Buffer

-- `(n + 3) & ~3`, which clears the two low bits: exact while n + 3 < 2^31.
abbrev pub pad4 : ℕ → ℕ
pad4 n = (n + 3) / 4 * 4

unfoldable pub encode_common_header : ℕ → ℕ → ℕ → Result Buffer
encode_common_header src_port dst_port verification_tag = do
  ports ← write_uint16_be src_port 0 (alloc 12)
  both ← write_uint16_be dst_port 2 ports
  tagged ← write_uint32_be (to_uint32 verification_tag) 4 both
  write_uint32_be 0 8 tagged

unfoldable pub parse_common_header : Buffer → Result CommonHeader
parse_common_header packet = do
  src_port ← read_uint16_be packet 0
  dst_port ← read_uint16_be packet 2
  verification_tag ← read_uint32_be packet 4
  checksum ← read_uint32_le packet 8
  ok (record {
    src_port = src_port;
    dst_port = dst_port;
    verification_tag = verification_tag;
    checksum = checksum;
  })

unfoldable pub encode_chunk : ℕ → ℕ → Buffer → Result Buffer
encode_chunk type flags body = do
  let len : ℕ = 4 + length body
  typed ← write_uint8 type 0 (alloc (pad4 len))
  flagged ← write_uint8 flags 1 typed
  sized ← write_uint16_be len 2 flagged
  ok (copy body 4 sized)

-- The loop of `parseChunks`. Each round moves the offset on by 4 at least, so one round more than
-- the packet has bytes is enough.
unfoldable pub parse_chunks_loop : ℕ → Buffer → ℕ → List ParsedChunk → Result (List ParsedChunk)
parse_chunks_loop zero packet off chunks = err out_of_fuel
parse_chunks_loop (suc fuel) packet off chunks =
    let round : Result (List ParsedChunk) = do
      type ← read_uint8 packet off
      flags ← read_uint8 packet (off + 1)
      size ← read_uint16_be packet (off + 2)
      let chunk : ParsedChunk = record {
        type = type;
        flags = flags;
        size = size;
        body = slice packet (off + 4) (off + size);
      }
      let more = parse_chunks_loop fuel packet (off + pad4 size) (chunks ++ (chunk ∷ []))
      if ltb size 4 || ltb (length packet) (off + size) then ok chunks else more
    in if leb (off + 4) (length packet) then round else ok chunks

unfoldable pub parse_chunks : Buffer → Result (List ParsedChunk)
parse_chunks packet = parse_chunks_loop (suc (length packet)) packet 12 []

unfoldable pub encode_param : ℕ → Buffer → Result Buffer
encode_param type value = do
  let len : ℕ = 4 + length value
  typed ← write_uint16_be type 0 (alloc (pad4 len))
  sized ← write_uint16_be len 2 typed
  ok (copy value 4 sized)

-- The loop of `parseParams`, with rounds as in `parse_chunks_loop`.
unfoldable pub parse_params_loop : ℕ → Buffer → ℕ → List ParsedParam → Result (List ParsedParam)
parse_params_loop zero buf off params = err out_of_fuel
parse_params_loop (suc fuel) buf off params =
    let round : Result (List ParsedParam) = do
      type ← read_uint16_be buf off
      size ← read_uint16_be buf (off + 2)
      let param : ParsedParam = record {
        type = type;
        size = size;
        value = slice buf (off + 4) (off + size);
      }
      let more = parse_params_loop fuel buf (off + pad4 size) (params ++ (param ∷ []))
      if ltb size 4 || ltb (length buf) (off + size) then ok params else more
    in if leb (off + 4) (length buf) then round else ok params

unfoldable pub parse_params : Buffer → Result (List ParsedParam)
parse_params buf = parse_params_loop (suc (length buf)) buf 0 []
