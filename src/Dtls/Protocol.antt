-- ===== src/Dtls/Protocol.antt =====
-- src/dtls/protocol.ts: the encoders and parsers of records and handshake messages.
pub mod Handshakes
pub mod Records
use node_rtc_connection.Prelude.{
  ℕ, zero, suc, ◌+◌, ◌*◌, ◌/◌, ◌%◌, List, [], ◌∷◌, ◌++◌, ltb, leb, if◌then◌else◌, length, get_or,
  drop, Result, ok, err, ◌>>=◌, range_error, out_of_fuel,
}
use node_rtc_connection.Buffer.{
  Buffer, alloc, concat, copy, slice, overwrite, write_uint8, write_uint16_be, read_uint8,
  read_uint16_be,
}

abbrev pub dtls_1_2 : ℕ
dtls_1_2 = 0xfefd

-- `Record`.
pub record DtlsRecord : Type 0 where
  pub type : ℕ
  pub version : ℕ
  pub epoch : ℕ
  pub seq : ℕ
  pub fragment : Buffer

pub record Handshake : Type 0 where
  pub msg_type : ℕ
  pub size : ℕ
  pub message_seq : ℕ
  pub fragment_offset : ℕ
  pub fragment_length : ℕ
  pub body : Buffer

abbrev pub uint24 : ℕ → Buffer
uint24 n = n / 65536 % 256 ∷ n / 256 % 256 ∷ n % 256 ∷ []

-- `readUint24`: the bytes do not overlap, so `|` adds; a byte out of bounds is undefined, and counts as 0.
abbrev pub read_uint24 : Buffer → ℕ → ℕ
read_uint24 buf off =
    get_or (drop off buf) 0 0 * 65536 + get_or (drop off buf) 1 0 * 256 + get_or (drop off buf) 2 0

unfoldable pub vec8 : Buffer → Buffer
vec8 body = concat ((length body % 256 ∷ []) ∷ body ∷ [])

unfoldable pub vec16 : Buffer → Result Buffer
vec16 body = do len ← write_uint16_be (length body) 0 (alloc 2); ok (concat (len ∷ body ∷ []))

unfoldable pub vec24 : Buffer → Buffer
vec24 body = concat (uint24 (length body) ∷ body ∷ [])

-- `writeUIntBE(v, off, 6)` and `readUIntBE(off, 6)`.
abbrev pub be48 : ℕ → Buffer
be48 v =
    v / 1099511627776
    ∷ v / 4294967296 % 256
    ∷ v / 16777216 % 256
    ∷ v / 65536 % 256
    ∷ v / 256 % 256
    ∷ v % 256
    ∷ []

abbrev pub write_uint48_be : ℕ → ℕ → Buffer → Result Buffer
write_uint48_be v off buf =
    if ltb v 281474976710656 then overwrite (be48 v) off buf else err range_error

abbrev uint48_be : Buffer → Result ℕ
uint48_be (a ∷ b ∷ c ∷ d ∷ e ∷ f ∷ r) =
    ok (a * 1099511627776 + b * 4294967296 + c * 16777216 + d * 65536 + e * 256 + f)
uint48_be _ = err range_error

abbrev pub read_uint48_be : Buffer → ℕ → Result ℕ
read_uint48_be buf off = uint48_be (drop off buf)

-- `encodeRecord`; the default version is `dtls_1_2`.
unfoldable pub encode_record : DtlsRecord → Result Buffer
encode_record r = do
  h₁ ← write_uint8 r.type 0 (alloc 13)
  h₂ ← write_uint16_be r.version 1 h₁
  h₃ ← write_uint16_be r.epoch 3 h₂
  h₄ ← write_uint48_be r.seq 5 h₃
  header ← write_uint16_be (length r.fragment) 11 h₄
  ok (concat (header ∷ r.fragment ∷ []))

-- The loop of `parseRecords`. A round takes the 13 bytes of a header at least, so one round more than
-- the packet has bytes is enough.
unfoldable pub parse_records_loop : ℕ → Buffer → ℕ → List DtlsRecord → Result (List DtlsRecord)
parse_records_loop zero packet off records = err out_of_fuel
parse_records_loop (suc fuel) packet off records =
    let round : Result (List DtlsRecord) = do
      type ← read_uint8 packet off
      version ← read_uint16_be packet (off + 1)
      epoch ← read_uint16_be packet (off + 3)
      seq ← read_uint48_be packet (off + 5)
      size ← read_uint16_be packet (off + 11)
      let start = off + 13
      let record_here : DtlsRecord = record {
        type = type;
        version = version;
        epoch = epoch;
        seq = seq;
        fragment = slice packet start (start + size);
      }
      let more = parse_records_loop fuel packet (start + size) (records ++ (record_here ∷ []))
      if ltb (length packet) (start + size) then ok records else more
    in if leb (off + 13) (length packet) then round else ok records

unfoldable pub parse_records : Buffer → Result (List DtlsRecord)
parse_records packet = parse_records_loop (suc (length packet)) packet 0 []

-- `encodeHandshake`.
unfoldable pub encode_handshake : ℕ → ℕ → Buffer → Result Buffer
encode_handshake msg_type message_seq body = do
  h₁ ← write_uint8 msg_type 0 (alloc 12)
  let h₂ = copy (uint24 (length body)) 1 h₁
  h₃ ← write_uint16_be message_seq 4 h₂
  let h₄ = copy (uint24 0) 6 h₃
  let h₅ = copy (uint24 (length body)) 9 h₄
  ok (concat (h₅ ∷ body ∷ []))

-- `parseHandshake`.
unfoldable pub parse_handshake : Buffer → Result Handshake
parse_handshake buf = do
  msg_type ← read_uint8 buf 0
  let size = read_uint24 buf 1
  message_seq ← read_uint16_be buf 4
  let fragment_offset = read_uint24 buf 6
  let fragment_length = read_uint24 buf 9
  ok (record {
    msg_type = msg_type;
    size = size;
    message_seq = message_seq;
    fragment_offset = fragment_offset;
    fragment_length = fragment_length;
    body = slice buf 12 (12 + fragment_length);
  })
