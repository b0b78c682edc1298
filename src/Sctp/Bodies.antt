-- ===== src/Sctp/Bodies.antt =====
-- src/sctp/chunks.ts: the bodies of INIT, INIT_ACK, DATA and SACK chunks.
pub mod InitData
pub mod Sack
use node_rtc_connection.Prelude.{
  ℕ, zero, suc, ◌+◌, ◌-◌, ◌*◌, ◌/◌, ◌%◌, ◌^◌, ◌≤◌, ◌<◌, min, max, ◌≡◌, refl, sym, ap, ◌∙◌, ◌≢◌, ◌↔◌,
  ◌⊎◌, inl, inr, Bool, true, false, ◌&&◌, ◌||◌, not, Option, none, some, List, [], ◌∷◌, ◌++◌, map,
  append-nil, append_assoc, arith, ltb, leb, ◌==◌, if◌then◌else◌, ltb→lt, lt→ltb, leb→le, ==_iff,
  tests, Bool-cases, Option-cases, length, get_elem?, length-append, get_or, take, drop, replicate,
  length-take, length-drop, length-replicate, length-map, replicate-add, drop-append_length,
  take-append_length, drop-drop, take_all, drop_all, take-append, drop-append, All, All-append,
  Exception, range_error, type_error, state_error, internal_error, out_of_fuel, Result, ok, err,
  ◌>>=◌, ◌>>◌, guard, bind_returned,
}
use node_rtc_connection.Buffer.{
  Buffer, IsByte, IsU16, IsU32, to_uint32, to_uint32_id, be16, be32, le32, uint8, uint16_be,
  uint32_be, uint32_le, read_uint8, read_uint16_be, read_uint32_be, read_uint32_le, slice, alloc,
  concat, overwrite, write_uint8, write_uint16_be, write_uint32_be, write_uint32_le, copy,
  alloc_four, drop-alloc, length-alloc, copy-alloc, be16_lem, be32_lem, concat-append, copy-append,
}
use Prim.Native.Nat.{bit_and, bit_or}
use node_rtc_connection.Sctp.Chunks.{ParsedParam, parse_params}

pub record InitBodyParams : Type 0 where
  pub initiate_tag : ℕ
  pub a_rwnd : ℕ
  pub out_streams : ℕ
  pub in_streams : ℕ
  pub initial_tsn : ℕ

-- The parsed body: the same fields, and the parameters behind them.
pub record ParsedInitBody : Type 0 where
  pub fixed : InitBodyParams
  pub open fixed use *
  pub params : List ParsedParam

-- What `encodeDataBody` takes and `parseDataBody` returns. (The encoder's defaults of the flags are
-- not used: its one caller gives all of them.)
pub record DataBody : Type 0 where
  pub unordered : Bool
  pub beginning : Bool
  pub ending : Bool
  pub tsn : ℕ
  pub stream_id : ℕ
  pub stream_seq : ℕ
  pub ppid : ℕ
  pub user_data : Buffer

pub record EncodedDataBody : Type 0 where
  pub flags : ℕ
  pub body : Buffer

pub record SackBody : Type 0 where
  pub cumulative_tsn_ack : ℕ
  pub a_rwnd : ℕ
  pub gap_blocks : List (ℕ × ℕ)
  pub dup_tsns : List ℕ

unfoldable pub encode_init_body : InitBodyParams → Result Buffer
encode_init_body p = do
  b₁ ← write_uint32_be (to_uint32 p.initiate_tag) 0 (alloc 16)
  b₂ ← write_uint32_be (to_uint32 p.a_rwnd) 4 b₁
  b₃ ← write_uint16_be p.out_streams 8 b₂
  b₄ ← write_uint16_be p.in_streams 10 b₃
  write_uint32_be (to_uint32 p.initial_tsn) 12 b₄

unfoldable pub parse_init_body : Buffer → Result ParsedInitBody
parse_init_body body = do
  initiate_tag ← read_uint32_be body 0
  a_rwnd ← read_uint32_be body 4
  out_streams ← read_uint16_be body 8
  in_streams ← read_uint16_be body 10
  initial_tsn ← read_uint32_be body 12
  params ← parse_params (drop 16 body)
  ok (record {
    fixed = record {
      initiate_tag = initiate_tag;
      a_rwnd = a_rwnd;
      out_streams = out_streams;
      in_streams = in_streams;
      initial_tsn = initial_tsn;
    };
    params = params;
  })

-- `if (ending) flags |= 0x01`, and so on.
unfoldable pub data_flags : Bool → Bool → Bool → ℕ
data_flags ending beginning unordered =
    let e = if ending then bit_or 0 0x01 else 0 in
    let b = if beginning then bit_or e 0x02 else e in if unordered then bit_or b 0x04 else b

unfoldable pub encode_data_body : DataBody → Result EncodedDataBody
encode_data_body d = do
  h₁ ← write_uint32_be (to_uint32 d.tsn) 0 (alloc 12)
  h₂ ← write_uint16_be d.stream_id 4 h₁
  h₃ ← write_uint16_be d.stream_seq 6 h₂
  head ← write_uint32_be (to_uint32 d.ppid) 8 h₃
  ok (record {
    flags = data_flags d.ending d.beginning d.unordered;
    body = concat (head ∷ d.user_data ∷ []);
  })

-- `!!(flags & mask)`.
abbrev has_flag : ℕ → ℕ → Bool
has_flag flags mask = not (bit_and flags mask == 0)

unfoldable pub parse_data_body : ℕ → Buffer → Result DataBody
parse_data_body flags body = do
  tsn ← read_uint32_be body 0
  stream_id ← read_uint16_be body 4
  stream_seq ← read_uint16_be body 6
  ppid ← read_uint32_be body 8
  ok (record {
    unordered = has_flag flags 0x04;
    beginning = has_flag flags 0x02;
    ending = has_flag flags 0x01;
    tsn = tsn;
    stream_id = stream_id;
    stream_seq = stream_seq;
    ppid = ppid;
    user_data = drop 12 body;
  })

-- The two `for` loops of `encodeSackBody`, with the buffer and the offset `o`.
unfoldable pub write_gap_blocks : List (ℕ × ℕ) → Buffer → ℕ → Result (Buffer × ℕ)
write_gap_blocks [] b o = ok (b, o)
write_gap_blocks ((start, end') ∷ rest) b o = do
  b₁ ← write_uint16_be start o b
  b₂ ← write_uint16_be end' (o + 2) b₁
  write_gap_blocks rest b₂ (o + 4)

unfoldable pub write_dup_tsns : List ℕ → Buffer → ℕ → Result Buffer
write_dup_tsns [] b o = ok b
write_dup_tsns (d ∷ rest) b o = do
  b₁ ← write_uint32_be (to_uint32 d) o b
  write_dup_tsns rest b₁ (o + 4)

unfoldable pub encode_sack_body : SackBody → Result Buffer
encode_sack_body s = do
  b₁ ←
      write_uint32_be (to_uint32 s.cumulative_tsn_ack) 0
        (alloc (12 + length s.gap_blocks * 4 + length s.dup_tsns * 4))
  b₂ ← write_uint32_be (to_uint32 s.a_rwnd) 4 b₁
  b₃ ← write_uint16_be (length s.gap_blocks) 8 b₂
  b₄ ← write_uint16_be (length s.dup_tsns) 10 b₃
  (b₅, o) ← write_gap_blocks s.gap_blocks b₄ 12
  write_dup_tsns s.dup_tsns b₅ o

-- The two loops of `parseSackBody`: the rounds left, the buffer, the offset, and what was read.
unfoldable pub read_gap_blocks : ℕ → Buffer → ℕ → List (ℕ × ℕ) → Result (List (ℕ × ℕ) × ℕ)
read_gap_blocks zero body o blocks = ok (blocks, o)
read_gap_blocks (suc n) body o blocks = do
  start ← read_uint16_be body o
  end' ← read_uint16_be body (o + 2)
  read_gap_blocks n body (o + 4) (blocks ++ ((start, end') ∷ []))

unfoldable pub read_dup_tsns : ℕ → Buffer → ℕ → List ℕ → Result (List ℕ)
read_dup_tsns zero body o dups = ok dups
read_dup_tsns (suc n) body o dups = do
  d ← read_uint32_be body o
  read_dup_tsns n body (o + 4) (dups ++ (d ∷ []))

unfoldable pub parse_sack_body : Buffer → Result SackBody
parse_sack_body body = do
  cumulative_tsn_ack ← read_uint32_be body 0
  a_rwnd ← read_uint32_be body 4
  num_gap ← read_uint16_be body 8
  num_dup ← read_uint16_be body 10
  (gap_blocks, o) ← read_gap_blocks num_gap body 12 []
  dup_tsns ← read_dup_tsns num_dup body o []
  ok (record {
    cumulative_tsn_ack = cumulative_tsn_ack;
    a_rwnd = a_rwnd;
    gap_blocks = gap_blocks;
    dup_tsns = dup_tsns;
  })
