-- ===== src/Sctp/Bodies/InitData.antt =====
-- INIT and DATA bodies, and the common header, read back.
use node_rtc_connection.Prelude.{
  ℕ, ◌<◌, ◌≡◌, refl, Bool, true, false, not, List, ◌++◌, append-nil, arith, ◌==◌, length, ok,
}
use node_rtc_connection.Buffer.{
  IsByte, Buffer, IsU16, IsU32, to_uint32_id, be16, be32, concat, be16_lem, be32_lem,
}
use Prim.Native.Nat.{bit_and}
use node_rtc_connection.Sctp.Chunks.{
  ParsedParam, parse_params, encode_common_header, parse_common_header,
}
use node_rtc_connection.Sctp.Chunks.Layout.{header_bytes, encode_common_header_lem}
use node_rtc_connection.Sctp.Chunks.Params.{Encodes, parse_params-encode}
use node_rtc_connection.Sctp.Bodies.{
  InitBodyParams, DataBody, EncodedDataBody, encode_init_body, parse_init_body, data_flags,
  encode_data_body, parse_data_body,
}

pub record IsInit (p : InitBodyParams) : Type 0 where
  pub initiate_tag : IsU32 p.initiate_tag
  pub a_rwnd : IsU32 p.a_rwnd
  pub out_streams : IsU16 p.out_streams
  pub in_streams : IsU16 p.in_streams
  pub initial_tsn : IsU32 p.initial_tsn

abbrev pub init_bytes : InitBodyParams → Buffer
init_bytes p =
    be32 p.initiate_tag
    ++ (be32 p.a_rwnd ++ (be16 p.out_streams ++ (be16 p.in_streams ++ be32 p.initial_tsn)))

pub encode_init_body_lem : (p : InitBodyParams) → IsInit p → encode_init_body p ≡ ok (init_bytes p)
unfolding encode_init_body
encode_init_body_lem p v =
    rw
      (
        to_uint32_id p.initiate_tag v.initiate_tag,
        to_uint32_id p.a_rwnd v.a_rwnd,
        to_uint32_id p.initial_tsn v.initial_tsn,
      )
      (ground arith)

parse_init_bytes :
    (p : InitBodyParams) (rest : Buffer) (ps : List ParsedParam)
    → parse_params rest ≡ ok ps
    → parse_init_body (init_bytes p ++ rest) ≡ ok (record { fixed = p; params = ps })
unfolding parse_init_body
parse_init_bytes p rest ps h = rw (
  h,
  be32_lem p.initiate_tag,
  be32_lem p.a_rwnd,
  be16_lem p.out_streams,
  be16_lem p.in_streams,
  be32_lem p.initial_tsn,
)

-- `parseInitBody` reads back the fields that `encodeInitBody` wrote, 32-bit and 16-bit numbers,
-- with the parameters that `encodeParam` wrote and that stand behind them.
pub parse_init_body-encode :
    (p : InitBodyParams) (ps : List ParsedParam) (es : List Buffer)
    → IsInit p
    → Encodes ps es
    → (b : Buffer) × (encode_init_body p ≡ ok b)
      × (parse_init_body (b ++ concat es) ≡ ok (record { fixed = p; params = ps }))
parse_init_body-encode p ps es v k = (
  init_bytes p,
  encode_init_body_lem p v,
  parse_init_bytes p (concat es) ps (parse_params-encode ps es k),
)

pub record IsData (d : DataBody) : Type 0 where
  pub tsn : IsU32 d.tsn
  pub stream_id : IsU16 d.stream_id
  pub stream_seq : IsU16 d.stream_seq
  pub ppid : IsU32 d.ppid

abbrev pub data_bytes : DataBody → Buffer
data_bytes d =
    be32 d.tsn ++ (be16 d.stream_id ++ (be16 d.stream_seq ++ (be32 d.ppid ++ d.user_data)))

abbrev pub data_flags_of : DataBody → ℕ
data_flags_of d = data_flags d.ending d.beginning d.unordered

pub encode_data_body_lem :
    (d : DataBody)
    → IsData d
    → encode_data_body d ≡ ok (record { flags = data_flags_of d; body = data_bytes d })
unfolding encode_data_body
encode_data_body_lem d v =
    rw (to_uint32_id d.tsn v.tsn, to_uint32_id d.ppid v.ppid)
      (ground (arith, append-nil d.user_data))

flags_back :
    (e b u : Bool)
    → (not (bit_and (data_flags e b u) 0x04 == 0) ≡ u)
      × (not (bit_and (data_flags e b u) 0x02 == 0) ≡ b)
      × (not (bit_and (data_flags e b u) 0x01 == 0) ≡ e)
      × (data_flags e b u < 256)
unfolding data_flags
flags_back true true true = (refl, refl, refl, omega arith)
flags_back true true false = (refl, refl, refl, omega arith)
flags_back true false true = (refl, refl, refl, omega arith)
flags_back true false false = (refl, refl, refl, omega arith)
flags_back false true true = (refl, refl, refl, omega arith)
flags_back false true false = (refl, refl, refl, omega arith)
flags_back false false true = (refl, refl, refl, omega arith)
flags_back false false false = (refl, refl, refl, omega arith)

pub data_flags_of-IsByte : (d : DataBody) → IsByte (data_flags_of d)
data_flags_of-IsByte d = (flags_back d.ending d.beginning d.unordered).3

pub parse_data_bytes : (d : DataBody) → parse_data_body (data_flags_of d) (data_bytes d) ≡ ok d
unfolding parse_data_body
parse_data_bytes d =
    let (u, b, e, _) = flags_back d.ending d.beginning d.unordered in
    rw (u, b, e, be32_lem d.tsn, be16_lem d.stream_id, be16_lem d.stream_seq, be32_lem d.ppid)

-- `parseDataBody` reads back the DATA body that `encodeDataBody` wrote, the three flags and the user
-- data included; the flags fit their byte.
pub parse_data_body-encode :
    (d : DataBody)
    → IsData d
    → (e : EncodedDataBody) × (encode_data_body d ≡ ok e)
      × (e.flags < 256)
      × (parse_data_body e.flags e.body ≡ ok d)
parse_data_body-encode d v = (
  _,
  encode_data_body_lem d v,
  (flags_back d.ending d.beginning d.unordered).3,
  parse_data_bytes d,
)

-- `parseCommonHeader` reads back the ports and the tag that `encodeCommonHeader` wrote, with the
-- checksum zero that it leaves, whatever stands behind the header.
pub parse_common_header-encode :
    (src dst tag : ℕ) (rest : Buffer)
    → IsU16 src
    → IsU16 dst
    → IsU32 tag
    → (h : Buffer) × (encode_common_header src dst tag ≡ ok h)
      × (length h ≡ 12)
      × (parse_common_header (h ++ rest)
          ≡ ok (record { src_port = src; dst_port = dst; verification_tag = tag; checksum = 0 }))
unfolding parse_common_header
parse_common_header-encode src dst tag rest hs hd ht = (
  header_bytes src dst tag,
  ground (arith, encode_common_header_lem src dst tag),
  refl,
  rw (to_uint32_id tag ht, be16_lem src, be16_lem dst, be32_lem tag),
)
