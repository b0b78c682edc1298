-- ===== src/Sctp/Dcep.antt =====
-- src/sctp/dcep.ts: the messages that open a data channel. A string is its own type; the UTF-8 codec of
-- Node's Buffer is a parameter.
use node_rtc_connection.Prelude.{
  ℕ, ◌+◌, Bool, not, Option, none, some, List, [], ◌∷◌, ltb, ◌==◌, if◌then◌else◌, length, Result,
  ok, ◌>>=◌,
}
use node_rtc_connection.Int.{ℤ, pos, negsuc}
use node_rtc_connection.Buffer.{
  Buffer, to_uint32, alloc, copy, slice, write_uint8, write_uint16_be, write_uint32_be, read_uint8,
  read_uint16_be, read_uint32_be,
}
use Prim.Native.Nat.{bit_and}
pub mod RoundTrip

abbrev pub data_channel_ack : ℕ
data_channel_ack = 0x02

abbrev pub data_channel_open : ℕ
data_channel_open = 0x03

-- `OpenParams`, with the defaults filled in.
pub record OpenParams (S : Type 0) : Type 0 where
  pub channel_type : ℕ
  pub priority : ℕ
  pub reliability_parameter : ℕ
  pub label : S
  pub protocol : S

pub record DecodedOpen (S : Type 0) : Type 0 where
  pub params : OpenParams S
  pub unordered : Bool

-- `Buffer.from(s, 'utf8')` and `toString('utf8')`.
module _ {S : Type 0} (utf8 : S → Buffer) (of_utf8 : Buffer → S) where
  -- `encodeOpen`.
  unfoldable pub encode_open : OpenParams S → Result Buffer
  encode_open p = do
    let label_buf = utf8 p.label
    let proto_buf = utf8 p.protocol
    b₁ ← write_uint8 data_channel_open 0 (alloc (12 + length label_buf + length proto_buf))
    b₂ ← write_uint8 p.channel_type 1 b₁
    b₃ ← write_uint16_be p.priority 2 b₂
    b₄ ← write_uint32_be (to_uint32 p.reliability_parameter) 4 b₃
    b₅ ← write_uint16_be (length label_buf) 8 b₄
    b₆ ← write_uint16_be (length proto_buf) 10 b₅
    ok (copy proto_buf (12 + length label_buf) (copy label_buf 12 b₆))

  -- `decodeOpen`.
  unfoldable pub decode_open : Buffer → Result (DecodedOpen S)
  decode_open buf = do
    channel_type ← read_uint8 buf 1
    priority ← read_uint16_be buf 2
    reliability_parameter ← read_uint32_be buf 4
    label_len ← read_uint16_be buf 8
    proto_len ← read_uint16_be buf 10
    ok (record {
      params = record {
        channel_type = channel_type;
        priority = priority;
        reliability_parameter = reliability_parameter;
        label = of_utf8 (slice buf 12 (12 + label_len));
        protocol = of_utf8 (slice buf (12 + label_len) (12 + label_len + proto_len));
      };
      unordered = not (bit_and channel_type 0x80 == 0);
    })

-- `encodeAck`.
unfoldable pub encode_ack : Buffer
encode_ack = data_channel_ack ∷ []

-- `messageType`: -1 for an empty buffer.
unfoldable pub message_type : Buffer → ℤ
message_type [] = negsuc 0
message_type (b ∷ bs) = pos b
