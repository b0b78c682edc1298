-- ===== src/DataChannelManager.antt =====
-- src/sctp/datachannel-manager.ts: data channels over the streams of an SCTP association.
pub mod Ppid
pub mod Handlers
pub mod Streams
pub mod Messages
pub mod Delivery
use node_rtc_connection.Prelude.{
  ℕ, zero, suc, ◌+◌, max, Bool, true, false, ◌||◌, not, Option, none, some, List, [], ◌∷◌, ◌==◌,
  if◌then◌else◌, length, Exception, out_of_fuel, type_error, Result, ok, err,
}
use node_rtc_connection.Int.{ℤ, pos, negsuc}
use node_rtc_connection.Buffer.{Buffer, to_uint32}
use node_rtc_connection.Map
use node_rtc_connection.Map.{nat_eq}
use node_rtc_connection.Effects.{
  M, Outcome, ◌>>=◌, ◌>>◌, pure, skip, self, modify, emit, lift, throw,
}
use node_rtc_connection.Sctp.Dcep.{
  OpenParams, DecodedOpen, encode_open, decode_open, encode_ack, message_type, data_channel_open,
  data_channel_ack,
}
use node_rtc_connection.Sctp.Association.{SctpMessage}
use node_rtc_connection.DataChannel
use node_rtc_connection.DataChannelManager.Ppid
use node_rtc_connection.DataChannel.{Channel, Held, Sent}

-- `ChannelInit`, undefined and null as `none`.
pub record ChannelInit (S : Type 0) : Type 0 where
  pub ordered : Option Bool
  pub max_retransmits : Option ℕ
  pub max_packet_life_time : Option ℕ
  pub protocol : Option S

-- `ChannelEntry`: the channel itself, and of its two listeners what they close over.
pub record ChannelEntry (S : Type 0) : Type 0 where
  pub channel : Channel S
  pub acked : Bool
  pub unordered : Bool

-- `OpenRequestInfo`.
pub record OpenRequestInfo (S : Type 0) : Type 0 where
  pub stream_id : ℕ
  pub label : S
  pub protocol : S
  pub ordered : Bool
  pub channel_type : ℕ
  pub reliability_parameter : ℕ

-- The fields of `DataChannelManager`, over the association.
pub record Manager (S T : Type 0) : Type 0 where
  pub sctp : T
  pub channels : List (ℕ × ChannelEntry S)
  pub next_stream_id : ℕ
  pub listening : Bool

-- What the association emits, what a channel tells its listeners, and `open-request`.
pub data Event (S W : Type 0) : Type 0 where
  sctp_event : W → Event S W
  channel_event : ℕ → DataChannel.Event S → Event S W
  open_request : OpenRequestInfo S → Event S W

-- `sendData` of the association: the stream, the PPID, the bytes, and whether they go unordered.
pub record Transport (T W : Type 0) : Type 0 where
  pub send_data : ℕ → ℕ → Buffer → Bool → M T W (Unit {0})

-- The constructor.
unfoldable pub create : {S T : Type 0} → T → Bool → Manager S T
create sctp is_dtls_client = record {
  sctp = sctp;
  channels = [];
  next_stream_id = if is_dtls_client then 0 else 1;
  listening = true;
}

-- The greatest stream that has a channel.
abbrev pub last_stream : {S : Type 0} → List (ℕ × ChannelEntry S) → ℕ
last_stream [] = 0
last_stream ((id, e) ∷ m) = max id (last_stream m)

-- The `while` loop of `#allocateStreamId`. A taken stream is at most the greatest, so two rounds more than
-- that are enough.
unfoldable pub free_stream : {S : Type 0} → ℕ → List (ℕ × ChannelEntry S) → ℕ → Option ℕ
free_stream zero m id = none
free_stream (suc fuel) m id =
    let later = free_stream fuel m (id + 2) in if Map.has id m then later else some id

abbrev pub is_unordered : Option Bool → Bool
is_unordered none = false
is_unordered (some ordered) = not ordered

-- `#channelType`.
unfoldable pub channel_type : {S : Type 0} → ChannelInit S → ℕ
channel_type init =
    let unordered = is_unordered init.ordered in
    elim init.max_retransmits [
      | some n ↦ if unordered then 0x81 else 0x01
      | none ↦ elim init.max_packet_life_time [
        | some n ↦ if unordered then 0x82 else 0x02
        | none ↦ if unordered then 0x80 else 0x00
      ]
    ]

-- `#reliabilityParam`.
unfoldable pub reliability_param : {S : Type 0} → ChannelInit S → ℕ
reliability_param init = elim init.max_retransmits [
  | some n ↦ to_uint32 n
  | none ↦ elim init.max_packet_life_time [ some n ↦ to_uint32 n | none ↦ 0 ]
]

-- The PPID and the payload that the SEND listener makes of bytes.
abbrev pub framed : Buffer → Bool → ℕ × Buffer
framed [] true = (Ppid.binary_empty, 0 ∷ [])
framed [] false = (Ppid.string_empty, 0 ∷ [])
framed (b ∷ bs) true = (Ppid.binary, b ∷ bs)
framed (b ∷ bs) false = (Ppid.string, b ∷ bs)
