-- ===== src/DataChannelManager/Handlers.antt =====
-- src/sctp/datachannel-manager.ts: the methods and listeners of the manager.
use node_rtc_connection.Prelude.{
  ℕ, suc, ◌+◌, Bool, true, false, ◌||◌, not, Option, none, some, List, [], ◌∷◌, ◌==◌, if◌then◌else◌,
  length, out_of_fuel,
}
use node_rtc_connection.Int.{ℤ, pos, negsuc}
use node_rtc_connection.Buffer.{Buffer}
use node_rtc_connection.Map
use node_rtc_connection.Map.{nat_eq}
use node_rtc_connection.Effects.{M, ◌>>=◌, ◌>>◌, pure, skip, self, modify, emit, lift, throw}
use node_rtc_connection.Sctp.Dcep.{
  encode_open, decode_open, encode_ack, message_type, data_channel_open, data_channel_ack,
}
use node_rtc_connection.Sctp.Association.{SctpMessage}
use node_rtc_connection.DataChannel
use node_rtc_connection.DataChannelManager.Ppid
use node_rtc_connection.DataChannel.{Channel, Held, Sent}
use node_rtc_connection.DataChannelManager.{
  ChannelInit, ChannelEntry, OpenRequestInfo, Manager, Event, sctp_event, channel_event,
  open_request, Transport, last_stream, free_stream, is_unordered, channel_type, reliability_param,
  framed,
}

module _ {S T W : Type 0} (utf8 : S → Buffer) (of_utf8 : Buffer → S)
    (transport : Transport T W) where
  Method : Type 0 → Type 0
  Method A = M (Manager S T) (Event S W) A

  -- A call of the association: what it emits stands among what the manager emits.
  abbrev pub labelled : List W → List (Event S W)
  labelled [] = []
  labelled (w ∷ ws) = sctp_event w ∷ labelled ws

  unfoldable pub send_data : ℕ → ℕ → Buffer → Bool → M (Manager S T) (Event S W) (Unit {0})
  send_data id ppid payload unordered m =
      let o = transport.send_data id ppid payload unordered m.sctp in
      record { result = o.result; state = record m { sctp = o.state }; events = labelled o.events }

  -- `#removeChannel`: with the entry go its listeners.
  unfoldable pub remove_channel : ℕ → M (Manager S T) (Event S W) (Unit {0})
  remove_channel id = modify (λ m. record m { channels = Map.delete id m.channels })

  -- The SEND listener.
  unfoldable pub sender : ℕ → Bool → Buffer → Bool → M (Manager S T) (Event S W) (Unit {0})
  sender id unordered data' is_binary =
      let (ppid, payload) = framed data' is_binary in send_data id ppid payload unordered

  -- An entry's channel is put back behind a method of it, unless the entry is gone.
  abbrev pub put_back : ℕ → ChannelEntry S → Bool → Channel S → Manager S T → Manager S T
  put_back id e true c m = record m { channels = Map.put id (record e { channel = c }) m.channels }
  put_back id e false c m = m

  -- A method of the channel of an entry, with the listeners that `#registerChannel` attached.
  unfoldable pub call :
      ℕ
      → ChannelEntry S
      → M (Held S (Manager S T)) (Event S W) (Unit {0})
      → M (Manager S T) (Event S W) (Unit {0})
  call id e f m =
      let o = f (record { channel = e.channel; rest = m }) in
      record {
        result = o.result;
        state = put_back id e (Map.has id o.state.rest.channels) o.state.channel o.state.rest;
        events = o.events;
      }

  -- `send` of a registered channel.
  unfoldable pub send : ℕ → ChannelEntry S → Sent S → M (Manager S T) (Event S W) (Unit {0})
  send id e sent = call id e (
      DataChannel.send utf8 of_utf8 (channel_event id) (sender id e.unordered) (remove_channel id)
        sent)

  unfoldable pub receive :
      ℕ → ChannelEntry S → Buffer → Bool → M (Manager S T) (Event S W) (Unit {0})
  receive id e data' is_binary = call id e (
      DataChannel.receive utf8 of_utf8 (channel_event id) (sender id e.unordered)
        (remove_channel id) data' is_binary)

  unfoldable pub open_entry : ℕ → ChannelEntry S → M (Manager S T) (Event S W) (Unit {0})
  open_entry id e = call id e (
      DataChannel.open_internal utf8 of_utf8 (channel_event id) (sender id e.unordered)
        (remove_channel id))

  -- `#allocateStreamId`.
  unfoldable pub allocate_stream_id : M (Manager S T) (Event S W) ℕ
  allocate_stream_id = do
    m ← self
    elim (free_stream (suc (suc (last_stream m.channels))) m.channels m.next_stream_id) [
      | none ↦ throw out_of_fuel
      | some id ↦ do modify (λ x. record x { next_stream_id = id + 2 }); pure id
    ]

  -- `#registerChannel`.
  unfoldable pub register_channel : ℕ → ChannelEntry S → M (Manager S T) (Event S W) (Unit {0})
  register_channel id e = modify (λ m. record m { channels = Map.put id e m.channels })

  -- SET_ID, as long as the channel's own listeners are attached.
  abbrev pub with_id : ℕ → Channel S → Channel S
  with_id id c = if c.attached then record c { id = some id } else c

  abbrev stream_of : Channel S → M (Manager S T) (Event S W) (ℕ × Channel S)
  stream_of c = elim c.id [
    | some id ↦ pure (id, c)
    | none ↦ do id ← allocate_stream_id; pure (id, with_id id c)
  ]

  -- `init.protocol || channel.protocol`: the empty string has no bytes.
  abbrev protocol_of : Option S → S → S
  protocol_of none other = other
  protocol_of (some p) other = if length (utf8 p) == 0 then other else p

  -- `openChannel`.
  unfoldable pub open_channel : Channel S → ChannelInit S → M (Manager S T) (Event S W) (Unit {0})
  open_channel channel init = do
    (id, c) ← stream_of channel
    let entry : Bool → ChannelEntry S =
        λ acked. record { channel = c; acked = acked; unordered = is_unordered init.ordered }
    register_channel id (entry false)
    let ask : M (Manager S T) (Event S W) (Unit {0}) = do
      message ← lift (
          encode_open utf8 of_utf8 (record {
            channel_type = channel_type init;
            priority = 0;
            reliability_parameter = reliability_param init;
            label = c.label;
            protocol = protocol_of init.protocol c.protocol;
          }))
      send_data id Ppid.dcep message false
    let at_once : M (Manager S T) (Event S W) (Unit {0}) = do
      register_channel id (entry true)
      open_entry id (entry true)
    if not c.negotiated then ask else at_once

  -- The two answers of `#onDcep`.
  unfoldable pub on_open : SctpMessage → M (Manager S T) (Event S W) (Unit {0})
  on_open m = do
    request ← lift (decode_open utf8 of_utf8 m.message)
    send_data m.stream_id Ppid.dcep encode_ack false
    emit (
        open_request (record {
          stream_id = m.stream_id;
          label = request.params.label;
          protocol = request.params.protocol;
          ordered = not request.unordered;
          channel_type = request.params.channel_type;
          reliability_parameter = request.params.reliability_parameter;
        }))

  acknowledged : ℕ → Option (ChannelEntry S) → M (Manager S T) (Event S W) (Unit {0})
  acknowledged id none = skip
  acknowledged id (some e) =
      let up = record e { acked = true } in
      let first : M (Manager S T) (Event S W) (Unit {0}) = (do
        register_channel id up
        open_entry id up) in
      if e.acked then skip else first

  unfoldable pub on_ack : SctpMessage → M (Manager S T) (Event S W) (Unit {0})
  unfolding acknowledged
  on_ack m = do x ← self; acknowledged m.stream_id (Map.get m.stream_id x.channels)

  abbrev is_type : ℤ → ℕ → Bool
  is_type (pos n) type = n == type
  is_type (negsuc n) type = false

  -- `#onDcep`.
  unfoldable pub on_dcep : SctpMessage → M (Manager S T) (Event S W) (Unit {0})
  on_dcep m =
      let type = message_type m.message in
      if is_type type data_channel_open
      then on_open m
      else (if is_type type data_channel_ack then on_ack m else skip)

  delivered : SctpMessage → Option (ChannelEntry S) → M (Manager S T) (Event S W) (Unit {0})
  delivered m none = skip
  delivered m (some e) =
      let is_binary =
        m.ppid == Ppid.binary || (m.ppid == Ppid.binary_empty || m.ppid == Ppid.binary_partial) in
      let is_empty = m.ppid == Ppid.string_empty || m.ppid == Ppid.binary_empty in
      receive m.stream_id e (if is_empty then [] else m.message) is_binary

  -- `#onSctpMessage`, as long as it listens.
  unfoldable pub on_sctp_message : SctpMessage → M (Manager S T) (Event S W) (Unit {0})
  unfolding delivered
  on_sctp_message m = do
    x ← self
    let handle : M (Manager S T) (Event S W) (Unit {0}) =
        if m.ppid == Ppid.dcep then on_dcep m else delivered m (Map.get m.stream_id x.channels)
    if x.listening then handle else skip

  -- `acceptChannel`.
  unfoldable pub accept_channel :
      Channel S → OpenRequestInfo S → M (Manager S T) (Event S W) (Unit {0})
  accept_channel channel info =
      let e : ChannelEntry S = record {
        channel = with_id info.stream_id channel;
        acked = true;
        unordered = not info.ordered;
      } in
      do register_channel info.stream_id e; open_entry info.stream_id e

  -- `close`: every channel is removed.
  unfoldable pub close : M (Manager S T) (Event S W) (Unit {0})
  close = modify (λ m. record m { listening = false; channels = [] })
