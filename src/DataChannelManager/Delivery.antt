-- ===== src/DataChannelManager/Delivery.antt =====
-- src/sctp/datachannel-manager.ts over src/sctp/association.ts: a message from one channel to the other.
use mathlib.Core.Path.{subst⁻¹}
use node_rtc_connection.Prelude.{
  ℕ, ◌+◌, ◌-◌, ◌≡◌, refl, ap, ◌∙◌, inl, inr, Bool, true, false, not, some, List, [], ◌∷◌, ◌++◌,
  arith, leb, Bool-cases, length, ok,
}
use node_rtc_connection.Buffer.{Buffer, IsU16, IsU32}
use node_rtc_connection.Map
use node_rtc_connection.Map.{nat_eq}
use node_rtc_connection.Sctp.Association
use node_rtc_connection.Sctp.Association.{
  Assoc, SctpMessage, established, output, message, established_event, error_event, close_event,
}
use node_rtc_connection.Sctp.Association.Sending
use node_rtc_connection.Sctp.Association.Reassembly.{Expects, Received, receive_all}
use node_rtc_connection.Sctp.Association.Emission.{CanSend, outputs}
use node_rtc_connection.Sctp.Association.Transfer.{Call, message_of_call, send_data-receive_all}
use node_rtc_connection.DataChannel
use node_rtc_connection.DataChannel.{
  Sent, same_state, opened, converted, payload_of, message_event, transmit,
  emit_buffered_amount_low,
}
use node_rtc_connection.DataChannelManager.{
  ChannelEntry, Manager, Event, sctp_event, channel_event, open_request, Transport, framed,
}
use node_rtc_connection.DataChannelManager.Handlers.{
  send_data, labelled, send, call, sender, on_sctp_message,
}
use node_rtc_connection.DataChannelManager.Messages.{received_lem, sent_lem}

-- `SctpAssociation` as the transport of a manager.
abbrev pub association : Transport Assoc Association.Event
association = record {
  send_data = λ id ppid payload unordered a.
      let o = Sending.send_data id ppid payload unordered a in
      record { result = o.result; state = o.assoc; events = o.events };
}

-- The packets among what an association emitted, and among what a manager did.
abbrev pub output_packets : List Association.Event → List Buffer
output_packets [] = []
output_packets (output p ∷ es) = p ∷ output_packets es
output_packets (message m ∷ es) = output_packets es
output_packets (established_event ∷ es) = output_packets es
output_packets (error_event r ∷ es) = output_packets es
output_packets (close_event ∷ es) = output_packets es

abbrev pub packets : {S : Type 0} → List (Event S Association.Event) → List Buffer
packets [] = []
packets (sctp_event (output p) ∷ es) = p ∷ packets es
packets (sctp_event (message m) ∷ es) = packets es
packets (sctp_event established_event ∷ es) = packets es
packets (sctp_event (error_event r) ∷ es) = packets es
packets (sctp_event close_event ∷ es) = packets es
packets (channel_event id e ∷ es) = packets es
packets (open_request i ∷ es) = packets es

output_packets-outputs : (ps : List Buffer) → output_packets (outputs ps) ≡ ps
output_packets-outputs [] = refl
output_packets-outputs (p ∷ ps) = ap (◌∷◌ p) (output_packets-outputs ps)

module _ {S : Type 0} (utf8 : S → Buffer) (of_utf8 : Buffer → S) where
  packets-labelled :
      (es : List Association.Event) (rest : List (Event S Association.Event))
      → packets rest ≡ []
      → packets (labelled utf8 of_utf8 association es ++ rest) ≡ output_packets es
  packets-labelled [] rest h = h
  packets-labelled (output p ∷ es) rest h = ap (◌∷◌ p) (packets-labelled es rest h)
  packets-labelled (message m ∷ es) rest h = packets-labelled es rest h
  packets-labelled (established_event ∷ es) rest h = packets-labelled es rest h
  packets-labelled (error_event r ∷ es) rest h = packets-labelled es rest h
  packets-labelled (close_event ∷ es) rest h = packets-labelled es rest h

  packets-send :
      (id : ℕ) (sent : Sent S) (data' : Buffer) (is_binary : Bool) (e : ChannelEntry S)
      (a : Manager S Assoc)
      → converted utf8 sent ≡ ok (data', is_binary)
      → e.channel.ready_state ≡ opened
      → e.channel.connected ≡ true
      → let o =
          Sending.send_data id
            (framed data' is_binary).0
            (framed data' is_binary).1
            e.unordered
            a.sctp in
        o.result ≡ ok tt
        → packets (send utf8 of_utf8 association id e sent a).events ≡ output_packets o.events
  unfolding send call DataChannel.send DataChannel.transmit emit_buffered_amount_low sender
      send_data
  packets-send id sent data' is_binary e a k o c r =
      let h = e.channel in
      let up : not h.connected ≡ false = ap not c in
      let ready : not (same_state h.ready_state opened) ≡ false =
        ap (λ q. not (same_state q opened)) o in
      let es =
        (Sending.send_data id (framed data' is_binary).0 (framed data' is_binary).1 e.unordered
          a.sctp).events in
      elim (Bool-cases (leb (h.buffered_amount + length data' - length data') h.low_threshold)) [
        | inl l ↦ rw (ready, k, up, r, l) (packets-labelled es _ refl)
        | inr l ↦ rw (ready, k, up, r, l) (packets-labelled es _ refl)
      ]

  framed_ppid : (data' : Buffer) (is_binary : Bool) → IsU32 (framed data' is_binary).0
  framed_ppid [] true = omega arith
  framed_ppid [] false = omega arith
  framed_ppid (b ∷ bs) true = omega arith
  framed_ppid (b ∷ bs) false = omega arith

  -- What a channel sends arrives as the same message on the peer's channel of the same stream. `send`
  -- of a string or of bytes, the empty ones too, returns; when the peer's association receives the
  -- packets that it emitted, in order, it delivers one message, and of this the peer's manager makes
  -- one `message` event, with the text of the bytes where a string was sent, and with the bytes in the
  -- form of the peer's `binaryType` where bytes were. The sender's channel is open and connected, its
  -- association is established and has numbers that fit their fields, and the peer's association
  -- expects its TSN and has nothing buffered; the stream fits in 16 bits; the peer's manager listens,
  -- has an entry for the stream, and the listeners of that entry's channel are attached.
  pub send_lem :
      (hmac : Buffer → Buffer → Buffer) (fresh_secret : Buffer) (id : ℕ) (sent : Sent S)
      (data' : Buffer) (is_binary : Bool) (e f : ChannelEntry S) (a b : Manager S Assoc)
      → converted utf8 sent ≡ ok (data', is_binary)
      → e.channel.ready_state ≡ opened
      → e.channel.connected ≡ true
      → IsU16 id
      → a.sctp.state ≡ established
      → CanSend a.sctp
      → Expects a.sctp.local_tsn b.sctp
      → b.listening ≡ true
      → Map.get id b.channels ≡ some f
      → f.channel.attached ≡ true
      → let o = send utf8 of_utf8 association id e sent a in
        let arrival = receive_all hmac fresh_secret (packets o.events) b.sctp in
        (o.result ≡ ok tt)
        × (m : SctpMessage) × Received o.state.sctp.local_tsn (m ∷ []) arrival
        × ((on_sctp_message utf8 of_utf8 association m (record b { sctp = arrival.assoc })).result
            ≡ ok tt)
        × ((on_sctp_message utf8 of_utf8 association m (record b { sctp = arrival.assoc })).events
            ≡ channel_event id
                (message_event (payload_of of_utf8 f.channel.binary_type data' is_binary))
              ∷ [])
  send_lem hmac fresh_secret id sent data' is_binary e f a b k o c n up v x l g t =
      let (ppid, payload) = framed data' is_binary in
      let call' : Call = record {
        stream_id = id;
        ppid = ppid;
        payload = payload;
        unordered = e.unordered;
      } in
      let (returns, ps, emits, received, _, _) =
        send_data-receive_all hmac fresh_secret call' a.sctp b.sctp
          (record { stream_id = n; ppid = framed_ppid data' is_binary }) up v x in
      let (result, state) = sent_lem utf8 of_utf8 association id sent data' is_binary e a k o c in
      let out : packets (send utf8 of_utf8 association id e sent a).events ≡ ps =
        packets-send id sent data' is_binary e a k o c returns
        ∙ ap output_packets emits
        ∙ output_packets-outputs ps in
      let arrival = receive_all hmac fresh_secret ps b.sctp in
      let (taken, events) =
        received_lem utf8 of_utf8 association id data' is_binary f
          (record b { sctp = arrival.assoc }) l g t in
      rw out (
        result ∙ returns,
        message_of_call call',
        subst⁻¹ (λ (s : Assoc). Received s.local_tsn (message_of_call call' ∷ []) arrival) state
            received,
        taken,
        events,
      )
