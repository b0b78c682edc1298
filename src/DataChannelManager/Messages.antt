-- ===== src/DataChannelManager/Messages.antt =====
-- src/sctp/datachannel-manager.ts: a message from `send` to the `message` event of the other end.
use node_rtc_connection.Prelude.{
  ℕ, ◌≡◌, refl, ap, ◌∙◌, Bool, true, false, not, ◌+◌, ◌-◌, leb, inl, inr, Bool-cases, Result-cases,
  some, [], ◌∷◌, length, ok,
}
use node_rtc_connection.Buffer.{Buffer}
use node_rtc_connection.Map
use node_rtc_connection.Map.{nat_eq}
use node_rtc_connection.DataChannel
use node_rtc_connection.DataChannel.{
  Channel, Sent, same_state, opened, converted, payload_of, message_event, attached_only, transmit,
  emit_buffered_amount_low,
}
use node_rtc_connection.DataChannelManager.{ChannelEntry, Manager, channel_event, Transport, framed}
use node_rtc_connection.DataChannelManager.Handlers.{
  send_data, put_back, remove_channel, send, receive, call, sender, on_sctp_message,
}

module _ {S T W : Type 0} (utf8 : S → Buffer) (of_utf8 : Buffer → S)
    (transport : Transport T W) where
  -- What a manager makes of a message framed by the other end's SEND listener.
  pub received_lem :
      (id : ℕ) (data' : Buffer) (is_binary : Bool) (e : ChannelEntry S) (b : Manager S T)
      → b.listening ≡ true
      → Map.get id b.channels ≡ some e
      → e.channel.attached ≡ true
      → let o =
          on_sctp_message utf8 of_utf8 transport
            (record {
              stream_id = id;
              ppid = (framed data' is_binary).0;
              message = (framed data' is_binary).1;
            })
            b in
        (o.result ≡ ok tt)
        × (o.events
            ≡ channel_event id
                (message_event (payload_of of_utf8 e.channel.binary_type data' is_binary))
              ∷ [])
  unfolding on_sctp_message receive call DataChannel.receive
  received_lem id [] false e b l g a = (rw (l, g, a) refl, rw (l, g, a) refl)
  received_lem id [] true e b l g a = (rw (l, g, a) refl, rw (l, g, a) refl)
  received_lem id (x ∷ xs) false e b l g a = (rw (l, g, a) refl, rw (l, g, a) refl)
  received_lem id (x ∷ xs) true e b l g a = (rw (l, g, a) refl, rw (l, g, a) refl)

  put_back_sctp :
      (id : ℕ) (e : ChannelEntry S) (there : Bool) (c : Channel S) (m : Manager S T)
      → (put_back utf8 of_utf8 transport id e there c m).sctp ≡ m.sctp
  put_back_sctp id e true c m = refl
  put_back_sctp id e false c m = refl

  transmitted :
      (id : ℕ) (data' : Buffer) (is_binary : Bool) (e : ChannelEntry S) (a : Manager S T)
      → let o =
          DataChannel.transmit utf8 of_utf8
            (channel_event id)
            (sender utf8 of_utf8 transport id e.unordered)
            (remove_channel utf8 of_utf8 transport id)
            data'
            is_binary
            (record { channel = e.channel; rest = a }) in
        let sent =
          transport.send_data id
            (framed data' is_binary).0
            (framed data' is_binary).1
            e.unordered
            a.sctp in
        (o.result ≡ sent.result) × (o.state.rest.sctp ≡ sent.state)
  unfolding DataChannel.transmit emit_buffered_amount_low sender send_data
  transmitted id data' is_binary e a =
      let sent =
        transport.send_data id (framed data' is_binary).0 (framed data' is_binary).1 e.unordered
          a.sctp in
      let c = e.channel in
      elim (Result-cases sent.result) [
        | inl (x, r) ↦
            elim (Bool-cases
              (leb (c.buffered_amount + length data' - length data') c.low_threshold)) [
                | inl l ↦ (rw (r, l) refl, rw (r, l) refl)
                | inr l ↦ (rw (r, l) refl, rw (r, l) refl)
              ]
        | inr (x, r) ↦ (rw r refl, rw r refl)
      ]

  -- A channel's `send` makes one call of `sendData`, and returns what that returns.
  pub sent_lem :
      (id : ℕ) (sent : Sent S) (data' : Buffer) (is_binary : Bool) (e : ChannelEntry S)
      (a : Manager S T)
      → converted utf8 sent ≡ ok (data', is_binary)
      → e.channel.ready_state ≡ opened
      → e.channel.connected ≡ true
      → let o = send utf8 of_utf8 transport id e sent a in
        let call' =
          transport.send_data id
            (framed data' is_binary).0
            (framed data' is_binary).1
            e.unordered
            a.sctp in
        (o.result ≡ call'.result) × (o.state.sctp ≡ call'.state)
  unfolding send call DataChannel.send
  sent_lem id sent data' is_binary e a k o c =
      let (r, s) = transmitted id data' is_binary e a in
      let up : not e.channel.connected ≡ false = ap not c in
      let ready : not (same_state e.channel.ready_state opened) ≡ false =
        ap (λ q. not (same_state q opened)) o in
      let h =
        DataChannel.send utf8 of_utf8 (channel_event id)
          (sender utf8 of_utf8 transport id e.unordered) (remove_channel utf8 of_utf8 transport id)
          sent (record { channel = e.channel; rest = a }) in
      let taken : h.state.rest.sctp
          ≡ (transport.send_data id (framed data' is_binary).0 (framed data' is_binary).1
              e.unordered a.sctp).state =
        rw (ready, k, up) s in
      (
        rw (ready, k, up) r,
        put_back_sctp id e (Map.has id h.state.rest.channels) h.state.channel h.state.rest ∙ taken,
      )
