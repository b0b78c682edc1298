-- ===== src/Tests/Channels.antt =====
-- Data channels at concrete inputs, where a string is its bytes.
use node_rtc_connection.Prelude.{ℕ, ◌≡◌, refl, Bool, true, false, none, some, [], ◌∷◌, arith, ok}
use node_rtc_connection.Buffer.{Buffer, alloc}
use node_rtc_connection.Map
use node_rtc_connection.Map.{nat_eq}
use node_rtc_connection.Effects.{M, returned, throw, ◌>>◌}
use node_rtc_connection.Prelude.{internal_error}
use node_rtc_connection.Sctp.Association.{Assoc, SctpMessage}
use node_rtc_connection.Sctp.Association.Reassembly.{Received, receive_all}
use node_rtc_connection.DataChannel.{
  Channel, Held, string, Event, opened, create, message_event, text, close, open_internal,
  run_immediate, closing_event, open_event,
}
use node_rtc_connection.DataChannel.Laws.{reopened_lem}
use node_rtc_connection.DataChannelManager
use node_rtc_connection.DataChannelManager.Handlers
use node_rtc_connection.DataChannelManager.{ChannelEntry, Manager, channel_event}
use node_rtc_connection.DataChannelManager.Handlers.{allocate_stream_id, on_sctp_message}
use node_rtc_connection.DataChannelManager.Delivery.{association, packets, send_lem}
use node_rtc_connection.Tests.Association.{
  sender, receiver, sender-CanSend, receiver-Expects, toy_mac,
}

abbrev same : Buffer → Buffer
same s = s

abbrev fresh_channel : Channel Buffer
fresh_channel = create (99 ∷ []) (record {
  ordered = none;
  max_packet_life_time = none;
  max_retransmits = none;
  protocol = [];
  negotiated = false;
  id = some 0;
})

abbrev up : Channel Buffer
up = record fresh_channel { ready_state = opened; connected = true }

abbrev entry : ChannelEntry Buffer
entry = record { channel = up; acked = true; unordered = false }

abbrev manager : Assoc → Manager Buffer Assoc
manager a = record {
  sctp = a;
  channels = (0, entry) ∷ (2, entry) ∷ [];
  next_stream_id = 0;
  listening = true;
}

send_lem_example :
    let o = Handlers.send same same association 0 entry (string []) (manager sender) in
    let arrival = receive_all toy_mac (alloc 32) (packets o.events) receiver in
    (o.result ≡ ok tt)
    × (m : SctpMessage) × Received o.state.sctp.local_tsn (m ∷ []) arrival
    × ((on_sctp_message same same association m (manager arrival.assoc)).result ≡ ok tt)
    × ((on_sctp_message same same association m (manager arrival.assoc)).events
        ≡ channel_event 0 (message_event (text [])) ∷ [])
unfolding create Map.get
send_lem_example =
    send_lem same same toy_mac (alloc 32) 0 (string []) [] false entry entry (manager sender)
      (manager receiver) refl refl refl (omega arith) refl sender-CanSend receiver-Expects refl refl
      refl

-- The third stream is the first one that is free.
allocated : (allocate_stream_id same same association (manager sender)).result ≡ ok 4
unfolding allocate_stream_id DataChannelManager.free_stream Map.has
allocated = refl

abbrev refusing : Buffer → Bool → M ℕ (Event Buffer) (Unit {0})
refusing data' is_binary = throw internal_error

abbrev nothing : M ℕ (Event Buffer) (Unit {0})
nothing n = returned tt n []

abbrev held : Channel Buffer → Held Buffer ℕ
held c = record { channel = c; rest = 0 }

reopened_lem_example :
    (close same same (λ e. e) refusing nothing
        >> open_internal same same (λ e. e) refusing nothing
        >> run_immediate same same (λ e. e) refusing nothing)
      (held fresh_channel)
    ≡ returned tt
        (held (record fresh_channel { ready_state = opened; connected = true }))
        (closing_event ∷ open_event ∷ [])
unfolding create
reopened_lem_example =
    reopened_lem same same (λ e. e) refusing nothing (held fresh_channel) refl refl refl refl
