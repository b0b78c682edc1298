-- ===== src/PeerConnection/Transport.antt =====
-- src/peerconnection/RTCPeerConnection.ts: data channels, candidates, what the transport stack emits, and
-- close.
use node_rtc_connection.Prelude.{
  ℕ, ◌-◌, Bool, true, false, Option, none, some, List, [], ◌∷◌, ◌++◌, if◌then◌else◌, leb, ◌==◌,
  ◌&&◌, length, map,
}
use node_rtc_connection.Buffer.{Buffer}
use node_rtc_connection.Buffer.Equality.{bytes_equal}
use node_rtc_connection.Effects.{◌>>=◌, ◌>>◌, skip, self, modify, emit, pure}
use node_rtc_connection.Ice.Agent.{RemoteInfo}
use node_rtc_connection.PeerConnection.{
  SdpUtils, Certificate, Fingerprint, Stack, ChannelInit, Peer, Method, signaling_closed,
  ConnectionState, connecting, connected, failed, disconnected, closed, check_open,
  set_connection_state, channel_opened, channel_closed, channel_accepted, data_channel,
  stack_closed, signaling_state_change, negotiation_needed, ice_candidate, error_event,
}

abbrev pub is_ready : Option Stack → Bool
is_ready none = false
is_ready (some s) = s.ready

-- The options as the caller gave them; `some false` for `ordered` is what makes it false.
pub record ChannelOptions : Type 0 where
  pub ordered : Option Bool
  pub max_retransmits : Option ℕ
  pub max_packet_life_time : Option ℕ
  pub protocol : Option Buffer
  pub negotiated : Option Bool

abbrev pub ordered_of : Option Bool → Bool
ordered_of (some false) = false
ordered_of _ = true

abbrev pub text_of : Option Buffer → Buffer
text_of none = []
text_of (some text) = text

abbrev pub flag_of : Option Bool → Bool
flag_of (some b) = b
flag_of none = false

-- `channel` is the new RTCDataChannel.
unfoldable pub create_data_channel : ℕ → ChannelOptions → Method ℕ
create_data_channel channel options = do
  check_open
  modify (λ p. record p { channels = p.channels ++ (channel ∷ []) })
  let init : ChannelInit = record {
    ordered = ordered_of options.ordered;
    max_retransmits = options.max_retransmits;
    max_packet_life_time = options.max_packet_life_time;
    protocol = text_of options.protocol;
    negotiated = flag_of options.negotiated;
  }
  peer ← self
  (if is_ready peer.stack
      then emit (channel_opened channel init)
      else modify
          (λ p. record p { pending_channels = p.pending_channels ++ ((channel, init) ∷ []) }))
  pure channel

-- The callback of `setImmediate`.
unfoldable pub negotiate : Method (Unit {0})
negotiate = do peer ← self; if peer.is_closed then skip else emit negotiation_needed

-- `stack.on('candidate', …)` and the other listeners of `#createStack`.
unfoldable pub on_candidate : Buffer → Method (Unit {0})
on_candidate line = do
  modify (λ p. record p { local_candidates = p.local_candidates ++ (line ∷ []) })
  emit (ice_candidate line)

abbrev pub on_ice_connected : Method (Unit {0})
on_ice_connected = set_connection_state connecting

abbrev pub on_sctp_connected : Method (Unit {0})
on_sctp_connected = set_connection_state connected

abbrev pub on_close : Method (Unit {0})
on_close = set_connection_state disconnected

-- With or without a listener of `error`.
unfoldable pub on_error : Bool → Method (Unit {0})
on_error has_listener = do
  (if has_listener then emit error_event else skip)
  set_connection_state failed

unfoldable pub on_data_channel_request : ℕ → Method (Unit {0})
on_data_channel_request channel = do
  emit (channel_accepted channel)
  modify (λ p. record p { channels = p.channels ++ (channel ∷ []) })
  emit (data_channel channel)

-- The loop of the listener of 'ready'.
unfoldable pub open_all : List (ℕ × ChannelInit) → Method (Unit {0})
open_all [] = skip
open_all ((channel, init) ∷ more) = do emit (channel_opened channel init); open_all more

abbrev pub now_ready : Option Stack → Option Stack
now_ready none = none
now_ready (some s) = some (record s { ready = true })

-- The stack is ready from then on.
unfoldable pub on_ready : Method (Unit {0})
on_ready = do
  modify (λ p. record p { stack = now_ready p.stack })
  peer ← self
  open_all peer.pending_channels
  modify (λ p. record p { pending_channels = [] })

-- The loop over the channels.
unfoldable pub close_all : List ℕ → Method (Unit {0})
close_all [] = skip
close_all (channel ∷ more) = do emit (channel_closed channel); close_all more

abbrev pub close_stack : Option Stack → Method (Unit {0})
close_stack none = skip
close_stack (some s) = emit stack_closed

unfoldable pub close : Method (Unit {0})
close = do
  peer ← self
  let closing : Method (Unit {0}) = do
    modify (λ p. record p { is_closed = true; signaling = signaling_closed })
    close_all peer.channels
    close_stack peer.stack
    modify (λ p. record p {
      stack = none;
      channels = [];
      pending_channels = [];
      local_candidates = [];
    })
    set_connection_state closed
    emit signaling_state_change
  if peer.is_closed then skip else closing

-- The first of the new configuration's certificates is what the model keeps of it.
unfoldable pub set_configuration : Option Certificate → Method (Unit {0})
set_configuration configured = do check_open; modify (λ p. record p { configured = configured })

abbrev pub given_to : Option RemoteInfo → Option Stack → Option Stack
given_to (some c) (some s) = some (record s { candidates = s.candidates ++ (c ∷ []) })
given_to _ stack = stack

-- The candidate's line; an empty one is the end of candidates.
unfoldable pub add_ice_candidate : SdpUtils → Buffer → Method (Unit {0})
add_ice_candidate sdp line = do
  check_open
  (if length line == 0
      then skip
      else modify (λ p. record p { stack = given_to (sdp.parse_candidate_line line) p.stack }))

pub data IceConnectionState : Type 0 where
  ice_new ice_checking ice_connected ice_failed : IceConnectionState

unfoldable pub ice_connection_state : ConnectionState → IceConnectionState
ice_connection_state connected = ice_connected
ice_connection_state connecting = ice_checking
ice_connection_state failed = ice_failed
ice_connection_state _ = ice_new

-- `value.toUpperCase()` of ASCII characters.
abbrev pub upper_char : ℕ → ℕ
upper_char c = if leb 97 c && leb c 122 then c - 32 else c

abbrev pub to_upper_case : Buffer → Buffer
to_upper_case text = map upper_char text

abbrev pub same_fingerprint : Fingerprint → Fingerprint → Bool
same_fingerprint fp rf =
    bytes_equal rf.algorithm fp.algorithm
    && bytes_equal (to_upper_case rf.value) (to_upper_case fp.value)

-- `array.some(test)`.
unfoldable pub any_same : Fingerprint → List Fingerprint → Bool
any_same fp [] = false
any_same fp (rf ∷ more) = if same_fingerprint fp rf then true else any_same fp more

unfoldable pub verify_remote_fingerprint : Peer → Fingerprint → Bool
verify_remote_fingerprint p fp =
    if length p.remote_fingerprints == 0 then true else any_same fp p.remote_fingerprints
