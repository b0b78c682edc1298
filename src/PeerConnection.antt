-- ===== src/PeerConnection.antt =====
-- src/peerconnection/RTCPeerConnection.ts: the state of a connection, and its signaling. An async method
-- is the parts between its awaits, each a method by itself, since others may run in between; what
-- sdp-utils.ts makes of a description's text is the interface `SdpUtils`, which the module Sdp fills. A channel is a number that
-- stands for the object.
pub mod Signaling
pub mod Transport
pub mod Exchange
pub mod Fingerprints
pub mod Closing
use node_rtc_connection.Prelude.{
  ℕ, ◌+◌, ◌-◌, Bool, true, false, Option, none, some, List, [], ◌∷◌, ◌++◌, if◌then◌else◌, leb, ◌&&◌,
  map, state_error,
}
use node_rtc_connection.Buffer.{Buffer}
use node_rtc_connection.Effects.{
  M, Outcome, returned, and_then, after, ◌>>=◌, ◌>>◌, skip, self, modify, emit, throw,
}
use node_rtc_connection.Ice.Agent.{RemoteInfo}

pub data SdpType : Type 0 where
  offer answer pranswer rollback : SdpType

pub record Description : Type 0 where
  pub type : SdpType
  pub sdp : Buffer

-- The algorithm and the value as their characters.
pub record Fingerprint : Type 0 where
  pub algorithm : Buffer
  pub value : Buffer

pub data Setup : Type 0 where
  active passive actpass : Setup

-- `undefined` is `none`.
pub record IceParameters : Type 0 where
  pub username_fragment : Option Buffer
  pub password : Option Buffer

pub record DtlsParameters : Type 0 where
  pub setup : Option Setup
  pub fingerprints : List Fingerprint

pub record SdpOptions : Type 0 where
  pub ice_ufrag : Buffer
  pub ice_pwd : Buffer
  pub fingerprint : Option Fingerprint
  pub setup : Setup

-- What the connection calls of sdp-utils.ts: `Sdp.sdp_utils` is what it has there.
pub record SdpUtils : Type 0 where
  pub generate_offer : SdpOptions → Buffer
  pub generate_answer : SdpOptions → Buffer
  pub parse_ice_parameters : Buffer → IceParameters
  pub parse_dtls_parameters : Buffer → DtlsParameters
  pub parse_candidates : Buffer → List RemoteInfo
  pub parse_candidate_line : Buffer → Option RemoteInfo

pub data SignalingState : Type 0 where
  stable have_local_offer have_remote_offer signaling_closed : SignalingState

pub data GatheringState : Type 0 where
  gathering_new gathering complete : GatheringState

pub data ConnectionState : Type 0 where
  new_state connecting connected disconnected failed closed : ConnectionState

abbrev pub same_state : ConnectionState → ConnectionState → Bool
same_state new_state new_state = true
same_state connecting connecting = true
same_state connected connected = true
same_state disconnected disconnected = true
same_state failed failed = true
same_state closed closed = true
same_state _ _ = false

pub data IceRole : Type 0 where
  controlling controlled : IceRole

pub data DtlsRole : Type 0 where
  client server : DtlsRole

pub record Certificate : Type 0 where
  pub fingerprints : List Fingerprint
  pub has_der : Bool

-- The transport stack, as far as the connection knows it: its roles, what `setRemote` told it last,
-- the candidates that it was given, and whether SCTP is established.
pub record Stack : Type 0 where
  pub ice_role : IceRole
  pub dtls_role : DtlsRole
  pub remote : Option (Buffer × Buffer)
  pub candidates : List RemoteInfo
  pub ready : Bool

-- `{ ordered: options.ordered !== false, … }`.
pub record ChannelInit : Type 0 where
  pub ordered : Bool
  pub max_retransmits : Option ℕ
  pub max_packet_life_time : Option ℕ
  pub protocol : Buffer
  pub negotiated : Bool

pub data PeerEvent : Type 0 where
  connection_state_change ice_connection_state_change : PeerEvent
  gathering_state_change signaling_state_change : PeerEvent
  negotiation_needed end_of_candidates stack_closed error_event : PeerEvent
  ice_candidate : Buffer → PeerEvent
  gather_called : PeerEvent
  data_channel channel_closed channel_accepted : ℕ → PeerEvent
  channel_opened : ℕ → ChannelInit → PeerEvent

-- `configured` is the first of the configuration's certificates.
pub record Peer : Type 0 where
  pub configured : Option Certificate
  pub signaling : SignalingState
  pub gathering_state : GatheringState
  pub connection : ConnectionState
  pub local_description : Option Description
  pub remote_description : Option Description
  pub certificate : Option Certificate
  pub local_ufrag : Buffer
  pub local_pwd : Buffer
  pub remote_ice : Option IceParameters
  pub remote_fingerprints : List Fingerprint
  pub remote_setup : Option Setup
  pub stack : Option Stack
  pub is_offerer : Bool
  pub is_closed : Bool
  pub pending_channels : List (ℕ × ChannelInit)
  pub channels : List ℕ
  pub local_candidates : List Buffer

abbrev pub Method : Type 0 → Type 0
Method A = M Peer PeerEvent A

abbrev pub new_peer : Option Certificate → Buffer → Buffer → Peer
new_peer configured ufrag pwd = record {
  configured = configured;
  signaling = stable;
  gathering_state = gathering_new;
  connection = new_state;
  local_description = none;
  remote_description = none;
  certificate = none;
  local_ufrag = ufrag;
  local_pwd = pwd;
  remote_ice = none;
  remote_fingerprints = [];
  remote_setup = none;
  stack = none;
  is_offerer = false;
  is_closed = false;
  pending_channels = [];
  channels = [];
  local_candidates = [];
}

-- `if (this.#isClosed) throw …`.
unfoldable pub check_open : Method (Unit {0})
check_open = do peer ← self; if peer.is_closed then throw state_error else skip

unfoldable pub set_connection_state : ConnectionState → Method (Unit {0})
set_connection_state state = do
  peer ← self
  let changed : Method (Unit {0}) = do
    modify (λ p. record p { connection = state })
    emit connection_state_change
    emit ice_connection_state_change
  if same_state peer.connection state then skip else changed
