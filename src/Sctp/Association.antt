-- ===== src/Sctp/Association.antt =====
-- src/sctp/association.ts: the state of an association and what it emits.
pub mod Monad
pub mod Setup
pub mod Sending
pub mod Receiving
pub mod Dispatch
pub mod Packets
pub mod Fragments
pub mod Reassembly
pub mod Emission
pub mod Transfer
pub mod Cookies
pub mod Acks
pub mod Timers
use node_rtc_connection.Prelude.{
  ℕ, Bool, true, false, Option, none, List, [], Result, ok, ◌>>=◌, ◌==◌, if◌then◌else◌,
}
use node_rtc_connection.Buffer.{Buffer, uint32_be}
use node_rtc_connection.Sctp.Bodies.{DataBody}

abbrev pub sctp_port : ℕ
sctp_port = 5000

abbrev pub default_rwnd : ℕ
default_rwnd = 1048576

abbrev pub max_payload : ℕ
max_payload = 1200

-- `Math.ceil(DEFAULT_RWND / MAX_PAYLOAD)`.
abbrev pub max_ooo_chunks : ℕ
max_ooo_chunks = 874

abbrev pub rto_initial : ℕ
rto_initial = 500

abbrev pub rto_max : ℕ
rto_max = 5000

pub data State : Type 0 where
  closed cookie_wait cookie_echoed established : State

abbrev pub state_eq : State → State → Bool
state_eq closed closed = true
state_eq cookie_wait cookie_wait = true
state_eq cookie_echoed cookie_echoed = true
state_eq established established = true
state_eq closed _ = false
state_eq cookie_wait _ = false
state_eq cookie_echoed _ = false
state_eq established _ = false

pub record SctpMessage : Type 0 where
  pub stream_id : ℕ
  pub ppid : ℕ
  pub message : Buffer

-- `FragmentBuffer`.
pub record FragmentBuffer : Type 0 where
  pub ppid : ℕ
  pub parts : List Buffer

-- The variables that `fire` closes over, while its timer is pending.
pub record InitTimer : Type 0 where
  pub rto : ℕ
  pub attempts : ℕ
  pub chunks : List Buffer

pub data Reason : Type 0 where
  setup_timed_out peer_abort missing_cookie : Reason

-- What `emit` hands to the listeners.
pub data Event : Type 0 where
  output : Buffer → Event
  message : SctpMessage → Event
  established_event : Event
  error_event : Reason → Event
  close_event : Event

-- The fields of `SctpAssociation`. A fragment's key is the pair of stream and order that the string
-- `${streamId}:u` or `${streamId}:o` spells; `init_timer` is the timer that is pending.
pub record Assoc : Type 0 where
  pub is_client : Bool
  pub state : State
  pub local_port : ℕ
  pub remote_port : ℕ
  pub local_tag : ℕ
  pub remote_tag : ℕ
  pub local_tsn : ℕ
  pub next_ssn : List (ℕ × ℕ)
  pub sent_queue : List (ℕ × Buffer)
  pub peer_cumulative_tsn : Option ℕ
  pub received_out_of_order : List (ℕ × DataBody)
  pub fragments : List ((ℕ × Bool) × FragmentBuffer)
  pub init_timer : Option InitTimer
  pub cookie_secret : Option Buffer

-- The constructor, with the bytes that the two calls of `randomBytes(4)` return.
unfoldable pub create : Bool → Buffer → Buffer → Result Assoc
create is_client tag_bytes tsn_bytes = do
  tag ← uint32_be tag_bytes
  tsn ← uint32_be tsn_bytes
  ok (record {
    is_client = is_client;
    state = closed;
    local_port = sctp_port;
    remote_port = sctp_port;
    local_tag = if tag == 0 then 1 else tag;
    remote_tag = 0;
    local_tsn = tsn;
    next_ssn = [];
    sent_queue = [];
    peer_cumulative_tsn = none;
    received_out_of_order = [];
    fragments = [];
    init_timer = none;
    cookie_secret = none;
  })
