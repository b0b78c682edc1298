-- ===== src/Ice/Agent.antt =====
-- src/ice/ice-agent.ts: the agent of one data component. A transport is a number that stands for the
-- object; what it sends, and the agent's events, are the events of a method. The text fields of a
-- candidate that only go to the signaling, `foundation` and `sdp`, are left out.
pub mod Checks
pub mod Handlers
pub mod Selection
pub mod Steps
pub mod Authentication
pub mod Connect
pub mod Priority
use node_rtc_connection.Prelude.{
  ℕ, zero, suc, ◌+◌, ◌-◌, ◌*◌, ◌/◌, ◌%◌, ◌≤◌, ◌<◌, ◌≡◌, refl, Bool, true, false, ◌&&◌, ◌||◌, not,
  Option, none, some, List, [], ◌∷◌, ◌++◌, ltb, leb, ◌==◌, if◌then◌else◌, length, get_elem?, set,
  drop, state_error,
}
use node_rtc_connection.Buffer.{Buffer, to_uint32}
use node_rtc_connection.Buffer.Equality.{bytes_equal, buffer_eq}
use node_rtc_connection.Map.{nat_eq, get, put, delete, has}
use node_rtc_connection.Effects.{
  Outcome, M, returned, and_then, after, ◌>>=◌, ◌>>◌, skip, self, modify, emit, lift, throw, pure,
}
use node_rtc_connection.Ice.StunMessage.{
  StunMessageBuilder, ParsedStunMessage, new_builder, add_username, add_priority,
  add_ice_controlling, add_ice_controlled, add_use_candidate, add_xor_mapped_address, build, parse,
  verify_integrity, binding_request, binding_success, use_candidate,
}

pub data Role : Type 0 where
  controlling controlled : Role

pub data CandidateType : Type 0 where
  host srflx prflx relay : CandidateType

abbrev pub is_controlled : Role → Bool
is_controlled controlling = false
is_controlled controlled = true

abbrev pub same_type : CandidateType → CandidateType → Bool
same_type host host = true
same_type srflx srflx = true
same_type prflx prflx = true
same_type relay relay = true
same_type _ _ = false

-- TYPE_PREF.
abbrev pub type_pref : CandidateType → ℕ
type_pref host = 126
type_pref srflx = 100
type_pref prflx = 110
type_pref relay = 0

abbrev pub candidate_priority : CandidateType → ℕ → ℕ → ℕ
candidate_priority type local_pref component_id =
    to_uint32 (type_pref type * 16777216 + local_pref * 256 + (256 - component_id))

-- An address as its characters, and a port.
pub record RemoteInfo : Type 0 where
  pub address : Buffer
  pub port : ℕ

pub record LocalCandidate : Type 0 where
  pub priority : ℕ
  pub address : Buffer
  pub port : ℕ
  pub type : CandidateType
  pub transport : ℕ

-- The fields `priority` and `type` of a remote candidate are never read.
abbrev pub RemoteCandidate : Type 0
RemoteCandidate = RemoteInfo

pub data PairState : Type 0 where
  frozen in_progress succeeded : PairState

abbrev pub is_succeeded : PairState → Bool
is_succeeded succeeded = true
is_succeeded _ = false

-- `key` is a text of the two candidates, which do not change: see `has_key`. `nominated` is never set.
pub record CandidatePair : Type 0 where
  pub local : LocalCandidate
  pub remote : RemoteCandidate
  pub state : PairState
  pub pending_txid : Option Buffer

-- What is read of the selected pair, which may be a synthetic one without a candidate.
pub record SelectedPair : Type 0 where
  pub transport : ℕ
  pub candidate_type : Option CandidateType
  pub remote : RemoteInfo

pub data AgentEvent : Type 0 where
  candidate : LocalCandidate → AgentEvent
  sent : ℕ → Buffer → RemoteInfo → AgentEvent
  data_received : ℕ → Buffer → RemoteInfo → AgentEvent
  selected_pair : SelectedPair → AgentEvent
  transport_closed : ℕ → AgentEvent
  gathering_complete connected failed closed : AgentEvent

-- The pairs are objects that the map of pending checks shares: there they are their places in
-- `pairs`, where none is ever taken out. `drawn` counts the draws of random bytes.
pub record IceAgent : Type 0 where
  pub role : Role
  pub local_ufrag : Buffer
  pub local_pwd : Buffer
  pub remote_ufrag : Option Buffer
  pub remote_pwd : Option Buffer
  pub tie_breaker : Buffer
  pub transports : List ℕ
  pub local_candidates : List LocalCandidate
  pub remote_candidates : List RemoteCandidate
  pub pairs : List CandidatePair
  pub selected : Option SelectedPair
  pub is_closed : Bool
  pub check_timer : Bool
  pub timeout_timer : Bool
  pub is_connected : Bool
  pub pending_checks : List (Buffer × ℕ)
  pub drawn : ℕ

abbrev pub Method : Type 0 → Type 0
Method A = M IceAgent AgentEvent A

abbrev pub new_agent : Role → Buffer → Buffer → Buffer → IceAgent
new_agent role local_ufrag local_pwd tie_breaker = record {
  role = role;
  local_ufrag = local_ufrag;
  local_pwd = local_pwd;
  remote_ufrag = none;
  remote_pwd = none;
  tie_breaker = tie_breaker;
  transports = [];
  local_candidates = [];
  remote_candidates = [];
  pairs = [];
  selected = none;
  is_closed = false;
  check_timer = false;
  timeout_timer = false;
  is_connected = false;
  pending_checks = [];
  drawn = 0;
}

-- A string is truthy where it is there and not empty.
abbrev pub truthy : Option Buffer → Bool
truthy (some (c ∷ cs)) = true
truthy _ = false

abbrev pub same_address : RemoteInfo → RemoteInfo → Bool
same_address a b = bytes_equal a.address b.address && (a.port == b.port)

-- Whether a pair has the key of two candidates: the local type, address and port, and the remote
-- address and port, which the text of a key lists with separators.
abbrev pub has_key : LocalCandidate → RemoteCandidate → CandidatePair → Bool
has_key l r p =
    same_type p.local.type l.type
    && (bytes_equal p.local.address l.address
        && ((p.local.port == l.port) && same_address p.remote r))

-- `array.find(test)`.
unfoldable pub find : {A : Type 0} → (A → Bool) → List A → Option A
find test [] = none
find test (x ∷ xs) = if test x then some x else find test xs

abbrev pub some_of : {A : Type 0} → Option A → Bool
some_of none = false
some_of (some x) = true

-- `name.endsWith('.local')`: the six characters, and nothing behind them.
unfoldable pub ends_with_local : Buffer → Bool
ends_with_local name =
    leb 6 (length name)
    && bytes_equal (drop (length name - 6) name) (46 ∷ 108 ∷ 111 ∷ 99 ∷ 97 ∷ 108 ∷ [])

-- The inner loop of `#formPairs`, and the outer one.
unfoldable pub pairs_of :
    LocalCandidate → List RemoteCandidate → List CandidatePair → List CandidatePair
pairs_of l [] pairs = pairs
pairs_of l (r ∷ rs) pairs = pairs_of l rs (
    if some_of (find (has_key l r) pairs)
    then pairs
    else pairs ++ (record { local = l; remote = r; state = frozen; pending_txid = none } ∷ []))

unfoldable pub form_pairs_from :
    List LocalCandidate → List RemoteCandidate → List CandidatePair → List CandidatePair
form_pairs_from [] rs pairs = pairs
form_pairs_from (l ∷ ls) rs pairs = form_pairs_from ls rs (pairs_of l rs pairs)
