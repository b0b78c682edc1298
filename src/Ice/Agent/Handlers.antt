-- ===== src/Ice/Agent/Handlers.antt =====
-- src/ice/ice-agent.ts: inbound datagrams, sending, closing, and what gathering adds to the agent.
use node_rtc_connection.Prelude.{
  ℕ, zero, suc, Bool, true, ◌&&◌, Option, none, some, List, [], ◌∷◌, ◌++◌, leb, ◌==◌, if◌then◌else◌,
  get_elem?, state_error,
}
use node_rtc_connection.Buffer.{Buffer}
use node_rtc_connection.Buffer.Equality.{buffer_eq}
use node_rtc_connection.Map.{nat_eq, get, delete, has}
use node_rtc_connection.Effects.{◌>>=◌, ◌>>◌, skip, self, modify, emit, lift, throw, pure}
use node_rtc_connection.Ice.StunMessage.{
  ParsedStunMessage, new_builder, add_xor_mapped_address, build, parse, verify_integrity,
  binding_request, binding_success, use_candidate,
}
use node_rtc_connection.Ice.Agent.{
  CandidateType, relay, is_controlled, same_type, candidate_priority, RemoteInfo, LocalCandidate,
  succeeded, CandidatePair, SelectedPair, candidate, sent, data_received, transport_closed,
  gathering_complete, closed, IceAgent, Method, same_address, find, some_of,
}
use node_rtc_connection.Ice.Agent.Checks.{select, stop_checks, path_of, add_remote_candidate}

-- The test of `#findPair`, and the pair that is selected where it finds none.
abbrev pub is_pair : ℕ → RemoteInfo → CandidatePair → Bool
is_pair transport rinfo p = same_address p.remote rinfo && (p.local.transport == transport)

abbrev pub selectable : ℕ → RemoteInfo → Option CandidatePair → SelectedPair
selectable transport rinfo none = record {
  transport = transport;
  candidate_type = none;
  remote = rinfo;
}
selectable transport rinfo (some p) = path_of p

abbrev pub mark_succeeded : ℕ → List CandidatePair → List CandidatePair
mark_succeeded i [] = []
mark_succeeded zero (p ∷ ps) = record p { state = succeeded; pending_txid = none } ∷ ps
mark_succeeded (suc i) (p ∷ ps) = p ∷ mark_succeeded i ps

abbrev pub select_at : Option CandidatePair → Method (Unit {0})
select_at none = skip
select_at (some p) = select (path_of p)

-- The rest of `#handleBindingSuccess` on the pair of the pending check.
unfoldable pub succeed : Buffer → Option ℕ → Method (Unit {0})
succeed transaction_id none = skip
succeed transaction_id (some i) = do
  modify (λ a. record a {
    pending_checks = delete transaction_id a.pending_checks;
    pairs = mark_succeeded i a.pairs;
  })
  agent ← self
  if is_controlled agent.role then skip else select_at (get_elem? agent.pairs i)

abbrev pub type_of : Option SelectedPair → Option CandidateType
type_of none = none
type_of (some p) = p.candidate_type

module _ (hmac_sha1 : Buffer → Buffer → Buffer) (random_bytes : ℕ → Buffer) where
  unfoldable pub send_response : ℕ → ParsedStunMessage → RemoteInfo → Method (Unit {0})
  send_response transport parsed rinfo = do
    agent ← self
    builder ← lift (
        add_xor_mapped_address rinfo.address rinfo.port
          (new_builder binding_success parsed.transaction_id))
    resp ← lift (build hmac_sha1 builder agent.local_pwd)
    emit (sent transport resp rinfo)

  -- `this.localPwd && !S.verifyIntegrity(…)`, negated.
  unfoldable pub check_authentic : ParsedStunMessage → Buffer → Method Bool
  check_authentic parsed [] = pure true
  check_authentic parsed (c ∷ cs) = lift (verify_integrity hmac_sha1 parsed.raw (c ∷ cs))

  -- "Learn a peer-reflexive remote candidate if unknown."
  unfoldable pub learn : RemoteInfo → Method (Unit {0})
  learn rinfo = do
    agent ← self
    if some_of (find (same_address rinfo) agent.remote_candidates)
        then skip
        else add_remote_candidate hmac_sha1 random_bytes rinfo

  -- The end of `#handleBindingRequest`.
  unfoldable pub nominate : ℕ → ParsedStunMessage → RemoteInfo → Method (Unit {0})
  nominate transport parsed rinfo = do
    agent ← self
    let pair = selectable transport rinfo (find (is_pair transport rinfo) agent.pairs)
    if has use_candidate parsed.attrs && is_controlled agent.role then select pair else skip

  -- A request that is authentic.
  unfoldable pub answer : ℕ → ParsedStunMessage → RemoteInfo → Method (Unit {0})
  answer transport parsed rinfo = do
    send_response transport parsed rinfo
    learn rinfo
    nominate transport parsed rinfo

  unfoldable pub handle_binding_request : ℕ → ParsedStunMessage → RemoteInfo → Method (Unit {0})
  handle_binding_request transport parsed rinfo = do
    agent ← self
    authentic ← check_authentic parsed agent.local_pwd
    if authentic then answer transport parsed rinfo else skip

  unfoldable pub handle_binding_success : ParsedStunMessage → Method (Unit {0})
  handle_binding_success parsed = do
    agent ← self
    succeed parsed.transaction_id (get parsed.transaction_id agent.pending_checks)

  -- The rest of `#onStun` on what `parse` returned.
  unfoldable pub on_parsed : ℕ → RemoteInfo → Option ParsedStunMessage → Method (Unit {0})
  on_parsed transport rinfo none = skip
  on_parsed transport rinfo (some parsed) =
      if parsed.type == binding_request
      then handle_binding_request transport parsed rinfo
      else (if parsed.type == binding_success then handle_binding_success parsed else skip)

  unfoldable pub on_stun : ℕ → Buffer → RemoteInfo → Method (Unit {0})
  on_stun transport msg rinfo = do result ← lift (parse msg); on_parsed transport rinfo result

  -- The source's comment has first bytes from 20 to 63 alone as DTLS; the code takes all above 3.
  unfoldable pub on_datagram : ℕ → Buffer → RemoteInfo → Method (Unit {0})
  on_datagram transport [] rinfo = skip
  on_datagram transport (b0 ∷ rest) rinfo =
      if leb b0 3
      then on_stun transport (b0 ∷ rest) rinfo
      else emit (data_received transport (b0 ∷ rest) rinfo)

unfoldable pub send_on : Buffer → Option SelectedPair → Method (Unit {0})
send_on bytes none = throw state_error
send_on bytes (some path) = emit (sent path.transport bytes path.remote)

unfoldable pub send : Buffer → Method (Unit {0})
send bytes = do agent ← self; send_on bytes agent.selected

abbrev pub get_selected_candidate_type : IceAgent → Option CandidateType
get_selected_candidate_type agent = type_of agent.selected

-- The loop over the transports.
unfoldable pub close_transports : List ℕ → Method (Unit {0})
close_transports [] = skip
close_transports (t ∷ ts) = do emit (transport_closed t); close_transports ts

unfoldable pub close : Method (Unit {0})
close = do
  agent ← self
  let closing : Method (Unit {0}) = do
    modify (λ a. record a { is_closed = true })
    stop_checks
    close_transports agent.transports
    modify (λ a. record a { transports = [] })
    emit closed
  if agent.is_closed then skip else closing

-- What gathering does to the agent. A transport is listed once it is bound or allocated.
unfoldable pub add_transport : ℕ → Method (Unit {0})
add_transport t = modify (λ a. record a { transports = a.transports ++ (t ∷ []) })

unfoldable pub add_local_candidate : CandidateType → Buffer → ℕ → ℕ → Method (Unit {0})
add_local_candidate type address port transport = do
  let cand : LocalCandidate = record {
    priority = candidate_priority type 65535 1;
    address = address;
    port = port;
    type = type;
    transport = transport;
  }
  modify (λ a. record a { local_candidates = a.local_candidates ++ (cand ∷ []) })
  emit (candidate cand)

-- `array.filter((c) => c.type === 'relay')`.
unfoldable pub relay_only : List LocalCandidate → List LocalCandidate
relay_only [] = []
relay_only (c ∷ cs) = let rest = relay_only cs in if same_type c.type relay then c ∷ rest else rest

-- The end of `gather`.
unfoldable pub finish_gathering : Bool → Method (Unit {0})
finish_gathering policy_is_relay = do
  (if policy_is_relay
      then modify (λ a. record a { local_candidates = relay_only a.local_candidates })
      else skip)
  emit gathering_complete

unfoldable pub set_remote_credentials : Buffer → Buffer → Method (Unit {0})
set_remote_credentials ufrag pwd =
    modify (λ a. record a { remote_ufrag = some ufrag; remote_pwd = some pwd })
