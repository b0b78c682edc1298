-- ===== src/Ice/Agent/Checks.antt =====
-- src/ice/ice-agent.ts: connectivity checks and the selection of a pair.
use node_rtc_connection.Prelude.{
  ℕ, zero, suc, ◌+◌, true, false, ◌&&◌, ◌||◌, not, Option, none, some, List, [], ◌∷◌, ◌++◌, ltb,
  ◌==◌, if◌then◌else◌, length, get_elem?, set,
}
use node_rtc_connection.Buffer.{Buffer}
use node_rtc_connection.Buffer.Equality.{buffer_eq}
use node_rtc_connection.Map.{nat_eq, put, delete}
use node_rtc_connection.Effects.{◌>>=◌, ◌>>◌, skip, self, modify, emit, lift}
use node_rtc_connection.Ice.StunMessage.{
  StunMessageBuilder, new_builder, add_username, add_priority, add_ice_controlling,
  add_ice_controlled, add_use_candidate, build, binding_request,
}
use node_rtc_connection.Ice.Agent.{
  Role, controlling, controlled, RemoteCandidate, in_progress, is_succeeded, CandidatePair,
  SelectedPair, sent, selected_pair, connected, failed, IceAgent, Method, truthy, some_of,
  ends_with_local, form_pairs_from,
}

abbrev pub form_pairs : Method (Unit {0})
form_pairs =
    modify
      (λ a. record a { pairs = form_pairs_from a.local_candidates a.remote_candidates a.pairs })

unfoldable pub stop_checks : Method (Unit {0})
stop_checks =
    modify (λ a. record a { check_timer = false; timeout_timer = false; pending_checks = [] })

unfoldable pub select : SelectedPair → Method (Unit {0})
select pair = do
  agent ← self
  let first : Method (Unit {0}) = do
    modify (λ a. record a { selected = some pair; is_connected = true })
    stop_checks
    emit (selected_pair pair)
    emit connected
  if some_of agent.selected then skip else first

abbrev pub path_of : CandidatePair → SelectedPair
path_of p = record {
  transport = p.local.transport;
  candidate_type = some p.local.type;
  remote = p.remote;
}

-- `null` in a template is the text "null".
abbrev pub shown : Option Buffer → Buffer
shown none = 110 ∷ 117 ∷ 108 ∷ 108 ∷ []
shown (some text) = text

abbrev pub password_of : Option Buffer → Buffer
password_of none = []
password_of (some password) = password

abbrev pub with_role : Role → Buffer → StunMessageBuilder → StunMessageBuilder
with_role controlling tie_breaker b = add_use_candidate (add_ice_controlling tie_breaker b)
with_role controlled tie_breaker b = add_ice_controlled tie_breaker b

-- The builder of a check.
abbrev pub check_builder : IceAgent → CandidatePair → Buffer → StunMessageBuilder
check_builder agent pair txid = with_role agent.role agent.tie_breaker (
    add_priority pair.local.priority (
      add_username (shown agent.remote_ufrag ++ (58 ∷ agent.local_ufrag))
        (new_builder binding_request txid)))

abbrev pub retire : Option Buffer → List (Buffer × ℕ) → List (Buffer × ℕ)
retire none checks = checks
retire (some txid) checks = delete txid checks

-- The agent once the check of pair `i` is registered.
abbrev pub registered : ℕ → CandidatePair → Buffer → IceAgent → IceAgent
registered i pair txid a = record a {
  pairs = set a.pairs i (record pair { pending_txid = some txid; state = in_progress });
  pending_checks = put txid i (retire pair.pending_txid a.pending_checks);
}

module _ (hmac_sha1 : Buffer → Buffer → Buffer) (random_bytes : ℕ → Buffer) where
  -- The check of `pair`, which is at place `i`.
  unfoldable pub send_check : ℕ → CandidatePair → Method (Unit {0})
  send_check i pair = do
    agent ← self
    let txid = random_bytes agent.drawn
    modify (λ a. record a { drawn = a.drawn + 1 })
    msg ← lift (build hmac_sha1 (check_builder agent pair txid) (password_of agent.remote_pwd))
    modify (registered i pair txid)
    emit (sent pair.local.transport msg pair.remote)

  -- The body of the loop of `#tick`.
  unfoldable pub check_at : ℕ → Option CandidatePair → Method (Unit {0})
  check_at i none = skip
  check_at i (some pair) = if is_succeeded pair.state then skip else send_check i pair

  -- The loop of `#tick`, from place `i` on, with the pairs that are left.
  unfoldable pub checks_from : ℕ → ℕ → Method (Unit {0})
  checks_from zero i = skip
  checks_from (suc left) i = do
    agent ← self
    check_at i (get_elem? agent.pairs i)
    checks_from left (i + 1)

  unfoldable pub tick : Method (Unit {0})
  tick = do agent ← self; if agent.is_closed then skip else checks_from (length agent.pairs) 0

  unfoldable pub start_checks : Method (Unit {0})
  start_checks = do
    agent ← self
    let begin : Method (Unit {0}) = do
      modify (λ a. record a { check_timer = true; timeout_timer = true })
      tick
    if agent.check_timer || agent.is_closed then skip else begin

  -- The callback of the timer that `#startChecks` sets.
  unfoldable pub check_timeout : Method (Unit {0})
  check_timeout = do agent ← self; (if agent.is_connected then skip else emit failed); stop_checks

  unfoldable pub start : Method (Unit {0})
  start = do
    agent ← self
    if truthy agent.remote_pwd && ltb 0 (length agent.remote_candidates) then start_checks else skip

  unfoldable pub add_remote_candidate : RemoteCandidate → Method (Unit {0})
  add_remote_candidate cand = do
    let added : Method (Unit {0}) = do
      modify (λ a. record a { remote_candidates = a.remote_candidates ++ (cand ∷ []) })
      form_pairs
      agent ← self
      if not agent.check_timer && truthy agent.remote_pwd then start_checks else skip
    if (length cand.address == 0) || ((cand.port == 0) || ends_with_local cand.address)
        then skip
        else added
