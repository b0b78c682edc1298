-- ===== src/Ice/Agent/Steps.antt =====
-- The agent among what happens to it, one method after another: the selected pair over a whole run.
use node_rtc_connection.Prelude.{
  ℕ, zero, suc, ◌+◌, ◌≡◌, refl, ap, ◌∙◌, Bool, true, false, Option, none, some, List, [], ◌∷◌, ◌++◌,
  arith, if◌then◌else◌,
}
use node_rtc_connection.Buffer.{Buffer}
use node_rtc_connection.Ice.Agent.{
  IceAgent, Method, AgentEvent, SelectedPair, RemoteInfo, CandidateType, some_of,
}
use node_rtc_connection.Ice.Agent.Checks.{tick, check_timeout, start, add_remote_candidate}
use node_rtc_connection.Ice.Agent.Handlers.{
  on_datagram, send, close, add_transport, add_local_candidate, finish_gathering,
  set_remote_credentials,
}
use node_rtc_connection.Ice.Agent.Selection.{
  connections, Announces, unselected, chain, keeps, silent_at, tick-Steady, check_timeout-Steady,
  start-Steady, add_remote_candidate-Steady, on_datagram-Steady, send-Steady, close-Steady,
}

-- What may happen to an agent: a datagram, a timer that fires, a call of one of its methods, or what
-- gathering adds.
pub data AgentStep : Type 0 where
  datagram : ℕ → Buffer → RemoteInfo → AgentStep
  interval_fires timeout_fires started closing : AgentStep
  remote_candidate : RemoteInfo → AgentStep
  credentials : Buffer → Buffer → AgentStep
  sending : Buffer → AgentStep
  transport_added : ℕ → AgentStep
  local_candidate : CandidateType → Buffer → ℕ → ℕ → AgentStep
  gathered : Bool → AgentStep

module _ (hmac_sha1 : Buffer → Buffer → Buffer) (random_bytes : ℕ → Buffer) where
  abbrev pub perform : AgentStep → Method (Unit {0})
  perform (datagram t msg rinfo) = on_datagram hmac_sha1 random_bytes t msg rinfo
  perform interval_fires = tick hmac_sha1 random_bytes
  perform timeout_fires = check_timeout hmac_sha1 random_bytes
  perform started = start hmac_sha1 random_bytes
  perform closing = close
  perform (remote_candidate cand) = add_remote_candidate hmac_sha1 random_bytes cand
  perform (credentials ufrag pwd) = set_remote_credentials ufrag pwd
  perform (sending bytes) = send bytes
  perform (transport_added t) = add_transport t
  perform (local_candidate type address port t) = add_local_candidate type address port t
  perform (gathered policy_is_relay) = finish_gathering policy_is_relay

  -- One step after another; a step that throws keeps what it did before.
  unfoldable pub events_of : List AgentStep → IceAgent → List AgentEvent
  events_of [] a = []
  events_of (step ∷ more) a = let o = perform step a in o.events ++ events_of more o.state

  unfoldable pub run : List AgentStep → IceAgent → IceAgent
  run [] a = a
  run (step ∷ more) a = run more (perform step a).state

  perform-Announces :
      (step : AgentStep) (a : IceAgent) → Announces a (perform step a).events (perform step a).state
  unfolding add_transport add_local_candidate finish_gathering set_remote_credentials
  perform-Announces (datagram t msg rinfo) a =
      on_datagram-Steady hmac_sha1 random_bytes t msg rinfo a
  perform-Announces interval_fires a = tick-Steady hmac_sha1 random_bytes a
  perform-Announces timeout_fires a = check_timeout-Steady hmac_sha1 random_bytes a
  perform-Announces started a = start-Steady hmac_sha1 random_bytes a
  perform-Announces closing a = close-Steady a
  perform-Announces (remote_candidate cand) a =
      add_remote_candidate-Steady hmac_sha1 random_bytes cand a
  perform-Announces (credentials ufrag pwd) a = keeps a _ refl
  perform-Announces (sending bytes) a = send-Steady bytes a
  perform-Announces (transport_added t) a = keeps a _ refl
  perform-Announces (local_candidate type address port t) a = silent_at a _ _ refl refl
  perform-Announces (gathered true) a = silent_at a _ _ refl refl
  perform-Announces (gathered false) a = silent_at a _ _ refl refl

  run-Announces :
      (steps : List AgentStep) (a : IceAgent) → Announces a (events_of steps a) (run steps a)
  unfolding events_of run
  run-Announces [] a = keeps a a refl
  run-Announces (step ∷ more) a =
      chain a _ _ (perform step a).events _ (perform-Announces step a) (run-Announces more _)

  -- Whatever datagrams, timers and calls an agent meets, and in whatever order, one that has not
  -- selected a pair emits `connected` once if it ends with a selected pair, and never if it does not.
  pub connected_once :
      (steps : List AgentStep) (a : IceAgent)
      → a.selected ≡ none
      → connections (events_of steps a) ≡ (if some_of (run steps a).selected then 1 else 0)
  connected_once steps a nothing =
      counted (run steps a).selected refl ((run-Announces steps a).count ∙ ap one_of nothing)
    where
      one_of : Option SelectedPair → ℕ
      one_of o = if some_of o then 0 else 1

      counted :
          (o : Option SelectedPair)
          → (run steps a).selected ≡ o
          → connections (events_of steps a) + one_of (run steps a).selected ≡ 1
          → connections (events_of steps a) ≡ (if some_of (run steps a).selected then 1 else 0)
      counted none e h = rw e (omega (arith, h, ap one_of e))
      counted (some p) e h = rw e (omega (arith, h, ap one_of e))

  -- Over the same runs, an agent that has selected a pair keeps it, and emits `connected` no more.
  pub selected_final :
      (steps : List AgentStep) (a : IceAgent) (p : SelectedPair)
      → a.selected ≡ some p
      → ((run steps a).selected ≡ some p) × (connections (events_of steps a) ≡ 0)
  selected_final steps a p there =
      let r = run-Announces steps a in
      let still : unselected (run steps a) ≡ 0 =
        ap (λ (o : Option SelectedPair). if some_of o then zero else suc zero) (r.stays p there) in
      let before : unselected a ≡ 0 =
        ap (λ (o : Option SelectedPair). if some_of o then zero else suc zero) there in
      (r.stays p there, omega (arith, r.count, still, before))
