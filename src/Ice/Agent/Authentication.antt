-- ===== src/Ice/Agent/Authentication.antt =====
-- Which datagrams change the agent: requests are authenticated, responses are not.
use node_rtc_connection.Prelude.{
  ℕ, zero, suc, ◌≤◌, ◌≡◌, refl, ap, true, false, Option, none, some, List, [], ◌∷◌, arith, leb,
  ◌==◌, length, get_elem?, ok, All,
}
use node_rtc_connection.Buffer.{Buffer}
use node_rtc_connection.Buffer.Equality.{buffer_eq}
use node_rtc_connection.Map.{get}
use node_rtc_connection.Effects.{returned}
use node_rtc_connection.Ice.StunMessage.{
  ParsedStunMessage, StunAttribute, parse, verify_integrity, binding_request, binding_success,
}
use node_rtc_connection.Ice.StunMessage.Parse.{message_bytes, parse-message}
use node_rtc_connection.Ice.StunMessage.Layout.{Fits}
use node_rtc_connection.Ice.Agent.{
  controlling, IceAgent, CandidatePair, RemoteInfo, succeeded, selected_pair, connected,
}
use node_rtc_connection.Ice.Agent.Checks.{path_of, select, stop_checks}
use node_rtc_connection.Ice.Agent.Handlers.{
  on_datagram, on_stun, on_parsed, handle_binding_request, handle_binding_success, check_authentic,
  succeed, mark_succeeded,
}

marked : Option CandidatePair → Option CandidatePair
marked none = none
marked (some p) = some (record p { state = succeeded; pending_txid = none })

-- A place that is marked.
pub mark_succeeded-get :
    (i : ℕ) (pairs : List CandidatePair) (p : CandidatePair)
    → get_elem? pairs i ≡ some p
    → get_elem? (mark_succeeded i pairs) i
      ≡ some (record p { state = succeeded; pending_txid = none })
unfolding marked
mark_succeeded-get i [] p h = absurd (cc h)
mark_succeeded-get zero (q ∷ pairs) p h = ap marked h
mark_succeeded-get (suc i) (q ∷ pairs) p h = mark_succeeded-get i pairs p h

module _ (hmac_sha1 : Buffer → Buffer → Buffer) (random_bytes : ℕ → Buffer) where
  -- A binding request whose MESSAGE-INTEGRITY does not verify under the agent's own password is
  -- dropped: the agent is left as it was, and nothing is sent or emitted.
  pub unauthenticated_lem :
      (transport b0 : ℕ) (rest : Buffer) (rinfo : RemoteInfo) (a : IceAgent)
      (parsed : ParsedStunMessage) (first : ℕ) (more : Buffer)
      → b0 ≤ 3
      → parse (b0 ∷ rest) ≡ ok (some parsed)
      → parsed.type ≡ binding_request
      → a.local_pwd ≡ first ∷ more
      → verify_integrity hmac_sha1 parsed.raw (first ∷ more) ≡ ok false
      → on_datagram hmac_sha1 random_bytes transport (b0 ∷ rest) rinfo a ≡ returned tt a []
  unfolding on_datagram on_stun on_parsed handle_binding_request check_authentic
  unauthenticated_lem transport b0 rest rinfo a parsed first more h p t w v =
      let low : leb b0 3 ≡ true = ground arith in
      let is_request : (parsed.type == binding_request) ≡ true = ground (arith, t) in
      rw (low, p, is_request, w, v)

  -- A binding success with whatever attributes.
  pub success_lem :
      (transport : ℕ) (txid : Buffer) (attrs : List StunAttribute) (rinfo : RemoteInfo)
      (a : IceAgent) (i : ℕ) (p : CandidatePair)
      → length txid ≡ 12
      → All Fits attrs
      → a.role ≡ controlling
      → a.selected ≡ none
      → get txid a.pending_checks ≡ some i
      → get_elem? a.pairs i ≡ some p
      → let o =
          on_datagram hmac_sha1 random_bytes transport
            (message_bytes binding_success txid attrs)
            rinfo
            a in
        (o.result ≡ ok tt)
        × (o.state.selected ≡ some (path_of p))
        × (o.events ≡ selected_pair (path_of p) ∷ connected ∷ [])
  unfolding on_datagram on_stun on_parsed handle_binding_success succeed select stop_checks
  success_lem transport txid attrs rinfo a i p h f r s g e =
      rw (parse-message binding_success txid attrs h f, g, r, mark_succeeded-get i a.pairs p e, s)
        (refl, refl, refl)

  -- A binding success of the 20 bytes of its header alone, without MESSAGE-INTEGRITY, from any address
  -- and over any transport, makes a controlling agent that has not selected a pair select the pair of
  -- the check whose transaction id it carries.
  pub unsigned_success_lem :
      (transport : ℕ) (txid : Buffer) (rinfo : RemoteInfo) (a : IceAgent) (i : ℕ)
      (p : CandidatePair)
      → length txid ≡ 12
      → a.role ≡ controlling
      → a.selected ≡ none
      → get txid a.pending_checks ≡ some i
      → get_elem? a.pairs i ≡ some p
      → let o =
          on_datagram hmac_sha1 random_bytes transport
            (message_bytes binding_success txid [])
            rinfo
            a in
        (o.result ≡ ok tt)
        × (o.state.selected ≡ some (path_of p))
        × (o.events ≡ selected_pair (path_of p) ∷ connected ∷ [])
  unsigned_success_lem transport txid rinfo a i p h r s g e =
      success_lem transport txid [] rinfo a i p h tt r s g e
