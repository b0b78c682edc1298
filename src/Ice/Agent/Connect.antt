-- ===== src/Ice/Agent/Connect.antt =====
-- Two agents, one controlling and one controlled: a check, its answer, and what both then have.
use node_rtc_connection.Prelude.{
  ℕ, zero, suc, ◌+◌, ◌<◌, ◌≡◌, refl, ap, ◌∙◌, Bool, true, Bool-cases, Option-cases, inl, inr,
  Option, none, some, List, [], ◌∷◌, ◌++◌, arith, length, get_elem?, get_elem?-set_self, ok,
}
use node_rtc_connection.Buffer.{Buffer}
use node_rtc_connection.Buffer.Equality.{bytes_equal_refl, buffer_eq}
use node_rtc_connection.Map.{nat_eq, put, has, get-put}
use node_rtc_connection.Effects.{returned}
use node_rtc_connection.Ice.StunMessage.{
  StunMessageBuilder, verify_integrity, binding_request, binding_success, new_builder, add_attr,
  add_username, add_priority, add_ice_controlling, add_use_candidate, dotted, xor_mapped_address,
}
use node_rtc_connection.Ice.StunMessage.Layout.{IsBuildable, sent_attrs, build_lem}
use node_rtc_connection.Ice.StunMessage.Parse.{message_bytes}
use node_rtc_connection.Ice.StunMessage.Verify.{verify_integrity-sent}
use node_rtc_connection.Ice.StunMessage.RoundTrip.{parse-sent, sent_attrs-Fits}
use node_rtc_connection.Ice.StunMessage.Address.{xor_address_bytes, encode_xor_address_lem}
use node_rtc_connection.Ice.Agent.{
  controlling, controlled, IceAgent, CandidatePair, RemoteInfo, SelectedPair, RemoteCandidate,
  in_progress, sent, selected_pair, connected, find, same_address,
}
use node_rtc_connection.Ice.Agent.Checks.{
  send_check, registered, shown, path_of, select, stop_checks,
}
use node_rtc_connection.Ice.Agent.Handlers.{
  on_datagram, on_stun, on_parsed, handle_binding_request, check_authentic, answer, send_response,
  learn, nominate, selectable, is_pair,
}
use node_rtc_connection.Ice.Agent.Authentication.{success_lem}

-- The builder of the check of a controlling agent.
abbrev pub controlling_builder : IceAgent → CandidatePair → Buffer → StunMessageBuilder
controlling_builder a p txid = add_use_candidate (
    add_ice_controlling a.tie_breaker (
      add_priority p.local.priority (
        add_username (shown a.remote_ufrag ++ (58 ∷ a.local_ufrag))
          (new_builder binding_request txid))))

-- The builder of the answer.
abbrev pub answer_builder : Buffer → RemoteInfo → StunMessageBuilder
answer_builder txid rinfo =
    add_attr xor_mapped_address (xor_address_bytes (dotted rinfo.address) rinfo.port)
      (new_builder binding_success txid)

within : {A : Type 0} (xs : List A) (i : ℕ) (x : A) → get_elem? xs i ≡ some x → i < length xs
within [] i x h = absurd (cc h)
within (y ∷ ys) zero x h = omega arith
within (y ∷ ys) (suc i) x h = omega (arith, within ys i x h)

found : {A : Type 0} (test : A → Bool) (xs : List A) (x : A) → find test xs ≡ some x → test x ≡ true
unfolding find
found test [] x h = absurd (cc h)
found test (y ∷ ys) x h = elim (Bool-cases (test y)) [
  | inl e ↦ let same : ◌≡◌ {A = Option _} (some y) (some x) = rw e at h in cc (same, e)
  | inr e ↦ found test ys x (rw e at h)
]

-- The pair that a request selects is over the transport and towards the address it came by.
selectable-find :
    (transport : ℕ) (rinfo : RemoteInfo) (pairs : List CandidatePair)
    → let path = selectable transport rinfo (find (is_pair transport rinfo) pairs) in
      (path.transport ≡ transport) × (same_address path.remote rinfo ≡ true)
selectable-find transport rinfo pairs = elim (Option-cases (find (is_pair transport rinfo) pairs)) [
  | inl nothing ↦ rw nothing (refl, ground (arith, bytes_equal_refl rinfo.address))
  | inr (p, there) ↦
      let matches : is_pair transport rinfo p ≡ true =
        found (is_pair transport rinfo) pairs p there in
      rw there (ground (arith, matches), ground (arith, matches))
]

module _ (hmac_sha1 : Buffer → Buffer → Buffer)
    (length-hmac : (key bytes : Buffer) → length (hmac_sha1 key bytes) ≡ 20) where
  abbrev pub request_bytes : IceAgent → CandidatePair → Buffer → Buffer → Buffer
  request_bytes a p txid password =
      message_bytes binding_request txid
        (sent_attrs hmac_sha1 (controlling_builder a p txid) password)

  abbrev pub answer_bytes : Buffer → RemoteInfo → Buffer → Buffer
  answer_bytes txid rinfo password =
      message_bytes binding_success txid (sent_attrs hmac_sha1 (answer_builder txid rinfo) password)

  send_check_lem :
      (random_bytes : ℕ → Buffer) (a : IceAgent) (i : ℕ) (p : CandidatePair) (password : Buffer)
      → a.role ≡ controlling
      → a.remote_pwd ≡ some password
      → IsBuildable (controlling_builder a p (random_bytes a.drawn))
      → send_check hmac_sha1 random_bytes i p a
        ≡ returned tt (registered i p (random_bytes a.drawn) (record a { drawn = a.drawn + 1 })) (
            sent p.local.transport (request_bytes a p (random_bytes a.drawn) password) p.remote
            ∷ [])
  unfolding send_check
  send_check_lem random_bytes a i p password r w b =
      let built =
        build_lem hmac_sha1 length-hmac (controlling_builder a p (random_bytes a.drawn)) password
          b in
      rw (r, w, built)

  answer-IsBuildable :
      (txid : Buffer) (rinfo : RemoteInfo)
      → length txid ≡ 12
      → IsBuildable (answer_builder txid rinfo)
  answer-IsBuildable txid rinfo h = record {
    type_fits = omega arith;
    id_is_whole = h;
    attrs_fit = ((omega arith, omega arith), tt);
    room = omega arith;
  }

  request_lem :
      (random_bytes : ℕ → Buffer) (a b : IceAgent) (p : CandidatePair) (txid : Buffer) (first : ℕ)
      (more : Buffer) (transport : ℕ) (rinfo : RemoteInfo) (known : RemoteCandidate)
      → IsBuildable (controlling_builder a p txid)
      → b.role ≡ controlled
      → b.local_pwd ≡ first ∷ more
      → b.selected ≡ none
      → find (same_address rinfo) b.remote_candidates ≡ some known
      → rinfo.port < 65536
      → let path = selectable transport rinfo (find (is_pair transport rinfo) b.pairs) in
        let o =
          on_datagram hmac_sha1 random_bytes transport
            (request_bytes a p txid (first ∷ more))
            rinfo
            b in
        (o.result ≡ ok tt)
        × (o.state.selected ≡ some path)
        × (o.events
            ≡ sent transport (answer_bytes txid rinfo (first ∷ more)) rinfo
              ∷ selected_pair path
              ∷ connected
              ∷ [])
  unfolding on_datagram on_stun on_parsed handle_binding_request check_authentic answer
      send_response learn nominate select stop_checks put has
  request_lem random_bytes a b p txid first more transport rinfo known w r l s k port =
      let parsed =
        parse-sent hmac_sha1 length-hmac (controlling_builder a p txid) (first ∷ more) w in
      let verified : verify_integrity hmac_sha1 (request_bytes a p txid (first ∷ more))
            (first ∷ more)
          ≡ ok true =
        verify_integrity-sent hmac_sha1 length-hmac (controlling_builder a p txid) first more
          (first ∷ more) w (omega arith, (omega arith, (omega arith, (omega arith, tt))))
        ∙ ap ok (bytes_equal_refl _) in
      let encoded = encode_xor_address_lem (dotted rinfo.address) rinfo.port port in
      let built =
        build_lem hmac_sha1 length-hmac (answer_builder txid rinfo) (first ∷ more)
          (answer-IsBuildable txid rinfo w.id_is_whole) in
      rw (parsed, l, verified, encoded, built, k, r, s) (refl, refl, refl)

  -- A check, where both ends know what the signaling tells them: the password of the controlled agent,
  -- and the address that the check comes from. The controlling agent sends one request for the pair;
  -- delivered, it has the controlled agent answer the address, select the pair of its transport and
  -- that address, and announce the connection; and the answer, delivered, has the controlling agent
  -- select the pair that it checked and announce the connection. Neither end throws. The conditions are
  -- that neither end has selected before, that the agent's names fit a message, that the random
  -- transaction id has its 12 bytes, and that the port is one.
  pub check_connects :
      (random_a random_b : ℕ → Buffer) (a b : IceAgent) (i : ℕ) (p : CandidatePair) (first : ℕ)
      (more : Buffer) (at_a at_b : ℕ) (from_a from_b : RemoteInfo) (known : RemoteCandidate)
      → IsBuildable (controlling_builder a p (random_a a.drawn))
      → a.role ≡ controlling
      → a.selected ≡ none
      → a.remote_pwd ≡ some (first ∷ more)
      → get_elem? a.pairs i ≡ some p
      → b.role ≡ controlled
      → b.local_pwd ≡ first ∷ more
      → b.selected ≡ none
      → find (same_address from_a) b.remote_candidates ≡ some known
      → from_a.port < 65536
      → (request response : Buffer) × (path : SelectedPair) × let asked =
            send_check hmac_sha1 random_a i p a in
          let answered = on_datagram hmac_sha1 random_b at_b request from_a b in
          let settled = on_datagram hmac_sha1 random_a at_a response from_b asked.state in
          (asked.result ≡ ok tt)
          × (asked.events ≡ sent p.local.transport request p.remote ∷ [])
          × (answered.result ≡ ok tt)
          × (answered.events ≡ sent at_b response from_a ∷ selected_pair path ∷ connected ∷ [])
          × (answered.state.selected ≡ some path)
          × (path.transport ≡ at_b)
          × (same_address path.remote from_a ≡ true)
          × (settled.result ≡ ok tt)
          × (settled.events ≡ selected_pair (path_of p) ∷ connected ∷ [])
          × (settled.state.selected ≡ some (path_of p))
  check_connects random_a random_b a b i p first more at_a at_b from_a from_b known w ra sa wa pa rb
        wb sb k port =
      let txid = random_a a.drawn in
      let asked = send_check_lem random_a a i p (first ∷ more) ra wa w in
      let (r, chosen, es) =
        request_lem random_b a b p txid first more at_b from_a known w rb wb sb k port in
      let waiting = registered i p txid (record a { drawn = a.drawn + 1 }) in
      let (r', chosen', es') =
        success_lem hmac_sha1 random_a at_a txid
          (sent_attrs hmac_sha1 (answer_builder txid from_a) (first ∷ more)) from_b waiting i
          (record p { pending_txid = some txid; state = in_progress }) w.id_is_whole
          (sent_attrs-Fits hmac_sha1 length-hmac (answer_builder txid from_a) (first ∷ more)
            (answer-IsBuildable txid from_a w.id_is_whole).attrs_fit)
          ra sa (get-put txid i _) (get_elem?-set_self a.pairs i _ (within a.pairs i p pa)) in
      let (over, towards) = selectable-find at_b from_a b.pairs in
      (
        request_bytes a p txid (first ∷ more),
        answer_bytes txid from_a (first ∷ more),
        selectable at_b from_a (find (is_pair at_b from_a) b.pairs),
        (
          rw asked refl,
          rw asked refl,
          r,
          es,
          chosen,
          over,
          towards,
          rw asked r',
          rw asked es',
          rw asked chosen',
        ),
      )
