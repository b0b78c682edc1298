-- ===== src/Ice/Agent/Selection.antt =====
-- The selection of a pair: it is made once, announced once, and never changed.
use node_rtc_connection.Prelude.{
  ℕ, zero, suc, ◌+◌, ◌≡◌, inl, inr, Option-cases, refl, sym, ap, ◌∙◌, ◌&&◌, ◌||◌, not, Option, none,
  some, List, [], ◌∷◌, ◌++◌, arith, leb, ltb, ◌==◌, if◌then◌else◌, length, get_elem?, Result,
}
use node_rtc_connection.Buffer.{Buffer}
use node_rtc_connection.Map.{get, has, nat_eq}
use node_rtc_connection.Buffer.Equality.{buffer_eq}
use node_rtc_connection.Effects.{
  and_then, ◌>>=◌, ◌>>◌, skip, modify, emit, lift, Relates, and_then-Relates, if-Relates,
}
use node_rtc_connection.Ice.StunMessage.{
  build, use_candidate, ParsedStunMessage, binding_request, binding_success,
}
use node_rtc_connection.Ice.Agent.{
  IceAgent, Method, AgentEvent, SelectedPair, CandidatePair, RemoteInfo, connected, sent, closed,
  transport_closed, find, same_address, is_controlled, ends_with_local, some_of, is_succeeded,
  truthy,
}
use node_rtc_connection.Ice.Agent.Checks.{
  select, path_of, stop_checks, send_check, registered, check_at, checks_from, tick, start_checks,
  check_timeout, start, add_remote_candidate,
}
use node_rtc_connection.Ice.Agent.Handlers.{
  learn, nominate, answer, mark_succeeded, send_response, check_authentic, handle_binding_request,
  succeed, select_at, handle_binding_success, on_parsed, on_stun, on_datagram, send_on, send,
  close_transports, close,
}

-- How many times `connected` is among events.
abbrev pub announcement : AgentEvent → ℕ
announcement connected = 1
announcement _ = 0

unfoldable pub connections : List AgentEvent → ℕ
connections [] = 0
connections (e ∷ es) = announcement e + connections es

-- 1 until a pair is selected, then 0.
abbrev pub unselected : IceAgent → ℕ
unselected a = if some_of a.selected then 0 else 1

pub record Announces (s : IceAgent) (es : List AgentEvent) (t : IceAgent) : Type 0 where
  pub count : connections es + unselected t ≡ unselected s
  pub stays : (p : SelectedPair) → s.selected ≡ some p → t.selected ≡ some p

connections-append :
    (es fs : List AgentEvent) → connections (es ++ fs) ≡ connections es + connections fs
unfolding connections
connections-append [] fs = omega arith
connections-append (e ∷ es) fs = omega (arith, connections-append es fs)

pub chain :
    (s t u : IceAgent) (es fs : List AgentEvent)
    → Announces s es t
    → Announces t fs u
    → Announces s (es ++ fs) u
chain s t u es fs a b = record {
  count = omega (arith, a.count, b.count, connections-append es fs);
  stays = λ p e. b.stays p (a.stays p e);
}

abbrev Steady : {A : Type 0} → Method A → Type 0
Steady m = Relates Announces m

pub next :
    {A B : Type 0} (r : Result A) (s t : IceAgent) (es : List AgentEvent) (f : A → Method B)
    → Announces s es t
    → ((x : A) → Announces t (f x t).events (f x t).state)
    → Announces s (and_then r t es f).events (and_then r t es f).state
next r s t es f p k = and_then-Relates Announces chain r s t es f p k

-- Parts that leave the selection alone.
pub keeps : (s t : IceAgent) → t.selected ≡ s.selected → Announces s [] t
unfolding connections
keeps s t h =
    let same : unselected t ≡ unselected s =
      ap (λ (o : Option SelectedPair). if some_of o then zero else suc zero) h in
    record { count = omega (arith, same); stays = λ p k. h ∙ k }

pub silent : (s : IceAgent) (e : AgentEvent) → announcement e ≡ 0 → Announces s (e ∷ []) s
unfolding connections
silent s e h = record { count = omega (arith, h); stays = λ p k. k }

pub silent_at :
    (s t : IceAgent) (e : AgentEvent)
    → t.selected ≡ s.selected
    → announcement e ≡ 0
    → Announces s (e ∷ []) t
silent_at s t e h k = chain s t t [] (e ∷ []) (keeps s t h) (silent t e k)

select-Steady : (pair : SelectedPair) → Steady (select pair)
unfolding select stop_checks connections
select-Steady pair s = elim (Option-cases s.selected) [
  | inl nothing ↦ record { count = rw nothing refl; stays = λ p e. absurd (cc (nothing, e)) }
  | inr (p, there) ↦ record { count = rw there refl; stays = λ q e. rw there (sym there ∙ e) }
]

select_at-Steady : (pair : Option CandidatePair) → Steady (select_at pair)
select_at-Steady none s = keeps s s refl
select_at-Steady (some p) s = select-Steady (path_of p) s

module _ (hmac_sha1 : Buffer → Buffer → Buffer) (random_bytes : ℕ → Buffer) where
  send_check-Steady :
      (i : ℕ) (pair : CandidatePair) → Steady (send_check hmac_sha1 random_bytes i pair)
  unfolding send_check
  send_check-Steady i pair s =
      next _ s _ _
        (λ msg.
          modify (registered i pair (random_bytes s.drawn))
          >> emit (sent pair.local.transport msg pair.remote))
        (keeps s _ refl) (λ msg. silent_at _ _ _ refl refl)

  check_at-Steady :
      (i : ℕ) (pair : Option CandidatePair) → Steady (check_at hmac_sha1 random_bytes i pair)
  unfolding check_at
  check_at-Steady i none s = keeps s s refl
  check_at-Steady i (some pair) s =
      if-Relates Announces chain (is_succeeded pair.state) _ _ s (keeps s s refl)
        (send_check-Steady i pair s)

  checks_from-Steady : (left i : ℕ) → Steady (checks_from hmac_sha1 random_bytes left i)
  unfolding checks_from
  checks_from-Steady zero i s = keeps s s refl
  checks_from-Steady (suc left) i s =
      next _ s _ _ _ (check_at-Steady i _ s) (λ x. checks_from-Steady left (i + 1) _)

  pub tick-Steady : Steady (tick hmac_sha1 random_bytes)
  unfolding tick
  tick-Steady s =
      if-Relates Announces chain s.is_closed _ _ s (keeps s s refl)
        (checks_from-Steady (length s.pairs) 0 s)

  start_checks-Steady : Steady (start_checks hmac_sha1 random_bytes)
  unfolding start_checks
  start_checks-Steady s =
      if-Relates Announces chain (s.check_timer || s.is_closed) _ _ s (keeps s s refl)
        (chain s _ _ [] _ (keeps s _ refl) (tick-Steady _))

  pub check_timeout-Steady : Steady (check_timeout hmac_sha1 random_bytes)
  unfolding check_timeout stop_checks
  check_timeout-Steady s =
      next _ s _ _ (λ x. stop_checks)
        (if-Relates Announces chain s.is_connected _ _ s (keeps s s refl) (silent s _ refl))
        (λ x. keeps _ _ refl)

  pub start-Steady : Steady (start hmac_sha1 random_bytes)
  unfolding start
  start-Steady s =
      if-Relates Announces chain (truthy s.remote_pwd && ltb 0 (length s.remote_candidates)) _ _ s
        (start_checks-Steady s) (keeps s s refl)

  pub add_remote_candidate-Steady :
      (cand : RemoteInfo) → Steady (add_remote_candidate hmac_sha1 random_bytes cand)
  unfolding add_remote_candidate
  add_remote_candidate-Steady cand s =
      if-Relates Announces chain
        ((length cand.address == 0) || ((cand.port == 0) || ends_with_local cand.address)) _ _ s
        (keeps s s refl)
        (chain s _ _ [] _ (keeps s _ refl) (
          if-Relates Announces chain (not s.check_timer && truthy s.remote_pwd) _ _ _
            (start_checks-Steady _) (keeps _ _ refl)))

  send_response-Steady :
      (transport : ℕ) (parsed : ParsedStunMessage) (rinfo : RemoteInfo)
      → Steady (send_response hmac_sha1 random_bytes transport parsed rinfo)
  unfolding send_response
  send_response-Steady transport parsed rinfo s =
      next _ s s []
        (λ b. lift (build hmac_sha1 b s.local_pwd) >>= λ resp. emit (sent transport resp rinfo))
        (keeps s s refl)
        (λ b.
          next _ s s [] (λ resp. emit (sent transport resp rinfo)) (keeps s s refl)
            (λ r. silent s _ refl))

  check_authentic-Steady :
      (parsed : ParsedStunMessage) (password : Buffer)
      → Steady (check_authentic hmac_sha1 random_bytes parsed password)
  unfolding check_authentic
  check_authentic-Steady parsed [] s = keeps s s refl
  check_authentic-Steady parsed (c ∷ cs) s = keeps s s refl

  learn-Steady : (rinfo : RemoteInfo) → Steady (learn hmac_sha1 random_bytes rinfo)
  unfolding learn
  learn-Steady rinfo s =
      if-Relates Announces chain (some_of (find (same_address rinfo) s.remote_candidates)) _ _ s
        (keeps s s refl) (add_remote_candidate-Steady rinfo s)

  nominate-Steady :
      (transport : ℕ) (parsed : ParsedStunMessage) (rinfo : RemoteInfo)
      → Steady (nominate hmac_sha1 random_bytes transport parsed rinfo)
  unfolding nominate
  nominate-Steady transport parsed rinfo s =
      if-Relates Announces chain (has use_candidate parsed.attrs && is_controlled s.role) _ _ s
        (select-Steady _ s) (keeps s s refl)

  answer-Steady :
      (transport : ℕ) (parsed : ParsedStunMessage) (rinfo : RemoteInfo)
      → Steady (answer hmac_sha1 random_bytes transport parsed rinfo)
  unfolding answer
  answer-Steady transport parsed rinfo s =
      next _ s _ _
        (λ x.
          learn hmac_sha1 random_bytes rinfo
          >> nominate hmac_sha1 random_bytes transport parsed rinfo)
        (send_response-Steady transport parsed rinfo s)
        (λ x.
          next _ _ _ _ (λ y. nominate hmac_sha1 random_bytes transport parsed rinfo)
            (learn-Steady rinfo _) (λ y. nominate-Steady transport parsed rinfo _))

  handle_binding_request-Steady :
      (transport : ℕ) (parsed : ParsedStunMessage) (rinfo : RemoteInfo)
      → Steady (handle_binding_request hmac_sha1 random_bytes transport parsed rinfo)
  unfolding handle_binding_request
  handle_binding_request-Steady transport parsed rinfo s =
      next _ s _ _
        (λ authentic.
          if authentic then answer hmac_sha1 random_bytes transport parsed rinfo else skip)
        (check_authentic-Steady parsed s.local_pwd s)
        (λ authentic.
          if-Relates Announces chain authentic _ _ _ (answer-Steady transport parsed rinfo _)
            (keeps _ _ refl))

  succeed-Steady : (txid : Buffer) (o : Option ℕ) → Steady (succeed txid o)
  unfolding succeed
  succeed-Steady txid none s = keeps s s refl
  succeed-Steady txid (some i) s = chain s _ _ [] _ (keeps s _ refl) (
      if-Relates Announces chain (is_controlled s.role) _ _ _ (keeps _ _ refl)
        (select_at-Steady (get_elem? (mark_succeeded i s.pairs) i) _))

  on_parsed-Steady :
      (transport : ℕ) (rinfo : RemoteInfo) (o : Option ParsedStunMessage)
      → Steady (on_parsed hmac_sha1 random_bytes transport rinfo o)
  unfolding on_parsed handle_binding_success
  on_parsed-Steady transport rinfo none s = keeps s s refl
  on_parsed-Steady transport rinfo (some parsed) s =
      if-Relates Announces chain (parsed.type == binding_request) _ _ s
        (handle_binding_request-Steady transport parsed rinfo s)
        (if-Relates Announces chain (parsed.type == binding_success) _ _ s
          (succeed-Steady parsed.transaction_id (get parsed.transaction_id s.pending_checks) s)
          (keeps s s refl))

  pub on_datagram-Steady :
      (transport : ℕ) (msg : Buffer) (rinfo : RemoteInfo)
      → Steady (on_datagram hmac_sha1 random_bytes transport msg rinfo)
  unfolding on_datagram on_stun
  on_datagram-Steady transport [] rinfo s = keeps s s refl
  on_datagram-Steady transport (b0 ∷ rest) rinfo s =
      if-Relates Announces chain (leb b0 3) _ _ s
        (next _ s s [] (on_parsed hmac_sha1 random_bytes transport rinfo) (keeps s s refl)
          (λ o. on_parsed-Steady transport rinfo o s))
        (silent s _ refl)

pub send-Steady : (bytes : Buffer) → Steady (send bytes)
unfolding send send_on
send-Steady bytes s = go s.selected
  where
    go :
        (o : Option SelectedPair) → Announces s (send_on bytes o s).events (send_on bytes o s).state
    go none = keeps s s refl
    go (some path) = silent s _ refl

close_transports-Steady : (ts : List ℕ) → Steady (close_transports ts)
unfolding close_transports
close_transports-Steady [] s = keeps s s refl
close_transports-Steady (t ∷ ts) s =
    chain s s _ (transport_closed t ∷ []) _ (silent s _ refl) (close_transports-Steady ts s)

pub close-Steady : Steady close
unfolding close stop_checks
close-Steady s = if-Relates Announces chain s.is_closed _ _ s (keeps s s refl) (
    chain s _ _ [] _ (keeps s _ refl) (
      next _ _ _ _ (λ x. modify (λ a. record a { transports = [] }) >> emit closed)
        (close_transports-Steady s.transports _) (λ x. silent_at _ _ _ refl refl)))
