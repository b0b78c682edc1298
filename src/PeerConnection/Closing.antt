-- ===== src/PeerConnection/Closing.antt =====
-- What a `close` between the parts of an async method leads to.
use node_rtc_connection.Prelude.{
  ℕ, ◌==◌, length, arith, ◌≡◌, map, Bool-cases, inl, inr, state_error, refl, ◌∙◌, true, false,
  Option, none, some, List, [], ◌∷◌, ◌++◌, ok,
}
use node_rtc_connection.Buffer.{Buffer}
use node_rtc_connection.Effects.{returned, throw}
use node_rtc_connection.Ice.Agent.{RemoteInfo}
use node_rtc_connection.PeerConnection.{
  SdpUtils, Certificate, Description, same_state, PeerEvent, channel_closed, stack_closed, offer,
  Peer, Stack, have_remote_offer, signaling_closed, check_open, set_connection_state, closed,
}
use node_rtc_connection.PeerConnection.Signaling.{
  create_offer, create_answer, set_local_description, set_remote_description,
  remote_description_ready, setup_roles_and_stack, roles_and_stack, stack_with, maybe_start_checks,
  ice_role_of, dtls_role_of, remote_applied, told_stack, told, or_empty, with_candidates,
}
use node_rtc_connection.PeerConnection.Transport.{
  ChannelOptions, create_data_channel, add_ice_candidate, set_configuration, close, close_all,
  close_stack,
}
use node_rtc_connection.PeerConnection.Exchange.{certificate_of}

close_all_lem :
    (channels : List ℕ) (p : Peer)
    → close_all channels p ≡ returned tt p (map channel_closed channels)
unfolding close_all
close_all_lem [] p = refl
close_all_lem (c ∷ cs) p = rw (close_all_lem cs p)

stack_events : Option Stack → List PeerEvent
stack_events none = []
stack_events (some s) = stack_closed ∷ []

close_stack_lem : (s : Option Stack) (p : Peer) → close_stack s p ≡ returned tt p (stack_events s)
unfolding stack_events
close_stack_lem none p = refl
close_stack_lem (some s) p = refl

-- The fields of a connection that `close` leaves.
close_state_lem :
    (p : Peer)
    → p.is_closed ≡ false
    → let q = (close p).state in
      (q.is_closed ≡ true)
      × (q.stack ≡ none)
      × (q.certificate ≡ p.certificate)
      × (q.configured ≡ p.configured)
      × (q.signaling ≡ signaling_closed)
      × (q.channels ≡ [])
      × (q.pending_channels ≡ [])
unfolding close set_connection_state
close_state_lem p h = elim (Bool-cases (same_state p.connection closed)) [
  | inl e ↦ rw (h, close_all_lem, close_stack_lem, e) (refl, refl, refl, refl, refl, refl, refl)
  | inr e ↦ rw (h, close_all_lem, close_stack_lem, e) (refl, refl, refl, refl, refl, refl, refl)
]

-- Every method that asks whether the connection is closed, on one that is.
refused :
    (sdp : SdpUtils) (p : Peer) (channel : ℕ) (options : ChannelOptions) (d : Description)
    (o : Option Description) (line : Buffer) (configured : Option Certificate)
    → p.is_closed ≡ true
    → (create_data_channel channel options p ≡ throw state_error p)
      × (create_offer sdp p ≡ throw state_error p)
      × (create_answer sdp p ≡ throw state_error p)
      × (set_local_description sdp o p ≡ throw state_error p)
      × (set_remote_description sdp d p ≡ throw state_error p)
      × (add_ice_candidate sdp line p ≡ throw state_error p)
      × (set_configuration configured p ≡ throw state_error p)
      × (close p ≡ returned tt p [])
unfolding create_data_channel create_answer set_local_description set_remote_description
    add_ice_candidate set_configuration close check_open
refused sdp p channel options d o line configured h =
    rw h (refl, refl, refl, refl, refl, refl, refl, refl)

-- What `close` makes of an open connection: it has no stack, no channels and none that are pending, its
-- signaling state is "closed", and from then on createDataChannel, createOffer, createAnswer,
-- setLocalDescription, setRemoteDescription, addIceCandidate and setConfiguration throw, and change and
-- emit nothing, while a second `close` does nothing.
pub closed_lem :
    (sdp : SdpUtils) (p : Peer) (channel : ℕ) (options : ChannelOptions) (d : Description)
    (o : Option Description) (line : Buffer) (configured : Option Certificate)
    → p.is_closed ≡ false
    → let q = (close p).state in
      (q.stack ≡ none)
      × (q.channels ≡ [])
      × (q.pending_channels ≡ [])
      × (q.signaling ≡ signaling_closed)
      × (create_data_channel channel options q ≡ throw state_error q)
      × (create_offer sdp q ≡ throw state_error q)
      × (create_answer sdp q ≡ throw state_error q)
      × (set_local_description sdp o q ≡ throw state_error q)
      × (set_remote_description sdp d q ≡ throw state_error q)
      × (add_ice_candidate sdp line q ≡ throw state_error q)
      × (set_configuration configured q ≡ throw state_error q)
      × (close q ≡ returned tt q [])
closed_lem sdp p channel options d o line configured h =
    let (shut, gone, _, _, over, empty, unopened) = close_state_lem p h in
    let (a, b, c, e, f, g, i, j) =
      refused sdp (close p).state channel options d o line configured shut in
    (gone, empty, unopened, over, a, b, c, e, f, g, i, j)

still_told :
    (ufrag pwd : Option Buffer) (s : Stack) → (t : Stack) × (told_stack ufrag pwd (some s) ≡ some t)
still_told none pwd s = (s, refl)
still_told (some []) pwd s = (s, refl)
still_told (some (c ∷ cs)) pwd s = (told (c ∷ cs) (or_empty pwd) s, refl)

module _ (sdp : SdpUtils) where
  still_there :
      (cs : List RemoteInfo) (ufrag pwd : Option Buffer) (s : Stack)
      → (t : Stack) × (with_candidates sdp cs ufrag pwd (some s) ≡ some t)
  still_there cs none pwd s = (s, refl)
  still_there cs (some []) pwd s = (s, refl)
  still_there cs (some (c ∷ u)) pwd s =
      (record s { remote = some (c ∷ u, or_empty pwd); candidates = s.candidates ++ cs }, refl)

  -- An offer that is applied where there is no stack.
  applied_lem :
      (q : Peer) (d : Description) (generated c : Certificate)
      → d.type ≡ offer
      → q.stack ≡ none
      → certificate_of q generated ≡ some c
      → c.has_der ≡ true
      → let r = (remote_description_ready sdp d generated q).state in
        (r.is_closed ≡ q.is_closed)
        × (r.signaling ≡ have_remote_offer)
        × ((s : Stack) × (r.stack ≡ some s))
  unfolding remote_description_ready remote_applied setup_roles_and_stack roles_and_stack stack_with
      maybe_start_checks
  applied_lem q d generated c t n e k =
      let ice = sdp.parse_ice_parameters d.sdp in
      let fresh : Stack = record {
        ice_role = ice_role_of q.is_offerer;
        dtls_role = dtls_role_of q.is_offerer (sdp.parse_dtls_parameters d.sdp).setup;
        remote = none;
        candidates = [];
        ready = false;
      } in
      let (s, there) =
        still_there (sdp.parse_candidates d.sdp) ice.username_fragment ice.password fresh in
      let (s', there') = still_told ice.username_fragment ice.password s in
      rw (n, e, k, t, there, there') (refl, refl, (s', refl))

  -- `close` while `setRemoteDescription` of an offer awaits the certificate does not stop it: the
  -- connection is closed and has no stack, and when the promise resolves it creates a stack all the
  -- same and leaves the state "closed" for "have-remote-offer".
  pub closed_meanwhile_lem :
      (p : Peer) (d : Description) (generated c : Certificate) (first : ℕ) (more : Buffer)
      → p.is_closed ≡ false
      → d.type ≡ offer
      → d.sdp ≡ first ∷ more
      → certificate_of p generated ≡ some c
      → c.has_der ≡ true
      → let begun = set_remote_description sdp d p in
        let q = (close begun.state).state in
        let r = remote_description_ready sdp d generated q in
        (begun.result ≡ ok tt)
        × (q.signaling ≡ signaling_closed)
        × (q.stack ≡ none)
        × (r.state.is_closed ≡ true)
        × (r.state.signaling ≡ have_remote_offer)
        × ((s : Stack) × (r.state.stack ≡ some s))
  unfolding set_remote_description check_open
  closed_meanwhile_lem p d generated c first more h t l e k =
      let (shut, gone, same_certificate, same_configured, over, _, _) = close_state_lem p h in
      let begun : set_remote_description sdp d p ≡ returned tt p [] =
        let text : (length (first ∷ more) == 0) ≡ false = ground arith in rw (h, l, text) in
      let kept : certificate_of (close p).state generated ≡ some c =
        rw (same_certificate, same_configured) e in
      let (still, state, stack) = applied_lem (close p).state d generated c t gone kept k in
      rw begun (refl, over, gone, still ∙ shut, state, stack)
