-- ===== src/PeerConnection/Signaling.antt =====
-- src/peerconnection/RTCPeerConnection.ts: offers, answers and descriptions.
use node_rtc_connection.Prelude.{
  Bool, true, false, Option, none, some, List, [], ◌∷◌, ◌++◌, if◌then◌else◌, ◌==◌, length,
  state_error,
}
use node_rtc_connection.Buffer.{Buffer}
use node_rtc_connection.Buffer.Equality.{bytes_equal}
use node_rtc_connection.Effects.{◌>>=◌, ◌>>◌, skip, self, modify, emit, throw, pure}
use node_rtc_connection.Ice.Agent.{RemoteInfo}
use node_rtc_connection.PeerConnection.{
  SdpType, offer, answer, Description, Fingerprint, Setup, active, passive, actpass, IceParameters,
  SdpUtils, SignalingState, stable, have_local_offer, have_remote_offer, gathering, complete,
  IceRole, controlling, controlled, DtlsRole, client, server, Certificate, Stack, Method,
  check_open, gathering_state_change, signaling_state_change, gather_called, end_of_candidates,
}

-- `if (!this.#certificate) …`, where `generated` is what `generateCertificate` resolved to.
abbrev pub or_else : {A : Type 0} → Option A → Option A → Option A
or_else (some x) y = some x
or_else none y = y

-- `#ensureCertificate`, once its promise has resolved.
abbrev pub ensure_certificate : Certificate → Method (Unit {0})
ensure_certificate generated =
    modify (λ p. record p {
      certificate = or_else p.certificate (or_else p.configured (some generated));
    })

-- The characters of "sha-256".
abbrev pub sha_256 : Buffer
sha_256 = 115 ∷ 104 ∷ 97 ∷ 45 ∷ 50 ∷ 53 ∷ 54 ∷ []

unfoldable pub find_sha_256 : List Fingerprint → Option Fingerprint
find_sha_256 [] = none
find_sha_256 (f ∷ fs) = if bytes_equal f.algorithm sha_256 then some f else find_sha_256 fs

abbrev pub first_of : List Fingerprint → Option Fingerprint
first_of [] = none
first_of (f ∷ fs) = some f

unfoldable pub pick_fingerprint : Option Certificate → Method (Option Fingerprint)
pick_fingerprint none = throw state_error
pick_fingerprint (some c) = pure (or_else (find_sha_256 c.fingerprints) (first_of c.fingerprints))

-- "the side that ends up 'active' is the DTLS client".
abbrev pub offerer_role : Option Setup → DtlsRole
offerer_role (some active) = server
offerer_role (some passive) = client
offerer_role _ = server

abbrev pub ice_role_of : Bool → IceRole
ice_role_of true = controlling
ice_role_of false = controlled

abbrev pub dtls_role_of : Bool → Option Setup → DtlsRole
dtls_role_of true remote_setup = offerer_role remote_setup
dtls_role_of false remote_setup = client

-- `#createStack`, where there is none yet.
unfoldable pub stack_with : Option Certificate → IceRole → DtlsRole → Method (Unit {0})
stack_with none ice_role dtls_role = throw state_error
stack_with (some c) ice_role dtls_role =
    if c.has_der
    then modify (λ p. record p {
      stack = some (record {
        ice_role = ice_role;
        dtls_role = dtls_role;
        remote = none;
        candidates = [];
        ready = false;
      });
    })
    else throw state_error

unfoldable pub roles_and_stack : Option Stack → Method (Unit {0})
roles_and_stack (some s) = skip
roles_and_stack none = do
  peer ← self
  stack_with peer.certificate (ice_role_of peer.is_offerer)
      (dtls_role_of peer.is_offerer peer.remote_setup)

unfoldable pub setup_roles_and_stack : Method (Unit {0})
setup_roles_and_stack = do peer ← self; roles_and_stack peer.stack

abbrev pub or_empty : Option Buffer → Buffer
or_empty none = []
or_empty (some b) = b

abbrev pub told : Buffer → Buffer → Stack → Stack
told ufrag pwd s = record s { remote = some (ufrag, pwd) }

-- `if (this.#stack && this.#remoteIce && …usernameFragment) this.#stack.setRemote(…)`.
abbrev pub told_stack : Option Buffer → Option Buffer → Option Stack → Option Stack
told_stack (some (c ∷ cs)) pwd (some s) = some (told (c ∷ cs) (or_empty pwd) s)
told_stack _ pwd stack = stack

abbrev pub with_remote : Option Stack → Option IceParameters → Option Stack
with_remote stack none = stack
with_remote stack (some ice) = told_stack ice.username_fragment ice.password stack

unfoldable pub maybe_start_checks : Method (Unit {0})
maybe_start_checks = modify (λ p. record p { stack = with_remote p.stack p.remote_ice })

abbrev pub signaling_after_local : SdpType → SignalingState → SignalingState
signaling_after_local offer s = have_local_offer
signaling_after_local answer s = stable
signaling_after_local _ s = s

abbrev pub signaling_after_remote : SdpType → SignalingState → SignalingState
signaling_after_remote offer s = have_remote_offer
signaling_after_remote answer s = stable
signaling_after_remote _ s = s

abbrev pub is_offer_type : SdpType → Bool
is_offer_type offer = true
is_offer_type _ = false

abbrev pub is_offer : Option Description → Bool
is_offer none = false
is_offer (some d) = is_offer_type d.type

-- What `setLocalDescription` awaits first: nothing but the certificate, or a description of its own.
pub data LocalPlan : Type 0 where
  given : Description → LocalPlan
  by_answer by_offer : LocalPlan

module _ (sdp : SdpUtils) where
  -- `createOffer` up to its await, and behind it.
  abbrev pub create_offer : Method (Unit {0})
  create_offer = check_open

  unfoldable pub offer_created : Certificate → Method Description
  offer_created generated = do
    ensure_certificate generated
    modify (λ p. record p { is_offerer = true })
    peer ← self
    fp ← pick_fingerprint peer.certificate
    pure (record {
      type = offer;
      sdp = sdp.generate_offer (record {
        ice_ufrag = peer.local_ufrag;
        ice_pwd = peer.local_pwd;
        fingerprint = fp;
        setup = actpass;
      });
    })

  -- `createAnswer` likewise.
  unfoldable pub create_answer : Method (Unit {0})
  create_answer = do
    check_open
    peer ← self
    if is_offer peer.remote_description then skip else throw state_error

  unfoldable pub answer_created : Certificate → Method Description
  answer_created generated = do
    ensure_certificate generated
    peer ← self
    fp ← pick_fingerprint peer.certificate
    pure (record {
      type = answer;
      sdp = sdp.generate_answer (record {
        ice_ufrag = peer.local_ufrag;
        ice_pwd = peer.local_pwd;
        fingerprint = fp;
        setup = active;
      });
    })

  abbrev pub local_plan : SignalingState → Option Description → Method LocalPlan
  local_plan state (some d) = pure (given d)
  local_plan have_remote_offer none = create_answer >>= λ _. pure by_answer
  local_plan _ none = create_offer >>= λ _. pure by_offer

  -- `setLocalDescription` up to its first await.
  unfoldable pub set_local_description : Option Description → Method LocalPlan
  set_local_description description = do
    check_open
    peer ← self
    local_plan peer.signaling description

  -- From the certificate on, up to the await of `gather`.
  unfoldable pub local_description_ready : Description → Certificate → Method (Unit {0})
  local_description_ready desc generated = do
    ensure_certificate generated
    modify (λ p. record p {
      local_description = some desc;
      signaling = signaling_after_local desc.type p.signaling;
    })
    setup_roles_and_stack
    modify (λ p. record p { gathering_state = gathering })
    emit gathering_state_change
    emit gather_called

  -- Behind the await of `gather`.
  unfoldable pub gathered : Method (Unit {0})
  gathered = do
    modify (λ p. record p { gathering_state = complete })
    emit gathering_state_change
    emit end_of_candidates
    maybe_start_checks
    emit signaling_state_change

  -- `setRemoteDescription` up to its await.
  unfoldable pub set_remote_description : Description → Method (Unit {0})
  set_remote_description description = do
    check_open
    if length description.sdp == 0 then throw state_error else skip

  abbrev pub with_candidates :
      List RemoteInfo → Option Buffer → Option Buffer → Option Stack → Option Stack
  with_candidates cs (some (c ∷ u)) pwd (some s) =
      some (record s { remote = some (c ∷ u, or_empty pwd); candidates = s.candidates ++ cs })
  with_candidates cs _ pwd stack = stack

  -- "Apply remote credentials + any in-SDP candidates, then start checks."
  unfoldable pub remote_applied : Description → IceParameters → Method (Unit {0})
  remote_applied description ice = do
    modify (λ p. record p {
      stack =
          with_candidates (sdp.parse_candidates description.sdp) ice.username_fragment ice.password
            p.stack;
    })
    maybe_start_checks
    emit signaling_state_change

  -- Behind it.
  unfoldable pub remote_description_ready : Description → Certificate → Method (Unit {0})
  remote_description_ready description generated = do
    ensure_certificate generated
    let ice = sdp.parse_ice_parameters description.sdp
    let dtls = sdp.parse_dtls_parameters description.sdp
    modify (λ p. record p {
      remote_description = some description;
      signaling = signaling_after_remote description.type p.signaling;
      remote_ice = some ice;
      remote_fingerprints = dtls.fingerprints;
      remote_setup = dtls.setup;
    })
    setup_roles_and_stack
    remote_applied description ice
