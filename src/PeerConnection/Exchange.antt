-- ===== src/PeerConnection/Exchange.antt =====
-- An offer and its answer between two connections.
use node_rtc_connection.Prelude.{ℕ, ◌≡◌, refl, true, false, Option, none, some, [], ◌∷◌, ok}
use node_rtc_connection.Buffer.{Buffer}
use node_rtc_connection.Sdp.{sdp_utils, build_sdp}
use node_rtc_connection.Sdp.RoundTrip.{
  IsPlain, parse_ice_parameters-build_sdp, parse_candidates-build_sdp,
}
use node_rtc_connection.PeerConnection.{
  SdpOptions, Setup, actpass, active, Certificate, Description, offer, answer, Peer, stable,
  controlling, controlled, client, server, Fingerprint,
}
use node_rtc_connection.PeerConnection.Signaling.{
  or_else, find_sha_256, first_of, pick_fingerprint, offer_created, answer_created,
  local_description_ready, gathered, remote_applied, remote_description_ready,
  setup_roles_and_stack, roles_and_stack, stack_with, maybe_start_checks,
}

-- The certificate that a connection has once `#ensureCertificate` has resolved.
abbrev pub certificate_of : Peer → Certificate → Option Certificate
certificate_of p generated = or_else p.certificate (or_else p.configured (some generated))

abbrev pub fingerprint_of : Certificate → Option Fingerprint
fingerprint_of c = or_else (find_sha_256 c.fingerprints) (first_of c.fingerprints)

abbrev pub options_of : Peer → Certificate → Setup → SdpOptions
options_of p c setup = record {
  ice_ufrag = p.local_ufrag;
  ice_pwd = p.local_pwd;
  fingerprint = fingerprint_of c;
  setup = setup;
}

-- `session_id` is the number that the call draws.
abbrev pub offer_of : ℕ → Peer → Certificate → Description
offer_of session_id p c = record {
  type = offer;
  sdp = build_sdp session_id (options_of p c actpass);
}

abbrev pub answer_of : ℕ → Peer → Certificate → Description
answer_of session_id p c = record {
  type = answer;
  sdp = build_sdp session_id (options_of p c active);
}

-- The offer, from one side to the other and back, over the text of the descriptions. Then both are
-- stable; the stack of the one that offered controls ICE and is the server of DTLS, that of the other
-- is controlled and is the client, and each has been told the other's ICE credentials and no candidates.
-- The conditions: each side has a certificate with its DER bytes, or gets one; ICE user names and
-- passwords have no white space, the user names are not empty, and the fingerprints have no line
-- breaks; neither side has a stack, the one that answers has not offered, and the one that offers has
-- no remote ICE parameters or setup yet. Nothing else happens to the two connections in between.
pub exchange_lem :
    (a b : Peer) (generated_a generated_b ca cb : Certificate) (fa fb : ℕ) (ua ub : Buffer)
    (drawn_a drawn_b : ℕ)
    → certificate_of a generated_a ≡ some ca
    → certificate_of b generated_b ≡ some cb
    → ca.has_der ≡ true
    → cb.has_der ≡ true
    → IsPlain (options_of a ca actpass)
    → IsPlain (options_of b cb active)
    → a.stack ≡ none
    → b.stack ≡ none
    → b.is_offerer ≡ false
    → a.remote_setup ≡ none
    → a.remote_ice ≡ none
    → a.local_ufrag ≡ fa ∷ ua
    → b.local_ufrag ≡ fb ∷ ub
    → let sdp_a = sdp_utils drawn_a in
      let sdp_b = sdp_utils drawn_b in
      let offered = offer_of drawn_a a ca in
      let answered = answer_of drawn_b b cb in
      let a1 = (offer_created sdp_a generated_a a).state in
      let a2 =
        (gathered sdp_a (local_description_ready sdp_a offered generated_a a1).state).state in
      let b1 = (remote_description_ready sdp_b offered generated_b b).state in
      let b2 = (answer_created sdp_b generated_b b1).state in
      let b3 =
        (gathered sdp_b (local_description_ready sdp_b answered generated_b b2).state).state in
      let a3 = (remote_description_ready sdp_a answered generated_a a2).state in
      ((offer_created sdp_a generated_a a).result ≡ ok offered)
      × ((answer_created sdp_b generated_b b1).result ≡ ok answered)
      × (a3.signaling ≡ stable)
      × (b3.signaling ≡ stable)
      × (a3.stack
          ≡ some (record {
            ice_role = controlling;
            dtls_role = server;
            remote = some (b.local_ufrag, b.local_pwd);
            candidates = [];
            ready = false;
          }))
      × (b3.stack
          ≡ some (record {
            ice_role = controlled;
            dtls_role = client;
            remote = some (a.local_ufrag, a.local_pwd);
            candidates = [];
            ready = false;
          }))
unfolding local_description_ready gathered remote_description_ready remote_applied
    setup_roles_and_stack roles_and_stack stack_with maybe_start_checks answer_created offer_created
    pick_fingerprint
exchange_lem a b ga gb ca cb fa fb ua ub na nb ea eb da db wa wb sa sb ob ra ia la lb =
    let offered = record (options_of a ca actpass) { ice_ufrag = fa ∷ ua } in
    let answered = record (options_of b cb active) { ice_ufrag = fb ∷ ub } in
    let plain_a : IsPlain offered = record {
      ufrag = rw la at wa.ufrag;
      pwd = wa.pwd;
      print = wa.print;
    } in
    let plain_b : IsPlain answered = record {
      ufrag = rw lb at wb.ufrag;
      pwd = wb.pwd;
      print = wb.print;
    } in
    rw
      (
        ea,
        eb,
        da,
        db,
        sa,
        sb,
        ob,
        ra,
        ia,
        la,
        lb,
        parse_ice_parameters-build_sdp na offered plain_a,
        parse_ice_parameters-build_sdp nb answered plain_b,
        parse_candidates-build_sdp na offered plain_a,
        parse_candidates-build_sdp nb answered plain_b,
      )
      (refl, refl, refl, refl, refl, refl)
