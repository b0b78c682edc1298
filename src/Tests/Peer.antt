-- ===== src/Tests/Peer.antt =====
-- The signaling of a connection at concrete inputs. A description of `toy_sdp` is a mark of its kind, the
-- length of the user name fragment, the fragment and the password.
use node_rtc_connection.Prelude.{
  zero, suc, ◌≡◌, ◌↔◌, refl, true, false, none, some, [], ◌∷◌, ◌++◌, ok, length, take, drop,
  state_error,
}
use node_rtc_connection.Buffer.{Buffer}
use node_rtc_connection.Effects.{returned, throw}
use node_rtc_connection.PeerConnection.{
  SdpUtils, IceParameters, DtlsParameters, active, actpass, Certificate, Fingerprint, Description,
  offer, Peer, Stack, new_peer, stable, have_remote_offer, signaling_closed, controlling,
  controlled, client, server,
}
use node_rtc_connection.PeerConnection.Signaling.{
  offer_created, answer_created, local_description_ready, gathered, remote_description_ready,
  create_offer, create_answer, find_sha_256, set_local_description, set_remote_description,
}
use node_rtc_connection.PeerConnection.Transport.{
  ChannelOptions, create_data_channel, add_ice_candidate, set_configuration, close,
  verify_remote_fingerprint,
}
use node_rtc_connection.PeerConnection.Exchange.{exchange_lem, offer_of, answer_of, options_of}
use node_rtc_connection.Buffer.Equality.{bytes_equal}
use node_rtc_connection.Dtls.Cipher.{ascii}
use node_rtc_connection.Sdp.{
  sdp_utils, build_sdp, joined, decimal, split_lines, split_spaces, trim, trim_start, trim_end,
  parse_ice_parameters, parse_dtls_parameters, parse_port, parse_candidate_line,
}
use node_rtc_connection.PeerConnection.Fingerprints.{
  Matches, verify_remote_fingerprint_lem, unfingerprinted_lem,
}
use node_rtc_connection.PeerConnection.Closing.{closed_lem, closed_meanwhile_lem}

abbrev toy_ice : Buffer → IceParameters
toy_ice (kind ∷ n ∷ rest) = record {
  username_fragment = some (take n rest);
  password = some (drop n rest);
}
toy_ice _ = record { username_fragment = none; password = none }

abbrev print : Fingerprint
print = record { algorithm = 97 ∷ []; value = 65 ∷ 66 ∷ [] }

-- A description that begins with 9 has no fingerprints.
abbrev toy_dtls : Buffer → DtlsParameters
toy_dtls (zero ∷ rest) = record { setup = some actpass; fingerprints = print ∷ [] }
toy_dtls (suc zero ∷ rest) = record { setup = some active; fingerprints = print ∷ [] }
toy_dtls _ = record { setup = none; fingerprints = [] }

abbrev toy_sdp : SdpUtils
toy_sdp = record {
  generate_offer = λ o. 0 ∷ length o.ice_ufrag ∷ (o.ice_ufrag ++ o.ice_pwd);
  generate_answer = λ o. 1 ∷ length o.ice_ufrag ∷ (o.ice_ufrag ++ o.ice_pwd);
  parse_ice_parameters = toy_ice;
  parse_dtls_parameters = toy_dtls;
  parse_candidates = λ text. [];
  parse_candidate_line = λ line. none;
}

abbrev certificate : Certificate
certificate = record { fingerprints = print ∷ []; has_der = true }

abbrev alice : Peer
alice = new_peer none (97 ∷ []) (98 ∷ [])

abbrev bob : Peer
bob = new_peer none (99 ∷ []) (100 ∷ [])

exchange_lem_example :
    let sdp_a = sdp_utils 4294967295 in
    let sdp_b = sdp_utils 7 in
    let offered = offer_of 4294967295 alice certificate in
    let answered = answer_of 7 bob certificate in
    let a1 = (offer_created sdp_a certificate alice).state in
    let a2 = (gathered sdp_a (local_description_ready sdp_a offered certificate a1).state).state in
    let b1 = (remote_description_ready sdp_b offered certificate bob).state in
    let b2 = (answer_created sdp_b certificate b1).state in
    let b3 = (gathered sdp_b (local_description_ready sdp_b answered certificate b2).state).state in
    let a3 = (remote_description_ready sdp_a answered certificate a2).state in
    ((offer_created sdp_a certificate alice).result ≡ ok offered)
    × ((answer_created sdp_b certificate b1).result ≡ ok answered)
    × (a3.signaling ≡ stable)
    × (b3.signaling ≡ stable)
    × (a3.stack
        ≡ some (record {
          ice_role = controlling;
          dtls_role = server;
          remote = some (99 ∷ [], 100 ∷ []);
          candidates = [];
          ready = false;
        }))
    × (b3.stack
        ≡ some (record {
          ice_role = controlled;
          dtls_role = client;
          remote = some (97 ∷ [], 98 ∷ []);
          candidates = [];
          ready = false;
        }))
unfolding find_sha_256 bytes_equal
exchange_lem_example =
    exchange_lem alice bob certificate certificate certificate certificate 97 99 [] [] 4294967295 7
      refl refl refl refl (record { ufrag = refl; pwd = refl; print = refl })
      (record { ufrag = refl; pwd = refl; print = refl }) refl refl refl refl refl refl refl

-- A session id and its lines, read back.
written_and_read :
    parse_ice_parameters (build_sdp 1234 (options_of alice certificate actpass))
    ≡ record { username_fragment = some (97 ∷ []); password = some (98 ∷ []) }
unfolding parse_ice_parameters split_lines build_sdp joined decimal trim trim_start trim_end
    find_sha_256 bytes_equal
written_and_read = refl

-- A candidate's line, its setup and its fingerprint, as a browser writes them.
candidate_read :
    (parse_candidate_line (ascii "candidate:1 1 udp 2122260223 10.0.0.7 4711 typ host")
      ≡ some (record { address = ascii "10.0.0.7"; port = 4711 }))
    × (parse_dtls_parameters (ascii "a=setup:active\r\na=fingerprint:SHA-256  ab:cd \n") ≡ record {
      setup = some active;
      fingerprints = record { algorithm = ascii "sha-256"; value = ascii "AB:CD" } ∷ [];
    })
unfolding parse_candidate_line split_spaces parse_port parse_dtls_parameters split_lines trim
    trim_start trim_end
candidate_read = (refl, refl)

abbrev defaults : ChannelOptions
defaults = record {
  ordered = none;
  max_retransmits = none;
  max_packet_life_time = none;
  protocol = none;
  negotiated = none;
}

abbrev an_offer : Description
an_offer = record { type = offer; sdp = 0 ∷ 1 ∷ 99 ∷ 100 ∷ [] }

closed_lem_example :
    let q = (close bob).state in
    (q.stack ≡ none)
    × (q.channels ≡ [])
    × (q.pending_channels ≡ [])
    × (q.signaling ≡ signaling_closed)
    × (create_data_channel 1 defaults q ≡ throw state_error q)
    × (create_offer toy_sdp q ≡ throw state_error q)
    × (create_answer toy_sdp q ≡ throw state_error q)
    × (set_local_description toy_sdp none q ≡ throw state_error q)
    × (set_remote_description toy_sdp an_offer q ≡ throw state_error q)
    × (add_ice_candidate toy_sdp (97 ∷ []) q ≡ throw state_error q)
    × (set_configuration none q ≡ throw state_error q)
    × (close q ≡ returned tt q [])
closed_lem_example = closed_lem toy_sdp bob 1 defaults an_offer none (97 ∷ []) none refl

closed_meanwhile_lem_example :
    let begun = set_remote_description toy_sdp an_offer bob in
    let q = (close begun.state).state in
    let r = remote_description_ready toy_sdp an_offer certificate q in
    (begun.result ≡ ok tt)
    × (q.signaling ≡ signaling_closed)
    × (q.stack ≡ none)
    × (r.state.is_closed ≡ true)
    × (r.state.signaling ≡ have_remote_offer)
    × ((s : Stack) × (r.state.stack ≡ some s))
closed_meanwhile_lem_example =
    closed_meanwhile_lem toy_sdp bob an_offer certificate certificate 0 (1 ∷ 99 ∷ 100 ∷ []) refl
      refl refl refl refl

abbrev lower_print : Fingerprint
lower_print = record { algorithm = 97 ∷ []; value = 97 ∷ 98 ∷ [] }

verify_remote_fingerprint_lem_example :
    (verify_remote_fingerprint
        (remote_description_ready toy_sdp an_offer certificate bob).state
        lower_print
      ≡ true)
    ↔ Matches lower_print (print ∷ [])
verify_remote_fingerprint_lem_example =
    verify_remote_fingerprint_lem toy_sdp bob an_offer certificate lower_print print [] refl

abbrev bare_offer : Description
bare_offer = record { type = offer; sdp = 9 ∷ 1 ∷ 99 ∷ 100 ∷ [] }

unfingerprinted_lem_example :
    verify_remote_fingerprint
      (remote_description_ready toy_sdp bare_offer certificate bob).state
      lower_print
    ≡ true
unfingerprinted_lem_example =
    unfingerprinted_lem toy_sdp bob bare_offer certificate lower_print refl
