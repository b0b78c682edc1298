-- ===== src/Tests/Handshake.antt =====
-- A DTLS handshake between two ends, over primitives that keep the lengths and hide nothing.
use node_rtc_connection.Prelude.{
  if◌then◌else◌, ◌+◌, ◌*◌, ◌%◌, replicate, ℕ, zero, suc, ◌≡◌, refl, Bool, true, false, ◌&&◌, Option,
  none, some, List, [], ◌∷◌, ◌++◌, ok,
}
use node_rtc_connection.Buffer.{Buffer, alloc}
use node_rtc_connection.Buffer.Equality.{bytes_equal}
use node_rtc_connection.Effects.{Outcome}
use node_rtc_connection.Dtls.Primitives.{Crypto}
use node_rtc_connection.Dtls.Connection.{
  Dtls, Role, client, server, connected, phase_eq, create, Event, output, connect_event, data_event,
  close_event, error_event,
}
use node_rtc_connection.Dtls.Connection.Framing.{Fresh}
use node_rtc_connection.Dtls.Connection.Inbound.{handle_packet, start}
use node_rtc_connection.Dtls.Connection.{create}
use node_rtc_connection.Dtls.Connection.Outbound.{
  close, arm_retransmit, on_handshake_complete, fail, protected, send_record, send_datagrams,
  flush_flight, send_change_cipher_spec,
}
use node_rtc_connection.Dtls.Connection.Messages.{
  ext, build_client_extensions, build_client_hello, build_server_hello, client_extensions, has_scsv,
  client_hello_rest, parse_client_hello, parse_server_hello, build_certificate_message,
  parse_certificate, parse_key_point, parse_key_signature, ecdh_params, signed_vector,
  certificate_request,
}
use node_rtc_connection.Dtls.Connection.Framing.{
  make_random, fragment_at, fragments_from, frame_messages,
}
use node_rtc_connection.Dtls.Connection.Flights.{
  send_flight, send_client_hello, derive_cipher_keys, set_master_secret, send_finished,
  send_client_second_flight, send_hello_verify_request, send_server_flight,
}
use node_rtc_connection.Dtls.Connection.Roles.{
  append_inbound_transcript, server_extensions, take_certificate, verify_peer_finished,
  check_signature, take_server_key_exchange, take_server_hello, client_handle, ask_cookie,
  handle_client_hello, verify_client_certificate_verify, server_handle,
}
use node_rtc_connection.Dtls.Connection.Inbound.{
  handle_alert, dispatch_handshake, dispatch_ready, handle_handshake_fragment, dispatch_record,
  handle_encrypted, handle_record, handle_records, handle_packet, start,
}
use node_rtc_connection.Dtls.Protocol.{
  vec8, vec16, vec24, encode_record, parse_records_loop, parse_records, encode_handshake,
  parse_handshake,
}
use node_rtc_connection.Dtls.Prf.{p_hash_loop, p_hash, prf}
use node_rtc_connection.Dtls.Cipher.{
  build_aad, derive_master_secret, derive_extended_master_secret, derive_keys, encrypt, decrypt,
}
use node_rtc_connection.Buffer.{copy}
use node_rtc_connection.Buffer.Equality.{bytes_equal, timing_safe_equal}
use node_rtc_connection.Map

sum : Buffer → ℕ
sum [] = 0
sum (b ∷ bs) = b + sum bs

-- A digest that depends on every byte, and a shared secret that both ends find.
abbrev open_primitives : Crypto
open_primitives = record {
  hmac = λ key bytes. replicate 32 ((sum key + 3 * sum bytes) % 256);
  sha256 = λ bytes. replicate 32 (sum bytes % 256);
  seal = λ key nonce aad plain. (plain, replicate 16 (sum key % 256));
  unseal = λ key nonce aad sealed tag.
      if bytes_equal tag (replicate 16 (sum key % 256)) then some sealed else none;
  public_key = λ pair. pair;
  compute_secret = λ pair point. ok ((sum pair + sum point) % 256 ∷ []);
  sign = λ key bytes. sum bytes % 256 ∷ [];
  verify = λ certificate bytes signature. ok (bytes_equal signature (sum bytes % 256 ∷ []));
}

abbrev drawn : ℕ → Fresh
drawn n = record { random_bytes = replicate 32 n; seconds = 1700000000; key_pair = 4 ∷ n ∷ [] }

abbrev seed : Role → ℕ
seed client = 11
seed server = 22

outputs_of : List Event → List Buffer
outputs_of [] = []
outputs_of (output p ∷ es) = p ∷ outputs_of es
outputs_of (connect_event ∷ es) = outputs_of es
outputs_of (data_event b ∷ es) = outputs_of es
outputs_of (close_event ∷ es) = outputs_of es
outputs_of (error_event e ∷ es) = outputs_of es

feed : List Buffer → Dtls → List Buffer → Dtls × List Buffer
feed [] d out = (d, out)
feed (p ∷ ps) d out =
    let o = handle_packet open_primitives (drawn (seed d.role)) (alloc 32) p d in
    feed ps o.state (out ++ outputs_of o.events)

-- The ends take turns.
turns : ℕ → Dtls → Dtls → List Buffer → Dtls × Dtls
turns zero a b packets = (a, b)
turns (suc k) a b packets = let (b', replies) = feed packets b [] in turns k b' a replies

abbrev begun : Role → Outcome Dtls Event (Unit {0})
begun role =
    start open_primitives (drawn (seed role)) (alloc 32)
      (create role (48 ∷ seed role ∷ []) (7 ∷ []) none)

ends : Dtls × Dtls
ends = turns 6 (begun client).state (begun server).state (outputs_of (begun client).events)

holds : Option Buffer → Buffer → Bool
holds none b = false
holds (some a) b = bytes_equal a b

connected_with : Dtls → Buffer → Bool
unfolding holds
connected_with d certificate = phase_eq d.phase connected && holds d.remote_cert_der certificate

agreed : Dtls × Dtls → Bool
unfolding connected_with
agreed (a, b) = connected_with a (48 ∷ 22 ∷ []) && connected_with b (48 ∷ 11 ∷ [])

-- The handshake completes, with each end's certificate at the other end.
handshake_completes : agreed ends ≡ true
unfolding agreed ends turns feed outputs_of sum close create arm_retransmit on_handshake_complete
    fail protected send_record send_datagrams flush_flight send_change_cipher_spec ext
    build_client_extensions build_client_hello build_server_hello client_extensions has_scsv
    client_hello_rest parse_client_hello server_extensions parse_server_hello
    build_certificate_message parse_certificate parse_key_point parse_key_signature ecdh_params
    signed_vector certificate_request make_random fragment_at fragments_from frame_messages
    send_flight send_client_hello derive_cipher_keys set_master_secret send_finished
    send_client_second_flight send_hello_verify_request send_server_flight append_inbound_transcript
    take_certificate verify_peer_finished check_signature take_server_key_exchange take_server_hello
    client_handle ask_cookie handle_client_hello verify_client_certificate_verify server_handle
    handle_alert dispatch_handshake dispatch_ready handle_handshake_fragment dispatch_record
    handle_encrypted handle_record handle_records handle_packet start vec8 vec16 vec24 encode_record
    parse_records_loop parse_records encode_handshake parse_handshake p_hash_loop p_hash prf
    build_aad derive_master_secret derive_extended_master_secret derive_keys encrypt decrypt copy
    bytes_equal timing_safe_equal Map.get Map.put Map.delete Map.has
handshake_completes = refl
