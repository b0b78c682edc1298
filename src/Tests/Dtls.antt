-- ===== src/Tests/Dtls.antt =====
-- Runs of src/dtls at concrete inputs, over primitives that keep the lengths and hide nothing.
use node_rtc_connection.Prelude.{
  take, ◌≢◌, Exception, ◌≡◌, refl, true, false, none, some, List, [], ◌∷◌, ◌++◌, arith, length, ok,
  state_error, timeout_error,
}
use node_rtc_connection.Buffer.{Buffer, alloc}
use node_rtc_connection.Effects.{returned, throw}
use node_rtc_connection.Dtls.Protocol.{dtls_1_2, encode_record}
use node_rtc_connection.Dtls.Primitives.{Crypto, IsSound}
use node_rtc_connection.Dtls.Prf.{prf}
use node_rtc_connection.Dtls.Prf.Laws.{blocks, prf_lem}
use node_rtc_connection.Dtls.Cipher.{GcmCipher, ascii}
use node_rtc_connection.Dtls.Connection.{
  Dtls, Role, client, server, connected, closed, handshaking, failed, output, data_event,
  connect_event, error_event, FlightDatagram, HandshakeMessage,
}
use node_rtc_connection.Dtls.Connection.Outbound.{application_data, send, close, fail}
use node_rtc_connection.Dtls.Connection.Framing.{Fresh, fragment_at, fragments_from, finished}
use node_rtc_connection.Dtls.Connection.Flights.{derive_cipher_keys, transcript_hash}
use node_rtc_connection.Dtls.Connection.Inbound.{handle_packet, handle_handshake_fragment}
use node_rtc_connection.Dtls.Connection.Roles.{server_handle, verify_peer_finished}
use node_rtc_connection.Dtls.Connection.Ends
use node_rtc_connection.Dtls.Connection.Data
use node_rtc_connection.Dtls.Connection.Keys
use node_rtc_connection.Dtls.Connection.Fragments
use node_rtc_connection.Dtls.Connection.Retransmission
use node_rtc_connection.Dtls.Connection.Authentication

abbrev toy : Crypto
toy = record {
  hmac = λ key bytes. alloc 32;
  sha256 = λ bytes. alloc 32;
  seal = λ key nonce aad plain. (plain, alloc 16);
  unseal = λ key nonce aad sealed tag. some sealed;
  public_key = λ pair. pair;
  compute_secret = λ pair point. ok point;
  sign = λ key bytes. bytes;
  verify = λ certificate bytes signature. ok true;
}

toy-IsSound : IsSound toy
toy-IsSound = record {
  length-hmac = λ key bytes. refl;
  length-seal = λ key nonce aad plain. refl;
  length-tag = λ key nonce aad plain. refl;
  unseal-seal = λ key nonce aad plain. refl;
}

abbrev fresh : Fresh
fresh = record { random_bytes = alloc 32; seconds = 1700000000; key_pair = 4 ∷ 1 ∷ [] }

abbrev cipher : GcmCipher
cipher = record { key = 1 ∷ 2 ∷ []; fixed_iv = 3 ∷ 4 ∷ [] }

abbrev idle : Role → Dtls
idle role = record {
  role = role;
  phase = handshaking;
  cert_der = 48 ∷ [];
  private_key = 7 ∷ [];
  verify_fingerprint = none;
  send_epoch = 0;
  send_seq = 3;
  handshake_message_seq = 6;
  write_cipher = some cipher;
  read_cipher = some cipher;
  send_encrypted = false;
  client_random = some (1 ∷ []);
  server_random = some (2 ∷ []);
  cookie = [];
  ecdh = none;
  master_secret = some (9 ∷ []);
  remote_cert_der = none;
  remote_ecdhe_pub = none;
  use_extended_master_secret = true;
  transcript = (5 ∷ []) ∷ [];
  reassembly = [];
  next_expected_hs_seq = 4;
  last_flight = record { type = 22; payload = 8 ∷ [] } ∷ [];
  retransmit_timer = some 1000;
  retransmit_count = 8;
  handshake_done = false;
  cookie_secret = none;
  reneg_requested = false;
  cert_requested = false;
  first_client_hello = none;
}

abbrev up : Dtls
up = record (idle client) {
  phase = connected;
  send_epoch = 1;
  send_encrypted = true;
  retransmit_timer = none;
}

abbrev ended : Dtls
ended = record (idle client) { phase = closed; retransmit_timer = none }

send-handle_packet_example :
    (datagram : Buffer) × (send toy (1 ∷ 2 ∷ 3 ∷ []) up
      ≡ returned tt (record up { send_seq = 4 }) (output datagram ∷ []))
    × (handle_packet toy fresh [] datagram up ≡ returned tt up (data_event (1 ∷ 2 ∷ 3 ∷ []) ∷ []))
send-handle_packet_example =
    Data.send-handle_packet toy fresh [] cipher (1 ∷ 2 ∷ 3 ∷ []) up up toy-IsSound refl
      (record {
        encrypted = refl;
        cipher = refl;
        epoch = omega arith;
        past_handshake = omega arith;
        seq = omega arith;
      })
      (omega arith) refl refl

plaintext_lem_example :
    (datagram : Buffer) × (encode_record (record {
      type = application_data;
      version = dtls_1_2;
      epoch = 0;
      seq = 0;
      fragment = 66 ∷ [];
    })
      ≡ ok datagram)
    × (handle_packet toy fresh [] datagram up ≡ returned tt up (data_event (66 ∷ []) ∷ []))
plaintext_lem_example =
    Data.plaintext_lem toy fresh [] (66 ∷ []) 0 up refl (omega arith) (omega arith)

ended_lem_example :
    ((fail state_error (idle client)).events ≡ error_event state_error ∷ [])
    × Ends.IsInert toy fresh [] (22 ∷ []) (1 ∷ []) (fail state_error (idle client)).state
    × ((close toy (idle client)).result ≡ ok tt)
    × Ends.IsInert toy fresh [] (22 ∷ []) (1 ∷ []) (close toy (idle client)).state
ended_lem_example = Ends.ended_lem toy fresh [] (22 ∷ []) (1 ∷ []) state_error (idle client) refl

derive_cipher_keys_lem_example :
    (g h : GcmCipher) × (derive_cipher_keys toy (idle client)
      ≡ returned tt (record (idle client) { write_cipher = some g; read_cipher = some h }) [])
    × (derive_cipher_keys toy (idle server)
        ≡ returned tt (record (idle server) { write_cipher = some h; read_cipher = some g }) [])
derive_cipher_keys_lem_example =
    let s : (role : Role) → Keys.HasSecrets (idle role) (9 ∷ []) (1 ∷ []) (2 ∷ []) =
      λ role. record { secret = refl; client_side = refl; server_side = refl } in
    Keys.derive_cipher_keys_lem toy (9 ∷ []) (1 ∷ []) (2 ∷ []) (idle client) (idle server)
      toy-IsSound (s client) (s server) refl refl

abbrev message : HandshakeMessage
message = record { type = 11; body = alloc 1300 }

handle_fragments-fragments_from_example :
    (fs : List FlightDatagram) × (fragments_from 1301 message 4 0 [] ≡ ok fs)
    × (Fragments.handle_fragments toy fresh [] fs (idle client)
        ≡ Fragments.delivered toy fresh [] 11 (alloc 1300) (idle client))
unfolding node_rtc_connection.Map.get
handle_fragments-fragments_from_example =
    Fragments.handle_fragments-fragments_from toy fresh [] message (omega arith) (omega arith)
      (idle client) (omega arith) refl

abbrev short_message : HandshakeMessage
short_message = record { type = 11; body = 1 ∷ 2 ∷ 3 ∷ [] }

last_fragment_lem_example :
    (payload : Buffer) × (fragment_at short_message 4 2 (3 ∷ []) ≡ ok payload)
    × (handle_handshake_fragment toy fresh [] payload (idle client)
        ≡ Fragments.delivered toy fresh [] 11 (0 ∷ 0 ∷ 3 ∷ []) (idle client))
unfolding node_rtc_connection.Map.get
last_fragment_lem_example =
    Fragments.last_fragment_lem toy fresh [] short_message (omega arith) (omega arith) (idle client)
      (omega arith) refl (1 ∷ 2 ∷ []) (3 ∷ []) refl

fire_times_lem_example :
    (s : Dtls) × (Retransmission.fire_times toy 3 (idle client)
      ≡ returned tt s (
          Retransmission.repeated 2 0 3 (idle client).last_flight
          ++ (error_event timeout_error ∷ [])))
    × (s.phase ≡ failed)
    × Ends.IsOver s
fire_times_lem_example = Retransmission.fire_times_lem toy 2 (idle client) (record {
  phase = refl;
  undone = refl;
  delay = 1000;
  timer = refl;
  plain = refl;
  epoch = omega arith;
  seq = omega arith;
  fits = (omega arith, omega arith, tt);
  left = refl;
})

-- The verify data that the toy hash makes.
abbrev verify_data : Buffer
verify_data = alloc 12

verify_data_lem :
    prf toy.hmac (9 ∷ []) (ascii "client finished") (transcript_hash toy ((5 ∷ []) ∷ [])) 12
    ≡ ok verify_data
unfolding prf
verify_data_lem =
    (prf_lem toy.hmac (9 ∷ []) (ascii "client finished") (transcript_hash toy ((5 ∷ []) ∷ [])) 12 1
      toy-IsSound.length-hmac (omega arith) (omega arith)).0

verify_peer_finished_lem_example :
    (1 ∷ [] ≡ verify_data
      → verify_peer_finished toy (1 ∷ []) (ascii "client finished") (idle server)
        ≡ returned tt (idle server) [])
    × (1 ∷ [] ≢ verify_data
        → (e : Exception) × (verify_peer_finished toy
              (1 ∷ [])
              (ascii "client finished")
              (idle server)
            ≡ throw e (idle server)))
verify_peer_finished_lem_example =
    Authentication.verify_peer_finished_lem toy (1 ∷ []) (ascii "client finished") (9 ∷ [])
      verify_data (idle server) refl verify_data_lem

server_finished_lem_example :
    (ccs sealed : Buffer) × (server_handle toy fresh [] finished verify_data (idle server)
      ≡ returned tt
          (Authentication.completed (idle server))
          (output ccs ∷ output sealed ∷ connect_event ∷ []))
server_finished_lem_example =
    Authentication.server_finished_lem toy fresh [] verify_data (9 ∷ []) cipher (idle server) 3
      toy-IsSound refl verify_data_lem refl refl refl refl (omega arith) (omega arith) refl
      (omega arith) (omega arith)

prf_lem_example :
    (prf toy.hmac [] (ascii "key expansion") [] 40
      ≡ ok (
          take 40
            (blocks toy.hmac [] (ascii "key expansion" ++ []) 2 (ascii "key expansion" ++ []))))
    × (length (
          take 40
            (blocks toy.hmac [] (ascii "key expansion" ++ []) 2 (ascii "key expansion" ++ [])))
        ≡ 40)
prf_lem_example =
    prf_lem toy.hmac [] (ascii "key expansion") [] 40 2 toy-IsSound.length-hmac (omega arith)
      (omega arith)
