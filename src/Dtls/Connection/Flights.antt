-- ===== src/Dtls/Connection/Flights.antt =====
-- src/dtls/connection.ts: the flights of both roles.
use node_rtc_connection.Prelude.{
  ℕ, zero, suc, ◌+◌, Bool, true, false, Option, none, some, List, [], ◌∷◌, ◌++◌, ltb, ◌==◌,
  if◌then◌else◌, length, take, Result, ok, err, out_of_fuel, handshake_error,
}
use node_rtc_connection.Prelude
use node_rtc_connection.Buffer.{Buffer, slice, alloc, concat}
use node_rtc_connection.Effects.{◌>>=◌, ◌>>◌, self, modify, lift}
use node_rtc_connection.Dtls.Protocol.{vec8, encode_handshake}
use node_rtc_connection.Dtls.Primitives.{Crypto}
use node_rtc_connection.Dtls.Prf.{prf}
use node_rtc_connection.Dtls.Cipher.{
  DerivedKeys, GcmCipher, ascii, derive_keys, derive_master_secret, derive_extended_master_secret,
}
use node_rtc_connection.Dtls.Connection.{Dtls, Method, Role, client, server, HandshakeMessage, the}
use node_rtc_connection.Dtls.Connection.Outbound.{
  arm_retransmit, flush_flight, send_change_cipher_spec, send_record, handshake,
}
use node_rtc_connection.Dtls.Connection.Messages.{
  build_client_hello, build_server_hello, build_certificate_message, ecdh_params, signed_vector,
  certificate_request,
}
use node_rtc_connection.Dtls.Connection.Framing.{
  client_hello, server_hello, hello_verify_request, certificate, server_key_exchange,
  certificate_request_type, server_hello_done, certificate_verify, client_key_exchange, finished,
  Fresh, make_random, push_transcript, next_message_seq, frame_messages,
}

module _ (c : Crypto) where
  -- `#sendFlight`.
  unfoldable pub send_flight : List HandshakeMessage → Method (Unit {0})
  send_flight messages = do
    datagrams ← frame_messages messages []
    modify (λ d. record d { last_flight = datagrams; retransmit_count = 0 })
    flush_flight c
    arm_retransmit

  -- `#transcriptHash`.
  abbrev pub transcript_hash : List Buffer → Buffer
  transcript_hash messages = c.sha256 (concat messages)

  -- `#sendClientHello`: the first one stays out of the transcript.
  unfoldable pub send_client_hello : Method (Unit {0})
  send_client_hello = do
    d ← self
    random ← lift (the d.client_random)
    body ← lift (build_client_hello random d.cookie)
    seq ← next_message_seq
    full ← lift (encode_handshake client_hello seq body)
    let first : Method (Unit {0}) = modify (λ x. record x {
      first_client_hello = some full;
      last_flight = record { type = handshake; payload = full } ∷ [];
    })
    let second : Method (Unit {0}) = do
      push_transcript full
      modify (λ x. record x {
        last_flight = record { type = handshake; payload = full } ∷ [];
        retransmit_count = 0;
      })
    if length d.cookie == 0 then first else second
    flush_flight c
    arm_retransmit

  abbrev write_keys : Role → DerivedKeys → GcmCipher
  write_keys client k = record { key = k.client_key; fixed_iv = k.client_iv }
  write_keys server k = record { key = k.server_key; fixed_iv = k.server_iv }

  abbrev read_keys : Role → DerivedKeys → GcmCipher
  read_keys client k = record { key = k.server_key; fixed_iv = k.server_iv }
  read_keys server k = record { key = k.client_key; fixed_iv = k.client_iv }

  -- `#deriveCipherKeys`.
  unfoldable pub derive_cipher_keys : Method (Unit {0})
  derive_cipher_keys = do
    d ← self
    master ← lift (the d.master_secret)
    client_random ← lift (the d.client_random)
    server_random ← lift (the d.server_random)
    keys ← lift (derive_keys c master client_random server_random)
    modify (λ x. record x {
      write_cipher = some (write_keys x.role keys);
      read_cipher = some (read_keys x.role keys);
    })

  -- The master secret, from the shared secret and the messages that its hash covers.
  unfoldable pub set_master_secret : Buffer → List Buffer → Method (Unit {0})
  set_master_secret pre_master messages = do
    d ← self
    let plain : Method Buffer = do
      client_random ← lift (the d.client_random)
      server_random ← lift (the d.server_random)
      lift (derive_master_secret c pre_master client_random server_random)
    let extended = lift (derive_extended_master_secret c pre_master (transcript_hash messages))
    master ← if d.use_extended_master_secret then extended else plain
    modify (λ x. record x { master_secret = some master })

  -- `#sendFinished`.
  unfoldable pub send_finished : Buffer → Method (Unit {0})
  send_finished label = do
    d ← self
    master ← lift (the d.master_secret)
    verify_data ← lift (prf c.hmac master label (transcript_hash d.transcript) 12)
    seq ← next_message_seq
    full ← lift (encode_handshake finished seq verify_data)
    push_transcript full
    send_record c handshake full

  -- What the client's second flight sends and hashes, where it authenticates and where it does not.
  -- The Certificate as it stands in the transcript, if it is sent.
  certificate_full : Dtls → Result (List Buffer)
  certificate_full d =
      if d.cert_requested
      then Prelude.◌>>=◌
          (encode_handshake certificate d.handshake_message_seq
            (build_certificate_message d.cert_der))
          (λ full. ok (full ∷ []))
      else ok []

  -- The messages of the flight, with the point and what CertificateVerify signs.
  second_flight : Dtls → Buffer → Buffer → Result (List HandshakeMessage)
  second_flight d cke signed =
      let exchange : HandshakeMessage = record { type = client_key_exchange; body = cke } in
      if d.cert_requested
      then Prelude.◌>>=◌ (signed_vector (c.sign d.private_key signed)) (λ cv. ok (
          record { type = certificate; body = build_certificate_message d.cert_der }
          ∷ exchange
          ∷ record { type = certificate_verify; body = cv }
          ∷ []))
      else ok (exchange ∷ [])

  -- `#sendClientSecondFlight`.
  unfoldable pub send_client_second_flight : Fresh → Method (Unit {0})
  unfolding certificate_full second_flight
  send_client_second_flight fresh = do
    modify (λ x. record x { ecdh = some fresh.key_pair })
    d ← self
    remote ← lift (the d.remote_ecdhe_pub)
    pms ← lift (c.compute_secret fresh.key_pair remote)
    let cke = vec8 (c.public_key fresh.key_pair)
    cert_full ← lift (certificate_full d)
    let cke_seq = if d.cert_requested then d.handshake_message_seq + 1 else d.handshake_message_seq
    cke_full ← lift (encode_handshake client_key_exchange cke_seq cke)
    let covered = d.transcript ++ (cert_full ++ (cke_full ∷ []))
    set_master_secret pms covered
    derive_cipher_keys
    flight ← lift (second_flight d cke (concat covered))
    send_flight flight
    send_change_cipher_spec c
    send_finished (ascii "client finished")

  -- `#makeCookie`, with the secret.
  abbrev pub make_cookie : Buffer → Buffer → Buffer
  make_cookie secret random = slice (c.hmac secret random) 0 20

  -- `#sendHelloVerifyRequest`.
  unfoldable pub send_hello_verify_request : Buffer → Method (Unit {0})
  send_hello_verify_request cookie = do
    fragment ←
        lift
          (encode_handshake hello_verify_request 0 (concat ((0xfe ∷ 0xff ∷ []) ∷ vec8 cookie ∷ [])))
    send_record c handshake fragment
    modify (λ d. record d { handshake_message_seq = 1 })

  -- `#sendServerFlight`.
  unfoldable pub send_server_flight : Fresh → Method (Unit {0})
  send_server_flight fresh = do
    random ← lift (make_random fresh)
    modify (λ x. record x { server_random = some random; ecdh = some fresh.key_pair })
    d ← self
    hello ← lift (build_server_hello random d.use_extended_master_secret d.reneg_requested)
    let params = ecdh_params (c.public_key fresh.key_pair)
    client_random ← lift (the d.client_random)
    sig ←
        lift (signed_vector (c.sign d.private_key (concat (client_random ∷ random ∷ params ∷ []))))
    request ← lift certificate_request
    send_flight (
        record { type = server_hello; body = hello }
        ∷ record { type = certificate; body = build_certificate_message d.cert_der }
        ∷ record { type = server_key_exchange; body = params ++ sig }
        ∷ record { type = certificate_request_type; body = request }
        ∷ record { type = server_hello_done; body = alloc 0 }
        ∷ [])
