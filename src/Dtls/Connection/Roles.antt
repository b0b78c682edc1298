-- ===== src/Dtls/Connection/Roles.antt =====
-- src/dtls/connection.ts: what the client and the server do with a handshake message.
use node_rtc_connection.Prelude.{
  ℕ, zero, suc, ◌+◌, Bool, true, false, ◌&&◌, ◌||◌, Option, none, some, List, [], ◌∷◌, ◌++◌, ◌==◌,
  leb, if◌then◌else◌, length, handshake_error, Result, ok, err, range_error, out_of_fuel,
}
use node_rtc_connection.Buffer.{Buffer, slice, concat, read_uint8, read_uint16_be}
use node_rtc_connection.Effects.{◌>>=◌, ◌>>◌, skip, self, modify, lift, throw}
use node_rtc_connection.Dtls.Protocol.{encode_handshake}
use node_rtc_connection.Dtls.Primitives.{Crypto}
use node_rtc_connection.Dtls.Prf.{prf}
use node_rtc_connection.Dtls.Cipher.{ascii}
use node_rtc_connection.Buffer.Equality.{timing_safe_equal, bytes_equal}
use node_rtc_connection.Dtls.Connection.{Method, the}
use node_rtc_connection.Dtls.Connection.Outbound.{
  clear_retransmit, send_change_cipher_spec, on_handshake_complete,
}
use node_rtc_connection.Dtls.Connection.Messages.{
  extended_master_secret, parse_client_hello, parse_server_hello, parse_certificate,
  parse_key_point, parse_key_signature,
}
use node_rtc_connection.Dtls.Connection.Framing.{
  Fresh, push_transcript, client_hello, server_hello, hello_verify_request, certificate,
  server_key_exchange, certificate_request_type, server_hello_done, certificate_verify,
  client_key_exchange, finished,
}
use node_rtc_connection.Dtls.Connection.Flights.{
  transcript_hash, send_client_hello, send_client_second_flight, send_server_flight,
  send_hello_verify_request, make_cookie, set_master_secret, derive_cipher_keys, send_finished,
}

-- `this.#nextExpectedHsSeq - 1`, where -1 is no number for the header: `writeUInt16BE` throws.
abbrev pub consumed_seq : ℕ → Result ℕ
consumed_seq zero = err range_error
consumed_seq (suc n) = ok n

-- `#appendInboundTranscript`: the message is numbered as the one just consumed.
unfoldable pub append_inbound_transcript : ℕ → Buffer → Method (Unit {0})
append_inbound_transcript type body = do
  d ← self
  seq ← lift (consumed_seq d.next_expected_hs_seq)
  full ← lift (encode_handshake type seq body)
  push_transcript full

-- `this.#cookieSecret`, set where it is not yet set.
abbrev secret_or : Buffer → Option Buffer → Buffer
secret_or fresh none = fresh
secret_or fresh (some secret) = secret

-- The first ClientHello, where the server asked for no cookie and it is not recorded yet.
abbrev late_hello : Bool → Option Buffer → List Buffer
late_hello true (some hello) = hello ∷ []
late_hello true none = []
late_hello false hello = []

-- `#parseCertificate` and its assignment, behind the transcript.
unfoldable pub take_certificate : Buffer → Method (Unit {0})
take_certificate body = do
  append_inbound_transcript certificate body
  d ← self
  cert ← lift (parse_certificate d.verify_fingerprint body)
  modify (λ x. record x { remote_cert_der = cert })

module _ (c : Crypto) where
  -- `#verifyPeerFinished`.
  unfoldable pub verify_peer_finished : Buffer → Buffer → Method (Unit {0})
  verify_peer_finished body label = do
    d ← self
    master ← lift (the d.master_secret)
    expected ← lift (prf c.hmac master label (transcript_hash c d.transcript) 12)
    same ← lift (timing_safe_equal body expected)
    if same then skip else throw handshake_error

  -- A signature of the peer, by the key of its certificate.
  unfoldable pub check_signature : Buffer → Buffer → Method (Unit {0})
  check_signature signed signature = do
    d ← self
    cert ← lift (the d.remote_cert_der)
    valid ← lift (c.verify cert signed signature)
    if valid then skip else throw handshake_error

  -- `#parseServerKeyExchange`.
  unfoldable pub take_server_key_exchange : Buffer → Method (Unit {0})
  take_server_key_exchange body = do
    (point, o) ← lift (parse_key_point body)
    modify (λ x. record x { remote_ecdhe_pub = some point })
    signature ← lift (parse_key_signature body o)
    d ← self
    client_random ← lift (the d.client_random)
    server_random ← lift (the d.server_random)
    check_signature (concat (client_random ∷ server_random ∷ slice body 0 o ∷ [])) signature

  -- The loop of `#parseServerHello` over the extensions, with one round more than there are bytes. What
  -- it saw stays seen when it throws later.
  unfoldable pub server_extensions : ℕ → Buffer → ℕ → ℕ → Method (Unit {0})
  server_extensions zero body o end = throw out_of_fuel
  server_extensions (suc fuel) body o end =
      let round : Method (Unit {0}) = do
        etype ← lift (read_uint16_be body o)
        elen ← lift (read_uint16_be body (o + 2))
        modify (λ x. record x {
          use_extended_master_secret =
              x.use_extended_master_secret || etype == extended_master_secret;
        })
        server_extensions fuel body (o + 4 + elen) end
      in if leb (o + 4) end then round else skip

  -- `#parseServerHello`: the random is set before the rest is read.
  unfoldable pub take_server_hello : Buffer → Method (Unit {0})
  take_server_hello body = do
    modify (λ x. record x { server_random = some (slice body 2 34) })
    o ← lift (parse_server_hello body)
    let read : Method (Unit {0}) = do
      ext_len ← lift (read_uint16_be body o)
      server_extensions (suc (o + 2 + ext_len)) body (o + 2) (o + 2 + ext_len)
    if leb (o + 2) (length body) then read else skip

  -- `#clientHandle`.
  unfoldable pub client_handle : Fresh → ℕ → Buffer → Method (Unit {0})
  client_handle fresh type body =
      let verify_request : Method (Unit {0}) = do
        cookie_len ← lift (read_uint8 body 2)
        modify (λ x. record x { cookie = slice body 3 (3 + cookie_len) })
        clear_retransmit
        send_client_hello c
      in let hello : Method (Unit {0}) = do
        modify (λ x. record x {
          transcript =
              x.transcript
              ++ late_hello ((length x.cookie == 0) && (length x.transcript == 0))
                  x.first_client_hello;
        })
        append_inbound_transcript type body
        take_server_hello body
        in let key_exchange : Method (Unit {0}) = do
          append_inbound_transcript type body
          take_server_key_exchange body
          in let request : Method (Unit {0}) = do
            modify (λ x. record x { cert_requested = true })
            append_inbound_transcript type body
            in let done : Method (Unit {0}) = do
              append_inbound_transcript type body
              clear_retransmit
              send_client_second_flight c fresh
              in let finish : Method (Unit {0}) = do
                verify_peer_finished body (ascii "server finished")
                append_inbound_transcript type body
                on_handshake_complete
                in if type == hello_verify_request
                  then verify_request
                  else (if type == server_hello
                      then hello
                      else (if type == certificate
                          then take_certificate body
                          else (if type == server_key_exchange
                              then key_exchange
                              else (if type == certificate_request_type
                                  then request
                                  else (if type == server_hello_done
                                      then done
                                      else (if type == finished then finish else skip))))))

  -- A HelloVerifyRequest, behind which the server expects message 1.
  unfoldable pub ask_cookie : Buffer → Method (Unit {0})
  ask_cookie cookie = do
    send_hello_verify_request c cookie
    modify (λ x. record x { reassembly = []; next_expected_hs_seq = 1 })

  -- `#handleClientHello`; `fresh_secret` is what `randomBytes(32)` returns for the cookie's secret.
  unfoldable pub handle_client_hello : Fresh → Buffer → Buffer → Method (Unit {0})
  handle_client_hello fresh fresh_secret body = do
    hello ← lift (parse_client_hello body)
    modify (λ x. record x {
      reneg_requested = hello.asked.reneg;
      cookie_secret = some (secret_or fresh_secret x.cookie_secret);
    })
    d ← self
    let expected = make_cookie c (secret_or fresh_secret d.cookie_secret) hello.random
    let first : Method (Unit {0}) = do
      modify (λ x. record x { client_random = some hello.random })
      ask_cookie expected
    let accepted : Method (Unit {0}) = do
      modify (λ x. record x {
        client_random = some hello.random;
        use_extended_master_secret = hello.asked.ems;
      })
      append_inbound_transcript client_hello body
      send_server_flight c fresh
    if length hello.cookie == 0
        then first
        else (if bytes_equal hello.cookie expected then accepted else ask_cookie expected)

  -- `#verifyClientCertificateVerify`.
  unfoldable pub verify_client_certificate_verify : Buffer → Method (Unit {0})
  verify_client_certificate_verify body = do
    signature ← lift (parse_key_signature body 0)
    d ← self
    check_signature (concat d.transcript) signature

  -- `#serverHandle`.
  unfoldable pub server_handle : Fresh → Buffer → ℕ → Buffer → Method (Unit {0})
  server_handle fresh fresh_secret type body =
      let key_exchange : Method (Unit {0}) = do
        append_inbound_transcript type body
        pub_len ← lift (read_uint8 body 0)
        let point = slice body 1 (1 + pub_len)
        modify (λ x. record x { remote_ecdhe_pub = some point })
        d ← self
        key_pair ← lift (the d.ecdh)
        pms ← lift (c.compute_secret key_pair point)
        set_master_secret c pms d.transcript
        derive_cipher_keys c
      in let verified : Method (Unit {0}) = do
        verify_client_certificate_verify body
        append_inbound_transcript type body
        in let finish : Method (Unit {0}) = do
          verify_peer_finished body (ascii "client finished")
          append_inbound_transcript type body
          send_change_cipher_spec c
          send_finished c (ascii "server finished")
          on_handshake_complete
          in if type == client_hello
            then handle_client_hello fresh fresh_secret body
            else (if type == certificate
                then take_certificate body
                else (if type == client_key_exchange
                    then key_exchange
                    else (if type == certificate_verify
                        then verified
                        else (if type == finished then finish else skip))))
