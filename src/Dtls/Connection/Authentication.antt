-- ===== src/Dtls/Connection/Authentication.antt =====
-- src/dtls/connection.ts: what the end of a handshake rests on.
use node_rtc_connection.Prelude.{
  ℕ, suc, ◌+◌, ◌<◌, ◌≡◌, ◌≢◌, refl, ap, inl, inr, true, false, none, some, [], ◌∷◌, ◌++◌, arith,
  length, Exception, handshake_error, ok,
}
use node_rtc_connection.Buffer.{Buffer, IsU16}
use node_rtc_connection.Effects.{returned, throw}
use node_rtc_connection.Buffer.Equality.{timing_safe_equal-same, timing_safe_equal-differs}
use node_rtc_connection.Dtls.Protocol.{encode_handshake}
use node_rtc_connection.Dtls.Protocol.Records.{record_bytes}
use node_rtc_connection.Dtls.Protocol.Handshakes.{handshake_bytes, encode_handshake_lem}
use node_rtc_connection.Dtls.Primitives.{Crypto, IsSound}
use node_rtc_connection.Dtls.Prf.{prf}
use node_rtc_connection.Dtls.Prf.Laws.{prf_returns}
use node_rtc_connection.Dtls.Cipher.{GcmCipher, ascii}
use node_rtc_connection.Dtls.Connection.{Dtls, the, connected, output, connect_event}
use node_rtc_connection.Dtls.Connection.Outbound.{
  handshake, change_cipher_spec, send_change_cipher_spec, on_handshake_complete,
}
use node_rtc_connection.Dtls.Connection.Framing.{Fresh, finished}
use node_rtc_connection.Dtls.Connection.Flights.{transcript_hash, send_finished}
use node_rtc_connection.Dtls.Connection.Roles.{
  verify_peer_finished, append_inbound_transcript, consumed_seq, server_handle,
}
use node_rtc_connection.Dtls.Connection.Data.{numbered, IsSending, send_record_sealed}
use node_rtc_connection.Dtls.Connection.Retransmission.{send_record_plain}

-- Where there is a master secret, a Finished is accepted only if it holds the verify data that the PRF
-- gives for that secret, the label and the transcript so far: with those bytes `#verifyPeerFinished`
-- returns, and with any other it throws; it changes nothing and emits nothing.
pub verify_peer_finished_lem :
    (c : Crypto) (body label master verify_data : Buffer) (d : Dtls)
    → d.master_secret ≡ some master
    → prf c.hmac master label (transcript_hash c d.transcript) 12 ≡ ok verify_data
    → (body ≡ verify_data → verify_peer_finished c body label d ≡ returned tt d [])
      × (body ≢ verify_data → (e : Exception) × (verify_peer_finished c body label d ≡ throw e d))
unfolding verify_peer_finished
verify_peer_finished_lem c body label master v d m p = (
  λ same. rw (m, p, same, timing_safe_equal-same v) refl,
  λ other. elim (timing_safe_equal-differs body v other) [
    | inl q ↦ (handshake_error, rw (m, p, q) refl)
    | inr (e, q) ↦ (e, rw (m, p, q) refl)
  ],
)

encode_finished :
    (seq : ℕ) (v : Buffer)
    → IsU16 seq
    → length v ≡ 12
    → (full : Buffer) × (encode_handshake finished seq v ≡ ok full) × (length full ≡ 24)
encode_finished seq v s n = (
  handshake_bytes finished seq v,
  encode_handshake_lem finished seq v (omega arith) s,
  omega (arith, n),
)

-- The state behind the server's Finished.
abbrev pub completed : Dtls → Dtls
completed d = record d {
  handshake_message_seq = d.handshake_message_seq + 1;
  send_epoch = 1;
  send_seq = 1;
  send_encrypted = true;
  handshake_done = true;
  retransmit_timer = none;
  transcript = [];
  last_flight = [];
  reassembly = [];
  first_client_hello = none;
  client_random = none;
  server_random = none;
  master_secret = none;
  ecdh = none;
  remote_ecdhe_pub = none;
  phase = connected;
}

-- A server whose keys are derived connects on the client's Finished alone: on the 12 bytes of verify
-- data for the transcript so far it returns, puts out two datagrams and emits `connect`, is connected
-- and in its encrypted epoch, and has dropped its timer and the handshake's secrets. No certificate of
-- the client is needed, and `remote_cert_der` stays what it was, null included. The primitives are
-- sound, the handshake is not done and nothing was encrypted before, the Finished has been numbered
-- `seq` and consumed, and the numbers fit their fields.
pub server_finished_lem :
    (c : Crypto) (fresh : Fresh) (secret body master : Buffer) (g : GcmCipher) (d : Dtls) (seq : ℕ)
    → IsSound c
    → d.master_secret ≡ some master
    → prf c.hmac master (ascii "client finished") (transcript_hash c d.transcript) 12 ≡ ok body
    → length body ≡ 12
    → d.handshake_done ≡ false
    → d.send_encrypted ≡ false
    → d.write_cipher ≡ some g
    → IsU16 d.send_epoch
    → d.send_seq < 281474976710656
    → d.next_expected_hs_seq ≡ suc seq
    → IsU16 seq
    → IsU16 d.handshake_message_seq
    → (ccs sealed : Buffer) × (server_handle c fresh secret finished body d
        ≡ returned tt (completed d) (output ccs ∷ output sealed ∷ connect_event ∷ []))
unfolding server_handle append_inbound_transcript send_change_cipher_spec send_finished
    on_handshake_complete
server_finished_lem c fresh secret body master g d seq sound m p n done plain w e q now x y =
    let (full, encoded, _) = encode_finished seq body x n in
    let consumed : consumed_seq d.next_expected_hs_seq ≡ ok seq = ap consumed_seq now in
    let verified =
      (verify_peer_finished_lem c body (ascii "client finished") master body d m p).0 refl in
    let d₁ = record d { transcript = d.transcript ++ (full ∷ []) } in
    let ccs =
      send_record_plain c (record { type = change_cipher_spec; payload = 1 ∷ [] }) d₁ plain e q
        (omega arith) (omega arith) in
    let (v, reply, size) =
      prf_returns c.hmac master (ascii "server finished") (transcript_hash c d₁.transcript) 12
        sound.length-hmac in
    let (full', encoded', short) = encode_finished d.handshake_message_seq v y size in
    let d₂ = record d₁ {
      send_epoch = 1;
      send_seq = 0;
      send_encrypted = true;
      handshake_message_seq = d.handshake_message_seq + 1;
      transcript = (d.transcript ++ (full ∷ [])) ++ (full' ∷ []);
    } in
    let s : IsSending d₂ g = record {
      encrypted = refl;
      cipher = w;
      epoch = omega arith;
      past_handshake = omega arith;
      seq = omega arith;
    } in
    let (_, datagram, sent, _, _) =
      send_record_sealed c sound g handshake full' d₂ s (omega arith) (omega (arith, short)) in
    let known : the d.master_secret ≡ ok master = ap the m in
    (
      record_bytes (numbered d change_cipher_spec (1 ∷ [])),
      datagram,
      rw (verified, consumed, encoded, ccs, known, reply, encoded', sent, done) refl,
    )
