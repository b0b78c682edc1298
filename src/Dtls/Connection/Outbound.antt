-- ===== src/Dtls/Connection/Outbound.antt =====
-- src/dtls/connection.ts: records out, the retransmission timer, and the ends of a connection.
use node_rtc_connection.Prelude.{
  ℕ, ◌+◌, ◌*◌, ◌^◌, Bool, true, false, ◌||◌, not, Option, none, some, List, [], ◌∷◌, leb,
  if◌then◌else◌, Exception, Result, ok, state_error, timeout_error,
}
use node_rtc_connection.Buffer.{Buffer}
use node_rtc_connection.Effects.{◌>>=◌, ◌>>◌, skip, self, modify, emit, lift, throw, attempt}
use node_rtc_connection.Dtls.Protocol.{dtls_1_2, encode_record}
use node_rtc_connection.Dtls.Primitives.{Crypto}
use node_rtc_connection.Dtls.Cipher.{GcmCipher, encrypt}
use node_rtc_connection.Dtls.Connection.{
  Method, Phase, handshaking, connected, closed, failed, phase_eq, FlightDatagram, output,
  connect_event, close_event, error_event, handshake_timeout_ms, max_retransmits,
}

abbrev pub change_cipher_spec : ℕ
change_cipher_spec = 20

abbrev pub alert : ℕ
alert = 21

abbrev pub handshake : ℕ
handshake = 22

abbrev pub application_data : ℕ
application_data = 23

-- `#clearRetransmit`.
abbrev pub clear_retransmit : Method (Unit {0})
clear_retransmit = modify (λ d. record d { retransmit_timer = none })

-- `#armRetransmit`: a timer that is pending is replaced.
unfoldable pub arm_retransmit : Method (Unit {0})
arm_retransmit =
    modify
      (λ d. record d { retransmit_timer = some (handshake_timeout_ms * 2 ^ d.retransmit_count) })

-- `#releaseHandshakeState`.
abbrev pub release_handshake_state : Method (Unit {0})
release_handshake_state = modify (λ d. record d {
  transcript = [];
  last_flight = [];
  reassembly = [];
  first_client_hello = none;
  client_random = none;
  server_random = none;
  master_secret = none;
  ecdh = none;
  remote_ecdhe_pub = none;
})

abbrev pub set_phase : Phase → Method (Unit {0})
set_phase p = modify (λ d. record d { phase = p })

-- `#onHandshakeComplete`.
unfoldable pub on_handshake_complete : Method (Unit {0})
on_handshake_complete = do
  d ← self
  let complete : Method (Unit {0}) = do
    modify (λ x. record x { handshake_done = true })
    clear_retransmit
    release_handshake_state
    set_phase connected
    emit connect_event
  if d.handshake_done then skip else complete

abbrev pub is_over : Phase → Bool
is_over p = phase_eq p closed || phase_eq p failed

-- `#fail`. The connection has a listener of `error`, as transport-stack.ts and the transport of the TURN
-- client give it; without one, `emit` would throw the error.
unfoldable pub fail : Exception → Method (Unit {0})
fail e = do
  d ← self
  let stop : Method (Unit {0}) = do
    clear_retransmit
    release_handshake_state
    set_phase failed
    emit (error_event e)
  if is_over d.phase then skip else stop

module _ (c : Crypto) where
  -- What `#sendRecord` puts into the record: the payload, or its encryption past ChangeCipherSpec.
  unfoldable pub protected : Bool → Option GcmCipher → ℕ → ℕ → ℕ → Buffer → Result Buffer
  protected false g epoch seq type payload = ok payload
  protected true none epoch seq type payload = ok payload
  protected true (some g) epoch seq type payload = encrypt c g epoch seq type dtls_1_2 payload

  -- `#sendRecord`.
  unfoldable pub send_record : ℕ → Buffer → Method (Unit {0})
  send_record type payload = do
    d ← self
    modify (λ x. record x { send_seq = x.send_seq + 1 })
    fragment ← lift (protected d.send_encrypted d.write_cipher d.send_epoch d.send_seq type payload)
    bytes ← lift (
        encode_record (record {
          type = type;
          version = dtls_1_2;
          epoch = d.send_epoch;
          seq = d.send_seq;
          fragment = fragment;
        }))
    emit (output bytes)

  -- The loop of `#flushFlight`.
  unfoldable pub send_datagrams : List FlightDatagram → Method (Unit {0})
  send_datagrams [] = skip
  send_datagrams (f ∷ fs) = do send_record f.type f.payload; send_datagrams fs

  -- `#flushFlight`.
  unfoldable pub flush_flight : Method (Unit {0})
  flush_flight = do d ← self; send_datagrams d.last_flight

  -- `#sendChangeCipherSpec`.
  unfoldable pub send_change_cipher_spec : Method (Unit {0})
  send_change_cipher_spec = do
    send_record change_cipher_spec (1 ∷ [])
    modify (λ d. record d { send_epoch = 1; send_seq = 0; send_encrypted = true })

  -- The callback of the pending timer.
  retransmit : Method (Unit {0})
  retransmit = do
    d ← self
    let again : Method (Unit {0}) = do
      modify (λ x. record x { retransmit_count = x.retransmit_count + 1 })
      flush_flight
      arm_retransmit
    if d.handshake_done || not (phase_eq d.phase handshaking)
        then skip
        else (if leb max_retransmits d.retransmit_count then fail timeout_error else again)

  fire_pending : Option ℕ → Method (Unit {0})
  unfolding retransmit
  fire_pending none = skip
  fire_pending (some delay) = do clear_retransmit; retransmit

  -- The timer fires, if it is pending.
  unfoldable pub fire : Method (Unit {0})
  unfolding fire_pending
  fire = do d ← self; fire_pending d.retransmit_timer

  -- `send`.
  unfoldable pub send : Buffer → Method (Unit {0})
  send bytes = do
    d ← self
    let sending = send_record application_data bytes
    if not (phase_eq d.phase connected) then throw state_error else sending

  -- `close`; an exception of its alert is dropped.
  unfoldable pub close : Method (Unit {0})
  close = do
    d ← self
    let goodbye : Method (Unit {0}) =
        if d.send_encrypted then send_record alert (1 ∷ 0 ∷ []) else skip
    let stop : Method (Unit {0}) = do
      attempt goodbye (λ e. skip)
      clear_retransmit
      release_handshake_state
      set_phase closed
      emit close_event
    if is_over d.phase then skip else stop
