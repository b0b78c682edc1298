-- ===== src/Dtls/Connection/Ends.antt =====
-- How a connection ends.
use node_rtc_connection.Prelude.{
  ◌≡◌, refl, inl, inr, true, false, none, List, [], ◌∷◌, Bool-cases, Result-cases, if◌then◌else◌,
  Exception, Result, ok, err, state_error,
}
use node_rtc_connection.Buffer.{Buffer}
use node_rtc_connection.Effects.{returned, settled, skip, attempt_dropped, throw}
use node_rtc_connection.Dtls.Protocol.{DtlsRecord, parse_records}
use node_rtc_connection.Dtls.Primitives.{Crypto}
use node_rtc_connection.Dtls.Connection.{
  Dtls, Method, Event, error_event, Phase, new, handshaking, connected, closed, failed, phase_eq,
}
use node_rtc_connection.Dtls.Connection.Outbound.{
  fail, close, send_record, alert, send, fire, is_over,
}
use node_rtc_connection.Dtls.Connection.Framing.{Fresh}
use node_rtc_connection.Dtls.Connection.Inbound.{
  handle_record, handle_records, handle_packet, start,
}

-- Closed or failed, with no timer.
pub record IsOver (d : Dtls) : Type 0 where
  pub over : is_over d.phase ≡ true
  pub timer : d.retransmit_timer ≡ none

fail_returns : (e : Exception) (d : Dtls) → (fail e d).result ≡ ok tt
unfolding fail
fail_returns e d = elim (Bool-cases (is_over d.phase)) [ inl h ↦ rw h refl | inr h ↦ rw h refl ]

settled_returns :
    (c : Crypto) (fresh : Fresh) (secret : Buffer) (rs : List DtlsRecord) (r : Result (Unit {0}))
    (d : Dtls) (events : List Event)
    → ((x : Dtls) → (handle_records c fresh secret rs x).result ≡ ok tt)
    → (settled r d events (handle_records c fresh secret rs) fail).result ≡ ok tt
settled_returns c fresh secret rs (ok x) d events h = h d
settled_returns c fresh secret rs (err e) d events h = fail_returns e d

handle_records_returns :
    (c : Crypto) (fresh : Fresh) (secret : Buffer) (rs : List DtlsRecord) (d : Dtls)
    → (handle_records c fresh secret rs d).result ≡ ok tt
unfolding handle_records
handle_records_returns c fresh secret [] d = refl
handle_records_returns c fresh secret (r ∷ rs) d =
    let o = handle_record c fresh secret r d in
    settled_returns c fresh secret rs o.result o.state o.events
      (handle_records_returns c fresh secret rs)

-- With a listener of `error`, `handlePacket` never throws, whatever the datagram holds and in whatever
-- state the connection is.
pub handle_packet_returns :
    (c : Crypto) (fresh : Fresh) (secret packet : Buffer) (d : Dtls)
    → (handle_packet c fresh secret packet d).result ≡ ok tt
unfolding handle_packet
handle_packet_returns c fresh secret packet d = elim (Bool-cases (is_over d.phase)) [
  | inl h ↦ rw h refl
  | inr h ↦ elim (Result-cases (parse_records packet)) [
    | inl (rs, p) ↦ rw (h, p) (handle_records_returns c fresh secret rs d)
    | inr (e, p) ↦ rw (h, p) refl
  ]
]

over_phases :
    (p : Phase) → is_over p ≡ true → (phase_eq p new ≡ false) × (phase_eq p connected ≡ false)
over_phases closed h = (refl, refl)
over_phases failed h = (refl, refl)
over_phases new h = cc
over_phases handshaking h = cc
over_phases connected h = cc

-- `handlePacket`, `start`, `close` and the timer change nothing and emit nothing, and `send` throws and
-- changes nothing.
abbrev pub IsInert : Crypto → Fresh → Buffer → Buffer → Buffer → Dtls → Type 0
IsInert c fresh secret packet bytes d =
    (handle_packet c fresh secret packet d ≡ returned tt d [])
    × (start c fresh secret d ≡ returned tt d [])
    × (close c d ≡ returned tt d [])
    × (fire c d ≡ returned tt d [])
    × (send c bytes d ≡ throw state_error d)

over_lem :
    (c : Crypto) (fresh : Fresh) (secret packet bytes : Buffer) (d : Dtls)
    → IsOver d
    → IsInert c fresh secret packet bytes d
unfolding handle_packet start close fire send
over_lem c fresh secret packet bytes d o =
    let (n, k) = over_phases d.phase o.over in
    (rw (o.over) refl, rw n refl, rw (o.over) refl, rw (o.timer) refl, rw k refl)

-- What `close` tries first.
abbrev goodbye : Crypto → Dtls → Method (Unit {0})
goodbye c d = if d.send_encrypted then send_record c alert (1 ∷ 0 ∷ []) else skip

ends_lem :
    (c : Crypto) (e : Exception) (d : Dtls)
    → is_over d.phase ≡ false
    → IsOver (fail e d).state
      × ((fail e d).events ≡ error_event e ∷ [])
      × IsOver (close c d).state
      × ((close c d).result ≡ ok tt)
unfolding fail close
ends_lem c e d h = (
  rw h (record { over = refl; timer = refl }),
  rw h refl,
  rw (h, attempt_dropped (goodbye c d) d) (record { over = refl; timer = refl }),
  rw (h, attempt_dropped (goodbye c d) d) refl,
)

-- Both ends of a connection that is neither closed nor failed: `#fail` emits the error and nothing else,
-- `close` does not throw, and what either leaves ignores from then on every datagram, `start`, `close` and
-- the timer, without a change or an event, while its `send` throws and changes nothing.
pub ended_lem :
    (c : Crypto) (fresh : Fresh) (secret packet bytes : Buffer) (e : Exception) (d : Dtls)
    → is_over d.phase ≡ false
    → ((fail e d).events ≡ error_event e ∷ [])
      × IsInert c fresh secret packet bytes (fail e d).state
      × ((close c d).result ≡ ok tt)
      × IsInert c fresh secret packet bytes (close c d).state
ended_lem c fresh secret packet bytes e d h =
    let (failed_over, told, closed_over, quiet) = ends_lem c e d h in
    (
      told,
      over_lem c fresh secret packet bytes (fail e d).state failed_over,
      quiet,
      over_lem c fresh secret packet bytes (close c d).state closed_over,
    )
