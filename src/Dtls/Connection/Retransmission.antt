-- ===== src/Dtls/Connection/Retransmission.antt =====
-- src/dtls/connection.ts: the retransmission timer of the handshake.
use node_rtc_connection.Prelude.{
  ℕ, zero, suc, ◌+◌, ◌*◌, ◌^◌, ◌≤◌, ◌<◌, ◌≡◌, refl, sym, ap, ◌∙◌, true, false, none, some, List, [],
  ◌∷◌, ◌++◌, append-nil, append_assoc, arith, ◌||◌, not, leb, length, timeout_error,
}
use node_rtc_connection.Buffer.{IsByte, IsU16}
use node_rtc_connection.Effects.{returned, after, skip, ◌>>◌}
use node_rtc_connection.Dtls.Protocol.{DtlsRecord, dtls_1_2}
use node_rtc_connection.Dtls.Protocol.Records.{IsRecord, record_bytes, encode_record_lem}
use node_rtc_connection.Dtls.Primitives.{Crypto}
use node_rtc_connection.Dtls.Connection.{
  Dtls, Method, Event, FlightDatagram, phase_eq, handshaking, failed, output, error_event,
  max_retransmits, handshake_timeout_ms,
}
use node_rtc_connection.Dtls.Connection.Outbound.{
  protected, send_record, send_datagrams, flush_flight, fire, fail, is_over, arm_retransmit,
}
use node_rtc_connection.Dtls.Connection.Ends.{IsOver}

-- The datagrams of a flight fit into records.
abbrev pub Fits : List FlightDatagram → Type 0
Fits [] = Unit {0}
Fits (f ∷ fs) = IsByte f.type × IsU16 (length f.payload) × Fits fs

-- A flight as it goes out in the clear, numbered from `seq`.
abbrev pub plain_flight : ℕ → ℕ → List FlightDatagram → List Event
plain_flight epoch seq [] = []
plain_flight epoch seq (f ∷ fs) =
    output (
      record_bytes (record {
        type = f.type;
        version = dtls_1_2;
        epoch = epoch;
        seq = seq;
        fragment = f.payload;
      }))
    ∷ plain_flight epoch (seq + 1) fs

pub send_record_plain :
    (c : Crypto) (f : FlightDatagram) (d : Dtls)
    → d.send_encrypted ≡ false
    → IsU16 d.send_epoch
    → d.send_seq < 281474976710656
    → IsByte f.type
    → IsU16 (length f.payload)
    → send_record c f.type f.payload d
      ≡ returned tt
          (record d { send_seq = d.send_seq + 1 })
          (plain_flight d.send_epoch d.send_seq (f ∷ []))
unfolding send_record protected
send_record_plain c f d p e n t s =
    let r : DtlsRecord = record {
      type = f.type;
      version = dtls_1_2;
      epoch = d.send_epoch;
      seq = d.send_seq;
      fragment = f.payload;
    } in
    let v : IsRecord r = record { type = t; version = omega arith; epoch = e; seq = n; size = s } in
    simp (p, encode_record_lem r v)

send_datagrams_lem :
    (c : Crypto) (fs : List FlightDatagram) (d : Dtls)
    → d.send_encrypted ≡ false
    → IsU16 d.send_epoch
    → d.send_seq + length fs ≤ 281474976710656
    → Fits fs
    → send_datagrams c fs d
      ≡ returned tt
          (record d { send_seq = d.send_seq + length fs })
          (plain_flight d.send_epoch d.send_seq fs)
unfolding send_datagrams
send_datagrams_lem c [] d p e n k =
    let zero_more : d.send_seq ≡ d.send_seq + 0 = omega arith in
    ap (λ (m : ℕ). returned tt (record d { send_seq = m }) []) zero_more
send_datagrams_lem c (f ∷ fs) d p e n (t, s, k) =
    let one_more : d.send_seq + 1 + length fs ≡ d.send_seq + length (f ∷ fs) = omega arith in
    let rest =
      send_datagrams_lem c fs (record d { send_seq = d.send_seq + 1 }) p e (omega arith) k in
    rw (send_record_plain c f d p e (omega arith) t s, rest, one_more) refl

-- A handshake in the clear that waits for the peer, with room for its flight's numbers in each of the
-- rounds that are left.
pub record IsWaiting (d : Dtls) (rounds : ℕ) : Type 0 where
  pub phase : d.phase ≡ handshaking
  pub undone : d.handshake_done ≡ false
  pub delay : ℕ
  pub timer : d.retransmit_timer ≡ some delay
  pub plain : d.send_encrypted ≡ false
  pub epoch : IsU16 d.send_epoch
  pub seq : d.send_seq + rounds * length d.last_flight ≤ 281474976710656
  pub fits : Fits d.last_flight
  pub left : d.retransmit_count + rounds ≡ max_retransmits

-- The state after a round.
abbrev again : Dtls → Dtls
again d = record d {
  retransmit_timer = some (handshake_timeout_ms * 2 ^ (d.retransmit_count + 1));
  retransmit_count = d.retransmit_count + 1;
  send_seq = d.send_seq + length d.last_flight;
}

fire-again :
    (c : Crypto) (rounds : ℕ) (d : Dtls)
    → IsWaiting d (suc rounds)
    → fire c d ≡ returned tt (again d) (plain_flight d.send_epoch d.send_seq d.last_flight)
unfolding fire flush_flight arm_retransmit
fire-again c rounds d w =
    let few : leb max_retransmits d.retransmit_count ≡ false = ground (arith, w.left) in
    let d' = record d { retransmit_timer = none; retransmit_count = d.retransmit_count + 1 } in
    let sent =
      send_datagrams_lem c d.last_flight d' w.plain w.epoch (omega (arith, w.seq)) w.fits in
    let waits : (d.handshake_done || not (phase_eq d.phase handshaking)) ≡ false =
      simp (w.undone, w.phase) in
    rw (w.timer, waits, few, sent, append-nil (plain_flight d.send_epoch d.send_seq d.last_flight))
      refl

-- Once more for the firing after the last round.
fire_last :
    (c : Crypto) (d : Dtls)
    → IsWaiting d 0
    → fire c d ≡ fail timeout_error (record d { retransmit_timer = none })
unfolding fire
fire_last c d w =
    let spent : leb max_retransmits d.retransmit_count ≡ true = ground (arith, w.left) in
    let waits : (d.handshake_done || not (phase_eq d.phase handshaking)) ≡ false =
      simp (w.undone, w.phase) in
    rw (w.timer, waits, spent) refl

again-IsWaiting : (rounds : ℕ) (d : Dtls) → IsWaiting d (suc rounds) → IsWaiting (again d) rounds
again-IsWaiting rounds d w = record {
  phase = w.phase;
  undone = w.undone;
  delay = handshake_timeout_ms * 2 ^ (d.retransmit_count + 1);
  timer = refl;
  plain = w.plain;
  epoch = w.epoch;
  seq = omega (arith, w.seq);
  fits = w.fits;
  left = omega (arith, w.left);
}

-- The timer fires a number of times, and nothing comes in between.
unfoldable pub fire_times : Crypto → ℕ → Method (Unit {0})
fire_times c zero = skip
fire_times c (suc k) = do fire c; fire_times c k

-- The flight, a number of times, with the numbers going on.
abbrev pub repeated : ℕ → ℕ → ℕ → List FlightDatagram → List Event
repeated zero epoch seq fs = []
repeated (suc k) epoch seq fs = plain_flight epoch seq fs ++ repeated k epoch (seq + length fs) fs

-- A handshake in the clear that gets no answer ends: when the timer fires and nothing comes in
-- between, it sends the last flight again, once for each of the rounds that are left of
-- `MAX_RETRANSMITS`, its records numbered on from the last one, and the firing behind them fails the
-- connection with a timeout and leaves no timer. No call throws. The timer is pending at the start,
-- and the flight's records have room for their types, lengths and numbers.
pub fire_times_lem :
    (c : Crypto) (rounds : ℕ) (d : Dtls)
    → IsWaiting d rounds
    → (s : Dtls) × (fire_times c (suc rounds) d
        ≡ returned tt s (
            repeated rounds d.send_epoch d.send_seq d.last_flight
            ++ (error_event timeout_error ∷ [])))
      × (s.phase ≡ failed)
      × IsOver s
unfolding fire_times fail
fire_times_lem c zero d w =
    let unfinished : is_over d.phase ≡ false = ap is_over w.phase in
    let end = (fail timeout_error (record d { retransmit_timer = none })).state in
    (
      end,
      rw (fire_last c d w, unfinished) refl,
      rw unfinished refl,
      rw unfinished (record { over = refl; timer = refl }),
    )
fire_times_lem c (suc rounds) d w =
    let (s, runs, f, o) = fire_times_lem c rounds (again d) (again-IsWaiting rounds d w) in
    let now = plain_flight d.send_epoch d.send_seq d.last_flight in
    let later = repeated rounds d.send_epoch (d.send_seq + length d.last_flight) d.last_flight in
    (
      s,
      rw (fire-again c rounds d w) (
          ap (after now) runs
          ∙ ap (returned tt s) (sym (append_assoc now later (error_event timeout_error ∷ [])))),
      f,
      o,
    )
