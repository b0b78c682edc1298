-- ===== src/Sctp/Association/Timers.antt =====
-- The timer of the setup, and the end of an association.
use node_rtc_connection.Prelude.{
  ℕ, zero, suc, ◌+◌, ◌*◌, min, ◌≡◌, refl, ap, ◌∙◌, inl, inr, true, false, Option, none, some, List,
  [], ◌∷◌, ◌++◌, arith, leb, if◌then◌else◌, Bool-cases, length,
}
use node_rtc_connection.Buffer.{Buffer}
use node_rtc_connection.Sctp.Association.{
  Assoc, closed, cookie_echoed, established, state_eq, output, error_event, close_event, Reason,
  setup_timed_out, InitTimer,
}
use node_rtc_connection.Sctp.Association.Monad.{
  Handler, ◌>>◌, skip, returned, bind_ok, abort_with, close, fire,
}
use node_rtc_connection.Sctp.Association.{rto_max}
use node_rtc_connection.Sctp.Association.Monad.{fire_timer}
use node_rtc_connection.Sctp.Association.Packets.{HasPorts, emit_packet_lem}
use node_rtc_connection.Sctp.Association.Emission.{outputs}

-- The timer fires a number of times, with nothing else in between.
unfoldable pub fires : ℕ → Handler
fires zero = skip
fires (suc n) = do fire; fires n

-- What closing leaves.
pub record IsClosed (a : Assoc) : Type 0 where
  pub state : a.state ≡ closed
  pub timer : a.init_timer ≡ none
  pub queue : a.sent_queue ≡ []
  pub buffered : a.received_out_of_order ≡ []
  pub fragments : a.fragments ≡ []

-- On an association that `close` or `#abort` has ended, both return normally, change nothing and
-- emit nothing.
pub close_again :
    (r : Reason) (a : Assoc)
    → (close (close a).assoc ≡ returned tt (close a).assoc [])
      × (close (abort_with r a).assoc ≡ returned tt (abort_with r a).assoc [])
      × (abort_with r (close a).assoc ≡ returned tt (close a).assoc [])
      × (abort_with r (abort_with r a).assoc ≡ returned tt (abort_with r a).assoc [])
unfolding close abort_with
close_again r a = elim (Bool-cases (state_eq a.state closed)) [
  | inl h ↦ rw (h, h) (refl, refl, refl, refl)
  | inr h ↦ rw h (refl, refl, refl, refl)
]

-- Neither closed nor established, with 16-bit ports.
pub record InSetup (a : Assoc) : Type 0 where
  pub not_up : state_eq a.state established ≡ false
  pub not_closed : state_eq a.state closed ≡ false
  pub ports : HasPorts a

abbrev aborted : Assoc → Assoc
aborted a = record a {
  state = closed;
  init_timer = none;
  sent_queue = [];
  received_out_of_order = [];
  fragments = [];
}

abort_with_lem :
    (r : Reason) (a : Assoc)
    → state_eq a.state closed ≡ false
    → abort_with r a ≡ returned tt (aborted a) (error_event r ∷ close_event ∷ [])
unfolding abort_with
abort_with_lem r a h = rw h refl

-- In an association that is in setup and has 16-bit ports, when the timer has fired `8 - k` times and
-- fires `k + 1` times more with nothing in between, it sends `k` packets, then reports that the setup
-- timed out, and is closed with no timer and its buffers released; nothing throws.
pub fires_lem :
    (k : ℕ) (t : InitTimer) (a : Assoc)
    → a.init_timer ≡ some t
    → k + t.attempts ≡ 8
    → InSetup a
    → (ps : List Buffer) × (length ps ≡ k)
      × (end : Assoc) × (fires (suc k) a
          ≡ returned tt end (outputs ps ++ (error_event setup_timed_out ∷ close_event ∷ [])))
      × IsClosed end
unfolding fires fire fire_timer
fires_lem zero t a pending count v =
    let late : leb 8 t.attempts ≡ true = ground arith in
    let once : fire_timer (some t) a
        ≡ returned tt (aborted a) (error_event setup_timed_out ∷ close_event ∷ []) =
      rw (v.not_up, v.not_closed, late) (abort_with_lem setup_timed_out a v.not_closed) in
    let fired = ap (λ (x : Option InitTimer). fire_timer x a) pending ∙ once in
    (
      [],
      refl,
      aborted a,
      bind_ok fire (λ _. fires zero) a tt (aborted a) _ fired,
      record { state = refl; timer = refl; queue = refl; buffered = refl; fragments = refl },
    )
fires_lem (suc k) t a pending count v =
    let not_late : leb 8 t.attempts ≡ false = ground arith in
    let (p, emitted, _) =
      emit_packet_lem (if state_eq a.state cookie_echoed then a.remote_tag else 0) t.chunks a
        v.ports in
    let t' : InitTimer = record {
      rto = min (t.rto * 2) rto_max;
      attempts = t.attempts + 1;
      chunks = t.chunks;
    } in
    let a' = record a { init_timer = some t' } in
    let (ps, size, end, rest, is_closed) =
      fires_lem k t' a' refl (omega arith)
        (record { not_up = v.not_up; not_closed = v.not_closed; ports = v.ports }) in
    let once : fire_timer (some t) a ≡ returned tt a' (output p ∷ []) =
      rw (v.not_up, v.not_closed, not_late, emitted) refl in
    let fired = ap (λ (x : Option InitTimer). fire_timer x a) pending ∙ once in
    (
      p ∷ ps,
      ap suc size,
      end,
      bind_ok fire (λ _. fires (suc k)) a tt a' _ fired ∙ rw rest refl,
      is_closed,
    )
