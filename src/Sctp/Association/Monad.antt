-- ===== src/Sctp/Association/Monad.antt =====
-- src/sctp/association.ts: how a handler runs, and the helpers that the handlers share. A handler is
-- a state transformer that also returns what it emitted, in order, and whether it threw; what it
-- changed before it threw stays changed. Listeners return normally and do not call back.
use node_rtc_connection.Prelude.{
  ℕ, ◌+◌, ◌*◌, Option, none, some, List, [], ◌∷◌, ◌++◌, Exception, Result, ok, err, leb,
  if◌then◌else◌, ◌||◌, min,
}
use mathlib.Core.Path.{◌≡◌}
use native.Mathlib.Omega.{arith}
use node_rtc_connection.Buffer.{Buffer, concat}
use node_rtc_connection.Sctp.Chunks.{encode_common_header}
use node_rtc_connection.Sctp.Checksum.{apply_checksum}
use node_rtc_connection.Sctp.Association.{
  Assoc, State, closed, cookie_echoed, established, state_eq, Event, output, error_event,
  close_event, Reason, setup_timed_out, InitTimer, rto_initial, rto_max,
}

pub record Outcome (A : Type 0) : Type 0 where
  pub result : Result A
  pub assoc : Assoc
  pub events : List Event

abbrev pub M : Type 0 → Type 0
M A = Assoc → Outcome A

abbrev pub Handler : Type 0
Handler = M (Unit {0})

-- The second part runs on what the first left, unless the first threw.
abbrev pub and_then : {A B : Type 0} → Result A → Assoc → List Event → (A → M B) → Outcome B
and_then (ok x) a events f =
    let o = f x a in record { result = o.result; assoc = o.assoc; events = events ++ o.events }
and_then (err e) a events f = record { result = err e; assoc = a; events = events }

infixl 5 ◌>>=◌ ◌>>◌
abbrev pub ◌>>=◌ : {A B : Type 0} → M A → (A → M B) → M B
◌>>=◌ m f a = let o = m a in and_then o.result o.assoc o.events f

abbrev pub ◌>>◌ : {B : Type 0} → Handler → M B → M B
m >> k = m >>= λ _. k

abbrev pub pure : {A : Type 0} → A → M A
pure x a = record { result = ok x; assoc = a; events = [] }

abbrev pub skip : Handler
skip = pure tt

-- `this`.
abbrev pub self : M Assoc
self a = record { result = ok a; assoc = a; events = [] }

abbrev pub modify : (Assoc → Assoc) → Handler
modify f a = record { result = ok tt; assoc = f a; events = [] }

abbrev pub emit : Event → Handler
emit e a = record { result = ok tt; assoc = a; events = e ∷ [] }

abbrev pub lift : {A : Type 0} → Result A → M A
lift r a = record { result = r; assoc = a; events = [] }

abbrev pub throw : {A : Type 0} → Exception → M A
throw e a = record { result = err e; assoc = a; events = [] }

abbrev pub set_state : State → Handler
set_state s = modify (λ a. record a { state = s })

-- `#emitPacket`.
unfoldable pub emit_packet : ℕ → List Buffer → Handler
emit_packet verification_tag chunks = do
  a ← self
  header ← lift (encode_common_header a.local_port a.remote_port verification_tag)
  packet ← lift (apply_checksum (concat (header ∷ chunks)))
  emit (output packet)

-- `#clearInitTimer`.
abbrev pub clear_init_timer : Handler
clear_init_timer = modify (λ a. record a { init_timer = none })

-- `#armInitRetransmit`.
unfoldable pub arm_init_retransmit : List Buffer → Handler
arm_init_retransmit chunks = do
  clear_init_timer
  modify (λ a. record a {
    init_timer = some (record { rto = rto_initial; attempts = 0; chunks = chunks });
  })

-- `#releaseBuffers`.
abbrev pub release_buffers : Handler
release_buffers =
    modify (λ a. record a { sent_queue = []; received_out_of_order = []; fragments = [] })

-- `#abort`.
unfoldable pub abort_with : Reason → Handler
abort_with reason = do
  clear_init_timer
  a ← self
  let stop : Handler = do
    set_state closed
    release_buffers
    emit (error_event reason)
    emit close_event
  if state_eq a.state closed then skip else stop

-- `#close`.
unfoldable pub close : Handler
close = do
  clear_init_timer
  a ← self
  let stop : Handler = do set_state closed; release_buffers; emit close_event
  if state_eq a.state closed then skip else stop

-- One call of `fire` by the timer: `none` where no timer is pending.
unfoldable pub fire_timer : Option InitTimer → Handler
fire_timer none = skip
fire_timer (some t) = do
  a ← self
  let again : Handler = do
    emit_packet (if state_eq a.state cookie_echoed then a.remote_tag else 0) t.chunks
    modify (λ b. record b {
      init_timer =
          some (record {
            rto = min (t.rto * 2) rto_max;
            attempts = t.attempts + 1;
            chunks = t.chunks;
          });
    })
  let late = leb 8 t.attempts
  if state_eq a.state established || state_eq a.state closed
      then clear_init_timer
      else (if late then abort_with setup_timed_out else again)

unfoldable pub fire : Handler
unfolding fire_timer
fire = do a ← self; fire_timer a.init_timer

-- An outcome behind other events.
abbrev pub after : {A : Type 0} → List Event → Outcome A → Outcome A
after events o = record { result = o.result; assoc = o.assoc; events = events ++ o.events }

abbrev pub returned : {A : Type 0} → A → Assoc → List Event → Outcome A
returned x a events = record { result = ok x; assoc = a; events = events }

pub bind_ok :
    {A B : Type 0} (m : M A) (f : A → M B) (a : Assoc) (x : A) (a' : Assoc) (events : List Event)
    → m a ≡ returned x a' events
    → (m >>= f) a ≡ after events (f x a')
bind_ok m f a x a' events h = rw h

-- A handler that threw nothing.
pub outcome_ok : (o : Outcome (Unit {0})) → o.result ≡ ok tt → o ≡ returned tt o.assoc o.events
outcome_ok o h = ground (arith, h)
