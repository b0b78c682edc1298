-- ===== src/Effects.antt =====
-- Methods of an object that changes and emits events: a state transformer that also returns what it
-- emitted, in order, and its result or what it threw. What it changed before it threw stays changed.
use node_rtc_connection.Prelude.{
  ◌≡◌, refl, ap, append-nil, List, [], ◌∷◌, ◌++◌, Exception, Result, ok, err, Bool, true, false,
  if◌then◌else◌,
}

pub record Outcome (S E A : Type 0) : Type 0 where
  pub result : Result A
  pub state : S
  pub events : List E

abbrev pub M : Type 0 → Type 0 → Type 0 → Type 0
M S E A = S → Outcome S E A

module _ {S E : Type 0} where
  abbrev pub returned : {A : Type 0} → A → S → List E → Outcome S E A
  returned x s events = record { result = ok x; state = s; events = events }

  -- An outcome behind other events.
  abbrev pub after : {A : Type 0} → List E → Outcome S E A → Outcome S E A
  after events o = record { result = o.result; state = o.state; events = events ++ o.events }

  -- The second part runs on what the first left, unless the first threw.
  abbrev pub and_then : {A B : Type 0} → Result A → S → List E → (A → M S E B) → Outcome S E B
  and_then (ok x) s events f = after events (f x s)
  and_then (err e) s events f = record { result = err e; state = s; events = events }

  infixl 5 ◌>>=◌ ◌>>◌
  abbrev pub ◌>>=◌ : {A B : Type 0} → M S E A → (A → M S E B) → M S E B
  ◌>>=◌ m f s = let o = m s in and_then o.result o.state o.events f

  abbrev pub ◌>>◌ : {B : Type 0} → M S E (Unit {0}) → M S E B → M S E B
  m >> k = m >>= λ _. k

  abbrev pub pure : {A : Type 0} → A → M S E A
  pure x s = returned x s []

  abbrev pub skip : M S E (Unit {0})
  skip = pure tt

  -- `this`.
  abbrev pub self : M S E S
  self s = returned s s []

  abbrev pub modify : (S → S) → M S E (Unit {0})
  modify f s = returned tt (f s) []

  abbrev pub emit : E → M S E (Unit {0})
  emit e s = returned tt s (e ∷ [])

  abbrev pub lift : {A : Type 0} → Result A → M S E A
  lift r s = record { result = r; state = s; events = [] }

  abbrev pub throw : {A : Type 0} → Exception → M S E A
  throw e s = record { result = err e; state = s; events = [] }

  -- `catch`.
  abbrev pub handled :
      Result (Unit {0}) → S → List E → (Exception → M S E (Unit {0})) → Outcome S E (Unit {0})
  handled (ok x) s events f = returned tt s events
  handled (err e) s events f = after events (f e s)

  abbrev pub attempt : M S E (Unit {0}) → (Exception → M S E (Unit {0})) → M S E (Unit {0})
  attempt m f s = let o = m s in handled o.result o.state o.events f

  -- A call that returned is followed by one method, and one that threw by the handler alone.
  abbrev pub settled :
      Result (Unit {0})
      → S
      → List E
      → M S E (Unit {0})
      → (Exception → M S E (Unit {0}))
      → Outcome S E (Unit {0})
  settled (ok x) s events k f = after events (k s)
  settled (err e) s events k f = after events (f e s)

  abbrev pub try_then :
      M S E (Unit {0}) → M S E (Unit {0}) → (Exception → M S E (Unit {0})) → M S E (Unit {0})
  try_then m k f s = let o = m s in settled o.result o.state o.events k f

  pub bind_ok :
      {A B : Type 0} (m : M S E A) (f : A → M S E B) (s : S) (x : A) (s' : S) (events : List E)
      → m s ≡ returned x s' events
      → (m >>= f) s ≡ after events (f x s')
  bind_ok m f s x s' events h = rw h

module _ {S E : Type 0} where
  handled_dropped :
      (r : Result (Unit {0})) (s : S) (events : List E)
      → handled r s events (λ e. skip) ≡ returned tt s events
  handled_dropped (ok tt) s events = refl
  handled_dropped (err e) s events = ap (returned tt s) (append-nil events)

  -- A `catch` that does nothing leaves what the call left.
  pub attempt_dropped :
      (m : M S E (Unit {0})) (s : S)
      → attempt m (λ e. skip) s ≡ returned tt (m s).state (m s).events
  attempt_dropped m s = handled_dropped (m s).result (m s).state (m s).events

  and_then-skip :
      (r : Result (Unit {0})) (s : S) (events : List E)
      → and_then r s events (λ x. skip) ≡ record { result = r; state = s; events = events }
  and_then-skip (ok tt) s events = ap (returned tt s) (append-nil events)
  and_then-skip (err e) s events = refl

  pub then_skip : (m : M S E (Unit {0})) (s : S) → (m >> skip) s ≡ m s
  then_skip m s = and_then-skip (m s).result (m s).state (m s).events

-- What every method that a predicate is kept by does: on every way out, a throw included.
abbrev pub Keeps : {S E A : Type 0} → (S → Type 0) → M S E A → Type 0
Keeps P m = (s : _) → P s → P (m s).state

module _ {S E : Type 0} (P : S → Type 0) where
  pub and_then-Keeps :
      {A B : Type 0} (r : Result A) (s : S) (events : List E) (f : A → M S E B)
      → P s
      → ((x : A) → Keeps P (f x))
      → P (and_then r s events f).state
  and_then-Keeps (ok x) s events f p k = k x s p
  and_then-Keeps (err e) s events f p k = p

-- What every outcome of a method has to do with the state that it began with, throws included: a
-- relation that holds of one part after another where it holds of both.
abbrev pub Relates : {S E A : Type 0} → (S → List E → S → Type 0) → M S E A → Type 0
Relates R m = (s : _) → R s (m s).events (m s).state

module _ {S E : Type 0} (R : S → List E → S → Type 0)
    (chain : (s t u : S) (es fs : List E) → R s es t → R t fs u → R s (es ++ fs) u) where
  pub and_then-Relates :
      {A B : Type 0} (r : Result A) (s t : S) (events : List E) (f : A → M S E B)
      → R s events t
      → ((x : A) → R t (f x t).events (f x t).state)
      → R s (and_then r t events f).events (and_then r t events f).state
  and_then-Relates (ok x) s t events f p k = chain s t _ events _ p (k x)
  and_then-Relates (err e) s t events f p k = p

  pub if-Relates :
      {A : Type 0} (test : Bool) (m k : M S E A) (s : S)
      → R s (m s).events (m s).state
      → R s (k s).events (k s).state
      → R s ((if test then m else k) s).events ((if test then m else k) s).state
  if-Relates true m k s rm rk = rm
  if-Relates false m k s rm rk = rk
