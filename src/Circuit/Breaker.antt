-- ===== src/Circuit/Breaker.antt =====
-- `CircuitBreaker` (backend/core/circuit_breaker.py). Each method holds the lock of the breaker for
-- its whole body, so a call is one step. `now` is what `time.monotonic()` gives, in microseconds.
use dewflow.Base.{ℕ, ◌+◌, ◌*◌, String, Bool, true, false, List, [], ◌∷◌, leb, ltb, if◌then◌else◌}

-- `CircuitState`
pub data CircuitState : Type 0 where
  closed opened half_open : CircuitState

abbrev pub state_eq : CircuitState → CircuitState → Bool
state_eq closed closed = true
state_eq opened opened = true
state_eq half_open half_open = true
state_eq _ _ = false

pub record CircuitBreaker : Type 0 where
  pub name : String
  pub failure_threshold : ℕ
  pub cooldown_seconds : ℕ
  pub half_open_max_calls : ℕ
  pub state : CircuitState
  pub failure_count : ℕ
  pub last_failure_time : ℕ
  pub half_open_inflight : ℕ

-- `__init__`
unfoldable pub new_breaker : String → ℕ → ℕ → ℕ → CircuitBreaker
new_breaker name failure_threshold cooldown_seconds half_open_max_calls = record {
  name = name;
  failure_threshold = failure_threshold;
  cooldown_seconds = cooldown_seconds;
  half_open_max_calls = half_open_max_calls;
  state = closed;
  failure_count = 0;
  last_failure_time = 0;
  half_open_inflight = 0;
}

-- What a caller gets: the permit, or the service error `CIRCUIT_BREAKER_OPEN` with the failure count.
pub data Acquired : Type 0 where
  admitted : Acquired
  circuit_breaker_open : ℕ → Acquired

-- the time from which an open breaker lets a probe through
abbrev pub cooled_at : CircuitBreaker → ℕ
cooled_at self = self.last_failure_time + self.cooldown_seconds * 1000000

unfoldable pub acquire_half_open : CircuitBreaker → Acquired × CircuitBreaker
acquire_half_open self =
    if ltb self.half_open_inflight self.half_open_max_calls
    then (admitted, record self { half_open_inflight = self.half_open_inflight + 1 })
    else (circuit_breaker_open self.failure_count, self)

abbrev pub acquire_as : CircuitState → ℕ → CircuitBreaker → Acquired × CircuitBreaker
unfolding acquire_half_open
acquire_as closed now self = (admitted, self)
acquire_as opened now self =
    if leb (cooled_at self) now
    then acquire_half_open (record self { state = half_open; half_open_inflight = 0 })
    else (circuit_breaker_open self.failure_count, self)
acquire_as half_open now self = acquire_half_open self

unfoldable pub acquire : ℕ → CircuitBreaker → Acquired × CircuitBreaker
acquire now self = acquire_as self.state now self

unfoldable pub on_success : CircuitBreaker → CircuitBreaker
on_success self =
    if state_eq self.state opened
    then self
    else record self { state = closed; failure_count = 0; half_open_inflight = 0 }

abbrev pub fail_as : CircuitState → CircuitBreaker → CircuitBreaker
fail_as half_open self = record self { state = opened; half_open_inflight = 0 }
fail_as closed self =
    if leb self.failure_threshold self.failure_count then record self { state = opened } else self
fail_as opened self = self

unfoldable pub on_failure : ℕ → CircuitBreaker → CircuitBreaker
on_failure now self =
    fail_as self.state
      (record self { failure_count = self.failure_count + 1; last_failure_time = now })

-- A call on the breaker, by any of its users.
pub data Call : Type 0 where
  acquiring failing : ℕ → Call
  succeeding : Call

unfoldable pub apply : Call → CircuitBreaker → CircuitBreaker
apply (acquiring now) self = (acquire now self).1
apply succeeding self = on_success self
apply (failing now) self = on_failure now self

unfoldable pub run : List Call → CircuitBreaker → CircuitBreaker
run [] self = self
run (call ∷ calls) self = run calls (apply call self)

abbrev pub is_admitted : Acquired → Bool
is_admitted admitted = true
is_admitted (circuit_breaker_open n) = false

-- How many calls of a history got a permit.
unfoldable pub admissions : List Call → CircuitBreaker → ℕ
admissions [] self = 0
admissions (acquiring now ∷ calls) self =
    let (answer, self') = acquire now self in
    let rest = admissions calls self' in if is_admitted answer then 1 + rest else rest
admissions (call ∷ calls) self = admissions calls (apply call self)
