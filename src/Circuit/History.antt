-- ===== src/Circuit/History.antt =====
-- The circuit breaker (backend/core/circuit_breaker.py) over histories of calls by its users.
use dewflow.Base.{
  ℕ, ◌+◌, ◌*◌, ◌≤◌, ◌<◌, ◌≡◌, refl, String, false, List, [], ◌∷◌, All, leb, ltb, length,
  if◌then◌else◌, Bool-cases, inl, inr, map, arith,
}
use dewflow.Circuit.Breaker.{
  CircuitBreaker, new_breaker, state_eq, closed, opened, half_open, Call, acquiring, succeeding,
  failing, acquire, acquire_half_open, on_success, on_failure, apply, run, admissions, is_admitted,
}

-- What holds of a breaker with `threshold` and `probes` whenever no method runs.
pub record IsConsistent (threshold probes : ℕ) (self : CircuitBreaker) : Type 0 where
  pub threshold_kept : self.failure_threshold ≡ threshold
  pub probes_kept : self.half_open_max_calls ≡ probes
  pub closed_below : self.state ≡ closed → self.failure_count < threshold
  pub tripped : (self.state ≡ closed → ⊥) → threshold ≤ self.failure_count
  pub probing_only : (self.state ≡ half_open → ⊥) → self.half_open_inflight ≡ 0
  pub probes_within : self.half_open_inflight ≤ probes
  pub some_probe : self.state ≡ half_open → 1 ≤ probes → 1 ≤ self.half_open_inflight

apply-IsConsistent :
    (threshold probes : ℕ) (call : Call) (self : CircuitBreaker)
    → 1 ≤ threshold
    → IsConsistent threshold probes self
    → IsConsistent threshold probes (apply call self)
unfolding apply acquire acquire_half_open on_success on_failure
apply-IsConsistent threshold probes (acquiring now) self p h = ground arith
apply-IsConsistent threshold probes succeeding self p h = ground arith
apply-IsConsistent threshold probes (failing now) self p h = ground arith

-- The failures that the users of a breaker have reported since the last success that found it not open
-- (a success while it is open is a late one, which changes nothing), after `seen` before the history.
abbrev pub reported : Call → CircuitBreaker → ℕ → ℕ
reported (acquiring now) self seen = seen
reported (failing now) self seen = seen + 1
reported succeeding self seen = if state_eq self.state opened then seen else 0

unfoldable pub failures_seen : List Call → CircuitBreaker → ℕ → ℕ
failures_seen [] self seen = seen
failures_seen (call ∷ calls) self seen =
    failures_seen calls (apply call self) (reported call self seen)

-- `seen` failures decide whether the breaker is closed.
pub record IsDecidedBy (threshold probes seen : ℕ) (self : CircuitBreaker) : Type 0 where
  pub consistent : IsConsistent threshold probes self
  pub counted : self.failure_count ≡ seen

apply-counts :
    (call : Call) (self : CircuitBreaker) (seen : ℕ)
    → self.failure_count ≡ seen
    → (apply call self).failure_count ≡ reported call self seen
unfolding apply acquire acquire_half_open on_success on_failure
apply-counts (acquiring now) self seen h = ground (arith, h)
apply-counts (failing now) self seen h = ground (arith, h)
apply-counts succeeding self seen h = ground (arith, h)

apply-IsDecidedBy :
    (threshold probes seen : ℕ) (call : Call) (self : CircuitBreaker)
    → 1 ≤ threshold
    → IsDecidedBy threshold probes seen self
    → IsDecidedBy threshold probes (reported call self seen) (apply call self)
apply-IsDecidedBy threshold probes seen call self p h = record {
  consistent = apply-IsConsistent threshold probes call self p h.consistent;
  counted = apply-counts call self seen h.counted;
}

run-IsDecidedBy :
    (threshold probes seen : ℕ) (calls : List Call) (self : CircuitBreaker)
    → 1 ≤ threshold
    → IsDecidedBy threshold probes seen self
    → IsDecidedBy threshold probes (failures_seen calls self seen) (run calls self)
unfolding run failures_seen
run-IsDecidedBy threshold probes seen [] self p h = h
run-IsDecidedBy threshold probes seen (call ∷ calls) self p h =
    run-IsDecidedBy threshold probes (reported call self seen) calls (apply call self) p
      (apply-IsDecidedBy threshold probes seen call self p h)

-- After every history of calls on a new breaker with a threshold of at least one, the breaker is closed
-- exactly if fewer failures than the threshold have been reported since the last success that did not
-- come while it was open; its count is that number; probes are out only while it is half open, and
-- never more than the limit.
pub run-closed :
    (name : String) (threshold cooldown probes : ℕ) (calls : List Call)
    → 1 ≤ threshold
    → let start = new_breaker name threshold cooldown probes in
      let self = run calls start in
      let seen = failures_seen calls start 0 in
      (state_eq self.state closed ≡ ltb seen threshold)
      × (self.failure_count ≡ seen)
      × (self.half_open_inflight ≤ (if state_eq self.state half_open then probes else 0))
run-closed name threshold cooldown probes calls p =
    let start = new_breaker name threshold cooldown probes in
    let seen = failures_seen calls start 0 in
    let end = run-IsDecidedBy threshold probes 0 calls start p (record {
      consistent = unfold new_breaker in ground arith;
      counted = unfold new_breaker in refl;
    }) in
    decided threshold probes seen (run calls start) end
  where
    decided :
        (threshold probes seen : ℕ) (self : CircuitBreaker)
        → IsDecidedBy threshold probes seen self
        → (state_eq self.state closed ≡ ltb seen threshold)
          × (self.failure_count ≡ seen)
          × (self.half_open_inflight ≤ (if state_eq self.state half_open then probes else 0))
    decided threshold probes seen self h =
        (ground (arith, h.consistent, h.counted), h.counted, ground (arith, h.consistent))

-- A failure that comes no earlier than `since`, or a request for a permit before the cooldown from
-- `since` is over.
abbrev pub IsEarly : ℕ → ℕ → Call → Type 0
IsEarly since until (acquiring now) = now < until
IsEarly since until succeeding = Unit
IsEarly since until (failing now) = since ≤ now

module _ (since : ℕ) where
  abbrev Opened : CircuitBreaker → Type 0
  Opened self = (self.state ≡ opened) × (since ≤ self.last_failure_time)

  cooling_step :
      (cooldown : ℕ) (call : Call) (self : CircuitBreaker)
      → Opened self
      → self.cooldown_seconds ≡ cooldown
      → IsEarly since (since + cooldown * 1000000) call
      → Opened (apply call self) × ((apply call self).cooldown_seconds ≡ cooldown)
  unfolding apply acquire acquire_half_open on_success on_failure
  cooling_step cooldown (acquiring now) self h e w = ground arith
  cooling_step cooldown succeeding self h e w = ground arith
  cooling_step cooldown (failing now) self h e w = ground arith

  cooling_refuses :
      (now cooldown : ℕ) (self : CircuitBreaker)
      → Opened self
      → self.cooldown_seconds ≡ cooldown
      → now < since + cooldown * 1000000
      → is_admitted (acquire now self).0 ≡ false
  unfolding acquire acquire_half_open
  cooling_refuses now cooldown self h e w = ground arith

-- An open breaker gives no permit before its cooldown is over, whatever its late users report; it
-- stays open.
pub cooling_admits_none :
    (calls : List Call) (self : CircuitBreaker) (since cooldown : ℕ)
    → self.state ≡ opened
    → since ≤ self.last_failure_time
    → self.cooldown_seconds ≡ cooldown
    → All (IsEarly since (since + cooldown * 1000000)) calls
    → (admissions calls self ≡ 0) × ((run calls self).state ≡ opened)
unfolding admissions run apply
cooling_admits_none [] self since cooldown s l e w = (refl, s)
cooling_admits_none (acquiring now ∷ calls) self since cooldown s l e w =
    let next = cooling_step since cooldown (acquiring now) self (s, l) e w.0 in
    let (rest, stays) =
      cooling_admits_none calls (apply (acquiring now) self) since cooldown next.0.0 next.0.1 next.1
        w.1 in
    let refused = cooling_refuses since now cooldown self (s, l) e w.0 in
    (rw (refused, admissions) rest, stays)
cooling_admits_none (succeeding ∷ calls) self since cooldown s l e w =
    let next = cooling_step since cooldown succeeding self (s, l) e w.0 in
    cooling_admits_none calls (apply succeeding self) since cooldown next.0.0 next.0.1 next.1 w.1
cooling_admits_none (failing now ∷ calls) self since cooldown s l e w =
    let next = cooling_step since cooldown (failing now) self (s, l) e w.0 in
    cooling_admits_none calls (apply (failing now) self) since cooldown next.0.0 next.0.1 next.1 w.1

-- Requests for a permit at the given times.
abbrev pub requests : List ℕ → List Call
requests times = map acquiring times

half_open_step :
    (now probes : ℕ) (self : CircuitBreaker)
    → (self.state ≡ closed → ⊥)
    → self.half_open_max_calls ≡ probes
    → self.half_open_inflight ≤ probes
    → let (answer, self') = acquire now self in
      (self'.state ≡ closed → ⊥)
      × (self'.half_open_max_calls ≡ probes)
      × (self'.half_open_inflight ≤ probes)
unfolding acquire acquire_half_open
half_open_step now probes self s e h = ground arith

permit_counted :
    (now threshold probes : ℕ) (self : CircuitBreaker)
    → IsConsistent threshold probes self
    → (self.state ≡ closed → ⊥)
    → (if is_admitted (acquire now self).0 then 1 else 0) + self.half_open_inflight
      ≤ (acquire now self).1.half_open_inflight
unfolding acquire acquire_half_open
permit_counted now threshold probes self h s = ground arith

-- Until a probe reports, a breaker that is not closed gives at most as many permits as it has probes
-- left, however long the requests go on.
pub admissions-requests :
    (times : List ℕ) (threshold probes : ℕ) (self : CircuitBreaker)
    → 1 ≤ threshold
    → IsConsistent threshold probes self
    → (self.state ≡ closed → ⊥)
    → admissions (requests times) self + self.half_open_inflight ≤ probes
unfolding admissions
admissions-requests [] threshold probes self p h s = omega (arith, h.probes_within)
admissions-requests (now ∷ times) threshold probes self p h s =
    let valid : IsConsistent threshold probes (acquire now self).1 =
      unfold apply in apply-IsConsistent threshold probes (acquiring now) self p h in
    let rest =
      admissions-requests times threshold probes (acquire now self).1 p valid
        (half_open_step now probes self s h.probes_kept h.probes_within).0 in
    ground (arith, permit_counted now threshold probes self h s)

failures_keep_open :
    (times : List ℕ) (self : CircuitBreaker)
    → self.state ≡ opened
    → (run (map failing times) self).state ≡ opened
unfolding run apply
failures_keep_open [] self s = s
failures_keep_open (now ∷ times) self s =
    failures_keep_open times (on_failure now self) (unfold on_failure in ground arith)

-- Failures without a success between them open a closed breaker exactly when they bring its count to
-- the threshold.
pub failures_trip :
    (times : List ℕ) (self : CircuitBreaker)
    → self.state ≡ closed
    → self.failure_count < self.failure_threshold
    → (run (map failing times) self).state
      ≡ (if leb self.failure_threshold (self.failure_count + length times) then opened else closed)
unfolding run apply on_failure
failures_trip [] self s below = ground arith
failures_trip (now ∷ times) self s below =
    elim (Bool-cases (leb self.failure_threshold (self.failure_count + 1))) [
      | inl reached ↦
          let trips : (on_failure now self).state ≡ opened = ground arith in
          ground (arith, failures_keep_open times (on_failure now self) trips)
      | inr below' ↦
          let stays : (on_failure now self).state ≡ closed = ground arith in
          let same : (on_failure now self).failure_threshold ≡ self.failure_threshold =
            ground arith in
          let counted : (on_failure now self).failure_count ≡ self.failure_count + 1 =
            ground arith in
          grind (
            arith,
            failures_trip times (on_failure now self) stays (rw (same, counted) (ground arith)),
          )
    ]
