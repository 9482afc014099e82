-- ===== src/Handlers/Breaker/Counting.antt =====
-- When a breaker lets a call through, over any sequence of calls.
use jobflow_project.Common.{
  Bool-cases, List, [], ap, arith, false, inl, inr, leb, refl, suc, ℕ, ◌+◌, ◌-◌, ◌<◌, ◌↔◌, ◌∷◌, ◌≡◌,
  ◌≤◌,
}
use jobflow_project.Handlers.Breaker.{
  CircuitState, closed, opened, half_open, CircuitBreaker, new_breaker, execute_in, can_execute,
  record_success, record_failure,
}

-- The calls on a breaker, with the time at which each came.
pub data BreakerEvent : Type 0 where
  asked : ℕ → BreakerEvent
  succeeded : BreakerEvent
  failed : ℕ → BreakerEvent

pub apply_event : BreakerEvent → CircuitBreaker → CircuitBreaker
apply_event (asked now) b = (can_execute now b).1
apply_event succeeded b = record_success b
apply_event (failed now) b = record_failure now b

-- The newest event is the first.
pub after : (threshold cooldown_ms : ℕ) → List BreakerEvent → CircuitBreaker
after threshold cooldown_ms [] = new_breaker threshold cooldown_ms
after threshold cooldown_ms (e ∷ es) = apply_event e (after threshold cooldown_ms es)

-- Failures since the last success.
pub failures_in_a_row : List BreakerEvent → ℕ
failures_in_a_row [] = 0
failures_in_a_row (asked now ∷ es) = failures_in_a_row es
failures_in_a_row (succeeded ∷ es) = 0
failures_in_a_row (failed now ∷ es) = suc (failures_in_a_row es)

pub last_failure : List BreakerEvent → ℕ
last_failure [] = 0
last_failure (asked now ∷ es) = last_failure es
last_failure (succeeded ∷ es) = last_failure es
last_failure (failed now ∷ es) = now

record IsCoherent (t c : ℕ) (es : List BreakerEvent) (b : CircuitBreaker) : Type 0 where
  threshold_kept : b.threshold ≡ t
  cooldown_kept : b.cooldown_ms ≡ c
  counted : b.failures ≡ failures_in_a_row es
  timed : b.last_failure_at ≡ last_failure es
  trips : (b.state ≡ closed) ↔ (b.failures < t)

ask-IsCoherent :
    (t c now : ℕ) (es : List BreakerEvent) (s : CircuitState) (b : CircuitBreaker)
    → b.state ≡ s
    → IsCoherent t c es b
    → IsCoherent t c (asked now ∷ es) (execute_in s now b).1
unfolding execute_in failures_in_a_row last_failure
ask-IsCoherent t c now es closed b e i = record {
  threshold_kept = i.threshold_kept;
  cooldown_kept = i.cooldown_kept;
  counted = i.counted;
  timed = i.timed;
  trips = i.trips;
}
ask-IsCoherent t c now es opened b e i =
    elim (Bool-cases (leb b.cooldown_ms (now - b.last_failure_at))) [
      | inl g ↦ rw g (record {
        threshold_kept = i.threshold_kept;
        cooldown_kept = i.cooldown_kept;
        counted = i.counted;
        timed = i.timed;
        trips = ground (arith, i.trips, e);
      })
      | inr g ↦ rw g (record {
        threshold_kept = i.threshold_kept;
        cooldown_kept = i.cooldown_kept;
        counted = i.counted;
        timed = i.timed;
        trips = i.trips;
      })
    ]
ask-IsCoherent t c now es half_open b e i = record {
  threshold_kept = i.threshold_kept;
  cooldown_kept = i.cooldown_kept;
  counted = i.counted;
  timed = i.timed;
  trips = i.trips;
}

after-IsCoherent : (t c : ℕ) (es : List BreakerEvent) → 0 < t → IsCoherent t c es (after t c es)
unfolding after apply_event failures_in_a_row last_failure new_breaker record_success record_failure
    can_execute
after-IsCoherent t c [] h = record {
  threshold_kept = refl;
  cooldown_kept = refl;
  counted = refl;
  timed = refl;
  trips = ground arith;
}
after-IsCoherent t c (asked now ∷ es) h =
    let b = after t c es in ask-IsCoherent t c now es b.state b refl (after-IsCoherent t c es h)
after-IsCoherent t c (succeeded ∷ es) h =
    let i = after-IsCoherent t c es h in
    record {
      threshold_kept = i.threshold_kept;
      cooldown_kept = i.cooldown_kept;
      counted = refl;
      timed = i.timed;
      trips = ground arith;
    }
after-IsCoherent t c (failed now ∷ es) h =
    let i = after-IsCoherent t c es h in
    record {
      threshold_kept = i.threshold_kept;
      cooldown_kept = i.cooldown_kept;
      counted = ap suc i.counted;
      timed = refl;
      trips = ground (arith, i.trips, i.threshold_kept);
    }

refused_when :
    (now : ℕ) (s : CircuitState) (b : CircuitBreaker)
    → (execute_in s now b).0 ≡ false
    → ¬ (s ≡ closed) × (now < b.last_failure_at + b.cooldown_ms)
unfolding execute_in
refused_when now closed b h = ground arith
refused_when now opened b h = ground arith
refused_when now half_open b h = ground arith

-- With a threshold of one or more, and whatever calls a new breaker got: it is closed exactly while
-- fewer failures than the threshold have followed the last success, and a call is refused only when
-- that many have and the cooldown since the last failure is not over.
pub breaker_trips :
    (threshold cooldown_ms : ℕ) (es : List BreakerEvent) (now : ℕ)
    → 0 < threshold
    → let b = after threshold cooldown_ms es in
      ((b.state ≡ closed) ↔ (failures_in_a_row es < threshold))
      × ((can_execute now b).0 ≡ false
          → (threshold ≤ failures_in_a_row es) × (now < last_failure es + cooldown_ms))
unfolding can_execute execute_in
breaker_trips t c es now h =
    let i = after-IsCoherent t c es h in
    (
      ground (arith, i.trips, i.counted),
      λ r.
          let w = refused_when now (after t c es).state (after t c es) r in
          ground (arith, w, i.trips, i.counted, i.timed, i.cooldown_kept),
    )
