-- ===== src/Handlers/Breaker.antt =====
-- src/handlers/http/circuit-breaker.ts: a handler that fails too often is left alone for a while.
-- `Date.now()` is an argument, in milliseconds.
pub mod Counting
use jobflow_project.Common.{Bool, false, if◌then◌else◌, leb, suc, true, ℕ, ◌-◌}

pub data CircuitState : Type 0 where
  closed opened half_open : CircuitState

pub record CircuitBreaker : Type 0 where
  pub state : CircuitState
  pub failures : ℕ
  pub last_failure_at : ℕ
  pub threshold : ℕ
  pub cooldown_ms : ℕ

unfoldable pub new_breaker : (threshold cooldown_ms : ℕ) → CircuitBreaker
new_breaker threshold cooldown_ms = record {
  state = closed;
  failures = 0;
  last_failure_at = 0;
  threshold = threshold;
  cooldown_ms = cooldown_ms;
}

unfoldable pub execute_in : CircuitState → ℕ → CircuitBreaker → Bool × CircuitBreaker
execute_in closed now b = (true, b)
execute_in opened now b =
    if leb b.cooldown_ms (now - b.last_failure_at)
    then (true, record b { state = half_open })
    else (false, b)
execute_in half_open now b = (true, b)

unfoldable pub can_execute : ℕ → CircuitBreaker → Bool × CircuitBreaker
unfolding execute_in
can_execute now b = execute_in b.state now b

unfoldable pub record_success : CircuitBreaker → CircuitBreaker
record_success b = record b { failures = 0; state = closed }

unfoldable pub record_failure : ℕ → CircuitBreaker → CircuitBreaker
record_failure now b =
    let failures = suc b.failures in
    record b {
      failures = failures;
      last_failure_at = now;
      state = if leb b.threshold failures then opened else b.state;
    }
