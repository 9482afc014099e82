-- ===== src/Domain/Retry.antt =====
-- src/domain/retry-policy.ts and src/workers/retry-handler.ts: how long to wait before the next
-- attempt, and whether there is one. What the platform does with doubles is a parameter.
use jobflow_project.Common.{
  Bool, Result, err, false, if◌then◌else◌, leb, ltb, ok, text, true, ℕ, ◌+◌, ◌-◌,
}
use jobflow_project.Domain.Types.{Double, RetryPolicy, max_retries_exceeded}
use jobflow_project.Domain.Errors.{JobflowError, execution_error}

-- `Math.floor`, `Math.pow`, `Math.min`, the product, and a whole number as a double.
pub record DoubleOps : Type 0 where
  pub of_nat : ℕ → Double
  pub floor : Double → Double
  pub pow : Double → Double → Double
  pub minimum : Double → Double → Double
  pub multiply : Double → Double → Double

-- 2 as a double.
abbrev two : Double
two = record { bits = 0x4000000000000000 }

abbrev pub default_retry_policy : RetryPolicy
default_retry_policy = record {
  max_attempts = 3;
  initial_delay_ms = 500;
  backoff_multiplier = two;
  max_delay_ms = 30000;
}

unfoldable pub compute_backoff_delay : DoubleOps → RetryPolicy → ℕ → Double
compute_backoff_delay m policy attempt =
    if leb attempt 0
    then m.of_nat policy.initial_delay_ms
    else let raw =
        m.multiply (m.of_nat policy.initial_delay_ms)
          (m.pow policy.backoff_multiplier (m.of_nat (attempt - 1))) in
      m.minimum (m.floor raw) (m.of_nat policy.max_delay_ms)

unfoldable pub should_retry : RetryPolicy → ℕ → Bool
should_retry policy attempt = ltb attempt policy.max_attempts

pub record RetryDecision : Type 0 where
  pub retry : Bool
  pub delay_ms : Double
  pub next_attempt : ℕ

-- `decide`: the task enters by its attempt number, the only field that is read.
unfoldable pub decide_retry : DoubleOps → RetryPolicy → (task_attempt : ℕ) → RetryDecision
unfolding should_retry compute_backoff_delay
decide_retry m policy task_attempt =
    let next_attempt = task_attempt + 1 in
    if should_retry policy next_attempt
    then record {
      retry = true;
      delay_ms = compute_backoff_delay m policy next_attempt;
      next_attempt = next_attempt;
    }
    else record { retry = false; delay_ms = m.of_nat 0; next_attempt = next_attempt }

unfoldable pub assert_within_attempts :
    RetryPolicy → (task_attempt : ℕ) → Result JobflowError (Unit {0})
assert_within_attempts policy task_attempt =
    if leb policy.max_attempts task_attempt
    then err (execution_error max_retries_exceeded (text "exceeded max attempts"))
    else ok tt
