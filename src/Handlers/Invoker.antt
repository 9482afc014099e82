-- ===== src/Handlers/Invoker.antt =====
-- src/handlers/http/invoker.ts: a call of a remote handler through the breaker of its name. The
-- request and what `fetch` answers stand outside; logging is left out.
pub mod Isolation
use jobflow_project.Common.{
  Bool, Map, Option, Text, false, if◌then◌else◌, insert, lookup, none, some, true, ℕ, ◌-◌,
}
use jobflow_project.Handlers.Breaker.{
  CircuitBreaker, new_breaker, can_execute, record_success, record_failure,
}

-- What `fetch` and the reading of the body come to.
pub data Fetched (B : Type 0) : Type 0 where
  responded : (ok : Bool) (status : ℕ) (body : B) → Fetched B
  threw : (error : B) → Fetched B

pub record HttpInvokeResult (B : Type 0) : Type 0 where
  pub ok : Bool
  pub status : ℕ
  pub body : B
  pub latency_ms : ℕ

-- Also says whether `fetch` was called.
pub record Invoked (B : Type 0) : Type 0 where
  pub result : HttpInvokeResult B
  pub fetched : Bool
  pub breakers : Map CircuitBreaker

pub record InvokerDefaults : Type 0 where
  pub breaker_threshold : ℕ
  pub cooldown_ms : ℕ

-- `getBreaker`, the breaker and the map with it.
unfoldable pub get_breaker :
    InvokerDefaults → Text → Map CircuitBreaker → CircuitBreaker × Map CircuitBreaker
get_breaker d handler breakers = found (lookup handler breakers)
  where
    found : Option CircuitBreaker → CircuitBreaker × Map CircuitBreaker
    found (some b) = (b, breakers)
    found none =
        let b = new_breaker d.breaker_threshold d.cooldown_ms in (b, insert handler b breakers)

module _ {B : Type 0} where
  -- After the call of `fetch`, with the times at which it began and ended.
  unfoldable pub after_fetch :
      Text → (started ended : ℕ) → Fetched B → CircuitBreaker → Map CircuitBreaker → Invoked B
  after_fetch handler started ended (responded ok status body) b breakers = record {
    result = record { ok = ok; status = status; body = body; latency_ms = ended - started };
    fetched = true;
    breakers = insert handler (if ok then record_success b else record_failure ended b) breakers;
  }
  after_fetch handler started ended (threw error) b breakers = record {
    result = record { ok = false; status = 0; body = error; latency_ms = ended - started };
    fetched = true;
    breakers = insert handler (record_failure ended b) breakers;
  }

  module _ (circuit_open : B) where
    unfoldable pub try_fetch :
        Text
        → (started ended : ℕ) → Fetched B
        → Bool × CircuitBreaker
        → Map CircuitBreaker
        → Invoked B
    unfolding after_fetch
    try_fetch handler started ended answer (allowed, b) breakers =
        if allowed then after_fetch handler started ended answer b breakers else record {
          result = record { ok = false; status = 503; body = circuit_open; latency_ms = 0 };
          fetched = false;
          breakers = insert handler b breakers;
        }

    -- `invoke`, with the times at which the breaker was asked, `fetch` began and it ended: the breaker is a shared object, so its changes are written back under its name.
    unfoldable pub invoke :
        InvokerDefaults
        → Text
        → (asked started ended : ℕ) → Fetched B
        → Map CircuitBreaker
        → Invoked B
    unfolding get_breaker can_execute try_fetch
    invoke d handler asked started ended answer breakers =
        let (b, known) = get_breaker d handler breakers in
        try_fetch handler started ended answer (can_execute asked b) known
