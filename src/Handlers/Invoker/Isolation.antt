-- ===== src/Handlers/Invoker/Isolation.antt =====
-- Handlers do not share breakers.
use jobflow_project.Common.{
  Bool, Map, Option-cases, Text, false, inl, inr, insert, lookup, lookup-insert, refl, text_eq,
  true, ℕ, ◌∙◌, ◌≡◌,
}
use jobflow_project.Handlers.Breaker.{CircuitBreaker, can_execute}
use jobflow_project.Handlers.Invoker.{
  Fetched, responded, threw, InvokerDefaults, get_breaker, after_fetch, try_fetch, invoke,
}

get_breaker_other :
    (d : InvokerDefaults) (handler other : Text) (m : Map CircuitBreaker)
    → text_eq handler other ≡ false
    → lookup other (get_breaker d handler m).1 ≡ lookup other m
unfolding get_breaker
get_breaker_other d handler other m h = elim (Option-cases (lookup handler m)) [
  | inl e ↦ rw e (rw (lookup-insert, h) refl)
  | inr e ↦ rw e.1 refl
]

insert_other :
    (handler other : Text) (b : CircuitBreaker) (m : Map CircuitBreaker)
    → text_eq handler other ≡ false
    → lookup other (insert handler b m) ≡ lookup other m
insert_other handler other b m h = rw (lookup-insert, h) refl

module _ {B : Type 0} where
  after_fetch_other :
      (handler other : Text) (started ended : ℕ) (answer : Fetched B) (b : CircuitBreaker)
      (m : Map CircuitBreaker)
      → text_eq handler other ≡ false
      → lookup other (after_fetch handler started ended answer b m).breakers ≡ lookup other m
  unfolding after_fetch
  after_fetch_other handler other started ended (responded success status body) b m h =
      insert_other handler other _ m h
  after_fetch_other handler other started ended (threw error) b m h =
      insert_other handler other _ m h

  try_fetch_other :
      (circuit_open : B) (handler other : Text) (started ended : ℕ) (answer : Fetched B)
      (allowed : Bool) (b : CircuitBreaker) (m : Map CircuitBreaker)
      → text_eq handler other ≡ false
      → lookup other (try_fetch circuit_open handler started ended answer (allowed, b) m).breakers
        ≡ lookup other m
  unfolding try_fetch
  try_fetch_other co handler other started ended answer true b m h =
      after_fetch_other handler other started ended answer b m h
  try_fetch_other co handler other started ended answer false b m h =
      insert_other handler other b m h

  -- Whatever becomes of a call of one handler, the breaker of a handler of another name is left as
  -- it was.
  pub invoke_leaves_others :
      (circuit_open : B) (d : InvokerDefaults) (handler other : Text) (asked started ended : ℕ)
      (answer : Fetched B) (m : Map CircuitBreaker)
      → text_eq handler other ≡ false
      → lookup other (invoke circuit_open d handler asked started ended answer m).breakers
        ≡ lookup other m
  unfolding invoke
  invoke_leaves_others co d handler other asked started ended answer m h =
      let g = get_breaker d handler m in
      let c = can_execute asked g.0 in
      try_fetch_other co handler other started ended answer c.0 c.1 g.1 h
      ∙ get_breaker_other d handler other m h
