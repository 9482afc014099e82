-- ===== src/Engine/World.antt =====
-- What a run touches: the stores, the two lock registries (src/engine/run-lock.ts and the service's
-- own set), the emitted events, and how often the clock was read and a task was simulated. An
-- operation returns its outcome and the state that it leaves, also where it throws.
use jobflow_project.Common.{List, Map, Result, Text, err, ok, ℕ, ◌+◌}
use jobflow_project.Domain.{DomainEvent, JobDefinition, JobRun, JobflowError}
use jobflow_project.Storage.Workflows.{WorkflowStore}
use jobflow_project.Storage.Runs.{DeadLetterEntry}

pub record World (D : Type 0) : Type 0 where
  pub workflows : WorkflowStore D
  pub runs : Map (JobRun D)
  pub jobs : Map JobDefinition
  pub dead_letters : List DeadLetterEntry
  pub local_locks : List Text
  pub run_locks : Map Text
  pub events : List DomainEvent
  pub reads : ℕ
  pub calls : ℕ

-- `out_of_fuel` has no counterpart in the program.
pub data Outcome (A : Type 0) : Type 0 where
  value : A → Outcome A
  threw : JobflowError → Outcome A
  out_of_fuel : Outcome A

abbrev pub Action : Type 0 → Type 0 → Type 0
Action D A = World D → Outcome A × World D

module _ {D A : Type 0} where
  abbrev pub pure : A → Action D A
  pure a w = (value a, w)

  abbrev pub throw : JobflowError → Action D A
  throw e w = (threw e, w)

  abbrev pub lift : Result JobflowError A → Action D A
  lift (ok a) w = (value a, w)
  lift (err e) w = (threw e, w)

  abbrev pub gets : (World D → A) → Action D A
  gets f w = (value (f w), w)

abbrev pub modify : {D : Type 0} → (World D → World D) → Action D (Unit {0})
modify f w = (value tt, f w)

module _ {D A B : Type 0} where
  abbrev pub and_then : Outcome A × World D → (A → Action D B) → Outcome B × World D
  and_then (value a, w) f = f a w
  and_then (threw e, w) f = (threw e, w)
  and_then (out_of_fuel, w) f = (out_of_fuel, w)

  infixl 5 ◌>>=◌
  abbrev pub ◌>>=◌ : Action D A → (A → Action D B) → Action D B
  ◌>>=◌ m f w = and_then (m w) f

infixl 5 ◌>>◌
abbrev pub ◌>>◌ : {D B : Type 0} → Action D (Unit {0}) → Action D B → Action D B
m >> k = m >>= λ _. k

-- `try { body } finally { last }`, where `last` cannot throw.
abbrev pub try_finally : {D A : Type 0} → Action D A → (World D → World D) → Action D A
try_finally body last w = let (r, w') = body w in (r, last w')

-- A reading of the clock: `now_iso` gives the text of the n-th.
unfoldable pub read_clock : {D : Type 0} → (ℕ → Text) → Action D Text
read_clock now_iso w = (value (now_iso w.reads), record w { reads = w.reads + 1 })
