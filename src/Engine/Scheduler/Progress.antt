-- ===== src/Engine/Scheduler/Progress.antt =====
-- The scheduler never stalls: a run without a cycle in its dependencies either has a runnable or busy
-- task, or is done.
use jobflow_project.Common.{
  All, All-select, Bool, Bool-cases, List, Map, Text, [], arith, every, false, find, includes, inl,
  inr, lookup, map, none, refl, select, subst, suc, text_eq, text_eq_iff, true, zero, ℕ, ◌+◌, ◌<◌,
  ◌∷◌, ◌≡◌, ◌≤◌,
}
use jobflow_project.Domain.{TaskDefinition, TaskRun, TaskStatus}
use jobflow_project.Engine.Scheduler.{
  status_by_def, is_done, is_busy, is_runnable, next_runnable, all_done, or_empty, dependencies_met,
  is_required,
}

abbrev pub definition_id : TaskDefinition → Text
definition_id d = d.id

-- Each dependency names a task of the list.
abbrev pub IsClosed : List TaskDefinition → Type 0
IsClosed defs =
    All (λ d. All (λ dep. includes (map definition_id defs) dep ≡ true) (or_empty d.depends_on))
      defs

-- `rank` puts each dependency below its task, so there is no cycle.
abbrev pub IsRanked : (Text → ℕ) → List TaskDefinition → Type 0
IsRanked rank defs = All (λ d. All (λ dep. rank dep < rank d.id) (or_empty d.depends_on)) defs

includes_elim {ℓ} :
    (Q : Text → Type ℓ) (defs : List TaskDefinition) (k : Text)
    → All (λ d. Q d.id) defs
    → includes (map definition_id defs) k ≡ true
    → Q k
unfolding includes
includes_elim Q [] k h e = cc
includes_elim Q (d ∷ ds) k h e = elim (Bool-cases (text_eq d.id k)) [
  | inl y ↦ subst Q ((text_eq_iff _ _).0 y) h.0
  | inr n ↦ includes_elim Q ds k h.1 (rw n at e)
]

find-none {ℓ} :
    {A : Type ℓ} (p : A → Bool) (xs : List A) → find p xs ≡ none → All (λ x. p x ≡ false) xs
find-none p [] h = tt
find-none p (x ∷ xs) h = elim (Bool-cases (p x)) [
  | inl y ↦ let found = rw y at h in cc
  | inr n ↦ (n, find-none p xs (rw n at h))
]

every_intro {ℓ} :
    {A : Type ℓ} (p : A → Bool) (xs : List A) → All (λ x. p x ≡ true) xs → every p xs ≡ true
every_intro p [] h = refl
every_intro p (x ∷ xs) h = rw h.0 (every_intro p xs h.1)

module _ (m : Map TaskStatus) (rank : Text → ℕ) (defs : List TaskDefinition) where
  abbrev Done : Text → Type 0
  Done k = is_done (lookup k m) ≡ true

  abbrev DoneBelow : ℕ → Text → Type 0
  DoneBelow n k = rank k < n → Done k

  met_below :
      (n : ℕ) (deps : List Text) (bound : ℕ)
      → bound ≤ n
      → All (λ d. DoneBelow n d.id) defs
      → All (λ dep. includes (map definition_id defs) dep ≡ true) deps
      → All (λ dep. rank dep < bound) deps
      → All Done deps
  met_below n [] bound le ih known ranked = tt
  met_below n (dep ∷ deps) bound le ih known ranked = (
    includes_elim (DoneBelow n) defs dep ih known.0 (omega arith),
    met_below n deps bound le ih known.1 ranked.1,
  )

  one-Done :
      (d : TaskDefinition)
      → is_runnable m d ≡ false
      → is_busy (lookup d.id m) ≡ false
      → All Done (or_empty d.depends_on)
      → Done d.id
  unfolding is_runnable dependencies_met
  one-Done d idle free met =
      let all_met = every_intro (λ dep. is_done (lookup dep m)) (or_empty d.depends_on) met in
      ground arith

  step_below :
      (n : ℕ) (ds : List TaskDefinition)
      → All (λ d. DoneBelow n d.id) defs
      → All (λ d. is_runnable m d ≡ false) ds
      → All (λ d. is_busy (lookup d.id m) ≡ false) ds
      → All
          (λ d. All (λ dep. includes (map definition_id defs) dep ≡ true) (or_empty d.depends_on))
          ds
      → All (λ d. All (λ dep. rank dep < rank d.id) (or_empty d.depends_on)) ds
      → All (λ d. DoneBelow (suc n) d.id) ds
  step_below n [] ih idle free closed ranked = tt
  step_below n (d ∷ ds) ih idle free closed ranked = (
    λ lt.
        one-Done d idle.0 free.0
          (met_below n (or_empty d.depends_on) (rank d.id) (omega arith) ih closed.0 ranked.0),
    step_below n ds ih idle.1 free.1 closed.1 ranked.1,
  )

  none_below : (ds : List TaskDefinition) → All (λ d. DoneBelow 0 d.id) ds
  none_below [] = tt
  none_below (d ∷ ds) = (λ lt. absurd (omega arith), none_below ds)

  All-below :
      (n : ℕ)
      → All (λ d. is_runnable m d ≡ false) defs
      → All (λ d. is_busy (lookup d.id m) ≡ false) defs
      → IsClosed defs
      → IsRanked rank defs
      → All (λ d. DoneBelow n d.id) defs
  All-below zero idle free closed ranked = none_below defs
  All-below (suc n) idle free closed ranked =
      step_below n defs (All-below n idle free closed ranked) idle free closed ranked

  top : List TaskDefinition → ℕ
  top [] = 0
  top (d ∷ ds) = suc (rank d.id) + top ds

  finish-All :
      (n : ℕ) (ds : List TaskDefinition)
      → top ds ≤ n
      → All (λ d. DoneBelow n d.id) ds
      → All (λ d. Done d.id) ds
  unfolding top
  finish-All n [] le h = tt
  finish-All n (d ∷ ds) le h = (h.0 (omega arith), finish-All n ds (omega arith) h.1)

-- If no task is runnable and none is busy, every task of a closed list without cycles is done, so
-- the run counts as finished.
pub no_stall :
    {D : Type 0} (ts : List (TaskRun D)) (defs : List TaskDefinition) (rank : Text → ℕ)
    → next_runnable ts defs ≡ none
    → All (λ d. is_busy (lookup d.id (status_by_def ts)) ≡ false) defs
    → IsClosed defs
    → IsRanked rank defs
    → All (λ d. is_done (lookup d.id (status_by_def ts)) ≡ true) defs × (all_done ts defs ≡ true)
unfolding next_runnable all_done top
no_stall ts defs rank stuck free closed ranked =
    let m = status_by_def ts in
    let idle = find-none (is_runnable m) defs stuck in
    let done =
      finish-All m rank defs (top m rank defs defs) defs (omega arith)
        (All-below m rank defs (top m rank defs defs) idle free closed ranked) in
    (done, every_intro _ (select is_required defs) (All-select _ is_required defs done))
