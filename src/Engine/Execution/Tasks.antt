-- ===== src/Engine/Execution/Tasks.antt =====
-- The task list of a run: ids that differ, the status map that the scheduler reads, and what is left
-- to attempt.
use jobflow_project.Common.{
  All, Bool, Bool-cases, List, Map, Option, Text, [], ap, arith, false, find, inl, inr, insert,
  lookup, lookup-insert, map, none, refl, some, subst, sym, text_eq, text_eq_iff, text_eq_refl, ℕ,
  ◌+◌, ◌∙◌, ◌∷◌, ◌≡◌,
}
use jobflow_project.Domain.{TaskRun, TaskStatus}
use jobflow_project.Engine.Scheduler.{statuses_onto, status_by_def}
use jobflow_project.Engine.Execution.{replace_task}

abbrev pub Distinct : List Text → Type 0
Distinct [] = Unit
Distinct (x ∷ xs) = All (λ y. text_eq y x ≡ false) xs × Distinct xs

module _ {D : Type 0} where
  abbrev pub ids : List (TaskRun D) → List Text
  ids ts = map (λ t. t.id) ts

  abbrev pub definition_ids : List (TaskRun D) → List Text
  definition_ids ts = map (λ t. t.definition_task_id) ts

  abbrev pub has_definition : Text → TaskRun D → Bool
  has_definition k t = text_eq t.definition_task_id k

  -- What holds of every task holds of the one that is found.
  pub All-find {κ} :
      (P : TaskRun D → Type κ) (q : TaskRun D → Bool) (ts : List (TaskRun D)) {t : TaskRun D}
      → All P ts
      → find q ts ≡ some t
      → P t
  All-find P q [] h e = cc
  All-find P q (x ∷ xs) h e = elim (Bool-cases (q x)) [
    | inl y ↦ subst P (cc (rw y at e)) h.0
    | inr n ↦ All-find P q xs h.1 (rw n at e)
  ]

  apart :
      (k : Text) (q : TaskRun D → Bool) (ts : List (TaskRun D)) {t : TaskRun D}
      → All (λ y. text_eq y k ≡ false) (ids ts)
      → find q ts ≡ some t
      → text_eq t.id k ≡ false
  apart k q [] h e = cc
  apart k q (x ∷ xs) {t = t} h e = elim (Bool-cases (q x)) [
    | inl y ↦ let here : x ≡ t = cc (rw y at e) in rw here at h.0
    | inr n ↦ apart k q xs h.1 (rw n at e)
  ]

  replace_absent :
      (new : TaskRun D) (ts : List (TaskRun D))
      → All (λ y. text_eq y new.id ≡ false) (ids ts)
      → replace_task new ts ≡ ts
  unfolding replace_task
  replace_absent new [] h = refl
  replace_absent new (t ∷ ts) h = rw h.0 (ap (λ us. t ∷ us) (replace_absent new ts h.1))

  pub ids-replace_task :
      (new : TaskRun D) (ts : List (TaskRun D)) → ids (replace_task new ts) ≡ ids ts
  unfolding replace_task
  ids-replace_task new [] = refl
  ids-replace_task new (t ∷ ts) = ground (arith, ids-replace_task new ts, text_eq_iff t.id new.id)

  no_definition :
      (k : Text) (ts : List (TaskRun D))
      → All (λ y. text_eq y k ≡ false) (definition_ids ts)
      → find (has_definition k) ts ≡ none
  no_definition k [] h = refl
  no_definition k (t ∷ ts) h = rw h.0 (no_definition k ts h.1)

  abbrev pub status_or : Option TaskStatus → Option (TaskRun D) → Option TaskStatus
  status_or d none = d
  status_or d (some t) = some t.status

  lookup-statuses_onto :
      (k : Text) (m : Map TaskStatus) (ts : List (TaskRun D))
      → Distinct (definition_ids ts)
      → lookup k (statuses_onto m ts) ≡ status_or (lookup k m) (find (has_definition k) ts)
  unfolding statuses_onto
  lookup-statuses_onto k m [] h = refl
  lookup-statuses_onto k m (t ∷ ts) h =
      lookup-statuses_onto k (insert t.definition_task_id t.status m) ts h.1
      ∙ elim (Bool-cases (text_eq t.definition_task_id k)) [
        | inl e ↦
            let same = (text_eq_iff _ _).0 e in
            rw (no_definition k ts (rw same at h.0), e, lookup-insert, e)
        | inr n ↦ rw (lookup-insert, n)
      ]

  -- The scheduler's map gives the status of the task that is found by its definition.
  pub lookup-status_by_def :
      (k : Text) (ts : List (TaskRun D))
      → Distinct (definition_ids ts)
      → lookup k (status_by_def ts) ≡ status_or none (find (has_definition k) ts)
  unfolding status_by_def lookup
  lookup-status_by_def k ts h = lookup-statuses_onto k [] ts h

  module _ (k : Text) (old new : TaskRun D) (same_id : new.id ≡ old.id) where
    pub definition_ids-replace_task :
        (ts : List (TaskRun D))
        → Distinct (ids ts)
        → new.definition_task_id ≡ old.definition_task_id
        → find (has_definition k) ts ≡ some old
        → definition_ids (replace_task new ts) ≡ definition_ids ts
    unfolding replace_task
    definition_ids-replace_task [] h same e = refl
    definition_ids-replace_task (t ∷ ts) h same e =
        elim (Bool-cases (text_eq t.definition_task_id k)) [
          | inl y ↦
              let here : t ≡ old = cc (rw y at e) in
              let rest = replace_absent new ts (rw (sym same_id) at (rw here at h.0)) in
              ground (arith, rest, text_eq_refl new.id)
          | inr n ↦
              let later = rw n at e in
              let other = apart t.id (has_definition k) ts h.0 later in
              ground (
                arith,
                definition_ids-replace_task ts h.1 same later,
                text_eq_iff t.id new.id,
                text_eq_iff old.id t.id,
              )
        ]

    -- Replacing the task that was found changes a sum over the tasks by its own share.
    pub sum-replace_task :
        (share : TaskRun D → ℕ) (sum : List (TaskRun D) → ℕ)
        → sum [] ≡ 0
        → ((t : TaskRun D) (ts : List (TaskRun D)) → sum (t ∷ ts) ≡ share t + sum ts)
        → (ts : List (TaskRun D)) → Distinct (ids ts)
        → find (has_definition k) ts ≡ some old
        → sum (replace_task new ts) + share old ≡ sum ts + share new
    unfolding replace_task
    sum-replace_task share sum nil cons [] h e = cc
    sum-replace_task share sum nil cons (t ∷ ts) h e =
        elim (Bool-cases (text_eq t.definition_task_id k)) [
          | inl y ↦
              let here : t ≡ old = cc (rw y at e) in
              let rest = replace_absent new ts (rw (sym same_id) at (rw here at h.0)) in
              ground (arith, rest, text_eq_refl new.id, cons t ts, cons new ts, here)
          | inr n ↦
              let later = rw n at e in
              let other = apart t.id (has_definition k) ts h.0 later in
              ground (
                arith,
                sum-replace_task share sum nil cons ts h.1 later,
                text_eq_iff t.id new.id,
                text_eq_iff old.id t.id,
                cons t ts,
                cons t (replace_task new ts),
              )
        ]
