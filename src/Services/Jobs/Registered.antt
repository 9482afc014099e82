-- ===== src/Services/Jobs/Registered.antt =====
-- What a job that was registered is like.
use jobflow_project.Common.{
  >>=-eq-ok, All, List, Map, Option, Option-cases, Result, Text, [], ap, err, false, includes, inl,
  inr, lookup, lookup-insert_self, map, none, ok, ok_inj, refl, some, subst, sym, text_eq, true, ℕ,
  ◌<◌, ◌∷◌, ◌≡◌,
}
use jobflow_project.Domain.{JobDefinition, TaskDefinition, TaskRun}
use jobflow_project.Handlers.Registry.{Registry}
use jobflow_project.Validators.Jobs.{validate, deps_of, task_ids}
use jobflow_project.Validators.Jobs.Sound.{IsValid, IsSound, validate_iff}
use jobflow_project.Validators.Order.{validate_dependency_order}
use jobflow_project.Validators.Order.Acyclic.{IsRankedBy, validate_dependency_order_iff}
use jobflow_project.Storage.Runs.{save_job, get_job}
use jobflow_project.Services.Jobs.{
  JobInput, unknown_handler, invalid, bad_order, on_error, check_handlers, define_job, resolve,
  register,
}
use jobflow_project.Engine.Scheduler.{
  status_by_def, is_done, is_busy, next_runnable, all_done, or_empty,
}
use jobflow_project.Engine.Scheduler.Progress.{definition_id, IsClosed, IsRanked, no_stall}

on_error-eq-ok :
    {E F A : Type 0} (f : E → F) (r : Result E A) {a : A} → on_error f r ≡ ok a → r ≡ ok a
unfolding on_error
on_error-eq-ok f (ok b) h = cc
on_error-eq-ok f (err e) h = cc

-- What the checks have established, and what is stored.
pub record IsRegistered (d : JobDefinition) (jobs : Map JobDefinition) : Type 0 where
  pub valid : IsValid d
  pub rank : Text → ℕ
  pub ranked : IsRankedBy rank d.tasks
  pub stored : get_job d.id jobs ≡ some d

register-IsRegistered :
    (handlers resolver : Option Registry) (new_id now : Text) (input : JobInput)
    (jobs jobs' : Map JobDefinition) (d : JobDefinition)
    → register handlers resolver new_id now input jobs ≡ ok (d, jobs')
    → IsRegistered d jobs'
unfolding register
register-IsRegistered handlers resolver new_id now input jobs jobs' d h =
    let job = define_job new_id now input (resolve resolver input.tasks) in
    let (a, ea, ha) =
      >>=-eq-ok (on_error unknown_handler (check_handlers handlers input.tasks)) _ h in
    let (b, eb, hb) = >>=-eq-ok (on_error invalid (validate job)) _ ha in
    let (c, ec, hc) = >>=-eq-ok (on_error bad_order (validate_dependency_order job.tasks)) _ hb in
    let valid = (validate_iff job).0 (on_error-eq-ok invalid (validate job) eb) in
    let order = validate_dependency_order_iff job.tasks (unfold IsValid in valid.1) in
    let (rank, ranked) =
      order.0.0 (on_error-eq-ok bad_order (validate_dependency_order job.tasks) ec) in
    subst (λ p. IsRegistered p.0 p.1) (ok_inj hc)
      (record {
        valid = valid;
        rank = rank;
        ranked = ranked;
        stored = unfold get_job save_job in lookup-insert_self job.id job jobs;
      })

deps_of-or_empty : (t : TaskDefinition) → deps_of t ≡ or_empty t.depends_on
deps_of-or_empty t = elim (Option-cases t.depends_on) [
  | inl e ↦ rw e refl
  | inr (ds, e) ↦ rw e refl
]

task_ids-map : (ts : List TaskDefinition) → task_ids ts ≡ map definition_id ts
task_ids-map [] = refl
task_ids-map (t ∷ ts) = ap (t.id ∷◌) (task_ids-map ts)

All_map :
    {A : Type 0} (P Q : A → Type 0) (xs : List A) → ((x : A) → P x → Q x) → All P xs → All Q xs
All_map P Q [] f a = tt
All_map P Q (x ∷ xs) f a = (f x a.0, All_map P Q xs f a.1)

IsRegistered-IsClosed :
    (ids : List Text) (ts : List TaskDefinition)
    → All (IsSound ids) ts
    → All (λ d. All (λ dep. includes ids dep ≡ true) (or_empty d.depends_on)) ts
unfolding IsSound
IsRegistered-IsClosed ids ts a =
    All_map (IsSound ids) (λ d. All (λ dep. includes ids dep ≡ true) (or_empty d.depends_on)) ts
      (λ t s. rw (sym (deps_of-or_empty t)) (
        All_map (λ dep. (includes ids dep ≡ true) × (text_eq dep t.id ≡ false))
          (λ dep. includes ids dep ≡ true) (deps_of t) (λ dep p. p.0) s.1))
      a

-- A job that was registered is stored as it was returned, and no run of it stalls: whatever the
-- statuses of its tasks, if none can start and none is at work, all of them are done and the run counts
-- as finished.
pub register-never_stalls :
    {D : Type 0} (handlers resolver : Option Registry) (new_id now : Text) (input : JobInput)
    (jobs jobs' : Map JobDefinition) (d : JobDefinition) (ts : List (TaskRun D))
    → register handlers resolver new_id now input jobs ≡ ok (d, jobs')
    → next_runnable ts d.tasks ≡ none
    → All (λ t. is_busy (lookup t.id (status_by_def ts)) ≡ false) d.tasks
    → (get_job d.id jobs' ≡ some d)
      × All (λ t. is_done (lookup t.id (status_by_def ts)) ≡ true) d.tasks
      × (all_done ts d.tasks ≡ true)
unfolding IsValid
register-never_stalls handlers resolver new_id now input jobs jobs' d ts h stuck free =
    let r = register-IsRegistered handlers resolver new_id now input jobs jobs' d h in
    let closed : IsClosed d.tasks =
      rw (sym (task_ids-map d.tasks))
        (IsRegistered-IsClosed (task_ids d.tasks) d.tasks r.valid.2) in
    let ranked : IsRanked r.rank d.tasks =
      All_map (λ t. All (λ dep. r.rank dep < r.rank t.id) (deps_of t))
        (λ t. All (λ dep. r.rank dep < r.rank t.id) (or_empty t.depends_on)) d.tasks
        (λ t s. rw (sym (deps_of-or_empty t)) s) r.ranked in
    let ends = no_stall ts d.tasks r.rank stuck free closed ranked in (r.stored, ends.0, ends.1)
