-- ===== src/Engine/Execution/Termination.antt =====
-- The loop of the execution service ends.
use jobflow_project.Common.{
  Bool, Bool-cases, List, Map, Result-cases, Text, [], ap, arith, false, find, if◌then◌else◌,
  includes, inl, inr, length, lookup, none, refl, some, suc, text, true, zero, ℕ, ◌*◌, ◌+◌, ◌-◌,
  ◌<◌, ◌∙◌, ◌∷◌, ◌≡◌, ◌≢◌, ◌≤◌,
}
use jobflow_project.Domain.{
  JobDefinition, JobRun, RetryPolicy, TaskDefinition, TaskRun, TaskStatus, WorkflowInstance,
  WorkflowState, state_eq, status_eq,
}
use jobflow_project.Engine.World.{
  World, Outcome, value, threw, out_of_fuel, Action, and_then, read_clock,
}
use jobflow_project.Engine.Orchestrator.{apply_transition, start_run}
use jobflow_project.Engine.Orchestrator.Applied.{
  Transitioned, refused, applied, apply_transition-Transitioned,
}
use jobflow_project.Engine.Scheduler.{next_runnable, is_runnable, is_done, is_busy, status_by_def}
use jobflow_project.Engine.Executor.{ExecuteResult}
use jobflow_project.Engine.Execution.{
  Services, settle, run_loop, service, drive, execute_run, dead_letter, set_add,
}
use jobflow_project.Engine.RunLock.{acquire}
use jobflow_project.Storage.Runs.{get_run, get_job}
use jobflow_project.Storage.Workflows
use jobflow_project.Engine.Execution.Steps.{
  Attempted, Ended, saved_task, Round, stopped, settled, crashed, failed, again, run_loop-Round,
}
use jobflow_project.Engine.Execution.Tasks.{
  Distinct, ids, definition_ids, has_definition, ids-replace_task, lookup-status_by_def,
  definition_ids-replace_task, sum-replace_task, status_or,
}

find_holds {ℓ} : {A : Type ℓ} (p : A → Bool) (xs : List A) {x : A} → find p xs ≡ some x → p x ≡ true
find_holds p [] e = cc
find_holds p (y ∷ ys) e = elim (Bool-cases (p y)) [
  | inl t ↦ let here = rw t at e in ground arith
  | inr f ↦ find_holds p ys (rw f at e)
]

-- A task with this status may be attempted.
abbrev pub is_open : TaskStatus → Bool
is_open TaskStatus.queued = true
is_open TaskStatus.failed = true
is_open _ = false

module _ {D : Type 0} where
  open_of_runnable :
      (def : TaskDefinition) (m : Map TaskStatus) (t : TaskRun D)
      → lookup def.id m ≡ some t.status
      → is_runnable m def ≡ true
      → is_open t.status ≡ true
  unfolding is_runnable is_done is_busy status_eq
  open_of_runnable def m t e h = ground arith

  -- The task that a round attempts was open.
  pub next_runnable-is_open :
      (ts : List (TaskRun D)) (defs : List TaskDefinition) (def : TaskDefinition) (old : TaskRun D)
      → Distinct (definition_ids ts)
      → next_runnable ts defs ≡ some def
      → find (has_definition def.id) ts ≡ some old
      → is_open old.status ≡ true
  unfolding next_runnable
  next_runnable-is_open ts defs def old h next found =
      open_of_runnable def (status_by_def ts) old
        (lookup-status_by_def def.id ts h ∙ ap (status_or none) found)
        (find_holds (is_runnable (status_by_def ts)) defs next)

  -- How often a task may still be attempted, and the sum over the tasks of a run.
  abbrev pub share : ℕ → TaskRun D → ℕ
  share limit t = if is_open t.status then suc (limit - t.attempt) else 0

  pub work_left : ℕ → List (TaskRun D) → ℕ
  work_left limit [] = 0
  work_left limit (t ∷ ts) = share limit t + work_left limit ts

  share-lt :
      (policy : RetryPolicy) (old new result : TaskRun D)
      → Ended policy old new result
      → is_open old.status ≡ true
      → result.status ≢ TaskStatus.failed
      → share policy.max_attempts new < share policy.max_attempts old
  share-lt policy old new result h open_ not_failed = ground arith

module _ {D : Type 0} (sv : Services D) (definition : JobDefinition) where
  abbrev limit : ℕ
  limit = definition.retry_policy.max_attempts

  pub record HasDistinctTasks (w : WorkflowInstance D) : Type 0 where
    pub by_id : Distinct (ids w.tasks)
    pub by_definition : Distinct (definition_ids w.tasks)

  pub Attempted-HasDistinctTasks :
      {w w' : WorkflowInstance D} {def : TaskDefinition} {r : ExecuteResult D}
      → Attempted sv definition w def w' r
      → HasDistinctTasks w
      → HasDistinctTasks w'
  Attempted-HasDistinctTasks {w} {w'} {def} {r} a d =
      let new = saved_task r in
      record {
        by_id = rw (a.tasks, ids-replace_task new w.tasks) d.by_id;
        by_definition =
            rw
              (
                a.tasks,
                definition_ids-replace_task def.id a.old new a.ended.same_id w.tasks d.by_id
                    a.ended.same_definition a.found,
              )
              d.by_definition;
      }

  work_left-lt :
      {w w' : WorkflowInstance D} {def : TaskDefinition} {r : ExecuteResult D}
      → Attempted sv definition w def w' r
      → HasDistinctTasks w
      → next_runnable w.tasks definition.tasks ≡ some def
      → r.task.status ≢ TaskStatus.failed
      → work_left limit w'.tasks < work_left limit w.tasks
  unfolding work_left
  work_left-lt {w} {w'} {def} {r} a d next ok_ =
      let new = saved_task r in
      rw a.tasks (
        omega (
          arith,
          sum-replace_task def.id a.old new a.ended.same_id (share limit) (work_left limit) refl
              (λ t ts. refl) w.tasks d.by_id a.found,
          share-lt definition.retry_policy a.old new r.task a.ended
              (next_runnable-is_open w.tasks definition.tasks def a.old d.by_definition next
                a.found)
              ok_,
        ))

module _ {D : Type 0} (sv : Services D) where
  -- A transition is made or refused, whatever the target.
  pub apply_transition_ends :
      (w : WorkflowInstance D) (event : Text) (target : WorkflowState) (actor : Text) (s : World D)
      → (apply_transition sv.rules sv.now_iso w event target actor s).0 ≢ out_of_fuel
  apply_transition_ends w event target actor s =
      go (apply_transition-Transitioned sv.rules sv.now_iso w event target actor s)
    where
      go :
          {o : Outcome (WorkflowInstance D) × World D}
          → Transitioned sv.rules sv.now_iso w event target actor s o
          → o.0 ≢ out_of_fuel
      go (refused e) = λ z. cc
      go (applied w' s' a) = λ z. cc

  settle_ends :
      (definition : JobDefinition) (w : WorkflowInstance D) (s : World D)
      → (settle sv definition w s).0 ≢ out_of_fuel
  unfolding settle
  settle_ends definition w s = ground (
    arith,
    apply_transition_ends w (text "complete") WorkflowState.completed (service sv) s,
    apply_transition_ends w (text "await") WorkflowState.waiting (service sv) s,
  )

  module _ (definition : JobDefinition) (fuel : ℕ) (w : WorkflowInstance D) (s : World D) where
    Round-ends :
        {o : Outcome (WorkflowInstance D) × World D}
        → Round sv fuel definition w s o
        → ((w' : WorkflowInstance D) (s' : World D)
            → HasDistinctTasks sv definition w'
            → work_left definition.retry_policy.max_attempts w'.tasks < fuel
            → (run_loop sv fuel definition w' s').0 ≢ out_of_fuel)
        → HasDistinctTasks sv definition w
        → work_left definition.retry_policy.max_attempts w.tasks < suc fuel
        → o.0 ≢ out_of_fuel
    Round-ends (stopped off) rest d lt e = cc
    Round-ends (settled on idle) rest d lt e = settle_ends definition w s e
    Round-ends (crashed def s' on ran) rest d lt e = cc
    Round-ends (failed def w' r s' on next ran a f) rest d lt e =
        apply_transition_ends w' (text "fail") WorkflowState.failed (service sv) s' e
    Round-ends (again def w' r s' on next ran a f) rest d lt e =
        rest w' s' (Attempted-HasDistinctTasks sv definition a d)
          (omega (arith, work_left-lt sv definition a d next f)) e

  -- With fuel above the work that is left, the loop ends by itself: in a state other than running, or
  -- by an error.
  pub run_loop_ends :
      (fuel : ℕ) (definition : JobDefinition) (w : WorkflowInstance D) (s : World D)
      → HasDistinctTasks sv definition w
      → work_left definition.retry_policy.max_attempts w.tasks < fuel
      → (run_loop sv fuel definition w s).0 ≢ out_of_fuel
  run_loop_ends zero definition w s d lt = absurd (omega arith)
  run_loop_ends (suc fuel) definition w s d lt =
      Round-ends definition fuel w s (run_loop-Round sv fuel definition w s)
        (run_loop_ends fuel definition) d lt

  and_then_ends :
      {A B : Type 0} (m : Outcome A × World D) (f : A → Action D B)
      → m.0 ≢ out_of_fuel
      → ((a : A) (s' : World D) → m ≡ (value a, s') → (f a s').0 ≢ out_of_fuel)
      → (and_then m f).0 ≢ out_of_fuel
  and_then_ends (value a, s') f h k = k a s' refl
  and_then_ends (threw e, s') f h k = λ z. cc
  and_then_ends (out_of_fuel, s') f h k = absurd (h refl)

  start_run-tasks :
      (w w' : WorkflowInstance D) (s s' : World D)
      → start_run sv.rules sv.now_iso w s ≡ (value w', s')
      → w'.tasks ≡ w.tasks
  unfolding start_run
  start_run-tasks w w' s s' h = elim (Bool-cases (state_eq w.state WorkflowState.pending)) [
    | inr f ↦ let same = rw f at h in cc
    | inl t ↦
        go
          (apply_transition-Transitioned sv.rules sv.now_iso w (text "start") WorkflowState.running
            (text "orchestrator") s)
          (rw t at h)
  ]
    where
      go :
          {o : Outcome (WorkflowInstance D) × World D}
          → Transitioned sv.rules sv.now_iso w
              (text "start")
              WorkflowState.running
              (text "orchestrator")
              s
              o
          → o ≡ (value w', s')
          → w'.tasks ≡ w.tasks
      go (refused e) q = cc
      go (applied w₁ s₁ a) q = cc (a.moved.tasks)

  start_run_ends :
      (w : WorkflowInstance D) (s : World D) → (start_run sv.rules sv.now_iso w s).0 ≢ out_of_fuel
  unfolding start_run
  start_run_ends w s =
      ground (
        arith,
        apply_transition_ends w (text "start") WorkflowState.running (text "orchestrator") s,
      )

  dead_letter_ends :
      (run_id : Text) (definition : JobDefinition) (w : WorkflowInstance D) (s : World D)
      → (dead_letter sv run_id definition w s).0 ≢ out_of_fuel
  unfolding dead_letter read_clock
  dead_letter_ends run_id definition w s = ground (
    arith,
    apply_transition_ends w (text "dead_letter") WorkflowState.dead_lettered (service sv) s,
  )

  work_left-le : (limit : ℕ) (ts : List (TaskRun D)) → work_left limit ts ≤ length ts * suc limit
  unfolding work_left
  work_left-le limit [] = omega arith
  work_left-le limit (t ∷ ts) = ground (arith, work_left-le limit ts)

  module _ (fuel : ℕ) (run_id : Text) (s : World D) (run : JobRun D) (definition : JobDefinition)
      (w : WorkflowInstance D) (is_run : get_run run_id s.runs ≡ some run)
      (is_job : get_job run.job_id s.jobs ≡ some definition)
      (is_workflow : Workflows.get_by_run_id run_id s.workflows ≡ some w)
      (distinct : HasDistinctTasks sv definition w)
      (enough : length w.tasks * suc definition.retry_policy.max_attempts < fuel) where
    keep :
        (w₁ : WorkflowInstance D) (s₁ : World D)
        → start_run sv.rules sv.now_iso w s ≡ (value w₁, s₁)
        → HasDistinctTasks sv definition w₁
    keep w₁ s₁ e₁ =
        let same = start_run-tasks w w₁ s s₁ e₁ in
        record { by_id = rw same distinct.by_id; by_definition = rw same distinct.by_definition }

    drive_ends : (drive sv fuel run_id s).0 ≢ out_of_fuel
    unfolding drive
    drive_ends =
        rw (is_run, is_job, is_workflow)
          (and_then_ends (start_run sv.rules sv.now_iso w s) _ (start_run_ends w s) λ w₁ s₁ e₁.
            and_then_ends (run_loop sv fuel definition w₁ s₁) _
              (run_loop_ends fuel definition w₁ s₁ (keep w₁ s₁ e₁) (
                rw (start_run-tasks w w₁ s s₁ e₁)
                  (omega (arith, work_left-le definition.retry_policy.max_attempts w.tasks))))
              λ w₂ s₂ e₂. dead_letter_ends run_id definition w₂ s₂)

  -- `executeRun` returns or throws, for a run that is stored with its job and its workflow, whose
  -- tasks have distinct ids and distinct definitions: fuel above the number of tasks times one more
  -- than the attempts allowed is enough.
  pub execute_run_ends :
      (fuel : ℕ) (run_id : Text) (s : World D) (run : JobRun D) (definition : JobDefinition)
      (w : WorkflowInstance D)
      → get_run run_id s.runs ≡ some run
      → get_job run.job_id s.jobs ≡ some definition
      → Workflows.get_by_run_id run_id s.workflows ≡ some w
      → HasDistinctTasks sv definition w
      → length w.tasks * suc definition.retry_policy.max_attempts < fuel
      → (execute_run sv fuel run_id s).0 ≢ out_of_fuel
  unfolding execute_run
  execute_run_ends fuel run_id s run definition w is_run is_job is_workflow distinct enough =
      elim (Bool-cases (includes s.local_locks run_id)) [
        | inl t ↦ rw t (λ z. cc)
        | inr f ↦ elim (Result-cases (acquire run_id (service sv) s.run_locks)) [
          | inl (e, held) ↦ rw (f, held, execute_run) (λ z. cc)
          | inr (locks, free) ↦
              rw (f, free, execute_run)
                (drive_ends fuel run_id
                  (record s { local_locks = set_add run_id s.local_locks; run_locks = locks }) run
                  definition w is_run is_job is_workflow distinct enough)
        ]
      ]
