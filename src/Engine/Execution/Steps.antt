-- ===== src/Engine/Execution/Steps.antt =====
-- The execution service step by step: what one attempt at a task does to the run, and the ways in
-- which a round of the loop ends.
use jobflow_project.Common.{
  Bool-cases, List, Option, Option-cases, Text, [], arith, false, find, inl, inr, none, refl, some,
  suc, text, text_eq, text_eq_refl, true, ℕ, ◌+◌, ◌<◌, ◌∷◌, ◌≡◌, ◌≢◌, ◌⊎◌,
}
use jobflow_project.Domain.{
  Double, JobDefinition, RetryPolicy, TaskDefinition, TaskRun, TaskStatus, WorkflowInstance,
  WorkflowState, state_eq, state_eq_iff, status_eq, status_eq_iff, type_error,
}
use jobflow_project.Domain.Retry.{DoubleOps}
use jobflow_project.Engine.World.{World, Outcome, value, threw, and_then, pure}
use jobflow_project.Engine.Orchestrator.{apply_transition}
use jobflow_project.Engine.Scheduler.{next_runnable}
use jobflow_project.Engine.Executor.{
  Simulated, success, failure, raised, ExecuteResult, run_task, finish_attempt,
}
use jobflow_project.Engine.Execution.{
  Services, replace_task, update_task, requeue, attempt_task, settle, run_loop, service,
}

module _ {D : Type 0} where
  -- How an attempt at `old` ended: `result` is what the executor returned, and `new` what is saved.
  pub record Ended (policy : RetryPolicy) (old new result : TaskRun D) : Type 0 where
    pub same_id : new.id ≡ old.id
    pub same_definition : new.definition_task_id ≡ old.definition_task_id
    pub counted : new.attempt ≡ old.attempt + 1
    pub verdict :
        (new.status ≡ TaskStatus.failed) × (result.status ≡ TaskStatus.failed)
        ⊎ ((new.status ≡ TaskStatus.succeeded) × (result.status ≡ TaskStatus.succeeded)
            ⊎ (new.status ≡ TaskStatus.queued)
              × (result.status ≡ TaskStatus.retrying)
              × (old.attempt + 2 < policy.max_attempts))

  -- What is saved in the end: a task that is tried again is queued.
  abbrev pub saved_task : ExecuteResult D → TaskRun D
  saved_task r = elim r.retry_after_ms [
    | none ↦ r.task
    | some ms ↦ record (r.task) { status = TaskStatus.queued }
  ]

  run_task-Ended :
      (sv : Services D) (t : TaskRun D) (d : TaskDefinition) (policy : RetryPolicy) (input : D)
      (s s' : World D) (r : ExecuteResult D)
      → run_task sv.doubles sv.now_iso sv.simulate t d policy input s ≡ (value r, s')
      → Ended policy t (saved_task r) r.task
  unfolding run_task
  run_task-Ended sv t d policy input s s' r h = ground arith

  finish_attempt_returns :
      (doubles : DoubleOps) (now_iso : ℕ → Text) (t : TaskRun D) (policy : RetryPolicy)
      (o : Simulated D) (s : World D)
      → (r : ExecuteResult D) × (s' : World D) × (finish_attempt doubles now_iso t policy o s
          ≡ (value r, s'))
  unfolding finish_attempt
  finish_attempt_returns doubles now_iso t policy (success out) s = (_, _, refl)
  finish_attempt_returns doubles now_iso t policy (failure none) s = (_, _, refl)
  finish_attempt_returns doubles now_iso t policy (failure (some m)) s = (_, _, refl)
  finish_attempt_returns doubles now_iso t policy (raised m) s = (_, _, refl)

  pub run_task_returns :
      (sv : Services D) (t : TaskRun D) (d : TaskDefinition) (policy : RetryPolicy) (input : D)
      (s : World D)
      → (r : ExecuteResult D) × (s' : World D) × (run_task sv.doubles sv.now_iso sv.simulate t d
            policy input s
          ≡ (value r, s'))
  unfolding run_task
  run_task_returns sv t d policy input s =
      finish_attempt_returns sv.doubles sv.now_iso
        (record t {
          status = TaskStatus.running;
          attempt = t.attempt + 1;
          started_at = some (sv.now_iso s.reads);
        })
        policy (sv.simulate s.calls d.handler input)
        (record s { reads = s.reads + 1; calls = s.calls + 1 })

module _ {D : Type 0} (sv : Services D) where
  -- A round's attempt returns only for a task of the run, and replaces that task alone.
  pub record Attempted (definition : JobDefinition) (w : WorkflowInstance D) (def : TaskDefinition)
      (w' : WorkflowInstance D) (result : ExecuteResult D) : Type 0 where
    pub old : TaskRun D
    pub found : find (λ t. text_eq t.definition_task_id def.id) w.tasks ≡ some old
    pub ended : Ended definition.retry_policy old (saved_task result) result.task
    pub tasks : w'.tasks ≡ replace_task (saved_task result) w.tasks
    pub state : w'.state ≡ w.state
    pub id : w'.id ≡ w.id
    pub run_id : w'.run_id ≡ w.run_id

  pub data Rest (definition : JobDefinition) (w : WorkflowInstance D) (def : TaskDefinition)
      : Outcome (WorkflowInstance D × ExecuteResult D) → Type 0 where
    no_task : Rest definition w def (threw type_error)
    attempted :
        (w' : WorkflowInstance D) (r : ExecuteResult D)
        → Attempted definition w def w' r
        → Rest definition w def (value (w', r))

  replace-replace :
      (r : ExecuteResult D) (ms : Double) (ts : List (TaskRun D))
      → r.retry_after_ms ≡ some ms
      → replace_task (saved_task r) (replace_task r.task ts) ≡ replace_task (saved_task r) ts
  unfolding replace_task
  replace-replace r ms [] e = refl
  replace-replace r ms (t ∷ ts) e =
      ground (arith, replace-replace r ms ts e, text_eq_refl r.task.id)

  after_requeue :
      (definition : JobDefinition) (w : WorkflowInstance D) (def : TaskDefinition)
      (old task : TaskRun D) (delay : Option Double) (at : Text) (s : World D)
      → find (λ t. text_eq t.definition_task_id def.id) w.tasks ≡ some old
      → Ended definition.retry_policy old
          (saved_task (record { task = task; retry_after_ms = delay }))
          task
      → let r : ExecuteResult D = record { task = task; retry_after_ms = delay } in
        let saved = record w { tasks = replace_task task w.tasks; updated_at = at } in
        Rest definition w def (and_then (requeue sv saved r s) (λ queued. pure (queued, r))).0
  unfolding requeue update_task
  after_requeue definition w def old task none at s found ended =
      attempted (record w { tasks = replace_task task w.tasks; updated_at = at })
        (record { task = task; retry_after_ms = none })
        (record {
          old = old;
          found = found;
          ended = ended;
          tasks = refl;
          state = refl;
          id = refl;
          run_id = refl;
        })
  after_requeue definition w def old task (some ms) at s found ended =
      attempted
        (record w {
          tasks =
              replace_task (record task { status = TaskStatus.queued }) (replace_task task w.tasks);
          updated_at = sv.now_iso s.reads;
        })
        (record { task = task; retry_after_ms = some ms })
        (record {
          old = old;
          found = found;
          ended = ended;
          tasks =
              replace-replace (record { task = task; retry_after_ms = some ms }) ms w.tasks refl;
          state = refl;
          id = refl;
          run_id = refl;
        })

  pub attempt_task-Rest :
      (definition : JobDefinition) (w : WorkflowInstance D) (def : TaskDefinition) (s : World D)
      → Rest definition w def (attempt_task sv definition w def s).0
  unfolding attempt_task update_task
  attempt_task-Rest definition w def s =
      elim (Option-cases (find (λ t. text_eq t.definition_task_id def.id) w.tasks)) [
        | inl e ↦ rw e no_task
        | inr (old, e) ↦
            let (r, s', ran) = run_task_returns sv old def definition.retry_policy w.context s in
            rw e (
              rw ran (
                after_requeue definition w def old r.task r.retry_after_ms _ _ e
                  (run_task-Ended sv old def definition.retry_policy w.context s s' r ran)))
      ]

  -- What a round of the loop comes to, in a state `s` that the round starts in.
  pub data Round (fuel : ℕ) (definition : JobDefinition) (w : WorkflowInstance D) (s : World D)
      : Outcome (WorkflowInstance D) × World D → Type 0 where
    stopped :
        state_eq w.state WorkflowState.running ≡ false → Round fuel definition w s (value w, s)
    settled :
        w.state ≡ WorkflowState.running
        → next_runnable w.tasks definition.tasks ≡ none
        → Round fuel definition w s (settle sv definition w s)
    crashed :
        (def : TaskDefinition) (s' : World D)
        → w.state ≡ WorkflowState.running
        → attempt_task sv definition w def s ≡ (threw type_error, s')
        → Round fuel definition w s (threw type_error, s')
    failed :
        (def : TaskDefinition) (w' : WorkflowInstance D) (r : ExecuteResult D) (s' : World D)
        → w.state ≡ WorkflowState.running
        → next_runnable w.tasks definition.tasks ≡ some def
        → attempt_task sv definition w def s ≡ (value (w', r), s')
        → Attempted definition w def w' r
        → r.task.status ≡ TaskStatus.failed
        → Round fuel definition w s (
            apply_transition sv.rules sv.now_iso w'
              (text "fail")
              WorkflowState.failed
              (service sv)
              s')
    again :
        (def : TaskDefinition) (w' : WorkflowInstance D) (r : ExecuteResult D) (s' : World D)
        → w.state ≡ WorkflowState.running
        → next_runnable w.tasks definition.tasks ≡ some def
        → attempt_task sv definition w def s ≡ (value (w', r), s')
        → Attempted definition w def w' r
        → r.task.status ≢ TaskStatus.failed
        → Round fuel definition w s (run_loop sv fuel definition w' s')

  module _ (fuel : ℕ) (definition : JobDefinition) (w : WorkflowInstance D) (s : World D) where
    after_attempt :
        (def : TaskDefinition)
        → state_eq w.state WorkflowState.running ≡ true
        → next_runnable w.tasks definition.tasks ≡ some def
        → (o : Outcome (WorkflowInstance D × ExecuteResult D)) (s' : World D)
        → attempt_task sv definition w def s ≡ (o, s')
        → Rest definition w def o
        → Round fuel definition w s (run_loop sv (suc fuel) definition w s)
    unfolding run_loop
    after_attempt def on next o s' e no_task =
        rw (on, next, e, run_loop) (crashed def s' ((state_eq_iff _ _).0 on) e)
    after_attempt def on next o s' e (attempted w' r h) =
        elim (Bool-cases (status_eq r.task.status TaskStatus.failed)) [
          | inl f ↦
              rw (on, next, e, run_loop)
                (rw (f, and_then)
                  (failed def w' r s' ((state_eq_iff _ _).0 on) next e h ((status_eq_iff _ _).0 f)))
          | inr f ↦
              rw (on, next, e, run_loop)
                (rw (f, and_then)
                  (again def w' r s' ((state_eq_iff _ _).0 on) next e h
                    (λ z. cc (f, (status_eq_iff _ _).1 z))))
        ]

    pub run_loop-Round : Round fuel definition w s (run_loop sv (suc fuel) definition w s)
    unfolding run_loop
    run_loop-Round = elim (Bool-cases (state_eq w.state WorkflowState.running)) [
      | inr off ↦ rw (off, run_loop) (stopped off)
      | inl on ↦ elim (Option-cases (next_runnable w.tasks definition.tasks)) [
        | inl idle ↦ rw (on, idle, run_loop) (settled ((state_eq_iff _ _).0 on) idle)
        | inr (def, next) ↦
            after_attempt def on next _ _ refl (attempt_task-Rest definition w def s)
      ]
    ]
