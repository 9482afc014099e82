-- ===== src/Engine/Execution/DeadLetters.antt =====
-- When a run becomes a dead letter: the retry handler and the dead-letter rule together.
use jobflow_project.Common.{
  All, Bool, Bool-cases, List, Result-cases, Text, [], ap, arith, false, includes, inl, inr, leb,
  length, refl, some, suc, sym, text, text_eq, true, zero, ℕ, ◌&&◌, ◌*◌, ◌+◌, ◌<◌, ◌∙◌, ◌∷◌, ◌≡◌,
  ◌≢◌, ◌≤◌,
}
use jobflow_project.Domain.{
  JobDefinition, JobRun, RetryPolicy, TaskDefinition, TaskRun, TaskStatus, WorkflowInstance,
  WorkflowState, state_eq,
}
use jobflow_project.Storage.Runs.{get_run, get_job}
use jobflow_project.Storage.Workflows
use jobflow_project.Engine.RunLock.{acquire}
use jobflow_project.Engine.World.{World, Outcome, value, threw, out_of_fuel, Action, and_then}
use jobflow_project.Engine.Orchestrator.{apply_transition, start_run}
use jobflow_project.Engine.Orchestrator.Applied.{
  Transitioned, refused, applied, apply_transition-Transitioned,
}
use jobflow_project.Engine.Scheduler.{next_runnable, all_done}
use jobflow_project.Engine.Executor.{ExecuteResult, run_task}
use jobflow_project.Engine.Execution.{
  Services, replace_task, settle, run_loop, service, drive, execute_run, dead_letter, set_add,
  attempt_task, update_task, requeue, total_attempts, task_outputs,
}
use jobflow_project.Engine.Execution.Steps.{
  Attempted, Ended, saved_task, Round, stopped, settled, crashed, failed, again, run_loop-Round,
}
use jobflow_project.Engine.Execution.Tasks.{All-find, has_definition}
use jobflow_project.Engine.Execution.Termination.{
  HasDistinctTasks, is_open, next_runnable-is_open, Attempted-HasDistinctTasks,
}

short : (total n limit m : ℕ) → total + n ≤ n * limit → n ≡ m → 0 < m → total < limit * m
short total n limit m h e p = omega (arith, ap (λ (k : ℕ). limit * k) e)

leb-false : (a b : ℕ) → b < a → leb a b ≡ false
leb-false a b h = ground arith

and_false : (b : Bool) → (b && false) ≡ false
and_false b = ground arith

module _ {D : Type 0} where
  All-replace_task {κ} :
      (P : TaskRun D → Type κ) (new : TaskRun D) (ts : List (TaskRun D))
      → P new
      → All P ts
      → All P (replace_task new ts)
  unfolding replace_task
  All-replace_task P new [] p h = tt
  All-replace_task P new (t ∷ ts) p h = elim (Bool-cases (text_eq t.id new.id)) [
    | inl e ↦ rw e (p, All-replace_task P new ts p h.1)
    | inr e ↦ rw e (h.0, All-replace_task P new ts p h.1)
  ]

  length-replace_task :
      (new : TaskRun D) (ts : List (TaskRun D)) → length (replace_task new ts) ≡ length ts
  unfolding replace_task
  length-replace_task new [] = refl
  length-replace_task new (t ∷ ts) = ap suc (length-replace_task new ts)

  -- The attempts made at a task stay below the limit; at one that is still open, by one more.
  abbrev pub Below : ℕ → TaskRun D → Type 0
  Below limit t = t.attempt + 1 ≤ limit

  abbrev pub Spare : ℕ → TaskRun D → Type 0
  Spare limit t = (t.attempt + 1 ≤ limit) × (is_open t.status ≡ true → t.attempt + 1 < limit)

  Below-of_Spare : (limit : ℕ) (ts : List (TaskRun D)) → All (Spare limit) ts → All (Below limit) ts
  Below-of_Spare limit [] h = tt
  Below-of_Spare limit (t ∷ ts) h = (h.0.0, Below-of_Spare limit ts h.1)

  total_attempts-le :
      (limit : ℕ) (ts : List (TaskRun D))
      → All (Below limit) ts
      → total_attempts ts + length ts ≤ length ts * limit
  unfolding total_attempts
  total_attempts-le limit [] h = omega arith
  total_attempts-le limit (t ∷ ts) h = omega (arith, total_attempts-le limit ts h.1)

  unvalue : (w w' : WorkflowInstance D) → value w ≡ value w' → w ≡ w'
  unvalue w w' q = cc

  Ended-Below :
      (policy : RetryPolicy) (old new result : TaskRun D)
      → Ended policy old new result
      → is_open old.status ≡ true
      → Spare policy.max_attempts old
      → Below policy.max_attempts new
  Ended-Below policy old new result e o h = omega (arith, h.1 o, e.counted)

  Ended-Spare :
      (policy : RetryPolicy) (old new result : TaskRun D)
      → Ended policy old new result
      → is_open old.status ≡ true
      → Spare policy.max_attempts old
      → result.status ≢ TaskStatus.failed
      → Spare policy.max_attempts new
  Ended-Spare policy old new result e o h f = ground (arith, h.1 o)

module _ {D : Type 0} (sv : Services D) where
  attempt_task-dead_letters :
      (definition : JobDefinition) (w : WorkflowInstance D) (def : TaskDefinition) (s : World D)
      → (attempt_task sv definition w def s).1.dead_letters ≡ s.dead_letters
  unfolding attempt_task run_task update_task requeue
  attempt_task-dead_letters definition w def s = ground arith

  module _ (w : WorkflowInstance D) (event : Text) (target : WorkflowState) (actor : Text)
      (s : World D) where
    -- A transition writes no dead letter and leaves the tasks alone.
    pub record Plain (o : Outcome (WorkflowInstance D) × World D) : Type 0 where
      pub dead_letters : o.1.dead_letters ≡ s.dead_letters
      pub tasks : (w' : WorkflowInstance D) → o.0 ≡ value w' → w'.tasks ≡ w.tasks

    Transitioned-Plain :
        {o : Outcome (WorkflowInstance D) × World D}
        → Transitioned sv.rules sv.now_iso w event target actor s o
        → Plain o
    Transitioned-Plain (refused e) = record { dead_letters = refl; tasks = λ w' q. cc }
    Transitioned-Plain (applied w₁ s₁ a) = record {
      dead_letters = a.rest.dead_letters;
      tasks = λ w' q. cc (a.moved.tasks);
    }

    apply_transition-Plain : Plain (apply_transition sv.rules sv.now_iso w event target actor s)
    apply_transition-Plain =
        Transitioned-Plain
          (apply_transition-Transitioned sv.rules sv.now_iso w event target actor s)

  start_run-Plain :
      (w : WorkflowInstance D) (s : World D)
      → Plain w
          (text "start")
          WorkflowState.running
          (text "orchestrator")
          s
          (start_run sv.rules sv.now_iso w s)
  unfolding start_run
  start_run-Plain w s = elim (Bool-cases (state_eq w.state WorkflowState.pending)) [
    | inl t ↦
        rw t (apply_transition-Plain w (text "start") WorkflowState.running (text "orchestrator") s)
    | inr f ↦ rw f (record {
      dead_letters = refl;
      tasks = λ w' q. ap (λ (x : WorkflowInstance D). x.tasks) (sym (unvalue w w' q));
    })
  ]

  -- The rule for a sequence, for what it does to the dead letters.
  frame :
      {A B : Type 0} (m : Outcome A × World D) (f : A → Action D B) (s : World D)
      → m.1.dead_letters ≡ s.dead_letters
      → ((a : A) → m.0 ≡ value a → (f a m.1).1.dead_letters ≡ m.1.dead_letters)
      → (and_then m f).1.dead_letters ≡ s.dead_letters
  frame (value a, s') f s h k = k a refl ∙ h
  frame (threw e, s') f s h k = h
  frame (out_of_fuel, s') f s h k = h

  settle-Plain :
      (definition : JobDefinition) (w : WorkflowInstance D) (s : World D)
      → ((settle sv definition w s).1.dead_letters ≡ s.dead_letters)
        × ((w' : WorkflowInstance D) → (settle sv definition w s).0 ≡ value w' → w'.tasks ≡ w.tasks)
  unfolding settle
  settle-Plain definition w s = elim (Bool-cases (all_done w.tasks definition.tasks)) [
    | inr e ↦
        let p = apply_transition-Plain w (text "await") WorkflowState.waiting (service sv) s in
        rw e (p.dead_letters, p.tasks)
    | inl e ↦ elim (Result-cases (sv.apply_rules definition w.context (task_outputs w))) [
      | inl (x, r) ↦ rw (e) (rw r (refl, λ w' q. cc))
      | inr (tt, r) ↦
          let p =
            apply_transition-Plain w (text "complete") WorkflowState.completed (service sv) s in
          rw e (rw r (p.dead_letters, p.tasks))
    ]
  ]

  module _ (definition : JobDefinition) (count : ℕ) where
    -- What the loop leaves of a run whose tasks had attempts to spare.
    record Spent (s : World D) (o : Outcome (WorkflowInstance D) × World D) : Type 0 where
      dead_letters : o.1.dead_letters ≡ s.dead_letters
      below :
          (w' : WorkflowInstance D)
          → o.0 ≡ value w'
          → All (Below definition.retry_policy.max_attempts) w'.tasks × (length w'.tasks ≡ count)

    record Fit (w : WorkflowInstance D) : Type 0 where
      distinct : HasDistinctTasks sv definition w
      spare : All (Spare definition.retry_policy.max_attempts) w.tasks
      sized : length w.tasks ≡ count

    module _ {w w' : WorkflowInstance D} {def : TaskDefinition} {r : ExecuteResult D}
        (a : Attempted sv definition w def w' r) (fit : Fit w)
        (next : next_runnable w.tasks definition.tasks ≡ some def) where
      old_open : is_open a.old.status ≡ true
      old_open =
          next_runnable-is_open w.tasks definition.tasks def a.old fit.distinct.by_definition next
            a.found

      old-Spare : Spare definition.retry_policy.max_attempts a.old
      old-Spare =
          All-find (Spare definition.retry_policy.max_attempts) (has_definition def.id) w.tasks
            fit.spare a.found

      sized_after : length w'.tasks ≡ count
      sized_after = rw a.tasks (length-replace_task (saved_task r) w.tasks ∙ fit.sized)

      Below-after : All (Below definition.retry_policy.max_attempts) w'.tasks
      Below-after = rw a.tasks (
          All-replace_task (Below definition.retry_policy.max_attempts) (saved_task r) w.tasks
            (Ended-Below definition.retry_policy a.old (saved_task r) r.task a.ended old_open
              old-Spare)
            (Below-of_Spare definition.retry_policy.max_attempts w.tasks fit.spare))

      Fit-after : r.task.status ≢ TaskStatus.failed → Fit w'
      Fit-after f = record {
        distinct = Attempted-HasDistinctTasks sv definition a fit.distinct;
        spare = rw a.tasks (
            All-replace_task (Spare definition.retry_policy.max_attempts) (saved_task r) w.tasks
              (Ended-Spare definition.retry_policy a.old (saved_task r) r.task a.ended old_open
                old-Spare f)
              fit.spare);
        sized = sized_after;
      }

    Round-Spent :
        (fuel : ℕ) (w : WorkflowInstance D) (s : World D)
        {o : Outcome (WorkflowInstance D) × World D}
        → Round sv fuel definition w s o
        → ((w' : WorkflowInstance D) (s' : World D)
            → Fit w'
            → Spent s' (run_loop sv fuel definition w' s'))
        → Fit w
        → Spent s o
    Round-Spent fuel w s (stopped off) rest fit = record {
      dead_letters = refl;
      below = λ w' q.
          rw (sym (unvalue w w' q))
            (Below-of_Spare definition.retry_policy.max_attempts w.tasks fit.spare, fit.sized);
    }
    Round-Spent fuel w s (settled on idle) rest fit =
        let p = settle-Plain definition w s in
        record {
          dead_letters = p.0;
          below = λ w' q.
              rw (p.1 w' q)
                (Below-of_Spare definition.retry_policy.max_attempts w.tasks fit.spare, fit.sized);
        }
    Round-Spent fuel w s (crashed def s' on ran) rest fit = record {
      dead_letters = rw ran at (attempt_task-dead_letters definition w def s);
      below = λ w' q. cc;
    }
    Round-Spent fuel w s (failed def w₁ r s' on next ran a f) rest fit =
        let p = apply_transition-Plain w₁ (text "fail") WorkflowState.failed (service sv) s' in
        record {
          dead_letters =
              p.dead_letters ∙ (rw ran at (attempt_task-dead_letters definition w def s));
          below = λ w' q. rw (p.tasks w' q) (Below-after a fit next, sized_after a fit next);
        }
    Round-Spent fuel w s (again def w₁ r s' on next ran a f) rest fit =
        let later = rest w₁ s' (Fit-after a fit next f) in
        record {
          dead_letters =
              later.dead_letters ∙ (rw ran at (attempt_task-dead_letters definition w def s));
          below = later.below;
        }

    run_loop-Spent :
        (fuel : ℕ) (w : WorkflowInstance D) (s : World D)
        → Fit w
        → Spent s (run_loop sv fuel definition w s)
    unfolding run_loop
    run_loop-Spent zero w s fit = record { dead_letters = refl; below = λ w' q. cc }
    run_loop-Spent (suc fuel) w s fit =
        Round-Spent fuel w s (run_loop-Round sv fuel definition w s) (run_loop-Spent fuel) fit

    dead_letter_idle :
        (run_id : Text) (w : WorkflowInstance D) (s : World D)
        → All (Below definition.retry_policy.max_attempts) w.tasks
        → length w.tasks ≡ length definition.tasks
        → 0 < length definition.tasks
        → dead_letter sv run_id definition w s ≡ (value tt, s)
    unfolding dead_letter
    dead_letter_idle run_id w s h sized some_task =
        let bound = total_attempts-le definition.retry_policy.max_attempts w.tasks h in
        let below =
          leb-false (definition.retry_policy.max_attempts * length definition.tasks)
            (total_attempts w.tasks)
            (short (total_attempts w.tasks) (length w.tasks) definition.retry_policy.max_attempts
              (length definition.tasks) bound sized some_task) in
        rw below (rw (and_false (state_eq w.state WorkflowState.failed)) refl)

  module _ (fuel : ℕ) (run_id : Text) (s : World D) (run : JobRun D) (definition : JobDefinition)
      (w : WorkflowInstance D) (is_run : get_run run_id s.runs ≡ some run)
      (is_job : get_job run.job_id s.jobs ≡ some definition)
      (is_workflow : Workflows.get_by_run_id run_id s.workflows ≡ some w)
      (fit : Fit definition (length definition.tasks) w)
      (some_task : 0 < length definition.tasks) where
    refit :
        (w₁ : WorkflowInstance D) → w₁.tasks ≡ w.tasks → Fit definition (length definition.tasks) w₁
    refit w₁ same = record {
      distinct = record {
        by_id = rw same fit.distinct.by_id;
        by_definition = rw same fit.distinct.by_definition;
      };
      spare = rw same fit.spare;
      sized = rw same fit.sized;
    }

    drive-dead_letters : (drive sv fuel run_id s).1.dead_letters ≡ s.dead_letters
    unfolding drive
    drive-dead_letters =
        let start = start_run-Plain w s in
        rw (is_run, is_job, is_workflow)
          (frame (start_run sv.rules sv.now_iso w s) _ s start.dead_letters λ w₁ q₁.
            let s₁ : World D = (start_run sv.rules sv.now_iso w s).1 in
            let looped =
              run_loop-Spent definition (length definition.tasks) fuel w₁ s₁
                (refit w₁ (start.tasks w₁ q₁)) in
            frame (run_loop sv fuel definition w₁ s₁) _ s₁ looped.dead_letters λ w₂ q₂.
              let (below, sized) = looped.below w₂ q₂ in
              ap (λ (o : Outcome (Unit {0}) × World D). o.1.dead_letters)
                (dead_letter_idle definition (length definition.tasks) run_id w₂
                  (run_loop sv fuel definition w₁ s₁).1 below sized some_task))

  -- For a run that is stored with its job and its workflow, with distinct tasks, as many as the job
  -- has and at least one: `executeRun` adds no dead letter if each task has an attempt to spare,
  -- which holds of every new run whose policy allows two attempts. The retry handler gives up one
  -- attempt before the number that the dead-letter rule asks for.
  pub execute_run_never_dead_letters :
      (fuel : ℕ) (run_id : Text) (s : World D) (run : JobRun D) (definition : JobDefinition)
      (w : WorkflowInstance D)
      → get_run run_id s.runs ≡ some run
      → get_job run.job_id s.jobs ≡ some definition
      → Workflows.get_by_run_id run_id s.workflows ≡ some w
      → HasDistinctTasks sv definition w
      → All (Spare definition.retry_policy.max_attempts) w.tasks
      → length w.tasks ≡ length definition.tasks
      → 0 < length definition.tasks
      → (execute_run sv fuel run_id s).1.dead_letters ≡ s.dead_letters
  unfolding execute_run
  execute_run_never_dead_letters fuel run_id s run definition w is_run is_job is_workflow distinct
        spare sized some_task =
      elim (Bool-cases (includes s.local_locks run_id)) [
        | inl t ↦ rw t refl
        | inr f ↦ elim (Result-cases (acquire run_id (service sv) s.run_locks)) [
          | inl (e, held) ↦ rw (f, held, execute_run) refl
          | inr (locks, free) ↦
              rw (f, free, execute_run)
                (drive-dead_letters fuel run_id
                  (record s { local_locks = set_add run_id s.local_locks; run_locks = locks }) run
                  definition w is_run is_job is_workflow
                  (record { distinct = distinct; spare = spare; sized = sized }) some_task)
        ]
      ]
