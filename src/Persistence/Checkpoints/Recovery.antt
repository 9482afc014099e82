-- ===== src/Persistence/Checkpoints/Recovery.antt =====
-- A checkpoint brings back what was captured.
use jobflow_project.Common.{
  List, Map, Option, Text, [], length, lookup-insert_self, none, refl, some, true, ◌++◌, ◌+◌, ◌∷◌,
  ◌≡◌, ◌≢◌,
}
use jobflow_project.Domain.{WorkflowInstance}
use jobflow_project.Storage.Workflows
use jobflow_project.Storage.Workflows.{WorkflowStore, get_by_run_id-save}
use jobflow_project.Persistence.Checkpoints.{
  RunSnapshot, last, list_checkpoints, save_checkpoint, capture, choose, restore,
}

last-snoc : {A : Type 0} (xs : List A) (x : A) → last (xs ++ x ∷ []) ≡ some x
last-snoc [] x = refl
last-snoc (y ∷ []) x = refl
last-snoc (y ∷ z ∷ zs) x = last-snoc (z ∷ zs) x

module _ {D : Type 0} where
  list-capture :
      (run_id : Text) (w : WorkflowInstance D) (label : Option Text) (at : Text)
      (m : Map (List (RunSnapshot D)))
      → list_checkpoints run_id (capture run_id w label at m)
        ≡ list_checkpoints run_id m
          ++ record {
            run_id = run_id;
            version = length (list_checkpoints run_id m) + 1;
            workflow = w;
            captured_at = at;
            label = label;
          }
            ∷ []
  unfolding list_checkpoints capture save_checkpoint
  list-capture run_id w label at m = rw lookup-insert_self refl

  -- After a capture of a workflow whose id is not empty, restoring without a version succeeds and
  -- leaves, under the run of that workflow, the workflow with the time of the restore, whatever was
  -- captured or stored before.
  pub restore-capture :
      (run_id : Text) (w : WorkflowInstance D) (label : Option Text) (at later : Text)
      (m : Map (List (RunSnapshot D))) (store : WorkflowStore D)
      → w.id ≢ []
      → let r = restore run_id none later (capture run_id w label at m) store in
        (r.0 ≡ true)
        × (Workflows.get_by_run_id w.run_id r.1 ≡ some (record w { updated_at = later }))
  unfolding restore choose
  restore-capture run_id w label at later m store h =
      rw (list-capture, last-snoc)
        (refl, get_by_run_id-save (record w { updated_at = later }) store h)
