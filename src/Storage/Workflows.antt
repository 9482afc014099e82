-- ===== src/Storage/Workflows.antt =====
-- src/storage/memory/workflow-store.ts: instances by id, and the id of each run's instance.
use jobflow_project.Common.{
  Map, Option, Text, [], arith, if◌then◌else◌, insert, lookup, lookup-insert, none, some, text_eq,
  text_eq_iff, text_eq_refl, ◌≡◌, ◌≢◌,
}
use jobflow_project.Domain.{WorkflowInstance}

pub record WorkflowStore (D : Type 0) : Type 0 where
  pub by_id : Map (WorkflowInstance D)
  pub by_run_id : Map Text

abbrev pub empty_store : {D : Type 0} → WorkflowStore D
empty_store = record { by_id = []; by_run_id = [] }

module _ {D : Type 0} where
  unfoldable pub save : WorkflowInstance D → WorkflowStore D → WorkflowStore D
  save instance_ s = record {
    by_id = insert instance_.id instance_ s.by_id;
    by_run_id = insert instance_.run_id instance_.id s.by_run_id;
  }

  unfoldable pub get : Text → WorkflowStore D → Option (WorkflowInstance D)
  get id s = lookup id s.by_id

  -- An empty id is falsy.
  by_index : Option Text → WorkflowStore D → Option (WorkflowInstance D)
  by_index none s = none
  by_index (some wf_id) s = if text_eq wf_id [] then none else lookup wf_id s.by_id

  unfoldable pub get_by_run_id : Text → WorkflowStore D → Option (WorkflowInstance D)
  unfolding by_index
  get_by_run_id run_id s = by_index (lookup run_id s.by_run_id) s

  -- An instance that was saved under an id that is not empty is what the id of its run finds.
  pub get_by_run_id-save :
      (w : WorkflowInstance D) (s : WorkflowStore D)
      → w.id ≢ []
      → get_by_run_id w.run_id (save w s) ≡ some w
  unfolding get_by_run_id save
  get_by_run_id-save w s h = ground (
    arith,
    lookup-insert w.run_id w.run_id w.id s.by_run_id,
    lookup-insert w.id w.id w s.by_id,
    text_eq_refl w.run_id,
    text_eq_refl w.id,
    text_eq_iff w.id [],
  )
