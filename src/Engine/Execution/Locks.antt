-- ===== src/Engine/Execution/Locks.antt =====
-- The two locks around a run: the service's own set, and the registry of src/engine/run-lock.ts.
use jobflow_project.Common.{
  List, Map, Option-cases, Text, [], arith, err, false, includes, inl, inr, lookup, lookup-erase,
  ok, refl, some, text_eq_iff, text_eq_refl, true, ℕ, ◌++◌, ◌∷◌, ◌≡◌, ◌≢◌,
}
use jobflow_project.Domain.{JobflowError}
use jobflow_project.Engine.RunLock.{acquire, release, owned}
use jobflow_project.Engine.World.{World, value, threw}
use jobflow_project.Engine.Execution.{Services, execute_run, set_add, set_delete, service, drive}

includes-set_delete : (x : Text) (xs : List Text) → includes (set_delete x xs) x ≡ false
unfolding set_delete includes
includes-set_delete x [] = refl
includes-set_delete x (y ∷ ys) = ground (arith, includes-set_delete x ys)

includes-append : (xs : List Text) (x : Text) → includes (xs ++ x ∷ []) x ≡ true
unfolding includes
includes-append [] x = ground (arith, text_eq_refl x)
includes-append (y ∷ ys) x = ground (arith, includes-append ys x)

includes-set_add : (x : Text) (xs : List Text) → includes (set_add x xs) x ≡ true
unfolding set_add
includes-set_add x xs = ground (arith, includes-append xs x)

lookup-release :
    (run_id owner : Text) (locks : Map Text)
    → lookup run_id (release run_id owner locks) ≢ some owner
unfolding release owned
lookup-release run_id owner locks e = elim (Option-cases (lookup run_id locks)) [
  | inl free ↦ let same = rw free at e in cc
  | inr (o, held) ↦ ground (
    arith,
    lookup-erase run_id run_id locks,
    text_eq_refl run_id,
    text_eq_refl owner,
    text_eq_iff o owner,
  )
]

module _ {D : Type 0} (sv : Services D) (fuel : ℕ) (run_id : Text) (s : World D) where
  -- If the run is not in the set of the service and the lock of the registry can be acquired, both
  -- are given back when `executeRun` ends, also where it throws.
  pub execute_run_releases :
      (locks : Map Text)
      → includes s.local_locks run_id ≡ false
      → acquire run_id (service sv) s.run_locks ≡ ok locks
      → let s' = (execute_run sv fuel run_id s).1 in
        (includes s'.local_locks run_id ≡ false) × (lookup run_id s'.run_locks ≢ some (service sv))
  unfolding execute_run
  execute_run_releases locks f free =
      rw (f, free, execute_run)
        (
          let after =
                drive sv fuel run_id
                  (record s { local_locks = set_add run_id s.local_locks; run_locks = locks }) in
              includes-set_delete run_id after.1.local_locks,
          lookup-release run_id (service sv)
              (drive sv fuel run_id (record s {
                local_locks = set_add run_id s.local_locks;
                run_locks = locks;
              })).1.run_locks,
        )

  -- If the run is not in the set of the service and the lock of the registry is refused,
  -- `executeRun` throws and leaves the run in the set: every later call returns at once and does
  -- nothing, also when the lock is free.
  pub execute_run_stays_blocked :
      (e : JobflowError) (later : ℕ) (locks : Map Text)
      → includes s.local_locks run_id ≡ false
      → acquire run_id (service sv) s.run_locks ≡ err e
      → let s' = (execute_run sv fuel run_id s).1 in
        ((execute_run sv fuel run_id s).0 ≡ threw e)
        × (execute_run sv later run_id (record s' { run_locks = locks })
            ≡ (value tt, record s' { run_locks = locks }))
  unfolding execute_run
  execute_run_stays_blocked e later locks f held =
      rw (f, held, execute_run) (refl, rw (includes-set_add run_id s.local_locks))
