-- ===== src/Engine/RunLock.antt =====
-- src/engine/run-lock.ts: the owner of each locked run.
use jobflow_project.Common.{
  Bool, Map, Option, Result, Text, [], erase, err, false, has, if◌then◌else◌, insert, lookup, none,
  not, ok, some, text_eq, ◌&&◌, ◌>>◌,
}
use jobflow_project.Domain.{JobflowError, concurrency_error}

holder : Option Text → Text → Text → Result JobflowError (Unit {0})
holder none run_id owner = ok tt
holder (some current) run_id owner =
    if not (text_eq current []) && not (text_eq current owner)
    then err (concurrency_error run_id current)
    else ok tt

-- An empty owner counts as none.
unfoldable pub acquire : Text → Text → Map Text → Result JobflowError (Map Text)
unfolding holder
acquire run_id owner locks = do
  holder (lookup run_id locks) run_id owner
  ok (insert run_id owner locks)

unfoldable pub owned : Option Text → Text → Bool
owned none owner = false
owned (some current) owner = text_eq current owner

unfoldable pub release : Text → Text → Map Text → Map Text
unfolding owned
release run_id owner locks = if owned (lookup run_id locks) owner then erase run_id locks else locks

unfoldable pub is_locked : Text → Map Text → Bool
is_locked run_id locks = has run_id locks
