-- ===== src/Workers/Pool/Fairness.antt =====
-- What a pool does over any sequence of calls.
use jobflow_project.Common.{
  Bool, Bool-cases, List, Option, [], append_assoc, arith, false, inl, inr, none, refl, select,
  some, subst, sym, true, ℕ, ◌++◌, ◌<◌, ◌==◌, ◌∷◌, ◌≡◌, ◌≤◌,
}
use jobflow_project.Common.Sort.{IsSorted, sort-IsSorted, select-sort}
use jobflow_project.Workers.Pool.{
  QueuedRun, WorkerPool, RunPriority, priority_number, priority_before, new_pool, enqueue,
  can_accept, shift, start, complete,
}

abbrev pub taken : Option QueuedRun → List QueuedRun
taken none = []
taken (some item) = item ∷ []

-- The calls made on a pool: what was put in, what `start` gave out, and the pool that is left.
pub data History (concurrency : ℕ) : List QueuedRun → List QueuedRun → WorkerPool → Type 0 where
  fresh : History concurrency [] [] (new_pool concurrency)
  enqueued :
      {es ss : List QueuedRun} {w : WorkerPool} (item : QueuedRun)
      → History concurrency es ss w
      → History concurrency (es ++ item ∷ []) ss (enqueue item w)
  started :
      {es ss : List QueuedRun} {w : WorkerPool}
      → History concurrency es ss w
      → History concurrency es (ss ++ taken (start w).0) (start w).1
  completed :
      {es ss : List QueuedRun} {w : WorkerPool}
      → History concurrency es ss w
      → History concurrency es ss (complete w)

pub has_priority : RunPriority → QueuedRun → Bool
has_priority p item = priority_number item.priority == priority_number p

before_asym : (x y : QueuedRun) → priority_before x y ≡ true → priority_before y x ≡ false
unfolding priority_before
before_asym x y h = ground arith

before_trans :
    (x y z : QueuedRun)
    → priority_before y x ≡ false
    → priority_before z y ≡ false
    → priority_before z x ≡ false
unfolding priority_before
before_trans x y z h k = ground arith

same_not_before :
    (p : RunPriority) (x y : QueuedRun)
    → has_priority p x ≡ true
    → has_priority p y ≡ true
    → priority_before x y ≡ false
unfolding priority_before has_priority
same_not_before p x y h k = ground arith

select-append :
    (p : QueuedRun → Bool) (xs ys : List QueuedRun)
    → select p (xs ++ ys) ≡ select p xs ++ select p ys
select-append p [] ys = refl
select-append p (x ∷ xs) ys = ground (arith, select-append p xs ys)

shift_moves :
    (w : WorkerPool) (q : List QueuedRun)
    → w.queue ≡ q
    → taken (shift w q).0 ++ (shift w q).1.queue ≡ q
unfolding shift
shift_moves w [] h = h
shift_moves w (item ∷ rest) h = refl

start_moves : (w : WorkerPool) → taken (start w).0 ++ (start w).1.queue ≡ w.queue
unfolding start
start_moves w = elim (Bool-cases (can_accept w)) [
  | inl h ↦ rw h (shift_moves w w.queue refl)
  | inr h ↦ rw h refl
]

IsBounded : ℕ → WorkerPool → Type 0
IsBounded c w = (w.concurrency ≡ c) × (w.running ≤ c) × IsSorted priority_before w.queue

shift-IsBounded :
    (c : ℕ) (w : WorkerPool) (q : List QueuedRun)
    → w.queue ≡ q
    → w.running < c
    → IsBounded c w
    → IsBounded c (shift w q).1
unfolding shift IsBounded
shift-IsBounded c w [] e k h = h
shift-IsBounded c w (item ∷ rest) e k (h, l, s) = (h, k, (subst (IsSorted priority_before) e s).1)

start-IsBounded : (c : ℕ) (w : WorkerPool) → IsBounded c w → IsBounded c (start w).1
unfolding start can_accept IsBounded
start-IsBounded c w h = elim (Bool-cases (can_accept w)) [
  | inl e ↦ rw e (shift-IsBounded c w w.queue refl (ground (arith, h.0)) h)
  | inr e ↦ rw e h
]

-- Of each priority, the runs that were started, followed by those that still wait, are the runs that
-- were put in, in the order in which they were put in: no run is lost, started twice or overtaken by
-- a later one of its priority, however the calls are interleaved.
pub pool_fair :
    (concurrency : ℕ) (p : RunPriority) {es ss : List QueuedRun} {w : WorkerPool}
    → History concurrency es ss w
    → select (has_priority p) ss ++ select (has_priority p) w.queue ≡ select (has_priority p) es
unfolding enqueue complete new_pool
pool_fair c p fresh = refl
pool_fair c p (enqueued {es} {ss} {w} item h) =
    rw
      (
        select-sort priority_before before_asym before_trans (has_priority p) (same_not_before p)
            (w.queue ++ item ∷ []),
        select-append (has_priority p) w.queue (item ∷ []),
        select-append (has_priority p) es (item ∷ []),
        sym (pool_fair c p h),
        append_assoc,
      )
      refl
pool_fair c p (started {es} {ss} {w} h) =
    rw
      (
        select-append (has_priority p) ss (taken (start w).0),
        append_assoc,
        sym (select-append (has_priority p) (taken (start w).0) (start w).1.queue),
        start_moves w,
      )
      (pool_fair c p h)
pool_fair c p (completed h) = pool_fair c p h

History-IsBounded :
    {c : ℕ} {es ss : List QueuedRun} {w : WorkerPool} → History c es ss w → IsBounded c w
unfolding IsBounded enqueue complete new_pool
History-IsBounded fresh = (refl, omega arith, tt)
History-IsBounded (enqueued {es} {ss} {w} item h) =
    let i = History-IsBounded h in
    (i.0, i.1, sort-IsSorted priority_before before_asym before_trans (w.queue ++ item ∷ []))
History-IsBounded {c} (started {es} {ss} {w} h) = start-IsBounded c w (History-IsBounded h)
History-IsBounded (completed h) = let i = History-IsBounded h in (i.0, omega (arith, i.1), i.2)

-- Never more runs are at work than the pool's concurrency, and the queue is ordered by priority.
pub pool_bounded :
    (concurrency : ℕ) {es ss : List QueuedRun} {w : WorkerPool}
    → History concurrency es ss w
    → (w.running ≤ concurrency) × IsSorted priority_before w.queue
unfolding IsBounded
pool_bounded c h = let i = History-IsBounded h in (i.1, i.2)
