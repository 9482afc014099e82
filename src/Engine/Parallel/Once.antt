-- ===== src/Engine/Parallel/Once.antt =====
-- In whatever order the workers of a batch go on, each item is run once.
use jobflow_project.Common.{
  List, Map, Option-cases, [], ap, append-nil, arith, get_elem?, inl, inr, length, length-append,
  min, none, refl, some, some_inj, some_is_not_none, subst, suc, sym, take, zero, ℕ, ◌++◌, ◌+◌, ◌<◌,
  ◌∷◌, ◌≡◌, ◌≤◌, ◌⊎◌,
}
use jobflow_project.Domain.{TaskRun}
use mathlib.Core.List.{Perm, perm_middle}
use mathlib.Core.List.Perm
use jobflow_project.Engine.Parallel.{
  Item, BatchState, start_batch, WorkerStep, take_item, return_idle, finish_item, ran_by, BatchRun,
  batch_start, batch_step,
}

take_next :
    {A : Type 0} (xs : List A) (i : ℕ) (x : A)
    → get_elem? xs i ≡ some x
    → (take (suc i) xs ≡ take i xs ++ x ∷ []) × (i < length xs)
take_next [] i x h = some_is_not_none (sym h)
take_next (y ∷ ys) zero x h = (ap (◌∷ []) (some_inj h), omega arith)
take_next (y ∷ ys) (suc i) x h =
    let rest = take_next ys i x h in (ap (y ∷◌) rest.0, omega (arith, rest.1))

perm_last : {A : Type 0} (x : A) (xs : List A) → Perm (x ∷ xs) (xs ++ x ∷ [])
perm_last x xs =
    subst (λ l. Perm (x ∷ l) (xs ++ x ∷ [])) (append-nil xs) (Perm.symm (perm_middle xs []))

missing_index : {A : Type 0} (xs : List A) (i : ℕ) → get_elem? xs i ≡ none → length xs ≤ i
missing_index [] i h = omega arith
missing_index (x ∷ xs) zero h = some_is_not_none h
missing_index (x ∷ xs) (suc i) h = omega (arith, missing_index xs i h)

take_all : {A : Type 0} (xs : List A) (i : ℕ) → length xs ≤ i → take i xs ≡ xs
take_all [] zero h = refl
take_all [] (suc i) h = refl
take_all (x ∷ xs) zero h = absurd (omega arith)
take_all (x ∷ xs) (suc i) h = ap (x ∷◌) (take_all xs i (omega arith))

length_zero : {A : Type 0} (xs : List A) → length xs ≡ 0 → xs ≡ []
length_zero [] h = refl
length_zero (x ∷ xs) h = absurd (omega (arith, h))

module _ {D : Type 0} (n : ℕ) (batch : List (Item D)) (updated : Map (TaskRun D)) where
  record IsBatch (ran : List (Item D)) (s : BatchState D) : Type 0 where
    workers : length s.busy + s.idle + s.returned ≡ min n (length batch)
    within : s.index ≤ length batch
    over : 0 < s.returned → length batch ≤ s.index
    items : Perm (s.busy ++ ran) (take s.index batch)

  step-IsBatch :
      (ran : List (Item D)) (s t : BatchState D) (w : WorkerStep batch s t)
      → IsBatch ran s
      → IsBatch (ran_by w ++ ran) t
  step-IsBatch ran s t (take_item index m idle busy returned item e) b =
      let next = take_next batch index item e in
      record {
        workers = omega (arith, b.workers);
        within = omega (arith, next.1);
        over = λ r. omega (arith, b.over r);
        items =
            subst (Perm (item ∷ (busy ++ ran))) (sym next.0)
              (Perm.trans (Perm.cons item b.items) (perm_last item (take index batch)));
      }
  step-IsBatch ran s t (return_idle index m idle busy returned le) b = record {
    workers = omega (arith, b.workers);
    within = b.within;
    over = λ r. le;
    items = b.items;
  }
  step-IsBatch ran s t (finish_item index m idle xs ys returned item result) b = record {
    workers = omega (arith, b.workers, length-append xs (item ∷ ys), length-append xs ys);
    within = b.within;
    over = b.over;
    items =
        Perm.trans (perm_middle (xs ++ ys) ran)
          (Perm.trans (Perm.append_right ran (Perm.symm (perm_middle xs ys))) b.items);
  }

  run-IsBatch :
      (ran : List (Item D)) (s : BatchState D) → BatchRun n batch updated ran s → IsBatch ran s
  unfolding start_batch
  run-IsBatch ran s batch_start = record {
    workers = omega arith;
    within = omega arith;
    over = λ r. omega arith;
    items = Perm.refl [];
  }
  run-IsBatch ran s (batch_step r u v before w) = step-IsBatch r u v w (run-IsBatch r u before)

  -- A worker that is idle or at work can go on.
  go_on :
      (i : ℕ) (m : Map (TaskRun D)) (idle : ℕ) (busy : List (Item D)) (r : ℕ)
      → (idle + length busy ≡ 0)
        ⊎ ((t : BatchState D) × WorkerStep batch
              (record { index = i; updated = m; idle = idle; busy = busy; returned = r })
              t)
  go_on i m (suc k) busy r = elim (Option-cases (get_elem? batch i)) [
    | inl e ↦ inr (_, return_idle i m k busy r (missing_index batch i e))
    | inr (item, e) ↦ inr (_, take_item i m k busy r item e)
  ]
  go_on i m zero [] r = inl (omega arith)
  go_on i m zero (item ∷ ys) r = inr (_, finish_item i m 0 [] ys r item item.1)

  all_run :
      (ran : List (Item D)) (s : BatchState D)
      → IsBatch ran s
      → s.idle + length s.busy ≡ 0
      → 0 < n
      → Perm ran batch
  all_run ran s b z p =
      let none_busy : s.busy ≡ [] = length_zero s.busy (omega (arith, z)) in
      let reached : length batch ≤ s.index =
        all_taken (length batch) s.returned s.index (omega (arith, b.workers, z)) b.over p in
      subst (Perm ran) (take_all batch s.index reached)
        (subst (λ xs. Perm (xs ++ ran) (take s.index batch)) none_busy b.items)
    where
      all_taken : (len r i : ℕ) → r ≡ min n len → (0 < r → len ≤ i) → 0 < n → len ≤ i
      all_taken len zero i e f q = omega (arith, e)
      all_taken len (suc r) i e f q = f (omega arith)

  -- However the awaits of the workers end: at most the allowed number of tasks is at work, a worker that has
  -- not returned can go on, and once all have returned, where at least one is allowed, the items that were
  -- run are those of the batch, each once.
  pub run_batch-once :
      (ran : List (Item D)) (s : BatchState D)
      → BatchRun n batch updated ran s
      → (length s.busy ≤ n)
        × ((s.idle + length s.busy ≡ 0) ⊎ ((t : BatchState D) × WorkerStep batch s t))
        × (s.idle + length s.busy ≡ 0 → 0 < n → Perm ran batch)
  run_batch-once ran s r =
      let b = run-IsBatch ran s r in
      (
        omega (arith, b.workers),
        go_on s.index s.updated s.idle s.busy s.returned,
        λ z p. all_run ran s b z p,
      )
