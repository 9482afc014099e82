-- ===== src/Dsl/Optimizer/Complete.antt =====
-- The tasks after `sortTasksTopologically`: each id once, with the last task of that id.
use jobflow_project.Common.{
  >>=-eq-ok, All, All-append, Bool-cases, List, Map, Option, Option-cases, Text, [], ap, arith,
  err_is_not_ok, false, find, includes, inl, inr, lookup, none, ok, ok_inj, refl, some,
  some_is_not_none, subst, suc, sym, text_eq, text_eq_iff, text_eq_refl, true, zero, ℕ, ◌++◌, ◌||◌,
  ◌∙◌, ◌∷◌, ◌≡◌, ◌⊎◌,
}
use jobflow_project.Dsl.Ast.{TaskDslNode}
use jobflow_project.Graph.Visit.{mark}
use jobflow_project.Graph.Visit.Restore.{includes-mark}
use jobflow_project.Validators.Jobs.Sound.{IsDistinct}
use jobflow_project.Dsl.Optimizer.{Sorted, Sorting, visit_deps, push_task, visit_task, task_ids_of}

abbrev pub task_with : Text → List TaskDslNode → Option TaskDslNode
task_with id ts = find (λ t. text_eq t.id id) ts

pub includes-ids_last :
    (ts : List TaskDslNode) (t : TaskDslNode) (k : Text)
    → includes (task_ids_of (ts ++ t ∷ [])) k ≡ (text_eq t.id k || includes (task_ids_of ts) k)
unfolding task_ids_of includes
includes-ids_last [] t k = refl
includes-ids_last (u ∷ ts) t k = ground (arith, includes-ids_last ts t k)

last-IsDistinct :
    (ts : List TaskDslNode) (t : TaskDslNode)
    → IsDistinct (task_ids_of ts)
    → includes (task_ids_of ts) t.id ≡ false
    → IsDistinct (task_ids_of (ts ++ t ∷ []))
unfolding task_ids_of includes IsDistinct
last-IsDistinct [] t d h = (refl, tt)
last-IsDistinct (u ∷ ts) t d h = (
  ground (arith, includes-ids_last ts t u.id, text_eq_iff t.id u.id, text_eq_iff u.id t.id, h, d.0),
  last-IsDistinct ts t d.1 (ground (arith, h)),
)

module _ (by_id : Map TaskDslNode)
    (own : (id : Text) (t : TaskDslNode) → lookup id by_id ≡ some t → t.id ≡ id) where
  -- Between two visits, where the tasks of `stack` are visited and wait for their dependencies.
  pub record IsSorting (stack : List Text) (s : Sorted) : Type 0 where
    pub entries : All (λ t. lookup t.id by_id ≡ some t) s.out
    pub distinct : IsDistinct (task_ids_of s.out)
    pub seen : (k : Text) → includes (task_ids_of s.out) k ≡ true → includes s.visited k ≡ true
    pub complete :
        (k : Text) (t : TaskDslNode)
        → includes s.visited k ≡ true
        → lookup k by_id ≡ some t
        → (includes stack k ≡ true) ⊎ (includes (task_ids_of s.out) k ≡ true)
    pub apart : (k : Text) → includes stack k ≡ true → includes (task_ids_of s.out) k ≡ false
    pub entered : (k : Text) → includes stack k ≡ true → includes s.visited k ≡ true

  -- The visit keeps that, reaches its node and forgets none.
  abbrev Keeps : (Text → Sorted → Sorting) → Type 0
  Keeps step =
      (stack : List Text) (id : Text) (s s' : Sorted)
      → step id s ≡ ok s'
      → IsSorting stack s
      → IsSorting stack s'
        × (includes s'.visited id ≡ true)
        × ((k : Text) → includes s.visited k ≡ true → includes s'.visited k ≡ true)

  pub visit_deps-Keeps :
      (step : Text → Sorted → Sorting)
      → Keeps step
      → (stack ids : List Text) (s s' : Sorted) → visit_deps step ids s ≡ ok s'
      → IsSorting stack s
      → IsSorting stack s'
        × All (λ id. includes s'.visited id ≡ true) ids
        × ((k : Text) → includes s.visited k ≡ true → includes s'.visited k ≡ true)
  unfolding visit_deps
  visit_deps-Keeps step f stack [] s s' h w =
      subst
        (λ r.
          IsSorting stack r
          × Unit
          × ((k : Text) → includes s.visited k ≡ true → includes r.visited k ≡ true))
        (ok_inj h) (w, tt, λ k i. i)
  visit_deps-Keeps step f stack (id ∷ ids) s s' h w =
      let (r, e, e') = >>=-eq-ok (step id s) (visit_deps step ids) h in
      let here = f stack id s r e w in
      let rest = visit_deps-Keeps step f stack ids r s' e' here.0 in
      (rest.0, (rest.2 id here.1, rest.1), λ k i. rest.2 k (here.2 k i))

  module _ (stack : List Text) (id : Text) (s : Sorted) (w : IsSorting stack s)
      (new : includes s.visited id ≡ false) where
    abbrev pub marked : Sorted
    marked = record s { visited = mark id s.visited }

    seen_before : (k : Text) → includes s.visited k ≡ true → includes marked.visited k ≡ true
    seen_before k i = ground (arith, includes-mark id k s.visited, i)

    not_out : includes (task_ids_of s.out) id ≡ false
    not_out = elim (Bool-cases (includes (task_ids_of s.out) id)) [
      | inl e ↦ let i = w.seen id e in ground (arith, i, new)
      | inr e ↦ e
    ]

    not_waiting : (k : Text) → includes stack k ≡ true → text_eq id k ≡ false
    not_waiting k i = elim (Bool-cases (text_eq id k)) [
      | inl e ↦
          let j = w.entered k i in
          let same = ap (λ x. includes s.visited x) ((text_eq_iff id k).0 e) in
          let no : true ≡ false = sym j ∙ (sym same ∙ new) in cc
      | inr e ↦ e
    ]

    -- An id of no task is only marked.
    unknown-IsSorting : lookup id by_id ≡ none → IsSorting stack marked
    unknown-IsSorting e = record {
      entries = w.entries;
      distinct = w.distinct;
      seen = λ k i. seen_before k (w.seen k i);
      complete = λ k t i f. elim (Bool-cases (text_eq id k)) [
        | inl q ↦
            some_is_not_none (sym f ∙ (ap (λ j. lookup j by_id) (sym ((text_eq_iff id k).0 q)) ∙ e))
        | inr q ↦ w.complete k t (ground (arith, includes-mark id k s.visited, i, q)) f
      ];
      apart = w.apart;
      entered = λ k i. seen_before k (w.entered k i);
    }

    pub enter-IsSorting : IsSorting (id ∷ stack) marked
    unfolding includes
    enter-IsSorting = record {
      entries = w.entries;
      distinct = w.distinct;
      seen = λ k i. seen_before k (w.seen k i);
      complete = λ k t i f. elim (Bool-cases (text_eq id k)) [
        | inl q ↦ inl (ground (arith, q))
        | inr q ↦ elim (w.complete k t (ground (arith, includes-mark id k s.visited, i, q)) f) [
          | inl a ↦ inl (ground (arith, a))
          | inr a ↦ inr a
        ]
      ];
      apart = λ k i. elim (Bool-cases (text_eq id k)) [
        | inl q ↦
            subst (λ j. includes (task_ids_of s.out) j ≡ false) ((text_eq_iff id k).0 q) not_out
        | inr q ↦ w.apart k (ground (arith, i, q))
      ];
      entered = λ k i. ground (arith, includes-mark id k s.visited, i, w.entered k);
    }

    push_task-IsSorting :
        (t : TaskDslNode) (r : Sorted)
        → lookup id by_id ≡ some t
        → IsSorting (id ∷ stack) r
        → IsSorting stack (record r { out = r.out ++ t ∷ [] })
    unfolding includes
    push_task-IsSorting t r e v =
        let here = own id t e in
        record {
          entries =
              All-append (λ u. lookup u.id by_id ≡ some u) r.out (t ∷ []) v.entries
                (ap (λ j. lookup j by_id) here ∙ e, tt);
          distinct = last-IsDistinct r.out t v.distinct (
              ap (λ j. includes (task_ids_of r.out) j) here
              ∙ v.apart id (ground (arith, text_eq_refl id)));
          seen = λ k i. elim (Bool-cases (text_eq t.id k)) [
            | inl q ↦
                subst (λ j. includes r.visited j ≡ true) (sym here ∙ (text_eq_iff t.id k).0 q)
                  (v.entered id (ground (arith, text_eq_refl id)))
            | inr q ↦ v.seen k (ground (arith, includes-ids_last r.out t k, i, q))
          ];
          complete = λ k u i f. elim (v.complete k u i f) [
            | inr a ↦ inr (ground (arith, includes-ids_last r.out t k, a))
            | inl a ↦ elim (Bool-cases (text_eq id k)) [
              | inr q ↦ inl (ground (arith, a, q))
              | inl q ↦ inr (
                  ground (
                    arith,
                    includes-ids_last r.out t k,
                    (text_eq_iff t.id k).1 (here ∙ (text_eq_iff id k).0 q),
                  ))
            ]
          ];
          apart = λ k i.
              let other : text_eq t.id k ≡ false = ap (λ j. text_eq j k) here ∙ not_waiting k i in
              ground (arith, includes-ids_last r.out t k, other, v.apart k, i);
          entered = λ k i. v.entered k (ground (arith, i));
        }

  pub visit_task-Keeps : (fuel : ℕ) → Keeps (visit_task by_id fuel)
  unfolding visit_task push_task
  visit_task-Keeps zero stack id s s' h w = absurd (err_is_not_ok h)
  visit_task-Keeps (suc fuel) stack id s s' h w = elim (Bool-cases (includes s.visited id)) [
    | inl v ↦
        subst
          (λ r.
            IsSorting stack r
            × (includes r.visited id ≡ true)
            × ((k : Text) → includes s.visited k ≡ true → includes r.visited k ≡ true))
          (ok_inj (rw (v, visit_task) at (h))) (w, v, λ k i. i)
    | inr v ↦ elim (Option-cases (lookup id by_id)) [
      | inl e ↦
          subst
            (λ r.
              IsSorting stack r
              × (includes r.visited id ≡ true)
              × ((k : Text) → includes s.visited k ≡ true → includes r.visited k ≡ true))
            (ok_inj (rw (v, e, visit_task) at (h)))
            (
              unknown-IsSorting stack id s w v e,
              ground (arith, includes-mark id id s.visited, text_eq_refl id),
              seen_before stack id s w v,
            )
      | inr (t, e) ↦
          let (r, q, q') =
            >>=-eq-ok (visit_deps (visit_task by_id fuel) t.depends_on (marked stack id s w v))
              (push_task t) (rw (v, e, visit_task) at (h)) in
          let deps =
            visit_deps-Keeps (visit_task by_id fuel) (visit_task-Keeps fuel) (id ∷ stack)
              t.depends_on (marked stack id s w v) r q (enter-IsSorting stack id s w v) in
          subst
            (λ o.
              IsSorting stack o
              × (includes o.visited id ≡ true)
              × ((k : Text) → includes s.visited k ≡ true → includes o.visited k ≡ true))
            (ok_inj q')
            (
              push_task-IsSorting stack id s w v t r e deps.0,
              deps.2 id (ground (arith, includes-mark id id s.visited, text_eq_refl id)),
              λ k i. deps.2 k (seen_before stack id s w v k i),
            )
    ]
  ]
