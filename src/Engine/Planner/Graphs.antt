-- ===== src/Engine/Planner/Graphs.antt =====
-- The graph that `buildGraph` makes: each task once, under its id, and its degree at the start.
use jobflow_project.Common.{
  All, Bool-cases, List, Map, Text, [], ap, arith, false, includes, inl, inr, insert, keys, length,
  lookup, refl, some, some_inj, subst, sym, text_eq, text_eq_iff, text_eq_refl, true, values, ◌||◌,
  ◌∙◌, ◌∷◌, ◌≡◌,
}
use jobflow_project.Domain.{TaskDefinition}
use jobflow_project.Validators.Jobs.Sound.{IsDistinct}
use jobflow_project.Engine.Planner.{DagNode, node_of, nodes_onto, ℤ, pos, degree_of, count_degrees}
use jobflow_project.Engine.Planner.Rounds.{degree_of-insert}

pub record IsGraph (g : Map DagNode) : Type 0 where
  pub distinct : IsDistinct (keys g)
  pub own_ids : All (λ e. e.1.task_id ≡ e.0) g

pub includes-keys-insert :
    {V : Type 0} (k t : Text) (v : V) (m : Map V)
    → includes (keys (insert k v m)) t ≡ (text_eq k t || includes (keys m) t)
unfolding insert keys includes
includes-keys-insert k t v [] = refl
includes-keys-insert k t v ((j, w) ∷ m) =
    ground (arith, text_eq_iff j k, text_eq_iff k t, text_eq_iff j t, includes-keys-insert k t v m)

insert-IsDistinct :
    {V : Type 0} (k : Text) (v : V) (m : Map V)
    → IsDistinct (keys m)
    → IsDistinct (keys (insert k v m))
unfolding insert keys IsDistinct includes
insert-IsDistinct k v [] d = (refl, tt)
insert-IsDistinct k v ((j, w) ∷ m) d = elim (Bool-cases (text_eq j k)) [
  | inl e ↦ rw e d
  | inr e ↦ rw e (
    ground (arith, includes-keys-insert k j v m, text_eq_iff k j, text_eq_iff j k, d.0),
    insert-IsDistinct k v m d.1,
  )
]

insert-own_ids :
    (k : Text) (n : DagNode) (m : Map DagNode)
    → n.task_id ≡ k
    → All (λ e. e.1.task_id ≡ e.0) m
    → All (λ e. e.1.task_id ≡ e.0) (insert k n m)
unfolding insert
insert-own_ids k n [] e a = (e, tt)
insert-own_ids k n ((j, w) ∷ m) e a = elim (Bool-cases (text_eq j k)) [
  | inl q ↦ rw q (e ∙ sym ((text_eq_iff j k).0 q), a.1)
  | inr q ↦ rw q (a.0, insert-own_ids k n m e a.1)
]

pub nodes_onto-IsGraph :
    (ts : List TaskDefinition) (g : Map DagNode) → IsGraph g → IsGraph (nodes_onto g ts)
unfolding nodes_onto node_of
nodes_onto-IsGraph [] g w = w
nodes_onto-IsGraph (t ∷ ts) g w = nodes_onto-IsGraph ts (insert t.id (node_of t) g) (record {
  distinct = insert-IsDistinct t.id (node_of t) g w.distinct;
  own_ids = insert-own_ids t.id (node_of t) g refl w.own_ids;
})

pub empty-IsGraph : IsGraph []
empty-IsGraph = record { distinct = unfold IsDistinct keys in tt; own_ids = tt }

-- A task of no node keeps its degree.
count_degrees-other :
    (t : Text) (g : Map DagNode) (degrees : Map ℤ)
    → All (λ e. e.1.task_id ≡ e.0) g
    → includes (keys g) t ≡ false
    → degree_of t (count_degrees (values g) degrees) ≡ degree_of t degrees
unfolding count_degrees values keys includes
count_degrees-other t [] degrees a h = refl
count_degrees-other t ((k, n) ∷ g) degrees a h =
    let other : text_eq n.task_id t ≡ false = rw a.0 ground (arith, h) in
    count_degrees-other t g (insert n.task_id (pos (length n.depends_on)) degrees) a.1
      (ground (arith, h))
    ∙ (degree_of-insert n.task_id t (pos (length n.depends_on)) degrees ∙ rw other refl)

pub count_degrees-lookup :
    (t : Text) (n : DagNode) (g : Map DagNode) (degrees : Map ℤ)
    → IsDistinct (keys g)
    → All (λ e. e.1.task_id ≡ e.0) g
    → lookup t g ≡ some n
    → degree_of t (count_degrees (values g) degrees) ≡ pos (length n.depends_on)
unfolding count_degrees values keys lookup IsDistinct
count_degrees-lookup t n [] degrees d a h = cc
count_degrees-lookup t n ((k, m) ∷ g) degrees d a h = elim (Bool-cases (text_eq k t)) [
  | inl e ↦
      let same : m ≡ n = some_inj (rw e at (h)) in
      let here = (text_eq_iff k t).0 e in
      let found : text_eq m.task_id t ≡ true = rw a.0 e in
      count_degrees-other t g (insert m.task_id (pos (length m.depends_on)) degrees) a.1
        (subst (λ j. includes (keys g) j ≡ false) here d.0)
      ∙ (degree_of-insert m.task_id t (pos (length m.depends_on)) degrees
          ∙ rw found (ap (λ o. pos (length o.depends_on)) same))
  | inr e ↦
      count_degrees-lookup t n g (insert m.task_id (pos (length m.depends_on)) degrees) d.1 a.1
        (rw e at (h))
]

older_entries :
    {V : Type 0} (k : Text) (v : V) (m tl : Map V)
    → includes (keys tl) k ≡ false
    → All (λ e. lookup e.0 m ≡ some e.1) tl
    → All (λ e. lookup e.0 ((k, v) ∷ m) ≡ some e.1) tl
unfolding keys lookup includes
older_entries k v m [] h a = tt
older_entries k v m ((j, w) ∷ tl) h a = (
  ground (arith, text_eq_iff k j, text_eq_iff j k, a.0, h),
  older_entries k v m tl (ground (arith, h)) a.1,
)

-- An entry of the graph is what its key finds.
pub entries-lookup :
    {V : Type 0} (m : Map V) → IsDistinct (keys m) → All (λ e. lookup e.0 m ≡ some e.1) m
unfolding keys lookup IsDistinct
entries-lookup [] d = tt
entries-lookup ((k, v) ∷ m) d =
    (ground (arith, text_eq_refl k), older_entries k v m m d.0 (entries-lookup m d.1))
