-- ===== src/Graph/Visit/Restore.antt =====
-- A visit that succeeds leaves the nodes that are being visited as they were, and only adds to those
-- that were.
use jobflow_project.Common.{
  >>=-eq-ok, Bool-cases, List, Text, [], ap, arith, err_is_not_ok, false, includes, inl, inr, ok,
  ok_inj, refl, subst, suc, text_eq, text_eq_iff, text_eq_refl, true, zero, ℕ, ◌||◌, ◌∙◌, ◌∷◌, ◌≡◌,
}
use jobflow_project.Graph.Visit.{Marks, Visited, mark, unmark, visit_each, leave, visit}

pub includes-mark :
    (id k : Text) (ids : List Text) → includes (mark id ids) k ≡ (text_eq id k || includes ids k)
unfolding mark includes
includes-mark id k ids = ground (arith, text_eq_iff id k)

pub unmark_fresh : (id : Text) (ids : List Text) → includes ids id ≡ false → unmark id ids ≡ ids
unfolding unmark includes
unmark_fresh id [] h = refl
unmark_fresh id (k ∷ ks) h = ground (arith, unmark_fresh id ks)

pub unmark-mark :
    (id : Text) (ids : List Text) → includes ids id ≡ false → unmark id (mark id ids) ≡ ids
unfolding mark
unmark-mark id ids h =
    rw h (unfold unmark in ground (arith, unmark_fresh id ids h, text_eq_refl id))

-- A step that keeps the nodes that are being visited.
abbrev pub Restores : (Text → Marks → Visited) → Type 0
Restores step = (id : Text) (m m' : Marks) → step id m ≡ ok m' → m'.visiting ≡ m.visiting

pub visit_each-Restores :
    (step : Text → Marks → Visited)
    → Restores step
    → (ids : List Text) (m m' : Marks) → visit_each step ids m ≡ ok m'
    → m'.visiting ≡ m.visiting
unfolding visit_each
visit_each-Restores step r [] m m' h = cc
visit_each-Restores step r (id ∷ ids) m m' h =
    let (n, e, e') = >>=-eq-ok (step id m) (visit_each step ids) h in
    visit_each-Restores step r ids n m' e' ∙ r id m n e

module _ (deps : Text → List Text) where
  -- The two ways in which a visit succeeds.
  pub data Entered (fuel : ℕ) (id : Text) (m : Marks) : Marks → Type 0 where
    known : includes m.visited id ≡ true → Entered fuel id m m
    entered :
        (n : Marks)
        → includes m.visited id ≡ false
        → includes m.visiting id ≡ false
        → visit_each (visit deps fuel) (deps id) (record m { visiting = mark id m.visiting }) ≡ ok n
        → Entered fuel id m
            (record { visiting = unmark id n.visiting; visited = mark id n.visited })

  pub visit-Entered :
      (fuel : ℕ) (id : Text) (m m' : Marks)
      → visit deps (suc fuel) id m ≡ ok m'
      → Entered fuel id m m'
  unfolding visit leave
  visit-Entered fuel id m m' h = elim (Bool-cases (includes m.visited id)) [
    | inl v ↦ subst (Entered fuel id m) (ok_inj (rw (v, visit) at h)) (known v)
    | inr v ↦ elim (Bool-cases (includes m.visiting id)) [
      | inl w ↦ absurd (err_is_not_ok (rw (v, w, visit) at h))
      | inr w ↦
          let e = rw (v, w, visit) at h in
          let (n, p, q) = >>=-eq-ok (visit_each (visit deps fuel) (deps id) _) (leave id) e in
          subst (Entered fuel id m) (ok_inj q) (entered n v w p)
    ]
  ]

  Entered-Restores :
      (fuel : ℕ)
      → Restores (visit deps fuel)
      → (id : Text) (m m' : Marks) → Entered fuel id m m'
      → m'.visiting ≡ m.visiting
  Entered-Restores fuel r id m m' (known v) = refl
  Entered-Restores fuel r id m m' (entered n v w p) =
      ap (unmark id) (visit_each-Restores (visit deps fuel) r (deps id) _ n p)
      ∙ unmark-mark id m.visiting w

  pub visit-Restores : (fuel : ℕ) → Restores (visit deps fuel)
  unfolding visit
  visit-Restores zero id m m' h = cc
  visit-Restores (suc fuel) id m m' h =
      Entered-Restores fuel (visit-Restores fuel) id m m' (visit-Entered fuel id m m' h)
