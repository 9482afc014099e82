-- ===== src/Graph/Visit/Fuel.antt =====
-- A visit comes to an end: each nested visit marks one more of the nodes that have dependencies.
use jobflow_project.Common.{
  Bool-cases, List, Result-cases, Text, [], arith, err, false, includes, inl, inr, keys, length,
  length-select-le, not, select, subst, suc, sym, text_eq_iff, true, zero, ℕ, ◌<◌, ◌∙◌, ◌∷◌, ◌≡◌,
  ◌≢◌, ◌≤◌,
}
use jobflow_project.Graph.Visit.{
  Marks, out_of_fuel, Visited, mark, visit_each, visit, visit_all, unmarked,
}
use jobflow_project.Graph.Visit.Restore.{Restores, visit-Restores, includes-mark}
use jobflow_project.Graph.Visit.Cycles.{leave_err}

-- The nodes of `keys` that are not being visited.
unfoldable pub waiting : (keys visiting : List Text) → ℕ
waiting keys visiting = length (select (λ k. not (includes visiting k)) keys)

-- Fewer nodes wait where more are visited.
pub waiting-le :
    (keys xs ys : List Text)
    → ((k : Text) → includes xs k ≡ true → includes ys k ≡ true)
    → waiting keys ys ≤ waiting keys xs
unfolding waiting
waiting-le [] xs ys f = omega arith
waiting-le (k ∷ ks) xs ys f = ground (arith, waiting-le ks xs ys f, f k)

waiting-mark-le :
    (id : Text) (keys visiting : List Text)
    → waiting keys (mark id visiting) ≤ waiting keys visiting
unfolding waiting
waiting-mark-le id [] visiting = omega arith
waiting-mark-le id (k ∷ ks) visiting =
    ground (arith, includes-mark id k visiting, waiting-mark-le id ks visiting)

pub waiting-mark-lt :
    (id : Text) (keys visiting : List Text)
    → includes keys id ≡ true
    → includes visiting id ≡ false
    → waiting keys (mark id visiting) < waiting keys visiting
unfolding waiting includes
waiting-mark-lt id [] visiting h v = cc
waiting-mark-lt id (k ∷ ks) visiting h v = ground (
  arith,
  includes-mark id k visiting,
  waiting-mark-le id ks visiting,
  waiting-mark-lt id ks visiting,
  text_eq_iff k id,
  text_eq_iff id k,
)

module _ (deps : Text → List Text) (keys : List Text)
    (known : (id : Text) → includes keys id ≡ false → deps id ≡ []) where
  abbrev Ends : ℕ → (Text → Marks → Visited) → Type 0
  Ends fuel step =
      (id : Text) (m : Marks) → waiting keys m.visiting < fuel → step id m ≢ err out_of_fuel

  visit_each-Ends :
      (fuel : ℕ) (step : Text → Marks → Visited)
      → Restores step
      → Ends fuel step
      → (ids : List Text) (m : Marks) → waiting keys m.visiting < fuel
      → visit_each step ids m ≢ err out_of_fuel
  unfolding visit_each
  visit_each-Ends fuel step r p [] m b h = cc
  visit_each-Ends fuel step r p (id ∷ ids) m b h = elim (Result-cases (step id m)) [
    | inl (e, q) ↦ p id m b (q ∙ (rw (q, visit_each) at (h)))
    | inr (n, q) ↦
        visit_each-Ends fuel step r p ids n
          (subst (λ v. waiting keys v < fuel) (sym (r id m n q)) b) (rw (q, visit_each) at (h))
  ]

  visit-Ends : (fuel : ℕ) → Ends fuel (visit deps fuel)
  unfolding visit visit_each
  visit-Ends zero id m b h = absurd (omega arith)
  visit-Ends (suc fuel) id m b h = elim (Bool-cases (includes m.visited id)) [
    | inl v ↦ let e = rw (v, visit) at h in cc
    | inr v ↦ elim (Bool-cases (includes m.visiting id)) [
      | inl w ↦ let e = rw (v, w, visit) at h in cc
      | inr w ↦
          let each = leave_err id _ (rw (v, w, visit) at (h)) in
          elim (Bool-cases (includes keys id)) [
            | inl k ↦
                visit_each-Ends fuel (visit deps fuel) (visit-Restores deps fuel) (visit-Ends fuel)
                  (deps id) (record m { visiting = mark id m.visiting })
                  (omega (arith, waiting-mark-lt id keys m.visiting k w)) each
            | inr k ↦ let e = rw (known id k) at each in cc
          ]
    ]
  ]

  -- A visit of any nodes on fuel above the number of nodes with dependencies does not run out.
  pub visit_all_ends :
      (fuel : ℕ) (ids : List Text) → length keys < fuel → visit_all deps fuel ids ≢ err out_of_fuel
  unfolding visit_all waiting
  visit_all_ends fuel ids b =
      visit_each-Ends fuel (visit deps fuel) (visit-Restores deps fuel) (visit-Ends fuel) ids
        unmarked (omega (arith, length-select-le (λ k. not (includes [] k)) keys))
