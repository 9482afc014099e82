-- ===== src/Graph/Visit/Cycles.antt =====
-- A cycle is reported only where there is one.
use jobflow_project.Common.{
  All, Bool-cases, List, Result-cases, Text, [], arith, err, includes, inl, inr, ok, subst, suc,
  sym, text_eq, text_eq_iff, true, zero, ℕ, ◌<◌, ◌>>=◌, ◌∙◌, ◌∷◌, ◌≡◌, ◌≢◌,
}
use jobflow_project.Graph.Visit.{
  Marks, VisitError, cycle, Visited, mark, visit_each, leave, visit, visit_all, unmarked,
}
use jobflow_project.Graph.Visit.Restore.{Restores, visit-Restores, includes-mark}

pub leave_err : (id : Text) (r : Visited) {e : VisitError} → (r >>= leave id) ≡ err e → r ≡ err e
unfolding leave
leave_err id (ok n) h = cc
leave_err id (err e) h = h

module _ (deps : Text → List Text) (rank : Text → ℕ)
    (ranked : (id : Text) → All (λ dep. rank dep < rank id) (deps id)) where
  -- The node lies below all those that are being visited.
  abbrev Below : Text → List Text → Type 0
  Below id visiting = (k : Text) → includes visiting k ≡ true → rank id < rank k

  abbrev Passes : (Text → Marks → Visited) → Type 0
  Passes step = (id c : Text) (m : Marks) → Below id m.visiting → step id m ≢ err (cycle c)

  visit_each-Passes :
      (step : Text → Marks → Visited)
      → Restores step
      → Passes step
      → (ids : List Text) (c : Text) (m : Marks) → All (λ id. Below id m.visiting) ids
      → visit_each step ids m ≢ err (cycle c)
  unfolding visit_each
  visit_each-Passes step r p [] c m b h = cc
  visit_each-Passes step r p (id ∷ ids) c m b h = elim (Result-cases (step id m)) [
    | inl (e, q) ↦ p id c m b.0 (q ∙ (rw (q, visit_each) at (h)))
    | inr (n, q) ↦
        visit_each-Passes step r p ids c n
          (subst (λ v. All (λ k. Below k v) ids) (sym (r id m n q)) b.1) (rw (q, visit_each) at (h))
  ]

  All-Below :
      (id : Text) (ids visiting : List Text)
      → Below id visiting
      → All (λ dep. rank dep < rank id) ids
      → All (λ dep. Below dep (mark id visiting)) ids
  All-Below id [] visiting b a = tt
  All-Below id (dep ∷ ids) visiting b a = (
    λ k i. elim (Bool-cases (text_eq id k)) [
      | inl e ↦ subst (λ j. rank dep < rank j) ((text_eq_iff id k).0 e) a.0
      | inr e ↦
          let older : includes visiting k ≡ true = ground (arith, includes-mark id k visiting, i) in
          omega (arith, b k older, a.0)
    ],
    All-Below id ids visiting b a.1,
  )

  visit-Passes : (fuel : ℕ) → Passes (visit deps fuel)
  unfolding visit leave
  visit-Passes zero id c m b h = cc
  visit-Passes (suc fuel) id c m b h = elim (Bool-cases (includes m.visited id)) [
    | inl v ↦ let e = rw (v, visit) at h in cc
    | inr v ↦ elim (Bool-cases (includes m.visiting id)) [
      | inl w ↦ absurd (omega (arith, b id w))
      | inr w ↦
          visit_each-Passes (visit deps fuel) (visit-Restores deps fuel) (visit-Passes fuel)
            (deps id) c (record m { visiting = mark id m.visiting })
            (All-Below id (deps id) m.visiting b (ranked id))
            (leave_err id _ (rw (v, w, visit) at (h)))
    ]
  ]

  -- A graph whose nodes can be ranked above their dependencies has no cycle reported.
  pub visit_all-no_cycle :
      (fuel : ℕ) (ids : List Text) (c : Text) → visit_all deps fuel ids ≢ err (cycle c)
  unfolding visit_all includes
  visit_all-no_cycle fuel ids c =
      visit_each-Passes (visit deps fuel) (visit-Restores deps fuel) (visit-Passes fuel) ids c
        unmarked (nothing ids)
    where
      nothing : (ks : List Text) → All (λ id. Below id []) ks
      nothing [] = tt
      nothing (k ∷ ks) = (λ j i. cc, nothing ks)
