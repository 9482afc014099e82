-- ===== src/Engine/Planner/Depth.antt =====
-- `longestFrom` comes to an end where the tasks are ranked above their dependencies: fewer tasks lie
-- below a dependency than below its task.
use jobflow_project.Common.{
  All, Bool-cases, List, Map, Option-cases, Result, Result-cases, Text, [], ap, arith, err, err_inj,
  includes, inl, inr, keys, length, length-select-le, lookup, ltb, ok, refl, select, some, suc,
  text_eq, text_eq_iff, true, zero, ℕ, ◌<◌, ◌>>=◌, ◌∙◌, ◌∷◌, ◌≡◌, ◌≢◌, ◌≤◌,
}
use jobflow_project.Graph.Visit.{VisitError}
use jobflow_project.Engine.Planner.{
  DagNode, Route, no_path, Memo, better, best_of, extend, longest_from, critical_path,
}

abbrev Found : Type 0
Found = Result VisitError (Route × Memo)

-- How many of the tasks lie below.
unfoldable pub below : (Text → ℕ) → List Text → Text → ℕ
below rank ids id = length (select (λ k. ltb (rank k) (rank id)) ids)

below_mono :
    (rank : Text → ℕ) (ids : List Text) (k id : Text)
    → rank k < rank id
    → below rank ids k ≤ below rank ids id
unfolding below
below_mono rank [] k id h = omega arith
below_mono rank (j ∷ ids) k id h = ground (arith, below_mono rank ids k id h)

below-lt :
    (rank : Text → ℕ) (ids : List Text) (k id : Text)
    → rank k < rank id
    → includes ids k ≡ true
    → below rank ids k < below rank ids id
unfolding below includes
below-lt rank [] k id h i = cc
below-lt rank (j ∷ ids) k id h i =
    ground (arith, below_mono rank ids k id h, below-lt rank ids k id h, text_eq_iff j k)

pub some-includes :
    {V : Type 0} (id : Text) (m : Map V) (v : V)
    → lookup id m ≡ some v
    → includes (keys m) id ≡ true
unfolding lookup includes keys
some-includes id [] v h = cc
some-includes id ((k, w) ∷ m) v h = elim (Bool-cases (text_eq k id)) [
  | inl e ↦ rw e refl
  | inr e ↦ rw e (some-includes id m v (rw e at (h)))
]

best_of_err :
    (r : Found) (id : Text) (n : DagNode) {e : VisitError} → (r >>= extend id n) ≡ err e → r ≡ err e
unfolding extend
best_of_err (ok p) id n h = cc
best_of_err (err e) id n h = h

module _ (bad : VisitError) (g : Map DagNode) (rank : Text → ℕ)
    (ranked : (id : Text) (n : DagNode)
      → lookup id g ≡ some n
      → All (λ dep. rank dep < rank id) n.depends_on) where
  abbrev depth : Text → ℕ
  depth = below rank (keys g)

  -- Enough fuel for a known task, and for an unknown one.
  abbrev Suffices : ℕ → Text → Type 0
  Suffices fuel id = (0 < fuel) × ((n : DagNode) → lookup id g ≡ some n → suc (depth id) < fuel)

  best_of_ends :
      (fuel : ℕ)
      → ((id : Text) (memo : Memo) → Suffices fuel id → longest_from g fuel id memo ≢ err bad)
      → (ids : List Text) (best : Route) (memo : Memo) → All (Suffices fuel) ids
      → best_of (longest_from g fuel) ids best memo ≢ err bad
  unfolding best_of
  best_of_ends fuel f [] best memo a h = cc
  best_of_ends fuel f (id ∷ ids) best memo a h = elim (Result-cases (longest_from g fuel id memo)) [
    | inl (e, q) ↦ f id memo a.0 (q ∙ (rw (q, best_of) at (h)))
    | inr (r, q) ↦ best_of_ends fuel f ids (better r.0 best) r.1 a.1 (rw (q, best_of) at (h))
  ]

  deps_suffice :
      (fuel : ℕ) (id : Text) (deps : List Text)
      → suc (depth id) < suc fuel
      → All (λ dep. rank dep < rank id) deps
      → All (Suffices fuel) deps
  deps_suffice fuel id [] b a = tt
  deps_suffice fuel id (dep ∷ deps) b a = (
    (
      omega arith,
      λ n e. omega (arith, below-lt rank (keys g) dep id a.0 (some-includes dep g n e)),
    ),
    deps_suffice fuel id deps b a.1,
  )

  longest_from_ends :
      (fuel : ℕ) (id : Text) (memo : Memo)
      → Suffices fuel id
      → longest_from g fuel id memo ≢ err bad
  unfolding longest_from extend
  longest_from_ends zero id memo b h = absurd (omega (arith, b.0))
  longest_from_ends (suc fuel) id memo b h = elim (Option-cases (lookup id memo)) [
    | inr (r, e) ↦ let q = rw (e, longest_from) at h in cc
    | inl e ↦ elim (Option-cases (lookup id g)) [
      | inl e₂ ↦ let q = rw (e, e₂, longest_from) at h in cc
      | inr (n, e₂) ↦
          best_of_ends fuel (longest_from_ends fuel) n.depends_on no_path memo
            (deps_suffice fuel id n.depends_on (b.1 n e₂) (ranked id n e₂))
            (best_of_err _ id n (rw (e, e₂, longest_from) at (h)))
    ]
  ]

  pub critical_path_ends : critical_path g ≢ err bad
  unfolding critical_path below
  critical_path_ends h =
      let fuel = suc (suc (length (keys g))) in
      elim (Result-cases (best_of (longest_from g fuel) (keys g) no_path [])) [
        | inl (e, q) ↦
            best_of_ends fuel (longest_from_ends fuel) (keys g) no_path [] (enough (keys g))
              (q ∙ ap err (err_inj (rw q at (h))))
        | inr (r, q) ↦ let e = rw q at h in cc
      ]
    where
      enough : (ids : List Text) → All (Suffices (suc (suc (length (keys g))))) ids
      enough [] = tt
      enough (id ∷ ids) = (
        (
          omega arith,
          λ n e. omega (arith, length-select-le (λ k. ltb (rank k) (rank id)) (keys g)),
        ),
        enough ids,
      )
