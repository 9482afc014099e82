-- ===== src/Engine/Planner/Rounds.antt =====
-- The rounds of `topologicalLevels` come to an end: a task that is put in the next level was above
-- degree 0 and is not any more.
use jobflow_project.Common.{
  All, Bool, Bool-cases, List, Map, Result, Text, [], arith, err, false, if◌then◌else◌, includes,
  includes-All, inl, inr, insert, keys, length, length-select-le, lookup-insert, ok, refl, select,
  subst, suc, sym, text_eq, text_eq_iff, true, values, zero, ℕ, ◌<◌, ◌>>=◌, ◌∙◌, ◌∷◌, ◌≡◌, ◌≢◌, ◌≤◌,
  ◌⊎◌,
}
use jobflow_project.Graph.Visit.{VisitError}
use jobflow_project.Engine.Planner.{
  DagNode, ℤ, pos, negsuc, pred, is_zero, degree_of, Round, lower, lower_dependents, lower_each,
  levels_from, topological_levels, count_degrees, zero_degrees,
}

unfoldable pub is_positive : ℤ → Bool
is_positive (pos zero) = false
is_positive (pos (suc n)) = true
is_positive (negsuc n) = false

-- How many of the tasks are above degree 0.
unfoldable pub positives : List Text → Map ℤ → ℕ
positives ids degrees = length (select (λ k. is_positive (degree_of k degrees)) ids)

pub degree_of-insert :
    (id k : Text) (d : ℤ) (degrees : Map ℤ)
    → degree_of k (insert id d degrees) ≡ (if text_eq id k then d else degree_of k degrees)
unfolding degree_of
degree_of-insert id k d degrees = elim (Bool-cases (text_eq id k)) [
  | inl e ↦ rw (lookup-insert id k d degrees, e) refl
  | inr e ↦ rw (lookup-insert id k d degrees, e) refl
]

is_positive-pred : (d : ℤ) → is_positive (pred d) ≡ true → is_positive d ≡ true
unfolding is_positive pred
is_positive-pred (pos zero) h = h
is_positive-pred (pos (suc n)) h = refl
is_positive-pred (negsuc n) h = h

-- Only from 1 is 0 reached.
pub is_zero-pred :
    (d : ℤ) → is_zero (pred d) ≡ true → (is_positive d ≡ true) × (is_positive (pred d) ≡ false)
unfolding is_positive pred is_zero
is_zero-pred (pos zero) h = cc
is_zero-pred (pos (suc zero)) h = (refl, refl)
is_zero-pred (pos (suc (suc n))) h = cc
is_zero-pred (negsuc n) h = cc

module _ (id : Text) (degrees : Map ℤ) where
  abbrev lowered : Map ℤ
  lowered = insert id (pred (degree_of id degrees)) degrees

  lowered-stays :
      (k : Text)
      → is_positive (degree_of k lowered) ≡ true
      → is_positive (degree_of k degrees) ≡ true
  lowered-stays k h = elim (Bool-cases (text_eq id k)) [
    | inl e ↦
        let here : is_positive (pred (degree_of id degrees)) ≡ true =
          rw (degree_of-insert id k (pred (degree_of id degrees)) degrees, e) at h in
        subst (λ j. is_positive (degree_of j degrees) ≡ true) ((text_eq_iff id k).0 e)
          (is_positive-pred (degree_of id degrees) here)
    | inr e ↦ rw (degree_of-insert id k (pred (degree_of id degrees)) degrees, e) at (h)
  ]

  positives-le : (ids : List Text) → positives ids lowered ≤ positives ids degrees
  unfolding positives
  positives-le [] = omega arith
  positives-le (k ∷ ids) = ground (arith, positives-le ids, lowered-stays k)

  positives-lt :
      (ids : List Text)
      → includes ids id ≡ true
      → is_zero (pred (degree_of id degrees)) ≡ true
      → positives ids lowered < positives ids degrees
  unfolding positives includes
  positives-lt [] i z = cc
  positives-lt (k ∷ ids) i z = elim (Bool-cases (text_eq k id)) [
    | inl e ↦
        let same = (text_eq_iff k id).0 e in
        let z' = is_zero-pred (degree_of id degrees) z in
        let now : is_positive (degree_of k lowered) ≡ false =
          rw
            (
              degree_of-insert id k (pred (degree_of id degrees)) degrees,
              (text_eq_iff id k).1 (sym same),
            )
            z'.1 in
        let before : is_positive (degree_of k degrees) ≡ true =
          subst (λ j. is_positive (degree_of j degrees) ≡ true) (sym same) z'.0 in
        ground (arith, positives-le ids, now, before)
    | inr e ↦ ground (arith, positives-lt ids (rw e at (i)) z, lowered-stays k)
  ]

module _ (ids : List Text) where
  -- No task comes above 0 again, and where the next level grows, one fewer is.
  abbrev Falls : Round → Round → Type 0
  Falls r r' =
      (positives ids r'.degrees ≤ positives ids r.degrees)
      × ((r'.next ≡ r.next) ⊎ (positives ids r'.degrees < positives ids r.degrees))

  Falls-trans : (r s t : Round) → Falls r s → Falls s t → Falls r t
  Falls-trans r s t (a, inl e) (b, inl f) = (omega arith, inl (f ∙ e))
  Falls-trans r s t (a, inl e) (b, inr f) = (omega arith, inr (omega arith))
  Falls-trans r s t (a, inr e) (b, q) = (omega arith, inr (omega arith))

  lower-Falls : (id : Text) (r : Round) → includes ids id ≡ true → Falls r (lower id r)
  unfolding lower
  lower-Falls id r i = elim (Bool-cases (is_zero (pred (degree_of id r.degrees)))) [
    | inl e ↦ rw e (positives-le id r.degrees ids, inr (positives-lt id r.degrees ids i e))
    | inr e ↦ rw e (positives-le id r.degrees ids, inl refl)
  ]

  lower_if-Falls :
      (b : Bool) (id : Text) (r : Round)
      → includes ids id ≡ true
      → Falls r (if b then lower id r else r)
  lower_if-Falls true id r i = lower-Falls id r i
  lower_if-Falls false id r i = (omega arith, inl refl)

  lower_dependents-Falls :
      (id : Text) (g : Map DagNode) (r : Round)
      → All (λ k. includes ids k ≡ true) (keys g)
      → Falls r (lower_dependents id g r)
  unfolding lower_dependents keys
  lower_dependents-Falls id [] r a = (omega arith, inl refl)
  lower_dependents-Falls id ((t, n) ∷ g) r a =
      let s = if includes n.depends_on id then lower t r else r in
      Falls-trans r s (lower_dependents id g s) (lower_if-Falls (includes n.depends_on id) t r a.0)
        (lower_dependents-Falls id g s a.1)

  lower_each-Falls :
      (g : Map DagNode) (done : List Text) (r : Round)
      → All (λ k. includes ids k ≡ true) (keys g)
      → Falls r (lower_each g done r)
  unfolding lower_each
  lower_each-Falls g [] r a = (omega arith, inl refl)
  lower_each-Falls g (id ∷ done) r a =
      let s = lower_dependents id g r in
      Falls-trans r s (lower_each g done s) (lower_dependents-Falls id g r a)
        (lower_each-Falls g done s a)

more_levels :
    (r : Result VisitError (List (List Text))) (level : List Text) {e : VisitError}
    → ◌≡◌ {A = Result VisitError (List (List Text))} (r >>= λ levels. ok (level ∷ levels)) (err e)
    → r ≡ err e
more_levels (ok levels) level h = cc
more_levels (err e) level h = h

levels_from_ends :
    (e : VisitError) (g : Map DagNode) (fuel : ℕ) (ready : List Text) (degrees : Map ℤ)
    → positives (keys g) degrees < fuel
    → levels_from g fuel ready degrees ≢ err e
unfolding levels_from
levels_from_ends e g fuel [] degrees b h = cc
levels_from_ends e g zero (id ∷ ids) degrees b h = absurd (omega arith)
levels_from_ends e g (suc fuel) (id ∷ ids) degrees b h =
    let start : Round = record { degrees = degrees; next = [] } in
    let r = lower_each g (id ∷ ids) start in
    let rest = more_levels (levels_from g fuel r.next r.degrees) (id ∷ ids) h in
    let falls =
      lower_each-Falls (keys g) g (id ∷ ids) start
        (includes-All (λ k. includes (keys g) k ≡ true) (keys g) (λ k i. i)) in
    elim falls.1 [
      | inl q ↦ let r' = rw (q, levels_from) at rest in cc
      | inr lt ↦ levels_from_ends e g fuel r.next r.degrees (omega arith) rest
    ]

pub topological_levels_ends : (e : VisitError) (g : Map DagNode) → topological_levels g ≢ err e
unfolding topological_levels positives
topological_levels_ends e g h =
    let degrees = count_degrees (values g) (zero_degrees (keys g) []) in
    levels_from_ends e g (suc (length (keys g)))
      (select (λ id. is_zero (degree_of id degrees)) (keys g)) degrees
      (omega (arith, length-select-le (λ k. is_positive (degree_of k degrees)) (keys g))) h
