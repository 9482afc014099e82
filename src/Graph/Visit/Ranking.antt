-- ===== src/Graph/Visit/Ranking.antt =====
-- What was visited stands behind its dependencies, so the places rank the nodes.
use jobflow_project.Common.{
  >>=-eq-ok, All, Bool-cases, List, Text, [], arith, false, if◌then◌else◌, includes, inl, inr,
  length, ok, subst, suc, sym, text_eq, text_eq_iff, text_eq_refl, true, zero, ℕ, ◌<◌, ◌∷◌, ◌≡◌,
  ◌≤◌,
}
use jobflow_project.Graph.Visit.{Marks, Visited, mark, visit_each, visit, visit_all, unmarked}
use jobflow_project.Graph.Visit.Restore.{Entered, known, entered, visit-Entered, includes-mark}

-- The place of an entry, counted from the end.
unfoldable pub place_of : List Text → Text → ℕ
place_of [] k = 0
place_of (id ∷ ids) k = if text_eq id k then suc (length ids) else place_of ids k

place_of-le : (ids : List Text) (k : Text) → place_of ids k ≤ length ids
unfolding place_of
place_of-le [] k = omega arith
place_of-le (id ∷ ids) k = ground (arith, place_of-le ids k)

module _ (deps : Text → List Text) where
  abbrev pub AllIn : List Text → List Text → Type 0
  AllIn ids set = All (λ id. includes set id ≡ true) ids

  -- Each entry stands before its dependencies, and once.
  abbrev pub IsOrdered : List Text → Type 0
  IsOrdered [] = Unit
  IsOrdered (id ∷ ids) = (includes ids id ≡ false) × AllIn (deps id) ids × IsOrdered ids

  -- More was visited, and in order.
  abbrev Grows : (Text → Marks → Visited) → Type 0
  Grows step =
      (id : Text) (m m' : Marks)
      → step id m ≡ ok m'
      → IsOrdered m.visited
      → IsOrdered m'.visited
        × (includes m'.visited id ≡ true)
        × ((k : Text) → includes m.visited k ≡ true → includes m'.visited k ≡ true)

  AllIn-mono :
      (ids xs ys : List Text)
      → ((k : Text) → includes xs k ≡ true → includes ys k ≡ true)
      → AllIn ids xs
      → AllIn ids ys
  AllIn-mono [] xs ys f a = tt
  AllIn-mono (id ∷ ids) xs ys f a = (f id a.0, AllIn-mono ids xs ys f a.1)

  visit_each-Grows :
      (step : Text → Marks → Visited)
      → Grows step
      → (ids : List Text) (m m' : Marks) → visit_each step ids m ≡ ok m'
      → IsOrdered m.visited
      → IsOrdered m'.visited
        × AllIn ids m'.visited
        × ((k : Text) → includes m.visited k ≡ true → includes m'.visited k ≡ true)
  unfolding visit_each
  visit_each-Grows step g [] m m' h o =
      let e : m ≡ m' = cc in
      subst
        (λ n.
          IsOrdered n.visited
          × Unit
          × ((k : Text) → includes m.visited k ≡ true → includes n.visited k ≡ true))
        e (o, tt, λ k i. i)
  visit_each-Grows step g (id ∷ ids) m m' h o =
      let (n, e, e') = >>=-eq-ok (step id m) (visit_each step ids) h in
      let here = g id m n e o in
      let rest = visit_each-Grows step g ids n m' e' here.0 in
      (rest.0, (rest.2 id here.1, rest.1), λ k i. rest.2 k (here.2 k i))

  mark-IsOrdered :
      (id : Text) (ids : List Text) → AllIn (deps id) ids → IsOrdered ids → IsOrdered (mark id ids)
  unfolding mark
  mark-IsOrdered id ids a o = elim (Bool-cases (includes ids id)) [
    | inl h ↦ rw h o
    | inr h ↦ rw h (h, a, o)
  ]

  Entered-Grows :
      (fuel : ℕ)
      → Grows (visit deps fuel)
      → (id : Text) (m m' : Marks) → Entered deps fuel id m m'
      → IsOrdered m.visited
      → IsOrdered m'.visited
        × (includes m'.visited id ≡ true)
        × ((k : Text) → includes m.visited k ≡ true → includes m'.visited k ≡ true)
  Entered-Grows fuel g id m m' (known v) o = (o, v, λ k i. i)
  Entered-Grows fuel g id m m' (entered n v w p) o =
      let each = visit_each-Grows (visit deps fuel) g (deps id) _ n p o in
      (
        mark-IsOrdered id n.visited each.1 each.0,
        ground (arith, includes-mark id id n.visited, text_eq_refl id),
        λ k i. ground (arith, includes-mark id k n.visited, each.2 k i),
      )

  visit-Grows : (fuel : ℕ) → Grows (visit deps fuel)
  unfolding visit
  visit-Grows zero id m m' h o = cc
  visit-Grows (suc fuel) id m m' h o =
      Entered-Grows fuel (visit-Grows fuel) id m m' (visit-Entered deps fuel id m m' h) o

  AllIn-includes :
      (ids set : List Text) (k : Text)
      → AllIn ids set
      → includes ids k ≡ true
      → includes set k ≡ true
  unfolding includes
  AllIn-includes [] set k a h = cc
  AllIn-includes (id ∷ ids) set k a h = elim (Bool-cases (text_eq id k)) [
    | inl e ↦ subst (λ j. includes set j ≡ true) ((text_eq_iff id k).0 e) a.0
    | inr e ↦ AllIn-includes ids set k a.1 (rw e at (h))
  ]

  -- A dependency of an entry is an entry, at a lower place.
  pub place_of-lt :
      (ids : List Text) (k dep : Text)
      → IsOrdered ids
      → includes ids k ≡ true
      → includes (deps k) dep ≡ true
      → (includes ids dep ≡ true) × (place_of ids dep < place_of ids k)
  unfolding place_of includes
  place_of-lt [] k dep o h d = cc
  place_of-lt (id ∷ ids) k dep o h d = elim (Bool-cases (text_eq id k)) [
    | inl e ↦
        let same = (text_eq_iff id k).0 e in
        let below =
          AllIn-includes (deps id) ids dep o.1
            (subst (λ j. includes (deps j) dep ≡ true) (sym same) d) in
        ground (arith, below, place_of-le ids dep, text_eq_iff id dep, o.0)
    | inr e ↦
        let there : includes ids k ≡ true = ground (arith, h) in
        let ih = place_of-lt ids k dep o.2 there d in
        ground (arith, ih.0, ih.1, text_eq_iff id dep, o.0)
  ]

  -- After a visit of every node that succeeds, the place ranks each node above its dependencies.
  pub visit_all-ranks :
      (fuel : ℕ) (ids : List Text) (m : Marks)
      → visit_all deps fuel ids ≡ ok m
      → (k dep : Text) → includes ids k ≡ true
      → includes (deps k) dep ≡ true
      → place_of m.visited dep < place_of m.visited k
  unfolding visit_all
  visit_all-ranks fuel ids m h k dep i d =
      let each = visit_each-Grows (visit deps fuel) (visit-Grows fuel) ids unmarked m h tt in
      (place_of-lt m.visited k dep each.0 (AllIn-includes ids m.visited k each.1 i) d).1
