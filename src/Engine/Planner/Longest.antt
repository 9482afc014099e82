-- ===== src/Engine/Planner/Longest.antt =====
-- `longestFrom` finds a longest chain, whatever the memo holds of others.
use jobflow_project.Common.{
  >>=-eq-ok, All, All-includes, Bool-cases, List, Map, Option-cases, Result, Text, [], ap, arith,
  includes, includes_first, includes_later, inl, inr, insert, lookup, lookup-insert, ltb, none, ok,
  ok_inj, refl, some, some_inj, some_is_not_none, subst, suc, sym, text_eq, text_eq_iff, true, zero,
  ℕ, ◌++◌, ◌+◌, ◌∙◌, ◌∷◌, ◌≡◌, ◌≤◌,
}
use jobflow_project.Graph.Visit.{VisitError}
use jobflow_project.Engine.Planner.{
  DagNode, Route, no_path, Memo, better, best_of, extend, longest_from,
}
use jobflow_project.Engine.Planner.Chains.{Chain, Chain-lookup, single, link, IsChainTo, Bounds}

abbrev Found : Type 0
Found = Result VisitError (Route × Memo)

module _ (g : Map DagNode) where
  abbrev pub IsLongest : Text → Route → Type 0
  IsLongest id r = IsChainTo g (λ k. k ≡ id) r × Bounds g id r.cost

  abbrev pub IsMemo : Memo → Type 0
  IsMemo memo = (id : Text) (r : Route) → lookup id memo ≡ some r → IsLongest id r

  abbrev Finds : (Text → Memo → Found) → Type 0
  Finds step =
      (id : Text) (memo memo' : Memo) (r : Route)
      → IsMemo memo
      → step id memo ≡ ok (r, memo')
      → IsLongest id r × IsMemo memo'

  chain_map :
      (P Q : Text → Type 0) (r : Route)
      → ((k : Text) → P k → Q k)
      → IsChainTo g P r
      → IsChainTo g Q r
  chain_map P Q r f (inl e) = inl e
  chain_map P Q r f (inr (k, p, c)) = inr (k, f k p, c)

  better-le :
      (child best : Route)
      → (best.cost ≤ (better child best).cost) × (child.cost ≤ (better child best).cost)
  unfolding better
  better-le child best = ground arith

  better-IsChainTo :
      (P : Text → Type 0) (child best : Route)
      → IsChainTo g P child
      → IsChainTo g P best
      → IsChainTo g P (better child best)
  unfolding better
  better-IsChainTo P child best c b = elim (Bool-cases (ltb best.cost child.cost)) [
    | inl e ↦ rw e c
    | inr e ↦ rw e b
  ]

  -- The best of some tasks: a chain to one of them, no lighter than any other, nor than the first guess.
  pub best_of-Finds :
      (step : Text → Memo → Found)
      → Finds step
      → (ids all : List Text) (best r : Route) (memo memo' : Memo)
      → ((k : Text) → includes ids k ≡ true → includes all k ≡ true)
      → IsMemo memo
      → IsChainTo g (λ k. includes all k ≡ true) best
      → best_of step ids best memo ≡ ok (r, memo')
      → IsChainTo g (λ k. includes all k ≡ true) r
        × All (λ id. Bounds g id r.cost) ids
        × (best.cost ≤ r.cost)
        × IsMemo memo'
  unfolding best_of
  best_of-Finds step f [] all best r memo memo' i m b h =
      let e = ok_inj h in
      subst
        (λ p.
          IsChainTo g (λ k. includes all k ≡ true) p.0 × Unit × (best.cost ≤ p.0.cost) × IsMemo p.1)
        e (b, tt, omega arith, m)
  best_of-Finds step f (id ∷ ids) all best r memo memo' i m b h =
      let (p, e, e') = >>=-eq-ok (step id memo) (λ p. best_of step ids (better p.0 best) p.1) h in
      let here = f id memo p.1 p.0 m e in
      let member : IsChainTo g (λ k. includes all k ≡ true) p.0 =
        chain_map (λ k. k ≡ id) (λ k. includes all k ≡ true) p.0
          (λ k q. i k (includes_first id k ids (sym q))) here.0.0 in
      let rest =
        best_of-Finds step f ids all (better p.0 best) r p.1 memo'
          (λ k j. i k (includes_later id k ids j)) here.1
          (better-IsChainTo (λ k. includes all k ≡ true) p.0 best member b) e' in
      let le = better-le p.0 best in
      (
        rest.0,
        (λ path w c. omega (arith, here.0.1 path w c, rest.2, le.1), rest.1),
        omega (arith, rest.2, le.0),
        rest.3,
      )

  -- A chain to a task, where no chain to a dependency weighs more than `cost`.
  Chain-le :
      (id : Text) (path : List Text) (weight : ℕ)
      → Chain g id path weight
      → (n : DagNode) (cost : ℕ) → lookup id g ≡ some n
      → All (λ dep. Bounds g dep cost) n.depends_on
      → weight ≤ n.weight_ms + cost
  Chain-le id path weight (single k m e) n cost q a =
      let same : m.weight_ms ≡ n.weight_ms = ap DagNode.weight_ms (some_inj (sym e ∙ q)) in
      omega (arith, same)
  Chain-le id path weight (link k m dep p w e d c) n cost q a =
      let same : m ≡ n = some_inj (sym e ∙ q) in
      let weights : m.weight_ms ≡ n.weight_ms = ap DagNode.weight_ms same in
      let bound =
        All-includes (λ j. Bounds g j cost) n.depends_on dep a
          (subst (λ o. includes o.depends_on dep ≡ true) same d) in
      omega (arith, weights, bound p w c)

  extend-IsLongest :
      (id : Text) (n : DagNode) (best : Route)
      → lookup id g ≡ some n
      → IsChainTo g (λ k. includes n.depends_on k ≡ true) best
      → All (λ dep. Bounds g dep best.cost) n.depends_on
      → IsLongest id (record { cost = n.weight_ms + best.cost; path = best.path ++ id ∷ [] })
  extend-IsLongest id n best e (inl q) a = (
    inr (
      id,
      refl,
      subst (λ b. Chain g id (b.path ++ id ∷ []) (n.weight_ms + b.cost)) (sym q)
          (subst (Chain g id (id ∷ [])) (omega arith) (single id n e)),
    ),
    λ path w c. Chain-le id path w c n best.cost e a,
  )
  extend-IsLongest id n best e (inr (k, d, c)) a = (
    inr (id, refl, link id n k best.path best.cost e d c),
    λ path w c. Chain-le id path w c n best.cost e a,
  )

  insert-IsMemo :
      (id : Text) (r : Route) (memo : Memo)
      → IsLongest id r
      → IsMemo memo
      → IsMemo (insert id r memo)
  insert-IsMemo id r memo l m k s h = elim (Bool-cases (text_eq id k)) [
    | inl e ↦
        let same : r ≡ s = some_inj (sym (lookup-insert id k r memo ∙ rw e refl) ∙ h) in
        subst (λ p. IsLongest k p) same (subst (λ j. IsLongest j r) ((text_eq_iff id k).0 e) l)
    | inr e ↦ m k s (sym (lookup-insert id k r memo ∙ rw e refl) ∙ h)
  ]

  no_chain : (id : Text) → lookup id g ≡ none → Bounds g id 0
  no_chain id e path w c = let (n, q) = Chain-lookup g id path w c in some_is_not_none (sym q ∙ e)

  pub longest_from-Finds : (fuel : ℕ) → Finds (longest_from g fuel)
  unfolding longest_from extend
  longest_from-Finds zero id memo memo' r m h = cc
  longest_from-Finds (suc fuel) id memo memo' r m h = elim (Option-cases (lookup id memo)) [
    | inr (s, e) ↦
        let q = ok_inj (rw (e, longest_from) at (h)) in
        subst (λ p. IsLongest id p.0 × IsMemo p.1) q (m id s e, m)
    | inl e ↦ elim (Option-cases (lookup id g)) [
      | inl e₂ ↦
          let q = ok_inj (rw (e, e₂, longest_from) at (h)) in
          subst (λ p. IsLongest id p.0 × IsMemo p.1) q ((inl refl, no_chain id e₂), m)
      | inr (n, e₂) ↦
          let (b, q, q') =
            >>=-eq-ok (best_of (longest_from g fuel) n.depends_on no_path memo) (extend id n)
              (rw (e, e₂, longest_from) at (h)) in
          let found =
            best_of-Finds (longest_from g fuel) (longest_from-Finds fuel) n.depends_on n.depends_on
              no_path b.0 memo b.1 (λ k i. i) m (inl refl) q in
          let longest = extend-IsLongest id n b.0 e₂ found.0 found.1 in
          subst (λ p. IsLongest id p.0 × IsMemo p.1) (ok_inj q')
            (longest, insert-IsMemo id _ b.1 longest found.3)
    ]
  ]
