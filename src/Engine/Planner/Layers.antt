-- ===== src/Engine/Planner/Layers.antt =====
-- What the levels of a graph are to be, and how a task that is done lowers the degrees of others.
use jobflow_project.Common.{
  All, All-append, Bool-cases, List, Map, Text, [], ap, arith, false, if◌then◌else◌, includes, inl,
  inr, insert, keys, length, lookup, not, refl, select, some, some_inj, subst, suc, sym, text_eq,
  text_eq_iff, text_eq_refl, true, zero, ℕ, ◌++◌, ◌<◌, ◌||◌, ◌∙◌, ◌∷◌, ◌≡◌, ◌≤◌,
}
use jobflow_project.Validators.Jobs.Sound.{IsDistinct}
use jobflow_project.Engine.Planner.{
  DagNode, ℤ, pos, pred, is_zero, degree_of, add_last, Round, lower, lower_dependents,
}
use jobflow_project.Engine.Planner.Rounds.{degree_of-insert}

-- The tasks done after a level.
unfoldable pub collect : List Text → List Text → List Text
collect [] done = done
collect (id ∷ ids) done = collect ids (id ∷ done)

-- No task is done yet, and none stands there twice.
unfoldable pub IsFresh : List Text → List Text → Type 0
IsFresh [] done = Unit
IsFresh (id ∷ ids) done = (includes done id ≡ false) × IsFresh ids (id ∷ done)

-- How many entries of a list of dependencies are not done.
unfoldable pub missing : List Text → List Text → ℕ
missing done deps = length (select (λ dep. not (includes done dep)) deps)

pub includes-collect :
    (ids done : List Text) (t : Text)
    → includes (collect ids done) t ≡ (includes ids t || includes done t)
unfolding collect includes
includes-collect [] done t = refl
includes-collect (id ∷ ids) done t = ground (arith, includes-collect ids (id ∷ done) t)

pub append-IsFresh :
    (ids done : List Text) (t : Text)
    → IsFresh ids done
    → includes ids t ≡ false
    → includes done t ≡ false
    → IsFresh (ids ++ t ∷ []) done
unfolding IsFresh includes
append-IsFresh [] done t f i h = (h, tt)
append-IsFresh (id ∷ ids) done t f i h =
    (f.0, append-IsFresh ids (id ∷ done) t f.1 (ground (arith, i)) (ground (arith, i, h)))

missing-le : (done deps : List Text) (id : Text) → missing (id ∷ done) deps ≤ missing done deps
unfolding missing includes
missing-le done [] id = omega arith
missing-le done (dep ∷ deps) id = ground (arith, missing-le done deps id)

missing-lt :
    (done deps : List Text) (id : Text)
    → includes deps id ≡ true
    → includes done id ≡ false
    → missing (id ∷ done) deps < missing done deps
unfolding missing includes
missing-lt done [] id i h = cc
missing-lt done (dep ∷ deps) id i h = ground (
  arith,
  missing-le done deps id,
  missing-lt done deps id,
  text_eq_iff dep id,
  text_eq_iff id dep,
  subst (λ k. includes done k ≡ false),
)

pub none_missing :
    (done deps : List Text) → missing done deps ≤ 0 → All (λ dep. includes done dep ≡ true) deps
unfolding missing
none_missing done [] h = tt
none_missing done (dep ∷ deps) h = elim (Bool-cases (includes done dep)) [
  | inl e ↦ (e, none_missing done deps (rw e at (h)))
  | inr e ↦ let h' = rw e at h in absurd (omega (arith, h'))
]

-- A degree covers what is missing.
abbrev pub IsCovering : List Text → DagNode → ℤ → Type 0
IsCovering done n d = (k : ℕ) × (d ≡ pos k) × (missing done n.depends_on ≤ k)

positive_suc : (k : ℕ) → 0 < k → (j : ℕ) × (k ≡ suc j)
positive_suc zero h = absurd (omega arith)
positive_suc (suc j) h = (j, refl)

zero_pos : (k : ℕ) → is_zero (pos k) ≡ true → ◌≡◌ {A = ℤ} (pos k) (pos 0)
unfolding is_zero
zero_pos zero h = refl
zero_pos (suc k) h = cc

includes-last :
    (ids : List Text) (t u : Text) → includes (ids ++ t ∷ []) u ≡ (text_eq t u || includes ids u)
unfolding includes
includes-last [] t u = refl
includes-last (id ∷ ids) t u = ground (arith, includes-last ids t u)

module _ (g : Map DagNode) where
  abbrev pub IsKnown : Text → Type 0
  IsKnown id = (n : DagNode) × (lookup id g ≡ some n)

  -- While the dependents of `id` are lowered, in the nodes of the rest `tl` not yet; `gone` are the
  -- tasks of this level and of those before.
  pub record IsLowering (gone done : List Text) (id : Text) (tl : Map DagNode) (r : Round)
      : Type 0 where
    pub covers :
        (t : Text) (n : DagNode)
        → lookup t g ≡ some n
        → IsCovering (if includes (keys tl) t then done else id ∷ done) n (degree_of t r.degrees)
    pub settled : (t : Text) → includes gone t ≡ true → degree_of t r.degrees ≡ pos 0
    pub next_settled : (t : Text) → includes r.next t ≡ true → degree_of t r.degrees ≡ pos 0
    pub fresh : IsFresh r.next gone
    pub known : All IsKnown r.next

  module _ (gone done : List Text) (id : Text) (not_done : includes done id ≡ false) (t : Text)
      (n : DagNode) (tl : Map DagNode) (found : lookup t g ≡ some n)
      (once : includes (keys tl) t ≡ false) (r : Round)
      (l : IsLowering gone done id ((t, n) ∷ tl) r) where
    shrink :
        (u : Text) (m : DagNode) (d : ℤ)
        → IsCovering (if includes (keys ((t, n) ∷ tl)) u then done else id ∷ done) m d
        → IsCovering (if includes (keys tl) u then done else id ∷ done) m d
    unfolding keys includes
    shrink u m d (k, e, b) = elim (Bool-cases (includes (keys tl) u)) [
      | inl i ↦ (k, e, ground (arith, i, b))
      | inr i ↦ (k, e, ground (arith, i, b, missing-le done m.depends_on id))
    ]

    -- The node depends on the task: its degree was above 0.
    above :
        includes n.depends_on id ≡ true
        → (k : ℕ) × (degree_of t r.degrees ≡ pos (suc k)) × (missing (id ∷ done) n.depends_on ≤ k)
    unfolding keys includes
    above i =
        let (k, e, b) = l.covers t n found in
        let lt = missing-lt done n.depends_on id i not_done in
        let before : missing done n.depends_on ≤ k = ground (arith, b, text_eq_refl t) in
        let (j, q) = positive_suc k (omega arith) in (j, e ∙ ap pos q, omega (arith, q))

    skip-IsLowering : IsLowering gone done id tl r
    skip-IsLowering = record {
      covers = λ u m f. shrink u m (degree_of u r.degrees) (l.covers u m f);
      settled = l.settled;
      next_settled = l.next_settled;
      fresh = l.fresh;
      known = l.known;
    }

    module _ (k : ℕ) (degree : degree_of t r.degrees ≡ pos (suc k))
        (rest : missing (id ∷ done) n.depends_on ≤ k) where
      abbrev lowered : Map ℤ
      lowered = insert t (pos k) r.degrees

      -- The task is neither in this level nor in those before or after.
      is_settled : (u : Text) → degree_of u r.degrees ≡ pos 0 → degree_of u lowered ≡ pos 0
      is_settled u h = elim (Bool-cases (text_eq t u)) [
        | inl e ↦
            let clash : ◌≡◌ {A = ℤ} (pos (suc k)) (pos 0) =
              sym degree ∙ (ap (λ j. degree_of j r.degrees) ((text_eq_iff t u).0 e) ∙ h) in
            cc
        | inr e ↦ rw (degree_of-insert t u (pos k) r.degrees, e) h
      ]

      is_absent :
          (ids : List Text)
          → ((u : Text) → includes ids u ≡ true → degree_of u r.degrees ≡ pos 0)
          → includes ids t ≡ false
      is_absent ids f = elim (Bool-cases (includes ids t)) [
        | inl e ↦ let clash : ◌≡◌ {A = ℤ} (pos (suc k)) (pos 0) = sym degree ∙ f t e in cc
        | inr e ↦ e
      ]

      covers_lowered :
          (u : Text) (m : DagNode)
          → lookup u g ≡ some m
          → IsCovering (if includes (keys tl) u then done else id ∷ done) m (degree_of u lowered)
      covers_lowered u m f = elim (Bool-cases (text_eq t u)) [
        | inl e ↦
            let here = (text_eq_iff t u).0 e in
            let same : n ≡ m = some_inj (sym found ∙ (ap (λ j. lookup j g) here ∙ f)) in
            rw (degree_of-insert t u (pos k) r.degrees, e, ← here, once)
              (k, refl, subst (λ o. missing (id ∷ done) o.depends_on ≤ k) same rest)
        | inr e ↦
            rw (degree_of-insert t u (pos k) r.degrees, e)
              (shrink u m (degree_of u r.degrees) (l.covers u m f))
      ]

      last_settled :
          (u : Text)
          → is_zero (pos k) ≡ true
          → includes (r.next ++ t ∷ []) u ≡ true
          → degree_of u lowered ≡ pos 0
      last_settled u z i = elim (Bool-cases (text_eq t u)) [
        | inl e ↦ rw (degree_of-insert t u (pos k) r.degrees, e) (zero_pos k z)
        | inr e ↦ is_settled u (l.next_settled u (rw (includes-last r.next t u, e) at (i)))
      ]

      IsLowering-with :
          (next : List Text)
          → ((u : Text) → includes next u ≡ true → degree_of u lowered ≡ pos 0)
          → IsFresh next gone
          → All IsKnown next
          → IsLowering gone done id tl (record { degrees = lowered; next = next })
      IsLowering-with next z f a = record {
        covers = covers_lowered;
        settled = λ u i. is_settled u (l.settled u i);
        next_settled = z;
        fresh = f;
        known = a;
      }

      lowered_next : IsLowering gone done id tl (record {
        degrees = lowered;
        next = if is_zero (pos k) then add_last t r.next else r.next;
      })
      unfolding add_last
      lowered_next = elim (Bool-cases (is_zero (pos k))) [
        | inr e ↦
            rw e (IsLowering-with r.next (λ u i. is_settled u (l.next_settled u i)) l.fresh l.known)
        | inl e ↦
            let absent = is_absent r.next l.next_settled in
            rw (e, absent)
              (IsLowering-with (r.next ++ t ∷ []) (λ u i. last_settled u e i)
                (append-IsFresh r.next gone t l.fresh absent (is_absent gone l.settled))
                (All-append IsKnown r.next (t ∷ []) l.known ((n, found), tt)))
      ]

      lower-IsLowering : IsLowering gone done id tl (lower t r)
      unfolding lower pred degree_of
      lower-IsLowering =
          let next : ℤ → Round = λ d. record {
            degrees = insert t (pred d) r.degrees;
            next = if is_zero (pred d) then add_last t r.next else r.next;
          } in
          let e : next (pos (suc k)) ≡ lower t r = ap next (sym degree) in
          subst (IsLowering gone done id tl) e lowered_next

  -- All the dependents are lowered.
  pub lower_dependents-IsLowering :
      (gone done : List Text) (id : Text)
      → includes done id ≡ false
      → (tl : Map DagNode) (r : Round) → IsDistinct (keys tl)
      → All (λ e. lookup e.0 g ≡ some e.1) tl
      → IsLowering gone done id tl r
      → IsLowering gone done id [] (lower_dependents id tl r)
  unfolding lower_dependents IsDistinct keys
  lower_dependents-IsLowering gone done id h [] r d a l = l
  lower_dependents-IsLowering gone done id h ((t, n) ∷ tl) r d a l =
      elim (Bool-cases (includes n.depends_on id)) [
        | inl e ↦
            let (k, q, b) = above gone done id h t n tl a.0 d.0 r l e in
            rw (e, lower_dependents)
              (lower_dependents-IsLowering gone done id h tl (lower t r) d.1 a.1
                (lower-IsLowering gone done id h t n tl a.0 d.0 r l k q b))
        | inr e ↦
            rw (e, lower_dependents)
              (lower_dependents-IsLowering gone done id h tl r d.1 a.1
                (skip-IsLowering gone done id h t n tl a.0 d.0 r l))
      ]
