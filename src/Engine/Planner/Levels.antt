-- ===== src/Engine/Planner/Levels.antt =====
-- The levels of a plan: each task once, after all its dependencies.
use jobflow_project.Common.{
  >>=-eq-ok, All, All-includes, All-select, Bool, Bool-cases, List, Map, Text, [], arith, false,
  includes, includes-All, inl, inr, keys, length, length-select-le, lookup, not, ok, ok_inj, refl,
  select, some, subst, suc, sym, text_eq, text_eq_iff, true, values, zero, ℕ, ◌∙◌, ◌∷◌, ◌≡◌,
}
use jobflow_project.Validators.Jobs.Sound.{IsDistinct}
use jobflow_project.Engine.Planner.{
  DagNode, ℤ, pos, negsuc, is_zero, degree_of, zero_degrees, count_degrees, Round, lower_dependents,
  lower_each, levels_from, topological_levels,
}
use jobflow_project.Engine.Planner.Depth.{some-includes}
use jobflow_project.Engine.Planner.Graphs.{IsGraph, count_degrees-lookup, entries-lookup}
use jobflow_project.Engine.Planner.Layers.{
  collect, IsFresh, missing, includes-collect, none_missing, IsCovering, IsKnown, IsLowering,
  lower_dependents-IsLowering,
}

false_is_not_true : ¬ (false ≡ true)
false_is_not_true h = cc

in_empty : {a b : ℤ} (t : Text) → includes [] t ≡ true → a ≡ b
unfolding includes
in_empty t h = cc

in_first : (ids : List Text) (t : Text) → includes (collect ids []) t ≡ true → includes ids t ≡ true
unfolding includes
in_first ids t h = ground (arith, includes-collect ids [] t, h)

none_done : (ids : List Text) → All (λ id. includes [] id ≡ false) ids
unfolding includes
none_done [] = tt
none_done (id ∷ ids) = (refl, none_done ids)

others :
    (id : Text) (done ids : List Text)
    → includes ids id ≡ false
    → All (λ k. includes done k ≡ false) ids
    → All (λ k. includes (id ∷ done) k ≡ false) ids
unfolding includes
others id done [] h a = tt
others id done (k ∷ ids) h a = (
  ground (arith, h, a.0, text_eq_iff k id, text_eq_iff id k),
  others id done ids (ground (arith, h)) a.1,
)

select-All : (p : Text → Bool) (ids : List Text) → All (λ k. p k ≡ true) (select p ids)
select-All p [] = tt
select-All p (id ∷ ids) = elim (Bool-cases (p id)) [
  | inl e ↦ rw e (e, select-All p ids)
  | inr e ↦ rw e (select-All p ids)
]

zero_degree : (d : ℤ) → is_zero d ≡ true → d ≡ pos 0
unfolding is_zero
zero_degree (pos zero) h = refl
zero_degree (pos (suc n)) h = cc
zero_degree (negsuc n) h = cc

includes-some :
    {V : Type 0} (t : Text) (m : Map V)
    → includes (keys m) t ≡ true
    → (v : V) × (lookup t m ≡ some v)
unfolding lookup includes keys
includes-some t [] h = absurd (unfold includes in false_is_not_true h)
includes-some t ((k, v) ∷ m) h = elim (Bool-cases (text_eq k t)) [
  | inl e ↦ (v, rw e refl)
  | inr e ↦ let (u, q) = includes-some t m (rw e at (h)) in (u, rw e q)
]

module _ (g : Map DagNode) where
  -- A task of the graph, whose dependencies are done.
  abbrev pub IsReady : List Text → Text → Type 0
  IsReady done id =
      (n : DagNode) × (lookup id g ≡ some n) × All (λ dep. includes done dep ≡ true) n.depends_on

  -- Each level after the tasks that are done: none of them again, none twice, all of them ready.
  unfoldable pub IsLayered : List Text → List (List Text) → Type 0
  IsLayered done [] = Unit
  IsLayered done (level ∷ levels) =
      IsFresh level done × All (IsReady done) level × IsLayered (collect level done) levels

  -- Between two tasks of a level.
  record IsBetween (gone done : List Text) (r : Round) : Type 0 where
    covers :
        (t : Text) (n : DagNode) → lookup t g ≡ some n → IsCovering done n (degree_of t r.degrees)
    settled : (t : Text) → includes gone t ≡ true → degree_of t r.degrees ≡ pos 0
    next_settled : (t : Text) → includes r.next t ≡ true → degree_of t r.degrees ≡ pos 0
    fresh : IsFresh r.next gone
    known : All (IsKnown g) r.next

  starts-IsLowering :
      (gone done : List Text) (id : Text) (r : Round)
      → IsBetween gone done r
      → IsLowering g gone done id g r
  starts-IsLowering gone done id r b = record {
    covers = λ t n f. rw (some-includes t g n f) (b.covers t n f);
    settled = b.settled;
    next_settled = b.next_settled;
    fresh = b.fresh;
    known = b.known;
  }

  ends-IsLowering :
      (gone done : List Text) (id : Text) (r : Round)
      → IsLowering g gone done id [] r
      → IsBetween gone (id ∷ done) r
  unfolding keys includes
  ends-IsLowering gone done id r l = record {
    covers = l.covers;
    settled = l.settled;
    next_settled = l.next_settled;
    fresh = l.fresh;
    known = l.known;
  }

  module _ (w : IsGraph g) where
    lower_each-IsBetween :
        (gone ready done : List Text) (r : Round)
        → IsFresh ready done
        → IsBetween gone done r
        → IsBetween gone (collect ready done) (lower_each g ready r)
    unfolding lower_each collect IsFresh
    lower_each-IsBetween gone [] done r f b = b
    lower_each-IsBetween gone (id ∷ ready) done r f b =
        let l =
          lower_dependents-IsLowering g gone done id f.0 g r w.distinct
            (entries-lookup g w.distinct) (starts-IsLowering gone done id r b) in
        let r' = lower_dependents id g r in
        lower_each-IsBetween gone ready (id ∷ done) r' f.1 (ends-IsLowering gone done id r' l)

    -- At the start of a round.
    record IsStart (done ready : List Text) (degrees : Map ℤ) : Type 0 where
      covers :
          (t : Text) (n : DagNode) → lookup t g ≡ some n → IsCovering done n (degree_of t degrees)
      settled : (t : Text) → includes (collect ready done) t ≡ true → degree_of t degrees ≡ pos 0
      fresh : IsFresh ready done
      known : All (IsKnown g) ready

    IsStart-IsReady :
        (done ready : List Text) (degrees : Map ℤ)
        → IsStart done ready degrees
        → (id : Text) → includes ready id ≡ true
        → IsReady done id
    IsStart-IsReady done ready degrees s id i =
        let (n, f) = All-includes (IsKnown g) ready id s.known i in
        let (k, e, b) = s.covers id n f in
        let z = s.settled id (ground (arith, includes-collect ready done id, i)) in
        let same : ◌≡◌ {A = ℤ} (pos k) (pos 0) = sym e ∙ z in
        let zero_k : k ≡ 0 = cc in (n, f, none_missing done n.depends_on (omega (arith, b, zero_k)))

    next-IsStart :
        (done ready : List Text) (degrees : Map ℤ)
        → IsStart done ready degrees
        → let r = lower_each g ready (record { degrees = degrees; next = [] }) in
          IsStart (collect ready done) r.next r.degrees
    next-IsStart done ready degrees s =
        let r = lower_each g ready (record { degrees = degrees; next = [] }) in
        let gone = collect ready done in
        let b =
          lower_each-IsBetween gone ready done (record { degrees = degrees; next = [] }) s.fresh
            (record {
              covers = s.covers;
              settled = s.settled;
              next_settled = λ t i. in_empty t i;
              fresh = unfold IsFresh in tt;
              known = tt;
            }) in
        record {
          covers = b.covers;
          settled = λ t i. elim (Bool-cases (includes gone t)) [
            | inl e ↦ b.settled t e
            | inr e ↦ b.next_settled t (ground (arith, includes-collect r.next gone t, i, e))
          ];
          fresh = b.fresh;
          known = b.known;
        }

    levels_from-IsLayered :
        (fuel : ℕ) (done ready : List Text) (degrees : Map ℤ) (levels : List (List Text))
        → IsStart done ready degrees
        → levels_from g fuel ready degrees ≡ ok levels
        → IsLayered done levels
    unfolding levels_from IsLayered
    levels_from-IsLayered fuel done [] degrees levels s h = subst (IsLayered done) (ok_inj h) tt
    levels_from-IsLayered zero done (id ∷ ids) degrees levels s h = cc
    levels_from-IsLayered (suc fuel) done (id ∷ ids) degrees levels s h =
        let ready = id ∷ ids in
        let r = lower_each g ready (record { degrees = degrees; next = [] }) in
        let (ls, e, e') =
          >>=-eq-ok (levels_from g fuel r.next r.degrees) (λ ls. ok (ready ∷ ls)) h in
        subst (IsLayered done) (ok_inj e') (
          s.fresh,
          includes-All (IsReady done) ready (IsStart-IsReady done ready degrees s),
          levels_from-IsLayered fuel (collect ready done) r.next r.degrees ls
              (next-IsStart done ready degrees s) e,
        )

    select-IsFresh :
        (p : Text → Bool) (ids done : List Text)
        → IsDistinct ids
        → All (λ id. includes done id ≡ false) ids
        → IsFresh (select p ids) done
    unfolding IsFresh IsDistinct
    select-IsFresh p [] done d a = tt
    select-IsFresh p (id ∷ ids) done d a = elim (Bool-cases (p id)) [
      | inl e ↦ rw e (a.0, select-IsFresh p ids (id ∷ done) d.1 (others id done ids d.0 a.1))
      | inr e ↦ rw e (select-IsFresh p ids done d.1 a.1)
    ]

    pub topological_levels-IsLayered :
        (levels : List (List Text)) → topological_levels g ≡ ok levels → IsLayered [] levels
    unfolding topological_levels
    topological_levels-IsLayered levels h =
        let degrees = count_degrees (values g) (zero_degrees (keys g) []) in
        let ready = select (λ id. is_zero (degree_of id degrees)) (keys g) in
        levels_from-IsLayered (suc (length (keys g))) [] ready degrees levels
          (record {
            covers = λ t n f. (
              length n.depends_on,
              count_degrees-lookup t n g (zero_degrees (keys g) []) w.distinct w.own_ids f,
              unfold missing in length-select-le (λ dep. not (includes [] dep)) n.depends_on,
            );
            settled = λ t i. zero_degree (degree_of t degrees) (
                All-includes (λ k. is_zero (degree_of k degrees) ≡ true) ready t
                  (select-All (λ id. is_zero (degree_of id degrees)) (keys g))
                  (in_first ready t i));
            fresh =
                select-IsFresh (λ id. is_zero (degree_of id degrees)) (keys g) [] w.distinct
                  (none_done (keys g));
            known =
                All-select (IsKnown g) (λ id. is_zero (degree_of id degrees)) (keys g)
                  (includes-All (IsKnown g) (keys g) (λ k i. includes-some k g i));
          })
          h
