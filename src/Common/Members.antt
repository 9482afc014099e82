-- ===== src/Common/Members.antt =====
-- Membership of a list of texts, as `includes` tests it.
use mathlib.Core.Path.{◌≡◌, subst, sym}
use mathlib.Core.Logic.{inl, inr}
use mathlib.Core.Bool.{true}
use mathlib.Core.Option.{none, some}
use mathlib.Core.List.{List, [], ◌∷◌}
use native.Mathlib.Omega.{arith}
use jobflow_project.Common.Tests.{Bool-cases}
use jobflow_project.Common.Lists.{All}
use jobflow_project.Common.Maps.{Map, lookup}
use jobflow_project.Common.Texts.{Text, includes, text_eq, text_eq_iff, text_eq_refl}

pub some_inj : {A : Type 0} {a b : A} → some a ≡ some b → a ≡ b
some_inj h = cc

pub includes_first : (id k : Text) (ids : List Text) → id ≡ k → includes (id ∷ ids) k ≡ true
unfolding includes
includes_first id k ids e = ground (arith, text_eq_iff id k)

pub includes_later :
    (id k : Text) (ids : List Text) → includes ids k ≡ true → includes (id ∷ ids) k ≡ true
unfolding includes
includes_later id k ids h = ground (arith, h)

-- What holds of the members holds of every entry.
pub includes-All :
    (P : Text → Type 0) (ids : List Text) → ((k : Text) → includes ids k ≡ true → P k) → All P ids
unfolding includes
includes-All P [] f = tt
includes-All P (id ∷ ids) f =
    (f id (ground (arith, text_eq_refl id)), includes-All P ids (λ k i. f k (ground (arith, i))))

pub All-includes :
    (P : Text → Type 0) (ids : List Text) (k : Text) → All P ids → includes ids k ≡ true → P k
unfolding includes
All-includes P [] k a h = cc
All-includes P (id ∷ ids) k a h = elim (Bool-cases (text_eq id k)) [
  | inl e ↦ subst P ((text_eq_iff id k).0 e) a.0
  | inr e ↦ All-includes P ids k a.1 (rw e at (h))
]

pub some_is_not_none : {A B : Type 0} {a : A} → some a ≡ none → B
some_is_not_none h = cc

pub All-mapped :
    {A : Type 0} {P Q : A → Type 0} (xs : List A) → ((x : A) → P x → Q x) → All P xs → All Q xs
All-mapped [] f a = tt
All-mapped (x ∷ xs) f a = (f x a.0, All-mapped xs f a.1)

-- What holds of every entry of a map holds of what a key finds.
pub All-lookup :
    {V : Type 0} (P : Text → V → Type 0) (m : Map V) (id : Text) (v : V)
    → All (λ e. P e.0 e.1) m
    → lookup id m ≡ some v
    → P id v
unfolding lookup
All-lookup P [] id v a h = some_is_not_none (sym h)
All-lookup P ((k, w) ∷ m) id v a h = elim (Bool-cases (text_eq k id)) [
  | inl e ↦ subst (P id) (some_inj (rw e at (h))) (subst (λ j. P j w) ((text_eq_iff k id).0 e) a.0)
  | inr e ↦ All-lookup P m id v a.1 (rw e at (h))
]
