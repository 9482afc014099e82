-- ===== src/Common/Sort.antt =====
-- `Array.prototype.sort` is stable: each entry in turn is put behind the entries that need not
-- stand after it.
use jobflow_project.Common.{
  All, Bool, Bool-cases, List, [], append-nil, append_assoc, arith, false, if◌then◌else◌, inl, inr,
  refl, select, true, ◌++◌, ◌∙◌, ◌∷◌, ◌≡◌,
}
use mathlib.Core.List.{Perm, perm_middle}
use mathlib.Core.List.Perm

-- `lt x y`: the comparison function is negative at `(x, y)`.
module _ {ℓ} {A : Type ℓ} (lt : A → A → Bool) where
  unfoldable pub place : A → List A → List A
  place x [] = x ∷ []
  place x (y ∷ ys) = if lt x y then x ∷ y ∷ ys else y ∷ place x ys

  unfoldable pub sort_onto : List A → List A → List A
  unfolding place
  sort_onto sorted [] = sorted
  sort_onto sorted (x ∷ xs) = sort_onto (place x sorted) xs

  unfoldable pub sort : List A → List A
  unfolding sort_onto
  sort xs = sort_onto [] xs

  -- No entry has to stand before one that is ahead of it.
  abbrev pub IsSorted : List A → Type 0
  IsSorted [] = Unit
  IsSorted (x ∷ xs) = All (λ y. lt y x ≡ false) xs × IsSorted xs

module _ {ℓ} {A : Type ℓ} (lt : A → A → Bool) where
  pub place-perm : (x : A) (xs : List A) → Perm (place lt x xs) (x ∷ xs)
  unfolding place
  place-perm x [] = Perm.refl (x ∷ [])
  place-perm x (y ∷ ys) = elim (Bool-cases (lt x y)) [
    | inl h ↦ rw h (Perm.refl (x ∷ y ∷ ys))
    | inr h ↦ rw h (Perm.trans (Perm.cons y (place-perm x ys)) (Perm.swap x y ys))
  ]

  sort_onto-perm : (sorted xs : List A) → Perm (sort_onto lt sorted xs) (sorted ++ xs)
  unfolding sort_onto
  sort_onto-perm sorted [] = rw append-nil (Perm.refl sorted)
  sort_onto-perm sorted (x ∷ xs) =
      Perm.trans (sort_onto-perm (place lt x sorted) xs) (
        Perm.trans (Perm.append_right xs (place-perm x sorted)) (Perm.symm (perm_middle sorted xs)))

  pub sort-perm : (xs : List A) → Perm (sort lt xs) xs
  unfolding sort
  sort-perm xs = sort_onto-perm [] xs

  pub All-place : (P : A → Type 0) (x : A) (ys : List A) → P x → All P ys → All P (place lt x ys)
  unfolding place
  All-place P x [] p h = (p, tt)
  All-place P x (y ∷ ys) p h = elim (Bool-cases (lt x y)) [
    | inl e ↦ rw e (p, h)
    | inr e ↦ rw e (h.0, All-place P x ys p h.1)
  ]

  All-sort_onto :
      (P : A → Type 0) (sorted xs : List A)
      → All P sorted
      → All P xs
      → All P (sort_onto lt sorted xs)
  unfolding sort_onto
  All-sort_onto P sorted [] s a = s
  All-sort_onto P sorted (x ∷ xs) s a =
      All-sort_onto P (place lt x sorted) xs (All-place P x sorted a.0 s) a.1

  pub All-sort : (P : A → Type 0) (xs : List A) → All P xs → All P (sort lt xs)
  unfolding sort
  All-sort P xs a = All-sort_onto P [] xs tt a

  module _ (asym : (x y : A) → lt x y ≡ true → lt y x ≡ false)
      (trans : (x y z : A) → lt y x ≡ false → lt z y ≡ false → lt z x ≡ false) where
    All-mono :
        (x y : A) (ys : List A)
        → lt y x ≡ false
        → All (λ z. lt z y ≡ false) ys
        → All (λ z. lt z x ≡ false) ys
    All-mono x y [] h a = tt
    All-mono x y (z ∷ zs) h a = (trans x y z h a.0, All-mono x y zs h a.1)

    place-IsSorted : (x : A) (ys : List A) → IsSorted lt ys → IsSorted lt (place lt x ys)
    unfolding place
    place-IsSorted x [] h = (tt, tt)
    place-IsSorted x (y ∷ ys) h = elim (Bool-cases (lt x y)) [
      | inl e ↦ rw e ((asym x y e, All-mono x y ys (asym x y e) h.0), h)
      | inr e ↦ rw e (All-place (λ z. lt z y ≡ false) x ys e h.0, place-IsSorted x ys h.1)
    ]

    sort_onto-IsSorted :
        (sorted xs : List A) → IsSorted lt sorted → IsSorted lt (sort_onto lt sorted xs)
    unfolding sort_onto
    sort_onto-IsSorted sorted [] h = h
    sort_onto-IsSorted sorted (x ∷ xs) h =
        sort_onto-IsSorted (place lt x sorted) xs (place-IsSorted x sorted h)

    pub sort-IsSorted : (xs : List A) → IsSorted lt (sort lt xs)
    unfolding sort
    sort-IsSorted xs = sort_onto-IsSorted [] xs tt

  -- Entries that the comparison does not tell apart keep their order.
  module _ (asym : (x y : A) → lt x y ≡ true → lt y x ≡ false)
      (trans : (x y z : A) → lt y x ≡ false → lt z y ≡ false → lt z x ≡ false) (p : A → Bool)
      (alike : (x y : A) → p x ≡ true → p y ≡ true → lt x y ≡ false) where
    select-place_other :
        (x : A) (ys : List A) → p x ≡ false → select p (place lt x ys) ≡ select p ys
    unfolding place
    select-place_other x [] h = rw h
    select-place_other x (y ∷ ys) h = ground (arith, select-place_other x ys h)

    select_none :
        (x y : A) (ys : List A)
        → p x ≡ true
        → lt x y ≡ true
        → All (λ z. lt z y ≡ false) ys
        → select p ys ≡ []
    select_none x y [] h e a = refl
    select_none x y (z ∷ zs) h e a = elim (Bool-cases (p z)) [
      | inl pz ↦ absurd (cc (trans y z x a.0 (alike x z h pz)))
      | inr pz ↦ rw pz (select_none x y zs h e a.1)
    ]

    select-place :
        (x : A) (ys : List A)
        → p x ≡ true
        → IsSorted lt ys
        → select p (place lt x ys) ≡ select p ys ++ x ∷ []
    unfolding place
    select-place x [] h s = rw h
    select-place x (y ∷ ys) h s = ground (
      arith,
      select-place x ys h s.1,
      λ (e : lt x y ≡ true). select_none x y ys h e s.0,
      alike x y h,
    )

    select-sort_onto :
        (sorted xs : List A)
        → IsSorted lt sorted
        → select p (sort_onto lt sorted xs) ≡ select p sorted ++ select p xs
    unfolding sort_onto
    select-sort_onto sorted [] s = rw append-nil
    select-sort_onto sorted (x ∷ xs) s =
        let ih = select-sort_onto (place lt x sorted) xs (place-IsSorted asym trans x sorted s) in
        elim (Bool-cases (p x)) [
          | inl h ↦ ih ∙ rw (select-place x sorted h s, h, append_assoc)
          | inr h ↦ ih ∙ rw (select-place_other x sorted h, h)
        ]

    pub select-sort : (xs : List A) → select p (sort lt xs) ≡ select p xs
    unfolding sort
    select-sort xs = select-sort_onto [] xs tt
