-- ===== src/Query/Pages/Cover.antt =====
-- The pages of a list, one after the other, are the list.
use jobflow_project.Common.{
  Bool-cases, List, [], ap, append-nil, append_assoc, arith, drop, inl, inr, length, max, refl,
  subst, suc, sym, take, zero, ℕ, ◌*◌, ◌++◌, ◌+◌, ◌-◌, ◌<◌, ◌==◌, ◌∙◌, ◌∷◌, ◌≡◌, ◌≤◌,
}
use jobflow_project.Query.Pages.{PageRequest, effective_size, count_pages, paginate}

page_index : (from : ℕ) → max 1 (suc from) - 1 ≡ from
page_index from = omega arith

module _ {A : Type 0} where
  -- The items of the pages `from + 1`, …, `from + n`.
  unfoldable pub pages_from : (size from n : ℕ) → List A → List A
  pages_from size from zero items = []
  pages_from size from (suc n) items =
      (paginate items (record { page = suc from; page_size = size })).items
      ++ pages_from size (suc from) n items

  take-drop-append : (n : ℕ) (xs : List A) → take n xs ++ drop n xs ≡ xs
  take-drop-append zero xs = refl
  take-drop-append (suc n) [] = refl
  take-drop-append (suc n) (x ∷ xs) = ap (x ∷◌) (take-drop-append n xs)

  drop_nil : (n : ℕ) → drop {A = A} n [] ≡ []
  drop_nil zero = refl
  drop_nil (suc n) = refl

  drop-drop : (n m : ℕ) (xs : List A) → drop n (drop m xs) ≡ drop (m + n) xs
  drop-drop n zero xs = let e : n ≡ 0 + n = omega arith in ap (λ k. drop k xs) e
  drop-drop n (suc m) [] = drop_nil n ∙ sym (drop_nil (suc m + n))
  drop-drop n (suc m) (x ∷ xs) =
      let e : suc (m + n) ≡ suc m + n = omega arith in
      drop-drop n m xs ∙ ap (λ k. drop k (x ∷ xs)) e

  drop_all : (n : ℕ) (xs : List A) → length xs ≤ n → drop n xs ≡ []
  drop_all zero [] h = refl
  drop_all (suc n) [] h = refl
  drop_all zero (x ∷ xs) h = absurd (omega arith)
  drop_all (suc n) (x ∷ xs) h = drop_all n xs (omega arith)

  pages_from-drop :
      (size from n : ℕ) (items : List A)
      → pages_from size from n items ++ drop ((from + n) * effective_size size) items
        ≡ drop (from * effective_size size) items
  unfolding pages_from paginate
  pages_from-drop size from zero items =
      let e : from + 0 ≡ from = omega arith in ap (λ k. drop (k * effective_size size) items) e
  pages_from-drop size from (suc n) items =
      let s = effective_size size in
      let here = drop (from * s) items in
      let a : from + suc n ≡ suc from + n = omega arith in
      let c : suc from * s ≡ from * s + s = omega arith in
      rw (page_index from, append_assoc, a)
        (ap (take s here ++◌) (
            pages_from-drop size (suc from) n items
            ∙ ap (λ k. drop k items) c
            ∙ sym (drop-drop s (from * s) items))
          ∙ take-drop-append s here)

count_pages_enough :
    (fuel size left : ℕ) → 0 < size → left ≤ fuel → left ≤ count_pages fuel size left * size
unfolding count_pages
count_pages_enough zero size left h k = omega arith
count_pages_enough (suc fuel) size left h k = elim (Bool-cases (left == 0)) [
  | inl e ↦ ground arith
  | inr e ↦ rw e (
      let i = count_pages_enough fuel size (left - size) h (omega arith) in
      let m = count_pages fuel size (left - size) in
      let e' : suc m * size ≡ m * size + size = omega arith in ground (arith, e'))
]

zero_add : (n : ℕ) → n ≡ 0 + n
zero_add n = omega arith

zero_mul : (n : ℕ) → 0 * n ≡ 0
zero_mul n = omega arith

at_least_one : (l c s : ℕ) → l ≤ c * s → l ≤ max 1 c * s
at_least_one l zero s h = omega arith
at_least_one l (suc c) s h =
    let e : max 1 (suc c) ≡ suc c = omega arith in subst (λ k. l ≤ k * s) (sym e) h

module _ {A : Type 0} where
  -- For every requested size, the items of the pages 1 to `total_pages`, one page after the other, are
  -- the list that is paged.
  pub pages_cover :
      (items : List A) (req : PageRequest)
      → pages_from req.page_size 0 (paginate items req).total_pages items ≡ items
  unfolding paginate effective_size
  pages_cover items req =
      let s = effective_size req.page_size in
      let n = (paginate items req).total_pages in
      let e : length items ≤ (0 + n) * s =
        subst (λ k. length items ≤ k * s) (zero_add n)
          (at_least_one (length items) (count_pages (length items) s (length items)) s
            (count_pages_enough (length items) s (length items) (omega arith) (omega arith))) in
      sym (append-nil (pages_from req.page_size 0 n items))
      ∙ ap (pages_from req.page_size 0 n items ++◌) (sym (drop_all ((0 + n) * s) items e))
      ∙ pages_from-drop req.page_size 0 n items
      ∙ ap (λ k. drop k items) (zero_mul s)
