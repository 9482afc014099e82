-- ===== src/Dsl/Parser/Numbers.antt =====
-- Decimal numbers: what `number_of` reads is what is printed here.
use jobflow_project.Common.{
  Bool-cases, Text, [], arith, if◌then◌else◌, inl, inr, ltb, refl, suc, zero, ℕ, ◌%◌, ◌*◌, ◌++◌,
  ◌+◌, ◌-◌, ◌/◌, ◌<◌, ◌∷◌, ◌≡◌,
}
use jobflow_project.Dsl.Parser.{number_onto, number_of}

unfoldable pub digits_from : ℕ → ℕ → Text
digits_from zero n = []
digits_from (suc fuel) n =
    let front = digits_from fuel (n / 10) in
    if ltb n 10 then (b'0' + n) ∷ [] else front ++ (b'0' + n % 10) ∷ []

unfoldable pub digits : ℕ → Text
unfolding digits_from
digits n = digits_from (suc n) n

number_onto-snoc :
    (acc : ℕ) (xs : Text) (c : ℕ)
    → number_onto acc (xs ++ c ∷ []) ≡ number_onto acc xs * 10 + (c - b'0')
unfolding number_onto
number_onto-snoc acc [] c = refl
number_onto-snoc acc (x ∷ xs) c = number_onto-snoc (acc * 10 + (x - b'0')) xs c

number_onto-digits_from : (fuel n : ℕ) → n < fuel → number_onto 0 (digits_from fuel n) ≡ n
unfolding digits_from
number_onto-digits_from zero n h = absurd (omega arith)
number_onto-digits_from (suc fuel) n h = elim (Bool-cases (ltb n 10)) [
  | inl small ↦ rw small (unfold number_onto in omega arith)
  | inr large ↦ rw large (
      omega (
        arith,
        number_onto-snoc 0 (digits_from fuel (n / 10)) (b'0' + n % 10),
        number_onto-digits_from fuel (n / 10) (ground arith),
      ))
]

-- The decimal digits of every number are read back as that number.
pub number_of-digits : (n : ℕ) → number_of (digits n) ≡ n
unfolding number_of digits
number_of-digits n = number_onto-digits_from (suc n) n (omega arith)
