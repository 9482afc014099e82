-- ===== src/Expressions/Evaluator/Conversions.antt =====
-- The conversions of the evaluator give a value or the error of an object that has no primitive.
use jobflow_project.Common.{
  Bool, List, Option-cases, Result, Text, err, false, if◌then◌else◌, inl, inr, ok, refl, true,
  ◌>>=◌, ◌||◌, ◌≡◌, ◌⊎◌,
}
use jobflow_project.Expressions.Ast.{ExprError, no_conversion, is_call_error}
use jobflow_project.Expressions.Values.{
  Value, undefined, null, boolean, number, string, object, Platform, converted, to_number, to_text,
  primitives_equal, loosely_equal, as_text, as_object, is_nullish,
}
use jobflow_project.Expressions.Evaluator.{contains, negated, argument, or_blank}

module _ {N O : Type 0} (p : Platform N O) where
  -- The error of an object that the platform cannot convert to a number, to a text, or to a primitive.
  pub record IsUnconverted (e : ExprError) : Type 0 where
    pub value : O
    pub message : Text
    pub raised : e ≡ no_conversion message
    pub refused :
        (p.object_number value ≡ err message)
        ⊎ ((p.object_text value ≡ err message) ⊎ (p.primitive value ≡ err message))

  -- A value, or an error of a call or of a conversion.
  abbrev pub IsCalled : {A : Type 0} → Result ExprError A → Type 0
  IsCalled (ok a) = Unit
  IsCalled (err e) = (is_call_error e ≡ true) ⊎ IsUnconverted e

  pub IsCalled-bind :
      {A B : Type 0} (r : Result ExprError A) (next : A → Result ExprError B)
      → IsCalled r
      → ((a : A) → IsCalled (next a))
      → IsCalled (r >>= next)
  IsCalled-bind (ok a) next h f = f a
  IsCalled-bind (err e) next h f = h

  pub converted-IsCalled :
      {A : Type 0} (r : Result Text A) (o : O)
      → ((m : Text)
          → r ≡ err m
          → (p.object_number o ≡ err m) ⊎ ((p.object_text o ≡ err m) ⊎ (p.primitive o ≡ err m)))
      → IsCalled (converted p r)
  unfolding converted
  converted-IsCalled (ok a) o f = tt
  converted-IsCalled (err m) o f =
      inr (record { value = o; message = m; raised = refl; refused = f m refl })

  pub to_number-IsCalled : (v : Value N O) → IsCalled (to_number p v)
  unfolding to_number
  to_number-IsCalled undefined = tt
  to_number-IsCalled null = tt
  to_number-IsCalled (boolean true) = tt
  to_number-IsCalled (boolean false) = tt
  to_number-IsCalled (number n) = tt
  to_number-IsCalled (string t) = tt
  to_number-IsCalled (object o) = converted-IsCalled (p.object_number o) o λ m e. inl e

  pub to_text-IsCalled : (v : Value N O) → IsCalled (to_text p v)
  unfolding to_text
  to_text-IsCalled undefined = tt
  to_text-IsCalled null = tt
  to_text-IsCalled (boolean true) = tt
  to_text-IsCalled (boolean false) = tt
  to_text-IsCalled (number n) = tt
  to_text-IsCalled (string t) = tt
  to_text-IsCalled (object o) = converted-IsCalled (p.object_text o) o λ m e. inr (inl e)

  pub primitive-IsCalled : (o : O) → IsCalled (converted p (p.primitive o))
  primitive-IsCalled o = converted-IsCalled (p.primitive o) o λ m e. inr (inr e)

  pub if-IsCalled :
      {A : Type 0} (b : Bool) (x y : Result ExprError A)
      → IsCalled x
      → IsCalled y
      → IsCalled (if b then x else y)
  if-IsCalled true x y h k = h
  if-IsCalled false x y h k = k

  -- Both sides converted to numbers, the left one first.
  pub two_numbers-IsCalled :
      {A : Type 0} (l r : Value N O) (f : N → N → A)
      → IsCalled (to_number p l >>= λ a. to_number p r >>= λ b. ok (f a b))
  two_numbers-IsCalled l r f =
      IsCalled-bind (to_number p l) _ (to_number-IsCalled l)
        λ a. IsCalled-bind (to_number p r) _ (to_number-IsCalled r) λ b. tt

  pub primitives_equal-IsCalled : (l r : Value N O) → IsCalled (primitives_equal p l r)
  unfolding primitives_equal
  primitives_equal-IsCalled l r =
      let by_numbers =
        if-IsCalled (is_nullish l || is_nullish r) _ _ tt
          (two_numbers-IsCalled l r p.equal_numbers) in
      elim (Option-cases (as_text l)) [
        | inl e ↦ rw e by_numbers
        | inr (s, e) ↦ elim (Option-cases (as_text r)) [
          | inl f ↦ rw (e, f) by_numbers
          | inr (t, f) ↦ rw (e, f) tt
        ]
      ]

  pub loosely_equal-IsCalled : (l r : Value N O) → IsCalled (loosely_equal p l r)
  unfolding loosely_equal
  loosely_equal-IsCalled l r = elim (Option-cases (as_object l)) [
    | inl e ↦ elim (Option-cases (as_object r)) [
      | inl f ↦ rw (e, f) (primitives_equal-IsCalled l r)
      | inr (q, f) ↦
          rw (e, f)
            (if-IsCalled (is_nullish l) _ _ tt (
              IsCalled-bind (converted p (p.primitive q)) _ (primitive-IsCalled q)
                λ v. primitives_equal-IsCalled l v))
    ]
    | inr (o, e) ↦ elim (Option-cases (as_object r)) [
      | inl f ↦
          rw (e, f)
            (if-IsCalled (is_nullish r) _ _ tt (
              IsCalled-bind (converted p (p.primitive o)) _ (primitive-IsCalled o)
                λ v. primitives_equal-IsCalled v r))
      | inr (q, f) ↦ rw (e, f) tt
    ]
  ]

  pub contains-IsCalled : (args : List (Value N O)) → IsCalled (contains p args)
  unfolding contains
  contains-IsCalled args =
      IsCalled-bind (to_text p (or_blank (argument 0 args))) _
        (to_text-IsCalled (or_blank (argument 0 args)))
        λ hay.
          IsCalled-bind (to_text p (or_blank (argument 1 args))) _
            (to_text-IsCalled (or_blank (argument 1 args))) λ needle. tt

  pub negated-IsCalled : (v : Value N O) → IsCalled (negated p v)
  unfolding negated
  negated-IsCalled v = IsCalled-bind (to_number p v) _ (to_number-IsCalled v) λ n. tt
