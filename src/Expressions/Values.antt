-- ===== src/Expressions/Values.antt =====
-- The values that an expression is evaluated to. The doubles `N` and the objects `O` of the platform,
-- and what it does with them, are parameters; the conversions between its types are written out.
use jobflow_project.Common.{
  Bool, List, Map, Option, Result, Text, [], err, false, if◌then◌else◌, none, not, ok, some, text,
  text_eq, true, ℕ, ◌&&◌, ◌>>=◌, ◌||◌,
}
use jobflow_project.Expressions.Ast.{ExprError, no_conversion}

pub data Value (N O : Type 0) : Type 0 where
  undefined null : Value N O
  boolean : Bool → Value N O
  number : N → Value N O
  string : Text → Value N O
  object : O → Value N O

pub record Platform (N O : Type 0) : Type 0 where
  pub zero_number : N
  pub one_number : N
  pub not_a_number : N
  pub of_nat : ℕ → N
  pub of_text : Text → N
  pub number_text : N → Text
  pub is_falsy : N → Bool
  pub negate : N → N
  pub add : N → N → N
  pub subtract : N → N → N
  pub multiply : N → N → N
  pub divide : N → N → N
  pub less : N → N → Bool
  pub less_equal : N → N → Bool
  pub equal_numbers : N → N → Bool
  -- an object literal, a property, and an array's length
  pub object_of : Map (Value N O) → O
  pub property : Text → O → Value N O
  pub array_length : O → Option ℕ
  pub same_object : O → O → Bool
  -- `Number(o)`, `String(o)`, and the primitive that `==` compares; an object without one throws
  pub object_number : O → Result Text N
  pub object_text : O → Result Text Text
  pub primitive : O → Result Text (Value N O)
  -- the functions that a plain object inherits, which return or throw
  pub inherited : Text → Option (List (Value N O) → Result Text (Value N O))

module _ {N O : Type 0} where
  -- `v === null || v === undefined`.
  unfoldable pub is_nullish : Value N O → Bool
  is_nullish undefined = true
  is_nullish null = true
  is_nullish (boolean b) = false
  is_nullish (number n) = false
  is_nullish (string t) = false
  is_nullish (object o) = false

  -- `v === null || v === undefined || v === ""`.
  unfoldable pub is_blank : Value N O → Bool
  unfolding is_nullish
  is_blank undefined = true
  is_blank null = true
  is_blank (boolean b) = false
  is_blank (number n) = false
  is_blank (string t) = text_eq t []
  is_blank (object o) = false

  -- A value that is a text, and one that is an object.
  unfoldable pub as_text : Value N O → Option Text
  as_text undefined = none
  as_text null = none
  as_text (boolean b) = none
  as_text (number n) = none
  as_text (string t) = some t
  as_text (object o) = none

  unfoldable pub as_object : Value N O → Option O
  as_object undefined = none
  as_object null = none
  as_object (boolean b) = none
  as_object (number n) = none
  as_object (string t) = none
  as_object (object o) = some o

  module _ (p : Platform N O) where
    -- What a conversion gives, or the error that it throws.
    unfoldable pub converted : {A : Type 0} → Result Text A → Result ExprError A
    converted (ok a) = ok a
    converted (err message) = err (no_conversion message)

    -- `Boolean(v)`, `Number(v)`, `String(v)`.
    unfoldable pub to_boolean : Value N O → Bool
    to_boolean undefined = false
    to_boolean null = false
    to_boolean (boolean b) = b
    to_boolean (number n) = not (p.is_falsy n)
    to_boolean (string t) = not (text_eq t [])
    to_boolean (object o) = true

    unfoldable pub to_number : Value N O → Result ExprError N
    unfolding converted
    to_number undefined = ok p.not_a_number
    to_number null = ok p.zero_number
    to_number (boolean true) = ok p.one_number
    to_number (boolean false) = ok p.zero_number
    to_number (number n) = ok n
    to_number (string t) = ok (p.of_text t)
    to_number (object o) = converted (p.object_number o)

    unfoldable pub to_text : Value N O → Result ExprError Text
    unfolding converted
    to_text undefined = ok (text "undefined")
    to_text null = ok (text "null")
    to_text (boolean true) = ok (text "true")
    to_text (boolean false) = ok (text "false")
    to_text (number n) = ok (p.number_text n)
    to_text (string t) = ok t
    to_text (object o) = converted (p.object_text o)

    -- `==` where no side is an object: texts by their characters, all else by numbers.
    unfoldable pub primitives_equal : Value N O → Value N O → Result ExprError Bool
    unfolding is_nullish to_number as_text
    primitives_equal a b = texts (as_text a) (as_text b)
      where
        numbers : Result ExprError Bool
        numbers =
            if is_nullish a || is_nullish b
            then ok (is_nullish a && is_nullish b)
            else to_number a >>= λ x. to_number b >>= λ y. ok (p.equal_numbers x y)

        texts : Option Text → Option Text → Result ExprError Bool
        texts (some s) (some t) = ok (text_eq s t)
        texts (some s) none = numbers
        texts none t = numbers

    -- `==`: two objects by their identity, an object and another value by the object's primitive.
    unfoldable pub loosely_equal : Value N O → Value N O → Result ExprError Bool
    unfolding primitives_equal is_nullish converted as_object
    loosely_equal a b = objects (as_object a) (as_object b)
      where
        objects : Option O → Option O → Result ExprError Bool
        objects (some o) (some q) = ok (p.same_object o q)
        objects (some o) none =
            if is_nullish b
            then ok false
            else converted (p.primitive o) >>= λ v. primitives_equal v b
        objects none (some q) =
            if is_nullish a
            then ok false
            else converted (p.primitive q) >>= λ v. primitives_equal a v
        objects none none = primitives_equal a b
