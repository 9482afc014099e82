-- ===== src/Storage/Sql/Placeholders.antt =====
-- Which parameters a written query has.
use jobflow_project.Common.{
  List, Option, Text, [], ap, append-nil, append_assoc, length, length-append, none, refl, some,
  sym, text, ℕ, ◌++◌, ◌+◌, ◌∙◌, ◌∷◌, ◌≡◌,
}
use jobflow_project.Storage.Sql.{
  SqlCondition, compare_with, within_list, SqlQuery, hold, hold_all, write_condition,
  write_conditions, write_where, write_bound, build,
}
use jobflow_project.Dsl.Parser.Numbers.{digits}

module _ {V : Type 0} where
  abbrev pub values_of : SqlCondition V → List V
  values_of (compare_with column op value) = value ∷ []
  values_of (within_list column items) = items

  abbrev pub all_values : List (SqlCondition V) → List V
  all_values [] = []
  all_values (c ∷ cs) = values_of c ++ all_values cs

  abbrev pub bound_values : Option V → List V
  bound_values none = []
  bound_values (some v) = v ∷ []

  -- The placeholders `$n+1`, `$n+2`, …, as many as there are values.
  abbrev pub numbered : ℕ → List V → List Text
  numbered n [] = []
  numbered n (v ∷ vs) = (text "$" ++ digits (n + 1)) ∷ numbered (n + 1) vs

  hold_all-numbered :
      (vs params : List V)
      → ((hold_all vs params).0 ≡ numbered (length params) vs)
        × ((hold_all vs params).1 ≡ params ++ vs)
  unfolding hold_all hold
  hold_all-numbered [] params = (refl, sym (append-nil params))
  hold_all-numbered (v ∷ vs) params =
      let ih = hold_all-numbered vs (params ++ v ∷ []) in
      (
        ap ((text "$" ++ digits (length params + 1)) ∷◌)
            (ih.0 ∙ ap (λ n. numbered n vs) (length-append params (v ∷ []))),
        ih.1 ∙ append_assoc params (v ∷ []) vs,
      )

  write_condition-values :
      (c : SqlCondition V) (params : List V) → (write_condition c params).1 ≡ params ++ values_of c
  unfolding write_condition hold
  write_condition-values (compare_with column op value) params = refl
  write_condition-values (within_list column items) params = (hold_all-numbered items params).1

  write_conditions-values :
      (cs : List (SqlCondition V)) (params : List V)
      → (write_conditions cs params).1 ≡ params ++ all_values cs
  unfolding write_conditions
  write_conditions-values [] params = sym (append-nil params)
  write_conditions-values (c ∷ cs) params =
      write_conditions-values cs (write_condition c params).1
      ∙ rw (write_condition-values, append_assoc) refl

  write_bound-values :
      (word : Text) (o : Option V) (params : List V)
      → (write_bound word o params).1 ≡ params ++ bound_values o
  unfolding write_bound hold
  write_bound-values word none params = sym (append-nil params)
  write_bound-values word (some v) params = refl

  write_where-values : (cs : List (SqlCondition V)) → (write_where cs).1 ≡ all_values cs
  unfolding write_where
  write_where-values [] = refl
  write_where-values (c ∷ cs) = write_conditions-values (c ∷ cs) []

  -- The parameters of a query are the values of its conditions in their order, a list of values each
  -- by itself, then the limit and the offset where they are set.
  pub build-values :
      (q : SqlQuery V)
      → (build q).1 ≡ all_values q.conditions ++ (bound_values q.limit ++ bound_values q.offset)
  unfolding build
  build-values q =
      rw (write_bound-values _ q.offset, write_bound-values, write_where-values, append_assoc) refl
