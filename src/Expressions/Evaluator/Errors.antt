-- ===== src/Expressions/Evaluator/Errors.antt =====
-- What an evaluation can throw.
use jobflow_project.Common.{
  All-includes, Bool, List, Option, Option-cases, Result, Text, err, err_inj, err_is_not_ok, false,
  if◌then◌else◌, includes, inl, inr, none, ok, refl, some, subst, sym, text, text_eq, true, ◌>>=◌,
  ◌≡◌, ◌⊎◌,
}
use jobflow_project.Expressions.Ast.{
  ExprError, is_syntax_error, is_call_error, unknown_function, ExprNode, literal, identifier, unary,
  binary, call, ExprNodes, no_nodes, node, not_op, neg_op, Token,
}
use jobflow_project.Expressions.Values.{Value, boolean, number, Platform, loosely_equal}
use jobflow_project.Expressions.Tokenizer.{tokenize}
use jobflow_project.Expressions.Tokenizer.Totality.{IsSyntaxResult, tokenize-IsSyntaxResult}
use jobflow_project.Expressions.Parser.{parse, parse_tokens}
use jobflow_project.Expressions.Parser.Takes.{known_ops, HasKnownOps, HaveKnownOps, TakesAll}
use jobflow_project.Expressions.Parser.Consumes.{parse_tokens-HasKnownOps}
use jobflow_project.Expressions.Evaluator.{
  builtin, caught, apply_op, eval_node, eval_nodes, evaluate,
}
use jobflow_project.Expressions.Evaluator.Conversions.{
  IsCalled, IsCalled-bind, IsUnconverted, contains-IsCalled, loosely_equal-IsCalled,
  negated-IsCalled, two_numbers-IsCalled,
}

module _ {N O : Type 0} (p : Platform N O) where
  -- A function that returns or throws as calls do, if there is one.
  abbrev Calls : Option (List (Value N O) → Result ExprError (Value N O)) → Type 0
  Calls none = Unit
  Calls (some f) = (args : List (Value N O)) → IsCalled p (f args)

  if-Calls :
      (b : Bool) (x y : Option (List (Value N O) → Result ExprError (Value N O)))
      → Calls x
      → Calls y
      → Calls (if b then x else y)
  if-Calls true x y h k = h
  if-Calls false x y h k = k

  caught-IsCalled : (r : Result Text (Value N O)) → IsCalled p (caught p r)
  unfolding caught
  caught-IsCalled (ok v) = tt
  caught-IsCalled (err m) = inl refl

  builtin-Calls : (name : Text) → Calls (builtin p name)
  unfolding builtin
  builtin-Calls name =
      if-Calls (text_eq name (text "isempty")) _ _ (λ args. tt)
        (if-Calls (text_eq name (text "length")) _ _ (λ args. tt)
          (if-Calls (text_eq name (text "contains")) _ _ (contains-IsCalled p)
            (if-Calls (text_eq name (text "coalesce")) _ _ (λ args. tt) inherited)))
    where
      inherited :
          Calls
            (elim (p.inherited name) [ none ↦ none | some f ↦ some (λ args. caught p (f args)) ])
      inherited = elim (Option-cases (p.inherited name)) [
        | inl e ↦ rw e tt
        | inr (f, e) ↦ rw e (λ args. caught-IsCalled (f args))
      ]

  apply_op-IsCalled :
      (op : Text) (l r : Value N O) → includes known_ops op ≡ true → IsCalled p (apply_op p op l r)
  unfolding apply_op text_eq
  apply_op-IsCalled op l r =
      All-includes (λ o. IsCalled p (apply_op p o l r)) known_ops op
        (
          tt,
          (
            tt,
            (
              two_numbers-IsCalled p l r λ a b. number (p.add a b),
              (
                two_numbers-IsCalled p l r λ a b. number (p.subtract a b),
                (
                  two_numbers-IsCalled p l r λ a b. number (p.multiply a b),
                  (
                    two_numbers-IsCalled p l r λ a b. number (p.divide a b),
                    (
                      IsCalled-bind p (loosely_equal p l r) _ (loosely_equal-IsCalled p l r)
                          λ b. tt,
                      (
                        IsCalled-bind p (loosely_equal p l r) _ (loosely_equal-IsCalled p l r)
                            λ b. tt,
                        (
                          two_numbers-IsCalled p l r λ a b. boolean (p.less a b),
                          (
                            two_numbers-IsCalled p l r λ a b. boolean (p.less_equal a b),
                            (
                              two_numbers-IsCalled p l r λ a b. boolean (p.less b a),
                              (two_numbers-IsCalled p l r λ a b. boolean (p.less_equal b a), tt),
                            ),
                          ),
                        ),
                      ),
                    ),
                  ),
                ),
              ),
            ),
          ),
        )

  call-IsCalled :
      (name : Text) (o : Option (List (Value N O) → Result ExprError (Value N O)))
      (args : Result ExprError (List (Value N O)))
      → Calls o
      → IsCalled p args
      → IsCalled p (elim o [ none ↦ err (unknown_function name) | some f ↦ args >>= f ])
  call-IsCalled name none args h k = inl refl
  call-IsCalled name (some f) args h k = IsCalled-bind p args f k h

  mutual
    unfolding eval_node HasKnownOps

    eval_node-IsCalled : (ctx : O) (n : ExprNode N) → HasKnownOps n → IsCalled p (eval_node p ctx n)
    eval_node-IsCalled ctx (literal l) k = tt
    eval_node-IsCalled ctx (identifier name) k = tt
    eval_node-IsCalled ctx (unary not_op arg) k =
        IsCalled-bind p (eval_node p ctx arg) _ (eval_node-IsCalled ctx arg k) (λ v. tt)
    eval_node-IsCalled ctx (unary neg_op arg) k =
        IsCalled-bind p (eval_node p ctx arg) _ (eval_node-IsCalled ctx arg k) (negated-IsCalled p)
    eval_node-IsCalled ctx (binary op left right) k =
        IsCalled-bind p (eval_node p ctx left) _ (eval_node-IsCalled ctx left k.1) (λ l.
          IsCalled-bind p (eval_node p ctx right) _ (eval_node-IsCalled ctx right k.2)
            (λ r. apply_op-IsCalled op l r k.0))
    eval_node-IsCalled ctx (call name args) k =
        call-IsCalled name (builtin p name) (eval_nodes p ctx args) (builtin-Calls name)
          (eval_nodes-IsCalled ctx args k)

    eval_nodes-IsCalled :
        (ctx : O) (ns : ExprNodes N) → HaveKnownOps ns → IsCalled p (eval_nodes p ctx ns)
    eval_nodes-IsCalled ctx no_nodes k = tt
    eval_nodes-IsCalled ctx (node n ns) k =
        IsCalled-bind p (eval_node p ctx n) _ (eval_node-IsCalled ctx n k.0)
          (λ v. IsCalled-bind p (eval_nodes p ctx ns) _ (eval_nodes-IsCalled ctx ns k.1) (λ vs. tt))

  called_err :
      (r : Result ExprError (Value N O))
      → IsCalled p r
      → (e : ExprError) → r ≡ err e
      → (is_call_error e ≡ true) ⊎ IsUnconverted p e
  called_err (ok v) h e q = absurd (err_is_not_ok (sym q))
  called_err (err f) h e q = subst (λ x. (is_call_error x ≡ true) ⊎ IsUnconverted p x) (err_inj q) h

  syntax_or_call :
      (r : Result ExprError (List Token)) (ctx : O)
      → IsSyntaxResult r
      → (e : ExprError) → (r >>= parse_tokens p.of_text >>= eval_node p ctx) ≡ err e
      → (is_syntax_error e ≡ true) ⊎ ((is_call_error e ≡ true) ⊎ IsUnconverted p e)
  syntax_or_call (err f) ctx s e h = inl (subst (λ x. is_syntax_error x ≡ true) (err_inj h) s)
  syntax_or_call (ok ts) ctx s e h =
      parsed_or_called (parse_tokens p.of_text ts) (parse_tokens-HasKnownOps p.of_text ts) h
    where
      parsed_or_called :
          (q : Result ExprError (ExprNode N))
          → TakesAll HasKnownOps q
          → (q >>= eval_node p ctx) ≡ err e
          → (is_syntax_error e ≡ true) ⊎ ((is_call_error e ≡ true) ⊎ IsUnconverted p e)
      parsed_or_called (err f) t g = inl (subst (λ x. is_syntax_error x ≡ true) (err_inj g) t)
      parsed_or_called (ok n) t g =
          inr (called_err (eval_node p ctx n) (eval_node-IsCalled ctx n t) e g)

  -- The evaluation of any text ends, and what it throws is an error of the syntax, an error of a function
  -- that is called, or the error of an object that the platform cannot convert to a number, a text or a
  -- primitive value: the operators of what the parser makes are all known to the evaluator.
  pub evaluate-throws :
      (expression : Text) (ctx : O) (e : ExprError)
      → evaluate p expression ctx ≡ err e
      → (is_syntax_error e ≡ true) ⊎ ((is_call_error e ≡ true) ⊎ IsUnconverted p e)
  unfolding evaluate parse
  evaluate-throws expression ctx e h =
      syntax_or_call (tokenize expression) ctx (tokenize-IsSyntaxResult expression) e h
