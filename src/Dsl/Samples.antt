-- ===== src/Dsl/Samples.antt =====
-- The workflow language on small inputs, and its theorems at them.
use jobflow_project.Common.{
  List, Text, [], err, false, includes, ok, refl, text, text_eq, true, ℕ, ◌∷◌, ◌≡◌,
}
use jobflow_project.Domain.{Severity}
use jobflow_project.Dsl.Ast.{
  WorkflowDslNode, DslToken, DslTokenType, ident, colon, arrow, number, eof, type_eq,
}
use jobflow_project.Dsl.Lexer
use jobflow_project.Dsl.Lexer.{
  tokenize, Cut.IsCut, Cut.tokenize-IsCut, Totality.Lexed, Totality.Occurs, Totality.tokenize-Lexed,
}
use jobflow_project.Dsl.Parser.{
  parse, parse_tokens, constraint_fields, out_of_fuel, Printer.print_workflow,
  Printer.parse_tokens-print, Loops.constraint_loops, Loops.IsForeign, number_of, body_item,
  body_items, expect, expect_ident, expect_keyword, expect_number, expect_token, finish_task,
  number_onto, parse_task, parse_workflow, task_field, task_fields,
}

abbrev sample : WorkflowDslNode
sample = record {
  name = text "w";
  version = 12;
  tasks =
      record {
        id = text "a";
        handler = text "h";
        timeout_ms = 5;
        depends_on = text "b" ∷ text "c" ∷ [];
        optional = true;
      }
      ∷ [];
  constraints = record { id = text "k"; expr = text "x"; severity = Severity.warn } ∷ [];
}

parse_tokens-print_example : parse_tokens (print_workflow 1 1 sample []) ≡ ok sample
unfolding text_eq
parse_tokens-print_example = parse_tokens-print 1 1 sample [] (refl, tt)

-- A name where a field of a constraint is due.
abbrev stray : DslToken
stray = record { type = ident; value = text "x"; line = 1; column = 1 }

stray-IsForeign : IsForeign stray
unfolding type_eq
stray-IsForeign = record { not_rbrace = refl; not_expr = refl; not_warn = refl; not_block = refl }

constraint_loops_example : constraint_fields 7 ([], Severity.block) (stray ∷ []) ≡ err out_of_fuel
constraint_loops_example = constraint_loops stray [] ([], Severity.block) 7 stray-IsForeign

tokenize-Lexed_example : Lexed (λ ch. Occurs ch (text "a: 12 // b")) (tokenize (text "a: 12 // b"))
tokenize-Lexed_example = tokenize-Lexed (text "a: 12 // b")

abbrev on_line : DslTokenType → Text → ℕ → DslToken
on_line type value column = record { type = type; value = value; line = 1; column = column }

abbrev few_tokens : List DslToken
few_tokens =
    on_line ident (text "a") 1
    ∷ on_line colon (text ":") 2
    ∷ on_line arrow (text "->") 4
    ∷ on_line number (text "12") 7
    ∷ on_line eof [] 13
    ∷ []

few_read : tokenize (text "a: -> 12 # b") ≡ ok few_tokens
unfolding tokenize Lexer.tokenize_from Lexer.scan Lexer.skip_from Lexer.is_space Lexer.go_on
    Lexer.read_token Lexer.single Lexer.long_token Lexer.is_digit Lexer.is_ident_start
    Lexer.read_while Lexer.is_ident_part Lexer.word_type includes text_eq Lexer.starts_with_gt
few_read = refl

tokenize-IsCut_example : IsCut (text "a: -> 12 # b") few_tokens
tokenize-IsCut_example = tokenize-IsCut (text "a: -> 12 # b") few_tokens few_read

reads :
    parse (text "workflow w: { version: 1 task a: { handler: \"h\" } }")
    ≡ ok (record {
      name = text "w";
      version = 1;
      tasks =
          record {
            id = text "a";
            handler = text "h";
            timeout_ms = 30000;
            depends_on = [];
            optional = false;
          }
          ∷ [];
      constraints = [];
    })
unfolding parse parse_tokens tokenize Lexer.tokenize_from Lexer.scan Lexer.skip_from Lexer.is_space
    Lexer.go_on Lexer.read_token Lexer.single Lexer.long_token Lexer.is_digit Lexer.is_ident_start
    Lexer.read_while Lexer.is_ident_part Lexer.read_string_from type_eq Lexer.word_type includes
    text_eq Lexer.starts_with_gt body_item body_items expect expect_ident expect_keyword
    expect_number expect_token finish_task number_of number_onto parse_task parse_workflow
    task_field task_fields
reads = refl
