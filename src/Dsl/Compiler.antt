-- ===== src/Dsl/Compiler.antt =====
-- src/dsl/compiler.ts: `WorkflowDslCompiler`. The time and `toLowerCase` are arguments.
use jobflow_project.Common.{
  Bool, List, Option, Result, Text, [], err, false, if◌then◌else◌, map, none, ok, some, text, true,
  ◌>>=◌, ◌∷◌,
}
use jobflow_project.Domain.{JobConstraint, JobDefinition, TaskDefinition}
use jobflow_project.Domain.Retry.{default_retry_policy}
use jobflow_project.Dsl.Ast.{TaskDslNode, ConstraintDslNode, WorkflowDslNode}
use jobflow_project.Dsl.Lexer.{is_space}
use jobflow_project.Dsl.Parser.{ParseError, parse}
use jobflow_project.Dsl.Optimizer.{optimize}
use jobflow_project.Graph.Visit.{VisitError}

-- `parse_error` is what the parser throws; the optimizer throws nothing, its error is that of the fuel.
pub data CompileError : Type 0 where
  parse_error : ParseError → CompileError
  optimize_error : VisitError → CompileError

-- `name.replace(/\s+/g, "_")`: a run of spaces, `within` which the `_` is written, becomes one `_`.
unfoldable pub underscores : (within : Bool) → Text → Text
unfolding is_space
underscores within [] = []
underscores within (c ∷ cs) =
    let spaced = underscores true cs in
    let plain = underscores false cs in
    if is_space c then (if within then spaced else b'_' ∷ spaced) else c ∷ plain

-- `t.dependsOn.length ? t.dependsOn : undefined`.
unfoldable pub some_deps : List Text → Option (List Text)
some_deps [] = none
some_deps (id ∷ ids) = some (id ∷ ids)

unfoldable pub to_task : TaskDslNode → TaskDefinition
unfolding some_deps
to_task t = record {
  id = t.id;
  name = t.id;
  handler = t.handler;
  timeout_ms = t.timeout_ms;
  optional = some t.optional;
  depends_on = some_deps t.depends_on;
}

unfoldable pub to_constraint : ConstraintDslNode → JobConstraint
to_constraint c = record { id = c.id; expression = c.expr; severity = c.severity }

unfoldable pub id_or_name : (Text → Text) → Option Text → Text → Text
unfolding underscores
id_or_name to_lower none name = to_lower (underscores false name)
id_or_name to_lower (some id) name = id

module _ (to_lower : Text → Text) where
  unfoldable pub to_job_definition : (now : Text) → WorkflowDslNode → Option Text → JobDefinition
  unfolding to_task to_constraint id_or_name
  to_job_definition now ast job_id = record {
    id = id_or_name to_lower job_id ast.name;
    name = ast.name;
    version = ast.version;
    description = none;
    tasks = map to_task ast.tasks;
    constraints = map to_constraint ast.constraints;
    retry_policy = default_retry_policy;
    allowed_transitions = [];
    metadata = (text "compiledFrom", text "dsl") ∷ [];
    created_at = now;
    updated_at = now;
  }

  unfoldable pub compile_parsed :
      (now : Text)
      → Option Text
      → Result ParseError WorkflowDslNode
      → Result CompileError JobDefinition
  unfolding to_job_definition optimize
  compile_parsed now job_id (err e) = err (parse_error e)
  compile_parsed now job_id (ok ast) = compile_optimized (optimize ast)
    where
      compile_optimized : Result VisitError WorkflowDslNode → Result CompileError JobDefinition
      compile_optimized (ok w) = ok (to_job_definition now w job_id)
      compile_optimized (err e) = err (optimize_error e)

  unfoldable pub compile : (now : Text) → Text → Option Text → Result CompileError JobDefinition
  unfolding compile_parsed parse
  compile now source job_id = compile_parsed now job_id (parse source)

  -- The id and the times are those of the file.
  unfoldable pub compile_file :
      (now : Text) → Text → (id created_at : Text) → Result CompileError JobDefinition
  unfolding compile
  compile_file now content id created_at = compile now content (some id) >>= λ d.
      ok (record d { id = id; created_at = created_at; updated_at = created_at })
