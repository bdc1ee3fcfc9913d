-- ===== src/Tests/Runs.antt =====
-- Runs of the engine over a small backend, whose steps are written out.
use direct_xshader_patcher.Base.{
  ℕ, ◌+◌, ◌≤◌, String, Bool, true, false, ◌&&◌, Option, none, some, List, [], ◌∷◌, ◌++◌, length,
  Result, ok, err, ◌>>=◌, ◌≡◌, refl, ◌⊎◌, arith,
}
use direct_xshader_patcher.Base.Map.{DistinctKeys, lookup}
use direct_xshader_patcher.Condition.{PrimitiveValue, ConditionNode}
use direct_xshader_patcher.Results.{ResultsVariant}
use direct_xshader_patcher.Engine.Context.{
  Backend, ExecutionContext, Step, Progress, RecipeReport, Factories,
}
use direct_xshader_patcher.Engine.Loop.{
  run_steps, start, with_environment, execute_steps, finish, should_run, record_step,
}
use direct_xshader_patcher.Engine.Order.{continue_with, run_steps-append}
use direct_xshader_patcher.Engine.Counts.{successes, execute_steps-counts}
use direct_xshader_patcher.Engine.Modified.{any_mutation, execute_steps-modified}
use direct_xshader_patcher.Engine.Exports.{run_steps-moved_export}
use direct_xshader_patcher.Tests.Conditions.{whole_ops}

-- Programs are numbers, and a moved-from list is empty.
abbrev small_backend : Backend
small_backend = record {
  Double = ℕ;
  double_ops = whole_ops;
  Program = ℕ;
  Usage = List ℕ;
  Immediate = List ℕ;
  Binding = ℕ;
  Container = ℕ;
  moved_usage = λ _. [];
  moved_immediate = λ _. [];
}

abbrev new_context : ExecutionContext small_backend
new_context = record {
  program = 0;
  major_version = 5;
  minor_version = 0;
  program_modified = false;
  variables = [];
  state = [];
  resource_exports = [];
  immediate_exports = [];
  resource_bindings = [];
  results = [];
}

abbrev small_factories : Factories small_backend
small_factories = record {
  make_context = λ input. ok new_context;
  build_report = λ c input. ok (record { output_bytes = input; container_report = 0 });
}

abbrev rule_results : ℕ → ℕ → ResultsVariant
rule_results matched applied =
    ResultsVariant.apply_rule (record { match_count = matched; applied_count = applied })

-- A rule that exports one immediate value and changes the program.
abbrev exporting : Step small_backend
exporting = record {
  name = "export";
  required = false;
  condition = none;
  execute = λ c. ok (
    rule_results 1 1,
    record c { program_modified = true; immediate_exports = ("depth", 7 ∷ []) ∷ [] },
  );
}

-- A rule that finds nothing.
abbrev searching : Bool → Step small_backend
searching required = record {
  name = "search";
  required = required;
  condition = none;
  execute = λ c. ok (rule_results 0 0, c);
}

-- A step whose condition fails.
abbrev guarded : Step small_backend
guarded = record {
  name = "guarded";
  required = true;
  condition = some (ConditionNode.truthy_op "missing");
  execute = λ c. err "unreachable";
}

abbrev recipe : List (Step small_backend)
recipe = exporting ∷ guarded ∷ searching true ∷ exporting ∷ []

abbrev report_of : Result String (RecipeReport small_backend) → Option (RecipeReport small_backend)
report_of (ok r) = some r
report_of (err e) = none

-- `program` stands for the definitions that a run computes with.
program : Unit {0}
unfolding execute_steps run_steps start with_environment finish should_run record_step
program = tt

abbrev changed_context : ExecutionContext small_backend
changed_context = record new_context {
  program_modified = true;
  immediate_exports = ("depth", []) ∷ [];
  results = ("export", rule_results 1 1) ∷ ("search", rule_results 0 0) ∷ [];
}

abbrev recipe_progress : Progress small_backend
recipe_progress = record (start new_context) {
  context = changed_context;
  steps =
      (record { name = "export"; results = rule_results 1 1; success = true })
      ∷ (record { name = "search"; results = rule_results 0 0; success = false })
      ∷ [];
  immediate_values = ("depth", []) ∷ [];
  matched_count = 1;
  no_match_count = 1;
  skipped_count = 1;
  any_rule_mutated = true;
  stopped_early_step = some "search";
}

abbrev recipe_report : RecipeReport small_backend
recipe_report = record {
  progress = recipe_progress;
  output = record { output_bytes = 1 ∷ []; container_report = 0 };
  modified = true;
}

-- The second step is skipped, the third stops the run, and the fourth does not run.
recipe_runs : execute_steps small_factories recipe [] [] (1 ∷ []) ≡ ok recipe_report
unfolding program
recipe_runs = refl

execute_steps-counts_example :
    (recipe_progress.matched_count ≡ successes recipe_progress.steps)
    × (recipe_progress.matched_count + recipe_progress.no_match_count
        ≡ length recipe_progress.steps)
    × (length recipe_progress.steps + recipe_progress.skipped_count ≤ length recipe)
    × ((length recipe_progress.steps + recipe_progress.skipped_count ≡ length recipe)
        ⊎ ((name : String) × (recipe_progress.stopped_early_step ≡ some name)))
execute_steps-counts_example =
    execute_steps-counts small_factories recipe [] [] (1 ∷ []) recipe_report (omega arith)
      recipe_runs

execute_steps-modified_example :
    (recipe_report.modified
      ≡ (any_mutation recipe_progress.steps && recipe_progress.context.program_modified))
    × ((c : ExecutionContext small_backend) × (c.program_modified ≡ recipe_report.modified)
        × (small_factories.build_report c (1 ∷ []) ≡ ok recipe_report.output))
execute_steps-modified_example =
    execute_steps-modified small_factories recipe [] [] (1 ∷ []) recipe_report recipe_runs

start_runs : (start new_context).stopped_early_step ≡ none
unfolding program
start_runs = refl

run_steps-append_example :
    run_steps ((exporting ∷ guarded ∷ []) ++ (searching true ∷ exporting ∷ [])) (start new_context)
    ≡ (run_steps (exporting ∷ guarded ∷ []) (start new_context)
        >>= continue_with (searching true ∷ exporting ∷ []))
run_steps-append_example =
    run_steps-append (exporting ∷ guarded ∷ []) (searching true ∷ exporting ∷ [])
      (start new_context) start_runs

abbrev exported_context : ExecutionContext small_backend
exported_context = record new_context {
  program_modified = true;
  immediate_exports = ("depth", 7 ∷ []) ∷ [];
}

abbrev after_export : ExecutionContext small_backend
after_export =
    (record_step exporting (rule_results 1 1) exported_context (start new_context)).context

export_runs : should_run exporting ((start new_context).context) ≡ true
unfolding program
export_runs = refl

export_done :
    exporting.execute ((start new_context).context) ≡ ok (rule_results 1 1, exported_context)
unfolding program
export_done = refl

search_runs : should_run (searching false) after_export ≡ true
unfolding program
search_runs = refl

depth_found : lookup "depth" exported_context.immediate_exports ≡ some (7 ∷ [])
unfolding lookup
depth_found = refl

depth_distinct : DistinctKeys exported_context.immediate_exports
unfolding lookup
depth_distinct = (refl, tt)

run_steps-moved_export_example :
    (q : Progress small_backend) × (run_steps (exporting ∷ searching false ∷ []) (start new_context)
      ≡ ok q)
    × (lookup "depth" q.immediate_values ≡ some [])
run_steps-moved_export_example =
    run_steps-moved_export exporting (searching false) (start new_context) (rule_results 1 1)
      (rule_results 0 0) exported_context after_export "depth" (7 ∷ []) refl export_runs export_done
      depth_distinct depth_found search_runs refl refl

abbrev recipe_env : List (String × PrimitiveValue ℕ)
recipe_env = ("quality", PrimitiveValue.uint32 1) ∷ ("size", PrimitiveValue.uint32 8) ∷ []

abbrev option_env : List (String × PrimitiveValue ℕ)
option_env = ("quality", PrimitiveValue.uint32 2) ∷ []

recipe_env_distinct : DistinctKeys recipe_env
unfolding lookup
recipe_env_distinct = (refl, (refl, tt))

option_env_distinct : DistinctKeys option_env
unfolding lookup
option_env_distinct = (refl, tt)
