-- ===== src/Engine/Loop.antt =====
-- `ExecuteSteps`: the merge of the environment, the loop with its skips, errors and early stop, and
-- the report.
use direct_xshader_patcher.Base.{
  ℕ, ◌+◌, ◌%◌, ◌^◌, String, List, [], ◌∷◌, ◌++◌, Bool, true, false, not, ◌&&◌, ◌||◌, none, some,
  ltb, ◌==◌, if◌then◌else◌, str_eq, Result, ok, ◌>>=◌,
}
use direct_xshader_patcher.Base.Map.{insert, merge}
use direct_xshader_patcher.Condition.{PrimitiveValue}
use direct_xshader_patcher.Condition.Evaluate.{should_execute}
use direct_xshader_patcher.Condition.Resolver.{Names, resolve}
use direct_xshader_patcher.Results.{ResultsVariant, AddResourceResults}
use direct_xshader_patcher.Engine.Context.{
  Backend, ExecutionContext, Step, Progress, RecipeReport, Factories,
}

-- The engine's sums are on `uint32_t`.
abbrev u32 : ℕ → ℕ
u32 n = n % 2 ^ 32

add_totals : AddResourceResults → AddResourceResults → AddResourceResults
add_totals t r = record {
  textures_added = u32 (t.textures_added + r.textures_added);
  raw_resources_added = u32 (t.raw_resources_added + r.raw_resources_added);
  structured_resources_added = u32 (t.structured_resources_added + r.structured_resources_added);
  cbuffers_added = u32 (t.cbuffers_added + r.cbuffers_added);
  samplers_added = u32 (t.samplers_added + r.samplers_added);
  uavs_added = u32 (t.uavs_added + r.uavs_added);
  inputs_added = u32 (t.inputs_added + r.inputs_added);
  outputs_added = u32 (t.outputs_added + r.outputs_added);
  temps_added = u32 (t.temps_added + r.temps_added);
}

no_totals : AddResourceResults
no_totals = record {
  textures_added = 0;
  raw_resources_added = 0;
  structured_resources_added = 0;
  cbuffers_added = 0;
  samplers_added = 0;
  uavs_added = 0;
  inputs_added = 0;
  outputs_added = 0;
  temps_added = 0;
}

unfoldable pub totals_after : AddResourceResults → ResultsVariant → AddResourceResults
unfolding add_totals
totals_after t (ResultsVariant.add_resource r) = add_totals t r
totals_after t _ = t

-- A rule that emitted a change.
abbrev pub is_mutation : ResultsVariant → Bool
is_mutation (ResultsVariant.apply_rule r) = ltb 0 r.applied_count
is_mutation _ = false

-- `for (auto& [key, v] : from) to[key] = std::move(v);` leaves moved-from values behind.
unfoldable pub mark_moved {ℓ} : {V : Type ℓ} → (V → V) → List (String × V) → List (String × V)
mark_moved moved [] = []
mark_moved moved ((k, v) ∷ m) = (k, moved v) ∷ mark_moved moved m

-- The bindings whose handle is not empty are copied.
unfoldable pub copy_named {ℓ} :
    {V : Type ℓ} → List (String × V) → List (String × V) → List (String × V)
unfolding insert
copy_named [] to = to
copy_named ((k, v) ∷ from) to = copy_named from (if str_eq k "" then to else insert k v to)

module _ {b : Backend} where
  abbrev pub names_of : ExecutionContext b → Names b.Double
  names_of c = record { variables = c.variables; state = c.state; results = c.results }

  unfoldable pub should_run : Step b → ExecutionContext b → Bool
  unfolding should_execute resolve
  should_run s c = should_execute b.double_ops (resolve (names_of c)) s.condition

  unfoldable pub step_succeeded : ResultsVariant → ExecutionContext b → Bool
  step_succeeded (ResultsVariant.apply_rule r) c = ltb 0 r.match_count
  step_succeeded (ResultsVariant.check_shader_version r) c =
      r.major_version == c.major_version && r.minor_version == c.minor_version
  step_succeeded _ c = true

  unfoldable pub skip_step : Progress b → Progress b
  skip_step p = record p { skipped_count = u32 (p.skipped_count + 1) }

  -- Everything after a successful `Execute`, up to the stop-fast test.
  unfoldable pub record_step :
      Step b → ResultsVariant → ExecutionContext b → Progress b → Progress b
  unfolding step_succeeded mark_moved copy_named merge insert totals_after
  record_step s r c p =
      let succeeded = step_succeeded r c in
      let stop = s.required && not succeeded in
      record {
        context = record c {
          resource_exports = mark_moved b.moved_usage c.resource_exports;
          immediate_exports = mark_moved b.moved_immediate c.immediate_exports;
          results = insert s.name r c.results;
        };
        steps = p.steps ++ (record { name = s.name; results = r; success = succeeded }) ∷ [];
        resource_usage = merge c.resource_exports p.resource_usage;
        immediate_values = merge c.immediate_exports p.immediate_values;
        new_bindings = copy_named c.resource_bindings p.new_bindings;
        matched_count = if succeeded then u32 (p.matched_count + 1) else p.matched_count;
        no_match_count = if succeeded then p.no_match_count else u32 (p.no_match_count + 1);
        skipped_count = p.skipped_count;
        added_totals = totals_after p.added_totals r;
        any_rule_mutated = p.any_rule_mutated || is_mutation r;
        stopped_early_step = if stop then some s.name else none;
      }

  -- One round of the loop.
  unfoldable pub run_step : Step b → Progress b → Result String (Progress b)
  unfolding should_run skip_step record_step
  run_step s p =
      if should_run s p.context
      then (s.execute p.context >>= λ r. ok (record_step s r.0 r.1 p))
      else ok (skip_step p)

  -- The loop; a stop breaks out of it.
  unfoldable pub run_steps : List (Step b) → Progress b → Result String (Progress b)
  unfolding run_step
  run_steps [] p = ok p
  run_steps (s ∷ rest) p = run_step s p >>= λ q. elim (q.stopped_early_step) [
    | some name ↦ ok q
    | none ↦ run_steps rest q
  ]

  -- `exec_context.variables` after the recipe's environment and the options' are merged in.
  unfoldable pub with_environment :
      List (String × PrimitiveValue b.Double)
      → List (String × PrimitiveValue b.Double)
      → ExecutionContext b
      → ExecutionContext b
  unfolding merge
  with_environment env options c = record c { variables = merge options (merge env c.variables) }

  unfoldable pub start : ExecutionContext b → Progress b
  unfolding no_totals
  start c = record {
    context = c;
    steps = [];
    resource_usage = [];
    immediate_values = [];
    new_bindings = [];
    matched_count = 0;
    no_match_count = 0;
    skipped_count = 0;
    added_totals = no_totals;
    any_rule_mutated = false;
    stopped_early_step = none;
  }

  -- What `build_report` is given: without a rule that changed something the program counts as
  -- unmodified.
  abbrev pub final_context : Progress b → ExecutionContext b
  final_context p = record (p.context) {
    program_modified = p.any_rule_mutated && p.context.program_modified;
  }

  unfoldable pub finish : Factories b → List ℕ → Progress b → Result String (RecipeReport b)
  finish f input p = f.build_report (final_context p) input >>= λ out.
      ok (record { progress = p; output = out; modified = (final_context p).program_modified })

  unfoldable pub execute_steps :
      Factories b
      → List (Step b)
      → List (String × PrimitiveValue b.Double)
      → List (String × PrimitiveValue b.Double)
      → List ℕ
      → Result String (RecipeReport b)
  unfolding run_steps with_environment start finish
  execute_steps f steps env options input = do
    c ← f.make_context input
    p ← run_steps steps (start (with_environment env options c))
    finish f input p
