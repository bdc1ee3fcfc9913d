-- ===== src/Engine/Context.antt =====
-- The state of one execution: `ExecutionContext` and `VariableStore` as far as the engine reads and
-- writes them, the report, and the template parameters of the engine.
use direct_xshader_patcher.Base.{ℕ, String, List, Bool, Option, Result}
use direct_xshader_patcher.Condition.{DoubleOps, PrimitiveValue, ConditionNode}
use direct_xshader_patcher.Results.{ResultsVariant, AddResourceResults}

-- The types that the engine only moves about. A moved-from value is valid but unspecified in C++:
-- `moved_usage` and `moved_immediate` are what `std::move` leaves behind.
pub record Backend : Type 1 where
  pub Double : Type 0
  pub double_ops : DoubleOps Double
  pub Program : Type 0
  pub Usage : Type 0
  pub Immediate : Type 0
  pub Binding : Type 0
  pub Container : Type 0
  pub moved_usage : Usage → Usage
  pub moved_immediate : Immediate → Immediate

module _ (b : Backend) where
  pub record ExecutionContext : Type 0 where
    pub program : b.Program
    pub major_version : ℕ
    pub minor_version : ℕ
    pub program_modified : Bool
    pub variables : List (String × PrimitiveValue b.Double)
    pub state : List (String × PrimitiveValue b.Double)
    pub resource_exports : List (String × b.Usage)
    pub immediate_exports : List (String × b.Immediate)
    pub resource_bindings : List (String × b.Binding)
    pub results : List (String × ResultsVariant)

  -- A step of the variant with the overloads of `Execute` that its type selects. A type without the
  -- member `required` has it false.
  pub record Step : Type 0 where
    pub name : String
    pub required : Bool
    pub condition : Option (ConditionNode b.Double)
    pub execute : ExecutionContext → Result String (ResultsVariant × ExecutionContext)

  pub record StepReport : Type 0 where
    pub name : String
    pub results : ResultsVariant
    pub success : Bool

  -- `RecipeReport` as it grows, with the local variables of `ExecuteSteps`.
  pub record Progress : Type 0 where
    pub context : ExecutionContext
    pub steps : List StepReport
    pub resource_usage : List (String × b.Usage)
    pub immediate_values : List (String × b.Immediate)
    pub new_bindings : List (String × b.Binding)
    pub matched_count : ℕ
    pub no_match_count : ℕ
    pub skipped_count : ℕ
    pub added_totals : AddResourceResults
    pub any_rule_mutated : Bool
    pub stopped_early_step : Option String

  pub record ExecutionOutput : Type 0 where
    pub output_bytes : List ℕ
    pub container_report : b.Container

  pub record RecipeReport : Type 0 where
    pub progress : Progress
    pub output : ExecutionOutput
    pub modified : Bool

  -- `make_context` and `build_report`; the input is borrowed by both.
  pub record Factories : Type 0 where
    pub make_context : List ℕ → Result String ExecutionContext
    pub build_report : ExecutionContext → List ℕ → Result String ExecutionOutput
