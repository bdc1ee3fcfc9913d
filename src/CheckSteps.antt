-- ===== src/CheckSteps.antt =====
-- The check steps: `Validate` as both backends have it, with `ValidateStepList` of
-- src/dxp/RecipeEngine.hpp for lists of them, and the counts of src/dxp/sm5/step. The counts are
-- below 2 ^ 31, where an `int32_t` does not overflow.
use direct_xshader_patcher.Base.{
  ℕ, ◌+◌, String, List, [], ◌∷◌, Bool, false, not, ◌||◌, Option, none, some, str_eq, if◌then◌else◌,
  Result, ok, ◌>>=◌, ◌>>◌, require,
}
use direct_xshader_patcher.Base.Int.{ℤ, pos}
use direct_xshader_patcher.Base.Map.{lookup, insert}
use direct_xshader_patcher.Condition.{ConditionNode}
use direct_xshader_patcher.Condition.Validate.{validate_condition}
use direct_xshader_patcher.Results.{CheckOpcodeCountResults}

pub data StepError : Type 0 where
  no_opcodes duplicate_name invalid_condition : StepError

-- A set of names.
unfoldable pub has_name : List String → String → Bool
has_name [] name = false
has_name (n ∷ ns) name = str_eq n name || has_name ns name

-- What `Validate` reads of a check step: whether it has something to count, its name and condition.
-- The steps that check a version or the resources have no list to test.
pub record CheckStep (Double : Type 0) : Type 0 where
  pub name : String
  pub has_work : Bool
  pub condition : Option (ConditionNode Double)

module _ {Double : Type 0} where
  -- `Validate`: the name goes into the set before the condition is looked at.
  unfoldable pub validate_step : CheckStep Double → List String → Result StepError (List String)
  unfolding has_name validate_condition
  validate_step s names = do
    require s.has_work no_opcodes
    require (not (has_name names s.name)) duplicate_name
    require (validate_condition (has_name (s.name ∷ names)) s.condition) invalid_condition
    ok (s.name ∷ names)

  -- `ValidateStepList`, from a set of names.
  unfoldable pub validate_steps :
      List (CheckStep Double) → List String → Result StepError (List String)
  unfolding validate_step
  validate_steps [] names = ok names
  validate_steps (s ∷ rest) names = validate_step s names >>= validate_steps rest

abbrev count_or_zero : Option ℤ → ℤ
count_or_zero none = pos 0
count_or_zero (some n) = n

-- The counts of the asked opcodes out of those of the program, 0 where it has none; an opcode without
-- a name is passed over.
unfoldable pub count_asked : List (String × ℤ) → List String → List (String × ℤ) → List (String × ℤ)
unfolding lookup insert
count_asked all [] counts = counts
count_asked all (op ∷ ops) counts =
    count_asked all ops
      (if str_eq op "" then counts else insert op (count_or_zero (lookup op all)) counts)

-- `Execute` of CheckOpcodeCountStep for SM5, given the names of the asked opcodes.
unfoldable pub execute_opcode_count : List (String × ℤ) → List String → CheckOpcodeCountResults
unfolding count_asked
execute_opcode_count all opcodes = record {
  opcode_counts = count_asked all opcodes [];
  dxil_opcode_counts = [];
  llvm_opcode_counts = [];
}

-- For SM6 the opcodes are given by name, and every name is counted.
unfoldable pub count_asked_all :
    List (String × ℤ) → List String → List (String × ℤ) → List (String × ℤ)
unfolding lookup insert
count_asked_all all [] counts = counts
count_asked_all all (op ∷ ops) counts =
    count_asked_all all ops (insert op (count_or_zero (lookup op all)) counts)

-- The same for SM6, with the two kinds of opcodes.
unfoldable pub execute_opcode_counts :
    List (String × ℤ) → List (String × ℤ) → List String → List String → CheckOpcodeCountResults
unfolding count_asked_all
execute_opcode_counts dxil llvm dxil_opcodes llvm_opcodes = record {
  opcode_counts = [];
  dxil_opcode_counts = count_asked_all dxil dxil_opcodes [];
  llvm_opcode_counts = count_asked_all llvm llvm_opcodes [];
}

-- The opcodes that the resource count tells apart.
pub data Declared : Type 0 where
  texture sampler cbuffer uav thread_group neither : Declared

pub record Tally : Type 0 where
  pub textures : ℕ
  pub samplers : ℕ
  pub cbuffers : ℕ
  pub uavs : ℕ
  pub thread_groups : ℕ

unfoldable pub count_one : Declared → Tally → Tally
count_one texture t = record t { textures = t.textures + 1 }
count_one sampler t = record t { samplers = t.samplers + 1 }
count_one cbuffer t = record t { cbuffers = t.cbuffers + 1 }
count_one uav t = record t { uavs = t.uavs + 1 }
count_one thread_group t = record t { thread_groups = t.thread_groups + 1 }
count_one neither t = t

-- The loop over the instructions.
unfoldable pub count_resources : List Declared → Tally → Tally
unfolding count_one
count_resources [] t = t
count_resources (d ∷ ds) t = count_resources ds (count_one d t)

abbrev pub total_of : Tally → ℕ
total_of t = t.textures + t.samplers + t.cbuffers + t.uavs + t.thread_groups
