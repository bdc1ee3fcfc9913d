-- ===== src/Results.antt =====
-- include/dxp/StepResults.hpp and src/dxp/ResultFieldTraits.hpp: what a step reports, and the fields
-- of it that a dotted reference can read. Counts are `uint32_t`, or `int32_t` where they are signed.
pub mod Fields
use direct_xshader_patcher.Base.{ℕ, String, List}
use direct_xshader_patcher.Base.Int.{ℤ}

pub record ApplyRuleResults : Type 0 where
  pub match_count : ℕ
  pub applied_count : ℕ

pub record AddResourceResults : Type 0 where
  pub textures_added : ℕ
  pub raw_resources_added : ℕ
  pub structured_resources_added : ℕ
  pub cbuffers_added : ℕ
  pub samplers_added : ℕ
  pub uavs_added : ℕ
  pub inputs_added : ℕ
  pub outputs_added : ℕ
  pub temps_added : ℕ

pub record CheckShaderVersionResults : Type 0 where
  pub major_version : ℕ
  pub minor_version : ℕ

pub record CheckOpcodeCountResults : Type 0 where
  pub opcode_counts : List (String × ℤ)
  pub dxil_opcode_counts : List (String × ℤ)
  pub llvm_opcode_counts : List (String × ℤ)

pub record CheckResourceCountResults : Type 0 where
  pub textures : ℤ
  pub samplers : ℤ
  pub cbuffers : ℤ
  pub uavs : ℤ
  pub thread_groups : ℤ
  pub total : ℤ

pub record DeclareTemplateResults : Type 0 where
  pub emit_count : ℕ

pub record DeclareFunctionResults : Type 0 where
  pub functions_added : ℕ
  pub instruction_count : ℕ

pub data ResultsVariant : Type 0 where
  apply_rule : ApplyRuleResults → ResultsVariant
  add_resource : AddResourceResults → ResultsVariant
  check_shader_version : CheckShaderVersionResults → ResultsVariant
  check_opcode_count : CheckOpcodeCountResults → ResultsVariant
  check_resource_count : CheckResourceCountResults → ResultsVariant
  declare_template : DeclareTemplateResults → ResultsVariant
  declare_function : DeclareFunctionResults → ResultsVariant
