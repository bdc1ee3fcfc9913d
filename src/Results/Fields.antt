-- ===== src/Results/Fields.antt =====
-- `ExtractFieldTrait<...>::GetValue` of src/dxp/ResultFieldTraits.hpp; every field is read as an
-- `int64_t`.
use direct_xshader_patcher.Base.{
  String, List, [], ◌∷◌, Option, none, some, length, str_eq, if◌then◌else◌,
}
use direct_xshader_patcher.Base.Int.{ℤ, pos}
use direct_xshader_patcher.Base.Map.{lookup}
use direct_xshader_patcher.Results.{CheckOpcodeCountResults, ResultsVariant}

-- The `if (field == "...") return ...;` lines of one trait, in order.
abbrev pub field_of : String → List (String × ℤ) → Option ℤ
field_of field [] = none
field_of field ((name, value) ∷ rest) =
    if str_eq field name then some value else field_of field rest

-- The counts by opcode: the first of the three maps that has the name.
abbrev pub opcode_count : CheckOpcodeCountResults → String → Option ℤ
opcode_count r field = elim (lookup field r.opcode_counts) [
  | some n ↦ some n
  | none ↦ elim (lookup field r.dxil_opcode_counts) [
    | some n ↦ some n
    | none ↦ lookup field r.llvm_opcode_counts
  ]
]

abbrev pub or_count : Option ℤ → Option ℤ → Option ℤ
or_count (some n) other = some n
or_count none other = other

unfoldable pub get_value : ResultsVariant → String → Option ℤ
unfolding lookup
get_value (ResultsVariant.apply_rule r) field =
    field_of field
      (("match_count", pos r.match_count) ∷ ("applied_count", pos r.applied_count) ∷ [])
get_value (ResultsVariant.add_resource r) field = field_of field (
    ("textures_added", pos r.textures_added)
    ∷ ("raw_resources_added", pos r.raw_resources_added)
    ∷ ("structured_resources_added", pos r.structured_resources_added)
    ∷ ("cbuffers_added", pos r.cbuffers_added)
    ∷ ("samplers_added", pos r.samplers_added)
    ∷ ("uavs_added", pos r.uavs_added)
    ∷ ("inputs_added", pos r.inputs_added)
    ∷ ("outputs_added", pos r.outputs_added)
    ∷ ("temps_added", pos r.temps_added)
    ∷ [])
get_value (ResultsVariant.check_shader_version r) field =
    field_of field
      (("major_version", pos r.major_version) ∷ ("minor_version", pos r.minor_version) ∷ [])
get_value (ResultsVariant.check_opcode_count r) field =
    or_count
      (field_of field (
        ("opcode_counts", pos (length r.opcode_counts))
        ∷ ("dxil_opcode_counts", pos (length r.dxil_opcode_counts))
        ∷ ("llvm_opcode_counts", pos (length r.llvm_opcode_counts))
        ∷ []))
      (opcode_count r field)
get_value (ResultsVariant.check_resource_count r) field = field_of field (
    ("textures", r.textures)
    ∷ ("samplers", r.samplers)
    ∷ ("cbuffers", r.cbuffers)
    ∷ ("uavs", r.uavs)
    ∷ ("thread_groups", r.thread_groups)
    ∷ ("total", r.total)
    ∷ [])
get_value (ResultsVariant.declare_template r) field =
    field_of field (("emit_count", pos r.emit_count) ∷ [])
get_value (ResultsVariant.declare_function r) field = field_of field (
    ("functions_added", pos r.functions_added)
    ∷ ("instruction_count", pos r.instruction_count)
    ∷ [])
