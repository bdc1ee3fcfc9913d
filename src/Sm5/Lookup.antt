-- ===== src/Sm5/Lookup.antt =====
-- `BuildDeclarationIndex` of src/dxp/sm5/DeclarationIndex.hpp: the declarations of a program by their
-- registers. A map is a list of entries, one for each key. The macros that decode a component mode
-- come from the Windows header.
pub mod Families
pub mod Last
pub mod Added
pub mod Found
use direct_xshader_patcher.Base.{ℕ, List, [], ◌∷◌, ◌==◌, Option, none, some, if◌then◌else◌}
use direct_xshader_patcher.Sm5.Roles.{ComponentFormat, mask_mode, four_components}
use direct_xshader_patcher.Sm5.Declarations.{Operand, Instruction, value_or}
use direct_xshader_patcher.Sm5.Declarations.Declared.{
  first_entry, is_srv, is_sampler, is_uav, is_input, is_output,
}

pub record SignatureDecl : Type 0 where
  pub register_bind_point : ℕ
  pub writemask : ℕ
  pub interpolation : Option ℕ
  pub semantic : Option ℕ

pub record ResourceDeclInfo : Type 0 where
  pub register_bind_point : ℕ
  pub dimension : ℕ
  pub return_types : List ℕ
  pub structure_stride : ℕ
  pub uav_flags : ℕ

pub record CBufferDeclInfo : Type 0 where
  pub register_bind_point : ℕ
  pub elements : ℕ
  pub access_pattern : ℕ

pub record DeclarationIndex : Type 0 where
  pub textures : List (ℕ × ResourceDeclInfo)
  pub uavs : List (ℕ × ResourceDeclInfo)
  pub samplers : List (ℕ × ℕ)
  pub cbuffers : List (ℕ × CBufferDeclInfo)
  pub inputs : List (ℕ × SignatureDecl)
  pub outputs : List (ℕ × SignatureDecl)

abbrev pub empty_index : DeclarationIndex
empty_index = record {
  textures = [];
  uavs = [];
  samplers = [];
  cbuffers = [];
  inputs = [];
  outputs = [];
}

unfoldable pub find_register {ℓ} : {A : Type ℓ} → ℕ → List (ℕ × A) → Option A
find_register key [] = none
find_register key ((k, a) ∷ entries) = if k == key then some a else find_register key entries

unfoldable pub insert_or_assign {ℓ} : {A : Type ℓ} → ℕ → A → List (ℕ × A) → List (ℕ × A)
insert_or_assign key a [] = (key, a) ∷ []
insert_or_assign key a ((k, b) ∷ entries) =
    if k == key then (key, a) ∷ entries else (k, b) ∷ insert_or_assign key a entries

-- `OperandType::Resource` and `OperandType::UAV`
unfoldable pub find_resource_decl : DeclarationIndex → ℕ → ℕ → Option ResourceDeclInfo
unfolding find_register
find_resource_decl index type register =
    if type == 7
    then find_register register index.textures
    else if type == 30
    then find_register register index.uavs
    else none

-- The first index entry of the first operand, when it has an immediate value.
abbrev pub register_of : Instruction → Option ℕ
register_of i = elim (first_entry i) [ none ↦ none | some entry ↦ entry.immediate_lo ]

-- `ResourceReturnType::Float` stands where no type is given.
abbrev pub return_types_of : List (Option ℕ) → List ℕ
return_types_of [] = []
return_types_of (t ∷ ts) = value_or t 5 ∷ return_types_of ts

-- `RawBuffer`, `StructuredBuffer` or what the instruction says, by the two special opcodes.
abbrev dimension_of : ℕ → ℕ → Instruction → ℕ
dimension_of raw structured i =
    if i.opcode == raw
    then 11
    else if i.opcode == structured
    then 12
    else value_or i.controls.resource_dimension 0

abbrev stride_of : ℕ → Instruction → ℕ
stride_of structured i = if i.opcode == structured then i.controls.structure_stride else 0

abbrev pub texture_info : ℕ → Instruction → ResourceDeclInfo
texture_info register i = record {
  register_bind_point = register;
  dimension = dimension_of 161 162 i;
  return_types = return_types_of i.controls.resource_return_type;
  structure_stride = stride_of 162 i;
  uav_flags = 0;
}

abbrev pub uav_info : ℕ → Instruction → ResourceDeclInfo
uav_info register i = record {
  register_bind_point = register;
  dimension = dimension_of 157 158 i;
  return_types = return_types_of i.controls.resource_return_type;
  structure_stride = stride_of 158 i;
  uav_flags = i.controls.uav_flags;
}

abbrev pub sampler_info : ℕ → Instruction → ℕ
sampler_info register i = value_or i.controls.mode i.sampler_mode

-- `ImmediateIndexed` is 0, as is a raw pattern that is absent.
abbrev access_pattern_of : Instruction → ℕ
access_pattern_of i = value_or i.controls.access_pattern i.controls.access_pattern_raw

-- The value of the second index entry, or 0.
abbrev elements_of : List Operand → ℕ
elements_of [] = 0
elements_of (operand ∷ others) = elim (operand.index_entries) [
  | [] ↦ 0
  | ◌∷◌ first entries ↦ elim entries [ [] ↦ 0 | ◌∷◌ second more ↦ value_or second.immediate_lo 0 ]
]

abbrev pub cbuffer_info : ℕ → Instruction → CBufferDeclInfo
cbuffer_info register i = record {
  register_bind_point = register;
  elements = elements_of i.operands;
  access_pattern = access_pattern_of i;
}

-- The six maps of the index.
pub data Family : Type 0 where
  textures uavs samplers cbuffers inputs outputs : Family

-- The cases of the switch.
abbrev pub family_of : ℕ → Option Family
family_of opcode =
    if is_srv opcode
    then some Family.textures
    else if is_uav opcode
    then some Family.uavs
    else if is_sampler opcode
    then some Family.samplers
    else if opcode == 89
    then some Family.cbuffers
    else if is_input opcode
    then some Family.inputs
    else if is_output opcode
    then some Family.outputs
    else none

module _ (format : ComponentFormat) where
  -- A mask is taken where it stands in the mode, in bits 4 to 7.
  abbrev writemask_of : List Operand → ℕ
  writemask_of [] = 0
  writemask_of (operand ∷ others) =
      if operand.num_components == four_components
      then (if format.selection_mode operand.component_mode == mask_mode
          then format.component_mask operand.component_mode
          else 0xF)
      else 0

  abbrev pub signature_info : ℕ → Instruction → SignatureDecl
  signature_info register i = record {
    register_bind_point = register;
    writemask = writemask_of i.operands;
    interpolation = i.controls.input_interpolation_mode;
    semantic = i.controls.semantic_name;
  }

  abbrev pub put : Family → ℕ → Instruction → DeclarationIndex → DeclarationIndex
  put Family.textures r i index = record index {
    textures = insert_or_assign r (texture_info r i) index.textures;
  }
  put Family.uavs r i index = record index { uavs = insert_or_assign r (uav_info r i) index.uavs }
  put Family.samplers r i index = record index {
    samplers = insert_or_assign r (sampler_info r i) index.samplers;
  }
  put Family.cbuffers r i index = record index {
    cbuffers = insert_or_assign r (cbuffer_info r i) index.cbuffers;
  }
  put Family.inputs r i index = record index {
    inputs = insert_or_assign r (signature_info r i) index.inputs;
  }
  put Family.outputs r i index = record index {
    outputs = insert_or_assign r (signature_info r i) index.outputs;
  }

  -- An instruction without a register in its first operand is passed over.
  unfoldable pub index_instruction : Instruction → DeclarationIndex → DeclarationIndex
  unfolding insert_or_assign
  index_instruction i index = elim (register_of i) [
    | none ↦ index
    | some r ↦ elim (family_of i.opcode) [ none ↦ index | some family ↦ put family r i index ]
  ]

  unfoldable pub index_instructions : List Instruction → DeclarationIndex → DeclarationIndex
  unfolding index_instruction
  index_instructions [] index = index
  index_instructions (i ∷ is) index = index_instructions is (index_instruction i index)

  unfoldable pub build_declaration_index : List Instruction → DeclarationIndex
  unfolding index_instructions
  build_declaration_index instructions = index_instructions instructions empty_index
