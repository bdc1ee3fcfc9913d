-- ===== src/Sm5/Declarations.antt =====
-- The declarations that src/dxp/sm5/ShaderProgram.cpp builds. Enumerators are their numbers in
-- include/dxp/sm5/Model.hpp. Of an instruction the model has the members that declarations use; the
-- component modes come from the Windows header of the token format and are parameters.
pub mod Declared
pub mod Add
pub mod Distinct
pub mod Invariant
use direct_xshader_patcher.Base.{
  ℕ, zero, suc, ◌+◌, ◌-◌, ◌^◌, List, [], ◌∷◌, ◌++◌, length, take, drop, Bool, true, false, ◌||◌,
  ◌&&◌, ◌==◌, leb, Option, none, some, if◌then◌else◌, String, bit_or,
}

-- `Operand::Index` with an immediate part and no relative one.
pub record Index : Type 0 where
  pub representation : ℕ
  pub immediate_lo : Option ℕ

pub record Operand : Type 0 where
  pub type : ℕ
  pub num_components : ℕ
  pub component_mode : ℕ
  pub index_entries : List Index

pub record OpcodeControls : Type 0 where
  pub input_interpolation_mode : Option ℕ
  pub access_pattern : Option ℕ
  pub access_pattern_raw : ℕ
  pub mode : Option ℕ
  pub resource_dimension : Option ℕ
  pub resource_return_type : List (Option ℕ)
  pub uav_flags : ℕ
  pub structure_stride : ℕ
  pub semantic_name : Option ℕ

pub record Instruction : Type 0 where
  pub opcode : ℕ
  pub controls : OpcodeControls
  pub operands : List Operand
  pub sampler_mode : ℕ

abbrev pub default_controls : OpcodeControls
default_controls = record {
  input_interpolation_mode = none;
  access_pattern = none;
  access_pattern_raw = 0;
  mode = none;
  resource_dimension = none;
  resource_return_type = none ∷ none ∷ none ∷ none ∷ [];
  uav_flags = 0;
  structure_stride = 0;
  semantic_name = none;
}

-- What `AddResourceStep` declares.
pub record TextureDecl : Type 0 where
  pub register_index : Option ℕ
  pub reverse_bind : Option Bool
  pub dimension : ℕ
  pub handle : String

pub record RawResourceDecl : Type 0 where
  pub register_index : Option ℕ
  pub reverse_bind : Option Bool
  pub handle : String

pub record StructuredResourceDecl : Type 0 where
  pub register_index : Option ℕ
  pub reverse_bind : Option Bool
  pub structure_stride : ℕ
  pub handle : String

pub record CBufferDecl : Type 0 where
  pub register_index : Option ℕ
  pub reverse_bind : Option Bool
  pub elements : ℕ
  pub access_pattern : ℕ
  pub handle : String

pub record SamplerDecl : Type 0 where
  pub register_index : Option ℕ
  pub reverse_bind : Option Bool
  pub mode : ℕ
  pub handle : String

pub data UavKind : Type 0 where
  typed raw structured : UavKind

pub record UavDecl : Type 0 where
  pub register_index : Option ℕ
  pub reverse_bind : Option Bool
  pub kind : UavKind
  pub dimension : ℕ
  pub structure_stride : ℕ
  pub globally_coherent : Bool
  pub has_order_preserving_counter : Bool
  pub handle : String

pub record InputDecl : Type 0 where
  pub register_index : Option ℕ
  pub reverse_bind : Option Bool
  pub interpolation_mode : ℕ
  pub handle : String

pub record OutputDecl : Type 0 where
  pub register_index : Option ℕ
  pub reverse_bind : Option Bool
  pub handle : String

-- `ENCODE_...` of the header, at the arguments that are used.
pub record ComponentModes : Type 0 where
  pub swizzle_xyzw : ℕ
  pub mask_all : ℕ

abbrev pub value_or {ℓ} : {A : Type ℓ} → Option A → A → A
value_or none d = d
value_or (some a) d = a

abbrev pub immediate : ℕ → Index
immediate n = record { representation = 0; immediate_lo = some n }

-- Operands without components, by their type: sampler, resource, view and temporary.
abbrev pub plain_operand : ℕ → ℕ → Operand
plain_operand type register_index = record {
  type = type;
  num_components = 0;
  component_mode = 0;
  index_entries = immediate register_index ∷ [];
}

abbrev pub make_sampler_operand : ℕ → Operand
make_sampler_operand = plain_operand 6

abbrev pub make_resource_operand : ℕ → Operand
make_resource_operand = plain_operand 7

abbrev pub make_uav_operand : ℕ → Operand
make_uav_operand = plain_operand 30

abbrev pub make_constant_buffer_operand : ComponentModes → ℕ → ℕ → Operand
make_constant_buffer_operand modes register_index element_count = record {
  type = 8;
  num_components = 2;
  component_mode = modes.swizzle_xyzw;
  index_entries = immediate register_index ∷ immediate element_count ∷ [];
}

abbrev pub signature_operand : ComponentModes → ℕ → ℕ → Operand
signature_operand modes type register_index = record {
  type = type;
  num_components = 2;
  component_mode = modes.mask_all;
  index_entries = immediate register_index ∷ [];
}

abbrev pub make_input_operand : ComponentModes → ℕ → Operand
make_input_operand modes = signature_operand modes 1

abbrev pub make_output_operand : ComponentModes → ℕ → Operand
make_output_operand modes = signature_operand modes 2

-- A new instruction with one operand.
abbrev pub declaration : ℕ → OpcodeControls → Operand → Instruction
declaration opcode controls operand = record {
  opcode = opcode;
  controls = controls;
  operands = operand ∷ [];
  sampler_mode = 0;
}

abbrev float_types : List (Option ℕ)
float_types = some 5 ∷ some 5 ∷ some 5 ∷ some 5 ∷ []

abbrev pub build_temp_declaration : ℕ → Instruction
build_temp_declaration temp_count = declaration 104 default_controls (plain_operand 0 temp_count)

abbrev pub build_constant_buffer_declaration : ComponentModes → CBufferDecl → Instruction
build_constant_buffer_declaration modes decl =
    declaration 89
      (record default_controls {
        access_pattern = some decl.access_pattern;
        access_pattern_raw = decl.access_pattern;
      })
      (make_constant_buffer_operand modes (value_or decl.register_index 0) decl.elements)

abbrev pub build_texture_declaration : TextureDecl → Instruction
build_texture_declaration decl =
    declaration 88
      (record default_controls {
        resource_dimension = some decl.dimension;
        resource_return_type = float_types;
      })
      (make_resource_operand (value_or decl.register_index 0))

abbrev pub build_sampler_declaration : SamplerDecl → Instruction
build_sampler_declaration decl =
    record (declaration 90 default_controls
      (make_sampler_operand (value_or decl.register_index 0))) { sampler_mode = decl.mode }

abbrev pub build_raw_resource_declaration : RawResourceDecl → Instruction
build_raw_resource_declaration decl =
    declaration 161 default_controls (make_resource_operand (value_or decl.register_index 0))

abbrev pub build_structured_resource_declaration : StructuredResourceDecl → Instruction
build_structured_resource_declaration decl =
    declaration 162 (record default_controls { structure_stride = decl.structure_stride })
      (make_resource_operand (value_or decl.register_index 0))

abbrev pub build_input_declaration : ComponentModes → InputDecl → Instruction
build_input_declaration modes decl =
    declaration 98
      (record default_controls { input_interpolation_mode = some decl.interpolation_mode })
      (make_input_operand modes (value_or decl.register_index 0))

abbrev pub build_output_declaration : ComponentModes → OutputDecl → Instruction
build_output_declaration modes decl =
    declaration 101 default_controls (make_output_operand modes (value_or decl.register_index 0))

-- `D3D11_SB_GLOBALLY_COHERENT_ACCESS` and `D3D11_SB_UAV_HAS_ORDER_PRESERVING_COUNTER`
abbrev pub coherent_flag : Bool → ℕ
coherent_flag globally_coherent = if globally_coherent then 0x10000 else 0

abbrev pub counter_flag : ℕ
counter_flag = 0x800000

unfoldable pub build_uav_declaration : UavDecl → Instruction
build_uav_declaration decl =
    let operand = make_uav_operand (value_or decl.register_index 0) in
    let coherent = coherent_flag decl.globally_coherent in
    elim (decl.kind) [
      | raw ↦ declaration 157 (record default_controls { uav_flags = coherent }) operand
      | structured ↦
          declaration 158
            (record default_controls {
              uav_flags =
                  if decl.has_order_preserving_counter
                  then bit_or coherent counter_flag
                  else coherent;
              structure_stride = decl.structure_stride;
            })
            operand
      | typed ↦
          declaration 156
            (record default_controls {
              resource_dimension = some decl.dimension;
              resource_return_type = float_types;
              uav_flags = coherent;
            })
            operand
    ]
