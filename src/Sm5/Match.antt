-- ===== src/Sm5/Match.antt =====
-- Pattern matching over instructions: src/dxp/sm5/step/common/Match.cpp with the patterns of
-- include/dxp/sm5/step/common/Rule.hpp. Enumerators are their numbers, and texts of components are
-- lists of character codes.
pub mod Patterns
pub mod Literals
pub mod Added
pub mod Operands
pub mod Instructions
pub mod Collect
pub mod Ends
pub mod Scan
pub mod Windows
pub mod Trace
pub mod Sequences
use direct_xshader_patcher.Base.{ℕ, List, Bool, String, Option}
use direct_xshader_patcher.Sm5.Operands.{IndexRepresentation, Operand}
use direct_xshader_patcher.Sm5.Operands.Parse.{Index}
use direct_xshader_patcher.Sm5.Roles.{OperandRole}
use direct_xshader_patcher.Sm5.Lookup.{DeclarationIndex}

-- `IndexImmediateType`
pub data ImmediateFamily : Type 0 where
  untyped u32 u64 i32 i64 f32 f64 : ImmediateFamily

-- `relative_operand` is not read by the matching, and is left out.
pub record OperandIndexPattern : Type 0 where
  pub any : Bool
  pub representation : IndexRepresentation
  pub immediate_lo : Option ℕ
  pub immediate_hi : Option ℕ
  pub capture : String
  pub match_capture : String
  pub immediate_lo_variable : String
  pub immediate_family : ImmediateFamily

-- An entry of a typed array: the name of a variable, or a literal by its bits.
pub data Immediate : Type 0 where
  variable : String → Immediate
  literal : ℕ → Immediate

-- `return_type` has an entry for each of the four components.
pub record DeclConstraint : Type 0 where
  pub dimension : Option ℕ
  pub return_type : List (Option ℕ)
  pub structure_stride : Option ℕ
  pub mode : Option ℕ
  pub access_pattern : Option ℕ
  pub semantic : Option ℕ
  pub interpolation : Option ℕ

-- A negative `num_components` is none.
pub record OperandPattern : Type 0 where
  pub any : Bool
  pub type : Option ℕ
  pub indices : List OperandIndexPattern
  pub immediates_u32 : List Immediate
  pub immediates_u64 : List Immediate
  pub immediates_i32 : List Immediate
  pub immediates_i64 : List Immediate
  pub immediates_f32 : List Immediate
  pub immediates_f64 : List Immediate
  pub num_components : Option ℕ
  pub mask : List ℕ
  pub swizzle : List ℕ
  pub select : List ℕ
  pub modifier : Option ℕ
  pub decl : Option DeclConstraint
  pub capture : String
  pub match_capture : String
  pub export_as : Option String

pub record CapturedOperand : Type 0 where
  pub operand_data : Operand
  pub role : OperandRole
  pub destination_mask : ℕ
  pub export_as : Option String

-- Of the store of captures and of the context the members that matching reads.
pub record MatchContext : Type 0 where
  pub operands : List (String × CapturedOperand)
  pub index_values : List (String × Index)
  pub declarations : DeclarationIndex

-- A pattern that does not match.
pub data Mismatch : Type 0 where
  mismatch : Mismatch
