-- ===== src/Sm5/Operands.antt =====
-- Operand tokens: `Operand::Encode` and `EncodeOperandToken0` of src/dxp/sm5/Model.cpp, and
-- `ParseOperand` of src/dxp/sm5/ShaderProgram.cpp. Numeric enumerators are those of
-- include/dxp/sm5/Model.hpp. The macros of the Windows header of the token format are parameters.
pub mod Parse
pub mod Layout
pub mod Fields
pub mod Encodable
pub mod Steps
pub mod Entries
pub mod Whole
pub mod RoundTrip
pub mod Equal
pub mod Written
pub mod Sequence
pub mod Consumed
pub mod All
pub mod Finishes
pub mod Bounds
use direct_xshader_patcher.Base.{
  ℕ, zero, suc, ◌+◌, ◌-◌, ◌*◌, ◌^◌, min, List, [], ◌∷◌, ◌++◌, Bool, true, false, not, ◌&&◌, ◌||◌,
  ltb, ◌==◌, Option, none, some, Result, ok, err, ◌>>=◌, if◌then◌else◌, bit_and, bit_or,
}
use direct_xshader_patcher.Sm5.Tokens.{TokenError, parse_read_dword}

pub data IndexRepresentation : Type 0 where
  immediate32 immediate64 relative immediate32_plus_relative immediate64_plus_relative :
      IndexRepresentation

-- The members of `Operand` besides its entries and its relative operand.
pub record OperandHead : Type 0 where
  pub type : ℕ
  pub num_components : ℕ
  pub component_mode : ℕ
  pub modifier : ℕ
  pub source_offset : ℕ
  pub source_length : ℕ

-- An operand is its head, its `index_entries` and its `relative_operand`; an entry is its
-- representation, its `immediate_lo`, its `immediate_hi` and its `relative_operand`.
mutual
  pub data Operand : Type 0 where
    operand : OperandHead → IndexEntries → RelativeOperand → Operand

  pub data IndexEntries : Type 0 where
    no_entries : IndexEntries
    entry :
        IndexRepresentation → Option ℕ → Option ℕ → RelativeOperand → IndexEntries → IndexEntries

  pub data RelativeOperand : Type 0 where
    not_relative : RelativeOperand
    relative_to : Operand → RelativeOperand

abbrev pub source_offset_of : Operand → ℕ
source_offset_of (operand head _ _) = head.source_offset

abbrev pub source_length_of : Operand → ℕ
source_length_of (operand head _ _) = head.source_length

-- The fields of an operand's first token, `index_representation` one for each dimension.
pub data Field : Type 0 where
  num_components type index_dimension extended : Field
  index_representation : ℕ → Field

-- `ENCODE_D3D10_SB_OPERAND_...` is `put` and `DECODE_D3D10_SB_OPERAND_...` is `get`. The other
-- members are the macros of the token that an extended operand has behind it.
pub record OperandFormat : Type 0 where
  pub put : Field → ℕ → ℕ
  pub get : Field → ℕ → ℕ
  pub encode_modifier : ℕ → ℕ
  pub extended_type : ℕ → ℕ
  pub decode_modifier : ℕ → ℕ
  pub double_extended : ℕ → ℕ

-- `OperandType` and `kComponentModeBits`
abbrev pub operand_immediate32 : ℕ
operand_immediate32 = 4

abbrev pub operand_immediate64 : ℕ
operand_immediate64 = 5

abbrev pub component_mode_bits : ℕ
component_mode_bits = 0xFFC

-- `D3D10_SB_OPERAND_INDEX_...`
abbrev pub representation_number : IndexRepresentation → ℕ
representation_number immediate32 = 0
representation_number immediate64 = 1
representation_number relative = 2
representation_number immediate32_plus_relative = 3
representation_number immediate64_plus_relative = 4

abbrev pub entry_count : IndexEntries → ℕ
entry_count no_entries = 0
entry_count (entry representation lo hi inner entries) = suc (entry_count entries)

abbrev pub has_value : Option ℕ → List ℕ
has_value none = []
has_value (some token) = token ∷ []

abbrev pub is_immediate : ℕ → Bool
is_immediate kind = kind == operand_immediate32 || kind == operand_immediate64

-- The dimension that the token announces.
unfoldable pub index_dims : Operand → ℕ
index_dims (operand head no_entries not_relative) = 0
index_dims (operand head no_entries (relative_to inner)) = if is_immediate head.type then 0 else 1
index_dims (operand head (entry representation lo hi inner entries) outer) =
    if is_immediate head.type then 0 else min (suc (entry_count entries)) 3

module _ (format : OperandFormat) where
  abbrev pub put_representations : ℕ → ℕ → IndexEntries → ℕ → ℕ
  put_representations zero dim _ token0 = token0
  put_representations (suc dims) dim no_entries token0 = token0
  put_representations (suc dims) dim (entry representation lo hi inner entries) token0 =
      put_representations dims (suc dim) entries (
        bit_or token0
          (format.put (index_representation dim) (representation_number representation)))

  abbrev pub put_index : ℕ → IndexEntries → RelativeOperand → ℕ → ℕ
  put_index dims no_entries not_relative token0 = token0
  put_index dims no_entries (relative_to inner) token0 =
      bit_or token0 (format.put (index_representation 0) 2)
  put_index dims (entry representation lo hi inner entries) outer token0 =
      put_representations dims 0 (entry representation lo hi inner entries) token0

  unfoldable pub encode_operand_token0 : Operand → ℕ
  unfolding index_dims
  encode_operand_token0 (operand head entries outer) =
      let dims = index_dims (operand head entries outer) in
      let components =
        bit_or (format.put num_components head.num_components)
          (bit_and head.component_mode component_mode_bits) in
      let typed = bit_or components (format.put type head.type) in
      let indexed = bit_or typed (format.put index_dimension dims) in
      let token0 = put_index dims entries outer indexed in
      if head.modifier == 0 then token0 else bit_or token0 (format.put extended 1)

  abbrev pub encode_immediates : IndexEntries → List ℕ
  encode_immediates no_entries = []
  encode_immediates (entry representation lo hi inner entries) =
      has_value lo ++ (has_value hi ++ encode_immediates entries)

  -- What an entry's own immediates encode to.
  abbrev pub encode_entry : IndexRepresentation → Option ℕ → Option ℕ → List ℕ
  encode_entry immediate32 lo hi = has_value lo
  encode_entry immediate64 lo hi = has_value lo ++ has_value hi
  encode_entry relative lo hi = []
  encode_entry immediate32_plus_relative lo hi = has_value lo
  encode_entry immediate64_plus_relative lo hi = has_value lo ++ has_value hi

  abbrev pub encode_extension : ℕ → List ℕ
  encode_extension modifier = if modifier == 0 then [] else format.encode_modifier modifier ∷ []

  -- The operand's own relative operand is written where it has no entries.
  abbrev pub behind_entries : IndexEntries → List ℕ → List ℕ
  behind_entries no_entries tokens = tokens
  behind_entries (entry _ _ _ _ _) tokens = []

  unfoldable mutual
    pub encode : Operand → List ℕ
    encode (operand head entries outer) =
        let immediates = encode_immediates entries in
        let indices = encode_entries entries in
        let behind = behind_entries entries (encode_relative outer) in
        encode_operand_token0 (operand head entries outer)
        ∷ (encode_extension head.modifier
            ++ ((if is_immediate head.type then immediates else indices) ++ behind))

    pub encode_entries : IndexEntries → List ℕ
    encode_entries no_entries = []
    encode_entries (entry representation lo hi inner entries) =
        (encode_entry representation lo hi ++ encode_relative inner) ++ encode_entries entries

    pub encode_relative : RelativeOperand → List ℕ
    encode_relative not_relative = []
    encode_relative (relative_to inner) = encode inner
