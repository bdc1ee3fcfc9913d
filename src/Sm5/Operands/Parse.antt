-- ===== src/Sm5/Operands/Parse.antt =====
-- `ParseOperand` of src/dxp/sm5/ShaderProgram.cpp. The cursor is passed on and given back. Its
-- increments stay below `instruction_end`, which is a `uint32_t`, so that they do not wrap.
use direct_xshader_patcher.Base.{
  ℕ, zero, suc, ◌+◌, ◌-◌, min, List, true, false, not, ◌&&◌, ◌||◌, ltb, leb, ◌==◌, Option, none,
  some, Result, ok, err, ◌>>=◌, if◌then◌else◌, bit_and,
}
use direct_xshader_patcher.Sm5.Tokens.{TokenError, parse_read_dword}
use direct_xshader_patcher.Sm5.Operands.{
  IndexRepresentation, immediate32, immediate64, relative, immediate32_plus_relative,
  immediate64_plus_relative, Operand, operand, IndexEntries, no_entries, entry, RelativeOperand,
  not_relative, relative_to, Field, OperandFormat, OperandHead, operand_immediate32,
  component_mode_bits,
}

-- `Operand operand;`
abbrev pub default_operand : Operand
default_operand =
    operand
      (record {
        type = 0;
        num_components = 2;
        component_mode = 0;
        modifier = 0;
        source_offset = 0;
        source_length = 0;
      })
      no_entries not_relative

-- What a part of the parser reads, and where the cursor stands behind it.
pub record Parsed {ℓ} (A : Type ℓ) : Type ℓ where
  pub found : A
  pub cursor : ℕ

abbrev pub parsed {ℓ} : {A : Type ℓ} → A → ℕ → Parsed A
parsed found cursor = record { found = found; cursor = cursor }

-- `immediate_lo` and `immediate_hi`
abbrev pub Immediates : Type 0
Immediates = Option ℕ × Option ℕ

-- `Operand::Index`
pub record Index : Type 0 where
  pub representation : IndexRepresentation
  pub immediate_lo : Option ℕ
  pub immediate_hi : Option ℕ
  pub relative_operand : RelativeOperand

abbrev pub push : Index → IndexEntries → IndexEntries
push index entries =
    entry index.representation index.immediate_lo index.immediate_hi index.relative_operand entries

abbrev pub append_entries : IndexEntries → IndexEntries → IndexEntries
append_entries no_entries more = more
append_entries (entry representation lo hi inner entries) more =
    entry representation lo hi inner (append_entries entries more)

module _ (format : OperandFormat) (data_bytes : List ℕ) (total_dwords instruction_end : ℕ) where
  -- The tokens that an extended operand chains on, at most as many as the fuel.
  unfoldable pub skip_extended : ℕ → ℕ → ℕ → Result TokenError ℕ
  unfolding parse_read_dword
  skip_extended zero ext_token cursor = ok cursor
  skip_extended (suc fuel) ext_token cursor =
      elim (not (format.double_extended ext_token == 0) && ltb cursor instruction_end) [
        | false ↦ ok cursor
        | true ↦ do next ← parse_read_dword data_bytes cursor; skip_extended fuel next (cursor + 1)
      ]

  -- The modifier of the operand whose first token stands before the cursor.
  unfoldable pub parse_modifier : ℕ → ℕ → Result TokenError (Parsed ℕ)
  unfolding skip_extended parse_read_dword
  parse_modifier token0 cursor =
      elim (not (format.get Field.extended token0 == 0) && ltb cursor instruction_end) [
        | false ↦ ok (parsed 0 cursor)
        | true ↦ do
          ext_token ← parse_read_dword data_bytes cursor
          let modifier =
              if format.extended_type ext_token == 1 then format.decode_modifier ext_token else 0
          behind ← skip_extended (instruction_end - (cursor + 1)) ext_token (cursor + 1)
          ok (parsed modifier behind)
      ]

  -- The immediates before a relative operand.
  unfoldable pub parse_offset : IndexRepresentation → ℕ → Result TokenError (Parsed Immediates)
  unfolding parse_read_dword
  parse_offset immediate32_plus_relative cursor = do
    lo ← parse_read_dword data_bytes cursor
    ok (parsed (some lo, none) (cursor + 1))
  parse_offset immediate64_plus_relative cursor =
      if ltb (cursor + 1) instruction_end
      then (do
        lo ← parse_read_dword data_bytes cursor
        hi ← parse_read_dword data_bytes (cursor + 1)
        ok (parsed (some lo, some hi) (cursor + 2)))
      else ok (parsed (none, none) cursor)
  parse_offset _ cursor = ok (parsed (none, none) cursor)

  -- `immediate_count` immediates, or those before the end.
  unfoldable pub parse_immediates : ℕ → ℕ → Result TokenError (Parsed IndexEntries)
  unfolding parse_read_dword
  parse_immediates zero cursor = ok (parsed no_entries cursor)
  parse_immediates (suc count) cursor = elim (ltb cursor instruction_end) [
    | false ↦ ok (parsed no_entries cursor)
    | true ↦ do
      imm ← parse_read_dword data_bytes cursor
      rest ← parse_immediates count (cursor + 1)
      ok (parsed (entry immediate32 (some imm) none not_relative rest.found) rest.cursor)
  ]

  -- The representations with a relative operand, by their number.
  abbrev pub relative_representation : ℕ → Option IndexRepresentation
  relative_representation rep =
      if rep == 2
      then some relative
      else if rep == 3
      then some immediate32_plus_relative
      else if rep == 4
      then some immediate64_plus_relative
      else none

  -- `ParseOperand` calls itself for a relative operand: `parse` is that call.
  module _ (parse : ℕ → Result TokenError (Parsed Operand)) where
    unfoldable pub parse_relative : IndexRepresentation → ℕ → Result TokenError (Parsed Index)
    unfolding parse_offset
    parse_relative representation cursor = do
      offset ← parse_offset representation cursor
      rel ← parse offset.cursor
      let index : Index = record {
        representation = representation;
        immediate_lo = offset.found.0;
        immediate_hi = offset.found.1;
        relative_operand = relative_to rel.found;
      }
      ok (parsed index rel.cursor)

    -- One round of the loop over the dimensions.
    unfoldable pub parse_index : ℕ → ℕ → Result TokenError (Parsed Index)
    unfolding parse_relative parse_read_dword
    parse_index rep cursor =
        if rep == 0
        then (do
          imm ← parse_read_dword data_bytes cursor
          let index : Index = record {
            representation = immediate32;
            immediate_lo = some imm;
            immediate_hi = none;
            relative_operand = not_relative;
          }
          ok (parsed index (cursor + 1)))
        else if rep == 1 && ltb (cursor + 1) instruction_end
        then (do
          lo ← parse_read_dword data_bytes cursor
          hi ← parse_read_dword data_bytes (cursor + 1)
          let index : Index = record {
            representation = immediate64;
            immediate_lo = some lo;
            immediate_hi = some hi;
            relative_operand = not_relative;
          }
          ok (parsed index (cursor + 2)))
        else elim (relative_representation rep) [
          | some representation ↦ parse_relative representation cursor
          | none ↦ ok (
              parsed
                (record {
                  representation = immediate32;
                  immediate_lo = none;
                  immediate_hi = none;
                  relative_operand = not_relative;
                })
                cursor)
        ]

    -- The loop over the dimensions that are left.
    unfoldable pub parse_indices : ℕ → ℕ → ℕ → ℕ → Result TokenError (Parsed IndexEntries)
    unfolding parse_index
    parse_indices token0 zero dim cursor = ok (parsed no_entries cursor)
    parse_indices token0 (suc dims) dim cursor = elim (ltb cursor instruction_end) [
      | false ↦ ok (parsed no_entries cursor)
      | true ↦ do
        index ← parse_index (format.get (Field.index_representation dim) token0) cursor
        rest ← parse_indices token0 dims (suc dim) index.cursor
        ok (parsed (push index.found rest.found) rest.cursor)
    ]

  abbrev pub immediate_count : ℕ → ℕ → ℕ
  immediate_count kind components =
      if kind == operand_immediate32 then (if components == 1 then 1 else 4) else 0

  -- The fuel bounds how deep relative operands nest.
  unfoldable pub parse_operand : ℕ → ℕ → Result TokenError (Parsed Operand)
  unfolding parse_modifier parse_indices parse_immediates
  parse_operand zero start = err TokenError.out_of_fuel
  parse_operand (suc fuel) start = elim (leb total_dwords start || leb instruction_end start) [
    | true ↦ ok (parsed default_operand start)
    | false ↦ do
      token0 ← parse_read_dword data_bytes start
      let kind = format.get Field.type token0
      let components = format.get Field.num_components token0
      modifier ← parse_modifier token0 (start + 1)
      let dims = min (format.get Field.index_dimension token0) 3
      indices ← parse_indices (parse_operand fuel) token0 dims 0 modifier.cursor
      immediates ← parse_immediates (immediate_count kind components) indices.cursor
      let head : OperandHead = record {
        type = kind;
        num_components = components;
        component_mode = bit_and token0 component_mode_bits;
        modifier = modifier.found;
        source_offset = start;
        source_length = immediates.cursor - start;
      }
      let entries = append_entries indices.found immediates.found
      ok (parsed (operand head entries not_relative) immediates.cursor)
  ]
