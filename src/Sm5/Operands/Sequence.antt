-- ===== src/Sm5/Operands/Sequence.antt =====
-- The operands of an instruction: the loops of `ParseProgramImpl` of src/dxp/sm5/ShaderProgram.cpp
-- over the extended opcode tokens and over the operands behind them.
use direct_xshader_patcher.Base.{
  ℕ, zero, suc, ◌+◌, ◌-◌, ◌≤◌, List, [], ◌∷◌, ◌++◌, Bool, ◌||◌, true, false, ltb, leb, ◌==◌, Result,
  ok, err, ◌>>=◌, if◌then◌else◌, ◌≡◌,
}
use direct_xshader_patcher.Sm5.Tokens.{TokenError, parse_read_dword}
use direct_xshader_patcher.Sm5.Operands.{
  Operand, OperandFormat, encode, source_offset_of, source_length_of,
}
use direct_xshader_patcher.Sm5.Operands.Parse.{Parsed, parsed, parse_operand}

-- `DECODE_IS_D3D10_SB_OPCODE_EXTENDED` is the parameter.
module _ (is_extended : ℕ → Bool) (data_bytes : List ℕ) where
  -- The tokens from `at` up to the end that chain on, at most as many as the fuel.
  unfoldable pub extended_opcode_count : ℕ → ℕ → ℕ → Result TokenError ℕ
  unfolding parse_read_dword
  extended_opcode_count zero at end_of = ok 0
  extended_opcode_count (suc fuel) at end_of = elim (ltb at end_of) [
    | false ↦ ok 0
    | true ↦ do
      ext ← parse_read_dword data_bytes at
      elim (is_extended ext) [
        | false ↦ ok 1
        | true ↦ do rest ← extended_opcode_count fuel (at + 1) end_of; ok (suc rest)
      ]
  ]

module _ (format : OperandFormat) (data_bytes : List ℕ) (total_dwords instruction_end : ℕ) where
  -- An operand that takes no token ends the loop.
  unfoldable pub parse_operands : ℕ → ℕ → Result TokenError (Parsed (List Operand))
  unfolding parse_operand
  parse_operands zero cursor =
      if ltb cursor instruction_end then err TokenError.out_of_fuel else ok (parsed [] cursor)
  parse_operands (suc fuel) cursor = elim (ltb cursor instruction_end) [
    | false ↦ ok (parsed [] cursor)
    | true ↦ do
      op ←
          parse_operand format data_bytes total_dwords instruction_end
            (suc (instruction_end - cursor)) cursor
      elim (source_length_of op.found == 0 || leb op.cursor cursor) [
        | true ↦ ok (parsed [] op.cursor)
        | false ↦ do
          rest ← parse_operands fuel op.cursor
          ok (parsed (op.found ∷ rest.found) rest.cursor)
      ]
  ]

-- The operands stand one behind another, each with a token at least.
abbrev pub Consecutive : ℕ → List Operand → ℕ → Type 0
Consecutive at [] end_of = at ≡ end_of
Consecutive at (op ∷ ops) end_of =
    (source_offset_of op ≡ at)
    × (1 ≤ source_length_of op)
    × Consecutive (at + source_length_of op) ops end_of

-- What `Instruction::Encode` writes for the operands.
abbrev pub encode_operands : OperandFormat → List Operand → List ℕ
encode_operands format [] = []
encode_operands format (op ∷ ops) = encode format op ++ encode_operands format ops
