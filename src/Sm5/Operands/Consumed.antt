-- ===== src/Sm5/Operands/Consumed.antt =====
-- The operands that an instruction is parsed into cover it.
use direct_xshader_patcher.Base.{
  ℕ, zero, suc, ◌-◌, ◌*◌, ◌^◌, ◌≤◌, ◌<◌, List, [], ◌∷◌, length, Bool-cases, true, false, ◌||◌, ltb,
  leb, ◌==◌, ok, ◌>>=◌, ◌≡◌, refl, ap, subst, inl, inr, arith,
}
use direct_xshader_patcher.Sm5.Operands.{Operand, OperandFormat, source_length_of}
use direct_xshader_patcher.Sm5.Operands.Parse.{Parsed, parsed, parse_operand}
use direct_xshader_patcher.Sm5.Operands.Bounds.{parse_operand-finishes}
use direct_xshader_patcher.Sm5.Operands.Finishes.{Placed}
use direct_xshader_patcher.Sm5.Operands.Sequence.{parse_operands, Consecutive}

module _ (format : OperandFormat) (data_bytes : List ℕ) (total_dwords instruction_end : ℕ)
    (held : total_dwords * 4 ≤ length data_bytes) (small : total_dwords ≤ 2 ^ 30)
    (whole : instruction_end ≤ total_dwords) where
  operands_step :
      (fuel cursor : ℕ) (op : Parsed Operand) (ops : List Operand)
      → cursor < instruction_end
      → parse_operand format data_bytes total_dwords instruction_end
          (suc (instruction_end - cursor))
          cursor
        ≡ ok op
      → Placed cursor op
      → parse_operands format data_bytes total_dwords instruction_end fuel op.cursor
        ≡ ok (parsed ops instruction_end)
      → parse_operands format data_bytes total_dwords instruction_end (suc fuel) cursor
        ≡ ok (parsed (op.found ∷ ops) instruction_end)
  unfolding parse_operands
  operands_step fuel cursor op ops inside e place rest =
      let left : ltb cursor instruction_end ≡ true = ground arith in
      let more : (source_length_of op.found == 0 || leb op.cursor cursor) ≡ false =
        ground (arith, place) in
      rw (left, parse_operands) (rw (e, ◌>>=◌) (rw more (rw (rest, ◌>>=◌) refl)))

  operands_consumed :
      (fuel cursor : ℕ)
      → cursor ≤ instruction_end
      → instruction_end - cursor ≤ fuel
      → (ops : List Operand) × (parse_operands format data_bytes total_dwords instruction_end fuel
            cursor
          ≡ ok (parsed ops instruction_end))
        × Consecutive cursor ops instruction_end
  unfolding parse_operands
  operands_consumed zero cursor inside enough =
      let last : cursor ≡ instruction_end = omega arith in
      let none_left : ltb cursor instruction_end ≡ false = ground arith in
      ([], rw none_left (ap (λ c. ok (parsed [] c)) last), last)
  operands_consumed (suc fuel) cursor inside enough =
      elim (Bool-cases (ltb cursor instruction_end)) [
        | inr none_left ↦
            let last : cursor ≡ instruction_end = ground arith in
            ([], rw (none_left, parse_operands) (ap (λ c. ok (parsed [] c)) last), last)
        | inl left ↦
            let (op, e, forward, stop, placed) =
              parse_operand-finishes format data_bytes total_dwords instruction_end cursor held
                small whole inside in
            let place = placed (ground arith) in
            let (ops, rest, consecutive) =
              operands_consumed fuel op.cursor stop (omega (arith, place.0, enough)) in
            (
              op.found ∷ ops,
              operands_step fuel cursor op ops (ground arith) e place rest,
              (
                place.1,
                omega (arith, place),
                subst (λ c. Consecutive c ops instruction_end) (omega (arith, place)) consecutive,
              ),
            )
      ]

-- The operands of an instruction are parsed to its end, and cover it without a gap: each starts
-- where the one before it ends, and the last one ends with the instruction. The instruction is
-- inside the shader, whose tokens the bytes hold.
pub parse_operands-consumes :
    (format : OperandFormat) (data_bytes : List ℕ) (total_dwords instruction_end start : ℕ)
    → total_dwords * 4 ≤ length data_bytes
    → total_dwords ≤ 2 ^ 30
    → instruction_end ≤ total_dwords
    → start ≤ instruction_end
    → (ops : List Operand) × (parse_operands format data_bytes total_dwords instruction_end
          (instruction_end - start)
          start
        ≡ ok (parsed ops instruction_end))
      × Consecutive start ops instruction_end
parse_operands-consumes format data_bytes total_dwords instruction_end start held small whole
      inside =
    operands_consumed format data_bytes total_dwords instruction_end held small whole
      (instruction_end - start) start inside (omega arith)
