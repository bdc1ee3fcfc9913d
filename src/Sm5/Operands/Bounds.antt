-- ===== src/Sm5/Operands/Bounds.antt =====
-- `ParseOperand` returns, without a read outside of the tokens and with its cursor inside the
-- instruction.
use direct_xshader_patcher.Base.{
  ℕ, zero, suc, ◌+◌, ◌-◌, ◌*◌, ◌^◌, ◌≤◌, ◌<◌, min, List, length, Bool-cases, ◌&&◌, ◌||◌, ltb, leb,
  ◌==◌, Option-cases, Result, ok, inl, inr, ◌≡◌, refl, arith,
}
use direct_xshader_patcher.Sm5.Tokens.{TokenError, parse_read_dword}
use direct_xshader_patcher.Sm5.Operands.{IndexRepresentation, Operand, OperandFormat, Field}
use direct_xshader_patcher.Sm5.Operands.Parse.{
  Parsed, parse_modifier, parse_offset, parse_immediates, parse_relative, parse_index,
  parse_indices, parse_operand, immediate_count, relative_representation,
}
use direct_xshader_patcher.Sm5.Operands.Finishes.{
  Finishes, bind-Finishes, Placed, map-Finishes, found-Finishes, inner_read-Finishes,
  parse_modifier-Finishes, parse_offset-Finishes, parse_immediates-Finishes, Reached, ReachedBy,
}

module _ (format : OperandFormat) (data_bytes : List ℕ) (total_dwords instruction_end : ℕ)
    (held : total_dwords * 4 ≤ length data_bytes) (small : total_dwords ≤ 2 ^ 30)
    (whole : instruction_end ≤ total_dwords) where
  module _ (parse : ℕ → Result TokenError (Parsed Operand)) (start : ℕ)
      (parses : (at : ℕ)
        → Reached format data_bytes total_dwords instruction_end held small whole start at
        → Finishes
            (parse at)
            (ReachedBy format data_bytes total_dwords instruction_end held small whole at)) where
    parse_relative-Finishes :
        (representation : IndexRepresentation) (cursor : ℕ)
        → Reached format data_bytes total_dwords instruction_end held small whole start cursor
        → cursor < instruction_end
        → Finishes
            (parse_relative format data_bytes total_dwords instruction_end parse representation
              cursor)
            (ReachedBy format data_bytes total_dwords instruction_end held small whole start)
    unfolding parse_relative
    parse_relative-Finishes representation cursor here inside =
        bind-Finishes
          (parse_offset format data_bytes total_dwords instruction_end representation cursor) _
          (ReachedBy format data_bytes total_dwords instruction_end held small whole cursor)
          (ReachedBy format data_bytes total_dwords instruction_end held small whole start)
          (parse_offset-Finishes format data_bytes total_dwords instruction_end held small whole
            representation cursor inside)
          (λ offset h.
            bind-Finishes (parse offset.cursor) _
              (ReachedBy format data_bytes total_dwords instruction_end held small whole
                offset.cursor)
              (ReachedBy format data_bytes total_dwords instruction_end held small whole start)
              (parses offset.cursor (omega (arith, here, h), h.1))
              (λ rel k. (omega (arith, here, h, k), k.1)))

    parse_index-Finishes :
        (rep cursor : ℕ)
        → Reached format data_bytes total_dwords instruction_end held small whole start cursor
        → cursor < instruction_end
        → Finishes
            (parse_index format data_bytes total_dwords instruction_end parse rep cursor)
            (ReachedBy format data_bytes total_dwords instruction_end held small whole start)
    unfolding parse_index
    parse_index-Finishes rep cursor here inside = elim (Bool-cases (rep == 0)) [
      | inl one ↦ rw one (
          bind-Finishes (parse_read_dword data_bytes cursor) _ (λ _. Unit)
            (ReachedBy format data_bytes total_dwords instruction_end held small whole start)
            (inner_read-Finishes format data_bytes total_dwords instruction_end held small whole
              cursor inside)
            (λ imm _. (omega (arith, here), omega arith)))
      | inr other ↦ rw other (elim (Bool-cases (rep == 1 && ltb (cursor + 1) instruction_end)) [
        | inl both ↦ rw both (
            bind-Finishes (parse_read_dword data_bytes cursor) _ (λ _. Unit)
              (ReachedBy format data_bytes total_dwords instruction_end held small whole start)
              (inner_read-Finishes format data_bytes total_dwords instruction_end held small whole
                cursor inside)
              (λ lo _.
                bind-Finishes (parse_read_dword data_bytes (cursor + 1)) _ (λ _. Unit)
                  (ReachedBy format data_bytes total_dwords instruction_end held small whole start)
                  (inner_read-Finishes format data_bytes total_dwords instruction_end held small
                    whole (cursor + 1) (ground arith))
                  (λ hi _. (omega (arith, here), ground arith))))
        | inr rest ↦
            rw rest
              (elim (Option-cases
                (relative_representation format data_bytes total_dwords instruction_end rep)) [
                  | inl unknown ↦ rw unknown here
                  | inr (representation, known) ↦
                      rw known (parse_relative-Finishes representation cursor here inside)
                ])
      ])
    ]

    parse_indices-Finishes :
        (token0 dims dim cursor : ℕ)
        → Reached format data_bytes total_dwords instruction_end held small whole start cursor
        → Finishes
            (parse_indices format data_bytes total_dwords instruction_end parse token0 dims dim
              cursor)
            (ReachedBy format data_bytes total_dwords instruction_end held small whole start)
    unfolding parse_indices
    parse_indices-Finishes token0 zero dim cursor here = here
    parse_indices-Finishes token0 (suc dims) dim cursor here =
        elim (Bool-cases (ltb cursor instruction_end)) [
          | inl more ↦
              rw (more, parse_indices)
                (let rep = format.get (Field.index_representation dim) token0 in
                  bind-Finishes
                    (parse_index format data_bytes total_dwords instruction_end parse rep cursor) _
                    (ReachedBy format data_bytes total_dwords instruction_end held small whole
                      start)
                    (ReachedBy format data_bytes total_dwords instruction_end held small whole
                      start)
                    (parse_index-Finishes rep cursor here (ground arith))
                    (λ index h.
                      bind-Finishes
                        (parse_indices format data_bytes total_dwords instruction_end parse token0
                          dims (suc dim) index.cursor)
                        _
                        (ReachedBy format data_bytes total_dwords instruction_end held small whole
                          start)
                        (ReachedBy format data_bytes total_dwords instruction_end held small whole
                          start)
                        (parse_indices-Finishes token0 dims (suc dim) index.cursor h)
                        (λ rest k. k)))
          | inr last ↦ rw (last, parse_indices) here
        ]

  -- An operand that starts inside the instruction takes a token at least, and knows its place.
  abbrev pub Advances : ℕ → Parsed Operand → Type 0
  Advances start p =
      Reached format data_bytes total_dwords instruction_end held small whole start p.cursor
      × (start < instruction_end → Placed start p)

  parse_operand-Advances :
      (fuel start : ℕ)
      → start ≤ instruction_end
      → instruction_end - start < fuel
      → Finishes
          (parse_operand format data_bytes total_dwords instruction_end fuel start)
          (Advances start)
  unfolding parse_operand
  parse_operand-Advances zero start inside enough = absurd (omega arith)
  parse_operand-Advances (suc fuel) start inside enough =
      elim (Bool-cases (leb total_dwords start || leb instruction_end start)) [
        | inl none_left ↦
            rw (none_left, parse_operand) ((omega arith, inside), λ more. absurd (ground arith))
        | inr some_left ↦
            rw (some_left, parse_operand)
              (let Q = Advances start in
                bind-Finishes (parse_read_dword data_bytes start) _ (λ _. Unit) Q
                  (inner_read-Finishes format data_bytes total_dwords instruction_end held small
                    whole start (ground arith))
                  (λ token0 _.
                    let kind = format.get Field.type token0 in
                    let components = format.get Field.num_components token0 in
                    let dims = min (format.get Field.index_dimension token0) 3 in
                    let count =
                      immediate_count format data_bytes total_dwords instruction_end kind
                        components in
                    let parse = parse_operand format data_bytes total_dwords instruction_end fuel in
                    bind-Finishes
                      (parse_modifier format data_bytes total_dwords instruction_end token0
                        (start + 1))
                      _
                      (ReachedBy format data_bytes total_dwords instruction_end held small whole
                        (start + 1))
                      Q
                      (parse_modifier-Finishes format data_bytes total_dwords instruction_end held
                        small whole token0 (start + 1) (ground arith))
                      (λ modifier h.
                        bind-Finishes
                          (parse_indices format data_bytes total_dwords instruction_end parse token0
                            dims 0 modifier.cursor)
                          _
                          (ReachedBy format data_bytes total_dwords instruction_end held small whole
                            (start + 1))
                          Q
                          (parse_indices-Finishes parse (start + 1)
                            (λ at here.
                              map-Finishes (parse at) (Advances at)
                                (ReachedBy format data_bytes total_dwords instruction_end held small
                                  whole at)
                                (parse_operand-Advances fuel at here.1 (ground arith)) (λ p l. l.0))
                            token0 dims 0 modifier.cursor h)
                          (λ indices k.
                            bind-Finishes
                              (parse_immediates format data_bytes total_dwords instruction_end count
                                indices.cursor)
                              _
                              (ReachedBy format data_bytes total_dwords instruction_end held small
                                whole (start + 1))
                              Q
                              (parse_immediates-Finishes format data_bytes total_dwords
                                instruction_end held small whole count (start + 1) indices.cursor k)
                              (λ immediates l.
                                ((omega (arith, l), l.1), λ _. (omega (arith, l), refl, refl)))))))
      ]

-- On an instruction inside the shader, whose tokens the bytes hold, `ParseOperand` returns: no read
-- leaves the bytes, relative operands nest less deep than the instruction has tokens, and the cursor
-- ends inside the instruction. Where a token was left it ends further on, and the operand has the
-- place of its tokens.
pub parse_operand-finishes :
    (format : OperandFormat) (data_bytes : List ℕ) (total_dwords instruction_end start : ℕ)
    → total_dwords * 4 ≤ length data_bytes
    → total_dwords ≤ 2 ^ 30
    → instruction_end ≤ total_dwords
    → start ≤ instruction_end
    → (p : Parsed Operand) × (parse_operand format data_bytes total_dwords instruction_end
          (suc (instruction_end - start))
          start
        ≡ ok p)
      × (start ≤ p.cursor)
      × (p.cursor ≤ instruction_end)
      × (start < instruction_end → Placed start p)
parse_operand-finishes format data_bytes total_dwords instruction_end start held small whole
      inside =
    let (p, e, h) = found-Finishes _ _ (
      parse_operand-Advances format data_bytes total_dwords instruction_end held small whole
        (suc (instruction_end - start)) start inside (omega arith)) in
    (p, e, h.0.0, h.0.1, h.1)
