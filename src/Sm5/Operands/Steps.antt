-- ===== src/Sm5/Operands/Steps.antt =====
-- The parts of `ParseOperand` on the tokens that the parts of `Operand::Encode` write.
use direct_xshader_patcher.Base.{
  ℕ, zero, suc, ◌+◌, ◌-◌, ◌^◌, ◌≤◌, ◌<◌, min, List, [], ◌∷◌, length, Bool, true, false, ◌||◌, ltb,
  leb, ◌==◌, none, some, ok, ◌>>=◌, if◌then◌else◌, bit_and, ◌≡◌, refl, ap, ◌∙◌, arith,
}
use direct_xshader_patcher.Sm5.Tokens.{parse_read_dword}
use direct_xshader_patcher.Sm5.Operands.{
  immediate32, operand, IndexEntries, no_entries, entry, OperandFormat, OperandHead, not_relative,
  Field, index_dimension, extended, entry_count, encode_extension, encode_immediates,
}
use direct_xshader_patcher.Sm5.Operands.Parse.{
  Parsed, parsed, append_entries, skip_extended, parse_modifier, parse_immediates, parse_indices,
  parse_operand, immediate_count,
}
use direct_xshader_patcher.Sm5.Operands.Layout.{HasLayout, HeadEncodable, TokenReads}
use direct_xshader_patcher.Sm5.Operands.Encodable.{
  ImmediateEntries, no_immediates, immediate, placed, Holds,
}

pub append_entries-none : (entries : IndexEntries) → append_entries entries no_entries ≡ entries
append_entries-none no_entries = refl
append_entries-none (entry r lo hi inner entries) =
    ap (entry r lo hi inner) (append_entries-none entries)

module _ (format : OperandFormat) (layout : HasLayout format) (data_bytes : List ℕ)
    (total_dwords instruction_end : ℕ) (whole : instruction_end ≤ total_dwords) where
  skip_extended-last :
      (fuel ext_token cursor : ℕ)
      → format.double_extended ext_token ≡ 0
      → skip_extended format data_bytes total_dwords instruction_end fuel ext_token cursor
        ≡ ok cursor
  unfolding skip_extended
  skip_extended-last zero ext_token cursor last = refl
  skip_extended-last (suc fuel) ext_token cursor last = rw (last, skip_extended) refl

  -- The test for a modifier apart.
  parse_modifier-split :
      (plain : Bool) (modifier token0 at : ℕ)
      → (plain ≡ true → modifier ≡ 0)
      → format.get extended token0 ≡ (if plain then 0 else 1)
      → modifier < 2 ^ 8
      → Holds data_bytes at (if plain then [] else format.encode_modifier modifier ∷ [])
      → at + length (if plain then [] else format.encode_modifier modifier ∷ []) ≤ instruction_end
      → parse_modifier format data_bytes total_dwords instruction_end token0 at
        ≡ ok (
            parsed modifier
              (at + length (if plain then [] else format.encode_modifier modifier ∷ [])))
  unfolding parse_modifier
  parse_modifier-split true modifier token0 at none_there e fits held inside =
      let same : at ≡ at + length {A = ℕ} [] = omega arith in
      rw (e, parse_modifier) (rw (none_there refl) (ap (λ c. ok (parsed 0 c)) same))
  parse_modifier-split false modifier token0 at none_there e fits held inside =
      let left : ltb at instruction_end ≡ true = ground (arith, inside) in
      let token = format.encode_modifier modifier in
      let last =
        skip_extended-last (instruction_end - (at + 1)) token (at + 1)
          (layout.modifier_ends modifier) in
      rw (e, parse_modifier)
        (rw left (
          rw (held.0, ◌>>=◌)
            (rw (last, ◌>>=◌)
              (rw (layout.modifier_kind modifier, ◌==◌)
                (ap (λ n. ok (parsed n (at + 1))) (layout.modifier_kept modifier fits))))))

  -- Without a modifier the operand is not extended.
  parse_modifier-encoded :
      (modifier token0 at : ℕ)
      → format.get extended token0 ≡ (if modifier == 0 then 0 else 1)
      → modifier < 2 ^ 8
      → Holds data_bytes at (encode_extension format modifier)
      → at + length (encode_extension format modifier) ≤ instruction_end
      → parse_modifier format data_bytes total_dwords instruction_end token0 at
        ≡ ok (parsed modifier (at + length (encode_extension format modifier)))
  parse_modifier-encoded modifier token0 at =
      parse_modifier-split (modifier == 0) modifier token0 at (λ h. ground arith)

  pub parse_immediates-encoded :
      (entries : IndexEntries) (at : ℕ)
      → ImmediateEntries entries
      → Holds data_bytes at (encode_immediates format entries)
      → at + length (encode_immediates format entries) ≤ instruction_end
      → parse_immediates format data_bytes total_dwords instruction_end (entry_count entries) at
        ≡ ok (parsed entries (at + length (encode_immediates format entries)))
  unfolding parse_immediates
  parse_immediates-encoded _ at no_immediates held inside =
      let e : at ≡ at + length {A = ℕ} [] = omega arith in ap (λ c. ok (parsed no_entries c)) e
  parse_immediates-encoded _ at (immediate lo entries fits more) held inside =
      let left : ltb at instruction_end ≡ true = ground arith in
      let rest = parse_immediates-encoded entries (at + 1) more held.1 (omega (arith, inside)) in
      let e : at + 1 + length (encode_immediates format entries)
          ≡ at + suc (length (encode_immediates format entries)) =
        omega arith in
      rw (left, parse_immediates)
        (rw (held.0, ◌>>=◌)
          (rw (rest, ◌>>=◌)
            (ap (λ c. ok (parsed (entry immediate32 (some lo) none not_relative entries) c)) e)))

  -- The parser's steps in one equation.
  parse_operand-found :
      (fuel start token0 : ℕ) (modifier : Parsed ℕ) (indices values : Parsed IndexEntries)
      → (leb total_dwords start || leb instruction_end start) ≡ false
      → parse_read_dword data_bytes start ≡ ok token0
      → parse_modifier format data_bytes total_dwords instruction_end token0 (start + 1)
        ≡ ok modifier
      → parse_indices format data_bytes total_dwords instruction_end
          (parse_operand format data_bytes total_dwords instruction_end fuel)
          token0
          (min (format.get index_dimension token0) 3)
          0
          modifier.cursor
        ≡ ok indices
      → parse_immediates format data_bytes total_dwords instruction_end
          (immediate_count format data_bytes total_dwords instruction_end
            (format.get Field.type token0)
            (format.get Field.num_components token0))
          indices.cursor
        ≡ ok values
      → parse_operand format data_bytes total_dwords instruction_end (suc fuel) start
        ≡ ok (
            parsed
              (operand
                (record {
                  type = format.get Field.type token0;
                  num_components = format.get Field.num_components token0;
                  component_mode = bit_and token0 0xFFC;
                  modifier = modifier.found;
                  source_offset = start;
                  source_length = values.cursor - start;
                })
                (append_entries indices.found values.found)
                not_relative)
              values.cursor)
  unfolding parse_operand
  parse_operand-found fuel start token0 modifier indices values left a b c d =
      rw (left, parse_operand) (rw (a, ◌>>=◌) (rw (b, ◌>>=◌) (rw (c, ◌>>=◌) (rw (d, ◌>>=◌) refl))))

  -- The same with what the token's fields read.
  pub parse_operand-encoded :
      (fuel start token0 dims : ℕ) (head : OperandHead) (shown : IndexEntries)
      (indices values : Parsed IndexEntries)
      → TokenReads format head dims shown token0
      → HeadEncodable head
      → dims ≤ 3
      → start < instruction_end
      → parse_read_dword data_bytes start ≡ ok token0
      → Holds data_bytes (start + 1) (encode_extension format head.modifier)
      → start + 1 + length (encode_extension format head.modifier) ≤ instruction_end
      → parse_indices format data_bytes total_dwords instruction_end
          (parse_operand format data_bytes total_dwords instruction_end fuel)
          token0
          dims
          0
          (start + 1 + length (encode_extension format head.modifier))
        ≡ ok indices
      → parse_immediates format data_bytes total_dwords instruction_end
          (immediate_count format data_bytes total_dwords instruction_end head.type
            head.num_components)
          indices.cursor
        ≡ ok values
      → parse_operand format data_bytes total_dwords instruction_end (suc fuel) start
        ≡ ok (
            parsed
              (operand
                (placed format head start (values.cursor - start))
                (append_entries indices.found values.found)
                not_relative)
              values.cursor)
  parse_operand-encoded fuel start token0 dims head shown indices values reads fits few inside a
        held room c d =
      let left : (leb total_dwords start || leb instruction_end start) ≡ false = ground arith in
      let dims_kept : min (format.get index_dimension token0) 3 ≡ dims =
        omega (arith, reads.dims_read, few) in
      let modifier =
        parse_modifier-encoded head.modifier token0 (start + 1) reads.extended_read
          fits.modifier_fits held room in
      parse_operand-found fuel start token0 _ indices values left a modifier (rw dims_kept c)
        (rw (reads.type_read, reads.components_read) d)
      ∙ rw (reads.type_read, reads.components_read, reads.mode_read) refl
