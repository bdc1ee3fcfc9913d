-- ===== src/Sm5/Operands/Whole.antt =====
-- `ParseOperand` on an operand's own tokens, given its entries.
use direct_xshader_patcher.Base.{
  ℕ, suc, ◌+◌, ◌≤◌, List, length, length-append, true, false, ◌==◌, ok, if◌then◌else◌, ◌≡◌, refl,
  sym, ap, ap₂, subst, ◌∙◌, arith,
}
use direct_xshader_patcher.Sm5.Operands.{
  operand, IndexEntries, no_entries, OperandFormat, OperandHead, not_relative, is_immediate,
  operand_immediate32, entry_count, encode, encode_entries, encode_extension, encode_immediates,
  encode_operand_token0,
}
use direct_xshader_patcher.Sm5.Operands.Parse.{
  parsed, parse_immediates, parse_indices, parse_operand, immediate_count,
}
use direct_xshader_patcher.Sm5.Operands.Fields.{immediate-TokenReads}
use direct_xshader_patcher.Sm5.Operands.Layout.{HasLayout, HeadEncodable, TokenReads}
use direct_xshader_patcher.Sm5.Operands.Steps.{
  append_entries-none, parse_immediates-encoded, parse_operand-encoded,
}
use direct_xshader_patcher.Sm5.Operands.Entries.{
  encode-immediate, encode-register, located_entries-immediates,
}
use direct_xshader_patcher.Sm5.Operands.Encodable.{
  ImmediateEntries, placed, located, located_entries, Holds, Holds-left, Holds-right,
}

module _ (format : OperandFormat) (layout : HasLayout format) (data_bytes : List ℕ)
    (total_dwords instruction_end : ℕ) (whole : instruction_end ≤ total_dwords) where
  pub register-size :
      (head : OperandHead) (entries : IndexEntries)
      → is_immediate head.type ≡ false
      → length (encode format (operand head entries not_relative))
        ≡ suc (
            length (encode_extension format head.modifier) + length (encode_entries format entries))
  register-size head entries kind = omega (
    arith,
    ap length (encode-register format head entries kind),
    length-append (encode_extension format head.modifier) (encode_entries format entries),
  )

  no_immediate_read :
      (head : OperandHead) (cursor : ℕ)
      → is_immediate head.type ≡ false
      → parse_immediates format data_bytes total_dwords instruction_end
          (immediate_count format data_bytes total_dwords instruction_end head.type
            head.num_components)
          cursor
        ≡ ok (parsed no_entries cursor)
  unfolding parse_immediates
  no_immediate_read head cursor kind =
      let other : (head.type == operand_immediate32) ≡ false = ground arith in rw other refl

  pub register-step :
      (fuel start : ℕ) (head : OperandHead) (entries : IndexEntries)
      → HeadEncodable head
      → is_immediate head.type ≡ false
      → entry_count entries ≤ 3
      → TokenReads format head
          (entry_count entries)
          entries
          (encode_operand_token0 format (operand head entries not_relative))
      → Holds data_bytes start (encode format (operand head entries not_relative))
      → start + length (encode format (operand head entries not_relative)) ≤ instruction_end
      → parse_indices format data_bytes total_dwords instruction_end
          (parse_operand format data_bytes total_dwords instruction_end fuel)
          (encode_operand_token0 format (operand head entries not_relative))
          (entry_count entries)
          0
          (start + 1 + length (encode_extension format head.modifier))
        ≡ ok (
            parsed
              (located_entries format
                (start + 1 + length (encode_extension format head.modifier))
                entries)
              (start
                + 1
                + length (encode_extension format head.modifier)
                + length (encode_entries format entries)))
      → parse_operand format data_bytes total_dwords instruction_end (suc fuel) start
        ≡ ok (
            parsed
              (located format start (operand head entries not_relative))
              (start + length (encode format (operand head entries not_relative))))
  unfolding located parse_immediates
  register-step fuel start head entries fits kind few reads held inside inner =
      let ext = encode_extension format head.modifier in
      let behind = start + 1 + length ext in
      let shown = located_entries format behind entries in
      let cursor = behind + length (encode_entries format entries) in
      let size = register-size head entries kind in
      let all =
        subst (λ ts. Holds data_bytes start ts) (encode-register format head entries kind) held in
      let no_values : parse_immediates format data_bytes total_dwords instruction_end
            (immediate_count format data_bytes total_dwords instruction_end head.type
              head.num_components)
            cursor
          ≡ ok (parsed no_entries cursor) =
        no_immediate_read head cursor kind in
      parse_operand-encoded format layout data_bytes total_dwords instruction_end whole fuel start _
        (entry_count entries) head entries (parsed shown cursor) (parsed no_entries cursor) reads
        fits few (omega (arith, inside, size)) all.0
        (Holds-left data_bytes (start + 1) ext (encode_entries format entries) all.1)
        (omega (arith, inside, size)) inner no_values
      ∙ rw (append_entries-none shown) (
          ap₂ (λ n c. ok (parsed (operand (placed format head start n) shown not_relative) c))
            (omega (arith, size)) (omega (arith, size)))

  pub immediate-step :
      (fuel start : ℕ) (head : OperandHead) (entries : IndexEntries)
      → HeadEncodable head
      → head.type ≡ operand_immediate32
      → entry_count entries ≡ (if head.num_components == 1 then 1 else 4)
      → ImmediateEntries entries
      → Holds data_bytes start (encode format (operand head entries not_relative))
      → start + length (encode format (operand head entries not_relative)) ≤ instruction_end
      → parse_operand format data_bytes total_dwords instruction_end (suc fuel) start
        ≡ ok (
            parsed
              (located format start (operand head entries not_relative))
              (start + length (encode format (operand head entries not_relative))))
  unfolding located parse_indices
  immediate-step fuel start head entries fits kind few more held inside =
      let ext = encode_extension format head.modifier in
      let words = encode_immediates format entries in
      let behind = start + 1 + length ext in
      let immediate_kind : is_immediate head.type ≡ true = ground (arith, kind) in
      let code = encode-immediate format head entries immediate_kind in
      let all = subst (λ ts. Holds data_bytes start ts) code held in
      let size : length (encode format (operand head entries not_relative))
          ≡ suc (length ext + length words) =
        omega (arith, ap length code, length-append ext words) in
      let count : immediate_count format data_bytes total_dwords instruction_end head.type
            head.num_components
          ≡ entry_count entries =
        rw (kind, sym few) refl in
      let values =
        parse_immediates-encoded format layout data_bytes total_dwords instruction_end whole entries
          behind more (Holds-right data_bytes (start + 1) ext words all.1)
          (omega (arith, inside, size)) in
      parse_operand-encoded format layout data_bytes total_dwords instruction_end whole fuel start _
        0 head no_entries (parsed no_entries behind) (parsed entries (behind + length words))
        (immediate-TokenReads format layout head entries fits immediate_kind) fits (omega arith)
        (omega (arith, inside, size)) all.0 (Holds-left data_bytes (start + 1) ext words all.1)
        (omega (arith, inside, size)) refl (rw count values)
      ∙ rw (located_entries-immediates format entries (start + 1 + length ext) more) (
          ap₂ (λ n c. ok (parsed (operand (placed format head start n) entries not_relative) c))
            (omega (arith, size)) (omega (arith, size)))
