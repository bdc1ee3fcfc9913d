-- ===== src/Sm5/Operands/RoundTrip.antt =====
-- `ParseOperand` on the tokens that `Operand::Encode` writes.
use direct_xshader_patcher.Base.{
  ℕ, zero, suc, ◌+◌, ◌≤◌, List, [], length, length-append, none, some, ok, ◌≡◌, ap, subst, ◌∙◌,
  arith,
}
use direct_xshader_patcher.Sm5.Operands.{
  immediate32, immediate64, relative, immediate32_plus_relative, Operand, IndexEntries, no_entries,
  OperandFormat, not_relative, relative_to, entry_count, encode, encode_entries, encode_extension,
}
use direct_xshader_patcher.Sm5.Operands.Parse.{parsed, parse_indices, parse_operand}
use direct_xshader_patcher.Sm5.Operands.Fields.{register-TokenReads}
use direct_xshader_patcher.Sm5.Operands.Layout.{HasLayout, Announced}
use direct_xshader_patcher.Sm5.Operands.Entries.{
  encode-register, encode-positive, indices-step, index_word, index_words, index_register,
  index_offset,
}
use direct_xshader_patcher.Sm5.Operands.Encodable.{
  Encodable, immediates, registers, EntriesEncodable, no_indices, one_word, two_words, register,
  offset_register, EntriesEncodable-AllNarrow, located, located_entries, Holds, Holds-left,
  Holds-right,
}
use direct_xshader_patcher.Sm5.Operands.Whole.{register-size, register-step, immediate-step}

module _ (format : OperandFormat) (layout : HasLayout format) (data_bytes : List ℕ)
    (total_dwords instruction_end : ℕ) (whole : instruction_end ≤ total_dwords) where
  mutual
    unfolding encode located parse_indices

    entries-parsed :
        (fuel token0 dim at : ℕ) (entries : IndexEntries)
        → EntriesEncodable entries
        → Announced format token0 dim entries
        → Holds data_bytes at (encode_entries format entries)
        → at + length (encode_entries format entries) ≤ instruction_end
        → length (encode_entries format entries) ≤ fuel
        → parse_indices format data_bytes total_dwords instruction_end
            (parse_operand format data_bytes total_dwords instruction_end fuel)
            token0
            (entry_count entries)
            dim
            at
          ≡ ok (
              parsed
                (located_entries format at entries)
                (at + length (encode_entries format entries)))
    entries-parsed fuel token0 dim at _ no_indices shown held inside enough =
        let e : at ≡ at + length {A = ℕ} [] = omega arith in ap (λ c. ok (parsed no_entries c)) e
    entries-parsed fuel token0 dim at _ (one_word lo entries fits more) shown held inside enough =
        indices-step format layout data_bytes total_dwords instruction_end whole fuel token0 dim at
          (at + 1) immediate32 (some lo) none not_relative entries (omega arith)
          (omega (arith, inside))
          (index_word format layout data_bytes total_dwords instruction_end whole _ _ at lo shown.0
            held.0)
          (entries-parsed fuel token0 (suc dim) (at + 1) entries more shown.1 held.1
            (omega (arith, inside)) (omega (arith, enough)))
    entries-parsed fuel token0 dim at _ (two_words lo hi entries fits fits₂ more) shown held inside
          enough =
        let e : at + 1 + 1 ≡ at + 2 = omega arith in
        indices-step format layout data_bytes total_dwords instruction_end whole fuel token0 dim at
          (at + 2) immediate64 (some lo) (some hi) not_relative entries (omega arith)
          (omega (arith, inside))
          (index_words format layout data_bytes total_dwords instruction_end whole _ _ at lo hi
            shown.0 (omega (arith, inside)) held.0 held.1.0)
          (entries-parsed fuel token0 (suc dim) (at + 2) entries more shown.1
            (subst (λ n. Holds data_bytes n (encode_entries format entries)) e held.1.1)
            (omega (arith, inside)) (omega (arith, enough)))
    entries-parsed fuel token0 dim at _ (register inner entries fits more) shown held inside
          enough =
        let code = encode format inner in
        let behind = encode_entries format entries in
        let size = length-append code behind in
        let start = encode-positive format inner in
        let own =
          operand-parsed fuel at inner fits (Holds-left data_bytes at code behind held)
            (omega (arith, inside, size)) (omega (arith, enough, size)) in
        let e : at ≡ at + length {A = ℕ} [] = omega arith in
        indices-step format layout data_bytes total_dwords instruction_end whole fuel token0 dim at
          (at + length code) relative none none (relative_to inner) entries (omega arith)
          (omega (arith, inside, size, start))
          (index_register format layout data_bytes total_dwords instruction_end whole _ _ at _
            shown.0 (own ∙ ap (λ n. ok (parsed (located format n inner) (at + length code))) e))
          (entries-parsed fuel token0 (suc dim) (at + length code) entries more shown.1
            (Holds-right data_bytes at code behind held) (omega (arith, inside, size))
            (omega (arith, enough, size)))
    entries-parsed fuel token0 dim at _ (offset_register lo inner entries few fits more) shown held
          inside enough =
        let code = encode format inner in
        let behind = encode_entries format entries in
        let size = length-append code behind in
        let own =
          operand-parsed fuel (at + 1) inner fits
            (Holds-left data_bytes (at + 1) code behind held.1) (omega (arith, inside, size))
            (omega (arith, enough, size)) in
        indices-step format layout data_bytes total_dwords instruction_end whole fuel token0 dim at
          (at + 1 + length code) immediate32_plus_relative (some lo) none (relative_to inner)
          entries (omega arith) (omega (arith, inside, size))
          (index_offset format layout data_bytes total_dwords instruction_end whole _ _ at lo _
            shown.0 held.0 own)
          (entries-parsed fuel token0 (suc dim) (at + 1 + length code) entries more shown.1
            (Holds-right data_bytes (at + 1) code behind held.1) (omega (arith, inside, size))
            (omega (arith, enough, size)))

    operand-parsed :
        (fuel start : ℕ) (op : Operand)
        → Encodable op
        → Holds data_bytes start (encode format op)
        → start + length (encode format op) ≤ instruction_end
        → length (encode format op) ≤ fuel
        → parse_operand format data_bytes total_dwords instruction_end fuel start
          ≡ ok (parsed (located format start op) (start + length (encode format op)))
    operand-parsed zero start op fits held inside enough =
        absurd (omega (arith, encode-positive format op, enough))
    operand-parsed (suc fuel) start _ (registers head entries fits kind few more) held inside
          enough =
        let ext = encode_extension format head.modifier in
        let indices = encode_entries format entries in
        let size =
          register-size format layout data_bytes total_dwords instruction_end whole head entries
            kind in
        let all =
          subst (λ ts. Holds data_bytes start ts) (encode-register format head entries kind) held in
        let reads =
          register-TokenReads format layout head entries fits kind
            (EntriesEncodable-AllNarrow entries more) few in
        register-step format layout data_bytes total_dwords instruction_end whole fuel start head
          entries fits kind few reads held inside
          (entries-parsed fuel _ 0 (start + 1 + length ext) entries more reads.announced
            (Holds-right data_bytes (start + 1) ext indices all.1) (omega (arith, inside, size))
            (omega (arith, enough, size)))
    operand-parsed (suc fuel) start _ (immediates head entries fits kind few more) held inside
          enough =
        immediate-step format layout data_bytes total_dwords instruction_end whole fuel start head
          entries fits kind few more held inside

-- What `Operand::Encode` writes, `ParseOperand` reads back as the operand, with the places of the
-- tokens and with the cursor behind them, when the tokens stand in the instruction and the fuel is
-- not less than their number. The operand is one that the format has a place for.
pub parse_operand-encode :
    (format : OperandFormat) (data_bytes : List ℕ) (total_dwords instruction_end fuel start : ℕ)
    (op : Operand)
    → HasLayout format
    → Encodable op
    → Holds data_bytes start (encode format op)
    → start + length (encode format op) ≤ instruction_end
    → instruction_end ≤ total_dwords
    → length (encode format op) ≤ fuel
    → parse_operand format data_bytes total_dwords instruction_end fuel start
      ≡ ok (parsed (located format start op) (start + length (encode format op)))
parse_operand-encode format data_bytes total_dwords instruction_end fuel start op layout fits held
      inside whole enough =
    operand-parsed format layout data_bytes total_dwords instruction_end whole fuel start op fits
      held inside enough
