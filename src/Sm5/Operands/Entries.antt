-- ===== src/Sm5/Operands/Entries.antt =====
-- What an operand and its entries encode to, and one round of the loop of `ParseOperand` on it.
use direct_xshader_patcher.Base.{
  ℕ, suc, ◌+◌, ◌≤◌, ◌<◌, List, [], ◌∷◌, ◌++◌, length, length-append, true, false, ltb, Option, none,
  some, Result, ok, ◌>>=◌, ◌≡◌, refl, ap, ap₂, append-nil, arith,
}
use direct_xshader_patcher.Sm5.Tokens.{TokenError, parse_read_dword}
use direct_xshader_patcher.Sm5.Operands.{
  IndexRepresentation, immediate32, immediate64, relative, immediate32_plus_relative, Operand,
  operand, IndexEntries, no_entries, entry, OperandFormat, OperandHead, RelativeOperand,
  not_relative, relative_to, index_representation, is_immediate, entry_count, encode,
  encode_entries, encode_entry, encode_relative, encode_extension, encode_immediates,
  encode_operand_token0, behind_entries,
}
use direct_xshader_patcher.Sm5.Operands.Parse.{
  Parsed, parsed, parse_offset, parse_relative, parse_index, parse_indices, parse_operand,
}
use direct_xshader_patcher.Sm5.Operands.Layout.{HasLayout}
use direct_xshader_patcher.Sm5.Operands.Encodable.{
  ImmediateEntries, no_immediates, immediate, located, located_entries, located_relative,
}

nothing_behind :
    (format : OperandFormat) (entries : IndexEntries) → behind_entries format entries [] ≡ []
nothing_behind format no_entries = refl
nothing_behind format (entry _ _ _ _ _) = refl

module _ (format : OperandFormat) where
  pub encode-immediate :
      (head : OperandHead) (entries : IndexEntries)
      → is_immediate head.type ≡ true
      → encode format (operand head entries not_relative)
        ≡ encode_operand_token0 format (operand head entries not_relative)
          ∷ (encode_extension format head.modifier ++ encode_immediates format entries)
  unfolding encode
  encode-immediate head entries kind =
      rw (kind, nothing_behind format entries, append-nil (encode_immediates format entries)) refl

  pub encode-register :
      (head : OperandHead) (entries : IndexEntries)
      → is_immediate head.type ≡ false
      → encode format (operand head entries not_relative)
        ≡ encode_operand_token0 format (operand head entries not_relative)
          ∷ (encode_extension format head.modifier ++ encode_entries format entries)
  unfolding encode
  encode-register head entries kind =
      rw (kind, nothing_behind format entries, append-nil (encode_entries format entries)) refl

  pub encode-positive : (op : Operand) → 1 ≤ length (encode format op)
  unfolding encode
  encode-positive (operand head _ outer) = omega arith

  -- Immediates have no place of their own.
  pub located_entries-immediates :
      (entries : IndexEntries) (at : ℕ)
      → ImmediateEntries entries
      → located_entries format at entries ≡ entries
  unfolding located
  located_entries-immediates _ at no_immediates = refl
  located_entries-immediates _ at (immediate lo entries fits more) =
      ap (entry immediate32 (some lo) none not_relative) (located_entries-immediates entries _ more)

module _ (format : OperandFormat) (layout : HasLayout format) (data_bytes : List ℕ)
    (total_dwords instruction_end : ℕ) (whole : instruction_end ≤ total_dwords) where
  pub indices-step :
      (fuel token0 dim at c : ℕ) (r : IndexRepresentation) (lo hi : Option ℕ)
      (inner : RelativeOperand) (entries : IndexEntries)
      → c ≡ at + length (encode_entry format r lo hi) + length (encode_relative format inner)
      → at < instruction_end
      → parse_index format data_bytes total_dwords instruction_end
          (parse_operand format data_bytes total_dwords instruction_end fuel)
          (format.get (index_representation dim) token0)
          at
        ≡ ok (
            parsed
              (record {
                representation = r;
                immediate_lo = lo;
                immediate_hi = hi;
                relative_operand =
                    located_relative format (at + length (encode_entry format r lo hi)) inner;
              })
              c)
      → parse_indices format data_bytes total_dwords instruction_end
          (parse_operand format data_bytes total_dwords instruction_end fuel)
          token0
          (entry_count entries)
          (suc dim)
          c
        ≡ ok
            (parsed (located_entries format c entries) (c + length (encode_entries format entries)))
      → parse_indices format data_bytes total_dwords instruction_end
          (parse_operand format data_bytes total_dwords instruction_end fuel)
          token0
          (suc (entry_count entries))
          dim
          at
        ≡ ok (
            parsed
              (located_entries format at (entry r lo hi inner entries))
              (at + length (encode_entries format (entry r lo hi inner entries))))
  unfolding parse_indices encode located
  indices-step fuel token0 dim at c r lo hi inner entries here inside index rest =
      let left : ltb at instruction_end ≡ true = ground (arith, inside) in
      let own = encode_entry format r lo hi in
      let size =
        length-append (own ++ encode_relative format inner) (encode_entries format entries) in
      let front = length-append own (encode_relative format inner) in
      let e : c + length (encode_entries format entries)
          ≡ at + length (encode_entries format (entry r lo hi inner entries)) =
        omega (arith, size, front, here) in
      rw (left, parse_indices)
        (rw (index, ◌>>=◌)
          (rw (rest, ◌>>=◌)
            (ap₂
              (λ k n. ok (
                parsed
                  (entry r lo hi (located_relative format (at + length own) inner)
                    (located_entries format k entries))
                  n))
              here e)))

  module _ (parse : ℕ → Result TokenError (Parsed Operand)) where
    pub index_word :
        (rep at lo : ℕ)
        → rep ≡ 0
        → parse_read_dword data_bytes at ≡ ok lo
        → parse_index format data_bytes total_dwords instruction_end parse rep at
          ≡ ok (
              parsed
                (record {
                  representation = immediate32;
                  immediate_lo = some lo;
                  immediate_hi = none;
                  relative_operand = not_relative;
                })
                (at + 1))
    unfolding parse_index
    index_word rep at lo e held = rw e (rw (held, ◌>>=◌) refl)

    pub index_words :
        (rep at lo hi : ℕ)
        → rep ≡ 1
        → at + 1 < instruction_end
        → parse_read_dword data_bytes at ≡ ok lo
        → parse_read_dword data_bytes (at + 1) ≡ ok hi
        → parse_index format data_bytes total_dwords instruction_end parse rep at
          ≡ ok (
              parsed
                (record {
                  representation = immediate64;
                  immediate_lo = some lo;
                  immediate_hi = some hi;
                  relative_operand = not_relative;
                })
                (at + 2))
    unfolding parse_index
    index_words rep at lo hi e inside held held₂ =
        let both : ltb (at + 1) instruction_end ≡ true = ground arith in
        rw e (rw both (rw (held, ◌>>=◌) (rw (held₂, ◌>>=◌) refl)))

    pub index_register :
        (rep at : ℕ) (rel : Parsed Operand)
        → rep ≡ 2
        → parse at ≡ ok rel
        → parse_index format data_bytes total_dwords instruction_end parse rep at
          ≡ ok (
              parsed
                (record {
                  representation = relative;
                  immediate_lo = none;
                  immediate_hi = none;
                  relative_operand = relative_to rel.found;
                })
                rel.cursor)
    unfolding parse_index parse_relative parse_offset
    index_register rep at rel e inner = rw e (rw (inner, ◌>>=◌) refl)

    pub index_offset :
        (rep at lo : ℕ) (rel : Parsed Operand)
        → rep ≡ 3
        → parse_read_dword data_bytes at ≡ ok lo
        → parse (at + 1) ≡ ok rel
        → parse_index format data_bytes total_dwords instruction_end parse rep at
          ≡ ok (
              parsed
                (record {
                  representation = immediate32_plus_relative;
                  immediate_lo = some lo;
                  immediate_hi = none;
                  relative_operand = relative_to rel.found;
                })
                rel.cursor)
    unfolding parse_index parse_relative parse_offset
    index_offset rep at lo rel e held inner = rw e (rw (held, ◌>>=◌) (rw (inner, ◌>>=◌) refl))
