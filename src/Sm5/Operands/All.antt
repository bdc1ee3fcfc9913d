-- ===== src/Sm5/Operands/All.antt =====
-- The operands that `Instruction::Encode` writes one behind another are parsed one by one.
use direct_xshader_patcher.Base.{
  ℕ, zero, suc, ◌+◌, ◌-◌, ◌^◌, ◌≤◌, List, [], ◌∷◌, ◌++◌, length, length-append, All, All-append,
  true, false, ◌||◌, ltb, leb, ◌==◌, ok, ◌>>=◌, ◌≡◌, refl, ap, arith,
}
use direct_xshader_patcher.Sm5.Bytes.RoundTrip.{word_bytes}
use direct_xshader_patcher.Sm5.Operands.{Operand, operand, OperandFormat, encode, source_length_of}
use direct_xshader_patcher.Sm5.Operands.Parse.{parsed}
use direct_xshader_patcher.Sm5.Operands.Layout.{HasLayout}
use direct_xshader_patcher.Sm5.Operands.Encodable.{
  Encodable, located, Holds, Holds-left, Holds-right,
}
use direct_xshader_patcher.Sm5.Operands.RoundTrip.{parse_operand-encode}
use direct_xshader_patcher.Sm5.Operands.Entries.{encode-positive}
use direct_xshader_patcher.Sm5.Operands.Equal.{same, same-located}
use direct_xshader_patcher.Sm5.Operands.Written.{IsWord, word_bytes-Holds, encode-words}
use direct_xshader_patcher.Sm5.Operands.Sequence.{parse_operands, encode_operands}

abbrev pub located_operands : OperandFormat → ℕ → List Operand → List Operand
located_operands format at [] = []
located_operands format at (op ∷ ops) =
    located format at op ∷ located_operands format (at + length (encode format op)) ops

-- Two lists whose operands `operator==` finds the same, one by one.
abbrev pub AllSame : List Operand → List Operand → Type 0
AllSame [] [] = Unit
AllSame (a ∷ as_found) (b ∷ bs) = (same a b ≡ true) × AllSame as_found bs
AllSame _ _ = ⊥

located_operands-AllSame :
    (format : OperandFormat) (at : ℕ) (ops : List Operand)
    → AllSame (located_operands format at ops) ops
located_operands-AllSame format at [] = tt
located_operands-AllSame format at (op ∷ ops) = (
  same-located format at op,
  located_operands-AllSame format (at + length (encode format op)) ops,
)

located-length :
    (format : OperandFormat) (at : ℕ) (op : Operand)
    → source_length_of (located format at op) ≡ length (encode format op)
unfolding located
located-length format at (operand head _ outer) = refl

module _ (format : OperandFormat) (layout : HasLayout format) (data_bytes : List ℕ)
    (total_dwords instruction_end : ℕ) (whole : instruction_end ≤ total_dwords) where
  operands-parsed :
      (fuel at : ℕ) (ops : List Operand)
      → All Encodable ops
      → Holds data_bytes at (encode_operands format ops)
      → at + length (encode_operands format ops) ≡ instruction_end
      → length (encode_operands format ops) ≤ fuel
      → parse_operands format data_bytes total_dwords instruction_end fuel at
        ≡ ok (parsed (located_operands format at ops) instruction_end)
  unfolding parse_operands
  operands-parsed zero at [] fits held ends enough =
      let last : at ≡ instruction_end = omega (arith, ends) in
      let none_left : ltb at instruction_end ≡ false = ground arith in
      rw none_left (ap (λ c. ok (parsed [] c)) last)
  operands-parsed (suc fuel) at [] fits held ends enough =
      let last : at ≡ instruction_end = omega (arith, ends) in
      let none_left : ltb at instruction_end ≡ false = ground arith in
      rw (none_left, parse_operands) (ap (λ c. ok (parsed [] c)) last)
  operands-parsed zero at (op ∷ ops) fits held ends enough =
      let size = length-append (encode format op) (encode_operands format ops) in
      absurd (omega (arith, encode-positive format op, size, enough))
  operands-parsed (suc fuel) at (op ∷ ops) fits held ends enough =
      let code = encode format op in
      let behind = encode_operands format ops in
      let size = length-append code behind in
      let start = encode-positive format op in
      let left : ltb at instruction_end ≡ true = ground (arith, size, start, ends) in
      let own =
        parse_operand-encode format data_bytes total_dwords instruction_end
          (suc (instruction_end - at)) at op layout fits.0
          (Holds-left data_bytes at code behind held) (omega (arith, size, ends)) whole
          (omega (arith, size, ends)) in
      let more : (source_length_of (located format at op) == 0 || leb (at + length code) at)
          ≡ false =
        ground (arith, located-length format at op, start) in
      let rest =
        operands-parsed fuel (at + length code) ops fits.1
          (Holds-right data_bytes at code behind held) (omega (arith, size, ends))
          (omega (arith, size, start, enough)) in
      rw (left, parse_operands) (rw (own, ◌>>=◌) (rw more (rw (rest, ◌>>=◌) refl)))

encode_operands-words :
    (format : OperandFormat) (ops : List Operand)
    → HasLayout format
    → All Encodable ops
    → All IsWord (encode_operands format ops)
encode_operands-words format [] layout fits = tt
encode_operands-words format (op ∷ ops) layout fits =
    All-append IsWord (encode format op) (encode_operands format ops)
      (encode-words format layout op fits.0) (encode_operands-words format ops layout fits.1)

-- Operands whose members are as wide as their fields, each an Immediate32 operand with one value for a
-- component or an operand with up to three indices whose immediates and relative operand its
-- representation names, written up to the end of an instruction inside the first 2^30 dwords of a
-- shader, are parsed back: as many, and each the same by `operator==`. Excluded are Immediate64
-- operands, indices of the representation Immediate64PlusRelative, and a relative operand that stands
-- outside of the indices.
pub parse_operands-encode_operands :
    (format : OperandFormat) (ops : List Operand) (before after : List ℕ) (total_dwords : ℕ)
    → HasLayout format
    → All Encodable ops
    → length before + length (encode_operands format ops) ≤ total_dwords
    → total_dwords ≤ 2 ^ 30
    → (found : List Operand) × (parse_operands format
          (word_bytes before ++ (word_bytes (encode_operands format ops) ++ after))
          total_dwords
          (length before + length (encode_operands format ops))
          (length (encode_operands format ops))
          (length before)
        ≡ ok (parsed found (length before + length (encode_operands format ops))))
      × AllSame found ops
parse_operands-encode_operands format ops before after total_dwords layout fits inside room = (
  located_operands format (length before) ops,
  operands-parsed format layout _ total_dwords (length before + length (encode_operands format ops))
      inside (length (encode_operands format ops)) (length before) ops fits
      (word_bytes-Holds before (encode_operands format ops) after
        (encode_operands-words format ops layout fits) (omega (arith, inside, room)))
      refl (omega arith),
  located_operands-AllSame format (length before) ops,
)
