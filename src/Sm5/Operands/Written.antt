-- ===== src/Sm5/Operands/Written.antt =====
-- An operand written to the bytes of a shader and parsed from there.
use direct_xshader_patcher.Base.{
  ℕ, ◌+◌, ◌*◌, ◌%◌, ◌^◌, ◌≤◌, ◌<◌, List, [], ◌∷◌, ◌++◌, length, length-append, All, All-append,
  append_assoc, append-nil, Bool-cases, true, ◌==◌, ok, map_err, ◌≡◌, refl, sym, ap, subst, ◌∙◌,
  inl, inr, arith,
}
use direct_xshader_patcher.Hash.Md5.{little_endian}
use direct_xshader_patcher.Sm5.Bytes.RoundTrip.{word_bytes, length-word_bytes, read_word-at}
use direct_xshader_patcher.Sm5.Tokens.{parse_read_dword}
use direct_xshader_patcher.Sm5.Operands.{
  Operand, IndexEntries, OperandFormat, is_immediate, encode, encode_entries, encode_extension,
  encode_immediates,
}
use direct_xshader_patcher.Sm5.Operands.Parse.{parsed, parse_operand}
use direct_xshader_patcher.Sm5.Operands.Fields.{immediate-TokenReads, register-TokenReads}
use direct_xshader_patcher.Sm5.Operands.Layout.{HasLayout}
use direct_xshader_patcher.Sm5.Operands.Encodable.{
  ImmediateEntries, no_immediates, immediate, Encodable, immediates, registers, EntriesEncodable,
  no_indices, one_word, two_words, register, offset_register, EntriesEncodable-AllNarrow, located,
  Holds,
}
use direct_xshader_patcher.Sm5.Operands.Entries.{encode-immediate, encode-register}
use direct_xshader_patcher.Sm5.Operands.RoundTrip.{parse_operand-encode}
use direct_xshader_patcher.Sm5.Operands.Equal.{same, same-located}

abbrev pub IsWord : ℕ → Type 0
IsWord w = w < 2 ^ 32

word_bytes-append : (xs ys : List ℕ) → word_bytes (xs ++ ys) ≡ word_bytes xs ++ word_bytes ys
word_bytes-append [] ys = refl
word_bytes-append (x ∷ xs) ys =
    ap (λ t. little_endian 4 x ++ t) (word_bytes-append xs ys)
    ∙ sym (append_assoc (little_endian 4 x) (word_bytes xs) (word_bytes ys))

-- Words written one behind another are there to be read.
pub word_bytes-Holds :
    (before tokens after : List ℕ)
    → All IsWord tokens
    → length before + length tokens ≤ 2 ^ 30
    → Holds (word_bytes before ++ (word_bytes tokens ++ after)) (length before) tokens
unfolding parse_read_dword
word_bytes-Holds before [] after words room = tt
word_bytes-Holds before (token ∷ tokens) after words room =
    let p = word_bytes before in
    let w = little_endian 4 token in
    let place : length before * 4 % 2 ^ 32 ≡ length before * 4 = omega (arith, room) in
    let split : p ++ ((w ++ word_bytes tokens) ++ after)
        ≡ p ++ (w ++ (word_bytes tokens ++ after)) =
      simp append_assoc in
    let shifted : p ++ ((w ++ word_bytes tokens) ++ after)
        ≡ word_bytes (before ++ (token ∷ [])) ++ (word_bytes tokens ++ after) =
      rw (word_bytes-append before (token ∷ [])) (simp (append_assoc, append-nil)) in
    let next : length (before ++ (token ∷ [])) ≡ length before + 1 =
      length-append before (token ∷ []) in
    let here =
      read_word-at p (word_bytes tokens ++ after) token (length before * 4)
        (omega (arith, length-word_bytes before)) in
    let small : token % 2 ^ 32 ≡ token = omega (arith, words.0) in
    (
      rw place (rw split (rw (here, map_err) (ap ok small))),
      subst (λ n. Holds (p ++ ((w ++ word_bytes tokens) ++ after)) n tokens) next
          (subst (λ b. Holds b (length (before ++ (token ∷ []))) tokens) (sym shifted)
            (word_bytes-Holds (before ++ (token ∷ [])) tokens after words.1
              (omega (arith, next, room)))),
    )

module _ (format : OperandFormat) (layout : HasLayout format) where
  encode_extension-words : (modifier : ℕ) → All IsWord (encode_extension format modifier)
  encode_extension-words modifier = elim (Bool-cases (modifier == 0)) [
    | inl plain ↦ rw plain tt
    | inr modified ↦ rw modified (layout.modifier_word modifier, tt)
  ]

  encode_immediates-words :
      (entries : IndexEntries)
      → ImmediateEntries entries
      → All IsWord (encode_immediates format entries)
  encode_immediates-words _ no_immediates = tt
  encode_immediates-words _ (immediate lo entries fits more) =
      (fits, encode_immediates-words entries more)

  mutual
    unfolding encode

    -- What an operand encodes to are 32-bit words.
    pub encode-words : (op : Operand) → Encodable op → All IsWord (encode format op)
    encode-words _ (immediates head entries fits kind few more) =
        let immediate_kind : is_immediate head.type ≡ true = ground (arith, kind) in
        let reads = immediate-TokenReads format layout head entries fits immediate_kind in
        subst (All IsWord) (sym (encode-immediate format head entries immediate_kind)) (
          reads.word,
          All-append IsWord (encode_extension format head.modifier) _
              (encode_extension-words head.modifier) (encode_immediates-words entries more),
        )
    encode-words _ (registers head entries fits kind few more) =
        let reads =
          register-TokenReads format layout head entries fits kind
            (EntriesEncodable-AllNarrow entries more) few in
        subst (All IsWord) (sym (encode-register format head entries kind)) (
          reads.word,
          All-append IsWord (encode_extension format head.modifier) _
              (encode_extension-words head.modifier) (encode_entries-words entries more),
        )

    encode_entries-words :
        (entries : IndexEntries)
        → EntriesEncodable entries
        → All IsWord (encode_entries format entries)
    encode_entries-words _ no_indices = tt
    encode_entries-words _ (one_word lo entries fits more) =
        (fits, encode_entries-words entries more)
    encode_entries-words _ (two_words lo hi entries fits fits₂ more) =
        (fits, (fits₂, encode_entries-words entries more))
    encode_entries-words _ (register inner entries inside more) =
        All-append IsWord (encode format inner) (encode_entries format entries)
          (encode-words inner inside) (encode_entries-words entries more)
    encode_entries-words _ (offset_register lo inner entries fits inside more) = (
      fits,
      All-append IsWord (encode format inner) (encode_entries format entries)
          (encode-words inner inside) (encode_entries-words entries more),
    )

-- Let an operand that the token format has a place for be encoded, and its tokens be written
-- between other ones, all below the dword 2^30. Then `ParseOperand` at their place, with the end of
-- the instruction behind them or further on, returns an operand that `operator==` finds the same,
-- and leaves the cursor behind the tokens.
pub parse-encode-operand :
    (format : OperandFormat) (op : Operand) (before after : List ℕ)
    (total_dwords instruction_end : ℕ)
    → HasLayout format
    → Encodable op
    → length before + length (encode format op) ≤ instruction_end
    → instruction_end ≤ total_dwords
    → total_dwords ≤ 2 ^ 30
    → (found : Operand) × (parse_operand format
          (word_bytes before ++ (word_bytes (encode format op) ++ after))
          total_dwords
          instruction_end
          (length (encode format op))
          (length before)
        ≡ ok (parsed found (length before + length (encode format op))))
      × (same found op ≡ true)
parse-encode-operand format op before after total_dwords instruction_end layout fits inside whole
      room =
    (
      located format (length before) op,
      parse_operand-encode format _ total_dwords instruction_end (length (encode format op))
          (length before) op layout fits
          (word_bytes-Holds before (encode format op) after (encode-words format layout op fits)
            (omega (arith, inside, whole, room)))
          inside whole (omega arith),
      same-located format (length before) op,
    )
