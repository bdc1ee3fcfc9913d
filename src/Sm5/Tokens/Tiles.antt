-- ===== src/Sm5/Tokens/Tiles.antt =====
-- An instruction that is parsed stands inside the tokens.
use direct_xshader_patcher.Base.{
  ℕ, zero, suc, ◌+◌, ◌-◌, ◌*◌, ◌%◌, ◌^◌, ◌≤◌, ◌<◌, List, [], ◌∷◌, length, Bool-cases, not, ◌||◌,
  ◌&&◌, ltb, leb, ◌==◌, ok, >>=-eq-ok, >>-eq-ok, map_err-eq-ok, ok_injective, map_err, inl, inr,
  ◌≡◌, refl, subst, arith,
}
use direct_xshader_patcher.Sm5.Bytes.{read_bytes, read_word, read_words}
use direct_xshader_patcher.Sm5.Tokens.{
  plain_span, TokenFormat, bad_copy, Span, parse_read_dword, instruction_length, custom_span,
  parse_span,
}

-- The spans cover the tokens from one place to another without a gap, and none is empty.
abbrev pub Tiles : ℕ → ℕ → List Span → Type 0
Tiles at total [] = at ≡ total
Tiles at total (span ∷ spans) =
    (span.source_offset ≡ at)
    × (1 ≤ span.source_length)
    × Tiles (at + span.source_length) total spans

-- Words that have been read were there.
read_words-room :
    (bytes words : List ℕ) (at n : ℕ)
    → 1 ≤ n
    → read_words bytes at n ≡ ok words
    → at + 4 * n ≤ length bytes
unfolding read_words read_word read_bytes
read_words-room bytes words at zero some_words e = absurd (omega arith)
read_words-room bytes words at (suc n) some_words e =
    let (w, one, e₁) = >>=-eq-ok (read_word bytes at) _ e in
    let (ws, more, _) = >>=-eq-ok (read_words bytes (at + 4) n) _ e₁ in
    let (from, copied, _) = >>=-eq-ok (read_bytes bytes at 4) _ one in
    let (room, _) = >>-eq-ok (leb (at + 4) (length bytes)) _ _ copied in
    elim (Bool-cases (n == 0)) [
      | inl last ↦ ground (arith, room)
      | inr others ↦
          let further = read_words-room bytes ws (at + 4) n (ground arith) more in
          omega (arith, further)
    ]

-- A span begins where it was looked for and ends inside the tokens.
abbrev pub Fits : ℕ → ℕ → Span → Type 0
Fits total at span =
    (span.source_offset ≡ at) × (1 ≤ span.source_length) × (at + span.source_length ≤ total)

module _ (format : TokenFormat) (data_bytes : List ℕ) where
  custom_span-Fits :
      (total at : ℕ) (span : Span)
      → length data_bytes < 2 ^ 32
      → custom_span format data_bytes total at ≡ ok span
      → Fits total at span
  unfolding custom_span
  custom_span-Fits total at span small e =
      let (count, _, e₁) = >>=-eq-ok (parse_read_dword data_bytes ((at + 1) % 2 ^ 32)) _ e in
      let (valid, e₂) = >>-eq-ok (not (ltb count 2 || ltb total ((at + count) % 2 ^ 32))) _ _ e₁ in
      let (words, copied, built) =
        >>=-eq-ok (map_err bad_copy (read_words data_bytes ((at + 1) * 4) (count - 1))) _ e₂ in
      let enough : 2 ≤ count = ground (arith, valid) in
      let inside : (at + count) % 2 ^ 32 ≤ total = ground (arith, valid) in
      let room =
        read_words-room data_bytes words ((at + 1) * 4) (count - 1) (omega arith)
          (map_err-eq-ok bad_copy (read_words data_bytes ((at + 1) * 4) (count - 1)) copied) in
      subst (Fits total at) (ok_injective built) (refl, omega arith, omega (arith, room))

  plain_span-Fits :
      (opcode total at size : ℕ) (span : Span)
      → 1 ≤ size
      → at + size ≤ total
      → plain_span format data_bytes opcode at size ≡ ok span
      → Fits total at span
  unfolding plain_span
  plain_span-Fits opcode total at size span some_tokens inside e =
      let (_, built) = >>-eq-ok (not (opcode == 104 && ltb size 2)) _ _ e in
      subst (Fits total at) (ok_injective built) (refl, some_tokens, inside)

  pub parse_span-Fits :
      (total at : ℕ) (span : Span)
      → ((token : ℕ) → format.tokenized_length token < 128)
      → length data_bytes < 2 ^ 32
      → at < total
      → total < 2 ^ 30
      → parse_span format data_bytes total at ≡ ok span
      → Fits total at span
  unfolding parse_span
  parse_span-Fits total at span short small below bound e =
      let (token, _, e₁) = >>=-eq-ok (parse_read_dword data_bytes at) _ e in
      let opcode = format.opcode_type token in
      let size = instruction_length format data_bytes token in
      let (valid, e₂) = >>-eq-ok (not (ltb total ((at + size) % 2 ^ 32))) _ _ e₁ in
      let narrow : format.tokenized_length token < 128 = short token in
      let some_tokens : 1 ≤ size = ground (arith) in
      let few : size < 128 = ground (arith, narrow) in
      let cut : (at + size) % 2 ^ 32 ≤ total = ground (arith, valid) in
      let inside : at + size ≤ total = omega (arith, cut, few, below, bound) in
      elim (Bool-cases (opcode == 53)) [
        | inl custom ↦ custom_span-Fits total at span small (rw custom at e₂)
        | inr plain ↦ plain_span-Fits opcode total at size span some_tokens inside (rw plain at e₂)
      ]
