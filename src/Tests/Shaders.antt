-- ===== src/Tests/Shaders.antt =====
-- Shaders of a few tokens, cut into instructions as in src/dxp/sm5/ShaderProgram.cpp.
use direct_xshader_patcher.Base.{ℕ, ◌/◌, ◌%◌, ◌^◌, List, [], ◌∷◌, ok, err, ◌≡◌, refl, arith}
use direct_xshader_patcher.Sm5.Bytes.{CopyError, read_bytes, read_word}
use direct_xshader_patcher.Sm5.Tokens.{TokenFormat, bad_copy, parse_program}
use direct_xshader_patcher.Sm5.Tokens.Program.{Outcome, parse_program-Outcome}

-- The fields of an opcode token: eleven bits, and seven from bit 24 on.
abbrev format : TokenFormat
format = record {
  opcode_type = λ token. token % 2 ^ 11;
  tokenized_length = λ token. token / 2 ^ 24 % 2 ^ 7;
}

-- Version, four tokens in all, and two instructions of one token each.
abbrev two_instructions : List ℕ
two_instructions = 0x50 ∷ 0 ∷ 0 ∷ 0 ∷ 4 ∷ 0 ∷ 0 ∷ 0 ∷ 58 ∷ 0 ∷ 0 ∷ 1 ∷ 62 ∷ 0 ∷ 0 ∷ 1 ∷ []

two_spans :
    parse_program format two_instructions
    ≡ ok (
        (record { opcode = 58; source_offset = 2; source_length = 1; custom_data = [] })
        ∷ (record { opcode = 62; source_offset = 3; source_length = 1; custom_data = [] })
        ∷ [])
unfolding parse_program read_word read_bytes
two_spans = refl

parse_program-Outcome_example :
    Outcome format two_instructions (parse_program format two_instructions)
parse_program-Outcome_example =
    parse_program-Outcome format two_instructions (λ token. omega arith) (omega arith)

-- The length of a custom-data block in the last token is read behind the bytes.
abbrev custom_at_end : List ℕ
custom_at_end = 0x50 ∷ 0 ∷ 0 ∷ 0 ∷ 3 ∷ 0 ∷ 0 ∷ 0 ∷ 53 ∷ 0 ∷ 0 ∷ 0 ∷ []

custom_overrun : parse_program format custom_at_end ≡ err (bad_copy CopyError.undefined_read)
unfolding parse_program read_word read_bytes
custom_overrun = refl
