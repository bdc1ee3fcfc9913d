-- ===== src/Sm5/Tokens.antt =====
-- The loop of `ParseProgramImpl` of src/dxp/sm5/ShaderProgram.cpp: how it cuts the tokens of a shader
-- into instructions. The bit fields of a token come from the Windows header of the token format and
-- are parameters; what is parsed inside an instruction is left out.
pub mod Tiles
pub mod Ends
pub mod Program
use direct_xshader_patcher.Base.{
  ℕ, zero, suc, ◌+◌, ◌-◌, ◌*◌, ◌/◌, ◌%◌, ◌^◌, min, List, [], ◌∷◌, length, is_empty, Bool, true,
  false, not, ◌||◌, ◌&&◌, ltb, ◌==◌, Result, ok, err, ◌>>=◌, ◌>>◌, require, map_err, if◌then◌else◌,
}
use direct_xshader_patcher.Sm5.Bytes.{CopyError, read_word, read_words}

-- `DECODE_D3D10_SB_OPCODE_TYPE` and `DECODE_D3D10_SB_TOKENIZED_INSTRUCTION_LENGTH`.
pub record TokenFormat : Type 0 where
  pub opcode_type : ℕ → ℕ
  pub tokenized_length : ℕ → ℕ

-- `truncated` stands for `return false`, `out_of_fuel` for a loop that does not end.
pub data TokenError : Type 0 where
  truncated out_of_fuel : TokenError
  bad_copy : CopyError → TokenError

-- An instruction as a part of the tokens, in `dword`s.
pub record Span : Type 0 where
  pub opcode : ℕ
  pub source_offset : ℕ
  pub source_length : ℕ
  pub custom_data : List ℕ

abbrev u32 : ℕ → ℕ
u32 n = n % 2 ^ 32

-- `D3D10_SB_OPCODE_CUSTOMDATA` and `Opcode::DclTemps`
abbrev customdata : ℕ
customdata = 53

abbrev dcl_temps : ℕ
dcl_temps = 104

unfoldable pub parse_read_dword : List ℕ → ℕ → Result TokenError ℕ
unfolding read_word
parse_read_dword data_bytes at = map_err bad_copy (read_word data_bytes (u32 (at * 4)))

module _ (format : TokenFormat) (data_bytes : List ℕ) where
  abbrev pub instruction_length : ℕ → ℕ
  instruction_length token =
      if format.tokenized_length token == 0 then 1 else format.tokenized_length token

  -- The block carries its own length in its second token, and is copied as it is.
  unfoldable pub custom_span : ℕ → ℕ → Result TokenError Span
  unfolding parse_read_dword read_words
  custom_span total at = do
    count ← parse_read_dword data_bytes (u32 (at + 1))
    require (not (ltb count 2 || ltb total (u32 (at + count)))) TokenError.truncated
    words ← map_err bad_copy (read_words data_bytes ((at + 1) * 4) (count - 1))
    ok (record {
      opcode = customdata;
      source_offset = at;
      source_length = count;
      custom_data = words;
    })

  -- A DCL_TEMPS must hold its operand.
  unfoldable pub plain_span : ℕ → ℕ → ℕ → Result TokenError Span
  plain_span opcode at size = do
    require (not (opcode == dcl_temps && ltb size 2)) TokenError.truncated
    ok (record { opcode = opcode; source_offset = at; source_length = size; custom_data = [] })

  -- One round of the loop.
  unfoldable pub parse_span : ℕ → ℕ → Result TokenError Span
  unfolding parse_read_dword custom_span plain_span
  parse_span total at = do
    token ← parse_read_dword data_bytes at
    let opcode = format.opcode_type token
    let size = instruction_length token
    require (not (ltb total (u32 (at + size)))) TokenError.truncated
    (if opcode == customdata then custom_span total at else plain_span opcode at size)

  unfoldable pub parse_spans : ℕ → ℕ → ℕ → Result TokenError (List Span)
  unfolding parse_span
  parse_spans zero total cursor = if ltb cursor total then err TokenError.out_of_fuel else ok []
  parse_spans (suc fuel) total cursor = elim (ltb cursor total) [
    | false ↦ ok []
    | true ↦ do
      span ← parse_span total cursor
      spans ← parse_spans fuel total (u32 (cursor + span.source_length))
      ok (span ∷ spans)
  ]

  -- The length token can only shorten the bytes that there are.
  unfoldable pub parse_program : Result TokenError (List Span)
  unfolding parse_read_dword parse_spans
  parse_program = do
    require (not (ltb (u32 (length data_bytes)) 8)) TokenError.truncated
    version ← parse_read_dword data_bytes 0
    declared ← parse_read_dword data_bytes 1
    let total = min declared (u32 (length data_bytes) / 4)
    parse_spans total total 2
