-- ===== src/Sm5/Match/Instructions.antt =====
-- `MatchesInstruction` of src/dxp/sm5/step/common/Match.cpp, and `ParseExtendedOpcodeToken` of
-- src/dxp/sm5/Model_impl.hpp. An `int32_t` is the word with its bits.
use direct_xshader_patcher.Base.{
  ℕ, ◌-◌, ◌%◌, ◌^◌, List, [], ◌∷◌, length, Bool, true, false, not, ◌&&◌, ◌||◌, ◌==◌, leb, is_absent,
  String, Option, none, some, Result, ok, err, ◌>>=◌, ◌>>◌, require, if◌then◌else◌, bit_and, bit_or,
}
use direct_xshader_patcher.Sm5.Operands.{Operand}
use direct_xshader_patcher.Sm5.Roles.{ComponentFormat}
use direct_xshader_patcher.Sm5.Match.{OperandPattern, MatchContext, Mismatch, mismatch}
use direct_xshader_patcher.Sm5.Match.Operands.{Captured, allows, allows_option, matches_operand}

-- The members of `Instruction` and of its `OpcodeControls` that patterns speak of.
pub record Instruction : Type 0 where
  pub opcode : ℕ
  pub saturate : Bool
  pub test_boolean : Option ℕ
  pub input_interpolation_mode : Option ℕ
  pub access_pattern : Option ℕ
  pub mode : Option ℕ
  pub resource_dimension : Option ℕ
  pub resource_return_type : List (Option ℕ)
  pub uav_flags : ℕ
  pub structure_stride : ℕ
  pub extended_op_codes : List ℕ
  pub operands : List Operand

pub record SampleControlsPayload : Type 0 where
  pub u : ℕ
  pub v : ℕ
  pub w : ℕ

pub record ResourceDimPayload : Type 0 where
  pub dimension : ℕ
  pub structure_stride : ℕ

-- What an extended opcode token carries.
pub data Payload : Type 0 where
  raw_token : ℕ → Payload
  sample_controls : SampleControlsPayload → Payload
  resource_dim : ResourceDimPayload → Payload
  resource_return_type : List ℕ → Payload

pub record TypeExpectation : Type 0 where
  pub type : ℕ
  pub sample_controls : Option SampleControlsPayload
  pub resource_dim : Option ResourceDimPayload
  pub resource_return_type : Option (List ℕ)

-- The kinds of an `ExtendedOpcodePattern` with the members that each reads.
pub data ExtendedOpcodePattern : Type 0 where
  any_token : ExtendedOpcodePattern
  raw_value : ℕ → ExtendedOpcodePattern
  typed : TypeExpectation → ExtendedOpcodePattern

-- A negative `test_boolean` is none.
pub record InstructionPattern : Type 0 where
  pub opcode : Option ℕ
  pub capture : String
  pub saturate : Option Bool
  pub interpolation_mode : Option ℕ
  pub test_boolean : Option ℕ
  pub operands : List OperandPattern
  pub extended_opcodes : Option (List ExtendedOpcodePattern)
  pub dimension : Option ℕ
  pub return_type : List (Option ℕ)
  pub structure_stride : ℕ
  pub access_pattern : Option ℕ
  pub mode : Option ℕ
  pub uav_flags : ℕ

-- `DECODE_...` of the header on an extended opcode token; the first argument of an offset and the
-- second of a return type are the component.
pub record ExtendedFormat : Type 0 where
  pub address_offset : ℕ → ℕ → ℕ
  pub extended_dimension : ℕ → ℕ
  pub extended_stride : ℕ → ℕ
  pub extended_return_type : ℕ → ℕ → ℕ

abbrev sign_extend4 : ℕ → ℕ
sign_extend4 value = bit_or value ((2 ^ 32 - bit_and value 8) % 2 ^ 32)

abbrev type_bits : ℕ → ℕ
type_bits token = bit_and token 0x3F

abbrev same_bool : Bool → Bool → Bool
same_bool true b = b
same_bool false b = not b

abbrev same_list : List ℕ → List ℕ → Bool
same_list [] [] = true
same_list (a ∷ xs) (b ∷ ys) = a == b && same_list xs ys
same_list _ _ = false

abbrev saturate_allowed : Option Bool → Bool → Bool
saturate_allowed none b = true
saturate_allowed (some a) b = same_bool a b

abbrev each_allowed : List (Option ℕ) → List (Option ℕ) → Bool
each_allowed [] types = true
each_allowed (p ∷ ps) [] = is_absent p && each_allowed ps []
each_allowed (p ∷ ps) (t ∷ ts) = allows_option p t && each_allowed ps ts

-- `DclInputPs`, `DclInputPsSgv` and `DclInputPsSiv`
abbrev is_pixel_input : ℕ → Bool
is_pixel_input opcode = opcode == 98 || (opcode == 99 || opcode == 100)

abbrev interpolation_allowed : Option ℕ → Instruction → Bool
interpolation_allowed none instr = true
interpolation_allowed (some mode) instr =
    is_pixel_input instr.opcode
    && (is_absent instr.input_interpolation_mode
        || allows_option (some mode) instr.input_interpolation_mode)

module _ (format : ExtendedFormat) where
  unfoldable pub parse_extended_opcode_token : ℕ → Payload
  parse_extended_opcode_token token =
      if type_bits token == 1
      then Payload.sample_controls (record {
        u = sign_extend4 (format.address_offset 0 token);
        v = sign_extend4 (format.address_offset 1 token);
        w = sign_extend4 (format.address_offset 2 token);
      })
      else if type_bits token == 2
      then Payload.resource_dim (record {
        dimension = format.extended_dimension token;
        structure_stride = format.extended_stride token;
      })
      else if type_bits token == 3
      then Payload.resource_return_type (
          format.extended_return_type token 0
          ∷ format.extended_return_type token 1
          ∷ format.extended_return_type token 2
          ∷ format.extended_return_type token 3
          ∷ [])
      else raw_token token

  abbrev sample_allowed : Option SampleControlsPayload → Payload → Bool
  sample_allowed none payload = true
  sample_allowed (some e) (Payload.sample_controls p) = e.u == p.u && (e.v == p.v && e.w == p.w)
  sample_allowed (some e) _ = false

  abbrev dim_allowed : Option ResourceDimPayload → Payload → Bool
  dim_allowed none payload = true
  dim_allowed (some e) (Payload.resource_dim p) =
      e.dimension == p.dimension && e.structure_stride == p.structure_stride
  dim_allowed (some e) _ = false

  abbrev types_match : Option (List ℕ) → Payload → Bool
  types_match none payload = true
  types_match (some e) (Payload.resource_return_type p) = same_list e p
  types_match (some e) _ = false

  abbrev extended_allowed : ExtendedOpcodePattern → ℕ → Bool
  extended_allowed any_token token = true
  extended_allowed (raw_value raw) token = raw == token
  extended_allowed (typed e) token =
      type_bits token == e.type
      && (sample_allowed e.sample_controls (parse_extended_opcode_token token)
          && (dim_allowed e.resource_dim (parse_extended_opcode_token token)
              && types_match e.resource_return_type (parse_extended_opcode_token token)))

  -- The whole chain, entry for entry.
  abbrev chain_allowed : List ExtendedOpcodePattern → List ℕ → Bool
  chain_allowed [] [] = true
  chain_allowed (p ∷ ps) (token ∷ tokens) = extended_allowed p token && chain_allowed ps tokens
  chain_allowed _ _ = false

  abbrev extension_allowed : Option (List ExtendedOpcodePattern) → List ℕ → Bool
  extension_allowed none tokens = true
  extension_allowed (some chain) tokens = chain_allowed chain tokens

  -- The tests on an instruction but for its operands.
  unfoldable pub instruction_allowed : InstructionPattern → Instruction → Bool
  unfolding parse_extended_opcode_token
  instruction_allowed pattern instr =
      allows pattern.opcode instr.opcode
      && (saturate_allowed pattern.saturate instr.saturate
          && (allows_option pattern.test_boolean instr.test_boolean
              && (interpolation_allowed pattern.interpolation_mode instr
                  && (allows_option pattern.dimension instr.resource_dimension
                      && (each_allowed pattern.return_type instr.resource_return_type
                          && ((pattern.structure_stride == 0
                                || instr.structure_stride == pattern.structure_stride)
                              && (allows_option pattern.access_pattern instr.access_pattern
                                  && (allows_option pattern.mode instr.mode
                                      && ((pattern.uav_flags == 0
                                            || instr.uav_flags == pattern.uav_flags)
                                          && extension_allowed pattern.extended_opcodes
                                              instr.extended_op_codes)))))))))

module _ (components : ComponentFormat) (format : ExtendedFormat) where
  -- The first operands, one for each pattern.
  unfoldable pub matches_operands :
      MatchContext → List OperandPattern → List Operand → Captured → Result Mismatch Captured
  unfolding matches_operand
  matches_operands context [] operands captured = ok captured
  matches_operands context (pattern ∷ patterns) [] captured = err mismatch
  matches_operands context (pattern ∷ patterns) (op ∷ operands) captured =
      matches_operand components context pattern op captured >>= λ next.
      matches_operands context patterns operands next

  unfoldable pub matches_instruction :
      MatchContext → InstructionPattern → Instruction → Captured → Result Mismatch Captured
  unfolding instruction_allowed matches_operands
  matches_instruction context pattern instr captured =
      require (instruction_allowed format pattern instr) mismatch
      >> require (leb (length pattern.operands) (length instr.operands)) mismatch
      >> matches_operands context pattern.operands instr.operands captured
