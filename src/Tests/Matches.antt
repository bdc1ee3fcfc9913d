-- ===== src/Tests/Matches.antt =====
-- Patterns on a shader of four instructions: `mov`, `add`, `mul` and `add`.
use direct_xshader_patcher.Base.{
  zero, suc, get_elem?, subst, ℕ, ◌+◌, ◌*◌, ◌/◌, ◌%◌, ◌^◌, List, [], ◌∷◌, All, false, none, some,
  ◌≡◌, refl, arith, true, ok, err, if◌then◌else◌,
}
use direct_xshader_patcher.Sm5.Operands.{
  OperandHead, IndexEntries, entry, immediate64, relative, operand, no_entries, not_relative,
  relative_to,
}
use direct_xshader_patcher.Sm5.Operands.Parse.{Index}
use direct_xshader_patcher.Sm5.Roles.{ComponentFormat}
use direct_xshader_patcher.Sm5.Lookup.{empty_index}
use direct_xshader_patcher.Sm5.Match.{
  OperandIndexPattern, MatchContext, mismatch, variable, untyped,
}
use direct_xshader_patcher.Sm5.Match.Operands.{matches_operand_index, matches_operand}
use direct_xshader_patcher.Sm5.Match.Literals.{literals_u64, spells, literals_u64-matches}
use direct_xshader_patcher.Sm5.Match.Instructions.{
  Instruction, InstructionPattern, ExtendedFormat, matches_instruction,
}
use direct_xshader_patcher.Sm5.Match.Collect.{collect_window_matches, collect_sequence_matches}
use direct_xshader_patcher.Sm5.Match.Ends.{same_some}
use direct_xshader_patcher.Sm5.Match.Scan.{Has}
use direct_xshader_patcher.Sm5.Match.Windows.{
  IsWindow, collect_window_matches-IsWindow, collect_window_matches_complete,
}
use direct_xshader_patcher.Sm5.Match.Sequences.{
  IsSequence, collect_sequence_matches-IsSequence, collect_sequence_matches_complete,
}

abbrev pub components : ComponentFormat
components = record {
  selection_mode = λ t. t / 2 ^ 2 % 4;
  component_mask = λ t. t / 2 ^ 4 % 2 ^ 4 * 2 ^ 4;
  select_one = λ t. t / 2 ^ 4 % 4;
  swizzle_source = λ t c. t / 2 ^ (4 + 2 * (c % 4)) % 4;
  encode_mode = λ v. v % 4 * 2 ^ 2;
  encode_mask = λ t. t / 2 ^ 4 % 2 ^ 4 * 2 ^ 4;
  encode_select = λ c. c % 4 * 2 ^ 4;
}

abbrev extended : ExtendedFormat
extended = record {
  address_offset = λ c t. t / 2 ^ (9 + 4 * c) % 2 ^ 4;
  extended_dimension = λ t. t / 2 ^ 6 % 2 ^ 5;
  extended_stride = λ t. t / 2 ^ 11 % 2 ^ 12;
  extended_return_type = λ t c. t / 2 ^ (6 + 4 * c) % 2 ^ 4;
}

abbrev pub context : MatchContext
context = record { operands = []; index_values = []; declarations = empty_index }

abbrev plain : ℕ → Instruction
plain opcode = record {
  opcode = opcode;
  saturate = false;
  test_boolean = none;
  input_interpolation_mode = none;
  access_pattern = none;
  mode = none;
  resource_dimension = none;
  resource_return_type = none ∷ none ∷ none ∷ none ∷ [];
  uav_flags = 0;
  structure_stride = 0;
  extended_op_codes = [];
  operands = [];
}

abbrev by_opcode : ℕ → InstructionPattern
by_opcode opcode = record {
  opcode = some opcode;
  capture = "";
  saturate = none;
  interpolation_mode = none;
  test_boolean = none;
  operands = [];
  extended_opcodes = none;
  dimension = none;
  return_type = none ∷ none ∷ none ∷ none ∷ [];
  structure_stride = 0;
  access_pattern = none;
  mode = none;
  uav_flags = 0;
}

abbrev program : List Instruction
program = plain 54 ∷ plain 0 ∷ plain 56 ∷ plain 0 ∷ []

-- From the `mov` the nearest `add` ends the window.
collect_window_matches-IsWindow_example :
    All
      (λ r.
        IsWindow components extended [] context
          (by_opcode 54)
          (by_opcode 0)
          program
          r.range_start_index
          r.range_end_index)
      (collect_window_matches components extended [] context 0 program (by_opcode 54) (by_opcode 0))
collect_window_matches-IsWindow_example =
    collect_window_matches-IsWindow components extended [] context program (by_opcode 54)
      (by_opcode 0)

collect_window_matches_complete_example :
    Has
      (λ r. r.range_start_index ≡ 0)
      (collect_window_matches components extended [] context 0 program (by_opcode 54) (by_opcode 0))
unfolding matches_instruction
collect_window_matches_complete_example =
    collect_window_matches_complete components extended [] context program (by_opcode 54)
      (by_opcode 0) 0 3 (plain 54, refl, ([], refl)) (plain 0, refl, ([], refl)) (omega arith)

collect_sequence_matches-IsSequence_example :
    All (IsSequence components extended [] context (by_opcode 56 ∷ by_opcode 0 ∷ []) program) (
      collect_sequence_matches components extended [] context program
        (by_opcode 56 ∷ by_opcode 0 ∷ []))
collect_sequence_matches-IsSequence_example =
    collect_sequence_matches-IsSequence components extended [] context program
      (by_opcode 56 ∷ by_opcode 0 ∷ [])

two_each :
    (k : ℕ) (pattern : InstructionPattern)
    → get_elem? (by_opcode 56 ∷ by_opcode 0 ∷ []) k ≡ some pattern
    → (instr : Instruction) × (get_elem? (plain 56 ∷ plain 0 ∷ []) k ≡ some instr)
      × (matches_instruction components extended context pattern instr [] ≡ ok [])
unfolding matches_instruction
two_each zero pattern there = (
  plain 56,
  refl,
  subst (λ q. matches_instruction components extended context q (plain 56) [] ≡ ok [])
      (same_some there) refl,
)
two_each (suc zero) pattern there = (
  plain 0,
  refl,
  subst (λ q. matches_instruction components extended context q (plain 0) [] ≡ ok [])
      (same_some there) refl,
)
two_each (suc (suc k)) pattern there = cc

collect_sequence_matches_complete_example :
    Has
      (λ r. r.range_start_index ≡ 2)
      (collect_sequence_matches components extended [] context program
        (by_opcode 56 ∷ by_opcode 0 ∷ []))
collect_sequence_matches_complete_example =
    collect_sequence_matches_complete components extended [] context program
      (by_opcode 56 ∷ by_opcode 0 ∷ []) 2 refl (omega arith)
      (record { captures = λ k. []; begins = refl; each = two_each })

-- A slot for a relative index matches whatever register it is relative to.
abbrev any_register : OperandIndexPattern
any_register = record {
  any = false;
  representation = relative;
  immediate_lo = none;
  immediate_hi = none;
  capture = "";
  match_capture = "";
  immediate_lo_variable = "";
  immediate_family = untyped;
}

abbrev relative_index : ℕ → Index
relative_index register = record {
  representation = relative;
  immediate_lo = none;
  immediate_hi = none;
  relative_operand = relative_to (
      operand
        (record {
          type = register;
          num_components = 2;
          component_mode = 8;
          modifier = 0;
          source_offset = 0;
          source_length = 0;
        })
        no_entries not_relative);
}

relative_unread :
    matches_operand_index components context [] any_register (relative_index 1)
    ≡ matches_operand_index components context [] any_register (relative_index 2)
unfolding matches_operand_index
relative_unread = refl

-- 2^32 + 5 stands in its two halves.
abbrev with_double : OperandHead
with_double = record {
  type = 8;
  num_components = 2;
  component_mode = 0xe4;
  modifier = 0;
  source_offset = 0;
  source_length = 0;
}

abbrev both_halves : IndexEntries
both_halves = entry immediate64 (some 5) (some 1) not_relative no_entries

literals_u64-matches_example :
    matches_operand components context
      (literals_u64 ((2 ^ 32 + 5) ∷ []))
      (operand with_double both_halves not_relative)
      []
    ≡ (if spells ((2 ^ 32 + 5) ∷ []) both_halves then ok [] else err mismatch)
literals_u64-matches_example =
    literals_u64-matches components context (2 ^ 32 + 5) [] with_double both_halves not_relative []

both_halves_spell : spells ((2 ^ 32 + 5) ∷ []) both_halves ≡ true
unfolding spells
both_halves_spell = refl

-- A slot with the name of a variable takes any value.
variable_unread :
    matches_operand components context
      (record (literals_u64 []) { immediates_u64 = variable "size" ∷ [] })
      (operand with_double both_halves not_relative)
      []
    ≡ ok []
unfolding matches_operand
variable_unread = refl
