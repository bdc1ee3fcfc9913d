-- ===== src/Sm5/Match/Collect.antt =====
-- `CollectMatches`, `CollectWindowMatches` and `CollectSequenceMatches` of
-- src/dxp/sm5/step/common/Match.cpp. Instructions are counted by native numbers, below 2^32 in
-- every program that is in memory; `instruction` of a match is the one at its index.
use direct_xshader_patcher.Base.{
  ℕ, suc, ◌+◌, ◌-◌, List, [], ◌∷◌, length, ◌||◌, ltb, ◌==◌, is_empty, String, str_eq, Option, none,
  some, Result, ok, err, ◌>>=◌, if◌then◌else◌, get_elem?,
}
use Prim.Native.String.{◌++◌ as join}
use direct_xshader_patcher.Base.Map.{insert, merge}
use direct_xshader_patcher.Sm5.Operands.{immediate32, Operand, not_relative}
use direct_xshader_patcher.Sm5.Operands.Parse.{Index}
use direct_xshader_patcher.Sm5.Roles.{ComponentFormat, OperandRole, source, read_mask, mode_of}
use direct_xshader_patcher.Sm5.Match.{OperandPattern, CapturedOperand, MatchContext, Mismatch}
use direct_xshader_patcher.Sm5.Match.Operands.{Captured}
use direct_xshader_patcher.Sm5.Match.Instructions.{
  Instruction, InstructionPattern, ExtendedFormat, matches_instruction,
}

pub record MatchResult : Type 0 where
  pub range_start_index : ℕ
  pub range_end_index : ℕ
  pub operands : List (String × CapturedOperand)
  pub instructions : List (String × Instruction)
  pub index_values : Captured

-- The index of an instruction as a captured value.
abbrev index_of : ℕ → Index
index_of i = record {
  representation = immediate32;
  immediate_lo = some i;
  immediate_hi = none;
  relative_operand = not_relative;
}

-- `extracted` of a selection mode without a meaning is all components.
abbrev all_components_mask : ℕ
all_components_mask = 0xF

-- An entry of `kInstructionLayouts`.
pub record InstructionLayout : Type 0 where
  pub roles : List OperandRole
  pub role_count : ℕ

-- What is not in the table is a source.
unfoldable pub get_operand_role : List InstructionLayout → ℕ → ℕ → OperandRole
get_operand_role layouts opcode operand_index = elim (get_elem? layouts opcode) [
  | none ↦ source
  | some layout ↦
      if ltb operand_index layout.role_count
      then elim (get_elem? layout.roles operand_index) [ none ↦ source | some role ↦ role ]
      else source
]

-- The macros of the header, and the table of layouts, which is an argument.
module _ (components : ComponentFormat) (format : ExtendedFormat)
    (layouts : List InstructionLayout) where
  unfoldable pub extract_component_mask : ℕ → ℕ
  unfolding read_mask
  extract_component_mask mode = elim (read_mask components mode) [
    | some mask ↦ mask
    | none ↦ all_components_mask
  ]

  abbrev capture_key : OperandPattern → Option String
  capture_key op = if str_eq op.capture "" then op.export_as else some op.capture

  -- Operands that are captured or exported; the first one has its mask.
  unfoldable pub capture_operands :
      ℕ
      → ℕ
      → List OperandPattern
      → List Operand
      → List (String × CapturedOperand)
      → List (String × CapturedOperand)
  unfolding insert extract_component_mask get_operand_role
  capture_operands opcode i [] operands local = local
  capture_operands opcode i (p ∷ patterns) [] local = local
  capture_operands opcode i (p ∷ patterns) (op ∷ operands) local = elim (capture_key p) [
    | none ↦ capture_operands opcode (suc i) patterns operands local
    | some key ↦
        let captured : CapturedOperand = record {
          operand_data = op;
          role = get_operand_role layouts opcode i;
          destination_mask = if i == 0 then extract_component_mask (mode_of op) else 0;
          export_as = p.export_as;
        } in
        capture_operands opcode (suc i) patterns operands (insert key captured local)
  ]

  -- An instruction that is captured by name, with its index under the name and `_index`.
  unfoldable pub capture_instruction :
      InstructionPattern → ℕ → Instruction → MatchResult → MatchResult
  unfolding capture_operands insert
  capture_instruction pattern i instr r =
      let operands = capture_operands instr.opcode 0 pattern.operands instr.operands r.operands in
      if str_eq pattern.capture "" then record r { operands = operands } else record r {
        operands = operands;
        instructions = insert pattern.capture instr r.instructions;
        index_values = insert (join pattern.capture "_index") (index_of i) r.index_values;
      }

  abbrev pub empty_match : ℕ → ℕ → Captured → MatchResult
  empty_match first last captured = record {
    range_start_index = first;
    range_end_index = last;
    operands = [];
    instructions = [];
    index_values = captured;
  }

  module _ (context : MatchContext) where
    abbrev pub matches_here : InstructionPattern → Instruction → Captured → Result Mismatch Captured
    matches_here pattern instr captured =
        matches_instruction components format context pattern instr captured

    -- The instructions from number `i` on.
    unfoldable pub collect_matches : ℕ → List Instruction → InstructionPattern → List MatchResult
    unfolding matches_instruction capture_instruction
    collect_matches i [] pattern = []
    collect_matches i (instr ∷ instrs) pattern =
        let rest = collect_matches (suc i) instrs pattern in
        elim (matches_here pattern instr []) [
          | err e ↦ rest
          | ok captured ↦ capture_instruction pattern i instr (empty_match i i captured) ∷ rest
        ]

    -- The first end at or behind the start, which is the innermost window.
    unfoldable pub find_end :
        ℕ → List Instruction → InstructionPattern → Option (ℕ × Instruction × Captured)
    unfolding matches_instruction
    find_end j [] pattern = none
    find_end j (instr ∷ instrs) pattern =
        let rest = find_end (suc j) instrs pattern in
        elim (matches_here pattern instr []) [
          | err e ↦ rest
          | ok captured ↦ some (j, instr, captured)
        ]

    -- The values of the start come before those of the end.
    abbrev pub window :
        InstructionPattern
        → InstructionPattern
        → ℕ
        → Instruction
        → Captured
        → ℕ × Instruction × Captured
        → MatchResult
    window start_pattern end_pattern i instr captured found =
        let both = merge captured found.2 in
        capture_instruction end_pattern found.0 found.1
          (capture_instruction start_pattern i instr (empty_match i found.0 both))

    unfoldable pub collect_window_matches :
        ℕ → List Instruction → InstructionPattern → InstructionPattern → List MatchResult
    unfolding matches_instruction find_end capture_instruction merge
    collect_window_matches i [] start_pattern end_pattern = []
    collect_window_matches i (instr ∷ instrs) start_pattern end_pattern =
        let rest = collect_window_matches (suc i) instrs start_pattern end_pattern in
        elim (matches_here start_pattern instr []) [
          | err e ↦ rest
          | ok captured ↦ elim (find_end i (instr ∷ instrs) end_pattern) [
            | none ↦ rest
            | some found ↦ window start_pattern end_pattern i instr captured found ∷ rest
          ]
        ]

    -- Instructions one behind another; what one captures is there for the next.
    unfoldable pub matches_sequence :
        List InstructionPattern → List Instruction → Captured → Result Mismatch Captured
    unfolding matches_instruction
    matches_sequence [] instrs captured = ok captured
    matches_sequence (pattern ∷ patterns) [] captured = err Mismatch.mismatch
    matches_sequence (pattern ∷ patterns) (instr ∷ instrs) captured =
        matches_here pattern instr captured >>= matches_sequence patterns instrs

    unfoldable pub capture_sequence :
        List InstructionPattern → ℕ → List Instruction → MatchResult → MatchResult
    unfolding capture_instruction
    capture_sequence [] i instrs r = r
    capture_sequence (pattern ∷ patterns) i [] r = r
    capture_sequence (pattern ∷ patterns) i (instr ∷ instrs) r =
        capture_sequence patterns (suc i) instrs (capture_instruction pattern i instr r)

    -- The starts from number `i` on behind which there are enough instructions.
    unfoldable pub collect_sequences_from :
        ℕ → List Instruction → List InstructionPattern → List MatchResult
    unfolding matches_sequence capture_sequence
    collect_sequences_from i [] patterns = []
    collect_sequences_from i (instr ∷ instrs) patterns =
        let rest = collect_sequences_from (suc i) instrs patterns in
        if ltb (length (instr ∷ instrs)) (length patterns)
        then []
        else elim (matches_sequence patterns (instr ∷ instrs) []) [
          | err e ↦ rest
          | ok captured ↦
              capture_sequence patterns i (instr ∷ instrs)
                (empty_match i (i + (length patterns - 1)) captured)
              ∷ rest
        ]

    unfoldable pub collect_sequence_matches :
        List Instruction → List InstructionPattern → List MatchResult
    unfolding collect_sequences_from
    collect_sequence_matches instrs patterns =
        if is_empty patterns || ltb (length instrs) (length patterns)
        then []
        else collect_sequences_from 0 instrs patterns
