-- ===== src/Sm5/Declarations/Declared.antt =====
-- The registers that a program declares, and where a new declaration goes:
-- src/dxp/sm5/ShaderProgram.cpp.
use direct_xshader_patcher.Base.{
  ℕ, ◌+◌, ◌%◌, ◌^◌, List, [], ◌∷◌, ◌++◌, take, drop, Bool, ◌||◌, ◌&&◌, ◌==◌, leb, Option, none,
  some, if◌then◌else◌,
}
use direct_xshader_patcher.Sm5.Declarations.{Index, Instruction, build_temp_declaration}
use direct_xshader_patcher.Sm5.Registers.{find_next_available}

-- Of `resources`, `samplers` and `cbuffers`, which the parser fills, the registers are kept.
pub record ShaderProgram : Type 0 where
  pub instructions : List Instruction
  pub resources : List ℕ
  pub samplers : List ℕ
  pub cbuffers : List ℕ
  pub temp_count : ℕ

abbrev pub first_entry : Instruction → Option Index
first_entry instruction = elim (instruction.operands) [
  | [] ↦ none
  | ◌∷◌ operand others ↦ elim (operand.index_entries) [ [] ↦ none | ◌∷◌ entry entries ↦ some entry ]
]

-- `*immediate_lo`; on an empty optional, where C++ leaves it undefined, it is 0 here.
abbrev pub deref : Option ℕ → ℕ
deref none = 0
deref (some n) = n

-- The register of an instruction with one of the given opcodes.
unfoldable pub declared_register : (ℕ → Bool) → Instruction → Option ℕ
declared_register is_opcode instruction =
    if is_opcode instruction.opcode
    then elim (first_entry instruction) [
      | none ↦ none
      | some entry ↦ some (deref entry.immediate_lo)
    ]
    else none

unfoldable pub declared_registers : (ℕ → Bool) → List Instruction → List ℕ
unfolding declared_register
declared_registers is_opcode [] = []
declared_registers is_opcode (instruction ∷ instructions) =
    let rest = declared_registers is_opcode instructions in
    elim (declared_register is_opcode instruction) [ none ↦ rest | some n ↦ n ∷ rest ]

abbrev pub is_srv : ℕ → Bool
is_srv opcode = opcode == 88 || (opcode == 161 || opcode == 162)

abbrev pub is_sampler : ℕ → Bool
is_sampler opcode = opcode == 90

abbrev pub is_uav : ℕ → Bool
is_uav opcode = opcode == 156 || (opcode == 157 || opcode == 158)

-- The opcodes that `CollectSignatureRegisters` looks for, and those that the `Add` functions do.
abbrev pub is_input : ℕ → Bool
is_input opcode =
    opcode == 95
    || (opcode == 98 || (opcode == 100 || (opcode == 99 || (opcode == 96 || opcode == 97))))

abbrev pub is_output : ℕ → Bool
is_output opcode = opcode == 101 || (opcode == 102 || opcode == 103)

abbrev pub is_added_input : ℕ → Bool
is_added_input opcode = opcode == 95 || (opcode == 98 || (opcode == 100 || opcode == 99))

abbrev pub signature_register : (ℕ → Bool) → Instruction → Option ℕ
signature_register is_opcode instruction =
    if is_opcode instruction.opcode
    then elim (first_entry instruction) [ none ↦ none | some entry ↦ entry.immediate_lo ]
    else none

-- `CollectSignatureRegisters`
unfoldable pub signature_registers : (ℕ → Bool) → List Instruction → List ℕ
signature_registers is_opcode [] = []
signature_registers is_opcode (instruction ∷ instructions) =
    let rest = signature_registers is_opcode instructions in
    elim (signature_register is_opcode instruction) [ none ↦ rest | some n ↦ n ∷ rest ]

unfoldable pub find_next_available_texture : ShaderProgram → ℕ → Bool → ℕ
unfolding find_next_available
find_next_available_texture program = find_next_available program.resources

unfoldable pub find_next_available_sampler : ShaderProgram → ℕ → Bool → ℕ
unfolding find_next_available
find_next_available_sampler program = find_next_available program.samplers

unfoldable pub find_next_available_cbuffer : ShaderProgram → ℕ → Bool → ℕ
unfolding find_next_available
find_next_available_cbuffer program = find_next_available program.cbuffers

unfoldable pub find_next_available_uav : ShaderProgram → ℕ → Bool → ℕ
unfolding find_next_available
find_next_available_uav program = find_next_available program.resources

unfoldable pub find_next_available_input : ShaderProgram → ℕ → Bool → ℕ
unfolding find_next_available signature_registers
find_next_available_input program =
    find_next_available (signature_registers is_input program.instructions)

unfoldable pub find_next_available_output : ShaderProgram → ℕ → Bool → ℕ
unfolding find_next_available signature_registers
find_next_available_output program =
    find_next_available (signature_registers is_output program.instructions)

-- The place behind the last instruction that passes a test; `at` is the loop's index.
unfoldable pub behind_last : (Instruction → Bool) → ℕ → ℕ → List Instruction → ℕ
behind_last test at insert_index [] = insert_index
behind_last test at insert_index (instruction ∷ instructions) =
    behind_last test (at + 1) (if test instruction then at + 1 else insert_index) instructions

unfoldable pub find_insert_after_last_declaration : ShaderProgram → ℕ → ℕ
unfolding behind_last
find_insert_after_last_declaration program opcode =
    behind_last (λ instruction. instruction.opcode == opcode) 0 0 program.instructions

-- `instructions.insert(instructions.begin() + at, instruction)`
unfoldable pub insert_at : ℕ → Instruction → ShaderProgram → ShaderProgram
insert_at at instruction program = record program {
  instructions = take at program.instructions ++ (instruction ∷ drop at program.instructions);
}

abbrev pub opcode_is_declaration : ℕ → Bool
opcode_is_declaration opcode =
    (leb 88 opcode && leb opcode 106) || (leb 143 opcode && leb opcode 162)

-- The first DCL_TEMPS is replaced; without one nothing is.
unfoldable pub replace_temps : Instruction → List Instruction → Option (List Instruction)
replace_temps temps [] = none
replace_temps temps (instruction ∷ instructions) =
    let rest = replace_temps temps instructions in
    if instruction.opcode == 104
    then some (temps ∷ instructions)
    else elim rest [ none ↦ none | some replaced ↦ some (instruction ∷ replaced) ]

unfoldable pub ensure_temp_declaration : ShaderProgram → ℕ → ShaderProgram
unfolding replace_temps behind_last insert_at
ensure_temp_declaration program template_pool_size =
    let count = (program.temp_count + template_pool_size) % 2 ^ 32 in
    let temps = build_temp_declaration count in
    if count == 0 then program else elim (replace_temps temps program.instructions) [
      | some instructions ↦ record program { instructions = instructions }
      | none ↦
          insert_at
            (behind_last (λ instruction. opcode_is_declaration instruction.opcode) 0 0
              program.instructions)
            temps program
    ]
