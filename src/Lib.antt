-- ===== src/Lib.antt =====
-- DirectXShaderPatcher: a library that applies recipes to compiled shaders. A recipe is a list of
-- steps (rules, added resources, checks, templates); the engine runs them in order over a backend for
-- shader model 5 or 6, and serializes the changed program with new hashes.
--
-- The parts and where they are modelled:
--   * Hash: src/dxp/utils/Hash.hpp. Hash/Crc32 has ComputeCrc32 with its table in Hash/Crc32Table;
--     Hash/Md5 has the class MD5Hasher, a record of block, size and state, with Update (`update`),
--     PadBlock (`pad_block`), GetDigest and Finalize, and ProcessBlock in Hash/Md5/Compress. The
--     reference definitions are in Hash/Crc32/Reference and Hash/Md5/Reference.
--   * CBufferLayout: src/dxp/CBufferLayout.cpp with the types of include/dxp/ExportTypes.hpp. One
--     round of the loop of BuildCBufferLayout is `build_field`, its end is `finish_layout`.
--   * Condition: include/dxp/Condition.hpp, src/dxp/Condition_impl.hpp and src/dxp/Condition.cpp. The
--     YAML form and Compile are in Condition/Data, ValidateConditionNode in Condition/Validate, the
--     resolver in Condition/Resolver, EngineEvaluator in Condition/Evaluate, EvaluateComparison in
--     Condition/Compare.
--   * Results: include/dxp/StepResults.hpp and src/dxp/ResultFieldTraits.hpp.
--   * Engine: ExecuteSteps of src/dxp/RecipeEngine.hpp. Engine/Context has the state, Engine/Loop the
--     function; the backend's types, the Execute of a step and both factories are parameters.
--   * Variables: src/dxp/VariableStore.hpp, and UpperHex32 of src/dxp/RecipeEngine.hpp.
--   * CheckSteps: ValidateStepList of src/dxp/RecipeEngine.hpp for lists of check steps, and the counts
--     of the opcode steps of both backends and of the SM5 resource step, which sum native
--     numbers in place of `int32_t`; GetOpcodeCounts of the program is an argument.
--   * Dds: tools/reshade_addon/dds.cpp. FormatFromLegacy and ComputeSurface are in Dds, LoadDds on the
--     bytes of a file in Dds/Load; its two pairs of nested loops go over the list of levels.
--   * Sm5/Container: the DXBC container of src/dxp/sm5/ShaderProgram.cpp. FromBytes up to the shader's
--     tokens is in Sm5/Container/Load, Serialize in Sm5/Container/Serialize, ComputeDXBCHash in
--     Sm5/Container/Digest, BuildReport in Sm5/Container/Report. A copy by memcpy is in Sm5/Bytes, where
--     one that leaves its buffer is an error. The encoded tokens of the shader are an argument.
--   * Sm5/Tokens: how ParseProgramImpl of the same file cuts a shader's tokens into instructions; a round
--     of its loop is `parse_span`. The controls of an instruction are not parsed.
--   * Sm5/Operands: an operand's tokens. EncodeOperandToken0 and Operand::Encode of
--     src/dxp/sm5/Model.cpp are there, operator== in Sm5/Operands/Equal, ParseOperand of
--     src/dxp/sm5/ShaderProgram.cpp in Sm5/Operands/Parse, and the loop over the operands of an
--     instruction in Sm5/Operands/Sequence. The bit fields of a token are the macros of the Windows
--     header, parameters whose documented layout is a hypothesis.
--   * Sm5/Roles: ResolveForRole and ValidateForRole of the same file.
--   * Sm5/Match: src/dxp/sm5/step/common/Match.cpp. MatchesOperand and its parts are in
--     Sm5/Match/Operands, MatchesInstruction in Sm5/Match/Instructions, CollectMatches,
--     CollectWindowMatches and CollectSequenceMatches in Sm5/Match/Collect, IndexPatterns of
--     include/dxp/sm5/step/common/Rule.hpp in Sm5/Match/Patterns. The table of instruction layouts is
--     an argument.
--   * Sm5/Lookup: the declaration index of src/dxp/sm5/DeclarationIndex.hpp, which matching reads, with
--     BuildDeclarationIndex and FindResourceDecl over the instructions of Sm5/Declarations.
--   * Sm5/Registers: the searches of FindNextAvailableTexture and its siblings, and AllocateBindPoint.
--   * Sm5/Declarations: the declarations that the same file builds and the Add...Declaration functions,
--     over a program whose instructions have the members that declarations use. Sm5/Declarations/Declared
--     has the registers in use, Sm5/Declarations/Invariant a sequence of additions as a relation.
--   * Sm5/AddResource: Execute of src/dxp/sm5/step/AddResourceStep.cpp, a round of resolve_and_add as
--     `add_one`, one of the loops over inputs and outputs as `add_signature`, and the whole in
--     Sm5/AddResource/Execute.
--   * DrawState: tools/reshade_addon/draw_state.hpp, the class SavedSlots, over a device that is a
--     function of the slot. DrawState/View is what the game has bound, DrawState/Session a sequence of
--     what the add-on (HandleDraw of tools/reshade_addon/runtime.cpp) and the game do.
--   * Base: what the parts share. Tests: concrete inputs.
--
-- The engine evaluates a step's condition against its state before it runs the step, and the
-- condition reads the results of earlier steps; the other parts are called by the backends.
--
-- Numbers are native and keep the width of the source as a remainder. A `double` is a parameter with
-- the operations that are used. A `std::unordered_map` is an association list, whose keys are
-- distinct where a theorem says so. A value left behind by `std::move` is what the backend says it
-- is. The loop over whole blocks in MD5Hasher::Update has as fuel the length of the input, the
-- search for a free register the number of registers in use, the loop over a shader's tokens their
-- number, and ParseOperand and the loop over operands the tokens of the instruction, which no run
-- exceeds; all other loops are structural.
--
-- Not modelled: reading YAML, the log and the text of the summary; the controls of instructions and
-- Instruction::Encode; what the rule and template steps of the SM5 backend do with their matches, and
-- how patterns are compiled; Validate and Compile of its resource step; the SM6 backend, which calls
-- the DirectXShaderCompiler; the other tools.
mod Base
pub mod Hash
pub mod CBufferLayout
pub mod Condition
pub mod Results
pub mod Engine
pub mod Variables
pub mod CheckSteps
pub mod Dds
pub mod Sm5
pub mod DrawState
pub mod Tests
