-- ===== src/Sm5/Declarations/Add.antt =====
-- The functions `Add...Declaration` of src/dxp/sm5/ShaderProgram.cpp: the register that they choose,
-- and the program with the new declaration.
use direct_xshader_patcher.Base.{
  ℕ, List, Bool, false, Option, some, is_absent, is_present, Result, ok, ◌>>=◌, if◌then◌else◌,
}
use direct_xshader_patcher.Sm5.Registers.{BindError, allocate_bind_point}
use direct_xshader_patcher.Sm5.Declarations.{
  Instruction, ComponentModes, value_or, TextureDecl, RawResourceDecl, StructuredResourceDecl,
  CBufferDecl, SamplerDecl, UavDecl, InputDecl, OutputDecl, build_texture_declaration,
  build_raw_resource_declaration, build_structured_resource_declaration,
  build_constant_buffer_declaration, build_sampler_declaration, build_uav_declaration,
  build_input_declaration, build_output_declaration,
}
use direct_xshader_patcher.Sm5.Declarations.Declared.{
  ShaderProgram, declared_register, declared_registers, is_srv, is_sampler, is_uav, is_added_input,
  is_output, behind_last, find_insert_after_last_declaration, insert_at,
}

-- `is_auto`, `reverse` and `requested`, and the call of `AllocateBindPoint`.
unfoldable pub choose_register : List ℕ → Option ℕ → Option Bool → ℕ → Result BindError ℕ
unfolding allocate_bind_point
choose_register occupied register_index reverse_bind max_bind_point =
    let is_auto = is_absent register_index in
    let reverse = value_or reverse_bind false in
    let start = if reverse then max_bind_point else 0 in
    allocate_bind_point occupied is_auto (value_or register_index start) reverse

unfoldable pub add_texture_declaration :
    ShaderProgram → TextureDecl → ℕ → Result BindError (ℕ × ShaderProgram)
unfolding choose_register declared_registers find_insert_after_last_declaration insert_at
add_texture_declaration program decl max_bind_point = do
  register ←
      choose_register (declared_registers is_srv program.instructions) decl.register_index
        decl.reverse_bind max_bind_point
  let resolved = record decl { register_index = some register }
  ok (
    register,
    insert_at (find_insert_after_last_declaration program 88) (build_texture_declaration resolved)
        program,
  )

unfoldable pub add_raw_resource_declaration :
    ShaderProgram → RawResourceDecl → ℕ → Result BindError (ℕ × ShaderProgram)
unfolding choose_register declared_registers find_insert_after_last_declaration insert_at
add_raw_resource_declaration program decl max_bind_point = do
  register ←
      choose_register (declared_registers is_srv program.instructions) decl.register_index
        decl.reverse_bind max_bind_point
  let resolved = record decl { register_index = some register }
  ok (
    register,
    insert_at (find_insert_after_last_declaration program 161)
        (build_raw_resource_declaration resolved) program,
  )

unfoldable pub add_structured_resource_declaration :
    ShaderProgram → StructuredResourceDecl → ℕ → Result BindError (ℕ × ShaderProgram)
unfolding choose_register declared_registers find_insert_after_last_declaration insert_at
add_structured_resource_declaration program decl max_bind_point = do
  register ←
      choose_register (declared_registers is_srv program.instructions) decl.register_index
        decl.reverse_bind max_bind_point
  let resolved = record decl { register_index = some register }
  ok (
    register,
    insert_at (find_insert_after_last_declaration program 162)
        (build_structured_resource_declaration resolved) program,
  )

-- The registers in use are those that the parser has found.
unfoldable pub add_cbuffer_declaration :
    ComponentModes → ShaderProgram → CBufferDecl → ℕ → Result BindError (ℕ × ShaderProgram)
unfolding choose_register find_insert_after_last_declaration insert_at
add_cbuffer_declaration modes program decl max_bind_point = do
  register ← choose_register program.cbuffers decl.register_index decl.reverse_bind max_bind_point
  let resolved = record decl { register_index = some register }
  ok (
    register,
    insert_at (find_insert_after_last_declaration program 89)
        (build_constant_buffer_declaration modes resolved) program,
  )

unfoldable pub add_sampler_declaration :
    ShaderProgram → SamplerDecl → ℕ → Result BindError (ℕ × ShaderProgram)
unfolding choose_register declared_registers find_insert_after_last_declaration insert_at
add_sampler_declaration program decl max_bind_point = do
  register ←
      choose_register (declared_registers is_sampler program.instructions) decl.register_index
        decl.reverse_bind max_bind_point
  let resolved = record decl { register_index = some register }
  ok (
    register,
    insert_at (find_insert_after_last_declaration program 90) (build_sampler_declaration resolved)
        program,
  )

unfoldable pub add_uav_declaration :
    ShaderProgram → UavDecl → ℕ → Result BindError (ℕ × ShaderProgram)
unfolding choose_register declared_registers find_insert_after_last_declaration insert_at
    build_uav_declaration
add_uav_declaration program decl max_bind_point = do
  register ←
      choose_register (declared_registers is_uav program.instructions) decl.register_index
        decl.reverse_bind max_bind_point
  let resolved = record decl { register_index = some register }
  ok (
    register,
    insert_at (find_insert_after_last_declaration program 156) (build_uav_declaration resolved)
        program,
  )

-- The loop of both signatures also finds the place behind the last declaration.
unfoldable pub add_signature_declaration :
    (ℕ → Bool)
    → ShaderProgram
    → Option ℕ
    → Option Bool
    → (ℕ → Instruction)
    → ℕ
    → Result BindError (ℕ × ShaderProgram)
unfolding choose_register declared_registers declared_register behind_last insert_at
add_signature_declaration is_opcode program register_index reverse_bind build max_bind_point = do
  register ←
      choose_register (declared_registers is_opcode program.instructions) register_index
        reverse_bind max_bind_point
  let place =
      behind_last (λ instruction. is_present (declared_register is_opcode instruction)) 0 0
        program.instructions
  ok (register, insert_at place (build register) program)

unfoldable pub add_input_declaration :
    ComponentModes → ShaderProgram → InputDecl → ℕ → Result BindError (ℕ × ShaderProgram)
unfolding add_signature_declaration
add_input_declaration modes program decl =
    add_signature_declaration is_added_input program decl.register_index decl.reverse_bind
      (λ n. build_input_declaration modes (record decl { register_index = some n }))

unfoldable pub add_output_declaration :
    ComponentModes → ShaderProgram → OutputDecl → ℕ → Result BindError (ℕ × ShaderProgram)
unfolding add_signature_declaration
add_output_declaration modes program decl =
    add_signature_declaration is_output program decl.register_index decl.reverse_bind
      (λ n. build_output_declaration modes (record decl { register_index = some n }))
