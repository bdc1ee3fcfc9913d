-- ===== src/Sm5/AddResource.antt =====
-- `Execute` of src/dxp/sm5/step/AddResourceStep.cpp for the declarations with a handle: the loop
-- `resolve_and_add` for each class of resource and the loops over inputs and outputs, with the
-- bindings that later steps look up. The types and the metadata of a binding and the log are left
-- out.
pub mod Bindings
pub mod Owned
pub mod Signatures
pub mod Execute
use direct_xshader_patcher.Base.{
  ℕ, suc, ◌+◌, ◌^◌, ◌%◌, List, [], ◌∷◌, Bool, true, false, not, ltb, Option, none, some, Result, ok,
  err, ◌>>=◌, ◌>>◌, require, String, if◌then◌else◌,
}
use direct_xshader_patcher.Base.Map.{insert}
use direct_xshader_patcher.Sm5.Registers.{BindError}
use direct_xshader_patcher.Sm5.Declarations.{
  ComponentModes, TextureDecl, RawResourceDecl, StructuredResourceDecl, CBufferDecl, SamplerDecl,
  UavDecl, InputDecl, OutputDecl, value_or,
}
use direct_xshader_patcher.Sm5.Declarations.Declared.{
  ShaderProgram, find_next_available_texture, find_next_available_sampler,
  find_next_available_cbuffer, find_next_available_uav, find_next_available_input,
  find_next_available_output, ensure_temp_declaration,
}
use direct_xshader_patcher.Sm5.Declarations.Add.{
  add_texture_declaration, add_raw_resource_declaration, add_structured_resource_declaration,
  add_cbuffer_declaration, add_sampler_declaration, add_uav_declaration, add_input_declaration,
  add_output_declaration,
}

pub data AddError : Type 0 where
  exceeds_maximum auto_bind_exhausted : ℕ → AddError
  not_declared : String → BindError → AddError
  too_many_temps : ℕ → AddError

-- What the calls of `resolve_and_add` for a class pass, and what the loops over inputs and outputs call:
-- `add_decl`, `find_next` and the maximum, with the members that every declaration has.
pub record ResourceClass (D : Type 0) : Type 0 where
  pub register_index : D → Option ℕ
  pub reverse_bind : D → Option Bool
  pub handle : D → String
  pub add_decl : ShaderProgram → D → ℕ → Result BindError (ℕ × ShaderProgram)
  pub find_next : ShaderProgram → ℕ → Bool → ℕ
  pub max_bind_point : ℕ

unfoldable pub texture_class : ResourceClass TextureDecl
unfolding add_texture_declaration find_next_available_texture
texture_class = record {
  register_index = λ d. d.register_index;
  reverse_bind = λ d. d.reverse_bind;
  handle = λ d. d.handle;
  add_decl = add_texture_declaration;
  find_next = find_next_available_texture;
  max_bind_point = 127;
}

unfoldable pub raw_resource_class : ResourceClass RawResourceDecl
unfolding add_raw_resource_declaration find_next_available_texture
raw_resource_class = record {
  register_index = λ d. d.register_index;
  reverse_bind = λ d. d.reverse_bind;
  handle = λ d. d.handle;
  add_decl = add_raw_resource_declaration;
  find_next = find_next_available_texture;
  max_bind_point = 127;
}

unfoldable pub structured_resource_class : ResourceClass StructuredResourceDecl
unfolding add_structured_resource_declaration find_next_available_texture
structured_resource_class = record {
  register_index = λ d. d.register_index;
  reverse_bind = λ d. d.reverse_bind;
  handle = λ d. d.handle;
  add_decl = add_structured_resource_declaration;
  find_next = find_next_available_texture;
  max_bind_point = 127;
}

unfoldable pub cbuffer_class : ComponentModes → ResourceClass CBufferDecl
unfolding add_cbuffer_declaration find_next_available_cbuffer
cbuffer_class modes = record {
  register_index = λ d. d.register_index;
  reverse_bind = λ d. d.reverse_bind;
  handle = λ d. d.handle;
  add_decl = add_cbuffer_declaration modes;
  find_next = find_next_available_cbuffer;
  max_bind_point = 14;
}

unfoldable pub sampler_class : ResourceClass SamplerDecl
unfolding add_sampler_declaration find_next_available_sampler
sampler_class = record {
  register_index = λ d. d.register_index;
  reverse_bind = λ d. d.reverse_bind;
  handle = λ d. d.handle;
  add_decl = add_sampler_declaration;
  find_next = find_next_available_sampler;
  max_bind_point = 15;
}

unfoldable pub uav_class : ResourceClass UavDecl
unfolding add_uav_declaration find_next_available_uav
uav_class = record {
  register_index = λ d. d.register_index;
  reverse_bind = λ d. d.reverse_bind;
  handle = λ d. d.handle;
  add_decl = add_uav_declaration;
  find_next = find_next_available_uav;
  max_bind_point = 63;
}

-- The same members for the two loops over a shader's inputs and outputs.
unfoldable pub input_class : ComponentModes → ResourceClass InputDecl
unfolding add_input_declaration find_next_available_input
input_class modes = record {
  register_index = λ d. d.register_index;
  reverse_bind = λ d. d.reverse_bind;
  handle = λ d. d.handle;
  add_decl = add_input_declaration modes;
  find_next = find_next_available_input;
  max_bind_point = 31;
}

unfoldable pub output_class : ComponentModes → ResourceClass OutputDecl
unfolding add_output_declaration find_next_available_output
output_class modes = record {
  register_index = λ d. d.register_index;
  reverse_bind = λ d. d.reverse_bind;
  handle = λ d. d.handle;
  add_decl = add_output_declaration modes;
  find_next = find_next_available_output;
  max_bind_point = 7;
}

-- The program, the bindings of one class, and how many were added.
pub record AddState : Type 0 where
  pub program : ShaderProgram
  pub bindings : List (String × ℕ)
  pub added : ℕ

module _ {D : Type 0} (class : ResourceClass D) where
  -- `bind_point` as the requested or the next available register; above the maximum it is refused.
  unfoldable pub bind_point_of : ShaderProgram → D → Result AddError ℕ
  bind_point_of program decl = elim (class.register_index decl) [
    | some n ↦ if ltb class.max_bind_point n then err (exceeds_maximum n) else ok n
    | none ↦
        let reverse = value_or (class.reverse_bind decl) false in
        let n =
          if reverse
          then class.find_next program class.max_bind_point true
          else class.find_next program 0 false in
        if ltb class.max_bind_point n then err (auto_bind_exhausted class.max_bind_point) else ok n
  ]

  -- `add_decl` writes the register that it chooses into the lambda's own copy of `bind_point`, so that
  -- the binding keeps the one that was found before.
  unfoldable pub add_one : AddState → D → Result AddError AddState
  unfolding bind_point_of
  add_one state decl = do
    bind_point ← bind_point_of state.program decl
    elim (class.add_decl state.program decl class.max_bind_point) [
      | err e ↦ err (not_declared (class.handle decl) e)
      | ok (register, program) ↦ ok (record {
        program = program;
        bindings = insert (class.handle decl) bind_point state.bindings;
        added = state.added + 1;
      })
    ]

  -- A failure ends the step when the step is required, and is skipped with a warning otherwise.
  unfoldable pub resolve_and_add : Bool → AddState → List D → Result AddError AddState
  unfolding add_one
  resolve_and_add required state [] = ok state
  resolve_and_add required state (decl ∷ decls) = elim (add_one state decl) [
    | ok next ↦ resolve_and_add required next decls
    | err e ↦ if required then err e else resolve_and_add required state decls
  ]

  -- A round of the loops over inputs and outputs. The `Add` function is called on `bind_point` itself,
  -- so that the handle is bound to the register that it chooses.
  unfoldable pub add_signature : AddState → D → Result AddError AddState
  unfolding bind_point_of
  add_signature state decl = do
    bind_point ← bind_point_of state.program decl
    elim (class.add_decl state.program decl class.max_bind_point) [
      | err e ↦ err (not_declared (class.handle decl) e)
      | ok (register, program) ↦ ok (record {
        program = program;
        bindings = insert (class.handle decl) register state.bindings;
        added = state.added + 1;
      })
    ]

  unfoldable pub add_signatures : Bool → AddState → List D → Result AddError AddState
  unfolding add_signature
  add_signatures required state [] = ok state
  add_signatures required state (decl ∷ decls) = elim (add_signature state decl) [
    | ok next ↦ add_signatures required next decls
    | err e ↦ if required then err e else add_signatures required state decls
  ]
