-- ===== src/Tests/Declarations.antt =====
-- Programs of src/dxp/sm5/ShaderProgram.cpp with few declarations, and resources that are added to
-- them.
use direct_xshader_patcher.Base.{◌==◌, [], ◌∷◌, true, false, none, some, ok, err, ◌≡◌, refl, arith}
use direct_xshader_patcher.Base.Map.{insert}
use direct_xshader_patcher.Sm5.Registers.{find_next_available, allocate_bind_point}
use direct_xshader_patcher.Sm5.Registers.Allocate.{Outcome, allocate_bind_point-Outcome}
use direct_xshader_patcher.Sm5.Declarations.{
  ComponentModes, TextureDecl, CBufferDecl, InputDecl, OutputDecl, build_texture_declaration,
  build_input_declaration, build_output_declaration,
}
use direct_xshader_patcher.Sm5.Declarations.Declared.{
  ShaderProgram, declared_registers, is_added_input, is_output,
}
use direct_xshader_patcher.Sm5.Declarations.Add.{add_texture_declaration}
use direct_xshader_patcher.Sm5.Declarations.Invariant.{
  Step, Steps, WellDeclared, Steps-WellDeclared,
}
use direct_xshader_patcher.Sm5.AddResource.{
  AddState, cbuffer_class, input_class, output_class, resolve_and_add, add_signatures,
}
use direct_xshader_patcher.Sm5.AddResource.Owned.{IsOwn}
use direct_xshader_patcher.Sm5.AddResource.Signatures.{inputs-IsOwn, outputs-IsOwn}
use direct_xshader_patcher.Sm5.AddResource.Execute.{begin}

-- The first free register of 0, 1 and 3 is 2.
first_is_two : find_next_available (0 ∷ 1 ∷ 3 ∷ []) 0 false ≡ 2
unfolding find_next_available
first_is_two = refl

allocate_bind_point-Outcome_example :
    Outcome (127 ∷ []) true 127 true (allocate_bind_point (127 ∷ []) true 127 true)
allocate_bind_point-Outcome_example =
    allocate_bind_point-Outcome (127 ∷ []) true 127 true (omega arith)

last_is_126 : allocate_bind_point (127 ∷ []) true 127 true ≡ ok 126
unfolding allocate_bind_point
last_is_126 = refl

abbrev pub texture : TextureDecl
texture = record { register_index = none; reverse_bind = none; dimension = 3; handle = "mask" }

abbrev other_texture : TextureDecl
other_texture = record texture { handle = "noise" }

abbrev pub modes : ComponentModes
modes = record { swizzle_xyzw = 0xe4; mask_all = 0xf0 }

-- A program with one texture, at 0.
abbrev pub one_texture : ShaderProgram
one_texture = record {
  instructions = build_texture_declaration (record texture { register_index = some 0 }) ∷ [];
  resources = 0 ∷ [];
  samplers = [];
  cbuffers = [];
  temp_count = 0;
}

abbrev pub two_textures : ShaderProgram
two_textures = record one_texture {
  instructions =
      build_texture_declaration (record texture { register_index = some 0 })
      ∷ build_texture_declaration (record texture { register_index = some 1 })
      ∷ [];
}

pub texture_added : add_texture_declaration one_texture texture 127 ≡ ok (1, two_textures)
unfolding add_texture_declaration
texture_added = refl

one_texture-WellDeclared : WellDeclared one_texture
unfolding declared_registers
one_texture-WellDeclared = ((refl, tt), tt, tt)

Steps-WellDeclared_example : WellDeclared two_textures
Steps-WellDeclared_example =
    Steps-WellDeclared {modes = modes}
      (Steps.further Steps.done (Step.texture texture 127 1 texture_added)) one_texture-WellDeclared

-- Both handles are bound to 1, while the declarations are at 1 and 2.
abbrev three_textures : ShaderProgram
three_textures = record one_texture {
  instructions =
      build_texture_declaration (record texture { register_index = some 0 })
      ∷ build_texture_declaration (record texture { register_index = some 1 })
      ∷ build_texture_declaration (record other_texture { register_index = some 2 })
      ∷ [];
}

abbrev both_added : AddState
both_added = record {
  program = three_textures;
  bindings = ("mask", 1) ∷ ("noise", 1) ∷ [];
  added = 2;
}

-- Two constant buffers that leave the choice to the program are declared at the same register.
abbrev buffer : CBufferDecl
buffer = record {
  register_index = none;
  reverse_bind = none;
  elements = 1;
  access_pattern = 0;
  handle = "settings";
}

buffers_collide :
    (elim (resolve_and_add
      (cbuffer_class modes)
      true
      (begin one_texture [])
      (buffer ∷ buffer ∷ [])) [
        | ok s ↦ declared_registers (λ n. n == 89) s.program.instructions
        | err e ↦ []
      ])
    ≡ 0 ∷ 0 ∷ []
unfolding resolve_and_add cbuffer_class insert declared_registers
buffers_collide = refl

-- Next to an input with a system value at 0, which `AddInputDeclaration` does not count, an input
-- that leaves the choice to the program is declared at 0 as well, and its handle is bound to 0.
abbrev input : InputDecl
input = record {
  register_index = none;
  reverse_bind = none;
  interpolation_mode = 2;
  handle = "position";
}

abbrev system_value : ShaderProgram
system_value = record one_texture {
  instructions =
      record (build_input_declaration modes (record input { register_index = some 0 })) {
        opcode = 97;
      }
      ∷ [];
}

abbrev input_bound : AddState
input_bound = record {
  program = record system_value {
    instructions =
        build_input_declaration modes (record input { register_index = some 0 })
        ∷ system_value.instructions;
  };
  bindings = ("position", 0) ∷ [];
  added = 1;
}

input_over_system_value :
    add_signatures (input_class modes) true (begin system_value []) (input ∷ []) ≡ ok input_bound
unfolding add_signatures input_class insert
input_over_system_value = refl

inputs-IsOwn_example : IsOwn is_added_input input_bound
inputs-IsOwn_example =
    inputs-IsOwn modes true (input ∷ []) (begin system_value []) input_bound (tt, tt)
      input_over_system_value

-- The second of three outputs asks for the register of the first and is skipped.
abbrev output : OutputDecl
output = record { register_index = none; reverse_bind = none; handle = "color" }

abbrev two_outputs : AddState
two_outputs = record {
  program = record one_texture {
    instructions =
        build_output_declaration modes (record output { register_index = some 0 })
        ∷ build_output_declaration modes
            (record output { register_index = some 7; handle = "extra" })
        ∷ one_texture.instructions;
  };
  bindings = ("color", 0) ∷ ("extra", 7) ∷ [];
  added = 2;
}

output_skipped :
    add_signatures (output_class modes) false (begin one_texture []) (
      output
      ∷ record output { register_index = some 0; handle = "again" }
      ∷ record output { reverse_bind = some true; handle = "extra" }
      ∷ [])
    ≡ ok two_outputs
unfolding add_signatures output_class insert
output_skipped = refl

outputs-IsOwn_example : IsOwn is_output two_outputs
outputs-IsOwn_example =
    outputs-IsOwn modes false
      (output
        ∷ record output { register_index = some 0; handle = "again" }
        ∷ record output { reverse_bind = some true; handle = "extra" }
        ∷ [])
      (begin one_texture []) two_outputs (tt, tt) output_skipped
