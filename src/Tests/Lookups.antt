-- ===== src/Tests/Lookups.antt =====
-- The declaration index of programs with one and two textures, and of one with a view.
use direct_xshader_patcher.Base.{ℕ, [], ◌∷◌, true, false, none, some, ok, ◌≡◌, refl}
use direct_xshader_patcher.Sm5.Declarations.{
  Instruction, make_output_operand, build_output_declaration, UavDecl, UavKind,
  build_uav_declaration,
}
use direct_xshader_patcher.Sm5.Declarations.Declared.{ShaderProgram}
use direct_xshader_patcher.Sm5.Declarations.Add.{add_uav_declaration}
use direct_xshader_patcher.Sm5.Declarations.Invariant.{Step, Steps}
use direct_xshader_patcher.Sm5.Lookup.{
  Family, ResourceDeclInfo, find_resource_decl, find_register, signature_info,
  build_declaration_index,
}
use direct_xshader_patcher.Sm5.Lookup.Families.{map_of}
use direct_xshader_patcher.Sm5.Lookup.Last.{last_declared, build_declaration_index-find}
use direct_xshader_patcher.Sm5.Lookup.Added.{indexed, Steps-indexed}
use direct_xshader_patcher.Sm5.Lookup.Found.{add_uav_declaration-found}
use direct_xshader_patcher.Sm5.Operands.{
  OperandHead, operand, entry, immediate32, not_relative, no_entries,
}
use direct_xshader_patcher.Sm5.Match.Operands.{matches_decl_constraint}
use direct_xshader_patcher.Sm5.Match.Added.{of_dimension, with_index, added_texture-matches}
use direct_xshader_patcher.Tests.Matches.{components, context}
use direct_xshader_patcher.Tests.Declarations.{
  texture, modes, one_texture, two_textures, texture_added,
}

abbrev texture_at : ResourceDeclInfo
texture_at = record {
  register_bind_point = 1;
  dimension = 3;
  return_types = 5 ∷ 5 ∷ 5 ∷ 5 ∷ [];
  structure_stride = 0;
  uav_flags = 0;
}

build_declaration_index-find_example :
    find_register 1
      (map_of Family.textures (build_declaration_index components two_textures.instructions))
    ≡ last_declared components Family.textures 1 two_textures.instructions
build_declaration_index-find_example =
    build_declaration_index-find components Family.textures 1 two_textures.instructions

last_is_there :
    last_declared components Family.textures 1 two_textures.instructions ≡ some texture_at
unfolding last_declared
last_is_there = refl

abbrev sampled : OperandHead
sampled = record {
  type = 7;
  num_components = 2;
  component_mode = 0xE44;
  modifier = 0;
  source_offset = 0;
  source_length = 0;
}

added_texture-matches_example :
    matches_decl_constraint components
      (with_index components two_textures context)
      (of_dimension 3 5)
      (operand sampled (entry immediate32 (some 1) none not_relative no_entries) not_relative)
    ≡ true
added_texture-matches_example =
    added_texture-matches components context one_texture texture 127 1 two_textures 3 5 sampled
      immediate32 none not_relative no_entries not_relative texture_added refl

-- The texture at 0 is still in the index when one at 1 is added.
Steps-indexed_example :
    indexed components Family.textures 0 two_textures
    ≡ some (record texture_at { register_bind_point = 0 })
unfolding find_register build_declaration_index
Steps-indexed_example =
    Steps-indexed components {modes = modes} Family.textures 0 _ tt
      (Steps.further Steps.done (Step.texture texture 127 1 texture_added)) refl

abbrev view : UavDecl
view = record {
  register_index = none;
  reverse_bind = some true;
  kind = UavKind.structured;
  dimension = 0;
  structure_stride = 16;
  globally_coherent = false;
  has_order_preserving_counter = true;
  handle = "counters";
}

abbrev one_view : ShaderProgram
one_view = record one_texture {
  instructions =
      build_uav_declaration (record view { register_index = some 63 }) ∷ one_texture.instructions;
}

view_added : add_uav_declaration one_texture view 63 ≡ ok (63, one_view)
unfolding add_uav_declaration
view_added = refl

add_uav_declaration-found_example :
    find_resource_decl (build_declaration_index components one_view.instructions) 30 63
    ≡ some (record {
      register_bind_point = 63;
      dimension = 12;
      return_types = 5 ∷ 5 ∷ 5 ∷ 5 ∷ [];
      structure_stride = 16;
      uav_flags = 0x800000;
    })
add_uav_declaration-found_example =
    add_uav_declaration-found components one_texture view 63 63 one_view view_added

-- The mask of all components and the reading of all components have different write masks.
abbrev output : ℕ → Instruction
output mode =
    record (build_output_declaration modes
      (record { register_index = some 2; reverse_bind = none; handle = "color" })) {
        operands = (record (make_output_operand modes 2) { component_mode = mode }) ∷ [];
      }

writemask_shifted :
    ((signature_info components 2 (output 0xF0)).writemask ≡ 0xF0)
    × ((signature_info components 2 (output 0xE44)).writemask ≡ 0xF)
writemask_shifted = (refl, refl)
