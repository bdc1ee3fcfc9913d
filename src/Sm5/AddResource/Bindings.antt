-- ===== src/Sm5/AddResource/Bindings.antt =====
-- Which register the handle of an added texture is bound to.
use direct_xshader_patcher.Base.{false, none, ◌≡◌}
use direct_xshader_patcher.Base.Map.{insert}
use direct_xshader_patcher.Sm5.Registers.{find_next_available}
use direct_xshader_patcher.Sm5.Declarations.{TextureDecl}
use direct_xshader_patcher.Sm5.AddResource.{AddState}

-- A texture without a register of its own, searched for from below.
abbrev pub Automatic : TextureDecl → Type 0
Automatic d = (d.register_index ≡ none) × (d.reverse_bind ≡ none)

-- One texture more: the search will see the same registers, and the handle has the one it found.
pub record Added (s next : AddState) (d : TextureDecl) : Type 0 where
  pub resources : next.program.resources ≡ s.program.resources
  pub bindings :
      next.bindings ≡ insert d.handle (find_next_available s.program.resources 0 false) s.bindings
