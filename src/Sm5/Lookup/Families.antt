-- ===== src/Sm5/Lookup/Families.antt =====
-- The six maps of the index of src/dxp/sm5/DeclarationIndex.hpp as one family, with the opcodes of
-- each.
use direct_xshader_patcher.Base.{
  ℕ, List, [], ◌∷◌, Bool, true, ◌==◌, some, if◌then◌else◌, ◌≡◌, refl, arith,
}
use direct_xshader_patcher.Sm5.Declarations.Declared.{
  is_srv, is_sampler, is_uav, is_input, is_output,
}
use direct_xshader_patcher.Sm5.Lookup.{
  SignatureDecl, ResourceDeclInfo, CBufferDeclInfo, DeclarationIndex, find_register,
  insert_or_assign, Family, family_of,
}

pub find_register-insert_or_assign {ℓ} :
    {A : Type ℓ} (key asked : ℕ) (a : A) (entries : List (ℕ × A))
    → find_register asked (insert_or_assign key a entries)
      ≡ (if key == asked then some a else find_register asked entries)
unfolding insert_or_assign find_register
find_register-insert_or_assign key asked a [] = refl
find_register-insert_or_assign key asked a ((k, b) ∷ entries) =
    ground (find_register-insert_or_assign key asked a entries, arith)

-- What an entry of a family's map is.
abbrev pub Info : Family → Type 0
Info Family.textures = ResourceDeclInfo
Info Family.uavs = ResourceDeclInfo
Info Family.samplers = ℕ
Info Family.cbuffers = CBufferDeclInfo
Info Family.inputs = SignatureDecl
Info Family.outputs = SignatureDecl

abbrev pub map_of : (family : Family) → DeclarationIndex → List (ℕ × Info family)
map_of Family.textures index = index.textures
map_of Family.uavs index = index.uavs
map_of Family.samplers index = index.samplers
map_of Family.cbuffers index = index.cbuffers
map_of Family.inputs index = index.inputs
map_of Family.outputs index = index.outputs

-- The opcodes of a family.
abbrev pub is_of : Family → ℕ → Bool
is_of Family.textures opcode = is_srv opcode
is_of Family.uavs opcode = is_uav opcode
is_of Family.samplers opcode = is_sampler opcode
is_of Family.cbuffers opcode = opcode == 89
is_of Family.inputs opcode = is_input opcode
is_of Family.outputs opcode = is_output opcode

pub is_of-family_of :
    (family : Family) (opcode : ℕ) → family_of opcode ≡ some family → is_of family opcode ≡ true
is_of-family_of Family.textures opcode e = ground arith
is_of-family_of Family.uavs opcode e = ground arith
is_of-family_of Family.samplers opcode e = ground arith
is_of-family_of Family.cbuffers opcode e = ground arith
is_of-family_of Family.inputs opcode e = ground arith
is_of-family_of Family.outputs opcode e = ground arith

pub family_of-is_of :
    (family : Family) (opcode : ℕ) → is_of family opcode ≡ true → family_of opcode ≡ some family
family_of-is_of Family.textures opcode e = ground arith
family_of-is_of Family.uavs opcode e = ground arith
family_of-is_of Family.samplers opcode e = ground arith
family_of-is_of Family.cbuffers opcode e = ground arith
family_of-is_of Family.inputs opcode e = ground arith
family_of-is_of Family.outputs opcode e = ground arith
