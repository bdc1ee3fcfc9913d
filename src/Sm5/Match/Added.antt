-- ===== src/Sm5/Match/Added.antt =====
-- A texture that is declared by src/dxp/sm5/ShaderProgram.cpp as a pattern with a declaration
-- constraint sees it.
use direct_xshader_patcher.Base.{ℕ, [], ◌∷◌, Option, ◌==◌, ◌&&◌, none, some, ok, ◌≡◌, arith}
use direct_xshader_patcher.Sm5.Operands.{
  operand, OperandHead, IndexEntries, IndexRepresentation, entry, RelativeOperand,
}
use direct_xshader_patcher.Sm5.Roles.{ComponentFormat}
use direct_xshader_patcher.Sm5.Declarations.{TextureDecl}
use direct_xshader_patcher.Sm5.Declarations.Declared.{ShaderProgram}
use direct_xshader_patcher.Sm5.Declarations.Add.{add_texture_declaration}
use direct_xshader_patcher.Sm5.Lookup.{find_resource_decl, build_declaration_index}
use direct_xshader_patcher.Sm5.Lookup.Found.{add_texture_declaration-found}
use direct_xshader_patcher.Sm5.Match.{DeclConstraint, MatchContext}
use direct_xshader_patcher.Sm5.Match.Operands.{matches_decl_constraint}

-- A constraint on the dimension and on the type of the first component.
abbrev pub of_dimension : ℕ → ℕ → DeclConstraint
of_dimension dimension component = record {
  dimension = some dimension;
  return_type = some component ∷ none ∷ none ∷ none ∷ [];
  structure_stride = none;
  mode = none;
  access_pattern = none;
  semantic = none;
  interpolation = none;
}

abbrev pub with_index : ComponentFormat → ShaderProgram → MatchContext → MatchContext
with_index components q context = record context {
  declarations = build_declaration_index components q.instructions;
}

module _ (components : ComponentFormat) (context : MatchContext) where
  -- A texture is added and gets the register r. With the index that is then built, a constraint on a
  -- dimension and the first component's type holds for an operand of the type of a resource whose
  -- first index entry has the immediate value r exactly when the dimension is the declared one and
  -- the type is float.
  pub added_texture-matches :
      (p : ShaderProgram) (d : TextureDecl) (limit r : ℕ) (q : ShaderProgram)
      (dimension component : ℕ) (head : OperandHead) (rep : IndexRepresentation) (hi : Option ℕ)
      (inner : RelativeOperand) (others : IndexEntries) (outer : RelativeOperand)
      → add_texture_declaration p d limit ≡ ok (r, q)
      → head.type ≡ 7
      → matches_decl_constraint components
          (with_index components q context)
          (of_dimension dimension component)
          (operand head (entry rep (some r) hi inner others) outer)
        ≡ (dimension == d.dimension && component == 5)
  unfolding matches_decl_constraint find_resource_decl
  added_texture-matches p d limit r q dimension component head rep hi inner others outer e
        resource =
      let found = add_texture_declaration-found components p d limit r q e in
      rw resource (rw found (ground arith))
