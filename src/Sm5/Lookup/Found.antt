-- ===== src/Sm5/Lookup/Found.antt =====
-- What `FindResourceDecl` returns for a resource that `AddTextureDeclaration` or `AddUavDeclaration`
-- has declared, and what matching makes of it.
use direct_xshader_patcher.Base.{
  ℕ, ◌>>=◌, bit_or, [], ◌∷◌, true, false, ◌==◌, Result, ok, ok_injective, >>=-eq-ok, some,
  if◌then◌else◌, ◌≡◌, refl, sym, ap, ◌∙◌, subst, arith,
}
use direct_xshader_patcher.Sm5.Roles.{ComponentFormat}
use direct_xshader_patcher.Sm5.Registers.{BindError, contains}
use direct_xshader_patcher.Sm5.Declarations.{
  TextureDecl, build_texture_declaration, UavDecl, UavKind, build_uav_declaration, coherent_flag,
  counter_flag, Instruction,
}
use direct_xshader_patcher.Sm5.Declarations.Declared.{ShaderProgram, declared_registers, insert_at}
use direct_xshader_patcher.Sm5.Declarations.Add.{add_texture_declaration, add_uav_declaration}
use direct_xshader_patcher.Sm5.Declarations.Distinct.{choose_register-free}
use direct_xshader_patcher.Sm5.Lookup.{
  Family, ResourceDeclInfo, find_resource_decl, uav_info, build_declaration_index,
}
use direct_xshader_patcher.Sm5.Lookup.Families.{is_of}
use direct_xshader_patcher.Sm5.Lookup.Last.{declares, info_of}
use direct_xshader_patcher.Sm5.Lookup.Added.{indexed, indexed-insert_at_here}

module _ (format : ComponentFormat) where
  -- A function that chooses a register and inserts a declaration of it.
  chosen-found :
      (f : Family) {r : ℕ} {q : ShaderProgram} (p : ShaderProgram) (chosen : Result BindError ℕ)
      (place : ℕ) (build : ℕ → Instruction)
      → ((n : ℕ)
          → chosen ≡ ok n
          → (declares f n (build n) ≡ true)
            × (contains (declared_registers (is_of f) p.instructions) n ≡ false))
      → ◌>>=◌ {B = ℕ × ShaderProgram} chosen (λ n. ok (n, insert_at place (build n) p)) ≡ ok (r, q)
      → indexed format f r q ≡ some (info_of format f r (build r))
  chosen-found f {r = r} {q = q} p chosen place build fresh e =
      let (n, picked, same) = >>=-eq-ok chosen _ e in
      let both : (n, insert_at place (build n) p) ≡ (r, q) = ok_injective same in
      let number : n ≡ r = ap (λ t. t.0) both in
      let (here, free) = fresh n picked in
      ap (indexed format f r) (sym (ap (λ t. t.1) both))
      ∙ subst
          (λ k.
            indexed format f k (insert_at place (build n) p) ≡ some (info_of format f k (build k)))
          number (indexed-insert_at_here format f n place (build n) p here free)

  itself : (n : ℕ) → (n == n) ≡ true
  itself n = ground arith

  -- A texture that is added to a program is in its index, under the register that it got and the
  -- type of a resource, with the dimension that was asked for and four float components.
  pub add_texture_declaration-found :
      (p : ShaderProgram) (d : TextureDecl) (limit r : ℕ) (q : ShaderProgram)
      → add_texture_declaration p d limit ≡ ok (r, q)
      → find_resource_decl (build_declaration_index format q.instructions) 7 r
        ≡ some (record {
          register_bind_point = r;
          dimension = d.dimension;
          return_types = 5 ∷ 5 ∷ 5 ∷ 5 ∷ [];
          structure_stride = 0;
          uav_flags = 0;
        })
  unfolding add_texture_declaration find_resource_decl
  add_texture_declaration-found p d limit r q e =
      chosen-found Family.textures p _ _
        (λ n. build_texture_declaration (record d { register_index = some n }))
        (λ n h. (itself n, choose_register-free _ _ d.reverse_bind limit n h)) e

  -- What the index should say of a view, by its kind.
  abbrev view_info : UavDecl → ℕ → ResourceDeclInfo
  view_info d r = elim (d.kind) [
    | UavKind.typed ↦ record {
      register_bind_point = r;
      dimension = d.dimension;
      return_types = 5 ∷ 5 ∷ 5 ∷ 5 ∷ [];
      structure_stride = 0;
      uav_flags = coherent_flag d.globally_coherent;
    }
    | UavKind.raw ↦ record {
      register_bind_point = r;
      dimension = 11;
      return_types = 5 ∷ 5 ∷ 5 ∷ 5 ∷ [];
      structure_stride = 0;
      uav_flags = coherent_flag d.globally_coherent;
    }
    | UavKind.structured ↦ record {
      register_bind_point = r;
      dimension = 12;
      return_types = 5 ∷ 5 ∷ 5 ∷ 5 ∷ [];
      structure_stride = d.structure_stride;
      uav_flags =
          if d.has_order_preserving_counter
          then bit_or (coherent_flag d.globally_coherent) counter_flag
          else coherent_flag d.globally_coherent;
    }
  ]

  view_declares :
      (k : UavKind) (d : UavDecl) (n : ℕ)
      → declares Family.uavs n
          (build_uav_declaration (record d { kind = k; register_index = some n }))
        ≡ true
  unfolding build_uav_declaration
  view_declares UavKind.typed d n = itself n
  view_declares UavKind.raw d n = itself n
  view_declares UavKind.structured d n = itself n

  view_says :
      (k : UavKind) (d : UavDecl) (r : ℕ)
      → uav_info r (build_uav_declaration (record d { kind = k; register_index = some r }))
        ≡ view_info (record d { kind = k }) r
  unfolding build_uav_declaration
  view_says UavKind.typed d r = refl
  view_says UavKind.raw d r = refl
  view_says UavKind.structured d r = refl

  -- An unordered access view that is added to a program is in its index, under the register that it
  -- got and the type of a view: a raw one as a raw buffer, a structured one as a structured buffer
  -- with its stride and the flag of its counter, a typed one with its dimension.
  pub add_uav_declaration-found :
      (p : ShaderProgram) (d : UavDecl) (limit r : ℕ) (q : ShaderProgram)
      → add_uav_declaration p d limit ≡ ok (r, q)
      → find_resource_decl (build_declaration_index format q.instructions) 30 r
        ≡ some (view_info d r)
  unfolding add_uav_declaration find_resource_decl build_uav_declaration
  add_uav_declaration-found p d limit r q e =
      chosen-found Family.uavs p _ _
        (λ n. build_uav_declaration (record d { register_index = some n }))
        (λ n h. (view_declares (d.kind) d n, choose_register-free _ _ d.reverse_bind limit n h)) e
      ∙ ap (λ t. some t) (view_says (d.kind) d r)
