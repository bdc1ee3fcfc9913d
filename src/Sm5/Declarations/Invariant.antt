-- ===== src/Sm5/Declarations/Invariant.antt =====
-- Programs that the functions `Add...Declaration` lead to.
use direct_xshader_patcher.Base.{
  ℕ, false, some, Result, ok, ◌>>=◌, >>=-eq-ok, ok_injective, inl, inr, ◌≡◌, refl, ap, subst,
}
use direct_xshader_patcher.Sm5.Registers.{BindError, contains}
use direct_xshader_patcher.Sm5.Declarations.{
  Instruction, ComponentModes, UavKind, TextureDecl, RawResourceDecl, StructuredResourceDecl,
  CBufferDecl, SamplerDecl, UavDecl, InputDecl, OutputDecl, build_uav_declaration,
}
use direct_xshader_patcher.Sm5.Declarations.Declared.{
  ShaderProgram, declared_register, declared_registers, is_srv, is_sampler, is_uav, insert_at,
}
use direct_xshader_patcher.Sm5.Declarations.Add.{
  add_texture_declaration, add_raw_resource_declaration, add_structured_resource_declaration,
  add_cbuffer_declaration, add_sampler_declaration, add_uav_declaration, add_signature_declaration,
  add_input_declaration, add_output_declaration,
}
use direct_xshader_patcher.Sm5.Declarations.Distinct.{
  Distinct, choose_register-free, Fresh, insert_at-Distinct,
}

-- One successful call of an `Add` function.
pub data Step (modes : ComponentModes) (p : ShaderProgram) : ShaderProgram → Type 0 where
  texture :
      (d : TextureDecl) (limit r : ℕ) {q : ShaderProgram}
      → add_texture_declaration p d limit ≡ ok (r, q)
      → Step modes p q
  raw_resource :
      (d : RawResourceDecl) (limit r : ℕ) {q : ShaderProgram}
      → add_raw_resource_declaration p d limit ≡ ok (r, q)
      → Step modes p q
  structured_resource :
      (d : StructuredResourceDecl) (limit r : ℕ) {q : ShaderProgram}
      → add_structured_resource_declaration p d limit ≡ ok (r, q)
      → Step modes p q
  cbuffer :
      (d : CBufferDecl) (limit r : ℕ) {q : ShaderProgram}
      → add_cbuffer_declaration modes p d limit ≡ ok (r, q)
      → Step modes p q
  sampler :
      (d : SamplerDecl) (limit r : ℕ) {q : ShaderProgram}
      → add_sampler_declaration p d limit ≡ ok (r, q)
      → Step modes p q
  uav :
      (d : UavDecl) (limit r : ℕ) {q : ShaderProgram}
      → add_uav_declaration p d limit ≡ ok (r, q)
      → Step modes p q
  input :
      (d : InputDecl) (limit r : ℕ) {q : ShaderProgram}
      → add_input_declaration modes p d limit ≡ ok (r, q)
      → Step modes p q
  output :
      (d : OutputDecl) (limit r : ℕ) {q : ShaderProgram}
      → add_output_declaration modes p d limit ≡ ok (r, q)
      → Step modes p q

pub data Steps (modes : ComponentModes) (p : ShaderProgram) : ShaderProgram → Type 0 where
  done : Steps modes p p
  further : {q r : ShaderProgram} → Steps modes p q → Step modes q r → Steps modes p r

-- No register of a resource, a sampler or a view is declared twice.
abbrev pub WellDeclared : ShaderProgram → Type 0
WellDeclared p =
    Distinct (declared_registers is_srv p.instructions)
    × Distinct (declared_registers is_sampler p.instructions)
    × Distinct (declared_registers is_uav p.instructions)

-- What the new instruction declares in each class.
abbrev pub AllFresh : ShaderProgram → Instruction → Type 0
AllFresh p i = Fresh is_srv p i × Fresh is_sampler p i × Fresh is_uav p i

insert_at-WellDeclared :
    (at : ℕ) (i : Instruction) (p : ShaderProgram)
    → AllFresh p i
    → WellDeclared p
    → WellDeclared (insert_at at i p)
insert_at-WellDeclared at i p (f, g, h) (d, e, k) = (
  insert_at-Distinct is_srv at i p f d,
  insert_at-Distinct is_sampler at i p g e,
  insert_at-Distinct is_uav at i p h k,
)

-- The second program is the first with a declaration that shares no register.
abbrev pub Inserts : ShaderProgram → ShaderProgram → Type 0
Inserts p q = (at : ℕ) × (i : Instruction) × AllFresh p i × (insert_at at i p ≡ q)

-- A function that chooses a register and inserts a declaration of it.
added :
    {q : ShaderProgram} {r : ℕ} (p : ShaderProgram) (chosen : Result BindError ℕ) (place : ℕ)
    (build : ℕ → Instruction)
    → ((n : ℕ) → chosen ≡ ok n → AllFresh p (build n))
    → ◌>>=◌ {B = ℕ × ShaderProgram} chosen (λ n. ok (n, insert_at place (build n) p)) ≡ ok (r, q)
    → Inserts p q
added p chosen place build fresh e =
    let (n, picked, same) = >>=-eq-ok chosen _ e in
    (place, build n, fresh n picked, ap (λ t. t.1) (ok_injective same))

pub Step-Inserts : {modes : ComponentModes} {p q : ShaderProgram} → Step modes p q → Inserts p q
unfolding add_texture_declaration add_raw_resource_declaration add_structured_resource_declaration
    add_cbuffer_declaration add_sampler_declaration add_uav_declaration add_input_declaration
    add_output_declaration add_signature_declaration declared_register build_uav_declaration
Step-Inserts {p = p} (texture d limit r e) =
    added p _ _ _
      (λ n.
        λ h. (inr (n, refl, choose_register-free _ _ d.reverse_bind limit n h), inl refl, inl refl))
      e
Step-Inserts {p = p} (raw_resource d limit r e) =
    added p _ _ _
      (λ n.
        λ h. (inr (n, refl, choose_register-free _ _ d.reverse_bind limit n h), inl refl, inl refl))
      e
Step-Inserts {p = p} (structured_resource d limit r e) =
    added p _ _ _
      (λ n.
        λ h. (inr (n, refl, choose_register-free _ _ d.reverse_bind limit n h), inl refl, inl refl))
      e
Step-Inserts {p = p} (cbuffer d limit r e) =
    added p _ _ _ (λ n. λ h. (inl refl, inl refl, inl refl)) e
Step-Inserts {p = p} (sampler d limit r e) =
    added p _ _ _
      (λ n.
        λ h. (inl refl, inr (n, refl, choose_register-free _ _ d.reverse_bind limit n h), inl refl))
      e
Step-Inserts {p = p} (uav d limit r e) =
    added p _ _ _
      (λ n. λ h. uav_fresh (d.kind) n (choose_register-free _ _ d.reverse_bind limit n h)) e
  where
    uav_fresh :
        (k : UavKind) (n : ℕ)
        → contains (declared_registers is_uav p.instructions) n ≡ false
        → AllFresh p (build_uav_declaration (record d { kind = k; register_index = some n }))
    uav_fresh UavKind.typed n free = (inl refl, inl refl, inr (n, refl, free))
    uav_fresh UavKind.raw n free = (inl refl, inl refl, inr (n, refl, free))
    uav_fresh UavKind.structured n free = (inl refl, inl refl, inr (n, refl, free))
Step-Inserts {p = p} (input d limit r e) =
    added p _ _ _ (λ n. λ h. (inl refl, inl refl, inl refl)) e
Step-Inserts {p = p} (output d limit r e) =
    added p _ _ _ (λ n. λ h. (inl refl, inl refl, inl refl)) e

Step-WellDeclared :
    {modes : ComponentModes} {p q : ShaderProgram}
    → Step modes p q
    → WellDeclared p
    → WellDeclared q
Step-WellDeclared {p = p} step well =
    let (at, i, fresh, same) = Step-Inserts step in
    subst WellDeclared same (insert_at-WellDeclared at i p fresh well)

-- Whatever declarations are added to a program, in whatever order and with whatever requested or
-- automatic registers: if no register of its shader resources, of its samplers or of its unordered
-- access views was declared twice, none is afterwards.
pub Steps-WellDeclared :
    {modes : ComponentModes} {p q : ShaderProgram}
    → Steps modes p q
    → WellDeclared p
    → WellDeclared q
Steps-WellDeclared done well = well
Steps-WellDeclared (further steps step) well =
    Step-WellDeclared step (Steps-WellDeclared steps well)
