-- ===== src/Sm5/Lookup/Added.antt =====
-- The index of a program that declarations are added to.
use direct_xshader_patcher.Base.{
  ℕ, List, [], ◌∷◌, ◌++◌, take, drop, take-append-drop, Bool-cases, true, false, Option,
  Option-cases, none, some, ◌≡◌, refl, sym, ap, ◌∙◌, inl, inr, arith,
}
use direct_xshader_patcher.Sm5.Roles.{ComponentFormat}
use direct_xshader_patcher.Sm5.Registers.{contains}
use direct_xshader_patcher.Sm5.Declarations.{Instruction, ComponentModes}
use direct_xshader_patcher.Sm5.Declarations.Declared.{
  ShaderProgram, declared_register, declared_registers, insert_at,
}
use direct_xshader_patcher.Sm5.Declarations.Distinct.{Fresh}
use direct_xshader_patcher.Sm5.Declarations.Invariant.{Steps, done, further, AllFresh, Step-Inserts}
use direct_xshader_patcher.Sm5.Lookup.{Family, find_register, build_declaration_index}
use direct_xshader_patcher.Sm5.Lookup.Families.{Info, map_of, is_of}
use direct_xshader_patcher.Sm5.Lookup.Last.{
  declares, info_of, last_declared, build_declaration_index-find,
}

-- An instruction that declares the register is among those that declare one.
declares-declared_register :
    (f : Family) (r : ℕ) (i : Instruction)
    → declares f r i ≡ true
    → declared_register (is_of f) i ≡ some r
unfolding declared_register
declares-declared_register f r i e = ground arith

declares-contains :
    (f : Family) (r : ℕ) (i : Instruction) (is : List Instruction)
    → declares f r i ≡ true
    → contains (declared_registers (is_of f) (i ∷ is)) r ≡ true
unfolding declared_registers
declares-contains f r i is e =
    rw (declares-declared_register f r i e, declared_registers) (ground arith)

contains-later :
    (f : Family) (r : ℕ) (i : Instruction) (is : List Instruction)
    → contains (declared_registers (is_of f) (i ∷ is)) r ≡ false
    → contains (declared_registers (is_of f) is) r ≡ false
unfolding declared_registers
contains-later f r i is e = elim (Option-cases (declared_register (is_of f) i)) [
  | inl no_register ↦ rw (no_register, declared_registers) at e
  | inr (n, register) ↦ let tail = rw (register, declared_registers) at e in ground arith
]

module _ (format : ComponentFormat) where
  last_declared-free :
      (f : Family) (r : ℕ) (is : List Instruction)
      → contains (declared_registers (is_of f) is) r ≡ false
      → last_declared format f r is ≡ none
  unfolding last_declared
  last_declared-free f r [] free = refl
  last_declared-free f r (i ∷ is) free =
      let rest = last_declared-free f r is (contains-later f r i is free) in
      elim (Bool-cases (declares f r i)) [
        | inl here ↦ let there = declares-contains f r i is here in cc
        | inr elsewhere ↦ rw (rest, last_declared) (rw elsewhere refl)
      ]

  last_declared-skip :
      (f : Family) (r : ℕ) (i : Instruction) (xs ys : List Instruction)
      → declares f r i ≡ false
      → last_declared format f r (xs ++ (i ∷ ys)) ≡ last_declared format f r (xs ++ ys)
  unfolding last_declared
  last_declared-skip f r i [] ys other = elim (Option-cases (last_declared format f r ys)) [
    | inl absent ↦ rw (absent, last_declared) (rw other refl)
    | inr (info, found) ↦ rw (found, last_declared) refl
  ]
  last_declared-skip f r i (x ∷ xs) ys other =
      rw (last_declared-skip f r i xs ys other, last_declared) refl

  last_declared-here :
      (f : Family) (r : ℕ) (i : Instruction) (xs ys : List Instruction)
      → declares f r i ≡ true
      → last_declared format f r (xs ++ ys) ≡ none
      → last_declared format f r (xs ++ (i ∷ ys)) ≡ some (info_of format f r i)
  unfolding last_declared
  last_declared-here f r i [] ys here free = rw (free, last_declared) (rw here refl)
  last_declared-here f r i (x ∷ xs) ys here free =
      elim (Option-cases (last_declared format f r (xs ++ ys))) [
        | inl absent ↦ rw (last_declared-here f r i xs ys here absent, last_declared) refl
        | inr (info, found) ↦
            let bad : ◌≡◌ {A = Option (Info f)} (some info) none =
              rw (found, last_declared) at free in
            cc
      ]

  -- What the index of a program says of a register.
  abbrev pub indexed : (f : Family) → ℕ → ShaderProgram → Option (Info f)
  indexed f r p = find_register r (map_of f (build_declaration_index format p.instructions))

  whole :
      (p : ShaderProgram) (at : ℕ)
      → take at p.instructions ++ drop at p.instructions ≡ p.instructions
  whole p at = take-append-drop at p.instructions

  indexed-insert_at_other :
      (f : Family) (r at : ℕ) (i : Instruction) (p : ShaderProgram)
      → declares f r i ≡ false
      → indexed f r (insert_at at i p) ≡ indexed f r p
  unfolding insert_at
  indexed-insert_at_other f r at i p other =
      build_declaration_index-find format f r (insert_at at i p).instructions
      ∙ last_declared-skip f r i (take at p.instructions) (drop at p.instructions) other
      ∙ ap (last_declared format f r) (whole p at)
      ∙ sym (build_declaration_index-find format f r p.instructions)

  pub indexed-insert_at_here :
      (f : Family) (r at : ℕ) (i : Instruction) (p : ShaderProgram)
      → declares f r i ≡ true
      → contains (declared_registers (is_of f) p.instructions) r ≡ false
      → indexed f r (insert_at at i p) ≡ some (info_of format f r i)
  unfolding insert_at
  indexed-insert_at_here f r at i p here free =
      build_declaration_index-find format f r (insert_at at i p).instructions
      ∙ last_declared-here f r i (take at p.instructions) (drop at p.instructions) here
          (ap (last_declared format f r) (whole p at) ∙ last_declared-free f r p.instructions free)

  -- The classes in which each register is declared once.
  abbrev pub IsUnique : Family → Type 0
  IsUnique Family.textures = Unit
  IsUnique Family.uavs = Unit
  IsUnique Family.samplers = Unit
  IsUnique Family.cbuffers = ⊥
  IsUnique Family.inputs = ⊥
  IsUnique Family.outputs = ⊥

  of_class :
      (f : Family) (p : ShaderProgram) (i : Instruction)
      → IsUnique f
      → AllFresh p i
      → Fresh (is_of f) p i
  of_class Family.textures p i unique (srv, sampler, uav) = srv
  of_class Family.uavs p i unique (srv, sampler, uav) = uav
  of_class Family.samplers p i unique (srv, sampler, uav) = sampler
  of_class Family.cbuffers p i unique fresh = absurd unique
  of_class Family.inputs p i unique fresh = absurd unique
  of_class Family.outputs p i unique fresh = absurd unique

  indexed-free :
      (f : Family) (r : ℕ) (p : ShaderProgram)
      → contains (declared_registers (is_of f) p.instructions) r ≡ false
      → indexed f r p ≡ none
  indexed-free f r p free =
      build_declaration_index-find format f r p.instructions
      ∙ last_declared-free f r p.instructions free

  -- A register that is in the index is not declared by a fresh instruction.
  Fresh-other :
      (f : Family) (r : ℕ) (i : Instruction) (p : ShaderProgram) (info : Info f)
      → Fresh (is_of f) p i
      → indexed f r p ≡ some info
      → declares f r i ≡ false
  Fresh-other f r i p info fresh there = elim (Bool-cases (declares f r i)) [
    | inr other ↦ other
    | inl here ↦
        let declared = declares-declared_register f r i here in
        elim fresh [
          | inl no_register ↦
              let bad : ◌≡◌ {A = Option ℕ} (some r) none = sym declared ∙ no_register in cc
          | inr (n, register, free) ↦
              let same : ◌≡◌ {A = Option ℕ} (some n) (some r) = sym register ∙ declared in
              let absent = indexed-free f r p (rw (some_same same) at free) in
              let bad : ◌≡◌ {A = Option (Info f)} (some info) none = sym there ∙ absent in cc
        ]
  ]
    where
      some_same : {n : ℕ} → ◌≡◌ {A = Option ℕ} (some n) (some r) → n ≡ r
      some_same e = cc

  -- Whatever declarations are added to a program: what its index said of the register of a shader
  -- resource, a sampler or an unordered access view it still says afterwards.
  pub Steps-indexed :
      {modes : ComponentModes} {p q : ShaderProgram} (f : Family) (r : ℕ) (info : Info f)
      → IsUnique f
      → Steps modes p q
      → indexed f r p ≡ some info
      → indexed f r q ≡ some info
  Steps-indexed f r info unique done there = there
  Steps-indexed f r info unique (further {q = middle} steps step) there =
      let before = Steps-indexed f r info unique steps there in
      let (at, i, fresh, same) = Step-Inserts step in
      let other = Fresh-other f r i middle info (of_class f middle i unique fresh) before in
      ap (indexed f r) (sym same) ∙ indexed-insert_at_other f r at i middle other ∙ before
