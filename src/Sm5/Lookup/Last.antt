-- ===== src/Sm5/Lookup/Last.antt =====
-- What stands in the index of `BuildDeclarationIndex` for a register: the last declaration of it.
use direct_xshader_patcher.Base.{
  ℕ, List, [], ◌∷◌, Bool, Bool-cases, true, false, ◌&&◌, ◌==◌, Option, Option-cases, none, some,
  if◌then◌else◌, ◌≡◌, refl, ap, ◌∙◌, inl, inr, arith,
}
use direct_xshader_patcher.Sm5.Roles.{ComponentFormat}
use direct_xshader_patcher.Sm5.Declarations.{Instruction}
use direct_xshader_patcher.Sm5.Lookup.{
  DeclarationIndex, empty_index, find_register, insert_or_assign, register_of, texture_info,
  uav_info, sampler_info, cbuffer_info, signature_info, Family, family_of, put, index_instruction,
  index_instructions, build_declaration_index,
}
use direct_xshader_patcher.Sm5.Lookup.Families.{
  find_register-insert_or_assign, Info, map_of, is_of, is_of-family_of, family_of-is_of,
}

-- The number is there, and is the register.
abbrev has_number : ℕ → Option ℕ → Bool
has_number register none = false
has_number register (some n) = n == register

abbrev pub declares : Family → ℕ → Instruction → Bool
declares family register i = is_of family i.opcode && has_number register (register_of i)

module _ (format : ComponentFormat) where
  abbrev pub info_of : (family : Family) → ℕ → Instruction → Info family
  info_of Family.textures = texture_info
  info_of Family.uavs = uav_info
  info_of Family.samplers = sampler_info
  info_of Family.cbuffers = cbuffer_info
  info_of Family.inputs = signature_info format
  info_of Family.outputs = signature_info format

  -- The last instruction of the family that declares the register says what is there.
  unfoldable pub last_declared : (family : Family) → ℕ → List Instruction → Option (Info family)
  last_declared family register [] = none
  last_declared family register (i ∷ is) = elim (last_declared family register is) [
    | some info ↦ some info
    | none ↦ if declares family register i then some (info_of family register i) else none
  ]

  put-other :
      (f g : Family) (r : ℕ) (i : Instruction) (index : DeclarationIndex)
      → (f ≡ g → ⊥)
      → map_of f (put format g r i index) ≡ map_of f index
  put-other Family.textures g r i index other = ground arith
  put-other Family.uavs g r i index other = ground arith
  put-other Family.samplers g r i index other = ground arith
  put-other Family.cbuffers g r i index other = ground arith
  put-other Family.inputs g r i index other = ground arith
  put-other Family.outputs g r i index other = ground arith

  put-same :
      (f : Family) (r : ℕ) (i : Instruction) (index : DeclarationIndex)
      → map_of f (put format f r i index) ≡ insert_or_assign r (info_of f r i) (map_of f index)
  put-same Family.textures r i index = refl
  put-same Family.uavs r i index = refl
  put-same Family.samplers r i index = refl
  put-same Family.cbuffers r i index = refl
  put-same Family.inputs r i index = refl
  put-same Family.outputs r i index = refl

  put_found :
      (f : Family) (n r : ℕ) (i : Instruction) (index : DeclarationIndex)
      → find_register r (map_of f (put format f n i index))
        ≡ (if n == r then some (info_of f r i) else find_register r (map_of f index))
  put_found f n r i index =
      let whole =
        ap (find_register r) (put-same f n i index)
        ∙ find_register-insert_or_assign n r (info_of f n i) (map_of f index) in
      elim (Bool-cases (n == r)) [
        | inl here ↦
            let same : n ≡ r = ground arith in whole ∙ rw here (ap (λ k. some (info_of f k i)) same)
        | inr apart ↦ whole ∙ rw apart refl
      ]

  no_register_step :
      (i : Instruction) (index : DeclarationIndex)
      → register_of i ≡ none
      → index_instruction format i index ≡ index
  unfolding index_instruction
  no_register_step i index absent = rw (absent, index_instruction) refl

  no_family_step :
      (i : Instruction) (index : DeclarationIndex)
      → family_of i.opcode ≡ none
      → index_instruction format i index ≡ index
  unfolding index_instruction
  no_family_step i index no_family = elim (Option-cases (register_of i)) [
    | inl absent ↦ no_register_step i index absent
    | inr (n, present) ↦ rw (present, index_instruction) (rw (no_family, index_instruction) refl)
  ]

  put_step :
      (g : Family) (n : ℕ) (i : Instruction) (index : DeclarationIndex)
      → register_of i ≡ some n
      → family_of i.opcode ≡ some g
      → index_instruction format i index ≡ put format g n i index
  unfolding index_instruction
  put_step g n i index present family =
      rw (present, index_instruction) (rw (family, index_instruction) refl)

  other_family :
      (f g : Family) (opcode : ℕ) → is_of f opcode ≡ false → family_of opcode ≡ some g → f ≡ g → ⊥
  other_family f g opcode not_of_it family same =
      let of_it = is_of-family_of g opcode family in
      let bad : is_of f opcode ≡ true = ap (λ k. is_of k opcode) same ∙ of_it in cc

  -- What one instruction changes of a family's map.
  index_instruction-find :
      (f : Family) (r : ℕ) (i : Instruction) (index : DeclarationIndex)
      → find_register r (map_of f (index_instruction format i index))
        ≡ (if declares f r i then some (info_of f r i) else find_register r (map_of f index))
  index_instruction-find f r i index =
      let find : DeclarationIndex → Option (Info f) = λ t. find_register r (map_of f t) in
      elim (Option-cases (register_of i)) [
        | inl absent ↦ ap find (no_register_step i index absent) ∙ rw absent (ground arith)
        | inr (n, present) ↦ elim (Bool-cases (is_of f i.opcode)) [
          | inl of_it ↦
              ap find (put_step f n i index present (family_of-is_of f i.opcode of_it))
              ∙ rw (of_it, present) (put_found f n r i index)
          | inr not_of_it ↦ elim (Option-cases (family_of i.opcode)) [
            | inl no_family ↦ ap find (no_family_step i index no_family) ∙ rw not_of_it refl
            | inr (g, family) ↦
                ap find (put_step g n i index present family)
                ∙ rw not_of_it (
                    ap (find_register r)
                      (put-other f g n i index (other_family f g i.opcode not_of_it family)))
          ]
        ]
      ]

  index_instructions-find :
      (f : Family) (r : ℕ) (is : List Instruction) (index : DeclarationIndex)
      → find_register r (map_of f (index_instructions format is index))
        ≡ (elim (last_declared f r is) [
          | some info ↦ some info
          | none ↦ find_register r (map_of f index)
        ])
  unfolding index_instructions last_declared
  index_instructions-find f r [] index = refl
  index_instructions-find f r (i ∷ is) index =
      let rest = index_instructions-find f r is (index_instruction format i index) in
      let first = index_instruction-find f r i index in
      elim (Option-cases (last_declared f r is)) [
        | inl none_later ↦
            rest
            ∙ rw (none_later, last_declared)
                (elim (Bool-cases (declares f r i)) [
                  | inl here ↦ first ∙ rw here refl
                  | inr elsewhere ↦ first ∙ rw elsewhere refl
                ])
        | inr (info, later) ↦ rest ∙ rw (later, last_declared) refl
      ]

  nothing_there : (f : Family) (r : ℕ) → find_register r (map_of f empty_index) ≡ none
  unfolding find_register
  nothing_there Family.textures r = refl
  nothing_there Family.uavs r = refl
  nothing_there Family.samplers r = refl
  nothing_there Family.cbuffers r = refl
  nothing_there Family.inputs r = refl
  nothing_there Family.outputs r = refl

  -- In each of the six maps of the index of a program the entry of a register is what the last
  -- instruction with an opcode of that map and this register in its first operand declares, and
  -- there is none without such an instruction.
  pub build_declaration_index-find :
      (f : Family) (r : ℕ) (is : List Instruction)
      → find_register r (map_of f (build_declaration_index format is)) ≡ last_declared f r is
  unfolding build_declaration_index
  build_declaration_index-find f r is =
      let whole = index_instructions-find f r is empty_index in
      elim (Option-cases (last_declared f r is)) [
        | inl absent ↦ whole ∙ rw absent (nothing_there f r)
        | inr (info, found) ↦ whole ∙ rw found refl
      ]
