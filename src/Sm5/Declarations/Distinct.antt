-- ===== src/Sm5/Declarations/Distinct.antt =====
-- No two declarations that are added share a register: an invariant of every sequence of the `Add`
-- functions.
use direct_xshader_patcher.Base.{
  ℕ, zero, suc, List, [], ◌∷◌, ◌++◌, length, take, drop, Bool, Bool-cases, Option-cases, true,
  false, ◌||◌, ◌==◌, Option, none, some, ok, ok_injective, is_absent, take-append-drop, inl, inr,
  ◌⊎◌, ◌≡◌, refl, sym, ap, ◌∙◌, subst, arith,
}
use direct_xshader_patcher.Sm5.Registers.{
  contains, next_register, is_last, auto_bind, allocate_bind_point,
}
use direct_xshader_patcher.Sm5.Declarations.{Instruction}
use direct_xshader_patcher.Sm5.Declarations.Declared.{
  ShaderProgram, declared_register, declared_registers, insert_at,
}
use direct_xshader_patcher.Sm5.Declarations.Add.{choose_register}

abbrev pub Distinct : List ℕ → Type 0
Distinct [] = Unit
Distinct (x ∷ xs) = (contains xs x ≡ false) × Distinct xs

auto_bind-free :
    (fuel : ℕ) (occupied : List ℕ) (reverse : Bool) (c r : ℕ)
    → auto_bind fuel occupied reverse c ≡ ok r
    → contains occupied r ≡ false
unfolding auto_bind
auto_bind-free zero occupied reverse c r e = elim (Bool-cases (contains occupied c)) [
  | inl taken ↦ let bad = rw taken at e in cc
  | inr free ↦ ap (contains occupied) (sym (ok_injective (rw free at e))) ∙ free
]
auto_bind-free (suc fuel) occupied reverse c r e = elim (Bool-cases (contains occupied c)) [
  | inl taken ↦ elim (Bool-cases (is_last reverse c)) [
    | inl last ↦ let bad = rw last at (rw taken at e) in cc
    | inr later ↦
        auto_bind-free fuel occupied reverse (next_register reverse c) r
          (rw later at (rw taken at e))
  ]
  | inr free ↦ ap (contains occupied) (sym (ok_injective (rw free at e))) ∙ free
]

allocate-free :
    (occupied : List ℕ) (is_auto : Bool) (requested r : ℕ) (reverse : Bool)
    → allocate_bind_point occupied is_auto requested reverse ≡ ok r
    → contains occupied r ≡ false
unfolding allocate_bind_point
allocate-free occupied true requested r reverse e =
    auto_bind-free (length occupied) occupied reverse requested r e
allocate-free occupied false requested r reverse e =
    elim (Bool-cases (contains occupied requested)) [
      | inl taken ↦ let bad = rw taken at e in cc
      | inr free ↦ ap (contains occupied) (sym (ok_injective (rw free at e))) ∙ free
    ]

pub choose_register-free :
    (occupied : List ℕ) (register_index : Option ℕ) (reverse_bind : Option Bool)
    (max_bind_point r : ℕ)
    → choose_register occupied register_index reverse_bind max_bind_point ≡ ok r
    → contains occupied r ≡ false
unfolding choose_register
choose_register-free occupied register_index reverse_bind max_bind_point r e =
    allocate-free occupied (is_absent register_index) _ r _ e

pub contains-append :
    (xs ys : List ℕ) (n : ℕ) → contains (xs ++ ys) n ≡ (contains xs n || contains ys n)
contains-append [] ys n = refl
contains-append (x ∷ xs) ys n = elim (Bool-cases (x == n)) [
  | inl here ↦ rw here refl
  | inr later ↦ rw later (contains-append xs ys n)
]

Distinct-middle :
    (xs ys : List ℕ) (r : ℕ)
    → Distinct (xs ++ ys)
    → contains (xs ++ ys) r ≡ false
    → Distinct (xs ++ (r ∷ ys))
Distinct-middle [] ys r d free = (free, d)
Distinct-middle (x ∷ xs) ys r d free = elim (Bool-cases (x == r)) [
  | inl same ↦ let bad : true ≡ false = rw (same, contains) at free in cc
  | inr other ↦
      let apart : (r == x) ≡ false = ground arith in
      (
        contains-append xs (r ∷ ys) x ∙ rw apart (sym (contains-append xs ys x) ∙ d.0),
        Distinct-middle xs ys r d.1 (rw (other, contains) at free),
      )
]

pub declared_registers-append :
    (is_opcode : ℕ → Bool) (xs ys : List Instruction)
    → declared_registers is_opcode (xs ++ ys)
      ≡ declared_registers is_opcode xs ++ declared_registers is_opcode ys
unfolding declared_registers
declared_registers-append is_opcode [] ys = refl
declared_registers-append is_opcode (x ∷ xs) ys =
    let rest = declared_registers-append is_opcode xs ys in
    elim (Option-cases (declared_register is_opcode x)) [
      | inl no_register ↦ rw (no_register, declared_registers) rest
      | inr (n, register) ↦ rw (register, declared_registers) (ap (λ t. n ∷ t) rest)
    ]

-- An instruction that declares nothing of a class, or a register of it that is free.
abbrev pub Fresh : (ℕ → Bool) → ShaderProgram → Instruction → Type 0
Fresh is_opcode program instruction =
    (declared_register is_opcode instruction ≡ none)
    ⊎ ((r : ℕ) × (declared_register is_opcode instruction ≡ some r)
        × (contains (declared_registers is_opcode program.instructions) r ≡ false))

pub insert_at-Distinct :
    (is_opcode : ℕ → Bool) (at : ℕ) (instruction : Instruction) (program : ShaderProgram)
    → Fresh is_opcode program instruction
    → Distinct (declared_registers is_opcode program.instructions)
    → Distinct (declared_registers is_opcode (insert_at at instruction program).instructions)
unfolding insert_at declared_registers
insert_at-Distinct is_opcode at instruction program fresh distinct =
    let front = take at program.instructions in
    let behind = drop at program.instructions in
    let xs = declared_registers is_opcode front in
    let ys = declared_registers is_opcode behind in
    let whole : declared_registers is_opcode program.instructions ≡ xs ++ ys =
      ap (declared_registers is_opcode) (sym (take-append-drop at program.instructions))
      ∙ declared_registers-append is_opcode front behind in
    let grown = declared_registers-append is_opcode front (instruction ∷ behind) in
    elim fresh [
      | inl no_register ↦
          subst Distinct (sym (grown ∙ ap (λ t. xs ++ t) (skip instruction behind no_register)))
            (subst Distinct whole distinct)
      | inr (r, register, free) ↦
          subst Distinct
            (sym (grown ∙ ap (λ t. xs ++ t) (kept_registers instruction behind r register)))
            (Distinct-middle xs ys r (subst Distinct whole distinct)
              (ap (λ t. contains t r) (sym whole) ∙ free))
    ]
  where
    skip :
        (i : Instruction) (is : List Instruction)
        → declared_register is_opcode i ≡ none
        → declared_registers is_opcode (i ∷ is) ≡ declared_registers is_opcode is
    skip i is e = rw (e, declared_registers) refl

    kept_registers :
        (i : Instruction) (is : List Instruction) (r : ℕ)
        → declared_register is_opcode i ≡ some r
        → declared_registers is_opcode (i ∷ is) ≡ r ∷ declared_registers is_opcode is
    kept_registers i is r e = rw (e, declared_registers) refl
