-- ===== src/Sm5/AddResource/Owned.antt =====
-- Handles that are bound to a register of their own, and what assigning an entry of the map does to
-- that.
use direct_xshader_patcher.Base.{
  ℕ, List, [], ◌∷◌, All, Bool, Bool-cases, true, false, ◌==◌, String, str_eq, inl, inr, ◌≡◌, refl,
  subst, arith,
}
use direct_xshader_patcher.Base.Map.{insert}
use direct_xshader_patcher.Sm5.Registers.{contains}
use direct_xshader_patcher.Sm5.Declarations.Declared.{ShaderProgram, declared_registers}
use direct_xshader_patcher.Sm5.Declarations.Distinct.{Distinct}
use direct_xshader_patcher.Sm5.AddResource.{AddState}

abbrev pub registers : List (String × ℕ) → List ℕ
registers [] = []
registers (entry ∷ entries) = entry.1 ∷ registers entries

abbrev pub Declared : (ℕ → Bool) → ShaderProgram → String × ℕ → Type 0
Declared is_opcode p entry = contains (declared_registers is_opcode p.instructions) entry.1 ≡ true

-- Every handle is bound to a register that the program declares, and no two to the same one.
abbrev pub IsOwn : (ℕ → Bool) → AddState → Type 0
IsOwn is_opcode s = All (Declared is_opcode s.program) s.bindings × Distinct (registers s.bindings)

-- An entry of the map that is new or replaced.
pub All-insert :
    (P : String × ℕ → Type 0) (k : String) (n : ℕ) (entries : List (String × ℕ))
    → P (k, n)
    → All P entries
    → All P (insert k n entries)
unfolding insert
All-insert P k n [] new old = (new, tt)
All-insert P k n ((j, m) ∷ entries) new old = elim (Bool-cases (str_eq j k)) [
  | inl same ↦ rw same (new, old.1)
  | inr other ↦ rw other (old.0, All-insert P k n entries new old.1)
]

contains-insert :
    (k : String) (n x : ℕ) (entries : List (String × ℕ))
    → (n == x) ≡ false
    → contains (registers entries) x ≡ false
    → contains (registers (insert k n entries)) x ≡ false
unfolding insert
contains-insert k n x [] apart free = rw apart refl
contains-insert k n x ((j, m) ∷ entries) apart free = elim (Bool-cases (m == x)) [
  | inl here ↦ let bad : true ≡ false = rw (here, contains) at free in cc
  | inr there ↦
      let rest = rw (there, contains) at free in
      elim (Bool-cases (str_eq j k)) [
        | inl same ↦ rw same (rw apart rest)
        | inr other ↦ rw other (rw there (contains-insert k n x entries apart rest))
      ]
]

pub Distinct-insert :
    (k : String) (n : ℕ) (entries : List (String × ℕ))
    → contains (registers entries) n ≡ false
    → Distinct (registers entries)
    → Distinct (registers (insert k n entries))
unfolding insert
Distinct-insert k n [] free distinct = (refl, tt)
Distinct-insert k n ((j, m) ∷ entries) free distinct = elim (Bool-cases (m == n)) [
  | inl here ↦ let bad : true ≡ false = rw (here, contains) at free in cc
  | inr there ↦
      let rest = rw (there, contains) at free in
      let apart : (n == m) ≡ false = ground arith in
      elim (Bool-cases (str_eq j k)) [
        | inl same ↦ rw same (rest, distinct.1)
        | inr other ↦ rw other (
          contains-insert k n m entries apart distinct.0,
          Distinct-insert k n entries rest distinct.1,
        )
      ]
]

-- A register that the program does not declare is not bound.
pub contains-unbound :
    (is_opcode : ℕ → Bool) (p : ShaderProgram) (r : ℕ) (entries : List (String × ℕ))
    → All (Declared is_opcode p) entries
    → contains (declared_registers is_opcode p.instructions) r ≡ false
    → contains (registers entries) r ≡ false
contains-unbound is_opcode p r [] declared free = refl
contains-unbound is_opcode p r (entry ∷ entries) declared free = elim (Bool-cases (entry.1 == r)) [
  | inl same ↦
      let number : entry.1 ≡ r = ground arith in
      let here =
        subst (λ n. contains (declared_registers is_opcode p.instructions) n ≡ true) number
          declared.0 in
      cc
  | inr other ↦ rw other (contains-unbound is_opcode p r entries declared.1 free)
]
