-- ===== src/Sm5/AddResource/Signatures.antt =====
-- The registers that the handles of added inputs and outputs are bound to.
use direct_xshader_patcher.Base.{
  ℕ, List, [], ◌∷◌, ◌++◌, take, drop, take-append-drop, All, Bool, Bool-cases, true, false, ◌||◌,
  ◌==◌, Option, some, ok, ok_injective, >>=-eq-ok, Result-cases, String, inl, inr, ◌≡◌, refl, sym,
  ap, ◌∙◌, subst, arith,
}
use direct_xshader_patcher.Sm5.Registers.{contains}
use direct_xshader_patcher.Sm5.Declarations.{
  Instruction, ComponentModes, InputDecl, OutputDecl, build_input_declaration,
  build_output_declaration,
}
use direct_xshader_patcher.Sm5.Declarations.Declared.{
  ShaderProgram, declared_register, declared_registers, is_added_input, is_output, insert_at,
}
use direct_xshader_patcher.Sm5.Declarations.Add.{
  choose_register, add_signature_declaration, add_input_declaration, add_output_declaration,
}
use direct_xshader_patcher.Sm5.Declarations.Distinct.{
  choose_register-free, contains-append, declared_registers-append,
}
use direct_xshader_patcher.Sm5.AddResource.{
  AddState, ResourceClass, input_class, output_class, bind_point_of, add_signature, add_signatures,
}
use direct_xshader_patcher.Sm5.AddResource.Owned.{
  Declared, IsOwn, All-insert, Distinct-insert, contains-unbound,
}

-- What an `Add` function does to the declared registers: a free one is declared as well.
record Grows (is_opcode : ℕ → Bool) (p q : ShaderProgram) (r : ℕ) : Type 0 where
  free : contains (declared_registers is_opcode p.instructions) r ≡ false
  grown :
      (n : ℕ)
      → contains (declared_registers is_opcode q.instructions) n
        ≡ (r == n || contains (declared_registers is_opcode p.instructions) n)

or_middle : (a b c : Bool) → (a || (b || c)) ≡ (b || (a || c))
or_middle true true c = refl
or_middle true false c = refl
or_middle false b c = refl

insert_at-contains :
    (is_opcode : ℕ → Bool) (at r n : ℕ) (i : Instruction) (p : ShaderProgram)
    → declared_register is_opcode i ≡ some r
    → contains (declared_registers is_opcode (insert_at at i p).instructions) n
      ≡ (r == n || contains (declared_registers is_opcode p.instructions) n)
unfolding insert_at declared_registers
insert_at-contains is_opcode at r n i p register =
    let front = take at p.instructions in
    let behind = drop at p.instructions in
    let xs = declared_registers is_opcode front in
    let ys = declared_registers is_opcode behind in
    let whole : declared_registers is_opcode p.instructions ≡ xs ++ ys =
      ap (declared_registers is_opcode) (sym (take-append-drop at p.instructions))
      ∙ declared_registers-append is_opcode front behind in
    let here : declared_registers is_opcode (i ∷ behind) ≡ r ∷ ys =
      rw (register, declared_registers) refl in
    ap (λ t. contains t n)
      (declared_registers-append is_opcode front (i ∷ behind) ∙ ap (λ t. xs ++ t) here)
    ∙ contains-append xs (r ∷ ys) n
    ∙ or_middle (contains xs n) (r == n) (contains ys n)
    ∙ ap (λ b. r == n || b) (sym (contains-append xs ys n) ∙ ap (λ t. contains t n) (sym whole))

add_signature_declaration-Grows :
    (is_opcode : ℕ → Bool) (p q : ShaderProgram) (register_index : Option ℕ)
    (reverse_bind : Option Bool) (build : ℕ → Instruction) (limit r : ℕ)
    → ((n : ℕ) → declared_register is_opcode (build n) ≡ some n)
    → add_signature_declaration is_opcode p register_index reverse_bind build limit ≡ ok (r, q)
    → Grows is_opcode p q r
unfolding add_signature_declaration
add_signature_declaration-Grows is_opcode p q register_index reverse_bind build limit r built e =
    let occupied = declared_registers is_opcode p.instructions in
    let (n, chosen, same) =
      >>=-eq-ok (choose_register occupied register_index reverse_bind limit) _ e in
    let both = ok_injective same in
    let number : n ≡ r = ap (λ t. t.0) both in
    let program = ap (λ t. t.1) both in
    record {
      free =
          ap (contains occupied) (sym number)
          ∙ choose_register-free occupied register_index reverse_bind limit n chosen;
      grown = λ k.
          ap (λ t. contains (declared_registers is_opcode t.instructions) k) (sym program)
          ∙ insert_at-contains is_opcode _ n k (build n) p (built n)
          ∙ ap (λ m. m == k || contains occupied k) number;
    }

-- The loop for a class whose `Add` function declares a free register.
module _ {D : Type 0} (class : ResourceClass D) (is_opcode : ℕ → Bool)
    (grows : (p q : ShaderProgram) (d : D) (r : ℕ)
      → class.add_decl p d class.max_bind_point ≡ ok (r, q)
      → Grows is_opcode p q r) where
  still_declared :
      (p q : ShaderProgram) (r : ℕ) (entries : List (String × ℕ))
      → Grows is_opcode p q r
      → All (Declared is_opcode p) entries
      → All (Declared is_opcode q) entries
  still_declared p q r [] g declared = tt
  still_declared p q r (entry ∷ entries) g declared = (
    g.grown entry.1 ∙ ap (λ b. r == entry.1 || b) declared.0 ∙ or_true (r == entry.1),
    still_declared p q r entries g declared.1,
  )
    where
      or_true : (b : Bool) → (b || true) ≡ true
      or_true true = refl
      or_true false = refl

  add_signature-IsOwn :
      (s t : AddState) (d : D)
      → IsOwn is_opcode s
      → add_signature class s d ≡ ok t
      → IsOwn is_opcode t
  unfolding add_signature
  add_signature-IsOwn s t d own e =
      let (n, found, e₁) = >>=-eq-ok (bind_point_of class s.program d) _ e in
      elim (Result-cases (class.add_decl s.program d class.max_bind_point)) [
        | inr (failed, refused) ↦ let bad = rw refused at e₁ in cc
        | inl ((r, q), declared) ↦
            let g = grows s.program q d r declared in
            let itself : (r == r) ≡ true = ground arith in
            subst (IsOwn is_opcode) (ok_injective (rw declared at e₁)) (
              All-insert (Declared is_opcode q) (class.handle d) r s.bindings
                  (g.grown r ∙ rw itself refl) (still_declared s.program q r s.bindings g own.0),
              Distinct-insert (class.handle d) r s.bindings
                  (contains-unbound is_opcode s.program r s.bindings own.0 g.free) own.1,
            )
      ]

  add_signatures-IsOwn :
      (required : Bool) (decls : List D) (s t : AddState)
      → IsOwn is_opcode s
      → add_signatures class required s decls ≡ ok t
      → IsOwn is_opcode t
  unfolding add_signatures
  add_signatures-IsOwn required [] s t own e = subst (IsOwn is_opcode) (ok_injective e) own
  add_signatures-IsOwn required (d ∷ decls) s t own e =
      elim (Result-cases (add_signature class s d)) [
        | inl (next, added) ↦
            add_signatures-IsOwn required decls next t (add_signature-IsOwn s next d own added)
              (rw (added, add_signatures) at e)
        | inr (failed, refused) ↦ elim (Bool-cases required) [
          | inl ends ↦ let bad = rw ends at (rw (refused, add_signatures) at e) in cc
          | inr skips ↦
              add_signatures-IsOwn required decls s t own
                (rw skips at (rw (refused, add_signatures) at e))
        ]
      ]

-- When every handle of an input is bound to a register that the program declares as an input and no
-- two handles to the same one, this holds after the loop over a step's inputs, required or not.
pub inputs-IsOwn :
    (modes : ComponentModes) (required : Bool) (decls : List InputDecl) (s t : AddState)
    → IsOwn is_added_input s
    → add_signatures (input_class modes) required s decls ≡ ok t
    → IsOwn is_added_input t
unfolding input_class add_input_declaration declared_register
inputs-IsOwn modes required decls s t own e =
    add_signatures-IsOwn (input_class modes) is_added_input
      (λ p q d r h.
        add_signature_declaration-Grows is_added_input p q d.register_index d.reverse_bind
          (λ n. build_input_declaration modes (record d { register_index = some n })) 31 r
          (λ n. refl) h)
      required decls s t own e

-- When every handle of an output is bound to a register that the program declares as an output and
-- no two handles to the same one, this holds after the loop over a step's outputs, required or not.
pub outputs-IsOwn :
    (modes : ComponentModes) (required : Bool) (decls : List OutputDecl) (s t : AddState)
    → IsOwn is_output s
    → add_signatures (output_class modes) required s decls ≡ ok t
    → IsOwn is_output t
unfolding output_class add_output_declaration declared_register
outputs-IsOwn modes required decls s t own e =
    add_signatures-IsOwn (output_class modes) is_output
      (λ p q d r h.
        add_signature_declaration-Grows is_output p q d.register_index d.reverse_bind
          (λ n. build_output_declaration modes (record d { register_index = some n })) 7 r
          (λ n. refl) h)
      required decls s t own e
