-- ===== src/Sm5/Match/Ends.antt =====
-- The end that a window of `CollectWindowMatches` gets.
use direct_xshader_patcher.Base.{
  ℕ, zero, suc, ◌+◌, ◌<◌, List, [], ◌∷◌, Option, some, Result-cases, ok, err, get_elem?, ◌≡◌, refl,
  sym, ap, subst, ◌∙◌, inl, inr, arith,
}
use direct_xshader_patcher.Sm5.Roles.{ComponentFormat}
use direct_xshader_patcher.Sm5.Match.{MatchContext, Mismatch}
use direct_xshader_patcher.Sm5.Match.Operands.{Captured}
use direct_xshader_patcher.Sm5.Match.Instructions.{Instruction, InstructionPattern, ExtendedFormat}
use direct_xshader_patcher.Sm5.Match.Collect.{InstructionLayout, matches_here, find_end}

pub same_some {ℓ} : {A : Type ℓ} {a b : A} → ◌≡◌ {A = Option A} (some a) (some b) → a ≡ b
same_some h = cc

module _ (components : ComponentFormat) (format : ExtendedFormat) (layouts : List InstructionLayout)
    (context : MatchContext) where
  -- The instruction matches by itself.
  abbrev pub IsMatch : InstructionPattern → Instruction → Type 0
  IsMatch pattern instr =
      (captured : Captured) × (matches_here components format layouts context pattern instr []
        ≡ ok captured)

  -- There is an instruction with this number, and it matches.
  abbrev pub MatchAt : InstructionPattern → List Instruction → ℕ → Type 0
  MatchAt pattern instrs i =
      (instr : Instruction) × (get_elem? instrs i ≡ some instr) × IsMatch pattern instr

  -- The first end from number `j` on.
  pub record FirstEnd (pattern : InstructionPattern) (instrs : List Instruction) (j : ℕ) (found : ℕ)
      : Type 0 where
    pub offset : ℕ
    pub reached : found ≡ j + offset
    pub ends : MatchAt pattern instrs offset
    pub innermost : (k : ℕ) → k < offset → ¬ MatchAt pattern instrs k

  pub find_end-here :
      (j : ℕ) (instr : Instruction) (instrs : List Instruction) (pattern : InstructionPattern)
      (captured : Captured)
      → matches_here components format layouts context pattern instr [] ≡ ok captured
      → find_end components format layouts context j (instr ∷ instrs) pattern
        ≡ some (j, instr, captured)
  unfolding find_end
  find_end-here j instr instrs pattern captured m = rw (m, find_end) refl

  pub find_end-later :
      (j : ℕ) (instr : Instruction) (instrs : List Instruction) (pattern : InstructionPattern)
      (wrong : Mismatch)
      → matches_here components format layouts context pattern instr [] ≡ err wrong
      → find_end components format layouts context j (instr ∷ instrs) pattern
        ≡ find_end components format layouts context (suc j) instrs pattern
  unfolding find_end
  find_end-later j instr instrs pattern wrong m = rw (m, find_end) refl

  pub no-IsMatch :
      (pattern : InstructionPattern) (instr : Instruction) (wrong : Mismatch)
      → matches_here components format layouts context pattern instr [] ≡ err wrong
      → ¬ IsMatch pattern instr
  no-IsMatch pattern instr wrong m (captured, e) = cc

  -- One instruction in front that is no end.
  FirstEnd-later :
      (pattern : InstructionPattern) (instr : Instruction) (instrs : List Instruction) (j found : ℕ)
      → ¬ IsMatch pattern instr
      → FirstEnd pattern instrs (suc j) found
      → FirstEnd pattern (instr ∷ instrs) j found
  FirstEnd-later pattern instr instrs j found none_here first = record {
    offset = suc first.offset;
    reached = omega (arith, first.reached);
    ends = first.ends;
    innermost = λ k below matching. earlier k below matching;
  }
    where
      earlier : (k : ℕ) → k < suc first.offset → ¬ MatchAt pattern (instr ∷ instrs) k
      earlier zero below (other, e, m) = none_here (subst (IsMatch pattern) (sym (same_some e)) m)
      earlier (suc k) below matching = first.innermost k (omega (arith, below)) matching

  pub find_end-FirstEnd :
      (j : ℕ) (instrs : List Instruction) (pattern : InstructionPattern)
      (found : ℕ × Instruction × Captured)
      → find_end components format layouts context j instrs pattern ≡ some found
      → FirstEnd pattern instrs j found.0
  unfolding find_end
  find_end-FirstEnd j [] pattern found e = cc
  find_end-FirstEnd j (instr ∷ instrs) pattern found e =
      elim (Result-cases (matches_here components format layouts context pattern instr [])) [
        | inl (captured, m) ↦
            let same = same_some (sym (find_end-here j instr instrs pattern captured m) ∙ e) in
            record {
              offset = 0;
              reached = omega (arith, ap (λ f. f.0) (sym same));
              ends = (instr, refl, (captured, m));
              innermost = λ k below. absurd (omega (arith, below));
            }
        | inr (wrong, m) ↦
            FirstEnd-later pattern instr instrs j found.0 (no-IsMatch pattern instr wrong m) (
              find_end-FirstEnd (suc j) instrs pattern found
                (sym (find_end-later j instr instrs pattern wrong m) ∙ e))
      ]
