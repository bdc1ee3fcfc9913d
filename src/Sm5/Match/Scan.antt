-- ===== src/Sm5/Match/Scan.antt =====
-- The steps of `CollectWindowMatches`, one for each outcome of the two searches.
use direct_xshader_patcher.Base.{
  ℕ, zero, suc, List, [], ◌∷◌, All, Bool-cases, Option, none, some, Result-cases, ok, err, str_eq,
  ◌≡◌, ◌⊎◌, refl, sym, subst, ◌∙◌, inl, inr,
}
use direct_xshader_patcher.Sm5.Roles.{ComponentFormat}
use direct_xshader_patcher.Sm5.Match.{MatchContext, Mismatch}
use direct_xshader_patcher.Sm5.Match.Operands.{Captured}
use direct_xshader_patcher.Sm5.Match.Instructions.{Instruction, InstructionPattern, ExtendedFormat}
use direct_xshader_patcher.Sm5.Match.Collect.{
  InstructionLayout, MatchResult, matches_here, find_end, collect_window_matches, window,
  capture_instruction,
}
use direct_xshader_patcher.Sm5.Match.Ends.{
  IsMatch, MatchAt, no-IsMatch, same_some, find_end-here, find_end-later,
}

-- Some element has the property.
abbrev pub Has {ℓ} : {A : Type ℓ} → (A → Type 0) → List A → Type 0
Has P [] = ⊥
Has P (x ∷ xs) = P x ⊎ Has P xs

some_not_none {ℓ} : {A : Type ℓ} {a : A} → ◌≡◌ {A = Option A} (some a) none → ⊥
some_not_none h = cc

pub All-map {ℓ} :
    {A : Type ℓ} (P Q : A → Type 0) (xs : List A) → ((a : A) → P a → Q a) → All P xs → All Q xs
All-map P Q [] f h = tt
All-map P Q (x ∷ xs) f h = (f x h.0, All-map P Q xs f h.1)

module _ (components : ComponentFormat) (format : ExtendedFormat) (layouts : List InstructionLayout)
    (context : MatchContext) where
  pub capture_instruction-range :
      (pattern : InstructionPattern) (i : ℕ) (instr : Instruction) (r : MatchResult)
      → ((capture_instruction components format layouts pattern i instr r).range_start_index
          ≡ r.range_start_index)
        × ((capture_instruction components format layouts pattern i instr r).range_end_index
            ≡ r.range_end_index)
  unfolding capture_instruction
  capture_instruction-range pattern i instr r = elim (Bool-cases (str_eq pattern.capture "")) [
    | inl unnamed ↦ rw unnamed (refl, refl)
    | inr named ↦ rw named (refl, refl)
  ]

  module _ (start_pattern end_pattern : InstructionPattern) where
    pub collect_no_start :
        (n : ℕ) (instr : Instruction) (instrs : List Instruction) (wrong : Mismatch)
        → matches_here components format layouts context start_pattern instr [] ≡ err wrong
        → collect_window_matches components format layouts context n
            (instr ∷ instrs)
            start_pattern
            end_pattern
          ≡ collect_window_matches components format layouts context
              (suc n)
              instrs
              start_pattern
              end_pattern
    unfolding collect_window_matches
    collect_no_start n instr instrs wrong m = rw (m, collect_window_matches) refl

    pub collect_no_end :
        (n : ℕ) (instr : Instruction) (instrs : List Instruction) (captured : Captured)
        → matches_here components format layouts context start_pattern instr [] ≡ ok captured
        → find_end components format layouts context n (instr ∷ instrs) end_pattern ≡ none
        → collect_window_matches components format layouts context n
            (instr ∷ instrs)
            start_pattern
            end_pattern
          ≡ collect_window_matches components format layouts context
              (suc n)
              instrs
              start_pattern
              end_pattern
    unfolding collect_window_matches
    collect_no_end n instr instrs captured m e =
        rw (m, collect_window_matches) (rw (e, collect_window_matches) refl)

    pub collect_window :
        (n : ℕ) (instr : Instruction) (instrs : List Instruction) (captured : Captured)
        (found : ℕ × Instruction × Captured)
        → matches_here components format layouts context start_pattern instr [] ≡ ok captured
        → find_end components format layouts context n (instr ∷ instrs) end_pattern ≡ some found
        → collect_window_matches components format layouts context n
            (instr ∷ instrs)
            start_pattern
            end_pattern
          ≡ window components format layouts context start_pattern end_pattern n instr captured
              found
            ∷ collect_window_matches components format layouts context
                (suc n)
                instrs
                start_pattern
                end_pattern
    unfolding collect_window_matches
    collect_window n instr instrs captured found m e =
        rw (m, collect_window_matches) (rw (e, collect_window_matches) refl)

    pub window_range :
        (n : ℕ) (instr : Instruction) (captured : Captured) (found : ℕ × Instruction × Captured)
        → ((window components format layouts context start_pattern end_pattern n instr captured
              found).range_start_index
            ≡ n)
          × ((window components format layouts context start_pattern end_pattern n instr captured
                found).range_end_index
              ≡ found.0)
    window_range n instr captured found =
        let inner = capture_instruction-range start_pattern n instr _ in
        let outer = capture_instruction-range end_pattern found.0 found.1 _ in
        (outer.0 ∙ inner.0, outer.1 ∙ inner.1)

    -- An end somewhere is found.
    pub find_end_found :
        (n : ℕ) (instrs : List Instruction) (j : ℕ)
        → MatchAt components format layouts context end_pattern instrs j
        → ¬ (find_end components format layouts context n instrs end_pattern ≡ none)
    unfolding find_end
    find_end_found n [] j (other, e, m) absent = cc
    find_end_found n (instr ∷ instrs) zero (other, e, m) absent =
        elim (Result-cases (matches_here components format layouts context end_pattern instr [])) [
          | inl (captured, here) ↦ some_not_none (
              sym (
                find_end-here components format layouts context n instr instrs end_pattern captured
                  here)
              ∙ absent)
          | inr (wrong, here) ↦
              no-IsMatch components format layouts context end_pattern instr wrong here (
                subst (IsMatch components format layouts context end_pattern) (sym (same_some e)) m)
        ]
    find_end_found n (instr ∷ instrs) (suc j) (other, e, m) absent =
        elim (Result-cases (matches_here components format layouts context end_pattern instr [])) [
          | inl (captured, here) ↦ some_not_none (
              sym (
                find_end-here components format layouts context n instr instrs end_pattern captured
                  here)
              ∙ absent)
          | inr (wrong, here) ↦
              find_end_found (suc n) instrs j (other, e, m)
                (sym (
                    find_end-later components format layouts context n instr instrs end_pattern
                      wrong here)
                  ∙ absent)
        ]
