-- ===== src/Sm5/Match/Trace.antt =====
-- What it is that patterns match instructions one behind another, by the numbers of both.
use direct_xshader_patcher.Base.{
  ℕ, zero, suc, List, [], ◌∷◌, get_elem?, some, ok, >>=-eq-ok, ◌≡◌, refl, sym, ap, ◌∙◌, subst,
}
use direct_xshader_patcher.Sm5.Roles.{ComponentFormat}
use direct_xshader_patcher.Sm5.Match.{MatchContext}
use direct_xshader_patcher.Sm5.Match.Operands.{Captured}
use direct_xshader_patcher.Sm5.Match.Instructions.{
  Instruction, InstructionPattern, ExtendedFormat, matches_instruction,
}
use direct_xshader_patcher.Sm5.Match.Collect.{InstructionLayout, matches_here, matches_sequence}
use direct_xshader_patcher.Sm5.Match.Ends.{same_some}

module _ (components : ComponentFormat) (format : ExtendedFormat) (layouts : List InstructionLayout)
    (context : MatchContext) where
  -- There are captures, which begin with the given ones, such that for each number `k` of a pattern
  -- there is an instruction with the same number, and the pattern matches it with the captures of
  -- number `k`, which leaves those of the next number.
  pub record Matched (patterns : List InstructionPattern) (instrs : List Instruction)
      (start : Captured) : Type 0 where
    pub captures : ℕ → Captured
    pub begins : captures 0 ≡ start
    pub each :
        (k : ℕ) (pattern : InstructionPattern)
        → get_elem? patterns k ≡ some pattern
        → (instr : Instruction) × (get_elem? instrs k ≡ some instr)
          × (matches_instruction components format context pattern instr (captures k)
              ≡ ok (captures (suc k)))

  abbrev behind : Captured → (ℕ → Captured) → ℕ → Captured
  behind start captures zero = start
  behind start captures (suc k) = captures k

  behind-each :
      (p : InstructionPattern) (patterns : List InstructionPattern) (instr : Instruction)
      (instrs : List Instruction) (start next : Captured)
      → matches_instruction components format context p instr start ≡ ok next
      → (rest : Matched patterns instrs next) → (k : ℕ) (pattern : InstructionPattern)
      → get_elem? (p ∷ patterns) k ≡ some pattern
      → (i : Instruction) × (get_elem? (instr ∷ instrs) k ≡ some i)
        × (matches_instruction components format context pattern i (behind start rest.captures k)
            ≡ ok (rest.captures k))
  behind-each p patterns instr instrs start next here rest zero pattern there = (
    instr,
    refl,
    subst (λ q. matches_instruction components format context q instr start ≡ ok (rest.captures 0))
        (same_some there) (here ∙ ap (λ c. ok c) (sym rest.begins)),
  )
  behind-each p patterns instr instrs start next here rest (suc k) pattern there =
      rest.each k pattern there

  pub matches_sequence-Matched :
      (patterns : List InstructionPattern) (instrs : List Instruction) (start captured : Captured)
      → matches_sequence components format layouts context patterns instrs start ≡ ok captured
      → Matched patterns instrs start
  unfolding matches_sequence
  matches_sequence-Matched [] instrs start captured e = record {
    captures = λ k. start;
    begins = refl;
    each = λ k pattern there. cc;
  }
  matches_sequence-Matched (p ∷ patterns) [] start captured e = cc
  matches_sequence-Matched (p ∷ patterns) (instr ∷ instrs) start captured e =
      let (next, here, later) =
        >>=-eq-ok (matches_here components format layouts context p instr start) _ e in
      let rest = matches_sequence-Matched patterns instrs next captured later in
      record {
        captures = behind start rest.captures;
        begins = refl;
        each = behind-each p patterns instr instrs start next here rest;
      }

  pub Matched-matches_sequence :
      (patterns : List InstructionPattern) (instrs : List Instruction) (start : Captured)
      → Matched patterns instrs start
      → (captured : Captured) × (matches_sequence components format layouts context patterns instrs
            start
          ≡ ok captured)
  unfolding matches_sequence
  Matched-matches_sequence [] instrs start m = (start, refl)
  Matched-matches_sequence (p ∷ patterns) [] start m =
      let (instr, there, here) = m.each 0 p refl in cc
  Matched-matches_sequence (p ∷ patterns) (instr ∷ instrs) start m =
      let (i, there, here) = m.each 0 p refl in
      let first : matches_here components format layouts context p instr start ≡ ok (m.captures 1) =
        ap (λ j. matches_here components format layouts context p j start) (same_some there)
        ∙ ap (matches_here components format layouts context p i) (sym m.begins)
        ∙ here in
      let (captured, later) = Matched-matches_sequence patterns instrs (m.captures 1) (record {
        captures = λ k. m.captures (suc k);
        begins = refl;
        each = λ k. m.each (suc k);
      }) in
      (captured, rw (first, matches_sequence) later)
