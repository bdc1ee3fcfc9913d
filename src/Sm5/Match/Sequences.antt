-- ===== src/Sm5/Match/Sequences.antt =====
-- What the matches of `CollectSequenceMatches` are.
use direct_xshader_patcher.Base.{
  ℕ, zero, suc, ◌+◌, ◌-◌, ◌≤◌, List, [], ◌∷◌, All, Bool-cases, true, false, Result-cases, ok, err,
  length, drop, ltb, is_empty, ◌||◌, ◌≡◌, refl, sym, subst, ◌∙◌, inl, inr, arith,
}
use direct_xshader_patcher.Sm5.Roles.{ComponentFormat}
use direct_xshader_patcher.Sm5.Match.{MatchContext, Mismatch}
use direct_xshader_patcher.Sm5.Match.Operands.{Captured}
use direct_xshader_patcher.Sm5.Match.Instructions.{Instruction, InstructionPattern, ExtendedFormat}
use direct_xshader_patcher.Sm5.Match.Collect.{
  InstructionLayout, MatchResult, matches_sequence, capture_sequence, collect_sequences_from,
  collect_sequence_matches, capture_instruction, empty_match,
}
use direct_xshader_patcher.Sm5.Match.Trace.{
  Matched, matches_sequence-Matched, Matched-matches_sequence,
}
use direct_xshader_patcher.Sm5.Match.Scan.{Has, All-map, capture_instruction-range}

module _ (components : ComponentFormat) (format : ExtendedFormat) (layouts : List InstructionLayout)
    (context : MatchContext) where
  capture_sequence-range :
      (patterns : List InstructionPattern) (i : ℕ) (instrs : List Instruction) (r : MatchResult)
      → ((capture_sequence components format layouts context patterns i instrs r).range_start_index
          ≡ r.range_start_index)
        × ((capture_sequence components format layouts context patterns i instrs r).range_end_index
            ≡ r.range_end_index)
  unfolding capture_sequence
  capture_sequence-range [] i instrs r = (refl, refl)
  capture_sequence-range (pattern ∷ patterns) i [] r = (refl, refl)
  capture_sequence-range (pattern ∷ patterns) i (instr ∷ instrs) r =
      let next = capture_instruction components format layouts pattern i instr r in
      let one = capture_instruction-range components format layouts context pattern i instr r in
      let rest = capture_sequence-range patterns (suc i) instrs next in
      (rest.0 ∙ one.0, rest.1 ∙ one.1)

  module _ (patterns : List InstructionPattern) where
    -- The patterns match the instructions from number `a` on, one behind another.
    abbrev pub SequenceAt : List Instruction → ℕ → Type 0
    SequenceAt instrs a = Matched components format layouts context patterns (drop a instrs) []

    -- The same as what the search says.
    abbrev FoundAt : List Instruction → ℕ → Type 0
    FoundAt instrs a =
        (captured : Captured) × (matches_sequence components format layouts context patterns
            (drop a instrs) []
          ≡ ok captured)

    SequenceFrom : ℕ → List Instruction → MatchResult → Type 0
    SequenceFrom n instrs r =
        (a : ℕ) × (r.range_start_index ≡ n + a)
        × (r.range_end_index ≡ n + a + (length patterns - 1))
        × (a + length patterns ≤ length instrs)
        × FoundAt instrs a

    SequenceFrom-later :
        (n : ℕ) (instr : Instruction) (instrs : List Instruction) (r : MatchResult)
        → SequenceFrom (suc n) instrs r
        → SequenceFrom n (instr ∷ instrs) r
    unfolding SequenceFrom
    SequenceFrom-later n instr instrs r (a, s, e, room, m) =
        (suc a, omega (arith, s), omega (arith, e), omega (arith, room), m)

    collect_too_few :
        (n : ℕ) (instr : Instruction) (instrs : List Instruction)
        → ltb (length (instr ∷ instrs)) (length patterns) ≡ true
        → collect_sequences_from components format layouts context n (instr ∷ instrs) patterns ≡ []
    unfolding collect_sequences_from
    collect_too_few n instr instrs few = rw few refl

    collect_none :
        (n : ℕ) (instr : Instruction) (instrs : List Instruction) (wrong : Mismatch)
        → ltb (length (instr ∷ instrs)) (length patterns) ≡ false
        → matches_sequence components format layouts context patterns (instr ∷ instrs) []
          ≡ err wrong
        → collect_sequences_from components format layouts context n (instr ∷ instrs) patterns
          ≡ collect_sequences_from components format layouts context (suc n) instrs patterns
    unfolding collect_sequences_from
    collect_none n instr instrs wrong enough m = rw enough (rw (m, collect_sequences_from) refl)

    -- What is pushed for a start.
    abbrev sequence_match : ℕ → List Instruction → Captured → MatchResult
    sequence_match n instrs captured =
        capture_sequence components format layouts context patterns n instrs
          (empty_match components format layouts n (n + (length patterns - 1)) captured)

    collect_one :
        (n : ℕ) (instr : Instruction) (instrs : List Instruction) (captured : Captured)
        → ltb (length (instr ∷ instrs)) (length patterns) ≡ false
        → matches_sequence components format layouts context patterns (instr ∷ instrs) []
          ≡ ok captured
        → collect_sequences_from components format layouts context n (instr ∷ instrs) patterns
          ≡ sequence_match n (instr ∷ instrs) captured
            ∷ collect_sequences_from components format layouts context (suc n) instrs patterns
    unfolding collect_sequences_from
    collect_one n instr instrs captured enough m = rw enough (rw (m, collect_sequences_from) refl)

    head_sequence :
        (n : ℕ) (instr : Instruction) (instrs : List Instruction) (captured : Captured)
        → ltb (length (instr ∷ instrs)) (length patterns) ≡ false
        → matches_sequence components format layouts context patterns (instr ∷ instrs) []
          ≡ ok captured
        → SequenceFrom n (instr ∷ instrs) (sequence_match n (instr ∷ instrs) captured)
    unfolding SequenceFrom
    head_sequence n instr instrs captured enough m =
        let range =
          capture_sequence-range patterns n (instr ∷ instrs)
            (empty_match components format layouts n (n + (length patterns - 1)) captured) in
        (0, omega (arith, range.0), omega (arith, range.1), ground arith, (captured, m))

    collect-SequenceFrom :
        (n : ℕ) (instrs : List Instruction)
        → All
            (SequenceFrom n instrs)
            (collect_sequences_from components format layouts context n instrs patterns)
    unfolding collect_sequences_from
    collect-SequenceFrom n [] = tt
    collect-SequenceFrom n (instr ∷ instrs) =
        let later =
          All-map (SequenceFrom (suc n) instrs) (SequenceFrom n (instr ∷ instrs)) _
            (SequenceFrom-later n instr instrs) (collect-SequenceFrom (suc n) instrs) in
        let P = All (SequenceFrom n (instr ∷ instrs)) in
        elim (Bool-cases (ltb (length (instr ∷ instrs)) (length patterns))) [
          | inl few ↦ subst P (sym (collect_too_few n instr instrs few)) tt
          | inr enough ↦
              elim (Result-cases
                (matches_sequence components format layouts context patterns (instr ∷ instrs) [])) [
                  | inr (wrong, m) ↦
                      subst P (sym (collect_none n instr instrs wrong enough m)) later
                  | inl (captured, m) ↦
                      subst P (sym (collect_one n instr instrs captured enough m))
                        (head_sequence n instr instrs captured enough m, later)
                ]
        ]

    collect_sequences_complete :
        (n : ℕ) (instrs : List Instruction) (i : ℕ)
        → 1 ≤ length patterns
        → i + length patterns ≤ length instrs
        → FoundAt instrs i
        → Has
            (λ r. r.range_start_index ≡ n + i)
            (collect_sequences_from components format layouts context n instrs patterns)
    unfolding collect_sequences_from
    collect_sequences_complete n [] i some_pattern room matching =
        absurd (omega (arith, room, some_pattern))
    collect_sequences_complete n (instr ∷ instrs) zero some_pattern room (captured, m) =
        let enough : ltb (length (instr ∷ instrs)) (length patterns) ≡ false =
          ground (arith, room) in
        let range =
          capture_sequence-range patterns n (instr ∷ instrs)
            (empty_match components format layouts n (n + (length patterns - 1)) captured) in
        subst (Has (λ r. r.range_start_index ≡ n + 0))
          (sym (collect_one n instr instrs captured enough m)) (inl (omega (arith, range.0)))
    collect_sequences_complete n (instr ∷ instrs) (suc i) some_pattern room matching =
        let enough : ltb (length (instr ∷ instrs)) (length patterns) ≡ false =
          ground (arith, room) in
        let e : suc n + i ≡ n + suc i = omega arith in
        let later =
          subst
            (λ k.
              Has (λ r. r.range_start_index ≡ k)
                (collect_sequences_from components format layouts context (suc n) instrs patterns))
            e
            (collect_sequences_complete (suc n) instrs i some_pattern (omega (arith, room))
              matching) in
        let P : List MatchResult → Type 0 = Has (λ r. r.range_start_index ≡ n + suc i) in
        elim (Result-cases
          (matches_sequence components format layouts context patterns (instr ∷ instrs) [])) [
            | inr (wrong, m) ↦ subst P (sym (collect_none n instr instrs wrong enough m)) later
            | inl (captured, m) ↦
                subst P (sym (collect_one n instr instrs captured enough m)) (inr later)
          ]

  -- The patterns of a match, and where it stands in the instructions.
  pub record IsSequence (patterns : List InstructionPattern) (instrs : List Instruction)
      (r : MatchResult) : Type 0 where
    pub last : r.range_end_index ≡ r.range_start_index + (length patterns - 1)
    pub room : r.range_start_index + length patterns ≤ length instrs
    pub matching : SequenceAt patterns instrs r.range_start_index

  from_zero :
      (patterns : List InstructionPattern) (instrs : List Instruction) (r : MatchResult)
      → SequenceFrom patterns 0 instrs r
      → IsSequence patterns instrs r
  unfolding SequenceFrom
  from_zero patterns instrs r (a, s, e, room, m) =
      let first : a ≡ r.range_start_index = omega (arith, s) in
      record {
        last = omega (arith, s, e);
        room = omega (arith, s, room);
        matching =
            let (captured, found) = subst (FoundAt patterns instrs) first m in
            matches_sequence-Matched components format layouts context patterns
              (drop r.range_start_index instrs) [] captured found;
      }

  -- Every match that `CollectSequenceMatches` returns has as many instructions as there are patterns,
  -- inside the program, and the pattern of each number matches the instruction of that number behind
  -- the start, with the captures that the patterns before it leave.
  pub collect_sequence_matches-IsSequence :
      (instrs : List Instruction) (patterns : List InstructionPattern)
      → All
          (IsSequence patterns instrs)
          (collect_sequence_matches components format layouts context instrs patterns)
  unfolding collect_sequence_matches
  collect_sequence_matches-IsSequence instrs patterns =
      elim (Bool-cases (is_empty patterns || ltb (length instrs) (length patterns))) [
        | inl nothing ↦ rw nothing tt
        | inr something ↦ rw something (
            All-map (SequenceFrom patterns 0 instrs) (IsSequence patterns instrs) _
              (from_zero patterns instrs) (collect-SequenceFrom patterns 0 instrs))
      ]

  -- Wherever the patterns of a list that is not empty match the instructions of a program one behind
  -- another, each with the captures that those before it leave, `CollectSequenceMatches` returns a
  -- match that starts there.
  pub collect_sequence_matches_complete :
      (instrs : List Instruction) (patterns : List InstructionPattern) (i : ℕ)
      → is_empty patterns ≡ false
      → i + length patterns ≤ length instrs
      → SequenceAt patterns instrs i
      → Has
          (λ r. r.range_start_index ≡ i)
          (collect_sequence_matches components format layouts context instrs patterns)
  unfolding collect_sequence_matches
  collect_sequence_matches_complete instrs (pattern ∷ patterns) i filled room matching =
      let few : ltb (length instrs) (length (pattern ∷ patterns)) ≡ false = ground (arith, room) in
      let e : 0 + i ≡ i = omega arith in
      rw few (
        subst
          (λ k.
            Has (λ r. r.range_start_index ≡ k)
              (collect_sequences_from components format layouts context 0 instrs
                (pattern ∷ patterns)))
          e
          (collect_sequences_complete (pattern ∷ patterns) 0 instrs i (omega arith) room (
            Matched-matches_sequence components format layouts context (pattern ∷ patterns)
              (drop i instrs) [] matching)))
  collect_sequence_matches_complete instrs [] i filled room matching = cc
