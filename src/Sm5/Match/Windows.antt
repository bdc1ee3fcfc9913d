-- ===== src/Sm5/Match/Windows.antt =====
-- What the windows of `CollectWindowMatches` are.
use direct_xshader_patcher.Base.{
  ℕ, zero, suc, ◌+◌, ◌≤◌, ◌<◌, List, [], ◌∷◌, All, Option-cases, Result-cases, ok, ◌≡◌, refl, sym,
  subst, inl, inr, arith,
}
use direct_xshader_patcher.Sm5.Roles.{ComponentFormat}
use direct_xshader_patcher.Sm5.Match.{MatchContext}
use direct_xshader_patcher.Sm5.Match.Operands.{Captured}
use direct_xshader_patcher.Sm5.Match.Instructions.{Instruction, InstructionPattern, ExtendedFormat}
use direct_xshader_patcher.Sm5.Match.Collect.{
  InstructionLayout, MatchResult, matches_here, find_end, collect_window_matches, window,
}
use direct_xshader_patcher.Sm5.Match.Ends.{
  IsMatch, MatchAt, FirstEnd, no-IsMatch, same_some, find_end-FirstEnd,
}
use direct_xshader_patcher.Sm5.Match.Scan.{
  Has, All-map, collect_no_start, collect_no_end, collect_window, window_range, find_end_found,
}

module _ (components : ComponentFormat) (format : ExtendedFormat) (layouts : List InstructionLayout)
    (context : MatchContext) where
  -- A start at `i`, an end at `j` at or behind it, and no end between them.
  pub record IsWindow (start_pattern end_pattern : InstructionPattern) (instrs : List Instruction)
      (i j : ℕ) : Type 0 where
    pub forward : i ≤ j
    pub starts : MatchAt components format layouts context start_pattern instrs i
    pub ends : MatchAt components format layouts context end_pattern instrs j
    pub innermost :
        (k : ℕ) → i ≤ k → k < j → ¬ MatchAt components format layouts context end_pattern instrs k

  module _ (start_pattern end_pattern : InstructionPattern) where
    -- A match whose numbers count from `n`.
    WindowFrom : ℕ → List Instruction → MatchResult → Type 0
    WindowFrom n instrs r =
        (a : ℕ) × (b : ℕ) × (r.range_start_index ≡ n + a)
        × (r.range_end_index ≡ n + b)
        × IsWindow start_pattern end_pattern instrs a b

    WindowFrom-later :
        (n : ℕ) (instr : Instruction) (instrs : List Instruction) (r : MatchResult)
        → WindowFrom (suc n) instrs r
        → WindowFrom n (instr ∷ instrs) r
    unfolding WindowFrom
    WindowFrom-later n instr instrs r (a, b, s, e, w) = (
      suc a,
      suc b,
      omega (arith, s),
      omega (arith, e),
      record {
        forward = omega (arith, w.forward);
        starts = w.starts;
        ends = w.ends;
        innermost = between w;
      },
    )
      where
        between :
            IsWindow start_pattern end_pattern instrs a b
            → (k : ℕ) → suc a ≤ k
            → k < suc b
            → ¬ MatchAt components format layouts context end_pattern (instr ∷ instrs) k
        between w zero low high = absurd (omega (arith, low))
        between w (suc k) low high = w.innermost k (omega (arith, low)) (omega (arith, high))

    head_window :
        (n : ℕ) (instr : Instruction) (instrs : List Instruction) (captured : Captured)
        (found : ℕ × Instruction × Captured)
        → matches_here components format layouts context start_pattern instr [] ≡ ok captured
        → FirstEnd components format layouts context end_pattern (instr ∷ instrs) n found.0
        → WindowFrom n (instr ∷ instrs) (
            window components format layouts context start_pattern end_pattern n instr captured
              found)
    unfolding WindowFrom
    head_window n instr instrs captured found m first =
        let range =
          window_range components format layouts context start_pattern end_pattern n instr captured
            found in
        (
          0,
          first.offset,
          omega (arith, range.0),
          omega (arith, range.1, first.reached),
          record {
            forward = omega arith;
            starts = (instr, refl, (captured, m));
            ends = first.ends;
            innermost = λ k low high. first.innermost k high;
          },
        )

    collect-WindowFrom :
        (n : ℕ) (instrs : List Instruction)
        → All (WindowFrom n instrs) (
            collect_window_matches components format layouts context n instrs start_pattern
              end_pattern)
    unfolding collect_window_matches
    collect-WindowFrom n [] = tt
    collect-WindowFrom n (instr ∷ instrs) =
        let later =
          All-map (WindowFrom (suc n) instrs) (WindowFrom n (instr ∷ instrs)) _
            (WindowFrom-later n instr instrs) (collect-WindowFrom (suc n) instrs) in
        let P = All (WindowFrom n (instr ∷ instrs)) in
        elim (Result-cases
          (matches_here components format layouts context start_pattern instr [])) [
            | inr (wrong, m) ↦
                subst P
                  (sym (
                    collect_no_start components format layouts context start_pattern end_pattern n
                      instr instrs wrong m))
                  later
            | inl (captured, m) ↦
                elim (Option-cases
                  (find_end components format layouts context n (instr ∷ instrs) end_pattern)) [
                    | inl e ↦
                        subst P
                          (sym (
                            collect_no_end components format layouts context start_pattern
                              end_pattern n instr instrs captured m e))
                          later
                    | inr (found, e) ↦
                        subst P
                          (sym (
                            collect_window components format layouts context start_pattern
                              end_pattern n instr instrs captured found m e))
                          (
                            head_window n instr instrs captured found m (
                                find_end-FirstEnd components format layouts context n
                                  (instr ∷ instrs) end_pattern found e),
                            later,
                          )
                  ]
          ]

    StartsAt : ℕ → MatchResult → Type 0
    StartsAt i r = r.range_start_index ≡ i

    collect_complete :
        (n : ℕ) (instrs : List Instruction) (i j : ℕ)
        → MatchAt components format layouts context start_pattern instrs i
        → MatchAt components format layouts context end_pattern instrs j
        → i ≤ j
        → Has (StartsAt (n + i)) (
            collect_window_matches components format layouts context n instrs start_pattern
              end_pattern)
    unfolding collect_window_matches StartsAt
    collect_complete n [] i j (other, e, m) ending forward = cc
    collect_complete n (instr ∷ instrs) zero j (other, e, m) ending forward =
        elim (Result-cases
          (matches_here components format layouts context start_pattern instr [])) [
            | inr (wrong, here) ↦ absurd (
                no-IsMatch components format layouts context start_pattern instr wrong here (
                  subst (IsMatch components format layouts context start_pattern)
                    (sym (same_some e)) m))
            | inl (captured, here) ↦
                elim (Option-cases
                  (find_end components format layouts context n (instr ∷ instrs) end_pattern)) [
                    | inl absent ↦ absurd (
                        find_end_found components format layouts context start_pattern end_pattern n
                          (instr ∷ instrs) j ending absent)
                    | inr (found, there) ↦
                        subst (Has (StartsAt (n + 0)))
                          (sym (
                            collect_window components format layouts context start_pattern
                              end_pattern n instr instrs captured found here there))
                          (inl (
                            omega (
                              arith,
                              (window_range components format layouts context start_pattern
                                  end_pattern n instr captured found).0,
                            )))
                  ]
          ]
    collect_complete n (instr ∷ instrs) (suc i) zero starting ending forward =
        absurd (omega (arith, forward))
    collect_complete n (instr ∷ instrs) (suc i) (suc j) starting ending forward =
        let e : suc n + i ≡ n + suc i = omega arith in
        let later =
          subst
            (λ k. Has (StartsAt k) (
              collect_window_matches components format layouts context (suc n) instrs start_pattern
                end_pattern))
            e (collect_complete (suc n) instrs i j starting ending (omega (arith, forward))) in
        let P = Has (StartsAt (n + suc i)) in
        elim (Result-cases
          (matches_here components format layouts context start_pattern instr [])) [
            | inr (wrong, m) ↦
                subst P
                  (sym (
                    collect_no_start components format layouts context start_pattern end_pattern n
                      instr instrs wrong m))
                  later
            | inl (captured, m) ↦
                elim (Option-cases
                  (find_end components format layouts context n (instr ∷ instrs) end_pattern)) [
                    | inl none_there ↦
                        subst P
                          (sym (
                            collect_no_end components format layouts context start_pattern
                              end_pattern n instr instrs captured m none_there))
                          later
                    | inr (found, there) ↦
                        subst P
                          (sym (
                            collect_window components format layouts context start_pattern
                              end_pattern n instr instrs captured found m there))
                          (inr later)
                  ]
          ]

  from_zero :
      (instrs : List Instruction) (start_pattern end_pattern : InstructionPattern) (r : MatchResult)
      → WindowFrom start_pattern end_pattern 0 instrs r
      → IsWindow start_pattern end_pattern instrs r.range_start_index r.range_end_index
  unfolding WindowFrom
  from_zero instrs start_pattern end_pattern r (a, b, s, e, w) =
      let first : a ≡ r.range_start_index = omega (arith, s) in
      let last : b ≡ r.range_end_index = omega (arith, e) in
      subst (λ k. IsWindow start_pattern end_pattern instrs k r.range_end_index) first
        (subst (λ k. IsWindow start_pattern end_pattern instrs a k) last w)

  -- Every window that `CollectWindowMatches` returns starts at an instruction that the start pattern
  -- matches by itself and ends at the nearest one at or behind it that the end pattern matches.
  pub collect_window_matches-IsWindow :
      (instrs : List Instruction) (start_pattern end_pattern : InstructionPattern)
      → All
          (λ r. IsWindow start_pattern end_pattern instrs r.range_start_index r.range_end_index)
          (collect_window_matches components format layouts context 0 instrs start_pattern
            end_pattern)
  unfolding WindowFrom
  collect_window_matches-IsWindow instrs start_pattern end_pattern =
      All-map (WindowFrom start_pattern end_pattern 0 instrs)
        (λ r. IsWindow start_pattern end_pattern instrs r.range_start_index r.range_end_index) _
        (λ r h. from_zero instrs start_pattern end_pattern r h)
        (collect-WindowFrom start_pattern end_pattern 0 instrs)

  -- For every instruction that the start pattern matches, with one at or behind it that the end
  -- pattern matches, `CollectWindowMatches` returns a window that starts there.
  pub collect_window_matches_complete :
      (instrs : List Instruction) (start_pattern end_pattern : InstructionPattern) (i j : ℕ)
      → MatchAt components format layouts context start_pattern instrs i
      → MatchAt components format layouts context end_pattern instrs j
      → i ≤ j
      → Has
          (λ r. r.range_start_index ≡ i)
          (collect_window_matches components format layouts context 0 instrs start_pattern
            end_pattern)
  unfolding StartsAt
  collect_window_matches_complete instrs start_pattern end_pattern i j starting ending forward =
      let e : 0 + i ≡ i = omega arith in
      subst
        (λ k.
          Has (λ r. r.range_start_index ≡ k)
            (collect_window_matches components format layouts context 0 instrs start_pattern
              end_pattern))
        e (collect_complete start_pattern end_pattern 0 instrs i j starting ending forward)
