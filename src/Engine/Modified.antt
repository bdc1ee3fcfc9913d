-- ===== src/Engine/Modified.antt =====
-- When a run counts as a modification, and why one stopped early.
use direct_xshader_patcher.Base.{
  ℕ, ◌+◌, String, List, [], ◌∷◌, ◌++◌, Bool, false, ◌&&◌, ◌||◌, some, inl, inr, ok, >>=-eq-ok,
  ok_injective, subst, ◌≡◌, refl, sym, ◌∙◌, ap, arith,
}
use direct_xshader_patcher.Condition.{PrimitiveValue}
use direct_xshader_patcher.Results.{ResultsVariant}
use direct_xshader_patcher.Engine.Context.{
  Backend, ExecutionContext, Step, StepReport, Progress, RecipeReport, Factories,
}
use direct_xshader_patcher.Engine.Loop.{
  skip_step, record_step, step_succeeded, start, finish, with_environment, execute_steps,
  final_context, is_mutation,
}
use direct_xshader_patcher.Engine.Induction.{IsRound, run_steps-induction, execute_steps-eq-ok}

module _ {b : Backend} where
  -- Some report is of a rule that emitted a change.
  abbrev pub any_mutation : List (StepReport b) → Bool
  any_mutation [] = false
  any_mutation (s ∷ ss) = is_mutation s.results || any_mutation ss

  any_mutation-snoc :
      (xs : List (StepReport b)) (x : StepReport b)
      → any_mutation (xs ++ x ∷ []) ≡ (any_mutation xs || is_mutation x.results)
  any_mutation-snoc [] x = ground arith
  any_mutation-snoc (y ∷ xs) x = ground (arith, any_mutation-snoc xs x)

  abbrev Flagged : ℕ → Progress b → Type 0
  Flagged n p = p.any_rule_mutated ≡ any_mutation p.steps

  round-Flagged :
      (n : ℕ) (s : Step b) (p q : Progress b) → Flagged n p → IsRound s p q → Flagged (n + 1) q
  unfolding skip_step record_step
  round-Flagged n s p q h (inl (skips, same)) = subst (Flagged (n + 1)) (sym same) h
  round-Flagged n s p q h (inr ((r, c), runs, done, same)) = subst (Flagged (n + 1)) (sym same) (
      ap (λ t. t || is_mutation r) h
      ∙ sym (
          any_mutation-snoc p.steps
            (record { name = s.name; results = r; success = step_succeeded r c })))

  start-Flagged : (c : ExecutionContext b) → Flagged 0 (start c)
  unfolding start
  start-Flagged c = refl

  finish-modified :
      (f : Factories b) (input : List ℕ) (p : Progress b) {r : RecipeReport b}
      → finish f input p ≡ ok r
      → (f.build_report (final_context p) input ≡ ok r.output)
        × (r.modified ≡ (final_context p).program_modified)
  unfolding finish
  finish-modified f input p e =
      let (out, built, e₁) = >>=-eq-ok (f.build_report (final_context p) input) _ e in
      let same = ok_injective e₁ in
      (built ∙ ap (λ t. ok (t.output)) same, ap (λ t. t.modified) (sym same))

  -- A report that `ExecuteSteps` returns says modified exactly when some step report is of a rule
  -- that emitted a change and the backend's flag is set; the output was built from a context whose
  -- flag says the same.
  pub execute_steps-modified :
      (f : Factories b) (steps : List (Step b))
      (env options : List (String × PrimitiveValue b.Double)) (input : List ℕ) (r : RecipeReport b)
      → execute_steps f steps env options input ≡ ok r
      → (r.modified ≡ (any_mutation r.progress.steps && r.progress.context.program_modified))
        × ((c : ExecutionContext b) × (c.program_modified ≡ r.modified)
            × (f.build_report c input ≡ ok r.output))
  execute_steps-modified f steps env options input r e =
      let (c, _, ran, built) = execute_steps-eq-ok f steps env options input e in
      let (n, flagged, _, _) =
        run_steps-induction Flagged round-Flagged steps 0 (start (with_environment env options c))
          r.progress (start-Flagged (with_environment env options c)) ran in
      let (out, same) = finish-modified f input r.progress built in
      (
        same ∙ ap (λ t. t && r.progress.context.program_modified) flagged,
        (final_context r.progress, sym same, out),
      )

  -- The last report is that of a step with this name which did not succeed.
  abbrev pub EndsUnmatched : String → List (StepReport b) → Type 0
  EndsUnmatched name steps =
      (before : List (StepReport b)) × (last : StepReport b) × (steps ≡ before ++ last ∷ [])
      × (last.name ≡ name)
      × (last.success ≡ false)

  abbrev StopsUnmatched : ℕ → Progress b → Type 0
  StopsUnmatched n p =
      (name : String) → p.stopped_early_step ≡ some name → EndsUnmatched name p.steps

  record_step-StopsUnmatched :
      (n : ℕ) (s : Step b) (r : ResultsVariant) (c : ExecutionContext b) (p : Progress b)
      → StopsUnmatched n (record_step s r c p)
  unfolding record_step
  record_step-StopsUnmatched n s r c p name e = (
    p.steps,
    record { name = s.name; results = r; success = step_succeeded r c },
    refl,
    ground arith,
    ground arith,
  )

  round-StopsUnmatched :
      (n : ℕ) (s : Step b) (p q : Progress b)
      → StopsUnmatched n p
      → IsRound s p q
      → StopsUnmatched (n + 1) q
  unfolding skip_step
  round-StopsUnmatched n s p q h (inl (skips, same)) = subst (StopsUnmatched (n + 1)) (sym same) h
  round-StopsUnmatched n s p q h (inr ((r, c), runs, done, same)) =
      subst (StopsUnmatched (n + 1)) (sym same) (record_step-StopsUnmatched (n + 1) s r c p)

  start-StopsUnmatched : (c : ExecutionContext b) → StopsUnmatched 0 (start c)
  unfolding start
  start-StopsUnmatched c name e = cc

  -- When a run stopped early, the last step report is that of the step it names, without success.
  pub execute_steps-stopped :
      (f : Factories b) (steps : List (Step b))
      (env options : List (String × PrimitiveValue b.Double)) (input : List ℕ) (r : RecipeReport b)
      (name : String)
      → execute_steps f steps env options input ≡ ok r
      → r.progress.stopped_early_step ≡ some name
      → EndsUnmatched name r.progress.steps
  execute_steps-stopped f steps env options input r name e stops =
      let (c, _, ran, _) = execute_steps-eq-ok f steps env options input e in
      let (n, ends, _, _) =
        run_steps-induction StopsUnmatched round-StopsUnmatched steps 0
          (start (with_environment env options c)) r.progress
          (start-StopsUnmatched (with_environment env options c)) ran in
      ends name stops
