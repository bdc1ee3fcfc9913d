-- ===== src/Engine/Counts.antt =====
-- The counters of the summary against the reports of the steps, and why a run stopped early.
use direct_xshader_patcher.Base.{
  ℕ, ◌+◌, ◌^◌, ◌<◌, ◌≤◌, String, List, [], ◌∷◌, ◌++◌, some, length, length-append, if◌then◌else◌,
  Option-cases, ◌⊎◌, inl, inr, ok, subst, ◌≡◌, refl, sym, arith,
}
use direct_xshader_patcher.Condition.{PrimitiveValue}
use direct_xshader_patcher.Results.{ResultsVariant}
use direct_xshader_patcher.Engine.Context.{
  Backend, ExecutionContext, Step, StepReport, Progress, RecipeReport, Factories,
}
use direct_xshader_patcher.Engine.Loop.{
  skip_step, record_step, step_succeeded, start, with_environment, execute_steps,
}
use direct_xshader_patcher.Engine.Induction.{IsRound, run_steps-induction, execute_steps-eq-ok}

module _ {b : Backend} where
  abbrev pub successes : List (StepReport b) → ℕ
  successes [] = 0
  successes (s ∷ ss) = (if s.success then 1 else 0) + successes ss

  successes-snoc :
      (xs : List (StepReport b)) (x : StepReport b)
      → successes (xs ++ x ∷ []) ≡ successes xs + (if x.success then 1 else 0)
  successes-snoc [] x = omega arith
  successes-snoc (y ∷ xs) x = omega (arith, successes-snoc xs x)

  -- The counters of a run through `n` steps.
  pub record Tallied (n : ℕ) (p : Progress b) : Type 0 where
    pub matched : p.matched_count ≡ successes p.steps
    pub reported : p.matched_count + p.no_match_count ≡ length p.steps
    pub total : length p.steps + p.skipped_count ≡ n

  abbrev TalliedBelow : ℕ → Progress b → Type 0
  TalliedBelow n p = n < 2 ^ 32 → Tallied n p

  skip_step-Tallied :
      (n : ℕ) (p : Progress b) → n + 1 < 2 ^ 32 → Tallied n p → Tallied (n + 1) (skip_step p)
  unfolding skip_step
  skip_step-Tallied n p small t = record {
    matched = t.matched;
    reported = t.reported;
    total = omega (arith, t.total);
  }

  record_step-Tallied :
      (n : ℕ) (s : Step b) (r : ResultsVariant) (c : ExecutionContext b) (p : Progress b)
      → n + 1 < 2 ^ 32
      → Tallied n p
      → Tallied (n + 1) (record_step s r c p)
  unfolding record_step
  record_step-Tallied n s r c p small t =
      let report : StepReport b = record {
        name = s.name;
        results = r;
        success = step_succeeded r c;
      } in
      let counted = successes-snoc p.steps report in
      let longer = length-append p.steps (report ∷ []) in
      let a = t.matched in
      let m = t.reported in
      let z = t.total in
      record {
        matched = ground (arith, counted, a, m, z);
        reported = ground (arith, longer, m, z);
        total = omega (arith, longer, z);
      }

  round-Tallied :
      (n : ℕ) (s : Step b) (p q : Progress b)
      → TalliedBelow n p
      → IsRound s p q
      → TalliedBelow (n + 1) q
  round-Tallied n s p q t (inl (skips, same)) small =
      subst (Tallied (n + 1)) (sym same) (skip_step-Tallied n p small (t (omega (arith, small))))
  round-Tallied n s p q t (inr ((r, c), runs, done, same)) small =
      subst (Tallied (n + 1)) (sym same)
        (record_step-Tallied n s r c p small (t (omega (arith, small))))

  start-Tallied : (c : ExecutionContext b) → Tallied 0 (start c)
  unfolding start
  start-Tallied c = record { matched = refl; reported = refl; total = refl }

  -- With fewer than 2 ^ 32 steps, in every report that `ExecuteSteps` returns the matched count is
  -- the number of step reports with success, and matched and unmatched together are all step
  -- reports; with the skipped steps they are at most the steps of the recipe, and all of them
  -- unless the run stopped early.
  pub execute_steps-counts :
      (f : Factories b) (steps : List (Step b))
      (env options : List (String × PrimitiveValue b.Double)) (input : List ℕ) (r : RecipeReport b)
      → length steps < 2 ^ 32
      → execute_steps f steps env options input ≡ ok r
      → (r.progress.matched_count ≡ successes r.progress.steps)
        × (r.progress.matched_count + r.progress.no_match_count ≡ length r.progress.steps)
        × (length r.progress.steps + r.progress.skipped_count ≤ length steps)
        × ((length r.progress.steps + r.progress.skipped_count ≡ length steps)
            ⊎ ((name : String) × (r.progress.stopped_early_step ≡ some name)))
  execute_steps-counts f steps env options input r few e =
      let (c, _, ran, _) = execute_steps-eq-ok f steps env options input e in
      let (n, tallied, le, all) =
        run_steps-induction TalliedBelow round-Tallied steps 0
          (start (with_environment env options c)) r.progress
          (λ _. start-Tallied (with_environment env options c)) ran in
      let t = tallied (omega (arith, le, few)) in
      (
        t.matched,
        t.reported,
        omega (arith, le, t.total),
        elim (Option-cases (r.progress.stopped_early_step)) [
          | inl u ↦ inl (omega (arith, all u, t.total))
          | inr stopped ↦ inr stopped
        ],
      )
