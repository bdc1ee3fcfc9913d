-- ===== src/Engine/Induction.antt =====
-- An invariant of the loop, indexed by the number of steps that it has gone through.
use direct_xshader_patcher.Base.{
  ℕ, ◌+◌, ◌≤◌, List, [], ◌∷◌, true, false, Option, none, some, length, Option-cases, Bool-cases,
  ◌⊎◌, inl, inr, String, ok, ◌>>=◌, >>=-eq-ok, ok_injective, subst, ap, ◌≡◌, refl, sym, ◌∙◌, arith,
}
use direct_xshader_patcher.Condition.{PrimitiveValue}
use direct_xshader_patcher.Results.{ResultsVariant}
use direct_xshader_patcher.Engine.Context.{
  Backend, ExecutionContext, Step, Progress, RecipeReport, Factories,
}
use direct_xshader_patcher.Engine.Loop.{
  run_step, run_steps, skip_step, record_step, should_run, start, finish, with_environment,
  execute_steps, final_context,
}
use direct_xshader_patcher.Engine.Order.{
  continue_with, continue_with-stopped, continue_with-running,
}

stopped_twice : {name : String} → ◌≡◌ {A = Option String} (some name) none → ⊥
stopped_twice e = cc

module _ {b : Backend} where
  -- What one round leads to.
  abbrev pub IsRound : Step b → Progress b → Progress b → Type 0
  IsRound s p q =
      ((should_run s p.context ≡ false) × (q ≡ skip_step p))
      ⊎ ((r : ResultsVariant × ExecutionContext b) × (should_run s p.context ≡ true)
          × (s.execute p.context ≡ ok r)
          × (q ≡ record_step s r.0 r.1 p))

  pub run_step-runs :
      (s : Step b) (p : Progress b)
      → should_run s p.context ≡ true
      → run_step s p ≡ (s.execute p.context >>= λ r. ok (record_step s r.0 r.1 p))
  unfolding run_step
  run_step-runs s p h = rw h refl

  run_step-skips :
      (s : Step b) (p : Progress b)
      → should_run s p.context ≡ false
      → run_step s p ≡ ok (skip_step p)
  unfolding run_step
  run_step-skips s p h = rw h refl

  run_step-IsRound : (s : Step b) (p q : Progress b) → run_step s p ≡ ok q → IsRound s p q
  run_step-IsRound s p q e = elim (Bool-cases (should_run s p.context)) [
    | inl runs ↦
        let (r, done, same) =
          >>=-eq-ok (s.execute p.context) _ (sym (run_step-runs s p runs) ∙ e) in
        inr (r, runs, done, sym (ok_injective same))
    | inr skips ↦ inl (skips, sym (ok_injective (sym (run_step-skips s p skips) ∙ e)))
  ]

  -- A run that ends well has gone through at most all steps, and through all of them if it was not
  -- stopped.
  abbrev pub Reached : (ℕ → Progress b → Type 0) → ℕ → Progress b → Type 0
  Reached P most q = (n : ℕ) × P n q × (n ≤ most) × (q.stopped_early_step ≡ none → n ≡ most)

  pub run_steps-induction :
      (P : ℕ → Progress b → Type 0)
      → ((n : ℕ) (s : Step b) (p q : Progress b) → P n p → IsRound s p q → P (n + 1) q)
      → (xs : List (Step b)) (n : ℕ) (p q : Progress b) → P n p
      → run_steps xs p ≡ ok q
      → Reached P (n + length xs) q
  unfolding run_steps
  run_steps-induction P round [] n p q h e =
      (n, subst (P n) (ok_injective e) h, omega arith, λ _. omega arith)
  run_steps-induction P round (s ∷ xs) n p q h e =
      let (m, stepped, rest) = >>=-eq-ok (run_step s p) (continue_with xs) e in
      let pm = round n s p m h (run_step-IsRound s p m stepped) in
      elim (Option-cases (m.stopped_early_step)) [
        | inl runs ↦
            let (k, pk, le, all) =
              run_steps-induction P round xs (n + 1) m q pm
                (sym (continue_with-running xs m runs) ∙ rest) in
            (k, pk, omega (arith, le), λ u. omega (arith, all u))
        | inr (name, stops) ↦
            let same = ok_injective (sym (continue_with-stopped xs m name stops) ∙ rest) in
            (
              n + 1,
              subst (P (n + 1)) same pm,
              omega arith,
              λ u. absurd (
                  stopped_twice
                    (sym (subst (λ t. t.stopped_early_step ≡ some name) same stops) ∙ u)),
            )
      ]

  finish-progress :
      (f : Factories b) (input : List ℕ) (p : Progress b) {r : RecipeReport b}
      → finish f input p ≡ ok r
      → r.progress ≡ p
  unfolding finish
  finish-progress f input p e =
      let (out, _, e₁) = >>=-eq-ok (f.build_report (final_context p) input) _ e in
      ap (λ t. t.progress) (sym (ok_injective e₁))

  -- A report that `ExecuteSteps` returns belongs to a run of the loop.
  pub execute_steps-eq-ok :
      (f : Factories b) (steps : List (Step b))
      (env options : List (String × PrimitiveValue b.Double)) (input : List ℕ) {r : RecipeReport b}
      → execute_steps f steps env options input ≡ ok r
      → (c : ExecutionContext b) × (f.make_context input ≡ ok c)
        × (run_steps steps (start (with_environment env options c)) ≡ ok r.progress)
        × (finish f input r.progress ≡ ok r)
  unfolding execute_steps
  execute_steps-eq-ok f steps env options input {r} e =
      let (c, made, e₁) = >>=-eq-ok (f.make_context input) _ e in
      let (p, ran, e₂) =
        >>=-eq-ok (run_steps steps (start (with_environment env options c))) _ e₁ in
      let same = finish-progress f input p e₂ in
      (c, made, ran ∙ ap ok (sym same), subst (λ t. finish f input t ≡ ok r) (sym same) e₂)
