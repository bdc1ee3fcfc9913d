-- ===== src/Engine/Exports.antt =====
-- The exports of the report: they are moved out of the context after each step that ran, and the
-- context keeps the moved-from values for the next round.
use direct_xshader_patcher.Base.{
  String, List, [], ◌∷◌, true, false, Option, none, some, str_eq, Option-cases, Bool-cases, inl,
  inr, ok, ◌>>=◌, ◌≡◌, refl, sym, subst, ◌∙◌, ap, arith,
}
use direct_xshader_patcher.Base.Map.{lookup, merge, DistinctKeys, lookup-merge_present}
use direct_xshader_patcher.Results.{ResultsVariant}
use direct_xshader_patcher.Engine.Context.{Backend, ExecutionContext, Step, Progress}
use direct_xshader_patcher.Engine.Loop.{run_step, run_steps, record_step, should_run, mark_moved}
use direct_xshader_patcher.Engine.Order.{
  continue_with, continue_with-stopped, continue_with-running,
}
use direct_xshader_patcher.Engine.Induction.{run_step-runs}

abbrev with_moved {ℓ} : {V : Type ℓ} → (V → V) → Option V → Option V
with_moved moved none = none
with_moved moved (some v) = some (moved v)

module _ {ℓ} {V : Type ℓ} (moved : V → V) where
  lookup-mark_moved :
      (k : String) (v : V) (m : List (String × V))
      → lookup k m ≡ some v
      → lookup k (mark_moved moved m) ≡ some (moved v)
  unfolding lookup mark_moved
  lookup-mark_moved k v [] e = cc
  lookup-mark_moved k v ((j, w) ∷ m) e = elim (Bool-cases (str_eq j k)) [
    | inl same ↦ rw same (ap (with_moved moved) (rw same at e))
    | inr differs ↦ rw differs (lookup-mark_moved k v m (rw differs at e))
  ]

  mark_moved-absent :
      (k : String) (m : List (String × V))
      → lookup k m ≡ none
      → lookup k (mark_moved moved m) ≡ none
  unfolding lookup mark_moved
  mark_moved-absent k [] e = refl
  mark_moved-absent k ((j, w) ∷ m) e = ground (arith, mark_moved-absent k m)

  mark_moved-DistinctKeys :
      (m : List (String × V)) → DistinctKeys m → DistinctKeys (mark_moved moved m)
  unfolding mark_moved
  mark_moved-DistinctKeys [] d = tt
  mark_moved-DistinctKeys ((k, v) ∷ m) d =
      (mark_moved-absent k m d.0, mark_moved-DistinctKeys m d.1)

module _ {b : Backend} where
  run_step-records :
      (s : Step b) (p : Progress b) (r : ResultsVariant) (c : ExecutionContext b)
      → should_run s p.context ≡ true
      → s.execute p.context ≡ ok (r, c)
      → run_step s p ≡ ok (record_step s r c p)
  run_step-records s p r c runs done =
      run_step-runs s p runs ∙ ap (λ t. t >>= λ u. ok (record_step s u.0 u.1 p)) done

  record_step-optional :
      (s : Step b) (p : Progress b) (r : ResultsVariant) (c : ExecutionContext b)
      → s.required ≡ false
      → (record_step s r c p).stopped_early_step ≡ none
  unfolding record_step
  record_step-optional s p r c optional = rw optional refl

  continue_with-nothing : (q : Progress b) → continue_with [] q ≡ ok q
  unfolding run_steps
  continue_with-nothing q = elim (Option-cases (q.stopped_early_step)) [
    | inl runs ↦ continue_with-running [] q runs
    | inr (name, stops) ↦ continue_with-stopped [] q name stops
  ]

  -- Two steps that run, of which the first does not stop the loop.
  run_steps-two :
      (s t : Step b) (p : Progress b) (r u : ResultsVariant) (c e : ExecutionContext b)
      → s.required ≡ false
      → should_run s p.context ≡ true
      → s.execute p.context ≡ ok (r, c)
      → should_run t (record_step s r c p).context ≡ true
      → t.execute (record_step s r c p).context ≡ ok (u, e)
      → run_steps (s ∷ t ∷ []) p ≡ ok (record_step t u e (record_step s r c p))
  unfolding run_steps
  run_steps-two s t p r u c e optional runs done runs' done' =
      let q = record_step s r c p in
      ap (λ x. x >>= continue_with (t ∷ [])) (run_step-records s p r c runs done)
      ∙ continue_with-running (t ∷ []) q (record_step-optional s p r c optional)
      ∙ ap (λ x. x >>= continue_with []) (run_step-records t q u e runs' done')
      ∙ continue_with-nothing (record_step t u e q)

  moved_values :
      (s t : Step b) (p : Progress b) (r u : ResultsVariant) (c e : ExecutionContext b)
      (key : String) (v : b.Immediate)
      → DistinctKeys c.immediate_exports
      → lookup key c.immediate_exports ≡ some v
      → e.immediate_exports ≡ (record_step s r c p).context.immediate_exports
      → lookup key ((record_step t u e (record_step s r c p)).immediate_values)
        ≡ some (b.moved_immediate v)
  unfolding record_step
  moved_values s t p r u c e key v distinct found kept =
      subst
        (λ m.
          lookup key (merge m (merge c.immediate_exports p.immediate_values))
          ≡ some (b.moved_immediate v))
        (sym kept)
        (lookup-merge_present key (b.moved_immediate v)
          (mark_moved b.moved_immediate c.immediate_exports)
          (merge c.immediate_exports p.immediate_values)
          (mark_moved-DistinctKeys b.moved_immediate c.immediate_exports distinct)
          (lookup-mark_moved b.moved_immediate key v c.immediate_exports found))

  -- An immediate value that a step exports does not survive in the report when another step runs
  -- behind it and leaves the exports of the context alone: the run ends with the moved-from value
  -- under its key. The first step is not required, and the context has each key once.
  pub run_steps-moved_export :
      (s t : Step b) (p : Progress b) (r u : ResultsVariant) (c e : ExecutionContext b)
      (key : String) (v : b.Immediate)
      → s.required ≡ false
      → should_run s p.context ≡ true
      → s.execute p.context ≡ ok (r, c)
      → DistinctKeys c.immediate_exports
      → lookup key c.immediate_exports ≡ some v
      → should_run t (record_step s r c p).context ≡ true
      → t.execute (record_step s r c p).context ≡ ok (u, e)
      → e.immediate_exports ≡ (record_step s r c p).context.immediate_exports
      → (q : Progress b) × (run_steps (s ∷ t ∷ []) p ≡ ok q)
        × (lookup key q.immediate_values ≡ some (b.moved_immediate v))
  run_steps-moved_export s t p r u c e key v optional runs done distinct found runs' done' kept = (
    record_step t u e (record_step s r c p),
    run_steps-two s t p r u c e optional runs done runs' done',
    moved_values s t p r u c e key v distinct found kept,
  )
