-- ===== src/Engine/Order.antt =====
-- The order of the loop: it goes through the list from the left, and what stands behind a stop or a
-- failure has no effect.
use direct_xshader_patcher.Base.{
  String, List, [], ◌∷◌, ◌++◌, Option, none, some, Result, ok, err, ◌>>=◌, ◌≡◌, refl, sym,
}
use direct_xshader_patcher.Engine.Context.{Backend, Step, Progress}
use direct_xshader_patcher.Engine.Loop.{run_step, run_steps}

module _ {b : Backend} where
  -- What the loop does after a first part of the list, unless that part stopped it.
  abbrev pub continue_with : List (Step b) → Progress b → Result String (Progress b)
  continue_with rest p = elim (p.stopped_early_step) [ some name ↦ ok p | none ↦ run_steps rest p ]

  pub continue_with-stopped :
      (ys : List (Step b)) (q : Progress b) (name : String)
      → q.stopped_early_step ≡ some name
      → continue_with ys q ≡ ok q
  continue_with-stopped ys q name e = rw e refl

  pub continue_with-running :
      (ys : List (Step b)) (q : Progress b)
      → q.stopped_early_step ≡ none
      → continue_with ys q ≡ run_steps ys q
  continue_with-running ys q e = rw e refl

  continue_with-split :
      (xs ys : List (Step b)) (q : Progress b) (o : Option String)
      → q.stopped_early_step ≡ o
      → (q.stopped_early_step ≡ none
          → run_steps (xs ++ ys) q ≡ (run_steps xs q >>= continue_with ys))
      → continue_with (xs ++ ys) q ≡ (continue_with xs q >>= continue_with ys)
  continue_with-split xs ys q none e f =
      rw (continue_with-running (xs ++ ys) q e, continue_with-running xs q e) (f e)
  continue_with-split xs ys q (some name) e f =
      rw (continue_with-stopped (xs ++ ys) q name e, continue_with-stopped xs q name e)
        (sym (continue_with-stopped ys q name e))

  after_step :
      (xs ys : List (Step b)) (r : Result String (Progress b))
      → ((q : Progress b)
          → q.stopped_early_step ≡ none
          → run_steps (xs ++ ys) q ≡ (run_steps xs q >>= continue_with ys))
      → (r >>= continue_with (xs ++ ys)) ≡ ((r >>= continue_with xs) >>= continue_with ys)
  after_step xs ys (ok q) f = continue_with-split xs ys q (q.stopped_early_step) refl (f q)
  after_step xs ys (err e) f = refl

  -- Running a list in two parts, from a state that has not stopped, is running the first part and
  -- then the second, unless the first failed or stopped early: then the second has no effect.
  pub run_steps-append :
      (xs ys : List (Step b)) (p : Progress b)
      → p.stopped_early_step ≡ none
      → run_steps (xs ++ ys) p ≡ (run_steps xs p >>= continue_with ys)
  unfolding run_steps
  run_steps-append [] ys p h = sym (continue_with-running ys p h)
  run_steps-append (s ∷ xs) ys p h =
      after_step xs ys (run_step s p) (λ q e. run_steps-append xs ys q e)
