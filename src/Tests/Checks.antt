-- ===== src/Tests/Checks.antt =====
-- Two check steps, the second with a condition on the first.
use direct_xshader_patcher.Base.{ℕ, List, [], ◌∷◌, true, none, some, ok, ◌≡◌, refl}
use direct_xshader_patcher.Base.Int.{pos}
use direct_xshader_patcher.Condition.{ConditionNode}
use direct_xshader_patcher.CheckSteps.{CheckStep, validate_steps, count_asked, Declared, Tally}

abbrev two_steps : List (CheckStep ℕ)
two_steps =
    (record { name = "ops"; has_work = true; condition = none })
    ∷ (record {
      name = "res";
      has_work = true;
      condition = some (ConditionNode.truthy_op "ops.mov");
    })
    ∷ []

two_validated : validate_steps two_steps [] ≡ ok ("res" ∷ "ops" ∷ [])
unfolding validate_steps
two_validated = refl

counted_ops :
    count_asked (("mov", pos 3) ∷ []) ("mov" ∷ "add" ∷ []) [] ≡ ("mov", pos 3) ∷ ("add", pos 0) ∷ []
unfolding count_asked
counted_ops = refl

abbrev empty_tally : Tally
empty_tally = record { textures = 0; samplers = 0; cbuffers = 0; uavs = 0; thread_groups = 0 }

abbrev some_declared : List Declared
some_declared = Declared.texture ∷ Declared.neither ∷ Declared.cbuffer ∷ Declared.texture ∷ []
