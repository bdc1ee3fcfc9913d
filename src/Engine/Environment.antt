-- ===== src/Engine/Environment.antt =====
-- The variables that the steps of a run see first.
use direct_xshader_patcher.Base.{
  String, List, Option, none, some, Option-cases, inl, inr, ◌≡◌, ap, ◌∙◌,
}
use direct_xshader_patcher.Base.Map.{
  lookup, merge, DistinctKeys, lookup-merge_absent, lookup-merge_present,
}
use direct_xshader_patcher.Condition.{PrimitiveValue}
use direct_xshader_patcher.Engine.Context.{Backend, ExecutionContext}
use direct_xshader_patcher.Engine.Loop.{with_environment}

abbrev pub or_else {ℓ} : {V : Type ℓ} → Option V → Option V → Option V
or_else none o = o
or_else (some v) o = some v

lookup-merge {ℓ} :
    {V : Type ℓ} (k : String) (from to : List (String × V))
    → DistinctKeys from
    → lookup k (merge from to) ≡ or_else (lookup k from) (lookup k to)
lookup-merge k from to d = elim (Option-cases (lookup k from)) [
  | inl missing ↦ rw missing (lookup-merge_absent k from to missing)
  | inr (v, found) ↦ rw found (lookup-merge_present k v from to d found)
]

module _ {b : Backend} where
  -- A variable has the value that the options give it, else the one of the recipe's environment,
  -- else the one that the new context came with; both environments have each key once.
  pub with_environment-lookup :
      (env options : List (String × PrimitiveValue b.Double)) (c : ExecutionContext b)
      (name : String)
      → DistinctKeys env
      → DistinctKeys options
      → lookup name ((with_environment env options c).variables)
        ≡ or_else (lookup name options) (or_else (lookup name env) (lookup name c.variables))
  unfolding with_environment
  with_environment-lookup env options c name d e =
      lookup-merge name options (merge env c.variables) e
      ∙ ap (or_else (lookup name options)) (lookup-merge name env c.variables d)
