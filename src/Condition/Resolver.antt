-- ===== src/Condition/Resolver.antt =====
-- `ConditionResolver::Resolve` of src/dxp/Condition_impl.hpp: the maps that a name is looked up in.
use direct_xshader_patcher.Base.{String, List, Option, none, some}
use direct_xshader_patcher.Base.Int.{ℤ}
use direct_xshader_patcher.Base.Map.{lookup}
use direct_xshader_patcher.Condition.{ConditionValue, PrimitiveValue}
use direct_xshader_patcher.Condition.Validate.{split_dot}
use direct_xshader_patcher.Results.{ResultsVariant}
use direct_xshader_patcher.Results.Fields.{get_value}

-- The parts of an execution context that the resolver reads.
pub record Names (Double : Type 0) : Type 0 where
  pub variables : List (String × PrimitiveValue Double)
  pub state : List (String × PrimitiveValue Double)
  pub results : List (String × ResultsVariant)

module _ {Double : Type 0} where
  abbrev pub to_condition_value : PrimitiveValue Double → ConditionValue Double
  to_condition_value (PrimitiveValue.boolean b) = ConditionValue.boolean b
  to_condition_value (PrimitiveValue.int32 n) = ConditionValue.int32 n
  to_condition_value (PrimitiveValue.uint32 n) = ConditionValue.uint32 n
  to_condition_value (PrimitiveValue.int64 n) = ConditionValue.int64 n
  to_condition_value (PrimitiveValue.uint64 n) = ConditionValue.uint64 n
  to_condition_value (PrimitiveValue.double x) = ConditionValue.double x

  abbrev as_value : Option (PrimitiveValue Double) → Option (ConditionValue Double)
  as_value none = none
  as_value (some v) = some (to_condition_value v)

  abbrev as_integer : Option ℤ → Option (ConditionValue Double)
  as_integer none = none
  as_integer (some n) = some (ConditionValue.int64 n)

  -- `step.field`
  unfoldable pub resolve_field :
      List (String × ResultsVariant) → String → String → Option (ConditionValue Double)
  unfolding get_value
  resolve_field results step field = elim (lookup step results) [
    | none ↦ none
    | some r ↦ as_integer (get_value r field)
  ]

  -- A plain name: state first, then the variables.
  unfoldable pub resolve_plain : Names Double → String → Option (ConditionValue Double)
  resolve_plain n name = elim (lookup name n.state) [
    | some v ↦ some (to_condition_value v)
    | none ↦ as_value (lookup name n.variables)
  ]

  unfoldable pub resolve : Names Double → String → Option (ConditionValue Double)
  unfolding split_dot resolve_field resolve_plain
  resolve n name = elim (split_dot name) [
    | some (step, field) ↦ resolve_field n.results step field
    | none ↦ resolve_plain n name
  ]

  abbrev pub IsPrimitive : Option (ConditionValue Double) → Type 0
  IsPrimitive none = Unit
  IsPrimitive (some (ConditionValue.text s)) = ⊥
  IsPrimitive (some _) = Unit

  to_condition_value-IsPrimitive :
      (v : PrimitiveValue Double) → IsPrimitive (some (to_condition_value v))
  to_condition_value-IsPrimitive (PrimitiveValue.boolean b) = tt
  to_condition_value-IsPrimitive _ = tt
