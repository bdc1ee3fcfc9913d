-- ===== src/Condition/Semantics.antt =====
-- The laws of a condition's value: negation, De Morgan, and the six comparisons.
use Prim.Native.Nat.{Ordering, compare}
use Prim.Native.String.{compare as compare_text}
use direct_xshader_patcher.Base.{
  String, Bool, true, false, not, ◌||◌, Option, none, some, ◌≡◌, refl, arith, str_eq, if◌then◌else◌,
}
use direct_xshader_patcher.Base.Int.{compare_ℤ}
use direct_xshader_patcher.Condition.{
  DoubleOps, Operation, ConditionValue, ConditionNode, ConditionNodes,
}
use direct_xshader_patcher.Condition.Compare.{order_holds, compare_bool, evaluate_comparison}
use direct_xshader_patcher.Condition.Data.{
  Comparisons, ConditionData, ConditionDatas, compile, apply_not, compile_comparisons,
  compile_lists, compile_all,
}
use direct_xshader_patcher.Condition.Evaluate.{evaluate, all_of, any_of}

abbrev pub negated_value : Option Bool → Option Bool
negated_value none = none
negated_value (some b) = some (not b)

module _ {Double : Type 0} where
  -- Each child negated.
  abbrev pub negate_each : ConditionNodes Double → ConditionNodes Double
  negate_each ConditionNodes.nil = ConditionNodes.nil
  negate_each (ConditionNodes.cons c cs) =
      ConditionNodes.cons (ConditionNode.negate_op (ConditionNodes.cons c ConditionNodes.nil))
        (negate_each cs)

module _ {Double : Type 0} (d : DoubleOps Double)
    (resolve : String → Option (ConditionValue Double)) where
  -- The value of a form that may not compile.
  abbrev pub value_of : Option (ConditionNode Double) → Option Bool
  value_of none = none
  value_of (some n) = some (evaluate d resolve n)

  value_of-not :
      (x : Option (ConditionNode Double))
      → value_of (apply_not true x) ≡ negated_value (value_of (apply_not false x))
  unfolding evaluate
  value_of-not none = refl
  value_of-not (some n) = refl

  -- The flag `not` changes no more than the truth value: with it the same forms compile, and the
  -- value of the compiled node is the negation of the one without it.
  pub compile-not :
      (is : String) (c : Comparisons Double) (ands ors : ConditionDatas Double)
      → value_of (compile (ConditionData.condition is c ands ors true))
        ≡ negated_value (value_of (compile (ConditionData.condition is c ands ors false)))
  unfolding compile
  compile-not is c ands ors = value_of-not (
      if not (str_eq is "")
      then some (ConditionNode.truthy_op is)
      else compile_comparisons c (compile_lists ands ors (compile_all ands) (compile_all ors)))

  any_of-negate_each :
      (cs : ConditionNodes Double)
      → (any_of d resolve (negate_each cs) ≡ not (all_of d resolve cs))
        × (all_of d resolve (negate_each cs) ≡ not (any_of d resolve cs))
  unfolding evaluate
  any_of-negate_each ConditionNodes.nil = (refl, refl)
  any_of-negate_each (ConditionNodes.cons c cs) = ground (arith, any_of-negate_each cs)

  -- De Morgan's laws hold of the evaluator: a negated conjunction has the value of the disjunction of
  -- the negated children, and a negated disjunction that of the conjunction.
  pub evaluate-de_morgan :
      (cs : ConditionNodes Double)
      → (evaluate d resolve (
            ConditionNode.negate_op
              (ConditionNodes.cons (ConditionNode.and_op cs) ConditionNodes.nil))
          ≡ evaluate d resolve (ConditionNode.or_op (negate_each cs)))
        × (evaluate d resolve (
              ConditionNode.negate_op
                (ConditionNodes.cons (ConditionNode.or_op cs) ConditionNodes.nil))
            ≡ evaluate d resolve (ConditionNode.and_op (negate_each cs)))
  unfolding evaluate
  evaluate-de_morgan cs = ground (arith, any_of-negate_each cs)

-- Both values are of one alternative, and not of `double`, whose comparisons are a parameter.
abbrev pub is_comparable : {Double : Type 0} → ConditionValue Double → ConditionValue Double → Bool
is_comparable (ConditionValue.text _) (ConditionValue.text _) = true
is_comparable (ConditionValue.boolean _) (ConditionValue.boolean _) = true
is_comparable (ConditionValue.int32 _) (ConditionValue.int32 _) = true
is_comparable (ConditionValue.uint32 _) (ConditionValue.uint32 _) = true
is_comparable (ConditionValue.int64 _) (ConditionValue.int64 _) = true
is_comparable (ConditionValue.uint64 _) (ConditionValue.uint64 _) = true
is_comparable _ _ = false

-- How the six operators relate at one pair of operands.
abbrev pub Complementary : (Operation → Bool) → Type 0
Complementary holds =
    (holds Operation.ne ≡ not (holds Operation.eq))
    × (holds Operation.gte ≡ not (holds Operation.lt))
    × (holds Operation.lte ≡ not (holds Operation.gt))
    × (holds Operation.lte ≡ (holds Operation.lt || holds Operation.eq))
    × (holds Operation.gte ≡ (holds Operation.gt || holds Operation.eq))

order_holds-Complementary : (r : Ordering) → Complementary (λ o. order_holds o r)
order_holds-Complementary Ordering.lt = (refl, refl, refl, refl, refl)
order_holds-Complementary Ordering.eq = (refl, refl, refl, refl, refl)
order_holds-Complementary Ordering.gt = (refl, refl, refl, refl, refl)

module _ {Double : Type 0} (d : DoubleOps Double) where
  -- On two operands of one alternative other than `double`, `ne` is the negation of `eq`, `gte` that
  -- of `lt` and `lte` that of `gt`, and `lte` and `gte` are their strict forms or `eq`.
  pub evaluate_comparison-Complementary :
      (a b : ConditionValue Double)
      → is_comparable a b ≡ true
      → Complementary (λ o. evaluate_comparison d o a b)
  unfolding evaluate_comparison
  evaluate_comparison-Complementary (ConditionValue.text a) (ConditionValue.text b) h =
      order_holds-Complementary (compare_text a b)
  evaluate_comparison-Complementary (ConditionValue.boolean a) (ConditionValue.boolean b) h =
      order_holds-Complementary (compare_bool a b)
  evaluate_comparison-Complementary (ConditionValue.int32 a) (ConditionValue.int32 b) h =
      order_holds-Complementary (compare_ℤ a b)
  evaluate_comparison-Complementary (ConditionValue.uint32 a) (ConditionValue.uint32 b) h =
      order_holds-Complementary (compare a b)
  evaluate_comparison-Complementary (ConditionValue.int64 a) (ConditionValue.int64 b) h =
      order_holds-Complementary (compare_ℤ a b)
  evaluate_comparison-Complementary (ConditionValue.uint64 a) (ConditionValue.uint64 b) h =
      order_holds-Complementary (compare a b)
  evaluate_comparison-Complementary _ _ h = cc
