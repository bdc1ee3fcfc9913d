-- ===== src/Condition/Compare.antt =====
-- `EvaluateComparison` of src/dxp/Condition.cpp.
use Prim.Native.Nat.{compare, Ordering}
use Prim.Native.String.{compare as compare_text}
use direct_xshader_patcher.Base.{Bool, true, false}
use direct_xshader_patcher.Base.Int.{compare_ℤ}
use direct_xshader_patcher.Condition.{Operation, DoubleOps, ConditionValue}

-- The six operators by the order of their operands.
abbrev pub order_holds : Operation → Ordering → Bool
order_holds Operation.eq Ordering.eq = true
order_holds Operation.eq _ = false
order_holds Operation.ne Ordering.eq = false
order_holds Operation.ne _ = true
order_holds Operation.gt Ordering.gt = true
order_holds Operation.gt _ = false
order_holds Operation.gte Ordering.lt = false
order_holds Operation.gte _ = true
order_holds Operation.lt Ordering.lt = true
order_holds Operation.lt _ = false
order_holds Operation.lte Ordering.gt = false
order_holds Operation.lte _ = true

-- On `bool`, false is less than true.
abbrev pub compare_bool : Bool → Bool → Ordering
compare_bool false false = Ordering.eq
compare_bool false true = Ordering.lt
compare_bool true false = Ordering.gt
compare_bool true true = Ordering.eq

module _ {Double : Type 0} where
  -- Operands of different alternatives do not compare.
  unfoldable pub evaluate_comparison :
      DoubleOps Double → Operation → ConditionValue Double → ConditionValue Double → Bool
  evaluate_comparison d o (ConditionValue.text a) (ConditionValue.text b) =
      order_holds o (compare_text a b)
  evaluate_comparison d o (ConditionValue.boolean a) (ConditionValue.boolean b) =
      order_holds o (compare_bool a b)
  evaluate_comparison d o (ConditionValue.int32 a) (ConditionValue.int32 b) =
      order_holds o (compare_ℤ a b)
  evaluate_comparison d o (ConditionValue.uint32 a) (ConditionValue.uint32 b) =
      order_holds o (compare a b)
  evaluate_comparison d o (ConditionValue.int64 a) (ConditionValue.int64 b) =
      order_holds o (compare_ℤ a b)
  evaluate_comparison d o (ConditionValue.uint64 a) (ConditionValue.uint64 b) =
      order_holds o (compare a b)
  evaluate_comparison d o (ConditionValue.double a) (ConditionValue.double b) = d.holds o a b
  evaluate_comparison d o _ _ = false
