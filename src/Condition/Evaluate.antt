-- ===== src/Condition/Evaluate.antt =====
-- `EngineEvaluator`, `Evaluate` and `ShouldExecute` of src/dxp/Condition_impl.hpp, over any resolver
-- of names.
use direct_xshader_patcher.Base.{
  String, Bool, true, false, not, ◌&&◌, ◌||◌, Option, none, some, ◌==◌, str_eq,
}
use direct_xshader_patcher.Base.Int.{pos, negsuc}
use direct_xshader_patcher.Condition.{
  DoubleOps, Operation, ConditionValue, ConditionNode, ConditionNodes,
}
use direct_xshader_patcher.Condition.Compare.{evaluate_comparison}

module _ {Double : Type 0} where
  unfoldable pub is_truthy : DoubleOps Double → ConditionValue Double → Bool
  is_truthy d (ConditionValue.text s) = not (str_eq s "")
  is_truthy d (ConditionValue.boolean b) = b
  is_truthy d (ConditionValue.int32 (pos n)) = not (n == 0)
  is_truthy d (ConditionValue.int32 (negsuc n)) = true
  is_truthy d (ConditionValue.uint32 n) = not (n == 0)
  is_truthy d (ConditionValue.int64 (pos n)) = not (n == 0)
  is_truthy d (ConditionValue.int64 (negsuc n)) = true
  is_truthy d (ConditionValue.uint64 n) = not (n == 0)
  is_truthy d (ConditionValue.double x) = d.nonzero x

  -- A text operand names a variable; any other stands for itself.
  unfoldable pub resolve_value :
      (String → Option (ConditionValue Double))
      → ConditionValue Double
      → Option (ConditionValue Double)
  resolve_value resolve (ConditionValue.text name) = resolve name
  resolve_value resolve v = some v

  -- The operator on `TruthyOp`.
  unfoldable pub evaluate_truthy : DoubleOps Double → Option (ConditionValue Double) → Bool
  unfolding is_truthy
  evaluate_truthy d none = false
  evaluate_truthy d (some v) = is_truthy d v

  -- The operator on `CompareOp`, once its operands are resolved.
  unfoldable pub evaluate_compare :
      DoubleOps Double
      → Operation
      → Option (ConditionValue Double)
      → Option (ConditionValue Double)
      → Bool
  unfolding evaluate_comparison
  evaluate_compare d o (some l) (some r) = evaluate_comparison d o l r
  evaluate_compare d o _ _ = false

module _ {Double : Type 0} (d : DoubleOps Double)
    (resolve : String → Option (ConditionValue Double)) where
  unfoldable mutual
    unfolding evaluate_truthy evaluate_compare resolve_value

    pub evaluate : ConditionNode Double → Bool
    evaluate (ConditionNode.truthy_op name) = evaluate_truthy d (resolve name)
    evaluate (ConditionNode.compare_op l o r) =
        evaluate_compare d o (resolve_value resolve l) (resolve_value resolve r)
    evaluate (ConditionNode.and_op cs) = all_of cs
    evaluate (ConditionNode.or_op cs) = any_of cs
    evaluate (ConditionNode.negate_op cs) = negate_first cs

    pub all_of : ConditionNodes Double → Bool
    all_of ConditionNodes.nil = true
    all_of (ConditionNodes.cons c cs) = evaluate c && all_of cs

    pub any_of : ConditionNodes Double → Bool
    any_of ConditionNodes.nil = false
    any_of (ConditionNodes.cons c cs) = evaluate c || any_of cs

    -- Only the first entry of a negation's vector is read.
    pub negate_first : ConditionNodes Double → Bool
    negate_first ConditionNodes.nil = true
    negate_first (ConditionNodes.cons c cs) = not (evaluate c)

  unfoldable pub should_execute : Option (ConditionNode Double) → Bool
  unfolding evaluate
  should_execute none = true
  should_execute (some c) = evaluate c
