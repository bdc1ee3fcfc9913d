-- ===== src/Tests/Conditions.antt =====
-- Conditions over a resolver of three names.
use direct_xshader_patcher.Base.{
  ℕ, String, Bool, true, false, not, Option, none, some, All, ◌==◌, str_eq, if◌then◌else◌, leb, ltb,
  ◌≡◌, refl,
}
use direct_xshader_patcher.Condition.{
  Operation, DoubleOps, ConditionValue, ConditionNode, ConditionNodes,
}
use direct_xshader_patcher.Condition.Data.{
  Comparison, Comparisons, ConditionData, ConditionDatas, compile,
}
use direct_xshader_patcher.Condition.Evaluate.{evaluate}
use direct_xshader_patcher.Condition.Validate.{validate_condition_node, known_reference}
use direct_xshader_patcher.Condition.References.{references}
use direct_xshader_patcher.Condition.Laws.{all_known, ways, way_known, compile-validates}

-- Whole numbers in place of `double`.
abbrev whole_holds : Operation → ℕ → ℕ → Bool
whole_holds Operation.eq a b = a == b
whole_holds Operation.ne a b = not (a == b)
whole_holds Operation.gt a b = ltb b a
whole_holds Operation.gte a b = leb b a
whole_holds Operation.lt a b = ltb a b
whole_holds Operation.lte a b = leb a b

abbrev pub whole_ops : DoubleOps ℕ
whole_ops = record { holds = whole_holds; nonzero = λ n. not (n == 0) }

abbrev some_names : String → Option (ConditionValue ℕ)
some_names name =
    if str_eq name "match.match_count"
    then some (ConditionValue.uint32 2)
    else if str_eq name "enabled"
    then some (ConditionValue.boolean true)
    else none

-- The same without the name `enabled`.
abbrev fewer_names : String → Option (ConditionValue ℕ)
fewer_names name = if str_eq name "match.match_count" then some (ConditionValue.uint32 2) else none

abbrev absent : Comparison ℕ
absent = record { lhs = ConditionValue.text ""; rhs = ConditionValue.text "" }

abbrev no_comparisons : Comparisons ℕ
no_comparisons = record {
  eq = absent;
  ne = absent;
  gt = absent;
  gte = absent;
  lt = absent;
  lte = absent;
}

-- `gt: {lhs: match.match_count, rhs: 1}`
abbrev counted : ConditionData ℕ
counted =
    ConditionData.condition ""
      (record no_comparisons {
        gt = record {
          lhs = ConditionValue.text "match.match_count";
          rhs = ConditionValue.uint32 1;
        };
      })
      ConditionDatas.nil ConditionDatas.nil false

-- `is: enabled`
abbrev enabled : ConditionData ℕ
enabled =
    ConditionData.condition "enabled" no_comparisons ConditionDatas.nil ConditionDatas.nil false

abbrev counted_node : ConditionNode ℕ
counted_node =
    ConditionNode.compare_op (ConditionValue.text "match.match_count") Operation.gt
      (ConditionValue.uint32 1)

abbrev both_node : ConditionNode ℕ
both_node = ConditionNode.and_op (
    ConditionNodes.cons counted_node
      (ConditionNodes.cons (ConditionNode.truthy_op "enabled") ConditionNodes.nil))

-- The conjunction of both forms.
abbrev both : ConditionData ℕ
both =
    ConditionData.condition "" no_comparisons
      (ConditionDatas.cons counted (ConditionDatas.cons enabled ConditionDatas.nil))
      ConditionDatas.nil false

both_compiles : compile both ≡ some both_node
unfolding compile
both_compiles = refl

both_holds : evaluate whole_ops some_names both_node ≡ true
unfolding evaluate
both_holds = refl

both_fails : evaluate whole_ops fewer_names both_node ≡ false
unfolding evaluate
both_fails = refl

abbrev known_steps : String → Bool
known_steps name = str_eq name "match"

both_validates : validate_condition_node known_steps both_node ≡ true
unfolding validate_condition_node
both_validates = refl

compile-validates_example :
    validate_condition_node known_steps both_node ≡ way_known known_steps (ways both_node)
compile-validates_example = compile-validates known_steps both both_node both_compiles

both_known : all_known known_steps (references both_node) ≡ true
unfolding references known_reference
both_known = refl

-- A condition on a step that does not exist.
abbrev stray : ConditionNode ℕ
stray = ConditionNode.truthy_op "nowhere.match_count"

stray_unknown : all_known known_steps (references stray) ≡ false
unfolding references known_reference
stray_unknown = refl

counted_agrees : All (λ s. some_names s ≡ fewer_names s) (references counted_node)
unfolding references
counted_agrees = (refl, tt)

abbrev children : ConditionNodes ℕ
children =
    ConditionNodes.cons counted_node
      (ConditionNodes.cons (ConditionNode.truthy_op "missing") ConditionNodes.nil)
