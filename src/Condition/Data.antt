-- ===== src/Condition/Data.antt =====
-- `ConditionData` and `ConditionData::Compile` of src/dxp/Condition_impl.hpp and
-- src/dxp/Condition.cpp: the form that a recipe writes, and the node that it stands for.
use direct_xshader_patcher.Base.{
  String, Bool, true, false, not, Option, none, some, str_eq, if◌then◌else◌, List, [], ◌∷◌,
}
use direct_xshader_patcher.Condition.{Operation, ConditionValue, ConditionNode, ConditionNodes}

module _ (Double : Type 0) where
  pub record Comparison : Type 0 where
    pub lhs : ConditionValue Double
    pub rhs : ConditionValue Double

  -- The six comparison members.
  pub record Comparisons : Type 0 where
    pub eq : Comparison
    pub ne : Comparison
    pub gt : Comparison
    pub gte : Comparison
    pub lt : Comparison
    pub lte : Comparison

  mutual
    -- The members `is`, the comparisons, `and`, `or` and `not`.
    pub data ConditionData : Type 0 where
      condition : String → Comparisons → ConditionDatas → ConditionDatas → Bool → ConditionData

    pub data ConditionDatas : Type 0 where
      nil : ConditionDatas
      cons : ConditionData → ConditionDatas → ConditionDatas

module _ {Double : Type 0} where
  -- Absent means an empty text.
  unfoldable pub is_empty_value : ConditionValue Double → Bool
  is_empty_value (ConditionValue.text s) = str_eq s ""
  is_empty_value _ = false

  -- One `else if` branch after another: the first comparison whose left side is given.
  unfoldable pub first_comparison :
      List (Operation × Comparison Double)
      → Option (ConditionNode Double)
      → Option (ConditionNode Double)
  unfolding is_empty_value
  first_comparison [] rest = rest
  first_comparison ((o, c) ∷ cs) rest =
      if not (is_empty_value c.lhs)
      then some (ConditionNode.compare_op c.lhs o c.rhs)
      else first_comparison cs rest

  abbrev pub branches : Comparisons Double → List (Operation × Comparison Double)
  branches c =
      (Operation.eq, c.eq)
      ∷ (Operation.ne, c.ne)
      ∷ (Operation.gt, c.gt)
      ∷ (Operation.gte, c.gte)
      ∷ (Operation.lt, c.lt)
      ∷ (Operation.lte, c.lte)
      ∷ []

  -- The branches on the comparisons in their order, with what follows them.
  unfoldable pub compile_comparisons :
      Comparisons Double → Option (ConditionNode Double) → Option (ConditionNode Double)
  unfolding first_comparison
  compile_comparisons c rest = first_comparison (branches c) rest

  -- The tail of the function: `not` wraps the active form.
  abbrev pub apply_not : Bool → Option (ConditionNode Double) → Option (ConditionNode Double)
  apply_not negated none = none
  apply_not true (some n) =
      some (ConditionNode.negate_op (ConditionNodes.cons n ConditionNodes.nil))
  apply_not false (some n) = some n

  abbrev pub prepend :
      Option (ConditionNode Double)
      → Option (ConditionNodes Double)
      → Option (ConditionNodes Double)
  prepend (some n) (some ns) = some (ConditionNodes.cons n ns)
  prepend _ _ = none

  abbrev pub and_of : Option (ConditionNodes Double) → Option (ConditionNode Double)
  and_of none = none
  and_of (some ns) = some (ConditionNode.and_op ns)

  abbrev pub or_of : Option (ConditionNodes Double) → Option (ConditionNode Double)
  or_of none = none
  or_of (some ns) = some (ConditionNode.or_op ns)

  -- The last two branches, given the compiled children; an empty list is no active form.
  abbrev pub compile_lists :
      ConditionDatas Double
      → ConditionDatas Double
      → Option (ConditionNodes Double)
      → Option (ConditionNodes Double)
      → Option (ConditionNode Double)
  compile_lists (ConditionDatas.cons _ _) _ ands ors = and_of ands
  compile_lists ConditionDatas.nil (ConditionDatas.cons _ _) ands ors = or_of ors
  compile_lists ConditionDatas.nil ConditionDatas.nil ands ors = none

  unfoldable mutual
    unfolding compile_comparisons

    pub compile : ConditionData Double → Option (ConditionNode Double)
    compile (ConditionData.condition is c ands ors negated) = apply_not negated (
        if not (str_eq is "")
        then some (ConditionNode.truthy_op is)
        else compile_comparisons c (compile_lists ands ors (compile_all ands) (compile_all ors)))

    -- The children in order; the first that does not compile fails the whole.
    pub compile_all : ConditionDatas Double → Option (ConditionNodes Double)
    compile_all ConditionDatas.nil = some ConditionNodes.nil
    compile_all (ConditionDatas.cons d ds) = prepend (compile d) (compile_all ds)
