-- ===== src/Condition/Validate.antt =====
-- `ValidateConditionNode` and `ValidateCondition` of src/dxp/Condition_impl.hpp.
use Prim.Native.Nat.{◌+◌}
use Prim.Native.String.{len, slice}
use text.Mathlib.Text.{find?}
use direct_xshader_patcher.Base.{
  String, Bool, true, false, not, ◌&&◌, ◌||◌, Option, none, some, str_eq,
}
use direct_xshader_patcher.Condition.{ConditionValue, ConditionNode, ConditionNodes}

-- `find('.')` with the texts before and behind the dot.
unfoldable pub split_dot : String → Option (String × String)
split_dot name = elim (find? name ".") [
  | none ↦ none
  | some dot ↦ some (slice name 0 dot, slice name (dot + 1) (len name))
]

-- A dotted reference names a step that stands earlier; `names` is the membership test of the set.
unfoldable pub known_reference : (String → Bool) → String → Bool
unfolding split_dot
known_reference names name = elim (split_dot name) [ none ↦ true | some (step, field) ↦ names step ]

module _ {Double : Type 0} where
  unfoldable pub known_value : (String → Bool) → ConditionValue Double → Bool
  unfolding known_reference
  known_value names (ConditionValue.text s) = known_reference names s
  known_value names _ = true

  abbrev pub is_none : ConditionNodes Double → Bool
  is_none ConditionNodes.nil = true
  is_none (ConditionNodes.cons _ _) = false

module _ {Double : Type 0} (names : String → Bool) where
  unfoldable mutual
    unfolding known_value

    pub validate_condition_node : ConditionNode Double → Bool
    validate_condition_node (ConditionNode.truthy_op name) =
        not (str_eq name "") && known_reference names name
    validate_condition_node (ConditionNode.compare_op l o r) =
        known_value names l && known_value names r
    validate_condition_node (ConditionNode.and_op cs) = not (is_none cs) && validate_all cs
    validate_condition_node (ConditionNode.or_op cs) = not (is_none cs) && validate_any cs
    validate_condition_node (ConditionNode.negate_op cs) = validate_first cs

    pub validate_all : ConditionNodes Double → Bool
    validate_all ConditionNodes.nil = true
    validate_all (ConditionNodes.cons c cs) = validate_condition_node c && validate_all cs

    pub validate_any : ConditionNodes Double → Bool
    validate_any ConditionNodes.nil = false
    validate_any (ConditionNodes.cons c cs) = validate_condition_node c || validate_any cs

    pub validate_first : ConditionNodes Double → Bool
    validate_first ConditionNodes.nil = false
    validate_first (ConditionNodes.cons c cs) = validate_condition_node c

  unfoldable pub validate_condition : Option (ConditionNode Double) → Bool
  unfolding validate_condition_node
  validate_condition none = true
  validate_condition (some c) = validate_condition_node c
