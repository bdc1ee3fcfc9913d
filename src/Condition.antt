-- ===== src/Condition.antt =====
-- include/dxp/Condition.hpp, src/dxp/Condition_impl.hpp and src/dxp/Condition.cpp: the conditions of
-- recipe steps. A `double` is a parameter with its comparisons; a text's `<` is by its bytes.
pub mod Compare
pub mod Resolver
pub mod Evaluate
pub mod Data
pub mod Validate
pub mod References
pub mod Laws
pub mod Semantics
use Prim.Native.Nat.{Ordering}
use direct_xshader_patcher.Base.{ℕ, String, Bool, true, false, not}
use direct_xshader_patcher.Base.Int.{ℤ}

pub data Operation : Type 0 where
  eq ne gt gte lt lte : Operation

-- The IEEE comparisons of `double`, and `value != 0.0`.
pub record DoubleOps (Double : Type 0) : Type 0 where
  pub holds : Operation → Double → Double → Bool
  pub nonzero : Double → Bool

module _ (Double : Type 0) where
  -- `ConditionValue`; a `PrimitiveValue` is one that is no text.
  pub data ConditionValue : Type 0 where
    text : String → ConditionValue
    boolean : Bool → ConditionValue
    int32 : ℤ → ConditionValue
    uint32 : ℕ → ConditionValue
    int64 : ℤ → ConditionValue
    uint64 : ℕ → ConditionValue
    double : Double → ConditionValue

  pub data PrimitiveValue : Type 0 where
    boolean : Bool → PrimitiveValue
    int32 : ℤ → PrimitiveValue
    uint32 : ℕ → PrimitiveValue
    int64 : ℤ → PrimitiveValue
    uint64 : ℕ → PrimitiveValue
    double : Double → PrimitiveValue

  mutual
    pub data ConditionNode : Type 0 where
      truthy_op : String → ConditionNode
      compare_op : ConditionValue → Operation → ConditionValue → ConditionNode
      and_op : ConditionNodes → ConditionNode
      or_op : ConditionNodes → ConditionNode
      negate_op : ConditionNodes → ConditionNode

    pub data ConditionNodes : Type 0 where
      nil : ConditionNodes
      cons : ConditionNode → ConditionNodes → ConditionNodes
