-- ===== src/Condition/References.antt =====
-- The names that a condition refers to, and that its value depends on nothing else.
use direct_xshader_patcher.Base.{
  String, not, ◌&&◌, ◌||◌, Option, List, [], ◌∷◌, ◌++◌, All, ◌≡◌, refl, ap, ap₂,
}
use direct_xshader_patcher.Condition.{DoubleOps, ConditionValue, ConditionNode, ConditionNodes}
use direct_xshader_patcher.Condition.Evaluate.{
  evaluate, evaluate_truthy, evaluate_compare, resolve_value, all_of, any_of, negate_first,
}

module _ {Double : Type 0} where
  abbrev pub value_references : ConditionValue Double → List String
  value_references (ConditionValue.text s) = s ∷ []
  value_references _ = []

  unfoldable mutual
    pub references : ConditionNode Double → List String
    references (ConditionNode.truthy_op name) = name ∷ []
    references (ConditionNode.compare_op l o r) = value_references l ++ value_references r
    references (ConditionNode.and_op cs) = all_references cs
    references (ConditionNode.or_op cs) = all_references cs
    references (ConditionNode.negate_op cs) = all_references cs

    pub all_references : ConditionNodes Double → List String
    all_references ConditionNodes.nil = []
    all_references (ConditionNodes.cons c cs) = references c ++ all_references cs

All-split {ℓ κ} :
    {A : Type ℓ} (P : A → Type κ) (xs ys : List A) → All P (xs ++ ys) → All P xs × All P ys
All-split P [] ys h = (tt, h)
All-split P (x ∷ xs) ys h = let (a, b) = All-split P xs ys h.1 in ((h.0, a), b)

module _ {Double : Type 0} (d : DoubleOps Double)
    (r r' : String → Option (ConditionValue Double)) where
  abbrev Agrees : List String → Type 0
  Agrees names = All (λ s. r s ≡ r' s) names

  resolve_value-congr :
      (v : ConditionValue Double)
      → Agrees (value_references v)
      → resolve_value r v ≡ resolve_value r' v
  unfolding resolve_value
  resolve_value-congr (ConditionValue.text s) h = h.0
  resolve_value-congr _ h = refl

  mutual
    unfolding evaluate references

    evaluate_congr :
        (n : ConditionNode Double) → Agrees (references n) → evaluate d r n ≡ evaluate d r' n
    evaluate_congr (ConditionNode.truthy_op name) h = ap (evaluate_truthy d) h.0
    evaluate_congr (ConditionNode.compare_op a o b) h =
        let (ha, hb) = All-split (λ s. r s ≡ r' s) (value_references a) (value_references b) h in
        ap₂ (evaluate_compare d o) (resolve_value-congr a ha) (resolve_value-congr b hb)
    evaluate_congr (ConditionNode.and_op cs) h = (children_congr cs h).0
    evaluate_congr (ConditionNode.or_op cs) h = (children_congr cs h).1
    evaluate_congr (ConditionNode.negate_op cs) h = (children_congr cs h).2

    children_congr :
        (cs : ConditionNodes Double)
        → Agrees (all_references cs)
        → (all_of d r cs ≡ all_of d r' cs)
          × (any_of d r cs ≡ any_of d r' cs)
          × (negate_first d r cs ≡ negate_first d r' cs)
    children_congr ConditionNodes.nil h = (refl, refl, refl)
    children_congr (ConditionNodes.cons c cs) h =
        let (hc, hs) = All-split (λ s. r s ≡ r' s) (references c) (all_references cs) h in
        let e = evaluate_congr c hc in
        let es = children_congr cs hs in (ap₂ ◌&&◌ e es.0, ap₂ ◌||◌ e es.1, ap not e)

  -- The value of a condition depends only on what its references resolve to: two resolvers that
  -- agree on those give it the same value.
  pub evaluate-references :
      (n : ConditionNode Double)
      → All (λ s. r s ≡ r' s) (references n)
      → evaluate d r n ≡ evaluate d r' n
  evaluate-references n h = evaluate_congr n h
