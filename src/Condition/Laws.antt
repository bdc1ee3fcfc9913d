-- ===== src/Condition/Laws.antt =====
-- What compiling a condition guarantees, and the laws of its value.
use direct_xshader_patcher.Base.{
  String, Bool, true, false, not, ◌&&◌, ◌||◌, Option, none, some, List, [], ◌∷◌, ◌++◌, ◌≡◌, refl,
  ap, ap₂, sym, ◌∙◌, arith, str_eq, subst, append-nil, Bool-cases, inl, inr, if◌then◌else◌,
}
use direct_xshader_patcher.Condition.{Operation, ConditionValue, ConditionNode, ConditionNodes}
use direct_xshader_patcher.Condition.Data.{
  Comparison, Comparisons, first_comparison, branches, ConditionData, ConditionDatas, compile,
  compile_all, compile_comparisons, apply_not, prepend, and_of, or_of, is_empty_value,
}
use direct_xshader_patcher.Condition.References.{value_references, references, all_references}
use direct_xshader_patcher.Condition.Validate.{
  known_reference, known_value, validate_condition_node, validate_all, validate_any, is_none,
}

abbrev pub all_known : (String → Bool) → List String → Bool
all_known names [] = true
all_known names (s ∷ ss) = known_reference names s && all_known names ss

all_known-append :
    (names : String → Bool) (xs ys : List String)
    → all_known names (xs ++ ys) ≡ all_known names xs && all_known names ys
all_known-append names [] ys = refl
all_known-append names (x ∷ xs) ys = ground (arith, all_known-append names xs ys)

-- Every way of one list with every way of the other.
abbrev with_each : List String → List (List String) → List (List String)
with_each w [] = []
with_each w (v ∷ vs) = (w ++ v) ∷ with_each w vs

abbrev combine : List (List String) → List (List String) → List (List String)
combine [] vs = []
combine (w ∷ ws) vs = with_each w vs ++ combine ws vs

-- The ways to make a condition out of one branch of each of its disjunctions, each as the list of
-- names that it refers to.
module _ {Double : Type 0} where
  unfoldable mutual
    pub ways : ConditionNode Double → List (List String)
    ways (ConditionNode.truthy_op name) = (name ∷ []) ∷ []
    ways (ConditionNode.compare_op l o r) = (value_references l ++ value_references r) ∷ []
    ways (ConditionNode.and_op cs) = ways_of_all cs
    ways (ConditionNode.or_op cs) = ways_of_any cs
    ways (ConditionNode.negate_op cs) = ways_of_all cs

    pub ways_of_all : ConditionNodes Double → List (List String)
    ways_of_all ConditionNodes.nil = [] ∷ []
    ways_of_all (ConditionNodes.cons c cs) = combine (ways c) (ways_of_all cs)

    pub ways_of_any : ConditionNodes Double → List (List String)
    ways_of_any ConditionNodes.nil = []
    ways_of_any (ConditionNodes.cons c cs) = ways c ++ ways_of_any cs

-- Some way refers to known names only.
abbrev pub way_known : (String → Bool) → List (List String) → Bool
way_known names [] = false
way_known names (w ∷ ws) = all_known names w || way_known names ws

way_known-append :
    (names : String → Bool) (vs ws : List (List String))
    → way_known names (vs ++ ws) ≡ (way_known names vs || way_known names ws)
way_known-append names [] ws = refl
way_known-append names (v ∷ vs) ws = ground (arith, way_known-append names vs ws)

way_known-with_each :
    (names : String → Bool) (w : List String) (vs : List (List String))
    → way_known names (with_each w vs) ≡ (all_known names w && way_known names vs)
way_known-with_each names w [] = ground arith
way_known-with_each names w (v ∷ vs) =
    ground (arith, way_known-with_each names w vs, all_known-append names w v)

way_known-combine :
    (names : String → Bool) (ws vs : List (List String))
    → way_known names (combine ws vs) ≡ (way_known names ws && way_known names vs)
way_known-combine names [] vs = refl
way_known-combine names (w ∷ ws) vs = ground (
  arith,
  way_known-combine names ws vs,
  way_known-with_each names w vs,
  way_known-append names (with_each w vs) (combine ws vs),
)

module _ {Double : Type 0} (names : String → Bool) where
  -- Validation of a node asks only for known names: those of one way through it are enough.
  abbrev Accepts : ConditionNode Double → Type 0
  Accepts n =
      (validate_condition_node names n ≡ way_known names (ways n))
      × (all_known names (references n) ≡ true → validate_condition_node names n ≡ true)

  abbrev AcceptsAll : ConditionNodes Double → Type 0
  AcceptsAll ns =
      (validate_all names ns ≡ way_known names (ways_of_all ns))
      × (validate_any names ns ≡ way_known names (ways_of_any ns))
      × (all_known names (all_references ns) ≡ true → validate_all names ns ≡ true)
      × (all_known names (all_references ns) ≡ true
          → is_none ns ≡ false
          → validate_any names ns ≡ true)

  known_value-references :
      (v : ConditionValue Double) → known_value names v ≡ all_known names (value_references v)
  unfolding known_value
  known_value-references (ConditionValue.text s) = ground arith
  known_value-references _ = refl

  Accepts-compare :
      (l r : ConditionValue Double) (o : Operation) → Accepts (ConditionNode.compare_op l o r)
  unfolding validate_condition_node references ways
  Accepts-compare l r o =
      let same =
        ap₂ ◌&&◌ (known_value-references l) (known_value-references r)
        ∙ sym (all_known-append names (value_references l) (value_references r)) in
      (ground (arith, same), λ h. same ∙ h)

  -- A compiled form is accepted, whatever it is.
  abbrev AcceptsIf : Option (ConditionNode Double) → Type 0
  AcceptsIf none = Unit
  AcceptsIf (some n) = Accepts n

  abbrev AcceptsAllIf : Option (ConditionNodes Double) → Type 0
  AcceptsAllIf none = Unit
  AcceptsAllIf (some ns) = AcceptsAll ns

  AcceptsIf-first :
      (cs : List (Operation × Comparison Double)) (rest : Option (ConditionNode Double))
      → AcceptsIf rest
      → AcceptsIf (first_comparison cs rest)
  unfolding first_comparison
  AcceptsIf-first [] rest h = h
  AcceptsIf-first ((o, c) ∷ cs) rest h = elim (Bool-cases (is_empty_value c.lhs)) [
    | inl absent ↦ rw absent (AcceptsIf-first cs rest h)
    | inr given ↦ rw given (Accepts-compare c.lhs c.rhs o)
  ]

  AcceptsIf-comparisons :
      (c : Comparisons Double) (rest : Option (ConditionNode Double))
      → AcceptsIf rest
      → AcceptsIf (compile_comparisons c rest)
  unfolding compile_comparisons
  AcceptsIf-comparisons c rest h = AcceptsIf-first (branches c) rest h

  AcceptsIf-not :
      (negated : Bool) (x : Option (ConditionNode Double))
      → AcceptsIf x
      → AcceptsIf (apply_not negated x)
  unfolding validate_condition_node references ways
  AcceptsIf-not negated none h = tt
  AcceptsIf-not true (some n) h = (
    h.0 ∙ ground (arith, way_known-combine names (ways n) ([] ∷ [])),
    λ k. h.1 (ap (all_known names) (sym (append-nil (references n))) ∙ k),
  )
  AcceptsIf-not false (some n) h = h

  AcceptsAllIf-prepend :
      (x : Option (ConditionNode Double)) (xs : Option (ConditionNodes Double))
      → AcceptsIf x
      → AcceptsAllIf xs
      → AcceptsAllIf (prepend x xs)
  unfolding validate_condition_node references ways
  AcceptsAllIf-prepend none xs p q = tt
  AcceptsAllIf-prepend (some n) none p q = tt
  AcceptsAllIf-prepend (some n) (some ns) (same, enough)
        (all_same, any_same, all_enough, any_enough) =
      let split = all_known-append names (references n) (all_references ns) in
      (
        ap₂ ◌&&◌ same all_same ∙ sym (way_known-combine names (ways n) (ways_of_all ns)),
        ap₂ ◌||◌ same any_same ∙ sym (way_known-append names (ways n) (ways_of_any ns)),
        λ k. ground (arith, split, enough, all_enough),
        λ k full. ground (arith, split, enough),
      )

  AcceptsIf-lists :
      (x : Option (ConditionNode Double)) (xs : Option (ConditionNodes Double))
      → AcceptsAllIf (prepend x xs)
      → AcceptsIf (and_of (prepend x xs)) × AcceptsIf (or_of (prepend x xs))
  unfolding validate_condition_node references ways
  AcceptsIf-lists none xs h = (tt, tt)
  AcceptsIf-lists (some n) none h = (tt, tt)
  AcceptsIf-lists (some n) (some ns) (all_same, any_same, all_enough, any_enough) =
      ((all_same, all_enough), (any_same, λ k. any_enough k refl))

  AcceptsIf-truthy :
      (s : String) (rest : Option (ConditionNode Double))
      → AcceptsIf rest
      → AcceptsIf (if not (str_eq s "") then some (ConditionNode.truthy_op s) else rest)
  unfolding validate_condition_node references ways
  AcceptsIf-truthy s rest h = elim (Bool-cases (str_eq s "")) [
    | inl empty ↦ rw empty h
    | inr full ↦ rw full (rw full (ground arith), λ k. rw full (ground arith))
  ]

  AcceptsIf-form :
      (is : String) (c : Comparisons Double) (lists : Option (ConditionNode Double))
      (negated : Bool)
      → AcceptsIf lists
      → AcceptsIf (
          apply_not negated (
            if not (str_eq is "")
            then some (ConditionNode.truthy_op is)
            else compile_comparisons c lists))
  AcceptsIf-form is c lists negated h =
      let rest = compile_comparisons c lists in
      AcceptsIf-not negated (if not (str_eq is "") then some (ConditionNode.truthy_op is) else rest)
        (AcceptsIf-truthy is rest (AcceptsIf-comparisons c lists h))

  mutual
    unfolding compile validate_condition_node references ways

    compile-AcceptsIf : (d : ConditionData Double) → AcceptsIf (compile d)
    compile-AcceptsIf (ConditionData.condition is c ConditionDatas.nil ConditionDatas.nil negated) =
        AcceptsIf-form is c none negated tt
    compile-AcceptsIf
          (ConditionData.condition is c ConditionDatas.nil (ConditionDatas.cons o os) negated) =
        let children =
          AcceptsAllIf-prepend (compile o) (compile_all os) (compile-AcceptsIf o)
            (compile_all-AcceptsAllIf os) in
        AcceptsIf-form is c (or_of (prepend (compile o) (compile_all os))) negated
          (AcceptsIf-lists (compile o) (compile_all os) children).1
    compile-AcceptsIf (ConditionData.condition is c (ConditionDatas.cons a rest) ors negated) =
        let children =
          AcceptsAllIf-prepend (compile a) (compile_all rest) (compile-AcceptsIf a)
            (compile_all-AcceptsAllIf rest) in
        AcceptsIf-form is c (and_of (prepend (compile a) (compile_all rest))) negated
          (AcceptsIf-lists (compile a) (compile_all rest) children).0

    compile_all-AcceptsAllIf : (ds : ConditionDatas Double) → AcceptsAllIf (compile_all ds)
    compile_all-AcceptsAllIf ConditionDatas.nil = (refl, refl, λ k. refl, λ k full. cc)
    compile_all-AcceptsAllIf (ConditionDatas.cons d ds) =
        AcceptsAllIf-prepend (compile d) (compile_all ds) (compile-AcceptsIf d)
          (compile_all-AcceptsAllIf ds)

  -- Validation accepts a condition that `Compile` produced exactly when, with one branch chosen of
  -- each disjunction in it, all names that it refers to are known; a name without a dot is known, and
  -- one with a dot if its step is.
  pub compile-validates :
      (d : ConditionData Double) (n : ConditionNode Double)
      → compile d ≡ some n
      → validate_condition_node names n ≡ way_known names (ways n)
  compile-validates d n e = (subst (λ t. AcceptsIf t) e (compile-AcceptsIf d)).0

  -- Validation never refuses a condition that `Compile` produced when all names that it refers to
  -- are known.
  pub compile-validates_known :
      (d : ConditionData Double) (n : ConditionNode Double)
      → compile d ≡ some n
      → all_known names (references n) ≡ true
      → validate_condition_node names n ≡ true
  compile-validates_known d n e = (subst (λ t. AcceptsIf t) e (compile-AcceptsIf d)).1

  -- A disjunction passes validation as soon as its first branch does, although the other branches may
  -- refer to steps that are not known.
  pub validate_condition_node-or_unknown :
      (c other : ConditionNode Double)
      → validate_condition_node names c ≡ true
      → all_known names (references other) ≡ false
      → (validate_condition_node names (
            ConditionNode.or_op
              (ConditionNodes.cons c (ConditionNodes.cons other ConditionNodes.nil)))
          ≡ true)
        × (all_known names (
              references (
                ConditionNode.or_op
                  (ConditionNodes.cons c (ConditionNodes.cons other ConditionNodes.nil))))
            ≡ false)
  unfolding validate_condition_node references
  validate_condition_node-or_unknown c other passes unknown = (
    rw passes refl,
    ground (
      arith,
      all_known-append names (references c) (references other ++ []),
      all_known-append names (references other) [],
    ),
  )
