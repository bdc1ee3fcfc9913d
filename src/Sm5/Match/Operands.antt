-- ===== src/Sm5/Match/Operands.antt =====
-- `MatchesOperand`, `MatchesOperandIndex` and `MatchesDeclConstraint` of
-- src/dxp/sm5/step/common/Match.cpp, and `PatternComponentMode` of Rule_impl.cpp beside it. What a
-- match captures is passed on, and is dropped with a mismatch.
use direct_xshader_patcher.Base.{
  ℕ, suc, ◌*◌, ◌%◌, ◌^◌, List, [], ◌∷◌, Bool, true, false, not, ◌&&◌, ◌||◌, ◌==◌, is_empty,
  is_absent, String, str_eq, Option, none, some, Result, ok, err, ◌>>◌, require, if◌then◌else◌,
  bit_or,
}
use direct_xshader_patcher.Base.Map.{lookup, insert}
use direct_xshader_patcher.Sm5.Operands.{
  representation_number, Operand, operand, IndexEntries, no_entries, entry, entry_count,
}
use direct_xshader_patcher.Sm5.Operands.Parse.{Index}
use direct_xshader_patcher.Sm5.Operands.Equal.{same, same_value}
use direct_xshader_patcher.Sm5.Roles.{ComponentFormat, mask_mode, swizzle_mode, select_mode}
use direct_xshader_patcher.Sm5.Match.{
  OperandIndexPattern, DeclConstraint, OperandPattern, MatchContext, Mismatch, mismatch,
}
use direct_xshader_patcher.Sm5.Lookup.{
  SignatureDecl, ResourceDeclInfo, CBufferDeclInfo, DeclarationIndex, find_register,
  find_resource_decl,
}
use direct_xshader_patcher.Sm5.Match.Patterns.{index_patterns}

abbrev pub Captured : Type 0
Captured = List (String × Index)

-- Absent, or equal to the value.
abbrev pub allows : Option ℕ → ℕ → Bool
allows none n = true
allows (some m) n = m == n

-- Absent, or equal to the optional value.
abbrev pub allows_option : Option ℕ → Option ℕ → Bool
allows_option none n = true
allows_option (some m) n = same_value (some m) n

abbrev pub all_absent : List (Option ℕ) → Bool
all_absent [] = true
all_absent (t ∷ ts) = is_absent t && all_absent ts

abbrev component_index : ℕ → Option ℕ
component_index c =
    if c == 120
    then some 0
    else if c == 121
    then some 1
    else if c == 122
    then some 2
    else if c == 119
    then some 3
    else none

abbrev mask_of : List ℕ → ℕ → Option ℕ
mask_of [] mask = some mask
mask_of (c ∷ cs) mask = elim (component_index c) [
  | none ↦ none
  | some idx ↦ mask_of cs (bit_or mask (2 ^ idx))
]

-- A text of more than 16 components shifts out of the word, which C++ leaves undefined.
abbrev swizzle_of : List ℕ → ℕ → ℕ → Option ℕ
swizzle_of [] slot swizzle = some swizzle
swizzle_of (c ∷ cs) slot swizzle = elim (component_index c) [
  | none ↦ none
  | some idx ↦ swizzle_of cs (suc slot) (bit_or swizzle (idx * 2 ^ (slot * 2) % 2 ^ 32))
]

abbrev first_component : List ℕ → Option ℕ
first_component [] = none
first_component (c ∷ cs) = component_index c

module _ (format : ComponentFormat) where
  unfoldable pub pattern_component_mode : OperandPattern → Option ℕ
  pattern_component_mode op =
      if not (is_empty op.mask)
      then elim (mask_of op.mask 0) [
        | none ↦ none
        | some mask ↦
            some
              (bit_or (format.encode_mode mask_mode) (format.encode_mask (mask * 2 ^ 4 % 2 ^ 32)))
      ]
      else if not (is_empty op.swizzle)
      then elim (swizzle_of op.swizzle 0 0) [
        | none ↦ none
        | some swizzle ↦ some (bit_or (format.encode_mode swizzle_mode) (swizzle * 2 ^ 4 % 2 ^ 32))
      ]
      else if not (is_empty op.select)
      then elim (first_component op.select) [
        | none ↦ none
        | some idx ↦ some (bit_or (format.encode_mode select_mode) (format.encode_select idx))
      ]
      else none

  abbrev pub index_value_for_capture : Index → Option ℕ
  index_value_for_capture index = elim (index.immediate_lo) [
    | some lo ↦ some lo
    | none ↦ index.immediate_hi
  ]

  -- A value captured in this match comes before one of an earlier step.
  abbrev captured_value : MatchContext → Captured → String → Option ℕ
  captured_value context captured name = elim (lookup name captured) [
    | some index ↦ index_value_for_capture index
    | none ↦ elim (lookup name context.index_values) [
      | some index ↦ index_value_for_capture index
      | none ↦ none
    ]
  ]

  -- Both are there and equal.
  abbrev pub both_equal : Option ℕ → Option ℕ → Bool
  both_equal (some a) (some b) = a == b
  both_equal _ _ = false

  unfoldable pub matches_operand_index :
      MatchContext → Captured → OperandIndexPattern → Index → Bool
  unfolding lookup
  matches_operand_index context captured pattern index =
      pattern.any
      || (representation_number index.representation == representation_number pattern.representation
          && (allows_option pattern.immediate_lo index.immediate_lo
              && (allows_option pattern.immediate_hi index.immediate_hi
                  && (str_eq pattern.match_capture ""
                      || both_equal (captured_value context captured pattern.match_capture)
                          (index_value_for_capture index)))))

  abbrev pub capture_index : OperandIndexPattern → Index → Captured → Captured
  capture_index pattern index captured =
      if str_eq pattern.capture "" then captured else elim (index_value_for_capture index) [
        | none ↦ captured
        | some value ↦ insert pattern.capture index captured
      ]

  -- The slots one by one; there are as many as entries.
  unfoldable pub matches_indices :
      MatchContext → List OperandIndexPattern → IndexEntries → Captured → Result Mismatch Captured
  unfolding matches_operand_index insert
  matches_indices context [] _ captured = ok captured
  matches_indices context (pattern ∷ patterns) no_entries captured = err mismatch
  matches_indices context (pattern ∷ patterns) (entry r lo hi inner entries) captured =
      let index : Index = record {
        representation = r;
        immediate_lo = lo;
        immediate_hi = hi;
        relative_operand = inner;
      } in
      let rest = matches_indices context patterns entries (capture_index pattern index captured) in
      require (matches_operand_index context captured pattern index) mismatch >> rest

  -- No constraint that another kind of declaration has.
  abbrev no_signature : DeclConstraint → Bool
  no_signature c = is_absent c.semantic && is_absent c.interpolation

  abbrev pub types_allowed : List (Option ℕ) → List ℕ → Bool
  types_allowed [] types = true
  types_allowed (t ∷ ts) [] = is_absent t && types_allowed ts []
  types_allowed (t ∷ ts) (n ∷ ns) = allows t n && types_allowed ts ns

  abbrev resource_fits : DeclConstraint → Option ResourceDeclInfo → Bool
  resource_fits c none = false
  resource_fits c (some decl) =
      allows c.dimension decl.dimension
      && (types_allowed c.return_type decl.return_types
          && (allows c.structure_stride decl.structure_stride
              && (is_absent c.mode && (is_absent c.access_pattern && no_signature c))))

  abbrev sampler_fits : DeclConstraint → Option ℕ → Bool
  sampler_fits c none = false
  sampler_fits c (some mode) =
      allows c.mode mode
      && (is_absent c.dimension
          && (is_absent c.structure_stride
              && (is_absent c.access_pattern && (no_signature c && all_absent c.return_type))))

  abbrev cbuffer_fits : DeclConstraint → Option CBufferDeclInfo → Bool
  cbuffer_fits c none = false
  cbuffer_fits c (some decl) =
      allows c.access_pattern decl.access_pattern
      && (is_absent c.dimension
          && (is_absent c.structure_stride
              && (is_absent c.mode && (no_signature c && all_absent c.return_type))))

  abbrev signature_fits : DeclConstraint → Option SignatureDecl → Bool
  signature_fits c none = false
  signature_fits c (some decl) =
      allows_option c.semantic decl.semantic
      && (allows_option c.interpolation decl.interpolation
          && (is_absent c.dimension
              && (is_absent c.structure_stride
                  && (is_absent c.mode
                      && (is_absent c.access_pattern && all_absent c.return_type)))))

  -- The types of `OperandType` that have declarations.
  abbrev declaration_fits : DeclarationIndex → DeclConstraint → ℕ → ℕ → Bool
  declaration_fits index c kind register =
      if kind == 7 || kind == 30
      then resource_fits c (find_resource_decl index kind register)
      else if kind == 6
      then sampler_fits c (find_register register index.samplers)
      else if kind == 8
      then cbuffer_fits c (find_register register index.cbuffers)
      else if kind == 1
      then signature_fits c (find_register register index.inputs)
      else if kind == 2
      then signature_fits c (find_register register index.outputs)
      else false

  unfoldable pub matches_decl_constraint : MatchContext → DeclConstraint → Operand → Bool
  matches_decl_constraint context c (operand head no_entries outer) = false
  matches_decl_constraint context c (operand head (entry _ none _ _ _) outer) = false
  matches_decl_constraint context c (operand head (entry _ (some register) _ _ _) outer) =
      declaration_fits context.declarations c head.type register

  abbrev decl_allowed : MatchContext → Option DeclConstraint → Operand → Bool
  decl_allowed context none op = true
  decl_allowed context (some c) op = matches_decl_constraint context c op

  -- The operand of an earlier step with this name.
  abbrev captured_allowed : MatchContext → String → Operand → Bool
  captured_allowed context name op = str_eq name "" || elim (lookup name context.operands) [
    | none ↦ false
    | some captured ↦ same op captured.operand_data
  ]

  abbrev pub slots_count : List OperandIndexPattern → ℕ
  slots_count [] = 0
  slots_count (p ∷ ps) = suc (slots_count ps)

  -- The tests on an operand but for its slots.
  unfoldable pub operand_allowed : MatchContext → OperandPattern → Operand → Bool
  unfolding pattern_component_mode matches_decl_constraint same
  operand_allowed context pattern (operand head entries outer) =
      allows pattern.type head.type
      && (allows pattern.num_components head.num_components
          && (allows (pattern_component_mode pattern) head.component_mode
              && (allows pattern.modifier head.modifier
                  && (decl_allowed context pattern.decl (operand head entries outer)
                      && captured_allowed context pattern.match_capture
                          (operand head entries outer)))))

  unfoldable pub matches_operand :
      MatchContext → OperandPattern → Operand → Captured → Result Mismatch Captured
  unfolding operand_allowed matches_indices index_patterns
  matches_operand context pattern (operand head entries outer) captured =
      let patterns = index_patterns pattern in
      let slots = matches_indices context patterns entries captured in
      if pattern.any
      then ok captured
      else require (operand_allowed context pattern (operand head entries outer)) mismatch
        >> require (slots_count patterns == 0 || slots_count patterns == entry_count entries)
            mismatch
        >> slots
