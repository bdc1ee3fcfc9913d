-- ===== src/Sm5/Operands/Equal.antt =====
-- `Operand::operator==` and `Operand::Index::operator==` of src/dxp/sm5/Model.cpp.
use direct_xshader_patcher.Base.{
  ℕ, Bool, true, false, ◌&&◌, ◌==◌, Option, none, some, ◌≡◌, refl, arith,
}
use direct_xshader_patcher.Sm5.Operands.{
  representation_number, Operand, operand, IndexEntries, no_entries, entry, OperandFormat,
  OperandHead, RelativeOperand, not_relative, relative_to,
}
use direct_xshader_patcher.Sm5.Operands.Encodable.{located, located_entries, located_relative}

abbrev pub same_value : Option ℕ → Option ℕ → Bool
same_value none none = true
same_value (some a) (some b) = a == b
same_value _ _ = false

abbrev same_head : OperandHead → OperandHead → Bool
same_head a b =
    a.type == b.type
    && (a.component_mode == b.component_mode
        && (a.num_components == b.num_components && a.modifier == b.modifier))

-- The places in the shader are not compared.
unfoldable mutual
  pub same : Operand → Operand → Bool
  same (operand a entries outer) (operand b entries₂ outer₂) =
      same_head a b && (same_entries entries entries₂ && same_relative outer outer₂)

  pub same_entries : IndexEntries → IndexEntries → Bool
  same_entries no_entries no_entries = true
  same_entries no_entries (entry _ _ _ _ _) = false
  same_entries (entry _ _ _ _ _) no_entries = false
  same_entries (entry r lo hi inner entries) (entry r₂ lo₂ hi₂ inner₂ entries₂) =
      (representation_number r == representation_number r₂
        && (same_value lo lo₂ && (same_value hi hi₂ && same_relative inner inner₂)))
      && same_entries entries entries₂

  pub same_relative : RelativeOperand → RelativeOperand → Bool
  same_relative not_relative not_relative = true
  same_relative not_relative (relative_to _) = false
  same_relative (relative_to _) not_relative = false
  same_relative (relative_to a) (relative_to b) = same a b

same-number : (n : ℕ) → (n == n) ≡ true
same-number n = ground arith

same_value_refl : (a : Option ℕ) → same_value a a ≡ true
same_value_refl none = refl
same_value_refl (some a) = same-number a

module _ (format : OperandFormat) where
  mutual
    unfolding same located

    pub same-located : (start : ℕ) (op : Operand) → same (located format start op) op ≡ true
    same-located start (operand head entries outer) =
        rw
          (
            same-number head.type,
            same-number head.component_mode,
            same-number head.num_components,
            same-number head.modifier,
            same_entries-located _ entries,
            same_relative-located start outer,
          )
          refl

    same_entries-located :
        (at : ℕ) (entries : IndexEntries)
        → same_entries (located_entries format at entries) entries ≡ true
    same_entries-located at no_entries = refl
    same_entries-located at (entry r lo hi inner entries) =
        rw
          (
            same-number (representation_number r),
            same_value_refl lo,
            same_value_refl hi,
            same_relative-located _ inner,
            same_entries-located _ entries,
          )
          refl

    same_relative-located :
        (at : ℕ) (outer : RelativeOperand)
        → same_relative (located_relative format at outer) outer ≡ true
    same_relative-located at not_relative = refl
    same_relative-located at (relative_to inner) = same-located at inner
