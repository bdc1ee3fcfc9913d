-- ===== src/Sm5/Operands/Fields.antt =====
-- What `ParseOperand` gets from the fields of the token that `EncodeOperandToken0` puts together.
use direct_xshader_patcher.Base.{
  ℕ, ◌+◌, ◌*◌, ◌/◌, ◌%◌, ◌^◌, ◌≤◌, ◌<◌, min, Bool-cases, true, false, ◌==◌, if◌then◌else◌, bit_or,
  ◌≡◌, refl, inl, inr, arith,
}
use direct_xshader_patcher.Sm5.Operands.{
  operand, IndexEntries, no_entries, entry, OperandFormat, OperandHead, not_relative,
  num_components, type, index_dimension, extended, index_representation, is_immediate, entry_count,
  index_dims, encode_operand_token0, put_representations,
}
use direct_xshader_patcher.Sm5.Operands.Layout.{
  HasLayout, HeadEncodable, AllNarrow, Announced, TokenReads, mode_bits, assembled, or_field,
  announced_only, announced_only-eq, representations, put_representations-eq,
}

module _ (format : OperandFormat) (layout : HasLayout format) where
  representations-lt :
      (entries : IndexEntries)
      → AllNarrow entries
      → entry_count entries ≤ 3
      → representations entries < 2 ^ 9
  unfolding representations
  representations-lt no_entries narrow few = omega arith
  representations-lt (entry r lo hi inner no_entries) narrow few = omega (arith, narrow.0)
  representations-lt (entry r lo hi inner (entry r₂ lo₂ hi₂ inner₂ no_entries)) narrow few =
      omega (arith, narrow.0, narrow.1.0)
  representations-lt
        (entry r lo hi inner (entry r₂ lo₂ hi₂ inner₂ (entry r₃ lo₃ hi₃ inner₃ entries))) narrow
        few =
      let e : representations entries ≡ 0 = no_more entries (omega (arith, few)) in
      omega (arith, narrow.0, narrow.1.0, narrow.1.1.0, e)
    where
      no_more : (es : IndexEntries) → entry_count es ≡ 0 → representations es ≡ 0
      no_more no_entries h = refl
      no_more (entry _ _ _ _ _) h = absurd (omega arith)

  get_representation :
      (dim token0 : ℕ)
      → dim < 3
      → token0 < 2 ^ 32
      → format.get (index_representation dim) token0 ≡ token0 / 2 ^ (22 + 3 * dim) % 2 ^ 2
  get_representation dim token0 here small =
      layout.get_bits (index_representation dim) token0 here small

  representation_fields :
      (token0 : ℕ) (entries : IndexEntries)
      → token0 < 2 ^ 32
      → AllNarrow entries
      → entry_count entries ≤ 3
      → token0 / 2 ^ 22 % 2 ^ 9 ≡ representations entries
      → Announced format token0 0 entries
  unfolding representations
  representation_fields token0 no_entries small narrow few e = tt
  representation_fields token0 (entry r lo hi inner no_entries) small narrow few e =
      (omega (arith, get_representation 0 token0 (omega arith) small, narrow.0, e), tt)
  representation_fields token0 (entry r lo hi inner (entry r₂ lo₂ hi₂ inner₂ no_entries)) small
        narrow few e =
      (
        omega (arith, get_representation 0 token0 (omega arith) small, narrow.0, e),
        (
          omega (arith, get_representation 1 token0 (omega arith) small, narrow.0, narrow.1.0, e),
          tt,
        ),
      )
  representation_fields token0
        (entry r lo hi inner (entry r₂ lo₂ hi₂ inner₂ (entry r₃ lo₃ hi₃ inner₃ no_entries))) small
        narrow few e =
      let n = narrow.0 in
      let n₂ = narrow.1.0 in
      let n₃ = narrow.1.1.0 in
      (
        omega (arith, get_representation 0 token0 (omega arith) small, n, e),
        (
          omega (arith, get_representation 1 token0 (omega arith) small, n, n₂, e),
          (omega (arith, get_representation 2 token0 (omega arith) small, n, n₂, n₃, e), tt),
        ),
      )
  representation_fields token0 (entry _ _ _ _ (entry _ _ _ _ (entry _ _ _ _ (entry _ _ _ _ _))))
        small narrow few e =
      absurd (omega (arith, few))

  -- What the fields of an assembled token read.
  assembled-TokenReads :
      (head : OperandHead) (dims extension token0 : ℕ) (shown : IndexEntries)
      → HeadEncodable head
      → dims < 4
      → AllNarrow shown
      → entry_count shown ≤ 3
      → (if head.modifier == 0 then 0 else 1) ≡ extension
      → token0 ≡ assembled head dims (representations shown) extension
      → extension < 2
      → TokenReads format head dims shown token0
  unfolding representations
  assembled-TokenReads head dims extension token0 shown fits few narrow short e t one =
      let v = representations-lt shown narrow short in
      let low = fits.components_fit in
      let kind = fits.type_fits in
      let mode = mode_bits head.component_mode in
      let kept = fits.mode_fits in
      let small : token0 < 2 ^ 32 = omega (arith, v, low, kind, mode, kept, t, one) in
      record {
        word = small;
        components_read =
            omega (arith, layout.get_bits num_components token0 tt small, t, mode, kept, low);
        mode_read = omega (arith, mode_bits token0, t, mode, kept, low);
        type_read = omega (arith, layout.get_bits type token0 tt small, t, mode, kept, low, kind);
        dims_read =
            omega (
              arith,
              layout.get_bits index_dimension token0 tt small,
              t,
              mode,
              kept,
              low,
              kind,
              few,
            );
        extended_read = omega (
          arith,
          layout.get_bits extended token0 tt small,
          t,
          mode,
          kept,
          low,
          kind,
          few,
          v,
          e,
          one,
        );
        announced =
            representation_fields token0 shown small narrow short
              (omega (arith, t, mode, kept, low, kind, few, v, one));
      }

  -- The last step of the assembly.
  extended-eq :
      (head : OperandHead) (t : ℕ)
      → t < 2 ^ 31
      → (if head.modifier == 0 then t else bit_or t (format.put extended 1))
        ≡ t + (if head.modifier == 0 then 0 else 1) * 2 ^ 31
  extended-eq head t low = elim (Bool-cases (head.modifier == 0)) [
    | inl plain ↦ rw plain (omega arith)
    | inr modified ↦ rw modified (or_field format layout extended t 1 tt low (omega arith))
  ]

  extension-lt : (head : OperandHead) → (if head.modifier == 0 then 0 else 1) < 2
  extension-lt head = elim (Bool-cases (head.modifier == 0)) [
    | inl plain ↦ rw plain (omega arith)
    | inr modified ↦ rw modified (omega arith)
  ]

  announced_only-lt :
      (head : OperandHead) (dims : ℕ)
      → HeadEncodable head
      → dims < 4
      → announced_only format layout head dims < 2 ^ 22
  announced_only-lt head dims fits few = omega (
    arith,
    announced_only-eq format layout head dims fits few,
    fits.components_fit,
    fits.type_fits,
    mode_bits head.component_mode,
    fits.mode_fits,
    few,
  )

  token-TokenReads :
      (head : OperandHead) (dims token0 : ℕ) (shown : IndexEntries)
      → HeadEncodable head
      → dims < 4
      → AllNarrow shown
      → entry_count shown ≤ 3
      → token0 ≡ announced_only format layout head dims + representations shown * 2 ^ 22
      → TokenReads format head dims shown
          (if head.modifier == 0 then token0 else bit_or token0 (format.put extended 1))
  token-TokenReads head dims token0 shown fits few narrow short e =
      let base = announced_only-eq format layout head dims fits few in
      let low = announced_only-lt head dims fits few in
      let v = representations-lt shown narrow short in
      let extension : ℕ = if head.modifier == 0 then 0 else 1 in
      let whole = extended-eq head token0 (omega (arith, e, low, v)) in
      assembled-TokenReads head dims extension _ shown fits few narrow short refl
        (omega (arith, whole, e, base)) (extension-lt head)

  -- An immediate operand announces no dimension, any other one for each of its entries.
  pub immediate-TokenReads :
      (head : OperandHead) (entries : IndexEntries)
      → HeadEncodable head
      → is_immediate head.type ≡ true
      → TokenReads format head 0 no_entries
          (encode_operand_token0 format (operand head entries not_relative))
  unfolding encode_operand_token0 index_dims representations announced_only
  immediate-TokenReads head no_entries fits kind =
      token-TokenReads head 0 (announced_only format layout head 0) no_entries fits (omega arith) tt
        (omega arith) (omega arith)
  immediate-TokenReads head (entry _ _ _ _ _) fits kind = rw kind (
      token-TokenReads head 0 (announced_only format layout head 0) no_entries fits (omega arith) tt
        (omega arith) (omega arith))

  pub register-TokenReads :
      (head : OperandHead) (entries : IndexEntries)
      → HeadEncodable head
      → is_immediate head.type ≡ false
      → AllNarrow entries
      → entry_count entries ≤ 3
      → TokenReads format head
          (entry_count entries)
          entries
          (encode_operand_token0 format (operand head entries not_relative))
  unfolding encode_operand_token0 index_dims representations announced_only
  register-TokenReads head no_entries fits kind narrow short =
      token-TokenReads head 0 (announced_only format layout head 0) no_entries fits (omega arith) tt
        (omega arith) (omega arith)
  register-TokenReads head (entry r lo hi inner entries) fits kind narrow short =
      let shown = entry r lo hi inner entries in
      let dims = entry_count shown in
      let capped : min dims 3 ≡ dims = omega (arith, short) in
      rw (kind, capped)
        (token-TokenReads head dims
          (put_representations format dims 0 shown (announced_only format layout head dims)) shown
          fits (omega (arith, short)) narrow short
          (put_representations-eq format layout shown 0 (announced_only format layout head dims)
            narrow (omega (arith, short))
            (announced_only-lt head dims fits (omega (arith, short)))))
