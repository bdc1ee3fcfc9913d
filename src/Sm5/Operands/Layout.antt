-- ===== src/Sm5/Operands/Layout.antt =====
-- The bit fields of an operand's first token: what `EncodeOperandToken0` puts there is what
-- `ParseOperand` gets.
use direct_xshader_patcher.Base.{
  ℕ, zero, suc, ◌+◌, ◌*◌, ◌/◌, ◌%◌, ◌^◌, ◌≤◌, ◌<◌, ◌==◌, if◌then◌else◌, bit_and, bit_or, ◌≡◌, ap,
  ap₂, ◌∙◌, arith,
}
use native.Mathlib.Nat.{pow-suc}
use direct_xshader_patcher.Base.Bits.{bit_or_fields, bit_and_step, bit_and_mask}
use direct_xshader_patcher.Sm5.Operands.{
  IndexRepresentation, IndexEntries, no_entries, entry, OperandFormat, OperandHead, Field,
  num_components, type, index_dimension, extended, index_representation, representation_number,
  entry_count, put_representations,
}

-- The lowest bit of a field and its number of bits, as the header documents them.
abbrev pub shift : Field → ℕ
shift num_components = 0
shift type = 12
shift index_dimension = 20
shift (index_representation dim) = 22 + 3 * dim
shift extended = 31

abbrev pub width : Field → ℕ
width num_components = 2
width type = 8
width index_dimension = 2
width (index_representation dim) = 2
width extended = 1

-- A token has room for three dimensions.
abbrev pub InToken : Field → Type 0
InToken (index_representation dim) = dim < 3
InToken _ = Unit

-- The documented layout of the operand tokens.
pub record HasLayout (format : OperandFormat) : Type 0 where
  pub put_bits :
      (f : Field) (v : ℕ) → InToken f → v < 2 ^ width f → format.put f v ≡ v * 2 ^ shift f
  pub get_bits :
      (f : Field) (t : ℕ) → InToken f → t < 2 ^ 32 → format.get f t ≡ t / 2 ^ shift f % 2 ^ width f
  pub modifier_kind : (m : ℕ) → format.extended_type (format.encode_modifier m) ≡ 1
  pub modifier_ends : (m : ℕ) → format.double_extended (format.encode_modifier m) ≡ 0
  pub modifier_kept : (m : ℕ) → m < 2 ^ 8 → format.decode_modifier (format.encode_modifier m) ≡ m
  pub modifier_word : (m : ℕ) → format.encode_modifier m < 2 ^ 32

pub record HeadEncodable (head : OperandHead) : Type 0 where
  pub components_fit : head.num_components < 2 ^ 2
  pub type_fits : head.type < 2 ^ 8
  pub mode_fits : bit_and head.component_mode 0xFFC ≡ head.component_mode
  pub modifier_fits : head.modifier < 2 ^ 8

pub mode_bits : (t : ℕ) → bit_and t 0xFFC ≡ t / 4 % 2 ^ 10 * 4
mode_bits t =
    omega (bit_and_step t 0xFFC, bit_and_step (t / 2) 0x7FE, bit_and_mask 10 (t / 2 / 2), arith)

-- A representation that has its two bits.
abbrev pub Narrow : IndexRepresentation → Type 0
Narrow r = representation_number r < 2 ^ 2

abbrev pub AllNarrow : IndexEntries → Type 0
AllNarrow no_entries = Unit
AllNarrow (entry r lo hi inner entries) = Narrow r × AllNarrow entries

-- The announced representations, one for each dimension.
abbrev pub Announced : OperandFormat → ℕ → ℕ → IndexEntries → Type 0
Announced format token0 dim no_entries = Unit
Announced format token0 dim (entry r lo hi inner entries) =
    (format.get (index_representation dim) token0 ≡ representation_number r)
    × Announced format token0 (suc dim) entries

pub record TokenReads (format : OperandFormat) (head : OperandHead) (dims : ℕ)
    (entries : IndexEntries) (token0 : ℕ) : Type 0 where
  pub word : token0 < 2 ^ 32
  pub components_read : format.get num_components token0 ≡ head.num_components
  pub mode_read : bit_and token0 0xFFC ≡ head.component_mode
  pub type_read : format.get type token0 ≡ head.type
  pub dims_read : format.get index_dimension token0 ≡ dims
  pub extended_read : format.get extended token0 ≡ (if head.modifier == 0 then 0 else 1)
  pub announced : Announced format token0 0 entries

shift_dim : (dim : ℕ) → 2 ^ (22 + 3 * suc dim) ≡ 2 ^ (22 + 3 * dim) * 8
shift_dim dim =
    let e : 22 + 3 * suc dim ≡ suc (suc (suc (22 + 3 * dim))) = omega arith in
    ap (λ n. 2 ^ n) e
    ∙ omega (
      arith,
      pow-suc 2 (suc (suc (22 + 3 * dim))),
      pow-suc 2 (suc (22 + 3 * dim)),
      pow-suc 2 (22 + 3 * dim),
    )

field_room : (r p t : ℕ) → r < 4 → t < p → t + r * p < p * 8
field_room zero p t few low = omega arith
field_room (suc zero) p t few low = omega arith
field_room (suc (suc zero)) p t few low = omega arith
field_room (suc (suc (suc zero))) p t few low = omega arith
field_room (suc (suc (suc (suc r)))) p t few low = absurd (omega arith)

-- The parts of a token in their places.
abbrev pub assembled : OperandHead → ℕ → ℕ → ℕ → ℕ
assembled head dims representations extension =
    head.num_components
    + head.component_mode
    + head.type * 2 ^ 12
    + dims * 2 ^ 20
    + representations * 2 ^ 22
    + extension * 2 ^ 31

-- The token with its representations.
unfoldable pub representations : IndexEntries → ℕ
representations no_entries = 0
representations (entry r lo hi inner entries) =
    representation_number r + 8 * representations entries

module _ (format : OperandFormat) (layout : HasLayout format) where
  pub or_field :
      (f : Field) (t v : ℕ)
      → InToken f
      → t < 2 ^ shift f
      → v < 2 ^ width f
      → bit_or t (format.put f v) ≡ t + v * 2 ^ shift f
  or_field f t v here low fits =
      ap (bit_or t) (layout.put_bits f v here fits) ∙ bit_or_fields (shift f) v t low

  -- The token before the representations.
  unfoldable pub announced_only : OperandHead → ℕ → ℕ
  announced_only head dims =
      let components =
        bit_or (format.put num_components head.num_components)
          (bit_and head.component_mode 0xFFC) in
      bit_or (bit_or components (format.put type head.type)) (format.put index_dimension dims)

  pub announced_only-eq :
      (head : OperandHead) (dims : ℕ)
      → HeadEncodable head
      → dims < 4
      → announced_only head dims ≡ assembled head dims 0 0
  unfolding announced_only
  announced_only-eq head dims fits few =
      let c =
        bit_or (format.put num_components head.num_components)
          (bit_and head.component_mode 0xFFC) in
      let t = bit_or c (format.put type head.type) in
      let mode = mode_bits head.component_mode in
      let first =
        ap₂ bit_or (layout.put_bits num_components head.num_components tt fits.components_fit) mode
        ∙ bit_or_fields 2 (head.component_mode / 4 % 2 ^ 10) (head.num_components * 2 ^ 0)
            (omega (arith, fits.components_fit)) in
      let low : c ≡ head.num_components + head.component_mode =
        omega (arith, first, mode, fits.mode_fits) in
      let bound : c < 2 ^ 12 = omega (arith, low, mode, fits.mode_fits, fits.components_fit) in
      let typed = or_field type c head.type tt bound fits.type_fits in
      let indexed =
        or_field index_dimension t dims tt (omega (arith, typed, bound, fits.type_fits)) few in
      omega (arith, low, typed, indexed)

  pub put_representations-eq :
      (entries : IndexEntries) (dim t : ℕ)
      → AllNarrow entries
      → entry_count entries + dim ≤ 3
      → t < 2 ^ (22 + 3 * dim)
      → put_representations format (entry_count entries) dim entries t
        ≡ t + representations entries * 2 ^ (22 + 3 * dim)
  unfolding representations
  put_representations-eq no_entries dim t narrow few low = omega arith
  put_representations-eq (entry r lo hi inner entries) dim t narrow few low =
      let next = bit_or t (format.put (index_representation dim) (representation_number r)) in
      let here : next ≡ t + representation_number r * 2 ^ (22 + 3 * dim) =
        or_field (index_representation dim) t (representation_number r) (omega (arith, few)) low
          narrow.0 in
      let shifted : 2 ^ (22 + 3 * suc dim) ≡ 2 ^ (22 + 3 * dim) * 8 = shift_dim dim in
      let bound : next < 2 ^ (22 + 3 * suc dim) = omega (
        arith,
        here,
        shifted,
        field_room (representation_number r) (2 ^ (22 + 3 * dim)) t narrow.0 low,
      ) in
      put_representations-eq entries (suc dim) next narrow.1 (omega (arith, few)) bound
      ∙ omega (arith, here, ap (λ p. representations entries * p) shifted)
