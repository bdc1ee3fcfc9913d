-- ===== src/CBufferLayout/Packing.antt =====
-- The rules of HLSL packing, and that every layout which `BuildCBufferLayout` returns obeys them.
use direct_xshader_patcher.Base.{
  ℕ, ◌+◌, ◌-◌, ◌*◌, ◌/◌, ◌%◌, ◌^◌, ◌≤◌, ◌<◌, ◌≡◌, refl, ap, sym, ◌∙◌, ◌⊎◌, inl, inr, String, List,
  [], Option, none, some, true, false, not, length, length-replicate, ◌==◌, ==_iff, if◌then◌else◌,
  str_eq, ok, arith, >>-eq-ok, >>=-eq-ok, Bool-cases, ok_injective, subst,
}
use direct_xshader_patcher.CBufferLayout.{
  DoubleConstants, MetaValue, ComponentType, CBufferFieldData, CBufferField, u32_mod, align_up,
  straddles, is_packable, place, find_field, numbers, check_field, default_values, build_field,
}

-- Where a field may stand: on a component boundary, inside one row, behind the cursor.
pub record IsPlaced (bytes cursor offset : ℕ) : Type 0 where
  pub aligned : offset % 4 ≡ 0
  pub in_row : offset % 16 + bytes ≤ 16
  pub behind : cursor ≤ offset

-- An explicit offset is kept as it is written.
abbrev pub Honours : Option ℕ → ℕ → Type 0
Honours none offset = Unit
Honours (some o) offset = offset ≡ o

pub place-IsPlaced :
    (name : String) (o : Option ℕ) (cursor bytes : ℕ) {offset : ℕ}
    → cursor % 4 ≡ 0
    → cursor < 2 ^ 32 - 16
    → place name o cursor bytes ≡ ok offset
    → straddles offset bytes ≡ false
    → IsPlaced bytes cursor offset × Honours o offset
unfolding place align_up
place-IsPlaced name (some o) cursor bytes whole small e fits = ground arith
place-IsPlaced name none cursor bytes whole small e fits = ground arith

-- No explicit offset is in the upper half of the address range.
abbrev pub LowOffset : Option ℕ → Type 0
LowOffset none = Unit
LowOffset (some o) = o < 2 ^ 31

pub place-lt :
    (name : String) (o : Option ℕ) (cursor bytes : ℕ) {offset : ℕ}
    → cursor < 2 ^ 32 - 16
    → LowOffset o
    → place name o cursor bytes ≡ ok offset
    → (offset < 2 ^ 31) ⊎ (offset < cursor + 16)
unfolding place align_up
place-lt name (some o) cursor bytes small low e = ground arith
place-lt name none cursor bytes small low e = ground arith

module _ {Double : Type 0} where
  -- What the checks of one round establish of its field.
  pub record Checked (fields : List (CBufferField Double)) (cursor : ℕ)
      (d : CBufferFieldData Double) (f : CBufferField Double) (next : ℕ) : Type 0 where
    pub name : f.name ≡ d.name
    pub type : f.type ≡ d.type
    pub width : f.width ≡ (if d.width == 0 then 1 else d.width)
    pub named : str_eq d.name "" ≡ false
    pub absent : find_field d.name fields ≡ none
    pub packable : is_packable d.type ≡ true
    pub narrow : f.width ≤ 4
    pub placed : place d.name d.offset cursor (f.width * 4) ≡ ok f.offset
    pub in_row : straddles f.offset (f.width * 4) ≡ false
    pub defaults : (f.default_value ≡ []) ⊎ (length f.default_value ≡ f.width)
    pub next_cursor : next ≡ (f.offset + f.width * 4) % u32_mod

  pub check_field-ok :
      (fields : List (CBufferField Double)) (name : String) (type : ComponentType) (width : ℕ)
      → check_field fields name type width ≡ ok tt
      → (str_eq name "" ≡ false)
        × (find_field name fields ≡ none)
        × (is_packable type ≡ true)
        × (width ≤ 4)
  unfolding check_field
  check_field-ok fields name type width h = ground arith

  -- A default is left out, or has one value for each component.
  default_values-count :
      (c : DoubleConstants Double) (name : String) (width : ℕ) (v : MetaValue Double)
      {values : List Double}
      → default_values c name width v ≡ ok values
      → (values ≡ []) ⊎ (length values ≡ width)
  unfolding default_values
  default_values-count c name width MetaValue.null e = inl (sym (ok_injective e))
  default_values-count c name width (MetaValue.boolean b) e =
      inr (ap length (sym (ok_injective e)) ∙ length-replicate width _)
  default_values-count c name width (MetaValue.number x) e =
      inr (ap length (sym (ok_injective e)) ∙ length-replicate width x)
  default_values-count c name width (MetaValue.array xs) e =
      let (given, _, e₁) = >>=-eq-ok (numbers name xs) _ e in
      let (same, e₂) = >>-eq-ok (length given == width) _ _ e₁ in
      inr (ap length (sym (ok_injective e₂)) ∙ (==_iff _ _).0 same)
  default_values-count c name width (MetaValue.text t) e = cc
  default_values-count c name width (MetaValue.object o) e = cc

  pub build_field-Checked :
      (c : DoubleConstants Double) (fields : List (CBufferField Double)) (cursor : ℕ)
      (d : CBufferFieldData Double) {r : CBufferField Double × ℕ}
      → build_field c fields cursor d ≡ ok r
      → Checked fields cursor d r.0 r.1
  unfolding build_field
  build_field-Checked c fields cursor d e =
      let width = if d.width == 0 then 1 else d.width in
      let (u, checked, e₁) = >>=-eq-ok (check_field fields d.name d.type width) _ e in
      let (offset, placed, e₂) = >>=-eq-ok (place d.name d.offset cursor (width * 4)) _ e₁ in
      let (row, e₃) = >>-eq-ok (not (straddles offset (width * 4))) _ _ e₂ in
      let (values, given, e₄) = >>=-eq-ok (default_values c d.name width d.default_value) _ e₃ in
      let facts = check_field-ok fields d.name d.type width checked in
      subst (λ t. Checked fields cursor d t.0 t.1) (ok_injective e₄)
        (record {
          name = refl;
          type = refl;
          width = refl;
          named = facts.0;
          absent = facts.1;
          packable = facts.2;
          defaults = default_values-count c d.name width d.default_value given;
          narrow = facts.3;
          placed = placed;
          in_row = ground arith;
          next_cursor = refl;
        })

abbrev pub IsLeast : (ℕ → Type 0) → ℕ → Type 0
IsLeast P n = P n × ((m : ℕ) → P m → n ≤ m)

-- Without an offset a field is placed, and at the least offset behind the cursor that is on a
-- component boundary and keeps the field inside one row; the cursor is on a boundary and at least
-- 16 bytes below 2 ^ 32.
pub place_auto-IsLeast :
    (name : String) (cursor width : ℕ)
    → cursor % 4 ≡ 0
    → cursor < 2 ^ 32 - 16
    → width ≤ 4
    → (offset : ℕ) × (place name none cursor (width * 4) ≡ ok offset)
      × IsLeast (IsPlaced (width * 4) cursor) offset
unfolding place align_up
place_auto-IsLeast name cursor width whole small narrow =
    elim (Bool-cases (straddles cursor (width * 4))) [
      | inl crosses ↦ (
        cursor / 16 * 16 + 16,
        rw crosses (ap ok (ground arith)),
        (ground arith, λ other p. ground (arith, p.in_row, p.behind, p.aligned)),
      )
      | inr fits ↦ (cursor, rw fits, (ground arith, λ other p. p.behind))
    ]
