-- ===== src/CBufferLayout/Layout.antt =====
-- `BuildCBufferLayout` as a whole: every layout that it returns obeys the packing rules and follows
-- the declaration, and a declaration without offsets that passes the tests is laid out.
use direct_xshader_patcher.Base.{
  ℕ, ◌+◌, ◌-◌, ◌*◌, ◌%◌, ◌^◌, ◌≤◌, ◌<◌, ◌≡◌, ◌≢◌, ap, sym, ◌∙◌, ◌⊎◌, String, List, [], ◌∷◌, ◌++◌,
  append_assoc, append-nil, length, if◌then◌else◌, str_eq, ok, map_err-eq-ok, ok_injective, arith,
  All, >>=-eq-ok, subst, ◌==◌,
}
use direct_xshader_patcher.CBufferLayout.{
  DoubleConstants, CBufferFieldData, CBufferField, CBufferLayout, build_field, build_fields,
  finish_layout, build_cbuffer_layout, align_up,
}
use direct_xshader_patcher.CBufferLayout.Packing.{Honours, LowOffset, build_field-Checked}
use direct_xshader_patcher.CBufferLayout.Invariant.{
  FieldFits, Ascending, Findable, Packed, build_field-Packed,
}

module _ {Double : Type 0} where
  -- A field is the one that was declared: name, type, width and explicit offset.
  pub record Declares (d : CBufferFieldData Double) (f : CBufferField Double) : Type 0 where
    pub name : f.name ≡ d.name
    pub type : f.type ≡ d.type
    pub width : f.width ≡ (if d.width == 0 then 1 else d.width)
    pub honoured : Honours d.offset f.offset

  -- The fields are the declared ones, in their order.
  abbrev pub Follows : List (CBufferFieldData Double) → List (CBufferField Double) → Type 0
  Follows [] [] = Unit
  Follows [] (f ∷ fs) = ⊥
  Follows (d ∷ ds) [] = ⊥
  Follows (d ∷ ds) (f ∷ fs) = Declares d f × Follows ds fs

  abbrev pub LowOffsets : List (CBufferFieldData Double) → Type 0
  LowOffsets = All (λ d. LowOffset d.offset)

  -- The loop from a state that obeys the rules; the new fields stand behind the old ones.
  build_fields-Packed :
      (c : DoubleConstants Double) (fields : List (CBufferField Double)) (cursor : ℕ)
      (ds : List (CBufferFieldData Double)) {r : List (CBufferField Double) × ℕ}
      → Packed fields cursor
      → cursor + 32 * length ds < 2 ^ 32 - 32
      → 2 ^ 31 + 32 + 32 * length ds < 2 ^ 32 - 32
      → LowOffsets ds
      → build_fields c fields cursor ds ≡ ok r
      → Packed r.0 r.1
        × (r.1 < 2 ^ 32 - 32)
        × ((new : List (CBufferField Double)) × (r.0 ≡ fields ++ new) × Follows ds new)
  unfolding build_fields
  build_fields-Packed c fields cursor [] p small room low e =
      let same = ok_injective e in
      (
        subst (λ t. Packed t.0 t.1) same p,
        subst (λ t. t.1 < 2 ^ 32 - 32) same (omega arith),
        ([], sym (append-nil fields ∙ ap (λ t. t.0) same), tt),
      )
  build_fields-Packed c fields cursor (d ∷ ds) {r} p small room low e =
      let (one, built, e₁) = >>=-eq-ok (build_field c fields cursor d) _ e in
      let (p₁, honoured, near) = build_field-Packed c fields cursor d p (omega arith) low.0 built in
      let k = build_field-Checked c fields cursor d built in
      let (q, below, (new, joined, follows)) =
        build_fields-Packed c (fields ++ one.0 ∷ []) one.1 ds p₁ (omega (arith, near)) (omega arith)
          low.1 e₁ in
      (
        q,
        below,
        (
          one.0 ∷ new,
          joined ∙ append_assoc fields (one.0 ∷ []) new,
          (record { name = k.name; type = k.type; width = k.width; honoured = honoured }, follows),
        ),
      )

  Ascending-weaken :
      (lo : ℕ) (fs : List (CBufferField Double)) (hi hi' : ℕ)
      → Ascending lo fs hi
      → hi ≤ hi'
      → Ascending lo fs hi'
  Ascending-weaken lo [] hi hi' h b = omega arith
  Ascending-weaken lo (f ∷ fs) hi hi' h b =
      (h.0, Ascending-weaken (f.offset + f.width * 4) fs hi hi' h.1 b)

  -- What a client may rely on: the fields obey the packing rules, stand in order without overlap
  -- inside the buffer, are found by name, and are the declared ones.
  pub record IsLayout (ds : List (CBufferFieldData Double)) (l : CBufferLayout Double)
      : Type 0 where
    pub ascending : Ascending 0 l.fields l.size_in_bytes
    pub fit : All FieldFits l.fields
    pub found : Findable l.fields
    pub follows : Follows ds l.fields

  -- From a cursor with room to the end of the address range, a layout's fields are those that were
  -- built and its size reaches their end: the declared size, or, when none is declared, the least
  -- multiple of 16 that does, at least 16.
  pub finish_layout-size :
      (name : String) (declared : ℕ) (r : List (CBufferField Double) × ℕ) {l : CBufferLayout Double}
      → r.1 < 2 ^ 32 - 32
      → finish_layout name declared r ≡ ok l
      → (l.fields ≡ r.0)
        × (r.1 ≤ l.size_in_bytes)
        × ((declared ≡ 0)
              × (l.size_in_bytes % 16 ≡ 0)
              × (0 < l.size_in_bytes)
              × ((l.size_in_bytes ≡ 16) ⊎ (l.size_in_bytes < r.1 + 16))
            ⊎ (declared ≢ 0) × (l.size_in_bytes ≡ declared))
  unfolding finish_layout align_up
  finish_layout-size name declared r small e = ground arith

  empty-Packed : Packed {Double = Double} [] 0
  empty-Packed = record {
    ascending = omega arith;
    fit = tt;
    found = λ i f e. cc;
    whole = omega arith;
  }

  -- For fewer than 2 ^ 25 fields with explicit offsets below 2 ^ 31, every layout that
  -- `BuildCBufferLayout` returns has the declared fields in their order, each on a component
  -- boundary and inside one 16-byte row, one behind another without overlap and inside the buffer,
  -- each found by `FindField` under its name; explicit offsets are kept, and a default has no value
  -- or one for each component.
  pub build_cbuffer_layout-IsLayout :
      (c : DoubleConstants Double) (handle type_name : String) (declared : ℕ)
      (ds : List (CBufferFieldData Double)) (l : CBufferLayout Double)
      → length ds < 2 ^ 25
      → LowOffsets ds
      → build_cbuffer_layout c handle type_name declared ds ≡ ok l
      → IsLayout ds l
  unfolding build_cbuffer_layout
  build_cbuffer_layout-IsLayout c handle type_name declared ds l few low e =
      let (r, built, finished) = >>=-eq-ok (build_fields c [] 0 ds) _ (map_err-eq-ok _ _ e) in
      let (p, below, (new, joined, follows)) =
        build_fields-Packed c [] 0 ds empty-Packed (omega arith) (omega arith) low built in
      let named = if str_eq type_name "" then handle else type_name in
      let (fields, inside, _) = finish_layout-size named declared r below finished in
      record {
        ascending =
            subst (λ t. Ascending 0 t l.size_in_bytes) (sym fields)
              (Ascending-weaken 0 r.0 r.1 l.size_in_bytes p.ascending inside);
        fit = subst (All FieldFits) (sym fields) p.fit;
        found = subst Findable (sym fields) p.found;
        follows = subst (Follows ds) (sym (fields ∙ joined)) follows;
      }
