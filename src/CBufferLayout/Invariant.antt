-- ===== src/CBufferLayout/Invariant.antt =====
-- What holds of the fields placed so far and of the cursor behind them, and that a round keeps it.
use direct_xshader_patcher.Base.{
  ℕ, zero, suc, ◌+◌, ◌-◌, ◌*◌, ◌%◌, ◌^◌, ◌≤◌, ◌<◌, ◌≡◌, ap, sym, ◌∙◌, ◌⊎◌, inl, inr, String, List,
  [], ◌∷◌, ◌++◌, none, some, true, length, get_elem?, eq_iff, ok, arith, All, All-append, subst,
}
use direct_xshader_patcher.CBufferLayout.{
  DoubleConstants, CBufferFieldData, CBufferField, is_packable, find_field, build_field,
}
use direct_xshader_patcher.CBufferLayout.Packing.{
  Honours, LowOffset, place-lt, place-IsPlaced, build_field-Checked,
}

module _ {Double : Type 0} where
  -- A field by itself obeys the packing rules.
  pub record FieldFits (f : CBufferField Double) : Type 0 where
    pub wide : 1 ≤ f.width
    pub narrow : f.width ≤ 4
    pub aligned : f.offset % 4 ≡ 0
    pub in_row : f.offset % 16 + f.width * 4 ≤ 16
    pub packable : is_packable f.type ≡ true
    pub defaults : (f.default_value ≡ []) ⊎ (length f.default_value ≡ f.width)

  -- The fields stand one behind another between two offsets, with no overlap.
  abbrev pub Ascending : ℕ → List (CBufferField Double) → ℕ → Type 0
  Ascending lo [] hi = lo ≤ hi
  Ascending lo (f ∷ fs) hi = (lo ≤ f.offset) × Ascending (f.offset + f.width * 4) fs hi

  pub Ascending-snoc :
      (lo : ℕ) (fs : List (CBufferField Double)) (hi : ℕ) (f : CBufferField Double)
      → Ascending lo fs hi
      → hi ≤ f.offset
      → Ascending lo (fs ++ f ∷ []) (f.offset + f.width * 4)
  Ascending-snoc lo [] hi f h b = (omega arith, omega arith)
  Ascending-snoc lo (g ∷ fs) hi f h b = (h.0, Ascending-snoc (g.offset + g.width * 4) fs hi f h.1 b)

  -- `FindField` finds each field under its name, so that the names are distinct.
  abbrev pub Findable : List (CBufferField Double) → Type 0
  Findable fs =
      (i : ℕ) (f : CBufferField Double) → get_elem? fs i ≡ some f → find_field f.name fs ≡ some f

  find_field-snoc :
      (name : String) (fs : List (CBufferField Double)) (g : CBufferField Double)
      {f : CBufferField Double}
      → find_field name fs ≡ some f
      → find_field name (fs ++ g ∷ []) ≡ some f
  unfolding find_field
  find_field-snoc name [] g e = cc
  find_field-snoc name (x ∷ fs) g {f} e = ground (arith, find_field-snoc name fs g {f = f})

  find_field-last :
      (name : String) (fs : List (CBufferField Double)) (g : CBufferField Double)
      → find_field name fs ≡ none
      → g.name ≡ name
      → find_field name (fs ++ g ∷ []) ≡ some g
  unfolding find_field
  find_field-last name [] g e h = ground (arith, eq_iff g.name name)
  find_field-last name (x ∷ fs) g e h = ground (arith, find_field-last name fs g)

  get_elem?-snoc :
      (fs : List (CBufferField Double)) (g : CBufferField Double) (i : ℕ) {f : CBufferField Double}
      → get_elem? (fs ++ g ∷ []) i ≡ some f
      → (get_elem? fs i ≡ some f) ⊎ (g ≡ f)
  get_elem?-snoc [] g zero e = ground arith
  get_elem?-snoc [] g (suc i) e = cc
  get_elem?-snoc (x ∷ fs) g zero e = inl e
  get_elem?-snoc (x ∷ fs) g (suc i) e = get_elem?-snoc fs g i e

  Findable-snoc :
      (fs : List (CBufferField Double)) (g : CBufferField Double)
      → Findable fs
      → find_field g.name fs ≡ none
      → Findable (fs ++ g ∷ [])
  Findable-snoc fs g h new i f e = elim (get_elem?-snoc fs g i e) [
    | inl old ↦ find_field-snoc f.name fs g (h i f old)
    | inr last ↦
        find_field-last f.name fs g (ap (λ t. find_field t.name fs) (sym last) ∙ new)
          (ap (λ t. t.name) last)
        ∙ ap some last
  ]

  pub record Packed (fields : List (CBufferField Double)) (cursor : ℕ) : Type 0 where
    pub ascending : Ascending 0 fields cursor
    pub fit : All FieldFits fields
    pub found : Findable fields
    pub whole : cursor % 4 ≡ 0

  -- One round keeps the invariant, and moves the cursor by less than two rows.
  pub build_field-Packed :
      (c : DoubleConstants Double) (fields : List (CBufferField Double)) (cursor : ℕ)
      (d : CBufferFieldData Double) {r : CBufferField Double × ℕ}
      → Packed fields cursor
      → cursor < 2 ^ 32 - 32
      → LowOffset d.offset
      → build_field c fields cursor d ≡ ok r
      → Packed (fields ++ r.0 ∷ []) r.1
        × Honours d.offset r.0.offset
        × ((r.1 < 2 ^ 31 + 32) ⊎ (r.1 < cursor + 32))
  build_field-Packed c fields cursor d {r} p small low e =
      let k = build_field-Checked c fields cursor d e in
      let (placed, honoured) =
        place-IsPlaced d.name d.offset cursor (r.0.width * 4) p.whole (omega arith) k.placed
          k.in_row in
      let near = place-lt d.name d.offset cursor (r.0.width * 4) (omega arith) low k.placed in
      let next : r.1 ≡ r.0.offset + r.0.width * 4 = omega (arith, k.next_cursor, k.narrow) in
      let fits : FieldFits r.0 = record {
        wide = ground (arith, k.width);
        narrow = k.narrow;
        aligned = placed.aligned;
        in_row = placed.in_row;
        packable = ap is_packable k.type ∙ k.packable;
        defaults = k.defaults;
      } in
      (
        record {
          ascending =
              subst (Ascending 0 (fields ++ r.0 ∷ [])) (sym next)
                (Ascending-snoc 0 fields cursor r.0 p.ascending placed.behind);
          fit = All-append FieldFits fields (r.0 ∷ []) p.fit (fits, tt);
          found =
              Findable-snoc fields r.0 p.found (ap (λ t. find_field t fields) k.name ∙ k.absent);
          whole = omega (arith, placed.aligned);
        },
        honoured,
        omega (arith, near, k.narrow),
      )
