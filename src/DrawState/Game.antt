-- ===== src/DrawState/Game.antt =====
-- Any sequence of pushes of the add-on, writes of the game and restores leaves the game's bindings as
-- the game alone would have made them.
use direct_xshader_patcher.Base.{
  List, [], ◌∷◌, ◌++◌, Bool, true, false, not, ◌||◌, Bool-cases, inl, inr, if◌then◌else◌, ◌≡◌, refl,
  sym, ◌∙◌, ap, subst, arith,
}
use direct_xshader_patcher.DrawState.{SlotKey, same_key, Entry, contains, save_once, keep, bind}
use direct_xshader_patcher.DrawState.View.{
  same_key-eq, same_key_refl, game_view, Unique, game_view-congr, bind_same, bind_other,
}

same_key_symm : (a b : SlotKey) → same_key a b ≡ false → same_key b a ≡ false
same_key_symm a b h = elim (Bool-cases (same_key b a)) [
  | inr differs ↦ differs
  | inl same ↦
      absurd (
        clash (sym (subst (λ t. same_key t b ≡ true) (same_key-eq b a same) (same_key_refl b)) ∙ h))
]
  where
    clash : true ≡ false → ⊥
    clash e = cc

or_false : (a b : Bool) → (a || b) ≡ false → (a ≡ false) × (b ≡ false)
or_false a b h = ground (arith, h)

bind_back_again :
    {Object : Type 0} (d : SlotKey → Object) (key k : SlotKey) (x : Object)
    → bind (bind d key x) key (d key) k ≡ d k
bind_back_again d key k x = elim (Bool-cases (same_key key k)) [
  | inl same ↦ bind_same (bind d key x) key k (d key) same ∙ ap d (same_key-eq key k same)
  | inr differs ↦ bind_other (bind d key x) key k (d key) differs ∙ bind_other d key k x differs
]

module _ {Kind Object : Type 0} where
  game_view-snoc :
      (d : SlotKey → Object) (es : List (Entry Kind Object)) (e : Entry Kind Object) (k : SlotKey)
      → game_view d (es ++ e ∷ []) k ≡ game_view (bind d e.key e.object) es k
  unfolding game_view
  game_view-snoc d [] e k = refl
  game_view-snoc d (f ∷ es) e k =
      ap (λ t. if same_key f.key k then f.object else t) (game_view-snoc d es e k)

  game_view-present :
      (d d' : SlotKey → Object) (es : List (Entry Kind Object)) (k : SlotKey)
      → contains k es ≡ true
      → game_view d es k ≡ game_view d' es k
  unfolding game_view contains
  game_view-present d d' [] k h = cc
  game_view-present d d' (e ∷ es) k h = elim (Bool-cases (same_key e.key k)) [
    | inl same ↦ rw same refl
    | inr differs ↦ rw differs (game_view-present d d' es k (rw differs at h))
  ]

  pub save_once-game_view :
      (d : SlotKey → Object) (es : List (Entry Kind Object)) (key k : SlotKey) (type : Kind)
      (x : Object)
      → game_view (bind d key x) (save_once key type (d key) es) k ≡ game_view d es k
  unfolding save_once
  save_once-game_view d es key k type x = elim (Bool-cases (contains key es)) [
    | inl saved ↦ rw saved (elim (Bool-cases (same_key key k)) [
      | inl same ↦
          game_view-present (bind d key x) d es k
            (subst (λ t. contains t es ≡ true) (same_key-eq key k same) saved)
      | inr differs ↦ game_view-congr (bind d key x) d es k (bind_other d key k x differs)
    ])
    | inr first ↦ rw first (
        game_view-snoc (bind d key x) es (record { key = key; type = type; object = d key }) k
        ∙ game_view-congr (bind (bind d key x) key (d key)) d es k (bind_back_again d key k x))
  ]

  contains-snoc :
      (k : SlotKey) (es : List (Entry Kind Object)) (e : Entry Kind Object)
      → contains k es ≡ false
      → same_key e.key k ≡ false
      → contains k (es ++ e ∷ []) ≡ false
  unfolding contains
  contains-snoc k [] e h s = ground (arith, s)
  contains-snoc k (f ∷ es) e h s =
      let (a, b) = or_false (same_key f.key k) (contains k es) h in rw a (contains-snoc k es e b s)

  Unique-snoc :
      (es : List (Entry Kind Object)) (e : Entry Kind Object)
      → Unique es
      → contains e.key es ≡ false
      → Unique (es ++ e ∷ [])
  unfolding contains
  Unique-snoc [] e u h = (refl, tt)
  Unique-snoc (f ∷ es) e u h =
      let (a, b) = or_false (same_key f.key e.key) (contains e.key es) h in
      (contains-snoc f.key es e u.0 (same_key_symm f.key e.key a), Unique-snoc es e u.1 b)

  pub save_once-Unique :
      (key : SlotKey) (type : Kind) (x : Object) (es : List (Entry Kind Object))
      → Unique es
      → Unique (save_once key type x es)
  unfolding save_once
  save_once-Unique key type x es u = elim (Bool-cases (contains key es)) [
    | inl saved ↦ rw saved u
    | inr first ↦ rw first (Unique-snoc es (record { key = key; type = type; object = x }) u first)
  ]

  keep-absent :
      (stays : SlotKey → Bool) (k : SlotKey) (es : List (Entry Kind Object))
      → contains k es ≡ false
      → contains k (keep stays es) ≡ false
  unfolding contains keep
  keep-absent stays k [] h = refl
  keep-absent stays k (e ∷ es) h =
      let (a, b) = or_false (same_key e.key k) (contains k es) h in
      elim (Bool-cases (stays e.key)) [
        | inl kept ↦ rw (kept, a) (keep-absent stays k es b)
        | inr gone ↦ rw gone (keep-absent stays k es b)
      ]

  pub keep-Unique :
      (stays : SlotKey → Bool) (es : List (Entry Kind Object)) → Unique es → Unique (keep stays es)
  unfolding keep
  keep-Unique stays [] u = tt
  keep-Unique stays (e ∷ es) u = elim (Bool-cases (stays e.key)) [
    | inl kept ↦ rw kept (keep-absent stays e.key es u.0, keep-Unique stays es u.1)
    | inr gone ↦ rw gone (keep-Unique stays es u.1)
  ]

  -- What is dropped shows the device, and the rest is seen as before.
  pub keep-game_view :
      (gone : SlotKey → Bool) (d : SlotKey → Object) (es : List (Entry Kind Object)) (k : SlotKey)
      → game_view d (keep (λ key. not (gone key)) es) k ≡ (if gone k then d k else game_view d es k)
  unfolding keep game_view
  keep-game_view gone d [] k = elim (Bool-cases (gone k)) [ inl g ↦ rw g refl | inr g ↦ rw g refl ]
  keep-game_view gone d (e ∷ es) k = elim (Bool-cases (same_key e.key k)) [
    | inl same ↦ elim (Bool-cases (gone k)) [
      | inl g ↦ rw (ap gone (same_key-eq e.key k same), g) (keep-game_view gone d es k ∙ rw g refl)
      | inr g ↦ rw (ap gone (same_key-eq e.key k same), g, same) refl
    ]
    | inr differs ↦ elim (Bool-cases (gone e.key)) [
      | inl g ↦ rw (g, differs) (keep-game_view gone d es k)
      | inr g ↦ rw (g, differs) (keep-game_view gone d es k)
    ]
  ]
