-- ===== src/DrawState/View.antt =====
-- What the game has bound: the saved object of a slot that the add-on has taken, else what the device
-- has in the slot.
use direct_xshader_patcher.Base.{
  List, [], ◌∷◌, Bool, true, false, ◌||◌, Bool-cases, inl, inr, if◌then◌else◌, ◌≡◌, refl, sym, ◌∙◌,
  ap, subst, arith,
}
use direct_xshader_patcher.DrawState.{
  SlotClass, SlotKey, same_class, same_key, Entry, contains, keep, bind, bind_back, restore_unused,
  restore_all,
}

same_class-eq : (a b : SlotClass) → same_class a b ≡ true → a ≡ b
same_class-eq SlotClass.other SlotClass.other h = refl
same_class-eq SlotClass.srv SlotClass.srv h = refl
same_class-eq SlotClass.uav SlotClass.uav h = refl
same_class-eq SlotClass.sampler SlotClass.sampler h = refl
same_class-eq _ _ h = cc

same_class_refl : (a : SlotClass) → same_class a a ≡ true
same_class_refl SlotClass.other = refl
same_class_refl SlotClass.srv = refl
same_class_refl SlotClass.uav = refl
same_class_refl SlotClass.sampler = refl

SlotKey-ext :
    (a b : SlotKey) → a.stage ≡ b.stage → a.slot_class ≡ b.slot_class → a.slot ≡ b.slot → a ≡ b
SlotKey-ext a b p q r = λ i. record { stage = p i; slot_class = q i; slot = r i }

pub same_key-eq : (a b : SlotKey) → same_key a b ≡ true → a ≡ b
same_key-eq a b h =
    SlotKey-ext a b (ground (arith, h))
      (same_class-eq a.slot_class b.slot_class (ground (arith, h))) (ground (arith, h))

pub same_key_refl : (a : SlotKey) → same_key a a ≡ true
same_key_refl a = ground (arith, same_class_refl a.slot_class)

pub bind_same :
    {Object : Type 0} (d : SlotKey → Object) (key k : SlotKey) (x : Object)
    → same_key key k ≡ true
    → bind d key x k ≡ x
bind_same d key k x h = rw h refl

pub bind_other :
    {Object : Type 0} (d : SlotKey → Object) (key k : SlotKey) (x : Object)
    → same_key key k ≡ false
    → bind d key x k ≡ d k
bind_other d key k x h = rw h refl

module _ {Kind Object : Type 0} where
  unfoldable pub game_view : (SlotKey → Object) → List (Entry Kind Object) → SlotKey → Object
  game_view device [] k = device k
  game_view device (e ∷ es) k = if same_key e.key k then e.object else game_view device es k

  -- No slot is saved twice.
  abbrev pub Unique : List (Entry Kind Object) → Type 0
  Unique [] = Unit
  Unique (e ∷ es) = (contains e.key es ≡ false) × Unique es

  game_view-absent :
      (device : SlotKey → Object) (es : List (Entry Kind Object)) (k : SlotKey)
      → contains k es ≡ false
      → game_view device es k ≡ device k
  unfolding game_view contains
  game_view-absent device [] k h = refl
  game_view-absent device (e ∷ es) k h = elim (Bool-cases (same_key e.key k)) [
    | inl same ↦ absurd (wrong (same_key e.key k) (contains k es) same h)
    | inr differs ↦ rw differs (game_view-absent device es k (rw differs at h))
  ]
    where
      wrong : (a b : Bool) → a ≡ true → (a || b) ≡ false → ⊥
      wrong a b p q = ground (arith, p, q)

  pub game_view-congr :
      (d d' : SlotKey → Object) (es : List (Entry Kind Object)) (k : SlotKey)
      → d k ≡ d' k
      → game_view d es k ≡ game_view d' es k
  unfolding game_view
  game_view-congr d d' [] k h = h
  game_view-congr d d' (e ∷ es) k h =
      ap (λ t. if same_key e.key k then e.object else t) (game_view-congr d d' es k h)

  game_view-bind :
      (d : SlotKey → Object) (e : Entry Kind Object) (es : List (Entry Kind Object)) (k : SlotKey)
      → contains e.key es ≡ false
      → game_view (bind d e.key e.object) es k ≡ game_view d (e ∷ es) k
  unfolding game_view
  game_view-bind d e es k h = elim (Bool-cases (same_key e.key k)) [
    | inl same ↦
        let here = same_key-eq e.key k same in
        game_view-absent (bind d e.key e.object) es k (subst (λ t. contains t es ≡ false) here h)
        ∙ bind_same d e.key k e.object same
        ∙ rw same refl
    | inr differs ↦
        game_view-congr (bind d e.key e.object) d es k (bind_other d e.key k e.object differs)
        ∙ rw differs refl
  ]

  restored_view :
      (used : SlotKey → Bool) (d : SlotKey → Object) (es : List (Entry Kind Object)) (k : SlotKey)
      → Unique es
      → game_view (bind_back used d es) (keep used es) k ≡ game_view d es k
  unfolding game_view bind_back keep
  restored_view used d [] k u = refl
  restored_view used d (e ∷ es) k u = elim (Bool-cases (used e.key)) [
    | inl stays ↦
        rw stays
          (ap (λ t. if same_key e.key k then e.object else t) (restored_view used d es k u.1))
    | inr goes ↦
        rw goes (restored_view used (bind d e.key e.object) es k u.1 ∙ game_view-bind d e es k u.0)
  ]

  -- Putting unused slots back does not change what the game has bound, for any choice of used slots,
  -- when no slot is saved twice.
  pub restore_unused-game_view :
      (used : SlotKey → Bool) (device : SlotKey → Object) (es : List (Entry Kind Object))
      (k : SlotKey)
      → Unique es
      → game_view ((restore_unused used device es).1) ((restore_unused used device es).0) k
        ≡ game_view device es k
  unfolding restore_unused
  restore_unused-game_view used device es k u = restored_view used device es k u

  nothing_kept : (es : List (Entry Kind Object)) → keep (λ _. false) es ≡ []
  unfolding keep
  nothing_kept [] = refl
  nothing_kept (e ∷ es) = nothing_kept es

  -- Behind `RestoreAll` nothing is saved, and every slot of the device has what the game has bound,
  -- when no slot was saved twice.
  pub restore_all-device :
      (device : SlotKey → Object) (es : List (Entry Kind Object)) (k : SlotKey)
      → Unique es
      → ((restore_all device es).0 ≡ []) × ((restore_all device es).1 k ≡ game_view device es k)
  unfolding restore_all restore_unused game_view
  restore_all-device device es k u = (
    nothing_kept es,
    ap (λ t. game_view (bind_back (λ _. false) device es) t k) (sym (nothing_kept es))
        ∙ restored_view (λ _. false) device es k u,
  )
