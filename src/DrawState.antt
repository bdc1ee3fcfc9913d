-- ===== src/DrawState.antt =====
-- tools/reshade_addon/draw_state.hpp: which D3D11 slots hold a binding of the add-on in place of the
-- game's, and the binding of the game that was saved for each. The saved object is a parameter.
pub mod View
pub mod Game
pub mod Session
use direct_xshader_patcher.Base.{
  ℕ, ◌+◌, List, [], ◌∷◌, ◌++◌, Bool, true, false, not, ◌&&◌, ◌||◌, ltb, leb, ◌==◌, bit_and,
  if◌then◌else◌,
}

pub data SwapAction : Type 0 where
  none bind_replacement bind_original : SwapAction

-- `NextSwapAction`, with the new value of `swapped`.
unfoldable pub next_swap_action : Bool → Bool → SwapAction × Bool
next_swap_action true true = (SwapAction.none, true)
next_swap_action false false = (SwapAction.none, false)
next_swap_action true false = (SwapAction.bind_replacement, true)
next_swap_action false true = (SwapAction.bind_original, false)

pub data SlotClass : Type 0 where
  other srv uav sampler : SlotClass

abbrev pub same_class : SlotClass → SlotClass → Bool
same_class other other = true
same_class srv srv = true
same_class uav uav = true
same_class sampler sampler = true
same_class _ _ = false

-- A stage is a bit of the flags `shader_stage`.
pub record SlotKey : Type 0 where
  pub stage : ℕ
  pub slot_class : SlotClass
  pub slot : ℕ

abbrev pub same_key : SlotKey → SlotKey → Bool
same_key a b = a.stage == b.stage && same_class a.slot_class b.slot_class && a.slot == b.slot

-- The slots that a call of the game writes; `end` is a `uint64_t` and does not wrap.
abbrev pub is_written : ℕ → SlotClass → ℕ → ℕ → SlotKey → Bool
is_written stages class first count key = not (
    bit_and key.stage stages == 0
    || not (same_class key.slot_class class)
    || ltb key.slot first
    || leb (first + count) key.slot)

-- A device by what is bound in each slot; the callback `restore` binds the saved object back.
abbrev pub bind : {Object : Type 0} → (SlotKey → Object) → SlotKey → Object → SlotKey → Object
bind device key object k = if same_key key k then object else device k

module _ (Kind Object : Type 0) where
  pub record Entry : Type 0 where
    pub key : SlotKey
    pub type : Kind
    pub object : Object

module _ {Kind Object : Type 0} where
  unfoldable pub contains : SlotKey → List (Entry Kind Object) → Bool
  contains key [] = false
  contains key (e ∷ es) = same_key e.key key || contains key es

  -- `SaveOnce`, with the object that `save` gives.
  unfoldable pub save_once :
      SlotKey → Kind → Object → List (Entry Kind Object) → List (Entry Kind Object)
  unfolding contains
  save_once key type object es =
      if contains key es
      then es
      else es ++ (record { key = key; type = type; object = object }) ∷ []

  -- `std::erase_if` with what stays; the entries that go are given to a callback.
  unfoldable pub keep : (SlotKey → Bool) → List (Entry Kind Object) → List (Entry Kind Object)
  keep stays [] = []
  keep stays (e ∷ es) = if stays e.key then e ∷ keep stays es else keep stays es

  unfoldable pub drop_written :
      ℕ → SlotClass → ℕ → ℕ → List (Entry Kind Object) → List (Entry Kind Object)
  unfolding keep
  drop_written stages class first count es =
      keep (λ k. not (is_written stages class first count k)) es

  -- `Clear`: every entry is released.
  unfoldable pub clear : List (Entry Kind Object) → List (Entry Kind Object)
  clear es = []

  -- The callback `restore` on the entries that go, in order.
  unfoldable pub bind_back :
      (SlotKey → Bool) → (SlotKey → Object) → List (Entry Kind Object) → SlotKey → Object
  bind_back used device [] = device
  bind_back used device (e ∷ es) =
      bind_back used (if used e.key then device else bind device e.key e.object) es

  -- `RestoreUnused`: what stays saved, and the device behind it.
  unfoldable pub restore_unused :
      (SlotKey → Bool)
      → (SlotKey → Object)
      → List (Entry Kind Object)
      → List (Entry Kind Object) × (SlotKey → Object)
  unfolding keep bind_back
  restore_unused used device es = (keep used es, bind_back used device es)

  -- `RestoreAll`
  unfoldable pub restore_all :
      (SlotKey → Object) → List (Entry Kind Object) → List (Entry Kind Object) × (SlotKey → Object)
  unfolding restore_unused
  restore_all device es = restore_unused (λ _. false) device es
