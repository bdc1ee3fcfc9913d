-- ===== src/DrawState/Session.antt =====
-- Sequences of what the add-on and the game do to the slots. A push saves what the device has in the
-- slot, by `SaveOnce`, and binds an object of the add-on; a write of the game binds its own objects in
-- a range of slots and drops what was saved there; a restore puts back the slots that are not used;
-- when the state of the context is cleared, every slot changes and what was saved is released.
use direct_xshader_patcher.Base.{
  ℕ, List, [], ◌∷◌, Bool, not, Bool-cases, inl, inr, if◌then◌else◌, ◌≡◌, refl, ◌∙◌,
}
use direct_xshader_patcher.DrawState.{
  SlotClass, SlotKey, is_written, Entry, save_once, keep, drop_written, bind, clear, restore_unused,
  restore_all,
}
use direct_xshader_patcher.DrawState.View.{
  game_view, Unique, game_view-congr, restore_unused-game_view, restore_all-device,
}
use direct_xshader_patcher.DrawState.Game.{
  save_once-game_view, save_once-Unique, keep-Unique, keep-game_view,
}

abbrev pub overwrite :
    {Object : Type 0}
    → (SlotKey → Bool)
    → (SlotKey → Object)
    → (SlotKey → Object)
    → SlotKey
    → Object
overwrite written new old k = if written k then new k else old k

module _ (Kind Object : Type 0) where
  pub data Action : Type 0 where
    push : SlotKey → Kind → Object → Action
    write : ℕ → SlotClass → ℕ → ℕ → (SlotKey → Object) → Action
    restore : (SlotKey → Bool) → Action
    clear_state : (SlotKey → Object) → Action

  pub record Slots : Type 0 where
    pub device : SlotKey → Object
    pub saved : List (Entry Kind Object)

module _ {Kind Object : Type 0} where
  unfoldable pub act : Action Kind Object → Slots Kind Object → Slots Kind Object
  unfolding save_once drop_written restore_unused clear
  act (Action.push key type x) s = record {
    device = bind s.device key x;
    saved = save_once key type (s.device key) s.saved;
  }
  act (Action.write stages class first count new) s = record {
    device = overwrite (is_written stages class first count) new s.device;
    saved = drop_written stages class first count s.saved;
  }
  act (Action.restore used) s = record {
    device = (restore_unused used s.device s.saved).1;
    saved = (restore_unused used s.device s.saved).0;
  }
  act (Action.clear_state new) s = record { device = new; saved = clear s.saved }

  unfoldable pub act_all : List (Action Kind Object) → Slots Kind Object → Slots Kind Object
  unfolding act
  act_all [] s = s
  act_all (a ∷ rest) s = act_all rest (act a s)

  -- What the game alone would have bound.
  unfoldable pub game_only : List (Action Kind Object) → (SlotKey → Object) → SlotKey → Object
  game_only [] bound = bound
  game_only (Action.write stages class first count new ∷ rest) bound =
      game_only rest (overwrite (is_written stages class first count) new bound)
  game_only (Action.clear_state new ∷ rest) bound = game_only rest new
  game_only (Action.push key type x ∷ rest) bound = game_only rest bound
  game_only (Action.restore used ∷ rest) bound = game_only rest bound

  -- The slots show these bindings of the game.
  pub record Shows (s : Slots Kind Object) (bound : SlotKey → Object) : Type 0 where
    pub view : (k : SlotKey) → game_view s.device s.saved k ≡ bound k
    pub unique : Unique s.saved

  push-Shows :
      (s : Slots Kind Object) (bound : SlotKey → Object) (key : SlotKey) (type : Kind) (x : Object)
      → Shows s bound
      → Shows (act (Action.push key type x) s) bound
  unfolding act
  push-Shows s bound key type x h = record {
    view = λ k. save_once-game_view s.device s.saved key k type x ∙ h.view k;
    unique = save_once-Unique key type (s.device key) s.saved h.unique;
  }

  overwritten_view :
      (written : SlotKey → Bool) (new : SlotKey → Object) (s : Slots Kind Object)
      (bound : SlotKey → Object) (k : SlotKey)
      → Shows s bound
      → game_view (overwrite written new s.device) (keep (λ key. not (written key)) s.saved) k
        ≡ overwrite written new bound k
  overwritten_view written new s bound k h =
      keep-game_view written (overwrite written new s.device) s.saved k
      ∙ elim (Bool-cases (written k)) [
        | inl w ↦ rw w refl
        | inr w ↦ rw w (
            game_view-congr (overwrite written new s.device) s.device s.saved k (rw w refl)
            ∙ h.view k)
      ]

  write-Shows :
      (s : Slots Kind Object) (bound : SlotKey → Object) (stages : ℕ) (class : SlotClass)
      (first count : ℕ) (new : SlotKey → Object)
      → Shows s bound
      → Shows
          (act (Action.write stages class first count new) s)
          (overwrite (is_written stages class first count) new bound)
  unfolding act drop_written
  write-Shows s bound stages class first count new h = record {
    view = λ k. overwritten_view (is_written stages class first count) new s bound k h;
    unique = keep-Unique (λ k. not (is_written stages class first count k)) s.saved h.unique;
  }

  restore-Shows :
      (s : Slots Kind Object) (bound : SlotKey → Object) (used : SlotKey → Bool)
      → Shows s bound
      → Shows (act (Action.restore used) s) bound
  unfolding act restore_unused
  restore-Shows s bound used h = record {
    view = λ k. restore_unused-game_view used s.device s.saved k h.unique ∙ h.view k;
    unique = keep-Unique used s.saved h.unique;
  }

  clear-Shows :
      (s : Slots Kind Object) (new : SlotKey → Object) → Shows (act (Action.clear_state new) s) new
  unfolding act clear game_view
  clear-Shows s new = record { view = λ k. refl; unique = tt }

  act_all-Shows :
      (actions : List (Action Kind Object)) (s : Slots Kind Object) (bound : SlotKey → Object)
      → Shows s bound
      → Shows (act_all actions s) (game_only actions bound)
  unfolding act_all game_only
  act_all-Shows [] s bound h = h
  act_all-Shows (Action.push key type x ∷ rest) s bound h =
      act_all-Shows rest (act (Action.push key type x) s) bound (push-Shows s bound key type x h)
  act_all-Shows (Action.write stages class first count new ∷ rest) s bound h =
      act_all-Shows rest (act (Action.write stages class first count new) s)
        (overwrite (is_written stages class first count) new bound)
        (write-Shows s bound stages class first count new h)
  act_all-Shows (Action.clear_state new ∷ rest) s bound h =
      act_all-Shows rest (act (Action.clear_state new) s) new (clear-Shows s new)
  act_all-Shows (Action.restore used ∷ rest) s bound h =
      act_all-Shows rest (act (Action.restore used) s) bound (restore-Shows s bound used h)

  abbrev pub untouched : (SlotKey → Object) → Slots Kind Object
  untouched device = record { device = device; saved = [] }

  untouched-Shows : (device : SlotKey → Object) → Shows (untouched device) device
  unfolding game_view
  untouched-Shows device = record { view = λ k. refl; unique = tt }

  -- From a device that the add-on has not touched, after any sequence of pushes, writes of the game,
  -- restores and clears, `RestoreAll` leaves nothing saved, and in every slot of the device what the game's
  -- writes and clears alone would have put there.
  pub restore_all-game_only :
      (actions : List (Action Kind Object)) (device : SlotKey → Object) (k : SlotKey)
      → ((restore_all
            ((act_all actions (untouched device)).device)
            ((act_all actions (untouched device)).saved)).0
          ≡ [])
        × ((restore_all
                ((act_all actions (untouched device)).device)
                ((act_all actions (untouched device)).saved)).1
              k
            ≡ game_only actions device k)
  restore_all-game_only actions device k =
      let h = act_all-Shows actions (untouched device) device (untouched-Shows device) in
      let (gone, back) =
        restore_all-device ((act_all actions (untouched device)).device)
          ((act_all actions (untouched device)).saved) k h.unique in
      (gone, back ∙ h.view k)
