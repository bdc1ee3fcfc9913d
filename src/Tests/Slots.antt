-- ===== src/Tests/Slots.antt =====
-- Slots with numbers for bindings.
use direct_xshader_patcher.Base.{ℕ, List, [], ◌∷◌, Bool, true, false, ◌==◌, ◌≡◌, refl}
use direct_xshader_patcher.DrawState.{
  SwapAction, next_swap_action, SlotClass, SlotKey, Entry, save_once, contains, restore_all,
}
use direct_xshader_patcher.DrawState.View.{Unique}
use direct_xshader_patcher.DrawState.Session.{
  Action, act_all, game_only, untouched, restore_all-game_only,
}

swaps_in : next_swap_action true false ≡ (SwapAction.bind_replacement, true)
unfolding next_swap_action
swaps_in = refl

abbrev texture_slot : ℕ → SlotKey
texture_slot n = record { stage = 16; slot_class = SlotClass.srv; slot = n }

-- The game's binding of a slot before anything happens.
abbrev first_bound : SlotKey → ℕ
first_bound k = k.slot

abbrev saved_slots : List (Entry Bool ℕ)
saved_slots = (record { key = texture_slot 3; type = true; object = 3 }) ∷ []

saved_once : save_once (texture_slot 3) true 3 [] ≡ saved_slots
unfolding save_once
saved_once = refl

saved-Unique : Unique saved_slots
unfolding contains
saved-Unique = (refl, tt)

-- Two pushes into one slot, a write of the game over another, and a restore.
abbrev some_actions : List (Action Bool ℕ)
some_actions =
    Action.push (texture_slot 3) true 100
    ∷ Action.push (texture_slot 3) true 101
    ∷ Action.push (texture_slot 4) true 102
    ∷ Action.write 16 SlotClass.srv 4 2 (λ _. 55)
    ∷ Action.restore (λ k. k.slot == 3)
    ∷ []

game_bound : game_only some_actions first_bound (texture_slot 4) ≡ 55
unfolding game_only
game_bound = refl

restore_all-game_only_example :
    ((restore_all
        ((act_all some_actions (untouched first_bound)).device)
        ((act_all some_actions (untouched first_bound)).saved)).0
      ≡ [])
    × ((restore_all
            ((act_all some_actions (untouched first_bound)).device)
            ((act_all some_actions (untouched first_bound)).saved)).1
          (texture_slot 3)
        ≡ game_only some_actions first_bound (texture_slot 3))
restore_all-game_only_example = restore_all-game_only some_actions first_bound (texture_slot 3)
