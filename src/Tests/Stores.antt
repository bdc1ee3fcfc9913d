-- ===== src/Tests/Stores.antt =====
-- A store of one variable, and the text of one number.
use direct_xshader_patcher.Base.{ℕ, [], ◌∷◌, true, none, ◌≡◌, refl}
use direct_xshader_patcher.Condition.{PrimitiveValue}
use direct_xshader_patcher.Variables.{
  VariableStore, set_variable, unset_variable, find_variable, upper_hex32,
}

abbrev store : VariableStore ℕ
store = record { variables = ("size", PrimitiveValue.uint32 8) ∷ []; state = [] }

-- "0xDEADBEEF"
dead_beef : upper_hex32 0xDEADBEEF ≡ 48 ∷ 120 ∷ 68 ∷ 69 ∷ 65 ∷ 68 ∷ 66 ∷ 69 ∷ 69 ∷ 70 ∷ []
unfolding upper_hex32
dead_beef = refl

set_then_unset :
    find_variable "size"
      ((unset_variable "size" (set_variable "size" (PrimitiveValue.boolean true) store)).1)
    ≡ none
unfolding find_variable unset_variable set_variable
set_then_unset = refl
