-- ===== src/Variables.antt =====
-- `VariableStore` of src/dxp/VariableStore.hpp, and `UpperHex32` of src/dxp/RecipeEngine.hpp, with the
-- text as the numbers of its characters.
use direct_xshader_patcher.Base.{
  ℕ, zero, suc, ◌+◌, ◌-◌, ◌*◌, ◌/◌, ◌%◌, ◌^◌, ◌<◌, String, List, [], ◌∷◌, Bool, Option, is_present,
  ltb, str_eq, if◌then◌else◌, bit_and, ◌≡◌, refl, ap, ◌∙◌, arith,
}
use direct_xshader_patcher.Base.Bits.{bit_and_mask}
use direct_xshader_patcher.Base.Int.{ℤ, pos, negsuc}
use direct_xshader_patcher.Base.Map.{lookup, insert}
use direct_xshader_patcher.Condition.{PrimitiveValue}

unfoldable pub erase {ℓ} : {V : Type ℓ} → String → List (String × V) → List (String × V)
erase k [] = []
erase k ((j, v) ∷ m) = if str_eq j k then erase k m else (j, v) ∷ erase k m

pub record VariableStore (Double : Type 0) : Type 0 where
  pub variables : List (String × PrimitiveValue Double)
  pub state : List (String × PrimitiveValue Double)

-- The values that `SetState` takes: an integer is that of any integral type.
pub data StateInput (Double : Type 0) : Type 0 where
  boolean : Bool → StateInput Double
  integral : ℤ → StateInput Double
  floating : Double → StateInput Double

-- `static_cast<int64_t>` of an integer of at most 64 bits.
unfoldable pub to_int64 : ℤ → ℤ
to_int64 (pos n) = if ltb n (2 ^ 63) then pos n else negsuc (2 ^ 64 - 1 - n)
to_int64 (negsuc n) = negsuc n

module _ {Double : Type 0} where
  unfoldable pub set_variable :
      String → PrimitiveValue Double → VariableStore Double → VariableStore Double
  unfolding insert
  set_variable name value s = record s { variables = insert name value s.variables }

  unfoldable pub has_variable : String → VariableStore Double → Bool
  unfolding lookup
  has_variable name s = is_present (lookup name s.variables)

  -- Whether there was one, and the store without it.
  unfoldable pub unset_variable : String → VariableStore Double → Bool × VariableStore Double
  unfolding erase lookup
  unset_variable name s =
      (is_present (lookup name s.variables), record s { variables = erase name s.variables })

  unfoldable pub find_variable : String → VariableStore Double → Option (PrimitiveValue Double)
  unfolding lookup
  find_variable name s = lookup name s.variables

  unfoldable pub to_primitive : StateInput Double → PrimitiveValue Double
  unfolding to_int64
  to_primitive (StateInput.boolean b) = PrimitiveValue.boolean b
  to_primitive (StateInput.integral n) = PrimitiveValue.int64 (to_int64 n)
  to_primitive (StateInput.floating x) = PrimitiveValue.double x

  unfoldable pub set_state :
      String → StateInput Double → VariableStore Double → VariableStore Double
  unfolding insert to_primitive
  set_state name value s = record s { state = insert name (to_primitive value) s.state }

-- The digits from the shift by `4 * n` down.
unfoldable pub hex_digits : ℕ → ℕ → List ℕ
hex_digits zero value = []
hex_digits (suc n) value = bit_and (value / 2 ^ (4 * n)) 0xf ∷ hex_digits n value

-- `kHex`
abbrev pub hex_character : ℕ → ℕ
hex_character d = if ltb d 10 then 48 + d else 55 + d

abbrev pub hex_characters : List ℕ → List ℕ
hex_characters [] = []
hex_characters (d ∷ ds) = hex_character d ∷ hex_characters ds

unfoldable pub upper_hex32 : ℕ → List ℕ
unfolding hex_digits
upper_hex32 value = 48 ∷ 120 ∷ hex_characters (hex_digits 8 value)

-- The number that digits behind `acc` stand for.
unfoldable pub read_hex : ℕ → List ℕ → ℕ
read_hex acc [] = acc
read_hex acc (c ∷ cs) = read_hex (acc * 16 + (if ltb c 58 then c - 48 else c - 55)) cs

read_character :
    (d : ℕ)
    → d < 16
    → (if ltb (hex_character d) 58 then hex_character d - 48 else hex_character d - 55) ≡ d
read_character d h = ground arith

read_hex_digits :
    (acc n value : ℕ)
    → read_hex acc (hex_characters (hex_digits (suc n) value))
      ≡ read_hex (acc * 16 + value / 2 ^ (4 * n) % 16) (hex_characters (hex_digits n value))
unfolding read_hex hex_digits
read_hex_digits acc n value =
    let low : bit_and (value / 2 ^ (4 * n)) 0xf ≡ value / 2 ^ (4 * n) % 16 =
      bit_and_mask 4 (value / 2 ^ (4 * n)) in
    ap (λ t. read_hex (acc * 16 + t) (hex_characters (hex_digits n value)))
      (read_character (bit_and (value / 2 ^ (4 * n)) 0xf) (omega (arith, low)) ∙ low)

read_nothing : (acc value : ℕ) → read_hex acc (hex_characters (hex_digits 0 value)) ≡ acc
unfolding read_hex hex_digits
read_nothing acc value = refl

abbrev pub text_behind_prefix : List ℕ → List ℕ
text_behind_prefix (a ∷ b ∷ cs) = cs
text_behind_prefix cs = []

-- The text that `UpperHex32` writes for a 32-bit value is, read behind its prefix as a hexadecimal
-- number, that value.
pub upper_hex32-read :
    (value : ℕ) → value < 2 ^ 32 → read_hex 0 (text_behind_prefix (upper_hex32 value)) ≡ value
unfolding upper_hex32
upper_hex32-read value h =
    read_hex_digits 0 7 value
    ∙ read_hex_digits _ 6 value
    ∙ read_hex_digits _ 5 value
    ∙ read_hex_digits _ 4 value
    ∙ read_hex_digits _ 3 value
    ∙ read_hex_digits _ 2 value
    ∙ read_hex_digits _ 1 value
    ∙ read_hex_digits _ 0 value
    ∙ read_nothing _ value
    ∙ omega arith
