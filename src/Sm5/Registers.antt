-- ===== src/Sm5/Registers.antt =====
-- The choice of a register in src/dxp/sm5/ShaderProgram.cpp: the loops of `FindNextAvailableTexture`
-- and its siblings, and `AllocateBindPoint`. A set of registers is a list.
pub mod Nearest
pub mod Allocate
use direct_xshader_patcher.Base.{
  ℕ, zero, suc, ◌+◌, ◌-◌, ◌%◌, ◌^◌, List, [], ◌∷◌, length, Bool, true, false, ◌||◌, ◌==◌, Result,
  ok, err, if◌then◌else◌,
}

abbrev pub contains : List ℕ → ℕ → Bool
contains [] n = false
contains (x ∷ xs) n = x == n || contains xs n

-- `--bp` or `++bp` on `unsigned`.
abbrev pub next_register : Bool → ℕ → ℕ
next_register from_high bp = if from_high then (bp + (2 ^ 32 - 1)) % 2 ^ 32 else (bp + 1) % 2 ^ 32

-- `while (occupied.contains(bp))`; the fuel is the size of the set.
unfoldable pub scan : ℕ → List ℕ → Bool → ℕ → ℕ
scan zero occupied from_high bp = bp
scan (suc fuel) occupied from_high bp =
    let rest = scan fuel occupied from_high (next_register from_high bp) in
    if contains occupied bp then rest else bp

unfoldable pub find_next_available : List ℕ → ℕ → Bool → ℕ
unfolding scan
find_next_available occupied preferred from_high =
    scan (length occupied) occupied from_high preferred

-- `out_of_fuel` stands for a loop that does not end.
pub data BindError : Type 0 where
  already_occupied : ℕ → BindError
  exhausted out_of_fuel : BindError

-- No candidate is behind the last one in the direction of the search.
abbrev pub is_last : Bool → ℕ → Bool
is_last reverse candidate = candidate == (if reverse then 0 else 2 ^ 32 - 1)

unfoldable pub auto_bind : ℕ → List ℕ → Bool → ℕ → Result BindError ℕ
auto_bind zero occupied reverse candidate =
    if contains occupied candidate then err BindError.out_of_fuel else ok candidate
auto_bind (suc fuel) occupied reverse candidate =
    let rest = auto_bind fuel occupied reverse (next_register reverse candidate) in
    if contains occupied candidate
    then (if is_last reverse candidate then err BindError.exhausted else rest)
    else ok candidate

unfoldable pub allocate_bind_point : List ℕ → Bool → ℕ → Bool → Result BindError ℕ
unfolding auto_bind
allocate_bind_point occupied is_auto requested reverse =
    if is_auto
    then auto_bind (length occupied) occupied reverse requested
    else (if contains occupied requested then err (already_occupied requested) else ok requested)
