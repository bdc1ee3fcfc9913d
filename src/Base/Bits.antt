-- ===== src/Base/Bits.antt =====
-- Laws of `&` and `^` on native numbers, by the recursion on binary digits that they stand for.
use Prim.Native.Nat.{ℕ, zero, suc, ◌+◌, ◌-◌, ◌*◌, ◌/◌, ◌%◌, ◌^◌, ◌≤◌, ◌<◌, min}
use Prim.Native.Nat.{
  bit_and, bit_xor, digits, bitwise, differ, bit_and-bitwise, bit_xor-bitwise, bit_or,
  bit_or-bitwise, max,
}
use mathlib.Core.Path.{◌≡◌, refl, ap, ap₂, sym, ◌∙◌}
use native.Mathlib.Nat.{le_refl, pow-suc, one-le-pow, div-div-eq-div-mul, div-one}
use native.Mathlib.Omega.{arith}

module _ (z : ℕ → ℕ) (f : ℕ → ℕ → ℕ) where
  digits_zero : (fuel y : ℕ) → digits z f fuel 0 y ≡ z y
  digits_zero (suc fuel) y = refl
  digits_zero zero y = refl

  -- Fuel beyond the first number changes nothing.
  digits_spare :
      (fuel spare x y : ℕ) → x ≤ fuel → digits z f (fuel + spare) x y ≡ digits z f fuel x y
  digits_spare fuel spare zero y h = digits_zero (fuel + spare) y ∙ sym (digits_zero fuel y)
  digits_spare (suc fuel) spare (suc x) y h =
      let more : suc fuel + spare ≡ suc (fuel + spare) = omega arith in
      ap (λ n. digits z f n (suc x) y) more
      ∙ ap (λ t. t * 2 + f (suc x % 2) (y % 2))
          (digits_spare fuel spare (suc x / 2) (y / 2) (omega arith))
  digits_spare zero spare (suc x) y h = absurd (omega arith)

  digits_any : (fuel x y : ℕ) → x ≤ fuel → digits z f fuel x y ≡ digits z f x x y
  digits_any fuel x y h =
      ap (λ n. digits z f n x y) (omega arith) ∙ digits_spare x (fuel - x) x y (le_refl x)

  -- The lowest digit apart.
  bitwise_low :
      (x y : ℕ)
      → bitwise z f (suc x) y ≡ f (suc x % 2) (y % 2) + 2 * bitwise z f (suc x / 2) (y / 2)
  bitwise_low x y = omega (digits_any x (suc x / 2) (y / 2) (omega arith), arith)

pub bit_and_step : (x y : ℕ) → bit_and x y ≡ bit_and (x / 2) (y / 2) * 2 + min (x % 2) (y % 2)
bit_and_step (suc x) y = simp bit_and-bitwise (omega (arith, bitwise_low (λ _. 0) min x y))
bit_and_step zero y = simp bit_and-bitwise (omega arith)

differ_digits : (x y : ℕ) → x < 2 → y < 2 → differ x y ≡ (x + y) % 2
differ_digits zero y p q = omega arith
differ_digits (suc zero) zero p q = refl
differ_digits (suc zero) (suc zero) p q = refl
differ_digits (suc zero) (suc (suc y)) p q = absurd (omega arith)
differ_digits (suc (suc x)) y p q = absurd (omega arith)

xor_step : (a b : ℕ) → bit_xor a b ≡ bit_xor (a / 2) (b / 2) * 2 + differ (a % 2) (b % 2)
xor_step zero b = simp bit_xor-bitwise (omega arith)
xor_step (suc a) b = simp bit_xor-bitwise (omega (arith, bitwise_low (λ y. y) differ a b))

pub bit_xor_step : (a b : ℕ) → bit_xor a b ≡ bit_xor (a / 2) (b / 2) * 2 + (a + b) % 2
bit_xor_step a b =
    omega (arith, xor_step a b, differ_digits (a % 2) (b % 2) (omega arith) (omega arith))

pub bit_xor-half : (a b : ℕ) → bit_xor a b / 2 ≡ bit_xor (a / 2) (b / 2)
bit_xor-half a b = omega (arith, bit_xor_step a b)

pub bit_xor-parity : (a b : ℕ) → bit_xor a b % 2 ≡ (a + b) % 2
bit_xor-parity a b = omega (arith, bit_xor_step a b)

xor_assoc_fuel : (n a b c : ℕ) → a + b + c ≤ n → bit_xor (bit_xor a b) c ≡ bit_xor a (bit_xor b c)
xor_assoc_fuel zero zero zero zero h = refl
xor_assoc_fuel zero (suc a) b c h = absurd (omega arith)
xor_assoc_fuel zero zero (suc b) c h = absurd (omega arith)
xor_assoc_fuel zero zero zero (suc c) h = absurd (omega arith)
xor_assoc_fuel (suc n) a b c h =
    let left = bit_xor_step (bit_xor a b) c in
    let right = bit_xor_step a (bit_xor b c) in
    let rest = xor_assoc_fuel n (a / 2) (b / 2) (c / 2) (omega arith) in
    omega (
      arith,
      left,
      right,
      rest,
      ap (λ t. bit_xor t (c / 2)) (bit_xor-half a b),
      ap (λ t. bit_xor (a / 2) t) (bit_xor-half b c),
      bit_xor-parity a b,
      bit_xor-parity b c,
    )

pub bit_xor_assoc : (a b c : ℕ) → bit_xor (bit_xor a b) c ≡ bit_xor a (bit_xor b c)
bit_xor_assoc a b c = xor_assoc_fuel (a + b + c) a b c (le_refl _)

xor_comm_fuel : (n a b : ℕ) → a + b ≤ n → bit_xor a b ≡ bit_xor b a
xor_comm_fuel zero zero zero h = refl
xor_comm_fuel zero (suc a) b h = absurd (omega arith)
xor_comm_fuel zero zero (suc b) h = absurd (omega arith)
xor_comm_fuel (suc n) a b h =
    omega (arith, bit_xor_step a b, bit_xor_step b a, xor_comm_fuel n (a / 2) (b / 2) (omega arith))

pub bit_xor_comm : (a b : ℕ) → bit_xor a b ≡ bit_xor b a
bit_xor_comm a b = xor_comm_fuel (a + b) a b (le_refl _)

xor_self_fuel : (n a : ℕ) → a ≤ n → bit_xor a a ≡ 0
xor_self_fuel zero zero h = refl
xor_self_fuel zero (suc a) h = absurd (omega arith)
xor_self_fuel (suc n) a h = omega (arith, bit_xor_step a a, xor_self_fuel n (a / 2) (omega arith))

pub bit_xor_self : (a : ℕ) → bit_xor a a ≡ 0
bit_xor_self a = xor_self_fuel a a (le_refl _)

pub bit_xor-zero_left : (a : ℕ) → bit_xor 0 a ≡ a
bit_xor-zero_left a = bit_xor-bitwise 0 a

pub bit_xor-zero : (a : ℕ) → bit_xor a 0 ≡ a
bit_xor-zero a = omega (arith, bit_xor_comm a 0, bit_xor-zero_left a)

power_double : (k n : ℕ) → n * 2 ^ suc k ≡ n * 2 ^ k * 2
power_double k n = omega (ap (λ (p : ℕ). n * p) (pow-suc 2 k), arith)

-- `^` of disjoint bit fields is their sum.
pub bit_xor_fields : (k q r : ℕ) → r < 2 ^ k → bit_xor (q * 2 ^ k) r ≡ q * 2 ^ k + r
bit_xor_fields zero q r fits = ground (arith, bit_xor-zero q)
bit_xor_fields (suc k) q r fits = ground (
  arith,
  bit_xor_step (q * 2 ^ suc k) r,
  power_double k q,
  pow-suc 2 k,
  bit_xor_fields k q (r / 2) (omega (arith, pow-suc 2 k)),
)

pub bit_xor-lt : (k a b : ℕ) → a < 2 ^ k → b < 2 ^ k → bit_xor a b < 2 ^ k
bit_xor-lt zero a b p q = ground (arith, bit_xor-zero 0)
bit_xor-lt (suc k) a b p q = omega (
  arith,
  pow-suc 2 k,
  bit_xor_step a b,
  bit_xor-lt k (a / 2) (b / 2) (omega (arith, pow-suc 2 k)) (omega (arith, pow-suc 2 k)),
)

pub bit_xor-shift : (k a b : ℕ) → bit_xor a b / 2 ^ k ≡ bit_xor (a / 2 ^ k) (b / 2 ^ k)
bit_xor-shift zero a b = ground (arith, ap₂ bit_xor (div-one a) (div-one b), div-one (bit_xor a b))
bit_xor-shift (suc k) a b =
    halve (bit_xor a b)
    ∙ ap (λ t. t / 2) (bit_xor-shift k a b)
    ∙ bit_xor-half (a / 2 ^ k) (b / 2 ^ k)
    ∙ ap₂ bit_xor (sym (halve a)) (sym (halve b))
  where
    halve : (n : ℕ) → n / 2 ^ suc k ≡ n / 2 ^ k / 2
    halve n = ap (λ t. n / t) (pow-suc 2 k) ∙ sym (div-div-eq-div-mul n (2 ^ k) 2)

-- `^` with all ones is the complement.
pub bit_xor-ones : (k a : ℕ) → a < 2 ^ k → bit_xor a (2 ^ k - 1) ≡ 2 ^ k - 1 - a
bit_xor-ones zero a h = ground (arith, bit_xor-zero 0)
bit_xor-ones (suc k) a h =
    ground
      (arith, bit_xor_step a (2 ^ suc k - 1), pow-suc 2 k, one-le-pow k 2, bit_xor-ones k (a / 2))

bit_and-zero_left : (b : ℕ) → bit_and 0 b ≡ 0
bit_and-zero_left b = bit_and-bitwise 0 b

nothing_common : (bound a : ℕ) → a < bound → bit_and a 0 ≡ 0
nothing_common zero a h = absurd (omega arith)
nothing_common (suc bound) zero h = bit_and-zero_left 0
nothing_common (suc bound) (suc a) h =
    omega (nothing_common bound (suc a / 2) (omega arith), bit_and_step (suc a) 0, arith)

mask_fields : (k q r : ℕ) → r < 2 ^ k → bit_and (q * 2 ^ k + r) (2 ^ k - 1) ≡ r
mask_fields zero q r fits =
    omega (arith, nothing_common (suc (q * 1 + r)) (q * 1 + r) (omega arith))
mask_fields (suc k) q r fits = ground (
  arith,
  bit_and_step (q * 2 ^ suc k + r) (2 ^ suc k - 1),
  power_double k q,
  pow-suc 2 k,
  mask_fields k q (r / 2) (omega (arith, pow-suc 2 k)),
)

-- A mask of `k` low bits is the remainder by `2 ^ k`.
pub bit_and_mask : (k a : ℕ) → bit_and a (2 ^ k - 1) ≡ a % 2 ^ k
bit_and_mask k a = ground (arith, one-le-pow k 2, mask_fields k (a / 2 ^ k) (a % 2 ^ k))

pub bit_or_step : (x y : ℕ) → bit_or x y ≡ bit_or (x / 2) (y / 2) * 2 + max (x % 2) (y % 2)
bit_or_step zero y = simp bit_or-bitwise (omega arith)
bit_or_step (suc x) y = simp bit_or-bitwise (omega (arith, bitwise_low (λ b. b) max x y))

or_nothing : (bound a : ℕ) → a < bound → bit_or a 0 ≡ a
or_nothing zero a h = absurd (omega arith)
or_nothing (suc bound) zero h = bit_or-bitwise 0 0
or_nothing (suc bound) (suc a) h =
    omega (or_nothing bound (suc a / 2) (omega arith), bit_or_step (suc a) 0, arith)

-- The lowest bit set.
pub bit_or-one : (a : ℕ) → bit_or a 1 ≡ a / 2 * 2 + 1
bit_or-one a = omega (arith, bit_or_step a 1, or_nothing (suc a) (a / 2) (omega arith))

-- `|` of disjoint bit fields is their sum.
pub bit_or_fields : (k q r : ℕ) → r < 2 ^ k → bit_or r (q * 2 ^ k) ≡ r + q * 2 ^ k
bit_or_fields zero q zero fits = omega (bit_or-bitwise 0 (q * 2 ^ 0), arith)
bit_or_fields zero q (suc r) fits = absurd (omega arith)
bit_or_fields (suc k) q r fits = ground (
  arith,
  bit_or_step r (q * 2 ^ suc k),
  power_double k q,
  pow-suc 2 k,
  bit_or_fields k q (r / 2) (omega (arith, pow-suc 2 k)),
)

bit_or-right_fuel : (n a b : ℕ) → a + b ≤ n → b ≤ bit_or a b
bit_or-right_fuel zero a b h = omega arith
bit_or-right_fuel (suc n) a zero h = omega arith
bit_or-right_fuel (suc n) a (suc b) h =
    omega (arith, bit_or_step a (suc b), bit_or-right_fuel n (a / 2) (suc b / 2) (omega arith))

-- `|` keeps the bits of its second number.
pub bit_or-right : (a b : ℕ) → b ≤ bit_or a b
bit_or-right a b = bit_or-right_fuel (a + b) a b (le_refl _)
