-- ===== src/Hash/Crc32/Reference.antt =====
-- The polynomial division that `crc32_table` abbreviates, one bit at a time, and the equivalence
-- of the table-driven loop with it.
use direct_xshader_patcher.Base.{
  ℕ, zero, suc, length, ◌+◌, ◌*◌, ◌/◌, ◌%◌, ◌^◌, ◌<◌, ltb, ltb→lt, ◌≡◌, refl, ap, ap₂, sym, ◌∙◌,
  Bool, true, List, [], ◌∷◌, ◌&&◌, bit_and, bit_xor, get_or, arith, ◌==◌, if◌then◌else◌, ==_iff,
  All,
}
use native.Mathlib.Nat.{pow-suc}
use direct_xshader_patcher.Base.Bits.{
  bit_xor-half, bit_xor-parity, bit_xor_assoc, bit_xor_comm, bit_xor_self, bit_xor-zero,
  bit_xor-zero_left, bit_xor_fields, bit_xor-lt, bit_xor-shift, bit_xor-ones, bit_and_mask,
}
use direct_xshader_patcher.Hash.Crc32Table.{crc32_table}
use direct_xshader_patcher.Hash.Crc32.{crc32_round, crc32_loop, compute_crc32}

-- The reversed IEEE 802.3 polynomial.
abbrev pub polynomial : ℕ
polynomial = 0xEDB88320

-- What the lowest bit contributes when it is shifted out.
abbrev feedback : ℕ → ℕ
feedback c = if c % 2 == 1 then polynomial else 0

-- Divides one bit away.
pub crc32_bit : ℕ → ℕ
crc32_bit c = bit_xor (c / 2) (feedback c)

pub crc32_bits : ℕ → ℕ → ℕ
crc32_bits zero c = c
crc32_bits (suc n) c = crc32_bits n (crc32_bit c)

-- The checksum with no table: each byte is added to the low bits and divided away in 8 rounds.
pub reference_loop : ℕ → List ℕ → ℕ
reference_loop crc [] = crc
reference_loop crc (byte ∷ rest) = reference_loop (crc32_bits 8 (bit_xor crc byte)) rest

pub reference_crc32 : List ℕ → ℕ
reference_crc32 bytes = bit_xor (reference_loop 0xFFFFFFFF bytes) 0xFFFFFFFF

-- `(a ^ b) ^ (c ^ d)` regrouped.
xor_middle :
    (a b c d : ℕ) → bit_xor (bit_xor a b) (bit_xor c d) ≡ bit_xor (bit_xor a c) (bit_xor b d)
xor_middle a b c d = cc (
  bit_xor_assoc a b (bit_xor c d),
  bit_xor_assoc b c d,
  bit_xor_comm b c,
  bit_xor_assoc c b d,
  bit_xor_assoc a c (bit_xor b d),
)

feedback-xor : (x y : ℕ) → feedback (bit_xor x y) ≡ bit_xor (feedback x) (feedback y)
feedback-xor x y = ground (
  arith,
  bit_xor-parity x y,
  bit_xor_self polynomial,
  bit_xor-zero polynomial,
  bit_xor-zero_left polynomial,
  bit_xor_self 0,
)

crc32_bit-xor : (x y : ℕ) → crc32_bit (bit_xor x y) ≡ bit_xor (crc32_bit x) (crc32_bit y)
unfolding crc32_bit
crc32_bit-xor x y =
    ap₂ bit_xor (bit_xor-half x y) (feedback-xor x y)
    ∙ xor_middle (x / 2) (y / 2) (feedback x) (feedback y)

crc32_bits-xor :
    (n x y : ℕ) → crc32_bits n (bit_xor x y) ≡ bit_xor (crc32_bits n x) (crc32_bits n y)
unfolding crc32_bits
crc32_bits-xor zero x y = refl
crc32_bits-xor (suc n) x y =
    ap (crc32_bits n) (crc32_bit-xor x y) ∙ crc32_bits-xor n (crc32_bit x) (crc32_bit y)

crc32_bit-even : (q : ℕ) → crc32_bit (q * 2) ≡ q
unfolding crc32_bit
crc32_bit-even q = ground (arith, bit_xor-zero q)

crc32_bits-shift : (n q : ℕ) → crc32_bits n (q * 2 ^ n) ≡ q
unfolding crc32_bits
crc32_bits-shift zero q = omega arith
crc32_bits-shift (suc n) q =
    let doubled : q * 2 ^ suc n ≡ q * 2 ^ n * 2 =
      omega (arith, ap (λ (t : ℕ). q * t) (pow-suc 2 n)) in
    ap (λ t. crc32_bits n (crc32_bit t)) doubled
    ∙ ap (crc32_bits n) (crc32_bit-even (q * 2 ^ n))
    ∙ crc32_bits-shift n q

-- A test of every entry of a table with its index, from `first` on.
every_entry : (ℕ → ℕ → Bool) → ℕ → List ℕ → Bool
every_entry test first [] = true
every_entry test first (entry ∷ rest) = test first entry && every_entry test (first + 1) rest

and_true-left : (a b : Bool) → (a && b) ≡ true → a ≡ true
and_true-left a b h = ground arith

and_true-right : (a b : Bool) → (a && b) ≡ true → b ≡ true
and_true-right a b h = ground arith

every_entry_at :
    (test : ℕ → ℕ → Bool) (first index i : ℕ) (table : List ℕ)
    → index ≡ first + i
    → i < length table
    → every_entry test first table ≡ true
    → test index (get_or table i 0) ≡ true
unfolding every_entry
every_entry_at test first index i [] at h e = absurd (omega arith)
every_entry_at test first index zero (entry ∷ rest) at h e =
    let here : index ≡ first = omega arith in
    ap (λ n. test n entry) here ∙ and_true-left (test first entry) _ e
every_entry_at test first index (suc i) (entry ∷ rest) at h e =
    every_entry_at test (first + 1) index i rest (omega arith) (omega arith)
      (and_true-right (test first entry) _ e)

table_checked : every_entry (λ i entry. entry == crc32_bits 8 i) 0 crc32_table ≡ true
unfolding every_entry crc32_bits crc32_bit
table_checked = refl

-- Every entry of `crc32_table` is its index divided by the polynomial.
pub table_entry : (i : ℕ) → i < 256 → get_or crc32_table i 0 ≡ crc32_bits 8 i
table_entry i h = (==_iff (get_or crc32_table i 0) (crc32_bits 8 i)).0 (
    every_entry_at (λ i entry. entry == crc32_bits 8 i) 0 i i crc32_table (omega arith) h
      table_checked)

bits-split : (x : ℕ) → crc32_bits 8 x ≡ bit_xor (x / 256) (crc32_bits 8 (x % 256))
bits-split x =
    let whole : x ≡ bit_xor (x / 256 * 256) (x % 256) =
      omega (arith, bit_xor_fields 8 (x / 256) (x % 256) (omega arith)) in
    ap (crc32_bits 8) whole
    ∙ crc32_bits-xor 8 (x / 256 * 256) (x % 256)
    ∙ ap (λ t. bit_xor t (crc32_bits 8 (x % 256))) (crc32_bits-shift 8 (x / 256))

-- A round of the loop divides one byte away.
pub crc32_round-bits :
    (crc byte : ℕ) → byte < 256 → crc32_round crc byte ≡ crc32_bits 8 (bit_xor crc byte)
unfolding crc32_round
crc32_round-bits crc byte h =
    let x = bit_xor crc byte in
    let index : bit_and x 0xFF ≡ x % 256 = bit_and_mask 8 x in
    let byte_gone : byte / 256 ≡ 0 = omega arith in
    let high : x / 256 ≡ crc / 256 =
      bit_xor-shift 8 crc byte ∙ ap (bit_xor (crc / 256)) byte_gone ∙ bit_xor-zero (crc / 256) in
    ap₂ bit_xor (sym high)
      (ap (λ t. get_or crc32_table t 0) index ∙ table_entry (x % 256) (omega arith))
    ∙ sym (bits-split x)

crc32_loop-reference :
    (crc : ℕ) (bytes : List ℕ)
    → All (λ b. b < 256) bytes
    → crc32_loop crc bytes ≡ reference_loop crc bytes
unfolding crc32_loop reference_loop
crc32_loop-reference crc [] h = refl
crc32_loop-reference crc (byte ∷ rest) h =
    ap (λ c. crc32_loop c rest) (crc32_round-bits crc byte h.0)
    ∙ crc32_loop-reference (crc32_bits 8 (bit_xor crc byte)) rest h.1

entries_fit : every_entry (λ i entry. ltb entry (2 ^ 32)) 0 crc32_table ≡ true
unfolding every_entry
entries_fit = refl

crc32_round-lt : (crc byte : ℕ) → crc < 2 ^ 32 → crc32_round crc byte < 2 ^ 32
unfolding crc32_round
crc32_round-lt crc byte h =
    let x = bit_xor crc byte in
    let index : bit_and x 0xFF ≡ x % 256 = bit_and_mask 8 x in
    bit_xor-lt 32 (crc / 256) (get_or crc32_table (bit_and x 0xFF) 0) (omega arith) (
      ltb→lt (get_or crc32_table (bit_and x 0xFF) 0) (2 ^ 32) (
        every_entry_at (λ i entry. ltb entry (2 ^ 32)) 0 (bit_and x 0xFF) (bit_and x 0xFF)
          crc32_table (omega arith) (omega (arith, index)) entries_fit))

crc32_loop-lt : (crc : ℕ) (bytes : List ℕ) → crc < 2 ^ 32 → crc32_loop crc bytes < 2 ^ 32
unfolding crc32_loop
crc32_loop-lt crc [] h = h
crc32_loop-lt crc (byte ∷ rest) h =
    crc32_loop-lt (crc32_round crc byte) rest (crc32_round-lt crc byte h)

-- `ComputeCrc32` of a byte sequence is the IEEE 802.3 checksum computed bit by bit, by division by
-- the reversed polynomial with all ones first added in and the result complemented; the table of
-- 256 words only abbreviates eight rounds of that division.
pub compute_crc32-reference :
    (bytes : List ℕ) → All (λ b. b < 256) bytes → compute_crc32 bytes ≡ reference_crc32 bytes
unfolding compute_crc32 reference_crc32
compute_crc32-reference bytes h =
    sym
      (bit_xor-ones 32 (crc32_loop 0xFFFFFFFF bytes) (crc32_loop-lt 0xFFFFFFFF bytes (omega arith)))
    ∙ ap (λ c. bit_xor c 0xFFFFFFFF) (crc32_loop-reference 0xFFFFFFFF bytes h)
