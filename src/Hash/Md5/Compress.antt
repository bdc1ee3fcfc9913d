-- ===== src/Hash/Md5/Compress.antt =====
-- `MD5Hasher::ProcessBlock` of src/dxp/utils/Hash.hpp: the compression of one 64-byte block into
-- the four state words. All sums are on 32 bits.
use direct_xshader_patcher.Base.{
  ℕ, zero, suc, ◌+◌, ◌-◌, ◌*◌, ◌/◌, ◌%◌, ◌^◌, List, [], ◌∷◌, bit_and, bit_or, bit_xor, get_or,
}

-- `m_state`
pub record Words : Type 0 where
  pub a : ℕ
  pub b : ℕ
  pub c : ℕ
  pub d : ℕ

abbrev pub u32 : ℕ → ℕ
u32 x = x % 2 ^ 32

-- `~x` on 32 bits
abbrev pub complement : ℕ → ℕ
complement x = 2 ^ 32 - 1 - x

abbrev shifts : List ℕ
shifts =
    7 ∷ 12 ∷ 17 ∷ 22 ∷ 7 ∷ 12 ∷ 17 ∷ 22 ∷ 7 ∷ 12 ∷ 17 ∷ 22 ∷ 7 ∷ 12 ∷ 17 ∷ 22 ∷ 5 ∷ 9 ∷ 14 ∷ 20 ∷ 5
    ∷ 9 ∷ 14 ∷ 20 ∷ 5 ∷ 9 ∷ 14 ∷ 20 ∷ 5 ∷ 9 ∷ 14 ∷ 20 ∷ 4 ∷ 11 ∷ 16 ∷ 23 ∷ 4 ∷ 11 ∷ 16 ∷ 23 ∷ 4 ∷ 11
    ∷ 16 ∷ 23 ∷ 4 ∷ 11 ∷ 16 ∷ 23 ∷ 6 ∷ 10 ∷ 15 ∷ 21 ∷ 6 ∷ 10 ∷ 15 ∷ 21 ∷ 6 ∷ 10 ∷ 15 ∷ 21 ∷ 6 ∷ 10
    ∷ 15 ∷ 21 ∷ []

abbrev constants : List ℕ
constants =
    0xd76aa478 ∷ 0xe8c7b756 ∷ 0x242070db ∷ 0xc1bdceee ∷ 0xf57c0faf ∷ 0x4787c62a ∷ 0xa8304613
    ∷ 0xfd469501 ∷ 0x698098d8 ∷ 0x8b44f7af ∷ 0xffff5bb1 ∷ 0x895cd7be ∷ 0x6b901122 ∷ 0xfd987193
    ∷ 0xa679438e ∷ 0x49b40821 ∷ 0xf61e2562 ∷ 0xc040b340 ∷ 0x265e5a51 ∷ 0xe9b6c7aa ∷ 0xd62f105d
    ∷ 0x02441453 ∷ 0xd8a1e681 ∷ 0xe7d3fbc8 ∷ 0x21e1cde6 ∷ 0xc33707d6 ∷ 0xf4d50d87 ∷ 0x455a14ed
    ∷ 0xa9e3e905 ∷ 0xfcefa3f8 ∷ 0x676f02d9 ∷ 0x8d2a4c8a ∷ 0xfffa3942 ∷ 0x8771f681 ∷ 0x6d9d6122
    ∷ 0xfde5380c ∷ 0xa4beea44 ∷ 0x4bdecfa9 ∷ 0xf6bb4b60 ∷ 0xbebfbc70 ∷ 0x289b7ec6 ∷ 0xeaa127fa
    ∷ 0xd4ef3085 ∷ 0x04881d05 ∷ 0xd9d4d039 ∷ 0xe6db99e5 ∷ 0x1fa27cf8 ∷ 0xc4ac5665 ∷ 0xf4292244
    ∷ 0x432aff97 ∷ 0xab9423a7 ∷ 0xfc93a039 ∷ 0x655b59c3 ∷ 0x8f0ccc92 ∷ 0xffeff47d ∷ 0x85845dd1
    ∷ 0x6fa87e4f ∷ 0xfe2ce6e0 ∷ 0xa3014314 ∷ 0x4e0811a1 ∷ 0xf7537e82 ∷ 0xbd3af235 ∷ 0x2ad7d2bb
    ∷ 0xeb86d391 ∷ []

-- A little-endian word; the default stands for a read past the block, which does not happen.
pub read_dword : List ℕ → ℕ → ℕ
read_dword bytes i =
    get_or bytes i 0
    + get_or bytes (i + 1) 0 * 2 ^ 8
    + get_or bytes (i + 2) 0 * 2 ^ 16
    + get_or bytes (i + 3) 0 * 2 ^ 24

-- `finalizeIteration(i, f, g)`
pub finalize_iteration : List ℕ → ℕ → ℕ → ℕ → Words → Words
finalize_iteration block i f g w =
    let sum = u32 (f + w.a + get_or constants i 0 + read_dword block (4 * g)) in
    let s = get_or shifts i 0 in
    record { a = w.d; b = u32 (w.b + (u32 (sum * 2 ^ s) + sum / 2 ^ (32 - s))); c = w.b; d = w.c }

-- One of the four loops: `left` rounds from `i` on, with its choice of `f` and `g`.
pub iterations : List ℕ → (Words → ℕ) → (ℕ → ℕ) → ℕ → ℕ → Words → Words
iterations block f g zero i w = w
iterations block f g (suc left) i w =
    iterations block f g left (i + 1) (finalize_iteration block i (f w) (g i) w)

abbrev choose_f : Words → ℕ
choose_f w = bit_or (bit_and w.b w.c) (bit_and (complement w.b) w.d)

abbrev choose_g : Words → ℕ
choose_g w = bit_or (bit_and w.d w.b) (bit_and (complement w.d) w.c)

abbrev parity_h : Words → ℕ
parity_h w = bit_xor (bit_xor w.b w.c) w.d

abbrev mixed_i : Words → ℕ
mixed_i w = bit_xor w.c (bit_or w.b (complement w.d))

unfoldable pub process_block : Words → List ℕ → Words
unfolding iterations finalize_iteration read_dword
process_block w block =
    let w₁ = iterations block choose_f (λ i. i) 16 0 w in
    let w₂ = iterations block choose_g (λ i. (5 * i + 1) % 16) 16 16 w₁ in
    let w₃ = iterations block parity_h (λ i. (3 * i + 5) % 16) 16 32 w₂ in
    let w₄ = iterations block mixed_i (λ i. 7 * i % 16) 16 48 w₃ in
    record {
      a = u32 (w.a + w₄.a);
      b = u32 (w.b + w₄.b);
      c = u32 (w.c + w₄.c);
      d = u32 (w.d + w₄.d);
    }
