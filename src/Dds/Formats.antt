-- ===== src/Dds/Formats.antt =====
-- The formats of legacy headers, and the size of a surface.
use native.Mathlib.Nat.{mul-le-mul}
use direct_xshader_patcher.Base.{
  ℕ, ◌+◌, ◌*◌, ◌/◌, ◌^◌, ◌%◌, ◌≤◌, ◌<◌, List, [], ◌∷◌, Bool, true, false, not, ◌&&◌, ◌||◌, Option,
  none, some, ◌==◌, if◌then◌else◌, max, Bool-cases, inl, inr, ◌⊎◌, ◌≡◌, ◌≢◌, refl, sym, subst, ◌-◌,
  arith, ==_iff, All,
}
use direct_xshader_patcher.Dds.{
  DdsPixelFormat, Masks, SurfaceSize, has_flag, four_cc_formats, format_of_code, matches,
  first_masks, masks_32, masks_16, rgb_format, luminance_format, or_format, format_from_legacy,
  block_bytes, bits_per_pixel, blocked_surface, plain_surface, compute_surface,
}

-- The reader knows how many bytes the format takes.
unfoldable pub is_sized : ℕ → Bool
unfolding block_bytes bits_per_pixel
is_sized format = not (block_bytes format == 0) || not (bits_per_pixel format == 0)

abbrev pub SizedOrNone : ℕ → Type 0
SizedOrNone format = (format ≡ 0) ⊎ (is_sized format ≡ true)

abbrev SizedIf : Option ℕ → Type 0
SizedIf none = Unit
SizedIf (some format) = is_sized format ≡ true

format_of_code-SizedOrNone :
    (code : ℕ) (table : List (ℕ × ℕ))
    → All (λ entry. is_sized entry.1 ≡ true) table
    → SizedOrNone (format_of_code code table)
format_of_code-SizedOrNone code [] h = inl refl
format_of_code-SizedOrNone code ((c, format) ∷ rest) h = elim (Bool-cases (c == code)) [
  | inl same ↦ rw same (inr h.0)
  | inr differs ↦ rw differs (format_of_code-SizedOrNone code rest h.1)
]

first_masks-SizedIf :
    (pf : DdsPixelFormat) (ms : List Masks)
    → All (λ m. is_sized m.format ≡ true) ms
    → SizedIf (first_masks pf ms)
first_masks-SizedIf pf [] h = tt
first_masks-SizedIf pf (m ∷ ms) h = elim (Bool-cases (matches pf m)) [
  | inl same ↦ rw same h.0
  | inr differs ↦ rw differs (first_masks-SizedIf pf ms h.1)
]

or_format-SizedOrNone :
    (o : Option ℕ) (other : ℕ) → SizedIf o → SizedOrNone other → SizedOrNone (or_format o other)
or_format-SizedOrNone none other p q = q
or_format-SizedOrNone (some format) other p q = inr p

four_cc_formats-sized : All (λ entry. is_sized entry.1 ≡ true) four_cc_formats
unfolding is_sized
four_cc_formats-sized = (
  refl,
  (
    refl,
    (
      refl,
      (
        refl,
        (
          refl,
          (
            refl,
            (
              refl,
              (
                refl,
                (
                  refl,
                  (
                    refl,
                    (refl, (refl, (refl, (refl, (refl, (refl, (refl, (refl, (refl, tt))))))))),
                  ),
                ),
              ),
            ),
          ),
        ),
      ),
    ),
  ),
)

masks_32-sized : (has_alpha : Bool) → All (λ m. is_sized m.format ≡ true) (masks_32 has_alpha)
unfolding is_sized
masks_32-sized has_alpha = (refl, (refl, (refl, (refl, (refl, (refl, tt))))))

masks_16-sized : All (λ m. is_sized m.format ≡ true) masks_16
unfolding is_sized
masks_16-sized = (refl, (refl, (refl, tt)))

rgb_format-SizedIf : (pf : DdsPixelFormat) → SizedIf (rgb_format pf)
rgb_format-SizedIf pf = elim (Bool-cases (has_flag pf.flags 0x40)) [
  | inr no_rgb ↦ rw no_rgb tt
  | inl rgb ↦ elim (Bool-cases (pf.rgb_bit_count == 32)) [
    | inl wide ↦
        rw (rgb, wide)
          (first_masks-SizedIf pf (masks_32 (has_flag pf.flags 0x1))
            (masks_32-sized (has_flag pf.flags 0x1)))
    | inr not_wide ↦ elim (Bool-cases (pf.rgb_bit_count == 16)) [
      | inl narrow ↦ rw (rgb, not_wide, narrow) (first_masks-SizedIf pf masks_16 masks_16-sized)
      | inr other ↦ rw (rgb, not_wide, other) tt
    ]
  ]
]

luminance_format-SizedIf : (pf : DdsPixelFormat) → SizedIf (luminance_format pf)
unfolding is_sized
luminance_format-SizedIf pf = ground arith

alpha-SizedOrNone : (is_alpha : Bool) → SizedOrNone (if is_alpha then 65 else 0)
unfolding is_sized
alpha-SizedOrNone true = inr refl
alpha-SizedOrNone false = inl refl

-- Every format that `FormatFromLegacy` finds for a legacy header is one whose blocks or pixels have
-- a size, so that the reader does not refuse it afterwards; 0 stands for none.
pub format_from_legacy-SizedOrNone : (pf : DdsPixelFormat) → SizedOrNone (format_from_legacy pf)
unfolding format_from_legacy is_sized
format_from_legacy-SizedOrNone pf = elim (Bool-cases (has_flag pf.flags 0x4)) [
  | inl coded ↦
      rw coded (format_of_code-SizedOrNone pf.four_cc four_cc_formats four_cc_formats-sized)
  | inr plain ↦ rw plain (
      or_format-SizedOrNone (rgb_format pf)
        (or_format (luminance_format pf)
          (if has_flag pf.flags 0x2 && pf.rgb_bit_count == 8 then 65 else 0))
        (rgb_format-SizedIf pf)
        (or_format-SizedOrNone (luminance_format pf)
          (if has_flag pf.flags 0x2 && pf.rgb_bit_count == 8 then 65 else 0)
          (luminance_format-SizedIf pf)
          (alpha-SizedOrNone (has_flag pf.flags 0x2 && pf.rgb_bit_count == 8))))
]

block_bytes-le : (format : ℕ) → block_bytes format ≤ 16
unfolding block_bytes
block_bytes-le format = ground arith

compute_surface-plain :
    (format width height : ℕ)
    → block_bytes format ≡ 0
    → compute_surface format width height ≡ plain_surface (bits_per_pixel format) width height
unfolding compute_surface
compute_surface-plain format width height plain =
    let none_there = (==_iff (block_bytes format) 0).1 plain in rw none_there refl

compute_surface-blocked :
    (format width height : ℕ)
    → block_bytes format ≢ 0
    → compute_surface format width height ≡ blocked_surface (block_bytes format) width height
unfolding compute_surface
compute_surface-blocked format width height blocks = elim (Bool-cases (block_bytes format == 0)) [
  | inl none_there ↦ absurd (blocks ((==_iff (block_bytes format) 0).0 none_there))
  | inr some_there ↦ rw some_there refl
]

-- The pitch of a surface holds a row of so many bits, in the fewest bytes.
abbrev pub HoldsRow : ℕ → ℕ → SurfaceSize → Type 0
HoldsRow bits height s = (s.rows ≡ height) × (bits ≤ s.row_pitch * 8) × (s.row_pitch * 8 < bits + 8)

plain_surface-HoldsRow :
    (bits width height : ℕ)
    → width * bits < 2 ^ 32 - 7
    → HoldsRow (width * bits) height (plain_surface bits width height)
plain_surface-HoldsRow bits width height small = (refl, omega arith, omega arith)

-- For a format without blocks and a row of fewer than 2 ^ 32 - 7 bits, the row pitch of
-- `ComputeSurface` is the least number of bytes that holds the row, and there is a row for each
-- pixel of the height.
pub compute_surface-HoldsRow :
    (format width height : ℕ)
    → block_bytes format ≡ 0
    → width * bits_per_pixel format < 2 ^ 32 - 7
    → HoldsRow (width * bits_per_pixel format) height (compute_surface format width height)
compute_surface-HoldsRow format width height plain small =
    subst (HoldsRow (width * bits_per_pixel format) height)
      (sym (compute_surface-plain format width height plain))
      (plain_surface-HoldsRow (bits_per_pixel format) width height small)

-- So many 4x4 blocks cover a length, at least one and else the fewest.
abbrev pub Covers : ℕ → ℕ → Type 0
Covers length blocks = (1 ≤ blocks) × (length ≤ blocks * 4) × (blocks * 4 ≤ max 4 (length + 3))

abbrev pub HoldsBlocks : ℕ → ℕ → ℕ → SurfaceSize → Type 0
HoldsBlocks block width height s =
    (columns : ℕ) × (s.row_pitch ≡ columns * block) × Covers width columns × Covers height s.rows

blocks_fit : (columns block : ℕ) → columns ≤ 2 ^ 27 → block ≤ 16 → columns * block < 2 ^ 32
blocks_fit columns block c b = let most = mul-le-mul c b in omega (arith, most)

blocked_surface-HoldsBlocks :
    (block width height : ℕ)
    → block ≤ 16
    → width < 2 ^ 28
    → height < 2 ^ 28
    → HoldsBlocks block width height (blocked_surface block width height)
blocked_surface-HoldsBlocks block width height b w h =
    let columns : ℕ = max 1 ((width + 3) % 2 ^ 32 / 4) in
    let fit = blocks_fit columns block (omega arith) b in
    (
      columns,
      omega (arith, fit),
      (omega arith, omega arith, omega arith),
      (omega arith, omega arith, omega arith),
    )

-- For a block format and sides below 2 ^ 28, the surface of `ComputeSurface` is made of the fewest
-- 4x4 blocks that cover it, at least one in each direction; the row pitch is the bytes of one row of
-- blocks.
pub compute_surface-HoldsBlocks :
    (format width height : ℕ)
    → block_bytes format ≢ 0
    → width < 2 ^ 28
    → height < 2 ^ 28
    → HoldsBlocks (block_bytes format) width height (compute_surface format width height)
compute_surface-HoldsBlocks format width height blocks w h =
    subst (HoldsBlocks (block_bytes format) width height)
      (sym (compute_surface-blocked format width height blocks))
      (blocked_surface-HoldsBlocks (block_bytes format) width height (block_bytes-le format) w h)
