-- ===== src/Dds.antt =====
-- tools/reshade_addon/dds.cpp: the DDS reader of the ReShade add-on, on the bytes of a file. Formats
-- are DXGI numbers; words and pitches are `uint32_t`.
pub mod Formats
pub mod Load
pub mod Payload
use direct_xshader_patcher.Base.{
  ℕ, ◌+◌, ◌*◌, ◌/◌, ◌^◌, ◌%◌, List, [], ◌∷◌, Bool, true, false, not, ◌&&◌, ◌||◌, Option, none, some,
  leb, ◌==◌, bit_and, bit_or, if◌then◌else◌, max,
}

-- `MakeFourCC`
unfoldable pub make_four_cc : ℕ → ℕ → ℕ → ℕ → ℕ
make_four_cc a b c d = bit_or (bit_or (bit_or a (b * 2 ^ 8)) (c * 2 ^ 16)) (d * 2 ^ 24)

pub record DdsPixelFormat : Type 0 where
  pub flags : ℕ
  pub four_cc : ℕ
  pub rgb_bit_count : ℕ
  pub r_mask : ℕ
  pub g_mask : ℕ
  pub b_mask : ℕ
  pub a_mask : ℕ

abbrev pub has_flag : ℕ → ℕ → Bool
has_flag flags flag = not (bit_and flags flag == 0)

-- The cases of the switch on the FourCC field, by its value.
abbrev pub four_cc_formats : List (ℕ × ℕ)
four_cc_formats =
    (0x31545844, 71)
    ∷ (0x32545844, 74)
    ∷ (0x33545844, 74)
    ∷ (0x34545844, 77)
    ∷ (0x35545844, 77)
    ∷ (0x31495441, 80)
    ∷ (0x55344342, 80)
    ∷ (0x53344342, 81)
    ∷ (0x32495441, 83)
    ∷ (0x55354342, 83)
    ∷ (0x53354342, 84)
    ∷ (36, 11)
    ∷ (110, 13)
    ∷ (111, 54)
    ∷ (112, 34)
    ∷ (113, 10)
    ∷ (114, 41)
    ∷ (115, 16)
    ∷ (116, 2)
    ∷ []

abbrev pub format_of_code : ℕ → List (ℕ × ℕ) → ℕ
format_of_code code [] = 0
format_of_code code ((c, format) ∷ rest) = if c == code then format else format_of_code code rest

-- A test of the four masks with the format that it selects.
pub record Masks : Type 0 where
  pub r : ℕ
  pub g : ℕ
  pub b : ℕ
  pub a : ℕ
  pub format : ℕ

abbrev pub matches : DdsPixelFormat → Masks → Bool
matches pf m = pf.r_mask == m.r && pf.g_mask == m.g && pf.b_mask == m.b && pf.a_mask == m.a

abbrev pub first_masks : DdsPixelFormat → List Masks → Option ℕ
first_masks pf [] = none
first_masks pf (m ∷ ms) = if matches pf m then some m.format else first_masks pf ms

abbrev masks : ℕ → ℕ → ℕ → ℕ → ℕ → Masks
masks r g b a format = record { r = r; g = g; b = b; a = a; format = format }

abbrev pub masks_32 : Bool → List Masks
masks_32 has_alpha =
    masks 0xff 0xff00 0xff0000 (if has_alpha then 0xff000000 else 0) 28
    ∷ masks 0xff0000 0xff00 0xff 0xff000000 87
    ∷ masks 0xff0000 0xff00 0xff 0 88
    ∷ masks 0x3ff 0xffc00 0x3ff00000 (if has_alpha then 0xc0000000 else 0) 24
    ∷ masks 0xffff 0xffff0000 0 0 35
    ∷ masks 0xffffffff 0 0 0 41
    ∷ []

abbrev pub masks_16 : List Masks
masks_16 =
    masks 0xf800 0x07e0 0x001f 0 85
    ∷ masks 0x7c00 0x03e0 0x001f 0x8000 86
    ∷ masks 0x0f00 0x00f0 0x000f 0xf000 115
    ∷ []

-- The switch on the bit count; a miss breaks out of it.
abbrev pub rgb_format : DdsPixelFormat → Option ℕ
rgb_format pf =
    if not (has_flag pf.flags 0x40)
    then none
    else if pf.rgb_bit_count == 32
    then first_masks pf (masks_32 (has_flag pf.flags 0x1))
    else if pf.rgb_bit_count == 16
    then first_masks pf masks_16
    else none

abbrev pub luminance_format : DdsPixelFormat → Option ℕ
luminance_format pf =
    if not (has_flag pf.flags 0x20000)
    then none
    else if pf.rgb_bit_count == 8
    then some 61
    else if pf.rgb_bit_count == 16 && has_flag pf.flags 0x1
    then some 49
    else if pf.rgb_bit_count == 16
    then some 56
    else none

abbrev pub or_format : Option ℕ → ℕ → ℕ
or_format (some format) other = format
or_format none other = other

-- `FormatFromLegacy`
unfoldable pub format_from_legacy : DdsPixelFormat → ℕ
format_from_legacy pf =
    if has_flag pf.flags 0x4
    then format_of_code pf.four_cc four_cc_formats
    else or_format (rgb_format pf) (
        or_format (luminance_format pf)
          (if has_flag pf.flags 0x2 && pf.rgb_bit_count == 8 then 65 else 0))

abbrev pub within : ℕ → ℕ → ℕ → Bool
within n lo hi = leb lo n && leb n hi

unfoldable pub block_bytes : ℕ → ℕ
block_bytes format =
    if within format 70 72 || within format 79 81
    then 8
    else if within format 73 78 || within format 82 84 || within format 94 99
    then 16
    else 0

unfoldable pub bits_per_pixel : ℕ → ℕ
bits_per_pixel format =
    if within format 1 4
    then 128
    else if within format 5 8
    then 96
    else if within format 9 22
    then 64
    else if within format 23 47
    then 32
    else if within format 48 59
    then 16
    else if within format 60 65
    then 8
    else if format == 67
    then 32
    else if format == 85 || format == 86 || format == 115
    then 16
    else if within format 87 93
    then 32
    else 0

pub record SurfaceSize : Type 0 where
  pub row_pitch : ℕ
  pub rows : ℕ

abbrev u32 : ℕ → ℕ
u32 n = n % 2 ^ 32

-- A surface in 4x4 blocks of that many bytes.
abbrev pub blocked_surface : ℕ → ℕ → ℕ → SurfaceSize
blocked_surface block width height = record {
  row_pitch = u32 (max 1 (u32 (width + 3) / 4) * block);
  rows = max 1 (u32 (height + 3) / 4);
}

-- A surface in pixels of that many bits.
abbrev pub plain_surface : ℕ → ℕ → ℕ → SurfaceSize
plain_surface bits width height = record {
  row_pitch = u32 (u32 (width * bits) + 7) / 8;
  rows = height;
}

unfoldable pub compute_surface : ℕ → ℕ → ℕ → SurfaceSize
compute_surface format width height =
    if not (block_bytes format == 0)
    then blocked_surface (block_bytes format) width height
    else plain_surface (bits_per_pixel format) width height
