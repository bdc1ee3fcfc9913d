-- ===== src/Tests/Textures.antt =====
-- A DDS file of two luminance pixels, and the surfaces of single formats.
use direct_xshader_patcher.Base.{
  ℕ, ◌-◌, ◌*◌, ◌/◌, ◌^◌, ◌%◌, ◌<◌, List, [], ◌∷◌, ◌++◌, false, ◌≡◌, refl, arith,
}
use direct_xshader_patcher.Dds.{
  DdsPixelFormat, make_four_cc, format_from_legacy, block_bytes, bits_per_pixel, compute_surface,
}
use direct_xshader_patcher.Dds.Load.{ResourceType, ViewType, Shape, DdsImage}

bytes_of : List ℕ → List ℕ
bytes_of [] = []
bytes_of (w ∷ ws) = w % 256 ∷ w / 256 % 256 ∷ w / 65536 % 256 ∷ w / 16777216 % 256 ∷ bytes_of ws

abbrev header : List ℕ
header =
    0x20534444 ∷ 124 ∷ 0 ∷ 1 ∷ 2 ∷ 0 ∷ 0 ∷ 0 ∷ 0 ∷ 0 ∷ 0 ∷ 0 ∷ 0 ∷ 0 ∷ 0 ∷ 0 ∷ 0 ∷ 0 ∷ 0 ∷ 32
    ∷ 0x20000 ∷ 0 ∷ 8 ∷ 0 ∷ 0 ∷ 0 ∷ 0 ∷ 0 ∷ 0 ∷ 0 ∷ 0 ∷ 0 ∷ []

two_pixels : List ℕ
unfolding bytes_of
two_pixels = bytes_of header ++ 7 ∷ 9 ∷ []

abbrev two_shape : Shape
two_shape = record {
  type = ResourceType.texture_2d;
  format = 61;
  width = 2;
  height = 1;
  depth = 1;
  array_size = 1;
  cube = false;
  offset = 128;
}

abbrev two_image : DdsImage
two_image = record {
  type = ResourceType.texture_2d;
  width = 2;
  height = 1;
  depth_or_layers = 1;
  levels = 1;
  format = 61;
  cube_compatible = false;
  view_type = ViewType.view_2d;
  pixels = 7 ∷ 9 ∷ [];
  subresources = (record { data_at = 0; row_pitch = 2; slice_pitch = 2 }) ∷ [];
}

dxt1 : make_four_cc 0x44 0x58 0x54 0x31 ≡ 0x31545844
unfolding make_four_cc
dxt1 = refl

abbrev bgra : DdsPixelFormat
bgra = record {
  flags = 0x41;
  four_cc = 0;
  rgb_bit_count = 32;
  r_mask = 0xff0000;
  g_mask = 0xff00;
  b_mask = 0xff;
  a_mask = 0xff000000;
}

bgra_found : format_from_legacy bgra ≡ 87
unfolding format_from_legacy
bgra_found = refl

plain_87 : block_bytes 87 ≡ 0
unfolding block_bytes
plain_87 = refl

short_row : 5 * bits_per_pixel 87 < 2 ^ 32 - 7
unfolding bits_per_pixel
short_row = omega arith

blocks_71 : block_bytes 71 ≡ 0 → ⊥
unfolding block_bytes
blocks_71 h = omega arith

-- A row of 2^28 pixels of 128 bits takes 2^32 bytes, and is counted as none.
row_wraps : compute_surface 2 (2 ^ 28) 1 ≡ record { row_pitch = 0; rows = 1 }
unfolding compute_surface block_bytes bits_per_pixel
row_wraps = refl
