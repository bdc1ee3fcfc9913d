-- ===== src/Dds/Load.antt =====
-- `LoadDds` on the bytes of the file. The resource description is a type of ReShade: the model has
-- the arguments that the code passes to it, with their casts to `uint16_t`.
use direct_xshader_patcher.Base.{
  ℕ, zero, suc, ◌+◌, ◌-◌, ◌*◌, ◌/◌, ◌^◌, ◌%◌, List, [], ◌∷◌, ◌++◌, Bool, true, false, not, ◌&&◌,
  ◌||◌, length, take, drop, get_or, ltb, ◌==◌, if◌then◌else◌, max, Result, ok, err, ◌>>=◌, ◌>>◌,
  require,
}
use direct_xshader_patcher.Dds.{
  make_four_cc, DdsPixelFormat, has_flag, format_from_legacy, block_bytes, bits_per_pixel,
  SurfaceSize, compute_surface,
}

pub data ResourceType : Type 0 where
  texture_1d texture_2d texture_3d : ResourceType

pub data ViewType : Type 0 where
  view_1d view_1d_array view_2d view_2d_array view_3d view_cube view_cube_array : ViewType

pub data DdsError : Type 0 where
  file_too_small not_dds truncated_dx10 bad_dimension texture_3d_array : DdsError
  bad_format : ℕ → DdsError
  truncated_pixels : ℕ → ℕ → DdsError

-- What is decided before the payload is read.
pub record Shape : Type 0 where
  pub type : ResourceType
  pub format : ℕ
  pub width : ℕ
  pub height : ℕ
  pub depth : ℕ
  pub array_size : ℕ
  pub cube : Bool
  pub offset : ℕ

-- `data` is a position in `pixels`.
pub record Subresource : Type 0 where
  pub data_at : ℕ
  pub row_pitch : ℕ
  pub slice_pitch : ℕ

pub record DdsImage : Type 0 where
  pub type : ResourceType
  pub width : ℕ
  pub height : ℕ
  pub depth_or_layers : ℕ
  pub levels : ℕ
  pub format : ℕ
  pub cube_compatible : Bool
  pub view_type : ViewType
  pub pixels : List ℕ
  pub subresources : List Subresource

abbrev u64 : ℕ → ℕ
u64 n = n % 2 ^ 64

-- The little-endian word at an offset that the size tests have covered.
unfoldable pub read_word : List ℕ → ℕ → ℕ
read_word bytes at =
    get_or bytes at 0
    + get_or bytes (at + 1) 0 * 2 ^ 8
    + get_or bytes (at + 2) 0 * 2 ^ 16
    + get_or bytes (at + 3) 0 * 2 ^ 24

-- The words of `DdsHeader`, which stands behind the magic number.
unfoldable pub header_word : List ℕ → ℕ → ℕ
unfolding read_word
header_word bytes i = read_word bytes (4 + 4 * i)

unfoldable pub pixel_format : List ℕ → DdsPixelFormat
unfolding header_word
pixel_format bytes = record {
  flags = header_word bytes 19;
  four_cc = header_word bytes 20;
  rgb_bit_count = header_word bytes 21;
  r_mask = header_word bytes 22;
  g_mask = header_word bytes 23;
  b_mask = header_word bytes 24;
  a_mask = header_word bytes 25;
}

abbrev pub resource_type_of : ℕ → Result DdsError ResourceType
resource_type_of n =
    if n == 2
    then ok ResourceType.texture_1d
    else if n == 3
    then ok ResourceType.texture_2d
    else if n == 4
    then ok ResourceType.texture_3d
    else err bad_dimension

abbrev pub is_3d : ResourceType → Bool
is_3d texture_3d = true
is_3d _ = false

-- The branch for the extended header, at byte 128.
unfoldable pub dx10_shape : List ℕ → Result DdsError Shape
unfolding header_word
dx10_shape bytes = do
  require (not (ltb (length bytes) (128 + 20))) truncated_dx10
  type ← resource_type_of (read_word bytes 132)
  ok (record {
    type = type;
    format = read_word bytes 128;
    width = max 1 (header_word bytes 3);
    height = max 1 (header_word bytes 2);
    depth = if is_3d type then max 1 (header_word bytes 5) else 1;
    array_size = max 1 (read_word bytes 140);
    cube = has_flag (read_word bytes 136) 0x4;
    offset = 148;
  })

unfoldable pub legacy_shape : List ℕ → Shape
unfolding header_word pixel_format format_from_legacy
legacy_shape bytes =
    let volume =
      has_flag (header_word bytes 27) 0x200000 && has_flag (header_word bytes 1) 0x800000 in
    record {
      type = if volume then ResourceType.texture_3d else ResourceType.texture_2d;
      format = format_from_legacy (pixel_format bytes);
      width = max 1 (header_word bytes 3);
      height = max 1 (header_word bytes 2);
      depth = if volume then max 1 (header_word bytes 5) else 1;
      array_size = 1;
      cube = not volume && has_flag (header_word bytes 27) 0x200;
      offset = 128;
    }

unfoldable pub read_shape : List ℕ → Result DdsError Shape
unfolding dx10_shape legacy_shape pixel_format make_four_cc
read_shape bytes =
    let pf = pixel_format bytes in
    if has_flag pf.flags 0x4 && pf.four_cc == make_four_cc 0x44 0x58 0x31 0x30
    then dx10_shape bytes
    else ok (legacy_shape bytes)

abbrev pub layers_of : Shape → ℕ
layers_of s = if s.cube then s.array_size * 6 % 2 ^ 32 else s.array_size

-- `ComputeSurface` at one level, and the depth there. `>>` by 32 or more is undefined in C++; here
-- it gives 0.
unfoldable pub surface_at : Shape → ℕ → SurfaceSize
unfolding compute_surface
surface_at s mip = compute_surface s.format (max 1 (s.width / 2 ^ mip)) (max 1 (s.height / 2 ^ mip))

abbrev pub depth_at : Shape → ℕ → ℕ
depth_at s mip = max 1 (s.depth / 2 ^ mip)

-- The levels in the order of the two nested loops.
unfoldable pub mip_levels : ℕ → ℕ → List ℕ
mip_levels mip zero = []
mip_levels mip (suc left) = mip ∷ mip_levels (mip + 1) left

unfoldable pub all_levels : ℕ → ℕ → List ℕ
unfolding mip_levels
all_levels zero mip_count = []
all_levels (suc layers) mip_count = mip_levels 0 mip_count ++ all_levels layers mip_count

-- The first pair of loops: the bytes that the file must hold, in `size_t`.
unfoldable pub required_bytes : Shape → ℕ → List ℕ → ℕ
unfolding surface_at
required_bytes s required [] = required
required_bytes s required (mip ∷ rest) =
    let surface = surface_at s mip in
    required_bytes s (u64 (required + u64 (surface.row_pitch * surface.rows * depth_at s mip))) rest

-- The second pair of loops; a slice pitch is a `uint32_t`.
unfoldable pub place_levels : Shape → ℕ → List ℕ → List Subresource
unfolding surface_at
place_levels s cursor [] = []
place_levels s cursor (mip ∷ rest) =
    let surface = surface_at s mip in
    let slice = surface.row_pitch * surface.rows % 2 ^ 32 in
    (record { data_at = cursor; row_pitch = surface.row_pitch; slice_pitch = slice })
    ∷ place_levels s (u64 (cursor + u64 (slice * depth_at s mip))) rest

abbrev pub view_of : Shape → ViewType
view_of s =
    if is_3d s.type
    then ViewType.view_3d
    else if s.cube
    then (if ltb 1 s.array_size then ViewType.view_cube_array else ViewType.view_cube)
    else elim (s.type) [
      | texture_1d ↦ if ltb 1 (layers_of s) then ViewType.view_1d_array else ViewType.view_1d
      | _ ↦ if ltb 1 (layers_of s) then ViewType.view_2d_array else ViewType.view_2d
    ]

unfoldable pub mip_count_of : List ℕ → ℕ
unfolding header_word
mip_count_of bytes =
    if has_flag (header_word bytes 1) 0x20000 then max 1 (header_word bytes 6) else 1

-- The payload: its size is tested before it is cut into subresources.
unfoldable pub load_payload : List ℕ → Shape → ℕ → Result DdsError DdsImage
unfolding required_bytes place_levels all_levels
load_payload bytes s mip_count = do
  let levels = all_levels (layers_of s) mip_count
  let required = required_bytes s 0 levels
  let held = length bytes - s.offset
  require (not (ltb held required)) (truncated_pixels held required)
  ok (record {
    type = s.type;
    width = s.width;
    height = s.height;
    depth_or_layers = (if is_3d s.type then s.depth else layers_of s) % 2 ^ 16;
    levels = mip_count % 2 ^ 16;
    format = s.format;
    cube_compatible = s.cube;
    view_type = view_of s;
    pixels = take required (drop s.offset bytes);
    subresources = place_levels s 0 levels;
  })

unfoldable pub load_dds : List ℕ → Result DdsError DdsImage
unfolding read_word make_four_cc read_shape block_bytes bits_per_pixel load_payload mip_count_of
load_dds bytes = do
  require (not (ltb (length bytes) (4 + 124))) file_too_small
  require (read_word bytes 0 == make_four_cc 0x44 0x44 0x53 0x20) not_dds
  s ← read_shape bytes
  require (not (s.format == 0 || (block_bytes s.format == 0 && bits_per_pixel s.format == 0)))
      (bad_format s.format)
  require (not (is_3d s.type && not (layers_of s == 1))) texture_3d_array
  load_payload bytes s (mip_count_of bytes)
