-- ===== src/Dds/Payload.antt =====
-- The subresources that `LoadDds` hands out stand inside the pixels that it has read.
use direct_xshader_patcher.Base.{
  ℕ, ◌+◌, ◌/◌, max, All, Bool-cases, if◌then◌else◌, inl, inr, ap₂, ◌*◌, ◌^◌, ◌%◌, ◌≤◌, ◌<◌, List,
  [], ◌∷◌, not, ◌==◌, ◌≡◌, refl, ◌∙◌, ap, arith,
}
use direct_xshader_patcher.Dds.{
  block_bytes, bits_per_pixel, blocked_surface, plain_surface, compute_surface,
}
use direct_xshader_patcher.Dds.Load.{
  Shape, Subresource, layers_of, surface_at, depth_at, all_levels, required_bytes, mip_count_of,
}

-- The extents of a level.
abbrev pub width_at : Shape → ℕ → ℕ
width_at s mip = max 1 (s.width / 2 ^ mip)

abbrev pub height_at : Shape → ℕ → ℕ
height_at s mip = max 1 (s.height / 2 ^ mip)

-- What a row really takes, and how many there are, in unbounded numbers: 4x4 blocks that cover the
-- extent, or pixels, whose bits are rounded up to whole bytes.
abbrev real_pitch : ℕ → ℕ → ℕ → ℕ
real_pitch block bits width =
    if not (block == 0) then max 1 ((width + 3) / 4) * block else (width * bits + 7) / 8

abbrev real_rows : ℕ → ℕ → ℕ
real_rows block height = if not (block == 0) then max 1 ((height + 3) / 4) else height

unfoldable pub exact_pitch : Shape → ℕ → ℕ
exact_pitch s mip = real_pitch (block_bytes s.format) (bits_per_pixel s.format) (width_at s mip)

unfoldable pub exact_rows : Shape → ℕ → ℕ
exact_rows s mip = real_rows (block_bytes s.format) (height_at s mip)

unfoldable pub exact_slice : Shape → ℕ → ℕ
unfolding exact_pitch exact_rows
exact_slice s mip = exact_pitch s mip * exact_rows s mip

unfoldable pub level_bytes : Shape → ℕ → ℕ
unfolding exact_slice
level_bytes s mip = exact_slice s mip * depth_at s mip

unfoldable pub total_bytes : Shape → List ℕ → ℕ
unfolding level_bytes
total_bytes s [] = 0
total_bytes s (mip ∷ rest) = level_bytes s mip + total_bytes s rest

-- The extents, the bits of a row, and the bytes of a row and of a slice can be counted with 32 bits.
abbrev pub Fits : Shape → ℕ → Type 0
Fits s mip =
    (width_at s mip + 3 < 2 ^ 32)
    × (height_at s mip + 3 < 2 ^ 32)
    × (width_at s mip * bits_per_pixel s.format + 7 < 2 ^ 32)
    × (exact_pitch s mip < 2 ^ 32)
    × (exact_slice s mip < 2 ^ 32)

-- Each level has a subresource with its real pitches, whose slices end below the limit.
abbrev pub Inside : Shape → ℕ → List ℕ → List Subresource → Type 0
Inside s limit [] [] = Unit
Inside s limit [] (x ∷ xs) = ⊥
Inside s limit (mip ∷ rest) [] = ⊥
Inside s limit (mip ∷ rest) (x ∷ xs) =
    ((x.row_pitch ≡ exact_pitch s mip)
      × (x.slice_pitch ≡ exact_slice s mip)
      × (x.data_at + level_bytes s mip ≤ limit))
    × Inside s limit rest xs

surface-exact :
    (block bits width height : ℕ)
    → width + 3 < 2 ^ 32
    → height + 3 < 2 ^ 32
    → width * bits + 7 < 2 ^ 32
    → real_pitch block bits width < 2 ^ 32
    → let surface =
        if not (block == 0)
        then blocked_surface block width height
        else plain_surface bits width height in
      (surface.row_pitch ≡ real_pitch block bits width) × (surface.rows ≡ real_rows block height)
surface-exact block bits width height wide high whole pitch = elim (Bool-cases (not (block == 0))) [
  | inl blocked ↦
      let small = rw blocked at pitch in
      let same : (width + 3) % 2 ^ 32 ≡ width + 3 = omega (arith, wide) in
      rw (blocked, same) (omega (arith, small), omega (arith, high))
  | inr plain ↦ rw plain (omega (arith, whole), refl)
]

surface_at-exact :
    (s : Shape) (mip : ℕ)
    → Fits s mip
    → ((surface_at s mip).row_pitch ≡ exact_pitch s mip)
      × ((surface_at s mip).rows ≡ exact_rows s mip)
unfolding surface_at compute_surface exact_pitch exact_rows
surface_at-exact s mip (wide, high, bits, pitch, slice) =
    surface-exact (block_bytes s.format) (bits_per_pixel s.format) (width_at s mip)
      (height_at s mip) wide high bits pitch

slice-exact :
    (s : Shape) (mip : ℕ)
    → Fits s mip
    → (surface_at s mip).row_pitch * (surface_at s mip).rows ≡ exact_slice s mip
unfolding exact_slice
slice-exact s mip fits =
    let (pitch, rows) = surface_at-exact s mip fits in ap₂ (λ a b. a * b) pitch rows

cons_total :
    (s : Shape) (mip : ℕ) (rest : List ℕ)
    → total_bytes s (mip ∷ rest) ≡ level_bytes s mip + total_bytes s rest
unfolding total_bytes
cons_total s mip rest = refl

slices-level :
    {n : ℕ} (s : Shape) (mip : ℕ) → n ≡ exact_slice s mip → n * depth_at s mip ≡ level_bytes s mip
unfolding level_bytes
slices-level s mip e = ap (λ t. t * depth_at s mip) e

required_bytes_from :
    (s : Shape) (required : ℕ) (levels : List ℕ)
    → All (Fits s) levels
    → required < 2 ^ 64
    → required_bytes s required levels ≡ (required + total_bytes s levels) % 2 ^ 64
unfolding required_bytes total_bytes
required_bytes_from s required [] fit h = omega arith
required_bytes_from s required (mip ∷ rest) (fits, fit) h =
    let sum = cons_total s mip rest in
    let level = slices-level s mip (slice-exact s mip fits) in
    let taken = (surface_at s mip).row_pitch * (surface_at s mip).rows * depth_at s mip in
    required_bytes_from s ((required + taken % 2 ^ 64) % 2 ^ 64) rest fit (omega arith)
    ∙ omega (arith, sum, level)

-- When the rows and slices of the levels can be counted with 32 bits, the size that the payload is
-- tested against is the sum of the sizes of the levels modulo 2 ^ 64; a file whose levels take a
-- multiple of 2 ^ 64 bytes passes the test with no pixels at all.
pub required_bytes-total :
    (s : Shape) (levels : List ℕ)
    → All (Fits s) levels
    → required_bytes s 0 levels ≡ total_bytes s levels % 2 ^ 64
required_bytes-total s levels fit = required_bytes_from s 0 levels fit (omega arith) ∙ omega arith

abbrev pub levels_of : List ℕ → Shape → List ℕ
levels_of bytes s = all_levels (layers_of s) (mip_count_of bytes)
