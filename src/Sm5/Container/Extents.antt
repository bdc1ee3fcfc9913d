-- ===== src/Sm5/Container/Extents.antt =====
-- The sizes and offsets that `Serialize` sums up in `uint32_t`, without wrap-around.
use direct_xshader_patcher.Base.{
  ℕ, suc, ◌+◌, ◌-◌, ◌*◌, ◌/◌, ◌%◌, ◌^◌, ◌<◌, List, [], ◌∷◌, ◌++◌, length, length-append,
  length-replicate, ◌≡◌, refl, ap, ◌∙◌, arith,
}
use direct_xshader_patcher.Base.Bits.{bit_and_step, bit_and_mask}
use direct_xshader_patcher.Hash.Md5.{little_endian}
use direct_xshader_patcher.Sm5.Bytes.{zeros}
use direct_xshader_patcher.Sm5.Bytes.RoundTrip.{length-little_endian}
use direct_xshader_patcher.Sm5.Container.{DxbcChunk, u32, align_to_dword}
use direct_xshader_patcher.Sm5.Container.Serialize.{
  chunk_extent, total_chunk_data_size, chunk_offsets, header_size, total_size,
}

-- The bytes of a chunk with its head, up to the next multiple of four.
unfoldable pub extent : DxbcChunk → ℕ
extent chunk = (8 + length chunk.data_bytes + 3) / 4 * 4

abbrev pub chunk_image : DxbcChunk → List ℕ
chunk_image chunk =
    little_endian 4 chunk.four_cc
    ++ (little_endian 4 (length chunk.data_bytes)
        ++ (chunk.data_bytes ++ zeros (extent chunk - 8 - length chunk.data_bytes)))

unfoldable pub body : List DxbcChunk → List ℕ
body [] = []
body (chunk ∷ chunks) = chunk_image chunk ++ body chunks

unfoldable pub extents : List DxbcChunk → ℕ
extents [] = 0
extents (chunk ∷ chunks) = extent chunk + extents chunks

-- The size of the container, without wrap-around.
abbrev pub exact_size : List DxbcChunk → ℕ
exact_size chunks = 32 + 4 * length chunks + extents chunks

-- Where each chunk begins.
unfoldable pub exact_offsets : ℕ → List DxbcChunk → List ℕ
exact_offsets at [] = []
exact_offsets at (chunk ∷ chunks) = at ∷ exact_offsets (at + extent chunk) chunks

pub align_to_dword-multiple : (n : ℕ) → n + 3 < 2 ^ 32 → align_to_dword n ≡ (n + 3) / 4 * 4
unfolding align_to_dword
align_to_dword-multiple n fits =
    let x = u32 (n + 3) in
    omega (
      arith,
      bit_and_step x 0xFFFFFFFC,
      bit_and_step (x / 2) 0x7FFFFFFE,
      bit_and_mask 30 (x / 2 / 2),
    )

pub chunk_extent-exact :
    (chunk : DxbcChunk) → extent chunk < 2 ^ 32 → chunk_extent chunk ≡ extent chunk
unfolding chunk_extent extent
chunk_extent-exact chunk fits =
    let n = length chunk.data_bytes in
    let plain : u32 (8 + u32 n) ≡ 8 + n = omega arith in
    ap align_to_dword plain ∙ align_to_dword-multiple (8 + n) (omega arith)

pub total_chunk_data_size-exact :
    (sum : ℕ) (chunks : List DxbcChunk)
    → sum + extents chunks < 2 ^ 32
    → total_chunk_data_size sum chunks ≡ sum + extents chunks
unfolding total_chunk_data_size extents
total_chunk_data_size-exact sum [] fits = omega arith
total_chunk_data_size-exact sum (chunk ∷ chunks) fits =
    let one = chunk_extent-exact chunk (omega arith) in
    let next : u32 (sum + chunk_extent chunk) ≡ sum + extent chunk = omega (arith, one) in
    ap (λ t. total_chunk_data_size t chunks) next
    ∙ total_chunk_data_size-exact (sum + extent chunk) chunks (omega arith)
    ∙ omega arith

pub chunk_offsets-exact :
    (at : ℕ) (chunks : List DxbcChunk)
    → at + extents chunks < 2 ^ 32
    → chunk_offsets at chunks ≡ exact_offsets at chunks
unfolding chunk_offsets exact_offsets extents
chunk_offsets-exact at [] fits = refl
chunk_offsets-exact at (chunk ∷ chunks) fits =
    let one = chunk_extent-exact chunk (omega arith) in
    let next : u32 (at + chunk_extent chunk) ≡ at + extent chunk = omega (arith, one) in
    ap (λ t. at ∷ chunk_offsets t chunks) next
    ∙ ap (λ t. at ∷ t) (chunk_offsets-exact (at + extent chunk) chunks (omega arith))

pub length-exact_offsets :
    (at : ℕ) (chunks : List DxbcChunk) → length (exact_offsets at chunks) ≡ length chunks
unfolding exact_offsets
length-exact_offsets at [] = refl
length-exact_offsets at (chunk ∷ chunks) = ap suc (length-exact_offsets (at + extent chunk) chunks)

pub length-chunk_image : (chunk : DxbcChunk) → length (chunk_image chunk) ≡ extent chunk
unfolding extent
length-chunk_image chunk =
    let n = length chunk.data_bytes in
    let size = little_endian 4 n in
    let pad = zeros (extent chunk - 8 - n) in
    omega (
      arith,
      length-append (little_endian 4 chunk.four_cc) (size ++ (chunk.data_bytes ++ pad)),
      length-append size (chunk.data_bytes ++ pad),
      length-append chunk.data_bytes pad,
      length-replicate {A = ℕ} (extent chunk - 8 - n) 0,
      length-little_endian chunk.four_cc,
      length-little_endian n,
    )

pub length-body : (chunks : List DxbcChunk) → length (body chunks) ≡ extents chunks
unfolding body extents
length-body [] = refl
length-body (chunk ∷ chunks) = omega (
  arith,
  length-append (chunk_image chunk) (body chunks),
  length-chunk_image chunk,
  length-body chunks,
)

pub extents-multiple : (chunks : List DxbcChunk) → extents chunks % 4 ≡ 0
unfolding extents extent
extents-multiple [] = refl
extents-multiple (chunk ∷ chunks) = omega (arith, extents-multiple chunks)

pub total_size-exact :
    (chunks : List DxbcChunk) → exact_size chunks < 2 ^ 32 → total_size chunks ≡ exact_size chunks
unfolding total_size
total_size-exact chunks fits =
    let multiple = extents-multiple chunks in
    let sum = total_chunk_data_size-exact 0 chunks (omega arith) in
    let plain : u32 (header_size chunks + total_chunk_data_size 0 chunks) ≡ exact_size chunks =
      omega (arith, sum) in
    ap align_to_dword plain
    ∙ align_to_dword-multiple (exact_size chunks) (omega (arith, multiple))
    ∙ omega (arith, multiple)

pub header_size-exact :
    (chunks : List DxbcChunk)
    → exact_size chunks < 2 ^ 32
    → header_size chunks ≡ 32 + 4 * length chunks
header_size-exact chunks fits = omega arith
