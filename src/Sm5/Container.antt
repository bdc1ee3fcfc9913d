-- ===== src/Sm5/Container.antt =====
-- The DXBC container of src/dxp/sm5/ShaderProgram.hpp and .cpp: the header, a table of offsets and
-- the chunks they point at. Offsets and sizes are `uint32_t`.
pub mod Digest
pub mod Load
pub mod Serialize
pub mod Extents
pub mod Image
pub mod Signed
pub mod ReadBack
pub mod RoundTrip
pub mod Contents
pub mod Overrun
pub mod Report
use direct_xshader_patcher.Base.{
  ℕ, ◌+◌, ◌-◌, ◌%◌, ◌/◌, ◌^◌, ◌==◌, bit_and, List, [], ◌∷◌, length, ◌||◌, Bool, true, false, Option,
  none, some, if◌then◌else◌,
}

pub record DxbcContainerHeader : Type 0 where
  pub signature : ℕ
  pub hash : List ℕ
  pub one : ℕ
  pub total_size_in_bytes : ℕ
  pub chunk_count : ℕ

pub data ChunkKind : Type 0 where
  no_kind shader rdef psio vsio gsio dsio hsio csio sbio stat info flags type_chunk unknown :
      ChunkKind

pub record DxbcChunk : Type 0 where
  pub four_cc : ℕ
  pub kind : ChunkKind
  pub data_bytes : List ℕ
  pub offset_in_container : ℕ

-- The members of `ShaderProgram` that make up the container.
pub record Container : Type 0 where
  pub header : DxbcContainerHeader
  pub chunks : List DxbcChunk

-- `kDxbcContainerSignature`
abbrev pub dxbc_signature : ℕ
dxbc_signature = 0x43425844

unfoldable pub four_cc_to_chunk_kind : ℕ → ChunkKind
four_cc_to_chunk_kind n =
    if n == 0x52444853 || n == 0x58454853
    then ChunkKind.shader
    else if n == 0x46454452
    then ChunkKind.rdef
    else if n == 0x4F495350
    then ChunkKind.psio
    else if n == 0x4F495356
    then ChunkKind.vsio
    else if n == 0x4F495347
    then ChunkKind.gsio
    else if n == 0x4F495344
    then ChunkKind.dsio
    else if n == 0x4F495348
    then ChunkKind.hsio
    else if n == 0x4F495343
    then ChunkKind.csio
    else if n == 0x4F494253
    then ChunkKind.sbio
    else if n == 0x54415453
    then ChunkKind.stat
    else if n == 0x4F464E49
    then ChunkKind.info
    else if n == 0x47414C46
    then ChunkKind.flags
    else if n == 0x45505954
    then ChunkKind.type_chunk
    else ChunkKind.unknown

abbrev pub is_shader : ChunkKind → Bool
is_shader shader = true
is_shader _ = false

abbrev pub u32 : ℕ → ℕ
u32 n = n % 2 ^ 32

-- `(byte_count + 3) & ~3U`
unfoldable pub align_to_dword : ℕ → ℕ
align_to_dword byte_count = bit_and (u32 (byte_count + 3)) (2 ^ 32 - 1 - 3)

-- `GetShaderChunk`
unfoldable pub get_shader_chunk : List DxbcChunk → Option DxbcChunk
get_shader_chunk [] = none
get_shader_chunk (chunk ∷ chunks) =
    let rest = get_shader_chunk chunks in if is_shader chunk.kind then some chunk else rest
