-- ===== src/Sm5/Container/Serialize.antt =====
-- `ShaderProgram::Serialize` and `BuildReport` of src/dxp/sm5/ShaderProgram.cpp. The shader's tokens,
-- which `SerializeBitcode` encodes, are an argument.
use direct_xshader_patcher.Base.{
  ℕ, ◌+◌, ◌*◌, List, [], ◌∷◌, length, take, drop, is_empty, not, ltb, ◌==◌, Result, ok, ◌>>=◌, ◌>>◌,
  require, map_err, if◌then◌else◌,
}
use direct_xshader_patcher.Sm5.Bytes.{CopyError, zeros, write_bytes, write_word, write_words}
use direct_xshader_patcher.Sm5.Container.{
  DxbcContainerHeader, DxbcChunk, Container, is_shader, u32, align_to_dword,
}
use direct_xshader_patcher.Sm5.Container.Digest.{compute_dxbc_hash}

pub data SaveError : Type 0 where
  empty_container : SaveError
  bad_copy : CopyError → SaveError

-- `shader_chunk->data = shader_bytecode` for the first shader chunk.
unfoldable pub set_shader_data : List ℕ → List DxbcChunk → List DxbcChunk
set_shader_data bytecode [] = []
set_shader_data bytecode (chunk ∷ chunks) =
    let rest = set_shader_data bytecode chunks in
    if is_shader chunk.kind then record chunk { data_bytes = bytecode } ∷ chunks else chunk ∷ rest

-- The bytes that a chunk takes, its head of 8 bytes included.
unfoldable pub chunk_extent : DxbcChunk → ℕ
unfolding align_to_dword
chunk_extent chunk = align_to_dword (u32 (8 + u32 (length chunk.data_bytes)))

unfoldable pub total_chunk_data_size : ℕ → List DxbcChunk → ℕ
unfolding chunk_extent
total_chunk_data_size sum [] = sum
total_chunk_data_size sum (chunk ∷ chunks) =
    total_chunk_data_size (u32 (sum + chunk_extent chunk)) chunks

-- `current_offset` before each chunk.
unfoldable pub chunk_offsets : ℕ → List DxbcChunk → List ℕ
unfolding chunk_extent
chunk_offsets current_offset [] = []
chunk_offsets current_offset (chunk ∷ chunks) =
    current_offset ∷ chunk_offsets (u32 (current_offset + chunk_extent chunk)) chunks

unfoldable pub write_chunk : List ℕ → ℕ → DxbcChunk → Result CopyError (List ℕ)
unfolding write_bytes write_word
write_chunk out at chunk = do
  let size = u32 (length chunk.data_bytes)
  named ← write_word out at chunk.four_cc
  sized ← write_word named (u32 (at + 4)) size
  if ltb 0 size then write_bytes sized (u32 (at + 8)) (take size chunk.data_bytes) else ok sized

unfoldable pub write_chunks : List ℕ → List ℕ → List DxbcChunk → Result CopyError (List ℕ)
unfolding write_chunk
write_chunks out [] chunks = ok out
write_chunks out (at ∷ offsets) [] = ok out
write_chunks out (at ∷ offsets) (chunk ∷ chunks) = do
  next ← write_chunk out at chunk
  write_chunks next offsets chunks

abbrev pub header_size : List DxbcChunk → ℕ
header_size chunks = u32 (32 + u32 (u32 (length chunks) * 4))

unfoldable pub total_size : List DxbcChunk → ℕ
unfolding align_to_dword total_chunk_data_size
total_size chunks = align_to_dword (u32 (header_size chunks + total_chunk_data_size 0 chunks))

-- The words of the header, with zeros in place of the hash.
abbrev pub header_words : DxbcContainerHeader → List DxbcChunk → List ℕ
header_words header chunks =
    header.signature
    ∷ 0
    ∷ 0
    ∷ 0
    ∷ 0
    ∷ (if header.one == 0 then 1 else header.one)
    ∷ total_size chunks
    ∷ u32 (length chunks)
    ∷ []

-- All copies into the buffer of zeros, but for the hash.
unfoldable pub write_container : DxbcContainerHeader → List DxbcChunk → Result CopyError (List ℕ)
unfolding total_size chunk_offsets write_words write_chunks
write_container header chunks = do
  let offsets = chunk_offsets (header_size chunks) chunks
  headed ← write_words (zeros (total_size chunks)) 0 (header_words header chunks)
  tabled ← write_words headed 32 (take (u32 (length chunks)) offsets)
  write_chunks tabled offsets chunks

-- The hash covers what follows it.
unfoldable pub write_hash : List ℕ → Result CopyError (List ℕ)
unfolding write_bytes compute_dxbc_hash
write_hash out = write_bytes out 4 (compute_dxbc_hash (drop 20 out))

unfoldable pub serialize : Container → List ℕ → Result SaveError (List ℕ)
unfolding set_shader_data write_container write_hash
serialize container bytecode = do
  require (not (is_empty container.chunks)) empty_container
  let chunks = set_shader_data bytecode container.chunks
  out ← map_err bad_copy (write_container container.header chunks)
  map_err bad_copy (write_hash out)
