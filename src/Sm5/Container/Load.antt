-- ===== src/Sm5/Container/Load.antt =====
-- `ShaderProgram::FromBytes` of src/dxp/sm5/ShaderProgram.cpp up to the shader's tokens.
use direct_xshader_patcher.Base.{
  ℕ, ◌+◌, ◌*◌, List, [], ◌∷◌, length, Option, none, some, true, false, not, ltb, leb, ◌==◌, Result,
  ok, ◌>>=◌, ◌>>◌, require, map_err, if◌then◌else◌,
}
use direct_xshader_patcher.Sm5.Bytes.{CopyError, read_bytes, read_word, read_words}
use direct_xshader_patcher.Sm5.Container.{
  DxbcContainerHeader, DxbcChunk, Container, dxbc_signature, four_cc_to_chunk_kind, u32,
}

pub data LoadError : Type 0 where
  container_too_small chunk_table_too_long : LoadError
  invalid_signature : ℕ → LoadError
  byte_count_mismatch : ℕ → ℕ → LoadError
  bad_copy : CopyError → LoadError

-- `std::ranges::sort`
unfoldable pub insert_sorted : ℕ → List ℕ → List ℕ
insert_sorted x [] = x ∷ []
insert_sorted x (y ∷ ys) = let rest = insert_sorted x ys in if leb x y then x ∷ y ∷ ys else y ∷ rest

unfoldable pub sort : List ℕ → List ℕ
unfolding insert_sorted
sort [] = []
sort (x ∷ xs) = insert_sorted x (sort xs)

unfoldable pub read_header : List ℕ → Result CopyError DxbcContainerHeader
unfolding read_word read_words
read_header bytes = do
  signature ← read_word bytes 0
  hash ← read_words bytes 4 4
  one ← read_word bytes 20
  total ← read_word bytes 24
  count ← read_word bytes 28
  ok (record {
    signature = signature;
    hash = hash;
    one = one;
    total_size_in_bytes = total;
    chunk_count = count;
  })

-- `chunk_offset + 8` and `chunk_offset + 4` are sums of `uint32_t`; the second test is on `size_t`.
unfoldable pub read_chunk : List ℕ → ℕ → Result CopyError (Option DxbcChunk)
unfolding read_word read_bytes four_cc_to_chunk_kind
read_chunk bytes chunk_offset = elim (ltb (length bytes) (u32 (chunk_offset + 8))) [
  | true ↦ ok none
  | false ↦ do
    four_cc ← read_word bytes chunk_offset
    chunk_size ← read_word bytes (u32 (chunk_offset + 4))
    elim (ltb (length bytes) (chunk_offset + 8 + chunk_size)) [
      | true ↦ ok none
      | false ↦ do
        contents ←
            (if ltb 0 chunk_size
              then read_bytes bytes (u32 (chunk_offset + 8)) chunk_size
              else ok [])
        let chunk : DxbcChunk = record {
          four_cc = four_cc;
          kind = four_cc_to_chunk_kind four_cc;
          data_bytes = contents;
          offset_in_container = chunk_offset;
        }
        ok (some chunk)
    ]
]

-- `chunks.push_back`, or nothing after a `continue`.
abbrev pub push_found : Option DxbcChunk → List DxbcChunk → List DxbcChunk
push_found none chunks = chunks
push_found (some chunk) chunks = chunk ∷ chunks

unfoldable pub read_chunks : List ℕ → List ℕ → Result CopyError (List DxbcChunk)
unfolding read_chunk
read_chunks bytes [] = ok []
read_chunks bytes (chunk_offset ∷ offsets) = do
  found ← read_chunk bytes chunk_offset
  chunks ← read_chunks bytes offsets
  ok (push_found found chunks)

-- The table of `chunk_count` offsets, which stands behind the header.
unfoldable pub chunk_table : List ℕ → ℕ → Result CopyError (List ℕ)
unfolding read_words
chunk_table bytes chunk_count = read_words bytes 32 chunk_count

unfoldable pub from_bytes : List ℕ → Result LoadError Container
unfolding read_header chunk_table read_chunks sort
from_bytes bytes = do
  require (not (ltb (length bytes) 32)) container_too_small
  header ← map_err bad_copy (read_header bytes)
  require (header.signature == dxbc_signature) (invalid_signature header.signature)
  require (header.total_size_in_bytes == length bytes)
      (byte_count_mismatch header.total_size_in_bytes (length bytes))
  require (not (ltb (length bytes) (32 + header.chunk_count * 4))) chunk_table_too_long
  offsets ← map_err bad_copy (chunk_table bytes header.chunk_count)
  chunks ← map_err bad_copy (read_chunks bytes (sort offsets))
  ok (record { header = header; chunks = chunks })
