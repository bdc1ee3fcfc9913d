-- ===== src/Tests/Containers.antt =====
-- Containers of src/dxp/sm5/ShaderProgram.cpp with few chunks.
use direct_xshader_patcher.Base.{ℕ, List, [], ◌∷◌, ◌++◌, replicate, ok, err, ◌≡◌, refl, arith}
use direct_xshader_patcher.Sm5.Bytes.{CopyError, read_word, read_bytes}
use direct_xshader_patcher.Sm5.Container.{
  ChunkKind, DxbcContainerHeader, DxbcChunk, Container, dxbc_signature, four_cc_to_chunk_kind,
}
use direct_xshader_patcher.Sm5.Container.Digest.{compute_dxbc_hash}
use direct_xshader_patcher.Sm5.Container.Digest.Reference.{
  reference_dxbc_hash, compute_dxbc_hash-reference,
}
use direct_xshader_patcher.Sm5.Container.Load.{bad_copy, sort, from_bytes}
use direct_xshader_patcher.Sm5.Container.Serialize.{serialize, set_shader_data}
use direct_xshader_patcher.Sm5.Container.Extents.{extent, extents}
use direct_xshader_patcher.Sm5.Container.RoundTrip.{reloaded, serialize-from_bytes}
use direct_xshader_patcher.Sm5.Container.Contents.{Admitted, from_bytes-chunks_at}
use direct_xshader_patcher.Sm5.Container.Overrun.{from_bytes-overrun}

-- 60 bytes, so that the counts take a block of their own, and 3 bytes, where they do not.
abbrev sixty : List ℕ
sixty = replicate 60 0x61

compute_dxbc_hash-reference_example : compute_dxbc_hash sixty ≡ reference_dxbc_hash sixty
compute_dxbc_hash-reference_example = compute_dxbc_hash-reference sixty

abbrev header : DxbcContainerHeader
header = record {
  signature = dxbc_signature;
  hash = 0 ∷ 0 ∷ 0 ∷ 0 ∷ [];
  one = 1;
  total_size_in_bytes = 46;
  chunk_count = 1;
}

-- A chunk of statistics and the shader, with two data bytes each.
abbrev statistics : DxbcChunk
statistics = record {
  four_cc = 0x54415453;
  kind = ChunkKind.stat;
  data_bytes = 7 ∷ 8 ∷ [];
  offset_in_container = 36;
}

abbrev shader : DxbcChunk
shader = record {
  four_cc = 0x58454853;
  kind = ChunkKind.shader;
  data_bytes = 9 ∷ 9 ∷ [];
  offset_in_container = 52;
}

abbrev two_chunks : Container
two_chunks = record { header = header; chunks = statistics ∷ shader ∷ [] }

-- The tokens that replace the shader's.
abbrev tokens : List ℕ
tokens = 0x50 ∷ 0 ∷ 0 ∷ 0 ∷ 2 ∷ 0 ∷ 0 ∷ 0 ∷ []

tokens_replaced :
    set_shader_data tokens two_chunks.chunks
    ≡ statistics ∷ record shader { data_bytes = tokens } ∷ []
unfolding set_shader_data
tokens_replaced = refl

serialize-from_bytes_example :
    (bytes : List ℕ) × (serialize two_chunks tokens ≡ ok bytes)
    × (from_bytes bytes ≡ ok (reloaded header (set_shader_data tokens two_chunks.chunks)))
unfolding set_shader_data extents extent
serialize-from_bytes_example =
    serialize-from_bytes two_chunks tokens refl refl (omega arith) (omega arith, (omega arith, tt))
      (omega arith)

-- The same statistics in a container of its own.
abbrev one_chunk : List ℕ
one_chunk =
    0x44
    ∷ 0x58
    ∷ 0x42
    ∷ 0x43
    ∷ (replicate 16 0
        ++ (1 ∷ 0 ∷ 0 ∷ 0 ∷ 46 ∷ 0 ∷ 0 ∷ 0 ∷ 1 ∷ 0 ∷ 0 ∷ 0 ∷ 36 ∷ 0 ∷ 0 ∷ 0 ∷ 0x53 ∷ 0x54 ∷ 0x41
            ∷ 0x54 ∷ 2 ∷ 0 ∷ 0 ∷ 0 ∷ 7 ∷ 8 ∷ []))

one_chunk_loaded : from_bytes one_chunk ≡ ok (record { header = header; chunks = statistics ∷ [] })
unfolding from_bytes read_word read_bytes
one_chunk_loaded = refl

-- Of two entries, one has the chunk of statistics, and the head of one counts more than there is.
abbrev one_cut : List ℕ
one_cut =
    0x44
    ∷ 0x58
    ∷ 0x42
    ∷ 0x43
    ∷ (replicate 16 0
        ++ (1 ∷ 0 ∷ 0 ∷ 0 ∷ 58 ∷ 0 ∷ 0 ∷ 0 ∷ 2 ∷ 0 ∷ 0 ∷ 0 ∷ 50 ∷ 0 ∷ 0 ∷ 0 ∷ 40 ∷ 0 ∷ 0 ∷ 0 ∷ 0x53
            ∷ 0x54 ∷ 0x41 ∷ 0x54 ∷ 2 ∷ 0 ∷ 0 ∷ 0 ∷ 7 ∷ 8 ∷ 0x53 ∷ 0x48 ∷ 0x45 ∷ 0x58 ∷ 1 ∷ 0 ∷ 0 ∷ 0
            ∷ []))

abbrev one_cut_header : DxbcContainerHeader
one_cut_header = record header { total_size_in_bytes = 58; chunk_count = 2 }

one_cut-Admitted : Admitted one_cut one_cut_header (50 ∷ 40 ∷ [])
unfolding from_bytes read_word read_bytes
one_cut-Admitted = (omega arith, refl, refl, refl, omega arith, refl)

from_bytes-chunks_at_example :
    from_bytes one_cut
    ≡ ok (record {
      header = one_cut_header;
      chunks = record statistics { offset_in_container = 40 } ∷ [];
    })
unfolding sort four_cc_to_chunk_kind
from_bytes-chunks_at_example =
    from_bytes-chunks_at one_cut (50 ∷ 40 ∷ []) one_cut_header one_cut-Admitted refl

-- A table with the entry 0xfffffffc.
abbrev wrapping : List ℕ
wrapping =
    0x44
    ∷ 0x58
    ∷ 0x42
    ∷ 0x43
    ∷ (replicate 16 0
        ++ (1 ∷ 0 ∷ 0 ∷ 0 ∷ 36 ∷ 0 ∷ 0 ∷ 0 ∷ 1 ∷ 0 ∷ 0 ∷ 0 ∷ 0xfc ∷ 0xff ∷ 0xff ∷ 0xff ∷ []))

abbrev wrapping_header : DxbcContainerHeader
wrapping_header = record header { total_size_in_bytes = 36 }

wrapping-Admitted : Admitted wrapping wrapping_header (0xfffffffc ∷ [])
unfolding from_bytes read_word read_bytes
wrapping-Admitted = (omega arith, refl, refl, refl, omega arith, refl)

from_bytes-overrun_example : from_bytes wrapping ≡ err (bad_copy CopyError.undefined_read)
from_bytes-overrun_example =
    from_bytes-overrun wrapping (0xfffffffc ∷ []) wrapping_header wrapping-Admitted (omega arith)
      (omega arith, tt) refl
