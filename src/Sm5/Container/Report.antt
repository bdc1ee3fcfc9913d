-- ===== src/Sm5/Container/Report.antt =====
-- `ShaderProgram::BuildReport` of src/dxp/sm5/ShaderProgram.cpp. Texts are lists of character codes.
use direct_xshader_patcher.Base.{
  ℕ, ◌/◌, ◌%◌, ◌^◌, List, [], ◌∷◌, map, length, ltb, ok, err, if◌then◌else◌,
}
use direct_xshader_patcher.Sm5.Container.{DxbcChunk, Container, u32}
use direct_xshader_patcher.Sm5.Container.Digest.{dxbc_hash_to_hex}
use direct_xshader_patcher.Sm5.Container.Load.{read_header}
use direct_xshader_patcher.Sm5.Container.Serialize.{serialize, set_shader_data}

pub record PatchChunkReport : Type 0 where
  pub id : List ℕ
  pub four_cc : ℕ
  pub offset_in_container : ℕ
  pub size_in_bytes : ℕ

-- `format` is "DXBC" in every report and is left out.
pub record PatchContainerReport : Type 0 where
  pub total_size_in_bytes : ℕ
  pub hash_hex : List ℕ
  pub chunks : List PatchChunkReport

abbrev pub four_cc_to_string : ℕ → List ℕ
four_cc_to_string four_cc =
    four_cc % 2 ^ 8
    ∷ four_cc / 2 ^ 8 % 2 ^ 8
    ∷ four_cc / 2 ^ 16 % 2 ^ 8
    ∷ four_cc / 2 ^ 24 % 2 ^ 8
    ∷ []

abbrev pub chunk_report : DxbcChunk → PatchChunkReport
chunk_report chunk = record {
  id = four_cc_to_string chunk.four_cc;
  four_cc = chunk.four_cc;
  offset_in_container = chunk.offset_in_container;
  size_in_bytes = u32 (length chunk.data_bytes);
}

abbrev pub empty_report : PatchContainerReport
empty_report = record { total_size_in_bytes = 0; hash_hex = []; chunks = [] }

-- `Serialize` has replaced the shader's data when the chunks are listed.
unfoldable pub build_report : Container → List ℕ → PatchContainerReport
unfolding serialize read_header dxbc_hash_to_hex set_shader_data
build_report container bytecode = elim (serialize container bytecode) [
  | err e ↦ empty_report
  | ok bytes ↦ if ltb (length bytes) 32 then empty_report else elim (read_header bytes) [
    | err e ↦ empty_report
    | ok header ↦ record {
      total_size_in_bytes = header.total_size_in_bytes;
      hash_hex = dxbc_hash_to_hex header.hash;
      chunks = map chunk_report (set_shader_data bytecode container.chunks);
    }
  ]
]
