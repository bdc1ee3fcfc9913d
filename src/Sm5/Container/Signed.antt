-- ===== src/Sm5/Container/Signed.antt =====
-- The serialized container with its hash, written out as one list.
use direct_xshader_patcher.Base.{
  drop, drop_exact, is_empty, ◌==◌, ℕ, ◌+◌, ◌*◌, ◌^◌, ◌<◌, List, [], ◌∷◌, ◌++◌, length, false, ok,
  if◌then◌else◌, length-append, append_assoc, ◌≡◌, refl, sym, ap, ◌∙◌, arith,
}
use direct_xshader_patcher.Hash.Md5.{little_endian}
use direct_xshader_patcher.Sm5.Bytes.{zeros, write_bytes}
use direct_xshader_patcher.Sm5.Bytes.RoundTrip.{
  write_bytes-at, length-little_endian, word_bytes, length-word_bytes,
}
use direct_xshader_patcher.Sm5.Container.{Container, DxbcContainerHeader, DxbcChunk, u32}
use direct_xshader_patcher.Sm5.Container.Serialize.{write_hash, set_shader_data, serialize}
use direct_xshader_patcher.Sm5.Container.Serialize.{total_size}
use direct_xshader_patcher.Sm5.Container.Digest.{compute_dxbc_hash}
use direct_xshader_patcher.Sm5.Container.Digest.Reference.{
  state_words, dxbc_state, reference_dxbc_hash, compute_dxbc_hash-reference,
}
use direct_xshader_patcher.Sm5.Container.Extents.{body, exact_size, exact_offsets}
use direct_xshader_patcher.Sm5.Container.Image.{image, write_container-image}

-- The words behind the hash.
abbrev pub tail_words : ℕ → ℕ → ℕ → List ℕ
tail_words one total count = one ∷ total ∷ count ∷ []

abbrev pub saved_one : DxbcContainerHeader → ℕ
saved_one header = if header.one == 0 then 1 else header.one

-- What the hash is of.
unfoldable pub hashed_part : DxbcContainerHeader → List DxbcChunk → List ℕ
unfolding body exact_offsets
hashed_part header chunks =
    word_bytes (tail_words (saved_one header) (total_size chunks) (u32 (length chunks)))
    ++ (word_bytes (exact_offsets (32 + 4 * length chunks) chunks) ++ body chunks)

unfoldable pub signed_image : DxbcContainerHeader → List DxbcChunk → List ℕ
unfolding hashed_part little_endian
signed_image header chunks =
    let part = hashed_part header chunks in
    little_endian 4 header.signature ++ (word_bytes (state_words (dxbc_state part)) ++ part)

image-parts :
    (header : DxbcContainerHeader) (chunks : List DxbcChunk)
    → image header chunks
      ≡ little_endian 4 header.signature ++ (zeros 16 ++ hashed_part header chunks)
unfolding image hashed_part little_endian
image-parts header chunks = refl

compute_dxbc_hash-words :
    (bytes : List ℕ) → compute_dxbc_hash bytes ≡ word_bytes (state_words (dxbc_state bytes))
unfolding reference_dxbc_hash little_endian
compute_dxbc_hash-words bytes = compute_dxbc_hash-reference bytes

write_hash-signed :
    (header : DxbcContainerHeader) (chunks : List DxbcChunk)
    → write_hash (image header chunks) ≡ ok (signed_image header chunks)
unfolding write_hash signed_image
write_hash-signed header chunks =
    let part = hashed_part header chunks in
    let s = little_endian 4 header.signature in
    let hash = word_bytes (state_words (dxbc_state part)) in
    let four = length-little_endian header.signature in
    let behind : drop 20 (s ++ (zeros 16 ++ part)) ≡ part =
      ap (drop 20) (sym (append_assoc s (zeros 16) part))
      ∙ drop_exact 20 (s ++ zeros 16) part (omega (arith, length-append s (zeros 16), four)) in
    let digest : compute_dxbc_hash (drop 20 (s ++ (zeros 16 ++ part))) ≡ hash =
      ap compute_dxbc_hash behind ∙ compute_dxbc_hash-words part in
    ap write_hash (image-parts header chunks)
    ∙ ap (write_bytes (s ++ (zeros 16 ++ part)) 4) digest
    ∙ write_bytes-at s (zeros 16) part hash 4 four
        (omega (arith, length-word_bytes (state_words (dxbc_state part))))

-- `Serialize` of a container that is not too large writes its image, hash included.
pub serialize-signed :
    (container : Container) (bytecode : List ℕ)
    → is_empty container.chunks ≡ false
    → exact_size (set_shader_data bytecode container.chunks) < 2 ^ 32
    → serialize container bytecode
      ≡ ok (signed_image container.header (set_shader_data bytecode container.chunks))
unfolding serialize
serialize-signed container bytecode filled fits =
    let chunks = set_shader_data bytecode container.chunks in
    rw filled (
      rw (write_container-image container.header chunks fits)
        (rw (write_hash-signed container.header chunks) refl))
