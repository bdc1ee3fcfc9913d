-- ===== src/Sm5/Container/RoundTrip.antt =====
-- What `Serialize` writes, `FromBytes` reads.
use direct_xshader_patcher.Base.{
  ℕ, ◌+◌, ◌*◌, ◌^◌, ◌<◌, List, [], ◌∷◌, ◌++◌, length, All, ltb, ◌==◌, true, false, ok, ◌>>=◌,
  is_empty, length-append, append_assoc, ◌≡◌, refl, ap, ap₂, ◌∙◌, arith,
}
use direct_xshader_patcher.Hash.Md5.{little_endian}
use direct_xshader_patcher.Sm5.Bytes.{read_word, read_words}
use direct_xshader_patcher.Sm5.Bytes.RoundTrip.{
  length-little_endian, word_bytes, length-word_bytes, read_word-at, read_words-at, cut_words,
  cut_words-id,
}
use direct_xshader_patcher.Sm5.Container.{
  DxbcContainerHeader, DxbcChunk, Container, dxbc_signature, u32,
}
use direct_xshader_patcher.Sm5.Container.Load.{
  read_chunks, sort, chunk_table, read_header, from_bytes,
}
use direct_xshader_patcher.Sm5.Container.Digest.Reference.{state_words, dxbc_state}
use direct_xshader_patcher.Sm5.Container.Serialize.{total_size, set_shader_data, serialize}
use direct_xshader_patcher.Sm5.Container.Signed.{
  tail_words, saved_one, hashed_part, signed_image, serialize-signed,
}
use direct_xshader_patcher.Sm5.Container.Extents.{
  total_size-exact, extent, body, extents, exact_size, exact_offsets, length-body,
  length-exact_offsets,
}
use direct_xshader_patcher.Sm5.Container.ReadBack.{
  relocated, read_chunks-at, Named, sort-exact_offsets,
}

-- The head of the container is read word by word.
read_header-at :
    (signature one total count : ℕ) (hash r : List ℕ)
    → length hash ≡ 4
    → read_header (
        little_endian 4 signature
        ++ (word_bytes hash ++ (word_bytes (tail_words one total count) ++ r)))
      ≡ ok (record {
        signature = u32 signature;
        hash = cut_words hash;
        one = u32 one;
        total_size_in_bytes = u32 total;
        chunk_count = u32 count;
      })
unfolding read_header
read_header-at signature one total count hash r four =
    let s = little_endian 4 signature in
    let h = word_bytes hash in
    let o = little_endian 4 one in
    let t = little_endian 4 total in
    let c = little_endian 4 count in
    let sized = length-word_bytes hash in
    let here₁ : length (s ++ h) ≡ 20 =
      omega (arith, length-append s h, length-little_endian signature) in
    let here₂ : length ((s ++ h) ++ o) ≡ 24 =
      omega (arith, length-append (s ++ h) o, length-little_endian one) in
    let here₃ : length (((s ++ h) ++ o) ++ t) ≡ 28 =
      omega (arith, length-append ((s ++ h) ++ o) t, length-little_endian total) in
    let bytes = s ++ (h ++ (word_bytes (tail_words one total count) ++ r)) in
    let split₁ : bytes ≡ (s ++ h) ++ (o ++ (t ++ (c ++ r))) = simp append_assoc in
    let split₂ : bytes ≡ ((s ++ h) ++ o) ++ (t ++ (c ++ r)) = simp append_assoc in
    let split₃ : bytes ≡ (((s ++ h) ++ o) ++ t) ++ (c ++ r) = simp append_assoc in
    let e₀ : read_word bytes 0 ≡ ok (u32 signature) = read_word-at [] _ signature 0 refl in
    let e₁ : read_words bytes 4 4 ≡ ok (cut_words hash) =
      read_words-at s hash _ 4 4 (length-little_endian signature) four in
    let e₂ : read_word bytes 20 ≡ ok (u32 one) =
      ap (λ b. read_word b 20) split₁ ∙ read_word-at (s ++ h) _ one 20 here₁ in
    let e₃ : read_word bytes 24 ≡ ok (u32 total) =
      ap (λ b. read_word b 24) split₂ ∙ read_word-at ((s ++ h) ++ o) _ total 24 here₂ in
    let e₄ : read_word bytes 28 ≡ ok (u32 count) =
      ap (λ b. read_word b 28) split₃ ∙ read_word-at (((s ++ h) ++ o) ++ t) _ count 28 here₃ in
    rw (e₀, read_header) (rw e₁ (rw e₂ (rw e₃ (rw e₄ refl))))

-- All tests of `FromBytes` pass.
from_bytes-found :
    (bytes offsets : List ℕ) (header : DxbcContainerHeader) (chunks : List DxbcChunk)
    → ltb (length bytes) 32 ≡ false
    → read_header bytes ≡ ok header
    → (header.signature == dxbc_signature) ≡ true
    → (header.total_size_in_bytes == length bytes) ≡ true
    → ltb (length bytes) (32 + header.chunk_count * 4) ≡ false
    → chunk_table bytes header.chunk_count ≡ ok offsets
    → read_chunks bytes (sort offsets) ≡ ok chunks
    → from_bytes bytes ≡ ok (record { header = header; chunks = chunks })
unfolding from_bytes
from_bytes-found bytes offsets header chunks e₀ e₁ e₂ e₃ e₄ e₅ e₆ =
    rw (e₀, from_bytes)
      (rw e₁
        (rw (e₂, ◌>>=◌) (rw (e₃, ◌>>=◌) (rw (e₄, ◌>>=◌) (rw (e₅, ◌>>=◌) (rw (e₆, ◌>>=◌) refl))))))

offsets-Small :
    (at : ℕ) (chunks : List DxbcChunk)
    → at + extents chunks < 2 ^ 32
    → All (λ w. w < 2 ^ 32) (exact_offsets at chunks)
unfolding exact_offsets extents
offsets-Small at [] h = tt
offsets-Small at (chunk ∷ chunks) h =
    (omega arith, offsets-Small (at + extent chunk) chunks (omega arith))

-- The container as it is loaded from what was written of it.
unfoldable pub reloaded : DxbcContainerHeader → List DxbcChunk → Container
unfolding relocated hashed_part dxbc_state
reloaded header chunks = record {
  header = record {
    signature = header.signature;
    hash = cut_words (state_words (dxbc_state (hashed_part header chunks)));
    one = saved_one header;
    total_size_in_bytes = exact_size chunks;
    chunk_count = length chunks;
  };
  chunks = relocated (32 + 4 * length chunks) chunks;
}

abbrev header_of : ℕ → List ℕ → ℕ → ℕ → ℕ → DxbcContainerHeader
header_of signature hash one total count = record {
  signature = signature;
  hash = hash;
  one = one;
  total_size_in_bytes = total;
  chunk_count = count;
}

-- Header, table and chunks one behind another are a container, whatever the hash.
from_bytes-laid :
    (signature one total count : ℕ) (hash : List ℕ) (chunks : List DxbcChunk)
    → signature ≡ dxbc_signature
    → one < 2 ^ 32
    → total ≡ exact_size chunks
    → count ≡ length chunks
    → length hash ≡ 4
    → All Named chunks
    → exact_size chunks < 2 ^ 32
    → from_bytes (
        little_endian 4 signature
        ++ (word_bytes hash
            ++ (word_bytes (tail_words one total count)
                ++ (word_bytes (exact_offsets (32 + 4 * length chunks) chunks) ++ body chunks))))
      ≡ ok (record {
        header = header_of signature (cut_words hash) one total count;
        chunks = relocated (32 + 4 * length chunks) chunks;
      })
unfolding chunk_table
from_bytes-laid signature one total count hash chunks magic small sum counted four named fits =
    let start = 32 + 4 * length chunks in
    let offsets = exact_offsets start chunks in
    let s = little_endian 4 signature in
    let h = word_bytes hash in
    let w = word_bytes (tail_words one total count) in
    let t = word_bytes offsets in
    let front = s ++ (h ++ w) in
    let bytes = s ++ (h ++ (w ++ (t ++ body chunks))) in
    let listed = length-exact_offsets start chunks in
    let in_front : length front ≡ 32 = omega (
      arith,
      length-append s (h ++ w),
      length-append h w,
      length-little_endian signature,
      length-word_bytes hash,
      length-word_bytes (tail_words one total count),
    ) in
    let behind : length (front ++ t) ≡ start =
      omega (arith, length-append front t, length-word_bytes offsets) in
    let split₁ : bytes ≡ front ++ (t ++ body chunks) = simp append_assoc in
    let split₂ : bytes ≡ (front ++ t) ++ body chunks = simp append_assoc in
    let size : length bytes ≡ exact_size chunks =
      omega
        (arith, ap length split₂, length-append (front ++ t) (body chunks), length-body chunks) in
    let sig_small : u32 signature ≡ signature = omega arith in
    let one_small : u32 one ≡ one = omega arith in
    let total_small : u32 total ≡ total = omega arith in
    let count_small : u32 count ≡ count = omega arith in
    let header : read_header bytes ≡ ok (header_of signature (cut_words hash) one total count) =
      read_header-at signature one total count hash (t ++ body chunks) four
      ∙ ap₂ (λ a b. ok (header_of a (cut_words hash) b (u32 total) (u32 count))) sig_small one_small
      ∙ ap₂ (λ a b. ok (header_of signature (cut_words hash) one a b)) total_small count_small in
    let table : chunk_table bytes count ≡ ok offsets =
      ap (λ b. read_words b 32 count) split₁
      ∙ read_words-at front offsets (body chunks) 32 count in_front (omega arith)
      ∙ ap ok (cut_words-id offsets (offsets-Small start chunks (omega arith))) in
    let found : read_chunks bytes (sort offsets) ≡ ok (relocated start chunks) =
      ap₂ read_chunks split₂ (sort-exact_offsets start chunks)
      ∙ read_chunks-at (front ++ t) chunks start behind named (omega arith) in
    from_bytes-found bytes offsets _ _ (ground arith) header (ground arith) (ground arith)
      (ground arith) table found

from_bytes-signed :
    (header : DxbcContainerHeader) (chunks : List DxbcChunk)
    → header.signature ≡ dxbc_signature
    → header.one < 2 ^ 32
    → All Named chunks
    → exact_size chunks < 2 ^ 32
    → from_bytes (signed_image header chunks) ≡ ok (reloaded header chunks)
unfolding signed_image reloaded hashed_part
from_bytes-signed header chunks magic small named fits =
    from_bytes-laid header.signature (saved_one header) (total_size chunks) (u32 (length chunks))
      (state_words (dxbc_state (hashed_part header chunks))) chunks magic (ground arith)
      (total_size-exact chunks fits) (omega arith) refl named fits
    ∙ ap₂
        (λ t n. ok (record {
          header =
              header_of header.signature
                (cut_words (state_words (dxbc_state (hashed_part header chunks))))
                (saved_one header) t n;
          chunks = relocated (32 + 4 * length chunks) chunks;
        }))
        (total_size-exact chunks fits) (omega arith)

-- A container that has the DXBC signature and a chunk, whose header word and chunk names are
-- 32-bit words and whose whole size with the shader's new tokens is below 2 ^ 32, is serialized
-- without a copy that leaves the buffer; and `FromBytes` accepts the bytes and finds every chunk
-- in its order, with its name, all its data and the new offset, the kind being the one of the
-- name.
pub serialize-from_bytes :
    (container : Container) (bytecode : List ℕ)
    → is_empty container.chunks ≡ false
    → container.header.signature ≡ dxbc_signature
    → container.header.one < 2 ^ 32
    → All Named (set_shader_data bytecode container.chunks)
    → exact_size (set_shader_data bytecode container.chunks) < 2 ^ 32
    → (bytes : List ℕ) × (serialize container bytecode ≡ ok bytes)
      × (from_bytes bytes
          ≡ ok (reloaded container.header (set_shader_data bytecode container.chunks)))
serialize-from_bytes container bytecode filled magic small named fits =
    let chunks = set_shader_data bytecode container.chunks in
    (
      signed_image container.header chunks,
      serialize-signed container bytecode filled fits,
      from_bytes-signed container.header chunks magic small named fits,
    )
