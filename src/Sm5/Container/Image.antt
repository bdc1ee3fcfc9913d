-- ===== src/Sm5/Container/Image.antt =====
-- The bytes that `Serialize` lays down, written out as one list.
use direct_xshader_patcher.Base.{
  ℕ, ◌+◌, ◌-◌, ◌*◌, ◌^◌, ◌≤◌, ◌<◌, List, [], ◌∷◌, ◌++◌, length, take, ltb, true, ok, ◌>>=◌,
  if◌then◌else◌, take_all, length-append, append_assoc, append-nil, ◌≡◌, refl, sym, ap, ap₂, ◌∙◌,
  arith,
}
use direct_xshader_patcher.Hash.Md5.{little_endian}
use direct_xshader_patcher.Sm5.Bytes.{zeros, write_bytes, write_word, write_words}
use direct_xshader_patcher.Sm5.Bytes.RoundTrip.{
  length-little_endian, word_bytes, length-word_bytes, replicate-add, write_bytes-front,
  write_word-front, write_words-front,
}
use direct_xshader_patcher.Sm5.Container.{DxbcContainerHeader, DxbcChunk, u32}
use direct_xshader_patcher.Sm5.Container.Serialize.{
  chunk_offsets, write_chunk, write_chunks, header_size, header_words, write_container,
}
use direct_xshader_patcher.Sm5.Container.Extents.{
  extent, chunk_image, body, extents, exact_size, exact_offsets, chunk_offsets-exact,
  length-exact_offsets, length-chunk_image, total_size-exact, header_size-exact,
}

-- The bytes of the chunk, and none when it has no data.
write_data-front :
    (p x : List ℕ) (at n : ℕ)
    → length p ≡ at
    → length x ≤ n
    → length x < 2 ^ 32
    → (let size = u32 (length x) in
        if ltb 0 size then write_bytes (p ++ zeros n) at (take size x) else ok (p ++ zeros n))
      ≡ ok ((p ++ x) ++ zeros (n - length x))
write_data-front p [] at n here room fits =
    let e : n ≡ n - length {A = ℕ} [] = omega arith in
    ap₂ (λ t k. ok (t ++ zeros k)) (sym (append-nil p)) e
write_data-front p (x ∷ xs) at n here room fits =
    let some_data : ltb 0 (u32 (length (x ∷ xs))) ≡ true = ground arith in
    let all : take (u32 (length (x ∷ xs))) (x ∷ xs) ≡ x ∷ xs = take_all _ _ (omega arith) in
    rw some_data
      (ap (write_bytes (p ++ zeros n) at) all ∙ write_bytes-front p (x ∷ xs) at n here room)

regroup :
    (p c s x a b : List ℕ) → (((p ++ c) ++ s) ++ x) ++ (a ++ b) ≡ (p ++ (c ++ (s ++ (x ++ a)))) ++ b
regroup p c s x a b = simp append_assoc

pub write_chunk-front :
    (p : List ℕ) (chunk : DxbcChunk) (at n : ℕ)
    → length p ≡ at
    → at + extent chunk < 2 ^ 32
    → extent chunk ≤ n
    → write_chunk (p ++ zeros n) at chunk
      ≡ ok ((p ++ chunk_image chunk) ++ zeros (n - extent chunk))
unfolding write_chunk extent
write_chunk-front p chunk at n here fits room =
    let x = chunk.data_bytes in
    let c = little_endian 4 chunk.four_cc in
    let s = little_endian 4 (length x) in
    let k = extent chunk - 8 - length x in
    let size : u32 (length x) ≡ length x = omega arith in
    let at₁ : u32 (at + 4) ≡ at + 4 = omega arith in
    let at₂ : u32 (at + 8) ≡ at + 8 = omega arith in
    let here₁ : length (p ++ c) ≡ at + 4 =
      omega (arith, length-append p c, length-little_endian chunk.four_cc) in
    let here₂ : length ((p ++ c) ++ s) ≡ at + 8 =
      omega (arith, length-append (p ++ c) s, length-little_endian (length x)) in
    let named = write_word-front p chunk.four_cc at n here (omega arith) in
    let sized =
      ap₂ (λ a w. write_word ((p ++ c) ++ zeros (n - 4)) a w) at₁ size
      ∙ write_word-front (p ++ c) (length x) (at + 4) (n - 4) here₁ (omega arith) in
    let filled =
      write_data-front ((p ++ c) ++ s) x (at + 8) (n - 4 - 4) here₂ (omega arith) (omega arith) in
    let moved =
      ap
        (λ a.
          if ltb 0 (u32 (length x))
          then write_bytes (((p ++ c) ++ s) ++ zeros (n - 4 - 4)) a (take (u32 (length x)) x)
          else ok (((p ++ c) ++ s) ++ zeros (n - 4 - 4)))
        at₂ in
    let counted : n - 4 - 4 - length x ≡ k + (n - extent chunk) = omega arith in
    let split = ap zeros counted ∙ sym (replicate-add k (n - extent chunk)) in
    rw named (
      rw sized (
        moved
        ∙ filled
        ∙ ap (λ z. ok ((((p ++ c) ++ s) ++ x) ++ z)) split
        ∙ ap ok (regroup p c s x (zeros k) (zeros (n - extent chunk)))))

pub write_chunks-front :
    (p : List ℕ) (chunks : List DxbcChunk) (at n : ℕ)
    → length p ≡ at
    → at + extents chunks < 2 ^ 32
    → extents chunks ≤ n
    → write_chunks (p ++ zeros n) (exact_offsets at chunks) chunks
      ≡ ok ((p ++ body chunks) ++ zeros (n - extents chunks))
unfolding write_chunks exact_offsets body extents
write_chunks-front p [] at n here fits room =
    let e : n ≡ n - extents [] = omega arith in
    ap₂ (λ t k. ok (t ++ zeros k)) (sym (append-nil p)) e
write_chunks-front p (chunk ∷ chunks) at n here fits room =
    let image = chunk_image chunk in
    let next : length (p ++ image) ≡ at + extent chunk =
      omega (arith, length-append p image, length-chunk_image chunk) in
    let left : n - extent chunk - extents chunks ≡ n - (extent chunk + extents chunks) =
      omega arith in
    rw (write_chunk-front p chunk at n here (omega arith) (omega arith)) (
      write_chunks-front (p ++ image) chunks (at + extent chunk) (n - extent chunk) next
        (omega arith) (omega arith)
      ∙ ap₂ (λ t k. ok (t ++ zeros k)) (append_assoc p image (body chunks)) left)

-- The container with zeros in place of its hash.
unfoldable pub image : DxbcContainerHeader → List DxbcChunk → List ℕ
unfolding body exact_offsets
image header chunks =
    word_bytes (header_words header chunks)
    ++ (word_bytes (exact_offsets (32 + 4 * length chunks) chunks) ++ body chunks)

-- The three parts one behind another.
write_parts :
    (words : List ℕ) (chunks : List DxbcChunk)
    → length words ≡ 8
    → exact_size chunks < 2 ^ 32
    → (let offsets = exact_offsets (32 + 4 * length chunks) chunks in
        write_words (zeros (exact_size chunks)) 0 words >>= λ headed.
        write_words headed 32 offsets >>= λ tabled. write_chunks tabled offsets chunks)
      ≡ ok (
          word_bytes words
          ++ (word_bytes (exact_offsets (32 + 4 * length chunks) chunks) ++ body chunks))
write_parts words chunks eight fits =
    let start = 32 + 4 * length chunks in
    let offsets = exact_offsets start chunks in
    let n = exact_size chunks in
    let w = word_bytes words in
    let t = word_bytes offsets in
    let listed = length-exact_offsets start chunks in
    let here₁ : length w ≡ 32 = omega (arith, length-word_bytes words) in
    let here₂ : length (w ++ t) ≡ start =
      omega (arith, length-append w t, length-word_bytes offsets) in
    let left = n - 4 * length words - 4 * length offsets in
    let none_left : left - extents chunks ≡ 0 = omega arith in
    rw (write_words-front [] words 0 n refl (omega arith)) (
      rw (write_words-front w offsets 32 (n - 4 * length words) here₁ (omega arith)) (
        write_chunks-front (w ++ t) chunks start left here₂ (omega arith) (omega arith)
        ∙ ap (λ k. ok (((w ++ t) ++ body chunks) ++ zeros k)) none_left
        ∙ ap ok (append-nil ((w ++ t) ++ body chunks) ∙ append_assoc w t (body chunks))))

pub write_container-image :
    (header : DxbcContainerHeader) (chunks : List DxbcChunk)
    → exact_size chunks < 2 ^ 32
    → write_container header chunks ≡ ok (image header chunks)
unfolding write_container image
write_container-image header chunks fits =
    let total = total_size-exact chunks fits in
    let start = 32 + 4 * length chunks in
    let offsets = exact_offsets start chunks in
    let words = header_words header chunks in
    let count : u32 (length chunks) ≡ length chunks = omega arith in
    let placed : chunk_offsets (header_size chunks) chunks ≡ offsets =
      ap (λ a. chunk_offsets a chunks) (header_size-exact chunks fits)
      ∙ chunk_offsets-exact start chunks (omega arith) in
    let listed = length-exact_offsets start chunks in
    let all : take (u32 (length chunks)) offsets ≡ offsets = take_all _ _ (omega (arith, listed)) in
    let filled = λ (z : ℕ). λ (os : List ℕ). λ (ts : List ℕ).
      write_words (zeros z) 0 words >>= λ headed.
      write_words headed 32 ts >>= λ tabled. write_chunks tabled os chunks in
    ap₂ (λ z os. filled z os (take (u32 (length chunks)) os)) total placed
    ∙ ap (filled (exact_size chunks) offsets) all
    ∙ write_parts words chunks refl fits
