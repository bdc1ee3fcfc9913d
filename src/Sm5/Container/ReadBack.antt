-- ===== src/Sm5/Container/ReadBack.antt =====
-- The chunks that `Serialize` has written are found by the loop of `FromBytes`.
use direct_xshader_patcher.Base.{
  ℕ, ◌+◌, ◌-◌, ◌^◌, ◌<◌, List, [], ◌∷◌, ◌++◌, length, All, ltb, leb, true, false, some, ok, ◌>>=◌,
  if◌then◌else◌, length-append, append_assoc, ◌≡◌, refl, sym, ap, ap₂, ◌∙◌, arith,
}
use direct_xshader_patcher.Hash.Md5.{little_endian}
use direct_xshader_patcher.Sm5.Bytes.{read_word, read_bytes, zeros}
use direct_xshader_patcher.Sm5.Bytes.RoundTrip.{length-little_endian, read_bytes-at, read_word-at}
use direct_xshader_patcher.Sm5.Container.{DxbcChunk, four_cc_to_chunk_kind, u32}
use direct_xshader_patcher.Sm5.Container.Load.{read_chunk, read_chunks, insert_sorted, sort}
use direct_xshader_patcher.Sm5.Container.Extents.{
  extent, chunk_image, body, extents, exact_offsets, length-chunk_image,
}

-- A chunk as it is loaded from a place in the container.
abbrev pub loaded_at : ℕ → DxbcChunk → DxbcChunk
loaded_at at chunk = record {
  four_cc = chunk.four_cc;
  kind = four_cc_to_chunk_kind chunk.four_cc;
  data_bytes = chunk.data_bytes;
  offset_in_container = at;
}

unfoldable pub relocated : ℕ → List DxbcChunk → List DxbcChunk
relocated at [] = []
relocated at (chunk ∷ chunks) = loaded_at at chunk ∷ relocated (at + extent chunk) chunks

read_data-at :
    (p x r : List ℕ) (at : ℕ)
    → length p ≡ at
    → (if ltb 0 (length x) then read_bytes (p ++ (x ++ r)) at (length x) else ok []) ≡ ok x
read_data-at p [] r at here = refl
read_data-at p (x ∷ xs) r at here =
    let some_data : ltb 0 (length (x ∷ xs)) ≡ true = ground arith in
    rw some_data (read_bytes-at p (x ∷ xs) r at (length (x ∷ xs)) here refl)

-- A chunk is found when both tests pass and all three copies stay inside.
read_chunk-found :
    (bytes x : List ℕ) (at four_cc : ℕ)
    → ltb (length bytes) (u32 (at + 8)) ≡ false
    → read_word bytes at ≡ ok four_cc
    → read_word bytes (u32 (at + 4)) ≡ ok (length x)
    → ltb (length bytes) (at + 8 + length x) ≡ false
    → (if ltb 0 (length x) then read_bytes bytes (u32 (at + 8)) (length x) else ok []) ≡ ok x
    → read_chunk bytes at
      ≡ ok (
          some (record {
            four_cc = four_cc;
            kind = four_cc_to_chunk_kind four_cc;
            data_bytes = x;
            offset_in_container = at;
          }))
unfolding read_chunk
read_chunk-found bytes x at four_cc e₀ e₁ e₂ e₃ e₄ =
    rw (e₀, read_chunk) (rw e₁ (rw e₂ (rw (e₃, ◌>>=◌) (rw (e₄, ◌>>=◌) refl))))

read_chunk-at :
    (p r : List ℕ) (chunk : DxbcChunk) (at : ℕ)
    → length p ≡ at
    → chunk.four_cc < 2 ^ 32
    → at + extent chunk < 2 ^ 32
    → read_chunk (p ++ (chunk_image chunk ++ r)) at ≡ ok (some (loaded_at at chunk))
unfolding read_chunk extent
read_chunk-at p r chunk at here named fits =
    let x = chunk.data_bytes in
    let c = little_endian 4 chunk.four_cc in
    let s = little_endian 4 (length x) in
    let z = zeros (extent chunk - 8 - length x) in
    let bytes = p ++ (chunk_image chunk ++ r) in
    let whole : length bytes ≡ at + extent chunk + length r = omega (
      arith,
      length-append p (chunk_image chunk ++ r),
      length-append (chunk_image chunk) r,
      length-chunk_image chunk,
    ) in
    let at₁ : u32 (at + 4) ≡ at + 4 = omega arith in
    let at₂ : u32 (at + 8) ≡ at + 8 = omega arith in
    let here₁ : length (p ++ c) ≡ at + 4 =
      omega (arith, length-append p c, length-little_endian chunk.four_cc) in
    let here₂ : length ((p ++ c) ++ s) ≡ at + 8 =
      omega (arith, length-append (p ++ c) s, length-little_endian (length x)) in
    let has_head : ltb (length bytes) (u32 (at + 8)) ≡ false = ground arith in
    let has_data : ltb (length bytes) (at + 8 + length x) ≡ false = ground arith in
    let first : bytes ≡ p ++ (c ++ (s ++ (x ++ (z ++ r)))) = simp append_assoc in
    let second : bytes ≡ (p ++ c) ++ (s ++ (x ++ (z ++ r))) = simp append_assoc in
    let third : bytes ≡ ((p ++ c) ++ s) ++ (x ++ (z ++ r)) = simp append_assoc in
    let word₁ : read_word bytes at ≡ ok chunk.four_cc =
      ap (λ b. read_word b at) first
      ∙ read_word-at p (s ++ (x ++ (z ++ r))) chunk.four_cc at here
      ∙ ap ok (omega arith) in
    let word₂ : read_word bytes (u32 (at + 4)) ≡ ok (length x) =
      ap₂ read_word second at₁
      ∙ read_word-at (p ++ c) (x ++ (z ++ r)) (length x) (at + 4) here₁
      ∙ ap ok (omega arith) in
    let contents =
      ap₂ (λ b a. if ltb 0 (length x) then read_bytes b a (length x) else ok []) third at₂
      ∙ read_data-at ((p ++ c) ++ s) x (z ++ r) (at + 8) here₂ in
    read_chunk-found bytes x at chunk.four_cc has_head word₁ word₂ has_data contents

abbrev pub Named : DxbcChunk → Type 0
Named chunk = chunk.four_cc < 2 ^ 32

pub read_chunks-at :
    (p : List ℕ) (chunks : List DxbcChunk) (at : ℕ)
    → length p ≡ at
    → All Named chunks
    → at + extents chunks < 2 ^ 32
    → read_chunks (p ++ body chunks) (exact_offsets at chunks) ≡ ok (relocated at chunks)
unfolding read_chunks body exact_offsets relocated extents
read_chunks-at p [] at here named fits = refl
read_chunks-at p (chunk ∷ chunks) at here named fits =
    let next : length (p ++ chunk_image chunk) ≡ at + extent chunk =
      omega (arith, length-append p (chunk_image chunk), length-chunk_image chunk) in
    let one = read_chunk-at p (body chunks) chunk at here named.0 (omega arith) in
    let rest =
      ap (λ b. read_chunks b (exact_offsets (at + extent chunk) chunks))
        (sym (append_assoc p (chunk_image chunk) (body chunks)))
      ∙ read_chunks-at (p ++ chunk_image chunk) chunks (at + extent chunk) next named.1
          (omega arith) in
    rw one (rw rest refl)

-- The table is in order, so that the sort leaves it as it is.
pub sort-exact_offsets :
    (at : ℕ) (chunks : List DxbcChunk) → sort (exact_offsets at chunks) ≡ exact_offsets at chunks
unfolding sort exact_offsets insert_sorted
sort-exact_offsets at [] = refl
sort-exact_offsets at (chunk ∷ []) = refl
sort-exact_offsets at (chunk ∷ next ∷ chunks) =
    let ordered : leb at (at + extent chunk) ≡ true = ground arith in
    rw (sort-exact_offsets (at + extent chunk) (next ∷ chunks)) (rw ordered refl)
