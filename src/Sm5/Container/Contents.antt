-- ===== src/Sm5/Container/Contents.antt =====
-- The chunks that `FromBytes` finds, read off the bytes with unbounded numbers.
use direct_xshader_patcher.Base.{
  ℕ, zero, suc, ◌+◌, ◌-◌, ◌*◌, ◌==◌, ◌^◌, ◌≤◌, ◌<◌, List, [], ◌∷◌, length, take, drop, ltb, leb,
  Bool, ◌||◌, Bool-cases, true, false, inl, inr, Option, none, some, ok, ◌>>=◌, map_err,
  if◌then◌else◌, ◌≡◌, refl, ap, ◌∙◌, arith,
}
use direct_xshader_patcher.Sm5.Bytes.{from_little_endian, read_word, read_bytes}
use direct_xshader_patcher.Sm5.Container.{
  DxbcContainerHeader, DxbcChunk, dxbc_signature, four_cc_to_chunk_kind, u32,
}
use direct_xshader_patcher.Sm5.Container.Load.{
  bad_copy, read_chunk, read_chunks, push_found, insert_sorted, sort, chunk_table, read_header,
  from_bytes,
}

-- The offsets that pass the first test because `chunk_offset + 8` wraps.
abbrev pub wraps : ℕ → Bool
wraps at = leb (2 ^ 32 - 8) at

abbrev pub any_wraps : List ℕ → Bool
any_wraps [] = false
any_wraps (at ∷ offsets) = wraps at || any_wraps offsets

any_wraps-insert_sorted :
    (x : ℕ) (xs : List ℕ) → any_wraps (insert_sorted x xs) ≡ (wraps x || any_wraps xs)
unfolding insert_sorted
any_wraps-insert_sorted x [] = refl
any_wraps-insert_sorted x (y ∷ ys) = elim (Bool-cases (leb x y)) [
  | inl first ↦ rw first refl
  | inr later ↦ rw later (
      ap (λ b. wraps y || b) (any_wraps-insert_sorted x ys)
      ∙ swap (wraps y) (wraps x) (any_wraps ys))
]
  where
    swap : (a b c : Bool) → (a || (b || c)) ≡ (b || (a || c))
    swap true true c = refl
    swap true false c = refl
    swap false true c = refl
    swap false false c = refl

pub any_wraps-sort : (xs : List ℕ) → any_wraps (sort xs) ≡ any_wraps xs
unfolding sort
any_wraps-sort [] = refl
any_wraps-sort (x ∷ xs) =
    any_wraps-insert_sorted x (sort xs) ∙ ap (λ b. wraps x || b) (any_wraps-sort xs)

-- The little-endian word at an offset.
abbrev word_at : List ℕ → ℕ → ℕ
word_at bytes at = from_little_endian (take 4 (drop at bytes))

-- A chunk with its head of 8 bytes and the data that the head counts, inside the bytes.
abbrev pub holds_chunk : List ℕ → ℕ → Bool
holds_chunk bytes at = leb (at + 8 + word_at bytes (at + 4)) (length bytes)

abbrev pub chunk_at : List ℕ → ℕ → DxbcChunk
chunk_at bytes at = record {
  four_cc = word_at bytes at;
  kind = four_cc_to_chunk_kind (word_at bytes at);
  data_bytes = take (word_at bytes (at + 4)) (drop (at + 8) bytes);
  offset_in_container = at;
}

-- The chunk at each offset that has one.
abbrev pub chunks_at : List ℕ → List ℕ → List DxbcChunk
chunks_at bytes [] = []
chunks_at bytes (at ∷ offsets) =
    if holds_chunk bytes at
    then chunk_at bytes at ∷ chunks_at bytes offsets
    else chunks_at bytes offsets

abbrev pub found_at : List ℕ → ℕ → Option DxbcChunk
found_at bytes at = if holds_chunk bytes at then some (chunk_at bytes at) else none

read_word-word_at :
    (bytes : List ℕ) (at : ℕ) → at + 4 ≤ length bytes → read_word bytes at ≡ ok (word_at bytes at)
unfolding read_word read_bytes
read_word-word_at bytes at fits =
    let inside : leb (at + 4) (length bytes) ≡ true = ground arith in rw inside refl

read_data-take :
    (bytes : List ℕ) (at n : ℕ)
    → at + n ≤ length bytes
    → (if ltb 0 n then read_bytes bytes at n else ok []) ≡ ok (take n (drop at bytes))
unfolding read_bytes
read_data-take bytes at zero fits = refl
read_data-take bytes at (suc n) fits =
    let inside : leb (at + suc n) (length bytes) ≡ true = ground arith in
    let positive : ltb 0 (suc n) ≡ true = ground arith in rw (inside, positive) refl

pub read_chunk-found_at :
    (bytes : List ℕ) (at : ℕ) → wraps at ≡ false → read_chunk bytes at ≡ ok (found_at bytes at)
unfolding read_chunk
read_chunk-found_at bytes at low =
    let below : at < 2 ^ 32 - 8 = ground arith in
    let at₁ : u32 (at + 4) ≡ at + 4 = omega arith in
    let at₂ : u32 (at + 8) ≡ at + 8 = omega arith in
    let size = word_at bytes (at + 4) in
    elim (Bool-cases (ltb (length bytes) (u32 (at + 8)))) [
      | inl outside ↦
          let missing : holds_chunk bytes at ≡ false = ground arith in
          rw (outside, read_chunk) (rw missing refl)
      | inr inside ↦
          let room : at + 8 ≤ length bytes = ground arith in
          let named = read_word-word_at bytes at (omega arith) in
          let sized : read_word bytes (u32 (at + 4)) ≡ ok size =
            ap (read_word bytes) at₁ ∙ read_word-word_at bytes (at + 4) (omega arith) in
          elim (Bool-cases (ltb (length bytes) (at + 8 + size))) [
            | inl cut ↦
                let missing : holds_chunk bytes at ≡ false = ground arith in
                rw (inside, read_chunk) (rw named (rw sized (rw (cut, ◌>>=◌) (rw missing refl))))
            | inr whole ↦
                let present : holds_chunk bytes at ≡ true = ground arith in
                let read =
                  ap (λ k. if ltb 0 size then read_bytes bytes k size else ok []) at₂
                  ∙ read_data-take bytes (at + 8) size (ground arith) in
                rw (inside, read_chunk)
                  (rw named (rw sized (rw (whole, ◌>>=◌) (rw (read, ◌>>=◌) (rw present refl)))))
          ]
    ]

read_chunks-chunks_at :
    (bytes offsets : List ℕ)
    → any_wraps offsets ≡ false
    → read_chunks bytes offsets ≡ ok (chunks_at bytes offsets)
unfolding read_chunks
read_chunks-chunks_at bytes [] low = refl
read_chunks-chunks_at bytes (at ∷ offsets) low = elim (Bool-cases (wraps at)) [
  | inl high ↦ let bad : true ≡ false = rw (high, any_wraps) at low in cc
  | inr one ↦
      let more = read_chunks-chunks_at bytes offsets (rw (one, any_wraps) at low) in
      rw (read_chunk-found_at bytes at one) (
        rw more (
          ap (λ c. ok c)
            (pushed (holds_chunk bytes at) (chunk_at bytes at) (chunks_at bytes offsets))))
]
  where
    pushed :
        (held : Bool) (chunk : DxbcChunk) (chunks : List DxbcChunk)
        → push_found (if held then some chunk else none) chunks
          ≡ (if held then chunk ∷ chunks else chunks)
    pushed true chunk chunks = refl
    pushed false chunk chunks = refl

-- The tests before the chunks are read.
abbrev pub Admitted : List ℕ → DxbcContainerHeader → List ℕ → Type 0
Admitted bytes header offsets =
    (32 ≤ length bytes)
    × (read_header bytes ≡ ok header)
    × (header.signature ≡ dxbc_signature)
    × (header.total_size_in_bytes ≡ length bytes)
    × (32 + header.chunk_count * 4 ≤ length bytes)
    × (chunk_table bytes header.chunk_count ≡ ok offsets)

pub from_bytes-chunks :
    (bytes offsets : List ℕ) (header : DxbcContainerHeader)
    → Admitted bytes header offsets
    → from_bytes bytes ≡ (
        map_err bad_copy (read_chunks bytes (sort offsets)) >>= λ chunks.
        ok (record { header = header; chunks = chunks }))
unfolding from_bytes
from_bytes-chunks bytes offsets header (h₀, h₁, h₂, h₃, h₄, h₅) =
    let e₀ : ltb (length bytes) 32 ≡ false = ground arith in
    let e₂ : (header.signature == dxbc_signature) ≡ true = ground arith in
    let e₃ : (header.total_size_in_bytes == length bytes) ≡ true = ground arith in
    let e₄ : ltb (length bytes) (32 + header.chunk_count * 4) ≡ false = ground arith in
    rw (e₀, from_bytes)
      (rw h₁ (rw (e₂, ◌>>=◌) (rw (e₃, ◌>>=◌) (rw (e₄, ◌>>=◌) (rw (h₅, ◌>>=◌) refl)))))

-- A container whose size, signature and table are in order, and whose table has no entry within 8
-- of 2 ^ 32, is loaded with exactly the chunks that lie in its bytes with their head and all the
-- data that the head counts: for each entry of the table, in ascending order, such a chunk with its
-- name and data, and nothing for an entry without one.
pub from_bytes-chunks_at :
    (bytes offsets : List ℕ) (header : DxbcContainerHeader)
    → Admitted bytes header offsets
    → any_wraps offsets ≡ false
    → from_bytes bytes ≡ ok (record { header = header; chunks = chunks_at bytes (sort offsets) })
from_bytes-chunks_at bytes offsets header admitted low =
    let read = read_chunks-chunks_at bytes (sort offsets) (any_wraps-sort offsets ∙ low) in
    from_bytes-chunks bytes offsets header admitted ∙ rw read refl
