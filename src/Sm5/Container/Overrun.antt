-- ===== src/Sm5/Container/Overrun.antt =====
-- The table entries for which `FromBytes` reads outside of its bytes, and those for which it does not.
use direct_xshader_patcher.Base.{
  ℕ, ◌+◌, ◌-◌, ◌^◌, ◌≤◌, ◌<◌, List, [], ◌∷◌, length, All, ltb, leb, Bool-cases, true, false, inl,
  inr, err, ◌≡◌, refl, ◌∙◌, arith,
}
use direct_xshader_patcher.Sm5.Bytes.{CopyError, read_word, read_bytes}
use direct_xshader_patcher.Sm5.Container.{DxbcContainerHeader, u32}
use direct_xshader_patcher.Sm5.Container.Load.{
  bad_copy, read_chunk, read_chunks, insert_sorted, sort, from_bytes,
}
use direct_xshader_patcher.Sm5.Container.Contents.{
  wraps, any_wraps, any_wraps-sort, Admitted, from_bytes-chunks, read_chunk-found_at,
}

read_word-outside :
    (bytes : List ℕ) (at : ℕ)
    → length bytes < at + 4
    → read_word bytes at ≡ err CopyError.undefined_read
unfolding read_word read_bytes
read_word-outside bytes at past =
    let outside : leb (at + 4) (length bytes) ≡ false = ground arith in rw outside refl

-- One that wraps is read far outside.
read_chunk-overrun :
    (bytes : List ℕ) (at : ℕ)
    → 8 ≤ length bytes
    → length bytes < 2 ^ 32 - 8
    → at < 2 ^ 32
    → wraps at ≡ true
    → read_chunk bytes at ≡ err CopyError.undefined_read
unfolding read_chunk
read_chunk-overrun bytes at enough small word high =
    let above : 2 ^ 32 - 8 ≤ at = ground arith in
    let inside : ltb (length bytes) (u32 (at + 8)) ≡ false = ground arith in
    rw (inside, read_chunk) (rw (read_word-outside bytes at (omega arith)) refl)

abbrev pub Word : ℕ → Type 0
Word n = n < 2 ^ 32

All-sort : (xs : List ℕ) → All Word xs → All Word (sort xs)
unfolding sort insert_sorted
All-sort [] h = tt
All-sort (x ∷ xs) h = insert x (sort xs) h.0 (All-sort xs h.1)
  where
    insert : (y : ℕ) (ys : List ℕ) → Word y → All Word ys → All Word (insert_sorted y ys)
    insert y [] h k = (h, tt)
    insert y (z ∷ zs) h k = elim (Bool-cases (leb y z)) [
      | inl first ↦ rw first (h, k)
      | inr later ↦ rw later (k.0, insert y zs h k.1)
    ]

read_chunks-overrun :
    (bytes offsets : List ℕ)
    → 8 ≤ length bytes
    → length bytes < 2 ^ 32 - 8
    → All Word offsets
    → any_wraps offsets ≡ true
    → read_chunks bytes offsets ≡ err CopyError.undefined_read
unfolding read_chunks
read_chunks-overrun bytes [] enough small words high = cc
read_chunks-overrun bytes (at ∷ offsets) enough small words high = elim (Bool-cases (wraps at)) [
  | inl now ↦ rw (read_chunk-overrun bytes at enough small words.0 now) refl
  | inr one ↦ rw (read_chunk-found_at bytes at one) (
      rw (read_chunks-overrun bytes offsets enough small words.1 (rw (one, any_wraps) at high))
        refl)
]

-- When the size, signature and table of a container of less than 2 ^ 32 - 8 bytes are in order
-- and its table, of 32-bit words, has an entry within 8 of 2 ^ 32, the test of `chunk_offset + 8`
-- wraps and passes, and the chunk is read outside the bytes.
pub from_bytes-overrun :
    (bytes offsets : List ℕ) (header : DxbcContainerHeader)
    → Admitted bytes header offsets
    → length bytes < 2 ^ 32 - 8
    → All Word offsets
    → any_wraps offsets ≡ true
    → from_bytes bytes ≡ err (bad_copy CopyError.undefined_read)
from_bytes-overrun bytes offsets header admitted small words high =
    let read =
      read_chunks-overrun bytes (sort offsets) (omega (arith, admitted.0)) small
        (All-sort offsets words) (any_wraps-sort offsets ∙ high) in
    from_bytes-chunks bytes offsets header admitted ∙ rw read refl
