-- ===== src/Sm5/Container/Digest/Reference.antt =====
-- The DXBC hash without a hasher: MD5's compression of a message that is padded in a way of its own,
-- and no padding behind it.
use direct_xshader_patcher.Base.{
  ℕ, suc, false, ◌+◌, ◌-◌, ◌*◌, ◌/◌, ◌%◌, ◌^◌, ◌≤◌, ◌<◌, List, [], ◌∷◌, ◌++◌, length, take, drop,
  replicate, ltb, leb, ◌==◌, if◌then◌else◌, append_assoc, append-nil, take-append-drop,
  length-append, length-take, length-drop, length-replicate, Bool-cases, inl, inr, subst, ◌≡◌, refl,
  sym, ap, ap₂, ◌∙◌, arith,
}
use direct_xshader_patcher.Base.Bits.{bit_or-one}
use direct_xshader_patcher.Hash.Md5.{
  Md5Hasher, initial, fresh, update, little_endian, padding, get_digest,
}
use direct_xshader_patcher.Hash.Md5.Compress.{Words}
use direct_xshader_patcher.Hash.Md5.Reference.{absorb}
use direct_xshader_patcher.Hash.Md5.Stream.{Represents, fresh-Represents}
use direct_xshader_patcher.Hash.Md5.Update.{update-Represents}
use direct_xshader_patcher.Hash.Md5.Digest.{Represents-state, take-replicate}
use direct_xshader_patcher.Sm5.Container.Digest.{
  a_num, b_num, update_separate, update_shared, compute_dxbc_hash,
}

-- The bytes of the state words.
abbrev pub state_bytes : Words → List ℕ
state_bytes w =
    little_endian 4 w.a ++ (little_endian 4 w.b ++ (little_endian 4 w.c ++ little_endian 4 w.d))

abbrev pub state_words : Words → List ℕ
state_words w = w.a ∷ w.b ∷ w.c ∷ w.d ∷ []

-- The byte 0x80 and `n` zeros.
abbrev pub mark : ℕ → List ℕ
mark n = 0x80 ∷ replicate n 0

-- The number of bits, and an odd quarter of it.
abbrev pub bit_count : List ℕ → List ℕ
bit_count bytes = little_endian 4 (8 * length bytes % 2 ^ 32)

abbrev pub odd_count : List ℕ → List ℕ
odd_count bytes = little_endian 4 (2 * length bytes % 2 ^ 30 + 1)

abbrev pub whole_blocks : List ℕ → List ℕ
whole_blocks bytes = take (length bytes - length bytes % 64) bytes

abbrev pub last_bytes : List ℕ → List ℕ
last_bytes bytes = drop (length bytes - length bytes % 64) bytes

-- The bit count stands in front of the last bytes when everything fits in one block, else behind them.
abbrev pub separate_padded : List ℕ → List ℕ
separate_padded bytes =
    bytes
    ++ (mark (63 - length bytes % 64) ++ (bit_count bytes ++ (replicate 56 0 ++ odd_count bytes)))

abbrev pub shared_padded : List ℕ → List ℕ
shared_padded bytes =
    whole_blocks bytes
    ++ (bit_count bytes ++ (last_bytes bytes ++ (mark (55 - length bytes % 64) ++ odd_count bytes)))

unfoldable pub dxbc_padded : List ℕ → List ℕ
dxbc_padded bytes =
    if leb 56 (length bytes % 64) then separate_padded bytes else shared_padded bytes

unfoldable pub dxbc_state : List ℕ → Words
unfolding absorb dxbc_padded
dxbc_state bytes = let message = dxbc_padded bytes in absorb (length message / 64) initial message

unfoldable pub reference_dxbc_hash : List ℕ → List ℕ
unfolding dxbc_state little_endian
reference_dxbc_hash bytes = state_bytes (dxbc_state bytes)

mark_taken : (k : ℕ) → k < 64 → take (64 - k) padding ≡ mark (63 - k)
mark_taken k h =
    let amount : 64 - k ≡ suc (63 - k) = omega arith in
    ap (λ t. take t padding) amount
    ∙ ap (λ t. 0x80 ∷ t) (take-replicate (63 - k) 63 0 (omega arith))

regroup : (p q r s t : List ℕ) → (((p ++ q) ++ r) ++ s) ++ t ≡ p ++ (q ++ (r ++ (s ++ t)))
regroup p q r s t = simp append_assoc

module _ {h : Md5Hasher} {message : List ℕ} (r : Represents h message) where
  -- Nothing is fed when nothing is left.
  held-Represents :
      (rest : List ℕ) → Represents (if length rest == 0 then h else update h rest) (message ++ rest)
  held-Represents [] = subst (Represents h) (sym (append-nil message)) r
  held-Represents (x ∷ rest) =
      let more : (length (x ∷ rest) == 0) ≡ false = ground arith in
      rw more (update-Represents h message (x ∷ rest) r)

separate-Represents :
    (h : Md5Hasher) (message rest a b : List ℕ)
    → Represents h message
    → length rest < 64
    → Represents
        (update_separate h rest a b)
        ((message ++ rest) ++ (mark (63 - length rest) ++ (a ++ (replicate 56 0 ++ b))))
unfolding update_separate
separate-Represents h message rest a b r short =
    let marked = take (64 - length rest) padding in
    let zeros : List ℕ = replicate 56 0 in
    let held = held-Represents r rest in
    let filled = update-Represents _ _ marked held in
    let counted = update-Represents _ _ a filled in
    let zeroed = update-Represents _ _ zeros counted in
    subst (λ m. Represents (update_separate h rest a b) m)
      (regroup (message ++ rest) marked a zeros b
        ∙ ap (λ m. (message ++ rest) ++ (m ++ (a ++ (zeros ++ b))))
            (mark_taken (length rest) short))
      (update-Represents _ _ b zeroed)

shared-Represents :
    (h : Md5Hasher) (message rest a b : List ℕ)
    → Represents h message
    → length rest < 56
    → Represents
        (update_shared h rest a b)
        (message ++ (a ++ (rest ++ (mark (55 - length rest) ++ b))))
unfolding update_shared
shared-Represents h message rest a b r short =
    let marked = take (64 - length rest - 4 - 4) padding in
    let room : 64 - length rest - 4 - 4 ≡ 64 - (length rest + 8) = omega arith in
    let left : 63 - (length rest + 8) ≡ 55 - length rest = omega arith in
    let counted = update-Represents h message a r in
    let held = held-Represents counted rest in
    let filled = update-Represents _ _ marked held in
    let marks : marked ≡ mark (55 - length rest) =
      ap (λ t. take t padding) room ∙ mark_taken (length rest + 8) (omega arith) ∙ ap mark left in
    subst (λ m. Represents (update_shared h rest a b) m)
      (regroup message a rest marked b ∙ ap (λ m. message ++ (a ++ (rest ++ (m ++ b)))) marks)
      (update-Represents _ _ b filled)

length-little_endian : (x : ℕ) → length (little_endian 4 x) ≡ 4
unfolding little_endian
length-little_endian x = refl

a_num-bits : (n : ℕ) → a_num n ≡ 8 * n % 2 ^ 32
a_num-bits n = omega arith

b_num-odd : (n : ℕ) → b_num n ≡ 2 * n % 2 ^ 30 + 1
unfolding b_num
b_num-odd n = bit_or-one (a_num n / 2 ^ 2) ∙ omega arith

length-last_bytes : (bytes : List ℕ) → length (last_bytes bytes) ≡ length bytes % 64
length-last_bytes bytes = omega (arith, length-drop (length bytes - length bytes % 64) bytes)

-- The hasher after the whole blocks, which may be none.
begun : List ℕ → Md5Hasher
begun bytes =
    if ltb (length bytes % 64) (length bytes) then update fresh (whole_blocks bytes) else fresh

begun-Represents : (bytes : List ℕ) → Represents (begun bytes) (whole_blocks bytes)
unfolding begun
begun-Represents bytes = elim (Bool-cases (ltb (length bytes % 64) (length bytes))) [
  | inl some_blocks ↦
      rw some_blocks (update-Represents fresh [] (whole_blocks bytes) fresh-Represents)
  | inr no_blocks ↦
      let none_left : length bytes - length bytes % 64 ≡ 0 = ground arith in
      rw no_blocks
        (subst (Represents fresh) (sym (ap (λ n. take n bytes) none_left)) fresh-Represents)
]

-- What the hasher is given is the padded message.
last_hasher : List ℕ → Md5Hasher
unfolding begun
last_hasher bytes =
    let a_bytes = little_endian 4 (a_num (length bytes)) in
    let b_bytes = little_endian 4 (b_num (length bytes)) in
    if leb 56 (length bytes % 64)
    then update_separate (begun bytes) (last_bytes bytes) a_bytes b_bytes
    else update_shared (begun bytes) (last_bytes bytes) a_bytes b_bytes

last_hasher-Represents : (bytes : List ℕ) → Represents (last_hasher bytes) (dxbc_padded bytes)
unfolding last_hasher dxbc_padded
last_hasher-Represents bytes =
    let n = length bytes in
    let left = length-last_bytes bytes in
    let counts = ap (little_endian 4) (a_num-bits n) in
    let odds = ap (little_endian 4) (b_num-odd n) in
    let a_bytes = little_endian 4 (a_num n) in
    let b_bytes = little_endian 4 (b_num n) in
    let z : List ℕ = replicate 56 0 in
    elim (Bool-cases (leb 56 (n % 64))) [
      | inl separate ↦ rw separate (
          subst (Represents (update_separate (begun bytes) (last_bytes bytes) a_bytes b_bytes))
            (ap₂ (λ p k. p ++ (mark (63 - k) ++ (a_bytes ++ (z ++ b_bytes))))
                (take-append-drop (n - n % 64) bytes) left
              ∙ ap₂ (λ a b. bytes ++ (mark (63 - n % 64) ++ (a ++ (z ++ b)))) counts odds)
            (separate-Represents (begun bytes) (whole_blocks bytes) (last_bytes bytes) a_bytes
              b_bytes (begun-Represents bytes) (omega (arith, left))))
      | inr shared ↦ rw shared (
          subst (Represents (update_shared (begun bytes) (last_bytes bytes) a_bytes b_bytes))
            (ap
                (λ k.
                  whole_blocks bytes
                  ++ (a_bytes ++ (last_bytes bytes ++ (mark (55 - k) ++ b_bytes))))
                left
              ∙ ap₂
                  (λ a b.
                    whole_blocks bytes ++ (a ++ (last_bytes bytes ++ (mark (55 - n % 64) ++ b))))
                  counts odds)
            (shared-Represents (begun bytes) (whole_blocks bytes) (last_bytes bytes) a_bytes b_bytes
              (begun-Represents bytes) (ground (arith, left))))
    ]

-- The padded message is cut into whole blocks, so that nothing waits.
length-separate :
    (bytes : List ℕ) → 56 ≤ length bytes % 64 → length (separate_padded bytes) % 64 ≡ 0
length-separate bytes h =
    let n = length bytes in
    let z : List ℕ = replicate 56 0 in
    let m = mark (63 - n % 64) in
    omega (
      arith,
      length-append bytes (m ++ (bit_count bytes ++ (z ++ odd_count bytes))),
      length-append m (bit_count bytes ++ (z ++ odd_count bytes)),
      length-append (bit_count bytes) (z ++ odd_count bytes),
      length-append z (odd_count bytes),
      length-replicate {A = ℕ} (63 - n % 64) 0,
      length-little_endian (8 * n % 2 ^ 32),
      length-little_endian (2 * n % 2 ^ 30 + 1),
    )

length-shared : (bytes : List ℕ) → length bytes % 64 < 56 → length (shared_padded bytes) % 64 ≡ 0
length-shared bytes h =
    let n = length bytes in
    let m = mark (55 - n % 64) in
    let w = whole_blocks bytes in
    let l = last_bytes bytes in
    omega (
      arith,
      length-append w (bit_count bytes ++ (l ++ (m ++ odd_count bytes))),
      length-append (bit_count bytes) (l ++ (m ++ odd_count bytes)),
      length-append l (m ++ odd_count bytes),
      length-append m (odd_count bytes),
      length-take (n - n % 64) bytes,
      length-last_bytes bytes,
      length-replicate {A = ℕ} (55 - n % 64) 0,
      length-little_endian (8 * n % 2 ^ 32),
      length-little_endian (2 * n % 2 ^ 30 + 1),
    )

length-dxbc_padded : (bytes : List ℕ) → length (dxbc_padded bytes) % 64 ≡ 0
unfolding dxbc_padded
length-dxbc_padded bytes = elim (Bool-cases (leb 56 (length bytes % 64))) [
  | inl separate ↦ rw separate (length-separate bytes (ground arith))
  | inr shared ↦ rw shared (length-shared bytes (ground arith))
]

-- The DXBC hash of any bytes, which the code feeds to a hasher in up to six pieces, is the raw MD5
-- state after all blocks of one message that is padded in DXBC's own way.
pub compute_dxbc_hash-reference :
    (bytes : List ℕ) → compute_dxbc_hash bytes ≡ reference_dxbc_hash bytes
unfolding compute_dxbc_hash reference_dxbc_hash dxbc_state get_digest last_hasher begun
compute_dxbc_hash-reference bytes =
    ap state_bytes (Represents-state (last_hasher-Represents bytes) (length-dxbc_padded bytes))
