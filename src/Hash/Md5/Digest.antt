-- ===== src/Hash/Md5/Digest.antt =====
-- `Finalize` pads the message as RFC 1321 says, so that a digest does not depend on how the message
-- was cut into calls of `Update`.
use direct_xshader_patcher.Base.{
  ℕ, zero, suc, ◌-◌, ◌*◌, ◌/◌, ◌%◌, ◌^◌, ◌≤◌, ◌≡◌, refl, ap, ap₂, sym, ◌∙◌, List, [], ◌∷◌, ◌++◌,
  length, take, replicate, append_assoc, append-nil, length-append, length-replicate, arith, leb,
  if◌then◌else◌, subst,
}
use direct_xshader_patcher.Hash.Md5.Reference.{absorb, padded, md5, zeros}
use direct_xshader_patcher.Hash.Md5.Stream.{Represents, fresh-Represents, offset-tail}
use direct_xshader_patcher.Hash.Md5.Update.{update-Represents}
use direct_xshader_patcher.Hash.Md5.{
  Md5Hasher, initial, fresh, update, little_endian, padding, pad_block, get_digest, finalize,
}

-- A caller's sequence of `Update` calls.
pub update_all : Md5Hasher → List (List ℕ) → Md5Hasher
update_all h [] = h
update_all h (chunk ∷ chunks) = update_all (update h chunk) chunks

abbrev pub concatenation : List (List ℕ) → List ℕ
concatenation [] = []
concatenation (chunk ∷ chunks) = chunk ++ concatenation chunks

pub update_all-Represents :
    (h : Md5Hasher) (message : List ℕ) (chunks : List (List ℕ))
    → Represents h message
    → Represents (update_all h chunks) (message ++ concatenation chunks)
unfolding update_all
update_all-Represents h message [] r = subst (Represents h) (sym (append-nil message)) r
update_all-Represents h message (chunk ∷ chunks) r =
    subst (Represents (update_all (update h chunk) chunks))
      (append_assoc message chunk (concatenation chunks))
      (update_all-Represents (update h chunk) (message ++ chunk) chunks
        (update-Represents h message chunk r))

pub take-replicate : (n k : ℕ) (a : ℕ) → n ≤ k → take n (replicate k a) ≡ replicate n a
take-replicate zero k a h = refl
take-replicate (suc n) zero a h = absurd (omega arith)
take-replicate (suc n) (suc k) a h = ap (λ t. a ∷ t) (take-replicate n k a (omega arith))

-- The length of the padding that the code computes is one 0x80 and the zeros.
padding_taken :
    (n : ℕ)
    → take ((if leb 56 (n % 64) then 120 else 56) - n % 64) padding ≡ 0x80 ∷ replicate (zeros n) 0
padding_taken n =
    let amount : (if leb 56 (n % 64) then 120 else 56) - n % 64 ≡ suc (zeros n) = ground arith in
    ap (λ k. take k padding) amount
    ∙ ap (λ t. 0x80 ∷ t) (take-replicate (zeros n) 63 0 (omega arith))

pad_block-Represents :
    (h : Md5Hasher) (message : List ℕ)
    → Represents h message
    → Represents (pad_block h) (padded message)
unfolding pad_block padded
pad_block-Represents h message r =
    let n = length message in
    let current : h.size % 64 ≡ n % 64 = omega (arith, r.size) in
    let counted : 8 * h.size % 2 ^ 64 ≡ 8 * n % 2 ^ 64 = omega (arith, r.size) in
    let pad : List ℕ = 0x80 ∷ replicate (zeros n) 0 in
    let bits = little_endian 8 (8 * n % 2 ^ 64) in
    let begins =
      ap (λ c. take ((if leb 56 c then 120 else 56) - c) padding) current ∙ padding_taken n in
    subst (λ t. Represents t (message ++ (pad ++ bits)))
      (sym (ap₂ (λ a b. update (update h a) (little_endian 8 b)) begins counted))
      (subst (Represents (update (update h pad) bits)) (append_assoc message pad bits) (
        update-Represents (update h pad) (message ++ pad) bits (update-Represents h message pad r)))

length-padded : (message : List ℕ) → length (padded message) % 64 ≡ 0
unfolding padded little_endian
length-padded message =
    let n = length message in
    let pad : List ℕ = 0x80 ∷ replicate (zeros n) 0 in
    let bits = little_endian 8 (8 * n % 2 ^ 64) in
    omega (
      arith,
      length-append message (pad ++ bits),
      length-append pad bits,
      length-replicate {A = ℕ} (zeros n) 0,
    )

-- A message of whole blocks has been compressed whole.
pub Represents-state :
    {h : Md5Hasher} {message : List ℕ}
    → Represents h message
    → length message % 64 ≡ 0
    → h.state ≡ absorb (length message / 64) initial message
Represents-state {message = message} r e =
    let place = offset-tail r in
    let sizes = length-append r.front r.tail in
    let whole : r.front ≡ message =
      sym (append-nil r.front)
      ∙ ap (λ t. r.front ++ t) (sym (empty r.tail (omega (arith, r.size))))
      ∙ r.whole in
    let count : r.count ≡ length message / 64 = omega (arith, ap length whole, r.blocks) in
    r.state ∙ ap₂ (λ k m. absorb k initial m) count whole
  where
    empty : (xs : List ℕ) → length xs ≡ 0 → xs ≡ []
    empty [] h = refl
    empty (x ∷ xs) h = absurd (omega arith)

-- For every sequence of `Update` calls on a new hasher, `Finalize` gives the MD5 of the
-- concatenated pieces and leaves a new hasher; nothing is assumed of the pieces' number or lengths.
pub finalize-md5 :
    (chunks : List (List ℕ))
    → finalize (update_all fresh chunks) ≡ (md5 (concatenation chunks), fresh)
unfolding finalize md5 get_digest
finalize-md5 chunks =
    let message = concatenation chunks in
    let r = update_all-Represents fresh [] chunks fresh-Represents in
    let p = pad_block-Represents (update_all fresh chunks) message r in
    rw (Represents-state p (length-padded message))
