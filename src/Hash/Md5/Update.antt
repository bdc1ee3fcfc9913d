-- ===== src/Hash/Md5/Update.antt =====
-- Every `Update` keeps the relation between the hasher and its message, whatever the input's length.
use direct_xshader_patcher.Base.{
  ℕ, ◌+◌, ◌-◌, ◌*◌, ◌%◌, ◌^◌, ◌≤◌, ◌<◌, ◌≡◌, refl, ap, ap₂, sym, ◌∙◌, List, [], ◌∷◌, ◌++◌, length,
  take, drop, append_assoc, append-nil, take-append-drop, length-take, length-append, take_all,
  arith, leb, leb→le, ◌==◌, Bool-cases, subst, inl, inr,
}
use direct_xshader_patcher.Hash.Md5.Compress.{process_block}
use direct_xshader_patcher.Hash.Md5.Reference.{absorb}
use direct_xshader_patcher.Hash.Md5.Blocks.{absorb-block, absorb-add}
use direct_xshader_patcher.Hash.Md5.{Md5Hasher, initial, splice, absorb_rest, update}
use direct_xshader_patcher.Hash.Md5.Stream.{
  Represents, Aligned, offset-tail, length-splice, take-splice, absorb_rest-Represents, update-wait,
  update-fill,
}

sized :
    (h : Md5Hasher) (message input : List ℕ)
    → Represents h message
    → (h.size + length input) % 2 ^ 64 ≡ length (message ++ input) % 2 ^ 64
sized h message input r = omega (arith, r.size, length-append message input)

-- The copy goes right behind the bytes that wait.
pending-splice :
    (h : Md5Hasher) (message input : List ℕ) (r : Represents h message)
    → take (h.size % 64 + length input) (splice h.block (h.size % 64) input) ≡ r.tail ++ input
pending-splice h message input r =
    let place : h.size % 64 ≡ length r.tail = offset-tail r in
    take-splice h.block (h.size % 64) input (omega (arith, r.full))
    ∙ ap (λ t. take t h.block ++ input) place
    ∙ ap (λ t. t ++ input) r.pending

wait-Represents :
    (h : Md5Hasher) (message input : List ℕ)
    → Represents h message
    → 0 < h.size % 64
    → h.size % 64 + length input < 64
    → Represents (update h input) (message ++ input)
wait-Represents h message input r begun fits =
    let place : h.size % 64 ≡ length r.tail = offset-tail r in
    let longer : length (r.tail ++ input) ≡ h.size % 64 + length input =
      omega (arith, length-append r.tail input) in
    rw (update-wait h input begun fits) (record {
      count = r.count;
      front = r.front;
      tail = r.tail ++ input;
      whole = sym (append_assoc r.front r.tail input) ∙ ap (λ t. t ++ input) r.whole;
      blocks = r.blocks;
      short = omega arith;
      state = r.state;
      pending =
          ap (λ n. take n (splice h.block (h.size % 64) input)) longer
          ∙ pending-splice h message input r;
      full = length-splice h.block (h.size % 64) input (omega (arith, r.full)) ∙ r.full;
      size = sized h message input r;
    })

fill-Represents :
    (h : Md5Hasher) (message input : List ℕ)
    → Represents h message
    → 0 < h.size % 64
    → 64 ≤ h.size % 64 + length input
    → Represents (update h input) (message ++ input)
fill-Represents h message input r begun enough =
    let place : h.size % 64 ≡ length r.tail = offset-tail r in
    let n = 64 - h.size % 64 in
    let c = take n input in
    let rest = drop n input in
    let block = splice h.block (h.size % 64) c in
    let filled : Md5Hasher = record {
      block = block;
      size = (h.size + length input) % 2 ^ 64;
      state = process_block h.state block;
    } in
    let c_length : length c ≡ n = omega (arith, length-take n input) in
    let block_full : length block ≡ 64 =
      length-splice h.block (h.size % 64) c (omega (arith, r.full)) ∙ r.full in
    let to_end : length block ≡ h.size % 64 + length c = omega arith in
    let contents : block ≡ r.tail ++ c =
      sym (take_all (length block) block (omega arith))
      ∙ ap (λ t. take t block) to_end
      ∙ pending-splice h message c r in
    let front = r.front ++ block in
    let joined : front ++ rest ≡ message ++ input =
      ap (λ t. (r.front ++ t) ++ rest) contents
      ∙ regroup r.front r.tail c rest
      ∙ ap₂ ◌++◌ r.whole (take-append-drop n input) in
    let aligned : Aligned filled front = record {
      count = r.count + 1;
      blocks = omega (arith, length-append r.front block, r.blocks);
      state =
          ap (λ w. process_block w block) r.state
          ∙ one_more r.count r.front block r.blocks block_full;
      full = block_full;
    } in
    rw (update-fill h input begun enough) (
      subst (λ t. Represents (absorb_rest filled rest) t) joined
        (absorb_rest-Represents filled front rest aligned
          (sized h message input r ∙ ap (λ t. length t % 2 ^ 64) (sym joined))))
  where
    regroup : (a b c d : List ℕ) → (a ++ (b ++ c)) ++ d ≡ (a ++ b) ++ (c ++ d)
    regroup a b c d = simp append_assoc

    one_more :
        (k : ℕ) (p b : List ℕ)
        → length p ≡ 64 * k
        → length b ≡ 64
        → process_block (absorb k initial p) b ≡ absorb (k + 1) initial (p ++ b)
    one_more k p b hp hb = sym (
        absorb-add k 1 initial p b hp
        ∙ ap (absorb 1 (absorb k initial p)) (sym (append-nil b))
        ∙ absorb-block 0 (absorb k initial p) b [] hb
        ∙ unfold absorb in refl)

update-aligned :
    (h : Md5Hasher) (input : List ℕ)
    → h.size % 64 ≡ 0
    → update h input ≡ absorb_rest (record h { size = (h.size + length input) % 2 ^ 64 }) input
unfolding update
update-aligned h input e = ground arith

aligned-Represents :
    (h : Md5Hasher) (message input : List ℕ)
    → Represents h message
    → h.size % 64 ≡ 0
    → Represents (update h input) (message ++ input)
aligned-Represents h message input r e =
    let place : h.size % 64 ≡ length r.tail = offset-tail r in
    let whole : r.front ≡ message =
      sym (append-nil r.front)
      ∙ ap (λ t. r.front ++ t) (sym (empty r.tail (omega arith)))
      ∙ r.whole in
    let joined : r.front ++ input ≡ message ++ input = ap (λ t. t ++ input) whole in
    let counted : Md5Hasher = record h { size = (h.size + length input) % 2 ^ 64 } in
    rw (update-aligned h input e) (
      subst (λ t. Represents (absorb_rest counted input) t) joined
        (absorb_rest-Represents counted r.front input
          (record { count = r.count; blocks = r.blocks; state = r.state; full = r.full })
          (sized h message input r ∙ ap (λ t. length t % 2 ^ 64) (sym joined))))
  where
    empty : (xs : List ℕ) → length xs ≡ 0 → xs ≡ []
    empty [] h = refl
    empty (x ∷ xs) h = absurd (omega arith)

-- `Update` appends its input to the message that the hasher stands for.
pub update-Represents :
    (h : Md5Hasher) (message input : List ℕ)
    → Represents h message
    → Represents (update h input) (message ++ input)
update-Represents h message input r = elim (Bool-cases (h.size % 64 == 0)) [
  | inl none_wait ↦ aligned-Represents h message input r (ground arith)
  | inr some_wait ↦ elim (Bool-cases (leb 64 (h.size % 64 + length input))) [
    | inl enough ↦ fill-Represents h message input r (ground arith) (leb→le _ _ enough)
    | inr few ↦ wait-Represents h message input r (ground arith) (ground arith)
  ]
]
