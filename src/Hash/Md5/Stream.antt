-- ===== src/Hash/Md5/Stream.antt =====
-- The hasher refines the message that it has been given: a relation between a hasher and the bytes
-- so far, which every `Update` keeps.
use direct_xshader_patcher.Base.{
  ℕ, ◌+◌, ◌-◌, ◌*◌, ◌%◌, ◌^◌, ◌≤◌, ◌<◌, ◌≡◌, refl, ap, sym, ◌∙◌, List, [], ◌∷◌, ◌++◌, length, take,
  drop, append_assoc, length-take, length-drop, length-append, take_exact, take_all, drop_all,
  arith, is_empty, if◌then◌else◌,
}
use direct_xshader_patcher.Hash.Md5.Compress.{process_block}
use direct_xshader_patcher.Hash.Md5.Reference.{absorb}
use direct_xshader_patcher.Hash.Md5.{
  Md5Hasher, initial, fresh, splice, drain, top_up, absorb_rest, update,
}
use direct_xshader_patcher.Hash.Md5.Blocks.{absorb-add, drain-Drained}

-- The hasher has taken in the message: whole blocks compressed, the rest waiting in the block.
pub record Represents (h : Md5Hasher) (message : List ℕ) : Type 0 where
  pub count : ℕ
  pub front : List ℕ
  pub tail : List ℕ
  pub whole : front ++ tail ≡ message
  pub blocks : length front ≡ 64 * count
  pub short : length tail < 64
  pub state : h.state ≡ absorb count initial front
  pub pending : take (length tail) h.block ≡ tail
  pub full : length h.block ≡ 64
  pub size : h.size ≡ length message % 2 ^ 64

pub fresh-Represents : Represents fresh []
unfolding absorb
fresh-Represents = record {
  count = 0;
  front = [];
  tail = [];
  whole = refl;
  blocks = omega arith;
  short = omega arith;
  state = refl;
  pending = refl;
  full = omega arith;
  size = omega arith;
}

pub offset-tail :
    {h : Md5Hasher} {message : List ℕ} (r : Represents h message) → h.size % 64 ≡ length r.tail
offset-tail r =
    omega (arith, r.size, r.blocks, r.short, ap length r.whole, length-append r.front r.tail)

pub length-splice :
    (to : List ℕ) (at : ℕ) (bytes : List ℕ)
    → at + length bytes ≤ length to
    → length (splice to at bytes) ≡ length to
unfolding splice
length-splice to at bytes h = omega (
  arith,
  length-append (take at to) (bytes ++ drop (at + length bytes) to),
  length-append bytes (drop (at + length bytes) to),
  length-take at to,
  length-drop (at + length bytes) to,
)

-- Right after a copy the block begins with what stood before the place, then the bytes.
pub take-splice :
    (to : List ℕ) (at : ℕ) (bytes : List ℕ)
    → at ≤ length to
    → take (at + length bytes) (splice to at bytes) ≡ take at to ++ bytes
unfolding splice
take-splice to at bytes h =
    let start = take at to in
    let beyond = drop (at + length bytes) to in
    ap (take (at + length bytes)) (sym (append_assoc start bytes beyond))
    ∙ take_exact (at + length bytes) (start ++ bytes) beyond
        (omega (arith, length-append start bytes, length-take at to))

-- No byte waits: the message so far is whole blocks.
pub record Aligned (h : Md5Hasher) (front : List ℕ) : Type 0 where
  pub count : ℕ
  pub blocks : length front ≡ 64 * count
  pub state : h.state ≡ absorb count initial front
  pub full : length h.block ≡ 64

abbrev kept : List ℕ → List ℕ → List ℕ
kept to rest = if is_empty rest then to else splice to 0 rest

take-kept :
    (to rest : List ℕ)
    → length rest < 64
    → length to ≡ 64
    → take (length rest) (kept to rest) ≡ rest
take-kept to [] h full = refl
take-kept to (x ∷ xs) h full =
    let bytes = x ∷ xs in
    let plain : length bytes ≡ 0 + length bytes = omega arith in
    ap (λ n. take n (splice to 0 bytes)) plain ∙ take-splice to 0 bytes (omega arith)

length-kept : (to rest : List ℕ) → length rest < 64 → length to ≡ 64 → length (kept to rest) ≡ 64
length-kept to [] h full = full
length-kept to (x ∷ xs) h full = length-splice to 0 (x ∷ xs) (omega arith) ∙ full

pub absorb_rest-Represents :
    (h : Md5Hasher) (front input : List ℕ)
    → Aligned h front
    → h.size ≡ length (front ++ input) % 2 ^ 64
    → Represents (absorb_rest h input) (front ++ input)
unfolding absorb_rest
absorb_rest-Represents h front input a sized =
    let d = drain-Drained (length input) h.state input (omega arith) in
    let rest = (drain (length input) h.state input).1 in
    record {
      count = a.count + d.count;
      front = front ++ d.front;
      tail = rest;
      whole = append_assoc front d.front rest ∙ ap (λ t. front ++ t) d.whole;
      blocks = omega (arith, length-append front d.front, a.blocks, d.blocks);
      short = d.short;
      state =
          d.state
          ∙ ap (λ w. absorb d.count w d.front) a.state
          ∙ sym (absorb-add a.count d.count initial front d.front a.blocks);
      pending = take-kept h.block rest d.short a.full;
      full = length-kept h.block rest d.short a.full;
      size = sized;
    }

-- Fewer bytes than the block still takes only wait.
pub update-wait :
    (h : Md5Hasher) (input : List ℕ)
    → 0 < h.size % 64
    → h.size % 64 + length input < 64
    → update h input ≡ record {
      block = splice h.block (h.size % 64) input;
      size = (h.size + length input) % 2 ^ 64;
      state = h.state;
    }
unfolding update top_up absorb_rest drain
update-wait h input begun fits = ground (
  arith,
  take_all (length input) input (omega arith),
  drop_all (length input) input (omega arith),
)

-- Enough bytes fill the block, which is compressed, and the rest of the input follows.
pub update-fill :
    (h : Md5Hasher) (input : List ℕ)
    → 0 < h.size % 64
    → 64 ≤ h.size % 64 + length input
    → let offset = h.size % 64 in
      let block = splice h.block offset (take (64 - offset) input) in
      let filled : Md5Hasher = record {
        block = block;
        size = (h.size + length input) % 2 ^ 64;
        state = process_block h.state block;
      } in
      update h input ≡ absorb_rest filled (drop (64 - offset) input)
unfolding update top_up
update-fill h input begun full = ground (arith, length-take (64 - h.size % 64) input)
