-- ===== src/Hash/Md5/Blocks.antt =====
-- Compressing whole blocks one after another: the reference loop over a concatenation, and the
-- loop of `Update` over its input.
use direct_xshader_patcher.Base.{
  ℕ, zero, suc, ◌+◌, ◌*◌, ◌≤◌, ◌<◌, ◌≡◌, refl, ap, ap₂, sym, ◌∙◌, List, [], ◌∷◌, ◌++◌, length, take,
  drop, append_assoc, take-append-drop, length-take, length-drop, length-append, take_exact,
  drop_exact, arith, leb, leb→le, Bool-cases, subst, inl, inr,
}
use direct_xshader_patcher.Hash.Md5.Compress.{Words, process_block}
use direct_xshader_patcher.Hash.Md5.Reference.{absorb}
use direct_xshader_patcher.Hash.Md5.{drain}

pub absorb-block :
    (n : ℕ) (w : Words) (c m : List ℕ)
    → length c ≡ 64
    → absorb (suc n) w (c ++ m) ≡ absorb n (process_block w c) m
unfolding absorb
absorb-block n w c m h =
    ap₂ (λ a b. absorb n (process_block w a) b) (take_exact 64 c m h) (drop_exact 64 c m h)

pub absorb-add :
    (n k : ℕ) (w : Words) (p q : List ℕ)
    → length p ≡ 64 * n
    → absorb (n + k) w (p ++ q) ≡ absorb k (absorb n w p) q
absorb-add zero k w [] q h = counted ∙ unfold absorb in refl
  where
    counted : absorb (0 + k) w q ≡ absorb k w q
    counted = let e : 0 + k ≡ k = omega arith in ap (λ t. absorb t w q) e
absorb-add zero k w (x ∷ p) q h = absurd (omega arith)
absorb-add (suc n) k w p q h =
    let c = take 64 p in
    let r = drop 64 p in
    let c_full : length c ≡ 64 = omega (arith, length-take 64 p) in
    let split : c ++ r ≡ p = take-append-drop 64 p in
    let regrouped : p ++ q ≡ c ++ (r ++ q) = ap (λ t. t ++ q) (sym split) ∙ append_assoc c r q in
    let counted : suc n + k ≡ suc (n + k) = omega arith in
    ap₂ (λ t m. absorb t w m) counted regrouped
    ∙ absorb-block (n + k) w c (r ++ q) c_full
    ∙ absorb-add n k (process_block w c) r q (omega (arith, length-drop 64 p))
    ∙ ap (λ t. absorb k t q) (sym (absorb-block n w c r c_full) ∙ ap (absorb (suc n) w) split)

-- The input was cut into whole blocks, which were compressed, and a rest shorter than a block.
pub record Drained (w : Words) (input : List ℕ) (r : Words × List ℕ) : Type 0 where
  pub count : ℕ
  pub front : List ℕ
  pub whole : front ++ r.1 ≡ input
  pub blocks : length front ≡ 64 * count
  pub short : length r.1 < 64
  pub state : r.0 ≡ absorb count w front

Drained-block :
    (w : Words) (c m : List ℕ) {r : Words × List ℕ}
    → length c ≡ 64
    → Drained (process_block w c) m r
    → Drained w (c ++ m) r
Drained-block w c m {r} h d = record {
  count = suc d.count;
  front = c ++ d.front;
  whole = append_assoc c d.front r.1 ∙ ap (λ t. c ++ t) d.whole;
  blocks = omega (arith, length-append c d.front, d.blocks);
  short = d.short;
  state = d.state ∙ sym (absorb-block d.count w c d.front h);
}

pub drain-Drained :
    (fuel : ℕ) (w : Words) (input : List ℕ)
    → length input ≤ fuel
    → Drained w input (drain fuel w input)
unfolding drain absorb
drain-Drained zero w input h = record {
  count = 0;
  front = [];
  whole = refl;
  blocks = omega arith;
  short = omega arith;
  state = refl;
}
drain-Drained (suc fuel) w input h = elim (Bool-cases (leb 64 (length input))) [
  | inl more ↦
      let c = take 64 input in
      let m = drop 64 input in
      let enough : 64 ≤ length input = leb→le _ _ more in
      let rest = drain-Drained fuel (process_block w c) m (omega (arith, length-drop 64 input)) in
      rw (more, drain)
        (subst (λ t. Drained w t (drain fuel (process_block w c) m)) (take-append-drop 64 input)
          (Drained-block w c m (omega (arith, length-take 64 input)) rest))
  | inr done ↦
      rw (done, drain)
        (record {
          count = 0;
          front = [];
          whole = refl;
          blocks = omega arith;
          short = ground arith;
          state = refl;
        })
]
