-- ===== src/Sm5/Bytes/RoundTrip.antt =====
-- Copies into a buffer of zeros, one behind another, and the copies that read them back.
use direct_xshader_patcher.Base.{
  map, ℕ, zero, suc, ◌+◌, ◌-◌, ◌*◌, ◌%◌, ◌^◌, ◌≤◌, ◌<◌, List, [], ◌∷◌, ◌++◌, length, take, drop,
  All, leb, true, ok, take_exact, drop_exact, length-append, length-replicate, append_assoc,
  append-nil, ◌≡◌, refl, sym, ap, ap₂, ◌∙◌, arith,
}
use direct_xshader_patcher.Hash.Md5.{little_endian, splice}
use direct_xshader_patcher.Sm5.Bytes.{
  zeros, from_little_endian, read_bytes, read_word, read_words, write_bytes, write_word,
  write_words,
}

pub length-little_endian : (x : ℕ) → length (little_endian 4 x) ≡ 4
unfolding little_endian
length-little_endian x = refl

from-little_endian : (x : ℕ) → from_little_endian (little_endian 4 x) ≡ x % 2 ^ 32
unfolding little_endian
from-little_endian x = omega arith

abbrev pub word_bytes : List ℕ → List ℕ
word_bytes [] = []
word_bytes (word ∷ words) = little_endian 4 word ++ word_bytes words

pub length-word_bytes : (words : List ℕ) → length (word_bytes words) ≡ 4 * length words
length-word_bytes [] = refl
length-word_bytes (word ∷ words) = omega (
  arith,
  length-append (little_endian 4 word) (word_bytes words),
  length-little_endian word,
  length-word_bytes words,
)

pub read_bytes-at :
    (p x r : List ℕ) (at n : ℕ)
    → length p ≡ at
    → length x ≡ n
    → read_bytes (p ++ (x ++ r)) at n ≡ ok x
unfolding read_bytes
read_bytes-at p x r at n here size =
    let inside : leb (at + n) (length (p ++ (x ++ r))) ≡ true =
      ground (arith, length-append p (x ++ r), length-append x r) in
    rw inside (ap ok (ap (take n) (drop_exact at p (x ++ r) here) ∙ take_exact n x r size))

pub read_word-at :
    (p r : List ℕ) (word at : ℕ)
    → length p ≡ at
    → read_word (p ++ (little_endian 4 word ++ r)) at ≡ ok (word % 2 ^ 32)
unfolding read_word
read_word-at p r word at here =
    rw (read_bytes-at p (little_endian 4 word) r at 4 here (length-little_endian word))
      (ap ok (from-little_endian word))

abbrev pub cut_words : List ℕ → List ℕ
cut_words = map (λ w. w % 2 ^ 32)

pub cut_words-id : (words : List ℕ) → All (λ w. w < 2 ^ 32) words → cut_words words ≡ words
cut_words-id [] h = refl
cut_words-id (w ∷ words) h = ap₂ ◌∷◌ (omega (arith, h.0)) (cut_words-id words h.1)

pub read_words-at :
    (p words r : List ℕ) (at n : ℕ)
    → length p ≡ at
    → length words ≡ n
    → read_words (p ++ (word_bytes words ++ r)) at n ≡ ok (cut_words words)
unfolding read_words
read_words-at p [] r at zero here size = refl
read_words-at p [] r at (suc n) here size = absurd (omega arith)
read_words-at p (word ∷ words) r at zero here size = absurd (omega arith)
read_words-at p (word ∷ words) r at (suc n) here size =
    let w = little_endian 4 word in
    let first : p ++ ((w ++ word_bytes words) ++ r) ≡ p ++ (w ++ (word_bytes words ++ r)) =
      simp append_assoc in
    let shifted : p ++ ((w ++ word_bytes words) ++ r) ≡ (p ++ w) ++ (word_bytes words ++ r) =
      simp append_assoc in
    let next : length (p ++ w) ≡ at + 4 =
      omega (arith, length-append p w, length-little_endian word) in
    let one =
      ap (λ b. read_word b at) first ∙ read_word-at p (word_bytes words ++ r) word at here in
    let rest =
      ap (λ b. read_words b (at + 4) n) shifted
      ∙ read_words-at (p ++ w) words r (at + 4) n next (omega arith) in
    rw one (rw rest refl)

-- A copy replaces as many bytes as it has.
pub write_bytes-at :
    (p z r x : List ℕ) (at : ℕ)
    → length p ≡ at
    → length z ≡ length x
    → write_bytes (p ++ (z ++ r)) at x ≡ ok (p ++ (x ++ r))
unfolding write_bytes splice
write_bytes-at p z r x at here size =
    let inside : leb (at + length x) (length (p ++ (z ++ r))) ≡ true =
      ground (arith, length-append p (z ++ r), length-append z r) in
    let behind : drop (at + length x) (p ++ (z ++ r)) ≡ r =
      ap (drop (at + length x)) (sym (append_assoc p z r))
      ∙ drop_exact (at + length x) (p ++ z) r (omega (arith, length-append p z)) in
    rw inside (ap ok (ap₂ (λ a b. a ++ (x ++ b)) (take_exact at p (z ++ r) here) behind))

pub replicate-add : (n k : ℕ) → zeros n ++ zeros k ≡ zeros (n + k)
replicate-add zero k = let e : k ≡ 0 + k = omega arith in ap (λ t. zeros t) e
replicate-add (suc n) k =
    let e : suc (n + k) ≡ suc n + k = omega arith in
    ap (λ t. 0 ∷ t) (replicate-add n k) ∙ ap (λ t. zeros t) e

-- A copy right behind what has been written, into zeros.
pub write_bytes-front :
    (p x : List ℕ) (at n : ℕ)
    → length p ≡ at
    → length x ≤ n
    → write_bytes (p ++ zeros n) at x ≡ ok ((p ++ x) ++ zeros (n - length x))
write_bytes-front p x at n here fits =
    let k = length x in
    let split : zeros n ≡ zeros k ++ zeros (n - k) =
      sym (
        replicate-add k (n - k) ∙ (let e : k + (n - k) ≡ n = omega arith in ap (λ t. zeros t) e)) in
    ap (λ z. write_bytes (p ++ z) at x) split
    ∙ write_bytes-at p (zeros k) (zeros (n - k)) x at here (length-replicate k 0)
    ∙ ap ok (sym (append_assoc p x (zeros (n - k))))

pub write_word-front :
    (p : List ℕ) (word at n : ℕ)
    → length p ≡ at
    → 4 ≤ n
    → write_word (p ++ zeros n) at word ≡ ok ((p ++ little_endian 4 word) ++ zeros (n - 4))
unfolding write_word
write_word-front p word at n here fits =
    write_bytes-front p (little_endian 4 word) at n here (omega (arith, length-little_endian word))
    ∙ ap (λ k. ok ((p ++ little_endian 4 word) ++ zeros (n - k))) (length-little_endian word)

pub write_words-front :
    (p words : List ℕ) (at n : ℕ)
    → length p ≡ at
    → 4 * length words ≤ n
    → write_words (p ++ zeros n) at words
      ≡ ok ((p ++ word_bytes words) ++ zeros (n - 4 * length words))
unfolding write_words
write_words-front p [] at n here fits =
    let e : n ≡ n - 4 * length {A = ℕ} [] = omega arith in
    ap₂ (λ t k. ok (t ++ zeros k)) (sym (append-nil p)) e
write_words-front p (word ∷ words) at n here fits =
    let w = little_endian 4 word in
    let next : length (p ++ w) ≡ at + 4 =
      omega (arith, length-append p w, length-little_endian word) in
    let left : n - 4 - 4 * length words ≡ n - 4 * suc (length words) = omega arith in
    rw (write_word-front p word at n here (omega arith)) (
      write_words-front (p ++ w) words (at + 4) (n - 4) next (omega arith)
      ∙ ap₂ (λ a k. ok (a ++ zeros k)) (append_assoc p w (word_bytes words)) left)
