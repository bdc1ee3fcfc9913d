-- ===== src/Sm5/Registers/Nearest.antt =====
-- The searches end at the nearest free register.
use direct_xshader_patcher.Base.{
  ℕ, zero, suc, ◌+◌, ◌^◌, ◌≤◌, ◌<◌, List, [], ◌∷◌, length, Bool, Bool-cases, true, false, ◌==◌,
  if◌then◌else◌, leb, inl, inr, ◌≡◌, sym, ap, ◌∙◌, arith,
}
use direct_xshader_patcher.Sm5.Registers.{contains, next_register, scan, find_next_available}

-- How many entries a search from `n` may still meet.
unfoldable pub count_from : Bool → ℕ → List ℕ → ℕ
count_from from_high n [] = 0
count_from from_high n (x ∷ xs) =
    let rest = count_from from_high n xs in
    if (if from_high then leb x n else leb n x) then suc rest else rest

pub count_from-length :
    (from_high : Bool) (n : ℕ) (xs : List ℕ) → count_from from_high n xs ≤ length xs
unfolding count_from
count_from-length from_high n [] = omega arith
count_from-length true n (x ∷ xs) = ground (arith, count_from-length true n xs)
count_from-length false n (x ∷ xs) = ground (arith, count_from-length false n xs)

-- Fewer are left behind a register, and one fewer behind one that was met.
count_from-up :
    (n : ℕ) (xs : List ℕ)
    → count_from false (n + 1) xs + (if contains xs n then 1 else 0) ≤ count_from false n xs
unfolding count_from
count_from-up n [] = omega arith
count_from-up n (x ∷ xs) = ground (arith, count_from-up n xs)

count_from-down :
    (n : ℕ) (xs : List ℕ)
    → count_from true n xs + (if contains xs (suc n) then 1 else 0) ≤ count_from true (suc n) xs
unfolding count_from
count_from-down n [] = omega arith
count_from-down n (x ∷ xs) = ground (arith, count_from-down n xs)

pub taken_up :
    (n : ℕ) (xs : List ℕ)
    → contains xs n ≡ true
    → count_from false (n + 1) xs + 1 ≤ count_from false n xs
taken_up n xs taken = ground (arith, taken, count_from-up n xs)

pub taken_down :
    (n : ℕ) (xs : List ℕ)
    → contains xs (suc n) ≡ true
    → count_from true n xs + 1 ≤ count_from true (suc n) xs
taken_down n xs taken = ground (arith, taken, count_from-down n xs)

-- The registers from `a` to below `b` are all occupied.
abbrev pub AllTaken : List ℕ → ℕ → ℕ → Type 0
AllTaken occupied a b = (n : ℕ) → a ≤ n → n < b → contains occupied n ≡ true

-- The first free register from `a` upwards, or from `b` downwards.
abbrev pub FirstFree : List ℕ → ℕ → ℕ → Type 0
FirstFree occupied a r = (a ≤ r) × (contains occupied r ≡ false) × AllTaken occupied a r

abbrev pub LastFree : List ℕ → ℕ → ℕ → Type 0
LastFree occupied b r = (r ≤ b) × (contains occupied r ≡ false) × AllTaken occupied (r + 1) (b + 1)

pub up_one :
    (occupied : List ℕ) (a r : ℕ)
    → contains occupied a ≡ true
    → FirstFree occupied (a + 1) r
    → FirstFree occupied a r
up_one occupied a r taken (le, free, all) = (omega arith, free, more)
  where
    more : AllTaken occupied a r
    more n low high = elim (Bool-cases (n == a)) [
      | inl here ↦ let same : n ≡ a = ground arith in ap (contains occupied) same ∙ taken
      | inr there ↦ all n (ground arith) high
    ]

pub down_one :
    (occupied : List ℕ) (b r : ℕ)
    → contains occupied (suc b) ≡ true
    → LastFree occupied b r
    → LastFree occupied (suc b) r
down_one occupied b r taken (le, free, all) = (omega arith, free, more)
  where
    more : AllTaken occupied (r + 1) (suc b + 1)
    more n low high = elim (Bool-cases (n == suc b)) [
      | inl here ↦ let same : n ≡ suc b = ground arith in ap (contains occupied) same ∙ taken
      | inr there ↦ all n low (ground arith)
    ]

scan-up :
    (fuel : ℕ) (occupied : List ℕ) (bp k : ℕ)
    → count_from false bp occupied ≤ fuel
    → bp ≤ k
    → k < 2 ^ 32
    → contains occupied k ≡ false
    → FirstFree occupied bp (scan fuel occupied false bp)
unfolding scan
scan-up zero occupied bp k enough le small free = elim (Bool-cases (contains occupied bp)) [
  | inl taken ↦ let fewer = taken_up bp occupied taken in absurd (omega (arith, fewer))
  | inr ends ↦ (omega arith, ends, λ n. λ low. λ high. absurd (omega arith))
]
scan-up (suc fuel) occupied bp k enough le small free = elim (Bool-cases (contains occupied bp)) [
  | inl taken ↦
      let fewer = taken_up bp occupied taken in
      let apart : bp < k = elim (Bool-cases (bp == k)) [
        | inl same ↦
            let e : bp ≡ k = ground arith in
            let both : true ≡ false = sym taken ∙ ap (contains occupied) e ∙ free in
            absurd (impossible both)
        | inr other ↦ ground arith
      ] in
      let next : next_register false bp ≡ bp + 1 = omega arith in
      rw taken (
        up_one occupied bp _ taken (
          rw next
            (scan-up fuel occupied (bp + 1) k (omega (arith, fewer)) (omega arith) small free)))
  | inr ends ↦ rw ends (omega arith, ends, λ n. λ low. λ high. absurd (omega arith))
]
  where
    impossible : true ≡ false → ⊥
    impossible e = cc

-- `FindNextAvailable...` from below: when any register from the preferred one on is free, the loop
-- ends, at the first free one.
pub find_next_available-FirstFree :
    (occupied : List ℕ) (preferred k : ℕ)
    → preferred ≤ k
    → k < 2 ^ 32
    → contains occupied k ≡ false
    → FirstFree occupied preferred (find_next_available occupied preferred false)
unfolding find_next_available
find_next_available-FirstFree occupied preferred k le small free =
    scan-up (length occupied) occupied preferred k (count_from-length false preferred occupied) le
      small free
