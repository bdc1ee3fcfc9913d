-- ===== src/Sm5/Registers/Allocate.antt =====
-- `AllocateBindPoint` on every branch.
use direct_xshader_patcher.Base.{
  ℕ, zero, suc, ◌+◌, ◌^◌, ◌≤◌, ◌<◌, List, [], ◌∷◌, length, Bool, Bool-cases, true, false, ◌==◌,
  Result, ok, err, inl, inr, ◌⊎◌, ◌≡◌, refl, ap, ◌∙◌, arith,
}
use direct_xshader_patcher.Sm5.Registers.{
  contains, next_register, BindError, already_occupied, is_last, auto_bind, allocate_bind_point,
}
use direct_xshader_patcher.Sm5.Registers.Nearest.{
  count_from, count_from-length, taken_up, taken_down, up_one, down_one, AllTaken, FirstFree,
  LastFree,
}

met_zero : (xs : List ℕ) → contains xs 0 ≡ true → 1 ≤ count_from true 0 xs
unfolding count_from
met_zero [] e = cc
met_zero (x ∷ xs) e = elim (Bool-cases (x == 0)) [
  | inl here ↦ ground arith
  | inr later ↦ ground (arith, met_zero xs (rw (later, contains) at e))
]

-- How a search upwards ends: at the first free register, or with all of them taken.
abbrev UpOutcome : List ℕ → ℕ → Result BindError ℕ → Type 0
UpOutcome occupied c result =
    ((r : ℕ) × (result ≡ ok r) × (r < 2 ^ 32) × FirstFree occupied c r)
    ⊎ ((result ≡ err BindError.exhausted) × AllTaken occupied c (2 ^ 32))

auto_bind-up :
    (fuel : ℕ) (occupied : List ℕ) (c : ℕ)
    → count_from false c occupied ≤ fuel
    → c < 2 ^ 32
    → UpOutcome occupied c (auto_bind fuel occupied false c)
unfolding auto_bind
auto_bind-up zero occupied c enough small = elim (Bool-cases (contains occupied c)) [
  | inl taken ↦ absurd (omega (arith, taken_up c occupied taken))
  | inr ends ↦
      rw ends (inl (c, refl, small, (omega arith, ends, λ n. λ low. λ high. absurd (omega arith))))
]
auto_bind-up (suc fuel) occupied c enough small = elim (Bool-cases (contains occupied c)) [
  | inr ends ↦
      rw ends (inl (c, refl, small, (omega arith, ends, λ n. λ low. λ high. absurd (omega arith))))
  | inl taken ↦ elim (Bool-cases (is_last false c)) [
    | inl last ↦ rw taken (
        rw last (
          inr (
            refl,
            λ n. λ low.
                λ high. let same : n ≡ c = ground arith in ap (contains occupied) same ∙ taken,
          )))
    | inr later ↦
        let fits : c + 1 < 2 ^ 32 = ground arith in
        let next : next_register false c ≡ c + 1 = omega arith in
        rw taken (
          rw later (
            rw next (
              further c (auto_bind fuel occupied false (c + 1)) taken (
                auto_bind-up fuel occupied (c + 1) (omega (arith, taken_up c occupied taken))
                  fits))))
  ]
]
  where
    further :
        (c : ℕ) (result : Result BindError ℕ)
        → contains occupied c ≡ true
        → UpOutcome occupied (c + 1) result
        → UpOutcome occupied c result
    further c result taken (inl (r, e, small, first)) =
        inl (r, e, small, up_one occupied c r taken first)
    further c result taken (inr (e, all)) = inr (
      e,
      λ n. λ low. λ high. elim (Bool-cases (n == c)) [
        | inl here ↦ let same : n ≡ c = ground arith in ap (contains occupied) same ∙ taken
        | inr there ↦ all n (ground arith) high
      ],
    )

abbrev DownOutcome : List ℕ → ℕ → Result BindError ℕ → Type 0
DownOutcome occupied c result =
    ((r : ℕ) × (result ≡ ok r) × LastFree occupied c r)
    ⊎ ((result ≡ err BindError.exhausted) × AllTaken occupied 0 (c + 1))

down_further :
    (occupied : List ℕ) (c : ℕ) (result : Result BindError ℕ)
    → contains occupied (suc c) ≡ true
    → DownOutcome occupied c result
    → DownOutcome occupied (suc c) result
down_further occupied c result taken (inl (r, e, last)) =
    inl (r, e, down_one occupied c r taken last)
down_further occupied c result taken (inr (e, all)) = inr (
  e,
  λ n. λ low. λ high. elim (Bool-cases (n == suc c)) [
    | inl here ↦ let same : n ≡ suc c = ground arith in ap (contains occupied) same ∙ taken
    | inr there ↦ all n low (ground arith)
  ],
)

auto_bind-down :
    (fuel : ℕ) (occupied : List ℕ) (c : ℕ)
    → count_from true c occupied ≤ fuel
    → c < 2 ^ 32
    → DownOutcome occupied c (auto_bind fuel occupied true c)
unfolding auto_bind
auto_bind-down zero occupied zero enough small = elim (Bool-cases (contains occupied 0)) [
  | inl taken ↦ absurd (omega (arith, met_zero occupied taken))
  | inr ends ↦
      rw ends (inl (0, refl, (omega arith, ends, λ n. λ low. λ high. absurd (omega arith))))
]
auto_bind-down (suc fuel) occupied zero enough small = elim (Bool-cases (contains occupied 0)) [
  | inl taken ↦ rw taken (
      inr (
        refl,
        λ n. λ low. λ high. let same : n ≡ 0 = omega arith in ap (contains occupied) same ∙ taken,
      ))
  | inr ends ↦
      rw ends (inl (0, refl, (omega arith, ends, λ n. λ low. λ high. absurd (omega arith))))
]
auto_bind-down zero occupied (suc c) enough small = elim (Bool-cases (contains occupied (suc c))) [
  | inl taken ↦ absurd (omega (arith, taken_down c occupied taken))
  | inr ends ↦
      rw ends (inl (suc c, refl, (omega arith, ends, λ n. λ low. λ high. absurd (omega arith))))
]
auto_bind-down (suc fuel) occupied (suc c) enough small =
    elim (Bool-cases (contains occupied (suc c))) [
      | inr ends ↦
          rw ends (inl (suc c, refl, (omega arith, ends, λ n. λ low. λ high. absurd (omega arith))))
      | inl taken ↦
          let more : is_last true (suc c) ≡ false = ground arith in
          let next : next_register true (suc c) ≡ c = omega arith in
          rw taken (
            rw more (
              rw next (
                down_further occupied c (auto_bind fuel occupied true c) taken (
                  auto_bind-down fuel occupied c (omega (arith, taken_down c occupied taken))
                    (omega arith)))))
    ]

-- The register that a declaration asks for, or starts the search at.
abbrev pub Outcome : List ℕ → Bool → ℕ → Bool → Result BindError ℕ → Type 0
Outcome occupied false requested reverse result =
    ((result ≡ ok requested) × (contains occupied requested ≡ false))
    ⊎ ((result ≡ err (already_occupied requested)) × (contains occupied requested ≡ true))
Outcome occupied true requested false result = UpOutcome occupied requested result
Outcome occupied true requested true result = DownOutcome occupied requested result

-- `AllocateBindPoint` on every branch, for a 32-bit register: a requested register is taken as it
-- is when it is free and is refused when it is not; without one the search ends, at the nearest
-- free register in its direction, and fails only when every register there is taken.
pub allocate_bind_point-Outcome :
    (occupied : List ℕ) (is_auto : Bool) (requested : ℕ) (reverse : Bool)
    → requested < 2 ^ 32
    → Outcome occupied is_auto requested reverse
        (allocate_bind_point occupied is_auto requested reverse)
unfolding allocate_bind_point
allocate_bind_point-Outcome occupied false requested reverse small =
    elim (Bool-cases (contains occupied requested)) [
      | inl taken ↦ rw taken (inr (refl, refl))
      | inr free ↦ rw free (inl (refl, refl))
    ]
allocate_bind_point-Outcome occupied true requested false small =
    auto_bind-up (length occupied) occupied requested (count_from-length false requested occupied)
      small
allocate_bind_point-Outcome occupied true requested true small =
    auto_bind-down (length occupied) occupied requested (count_from-length true requested occupied)
      small
