-- ===== src/Sm5/Match/Literals.antt =====
-- Patterns of literals: what an operand pattern whose index slots are an array of 64-bit numbers
-- matches.
use direct_xshader_patcher.Base.{
  ℕ, suc, ◌>>◌, ◌||◌, require, append-nil, ◌+◌, ◌*◌, ◌/◌, ◌%◌, ◌^◌, List, [], ◌∷◌, map, length,
  Bool, Bool-cases, true, false, ◌&&◌, ltb, ◌==◌, none, some, ok, err, Result, if◌then◌else◌, ◌≡◌,
  refl, ap, ◌∙◌, inl, inr, arith,
}
use direct_xshader_patcher.Sm5.Operands.{
  IndexEntries, no_entries, entry, entry_count, immediate32, immediate64, relative,
  immediate32_plus_relative, immediate64_plus_relative, operand, OperandHead, RelativeOperand,
}
use direct_xshader_patcher.Sm5.Roles.{ComponentFormat}
use direct_xshader_patcher.Sm5.Match.{
  OperandPattern, OperandIndexPattern, literal, u64, MatchContext, Mismatch, mismatch,
}
use direct_xshader_patcher.Sm5.Match.Patterns.{long_pattern, index_patterns}
use direct_xshader_patcher.Sm5.Match.Operands.{
  Captured, matches_indices, matches_operand_index, matches_operand, slots_count,
}

-- The pattern with these literals and nothing else.
abbrev pub literals_u64 : List ℕ → OperandPattern
literals_u64 xs = record {
  any = false;
  type = none;
  indices = [];
  immediates_u32 = [];
  immediates_u64 = map literal xs;
  immediates_i32 = [];
  immediates_i64 = [];
  immediates_f32 = [];
  immediates_f64 = [];
  num_components = none;
  mask = [];
  swizzle = [];
  select = [];
  modifier = none;
  decl = none;
  capture = "";
  match_capture = "";
  export_as = none;
}

-- The entries are 64-bit immediates, one for each number, whose halves make it up.
unfoldable pub spells : List ℕ → IndexEntries → Bool
spells [] no_entries = true
spells (x ∷ xs) (entry immediate64 (some lo) (some hi) inner others) =
    ltb lo (2 ^ 32) && (lo + hi * 2 ^ 32 == x && spells xs others)
spells _ _ = false

halves :
    (x lo hi : ℕ)
    → (x % 2 ^ 32 == lo && x / 2 ^ 32 == hi) ≡ (ltb lo (2 ^ 32) && lo + hi * 2 ^ 32 == x)
halves x lo hi = ground arith

-- A slot whose test is another one, with the slots behind it.
one_slot :
    (low high word number others : Bool) (slots : Result Mismatch Captured) (captured : Captured)
    → (low && high) ≡ (word && number)
    → slots ≡ (if others then ok captured else err mismatch)
    → (require (low && (high && true)) mismatch >> slots)
      ≡ (if word && (number && others) then ok captured else err mismatch)
one_slot true true true true others slots captured same rest = rest
one_slot true true true false others slots captured same rest = cc
one_slot true true false number others slots captured same rest = cc
one_slot true false true true others slots captured same rest = cc
one_slot true false true false others slots captured same rest = refl
one_slot true false false number others slots captured same rest = refl
one_slot false high true true others slots captured same rest = cc
one_slot false high true false others slots captured same rest = refl
one_slot false high false number others slots captured same rest = refl

spells-length :
    (xs : List ℕ) (slots : IndexEntries) → spells xs slots ≡ true → length xs ≡ entry_count slots
unfolding spells
spells-length [] no_entries e = refl
spells-length [] (entry r lo hi inner others) e = cc
spells-length (x ∷ xs) no_entries e = cc
spells-length (x ∷ xs) (entry immediate64 (some lo) (some hi) inner others) e =
    ap suc (spells-length xs others (ground arith))
spells-length (x ∷ xs) (entry immediate64 (some lo) none inner others) e = cc
spells-length (x ∷ xs) (entry immediate64 none hi inner others) e = cc
spells-length (x ∷ xs) (entry immediate32 lo hi inner others) e = cc
spells-length (x ∷ xs) (entry relative lo hi inner others) e = cc
spells-length (x ∷ xs) (entry immediate32_plus_relative lo hi inner others) e = cc
spells-length (x ∷ xs) (entry immediate64_plus_relative lo hi inner others) e = cc

module _ (components : ComponentFormat) (context : MatchContext) where
  matches_indices-spells :
      (xs : List ℕ) (entries : IndexEntries) (captured : Captured)
      → length xs ≡ entry_count entries
      → matches_indices components context
          (map (long_pattern u64) (map literal xs))
          entries
          captured
        ≡ (if spells xs entries then ok captured else err mismatch)
  unfolding matches_indices matches_operand_index spells
  matches_indices-spells [] no_entries captured e = refl
  matches_indices-spells [] (entry r lo hi inner others) captured e = absurd (omega (arith, e))
  matches_indices-spells (x ∷ xs) no_entries captured e = refl
  matches_indices-spells (x ∷ xs) (entry immediate64 (some lo) (some hi) inner others) captured e =
      one_slot (x % 2 ^ 32 == lo) (x / 2 ^ 32 == hi) (ltb lo (2 ^ 32)) (lo + hi * 2 ^ 32 == x)
        (spells xs others) _ captured (halves x lo hi)
        (matches_indices-spells xs others captured (omega (arith, e)))
  matches_indices-spells (x ∷ xs) (entry immediate64 (some lo) none inner others) captured e =
      ground arith
  matches_indices-spells (x ∷ xs) (entry immediate64 none hi inner others) captured e = refl
  matches_indices-spells (x ∷ xs) (entry immediate32 lo hi inner others) captured e = refl
  matches_indices-spells (x ∷ xs) (entry relative lo hi inner others) captured e = refl
  matches_indices-spells (x ∷ xs) (entry immediate32_plus_relative lo hi inner others) captured e =
      refl
  matches_indices-spells (x ∷ xs) (entry immediate64_plus_relative lo hi inner others) captured e =
      refl

  slots_count-literals :
      (components : ComponentFormat) (xs : List ℕ)
      → slots_count components (map (long_pattern u64) (map literal xs)) ≡ length xs
  slots_count-literals components [] = refl
  slots_count-literals components (x ∷ xs) = ap suc (slots_count-literals components xs)

  not_empty : (xs : List ℕ) → (suc (length xs) == 0) ≡ false
  not_empty xs = ground arith

  slots-spells :
      (x : ℕ) (xs : List ℕ) (slots : IndexEntries) (captured : Captured)
      → (require (suc (length xs) == 0 || suc (length xs) == entry_count slots) mismatch
          >> matches_indices components context
              (map (long_pattern u64) (map literal (x ∷ xs)))
              slots
              captured)
        ≡ (if spells (x ∷ xs) slots then ok captured else err mismatch)
  slots-spells x xs slots captured = elim (Bool-cases (suc (length xs) == entry_count slots)) [
    | inl same ↦
        rw (not_empty xs, same) (matches_indices-spells (x ∷ xs) slots captured (ground arith))
    | inr other ↦ elim (Bool-cases (spells (x ∷ xs) slots)) [
      | inl spelled ↦ let e = spells-length (x ∷ xs) slots spelled in absurd (ground arith)
      | inr not_spelled ↦ rw (not_empty xs, other, not_spelled) refl
    ]
  ]

  -- An operand pattern with 64-bit literals and nothing else matches an operand exactly when its
  -- index slots are as many 64-bit immediates whose halves make up the literals, in their order;
  -- nothing is captured.
  pub literals_u64-matches :
      (x : ℕ) (xs : List ℕ) (head : OperandHead) (slots : IndexEntries) (outer : RelativeOperand)
      (captured : Captured)
      → matches_operand components context
          (literals_u64 (x ∷ xs))
          (operand head slots outer)
          captured
        ≡ (if spells (x ∷ xs) slots then ok captured else err mismatch)
  unfolding matches_operand index_patterns
  literals_u64-matches x xs head slots outer captured =
      let patterns = map (long_pattern u64) (map literal (x ∷ xs)) in
      let body : List OperandIndexPattern → Result Mismatch Captured = λ ps.
        require (slots_count components ps == 0 || slots_count components ps == entry_count slots)
          mismatch
        >> matches_indices components context ps slots captured in
      let counted : ℕ → Result Mismatch Captured = λ n.
        require (n == 0 || n == entry_count slots) mismatch
        >> matches_indices components context patterns slots captured in
      ap body (append-nil patterns)
      ∙ ap counted (slots_count-literals components (x ∷ xs))
      ∙ slots-spells x xs slots captured
