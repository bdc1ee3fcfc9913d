-- ===== src/Sm5/Operands/Encodable.antt =====
-- The operands that the token format has a place for, and the places their parse gives them.
use direct_xshader_patcher.Base.{
  ℕ, suc, ◌+◌, ◌^◌, ◌≤◌, ◌<◌, List, [], ◌∷◌, ◌++◌, length, false, ◌==◌, if◌then◌else◌, none, some,
  ok, ◌≡◌, subst, arith,
}
use direct_xshader_patcher.Sm5.Tokens.{parse_read_dword}
use direct_xshader_patcher.Sm5.Operands.{
  immediate32, immediate64, relative, immediate32_plus_relative, Operand, operand, IndexEntries,
  no_entries, entry, OperandFormat, OperandHead, RelativeOperand, not_relative, relative_to,
  is_immediate, operand_immediate32, entry_count, encode, encode_entry, encode_relative,
  encode_extension,
}
use direct_xshader_patcher.Sm5.Operands.Layout.{HeadEncodable, AllNarrow}

-- The entries of an immediate operand hold a word each.
pub data ImmediateEntries : IndexEntries → Type 0 where
  no_immediates : ImmediateEntries no_entries
  immediate :
      (lo : ℕ) (entries : IndexEntries)
      → lo < 2 ^ 32
      → ImmediateEntries entries
      → ImmediateEntries (entry immediate32 (some lo) none not_relative entries)

-- An immediate operand has as many entries as its components ask for, and none is 64 bits wide.
-- Any other operand has up to three, each with the immediates and the relative operand that its
-- representation names. No operand is relative by itself, and none has 64 bits and a relative part.
mutual
  pub data Encodable : Operand → Type 0 where
    immediates :
        (head : OperandHead) (entries : IndexEntries)
        → HeadEncodable head
        → head.type ≡ operand_immediate32
        → entry_count entries ≡ (if head.num_components == 1 then 1 else 4)
        → ImmediateEntries entries
        → Encodable (operand head entries not_relative)
    registers :
        (head : OperandHead) (entries : IndexEntries)
        → HeadEncodable head
        → is_immediate head.type ≡ false
        → entry_count entries ≤ 3
        → EntriesEncodable entries
        → Encodable (operand head entries not_relative)

  pub data EntriesEncodable : IndexEntries → Type 0 where
    no_indices : EntriesEncodable no_entries
    one_word :
        (lo : ℕ) (entries : IndexEntries)
        → lo < 2 ^ 32
        → EntriesEncodable entries
        → EntriesEncodable (entry immediate32 (some lo) none not_relative entries)
    two_words :
        (lo hi : ℕ) (entries : IndexEntries)
        → lo < 2 ^ 32
        → hi < 2 ^ 32
        → EntriesEncodable entries
        → EntriesEncodable (entry immediate64 (some lo) (some hi) not_relative entries)
    register :
        (inner : Operand) (entries : IndexEntries)
        → Encodable inner
        → EntriesEncodable entries
        → EntriesEncodable (entry relative none none (relative_to inner) entries)
    offset_register :
        (lo : ℕ) (inner : Operand) (entries : IndexEntries)
        → lo < 2 ^ 32
        → Encodable inner
        → EntriesEncodable entries
        → EntriesEncodable
            (entry immediate32_plus_relative (some lo) none (relative_to inner) entries)

pub EntriesEncodable-AllNarrow :
    (entries : IndexEntries) → EntriesEncodable entries → AllNarrow entries
EntriesEncodable-AllNarrow _ no_indices = tt
EntriesEncodable-AllNarrow _ (one_word lo entries fits more) =
    (omega arith, EntriesEncodable-AllNarrow entries more)
EntriesEncodable-AllNarrow _ (two_words lo hi entries fits fits₂ more) =
    (omega arith, EntriesEncodable-AllNarrow entries more)
EntriesEncodable-AllNarrow _ (register inner entries inside more) =
    (omega arith, EntriesEncodable-AllNarrow entries more)
EntriesEncodable-AllNarrow _ (offset_register lo inner entries fits inside more) =
    (omega arith, EntriesEncodable-AllNarrow entries more)

module _ (format : OperandFormat) where
  -- The head with the place of its tokens.
  abbrev pub placed : OperandHead → ℕ → ℕ → OperandHead
  placed head start size = record {
    type = head.type;
    num_components = head.num_components;
    component_mode = head.component_mode;
    modifier = head.modifier;
    source_offset = start;
    source_length = size;
  }

  -- The operand with the places that the tokens have from `start` on.
  unfoldable mutual
    pub located : ℕ → Operand → Operand
    located start (operand head entries outer) =
        let size = length (encode format (operand head entries outer)) in
        let behind = start + 1 + length (encode_extension format head.modifier) in
        operand (placed head start size) (located_entries behind entries)
          (located_relative start outer)

    pub located_entries : ℕ → IndexEntries → IndexEntries
    located_entries at no_entries = no_entries
    located_entries at (entry representation lo hi inner entries) =
        let before = at + length (encode_entry format representation lo hi) in
        let behind = before + length (encode_relative format inner) in
        entry representation lo hi (located_relative before inner) (located_entries behind entries)

    pub located_relative : ℕ → RelativeOperand → RelativeOperand
    located_relative at not_relative = not_relative
    located_relative at (relative_to inner) = relative_to (located at inner)

-- Tokens stand in the bytes from a place on.
abbrev pub Holds : List ℕ → ℕ → List ℕ → Type 0
Holds data_bytes at [] = Unit
Holds data_bytes at (token ∷ tokens) =
    (parse_read_dword data_bytes at ≡ ok token) × Holds data_bytes (at + 1) tokens

pub Holds-left :
    (data_bytes : List ℕ) (at : ℕ) (xs ys : List ℕ)
    → Holds data_bytes at (xs ++ ys)
    → Holds data_bytes at xs
Holds-left data_bytes at [] ys h = tt
Holds-left data_bytes at (x ∷ xs) ys h = (h.0, Holds-left data_bytes (at + 1) xs ys h.1)

pub Holds-right :
    (data_bytes : List ℕ) (at : ℕ) (xs ys : List ℕ)
    → Holds data_bytes at (xs ++ ys)
    → Holds data_bytes (at + length xs) ys
Holds-right data_bytes at [] ys h =
    let e : at ≡ at + length {A = ℕ} [] = omega arith in subst (λ n. Holds data_bytes n ys) e h
Holds-right data_bytes at (x ∷ xs) ys h =
    let e : at + 1 + length xs ≡ at + suc (length xs) = omega arith in
    subst (λ n. Holds data_bytes n ys) e (Holds-right data_bytes (at + 1) xs ys h.1)
