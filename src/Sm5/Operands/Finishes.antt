-- ===== src/Sm5/Operands/Finishes.antt =====
-- The parts of `ParseOperand` return, with the cursor inside the instruction.
use direct_xshader_patcher.Base.{
  ℕ, zero, suc, ◌+◌, ◌-◌, ◌*◌, ◌%◌, ◌^◌, ◌≤◌, ◌<◌, List, length, Bool-cases, true, not, ◌&&◌, ltb,
  leb, ◌==◌, Result, ok, err, ◌>>=◌, inl, inr, ◌≡◌, refl, arith,
}
use direct_xshader_patcher.Sm5.Bytes.{read_bytes, read_word}
use direct_xshader_patcher.Sm5.Tokens.{TokenError, parse_read_dword}
use direct_xshader_patcher.Sm5.Operands.{
  IndexRepresentation, immediate32, immediate64, relative, immediate32_plus_relative,
  immediate64_plus_relative, Operand, OperandFormat, Field, source_offset_of, source_length_of,
}
use direct_xshader_patcher.Sm5.Operands.Parse.{
  Parsed, skip_extended, parse_modifier, parse_offset, parse_immediates,
}

-- A result that is there and has a property.
abbrev pub Finishes {ℓ} : {A : Type ℓ} → Result TokenError A → (A → Type 0) → Type 0
Finishes (ok a) Q = Q a
Finishes (err e) Q = ⊥

pub bind-Finishes {ℓ κ} :
    {A : Type ℓ} {B : Type κ} (m : Result TokenError A) (f : A → Result TokenError B)
    (P : A → Type 0) (Q : B → Type 0)
    → Finishes m P
    → ((a : A) → P a → Finishes (f a) Q)
    → Finishes (m >>= f) Q
bind-Finishes (ok a) f P Q h k = k a h
bind-Finishes (err e) f P Q h k = absurd h

pub map-Finishes {ℓ} :
    {A : Type ℓ} (m : Result TokenError A) (P Q : A → Type 0)
    → Finishes m P
    → ((a : A) → P a → Q a)
    → Finishes m Q
map-Finishes (ok a) P Q h k = k a h
map-Finishes (err e) P Q h k = absurd h

-- A read of a token that the bytes hold.
pub read-Finishes :
    (data_bytes : List ℕ) (at total : ℕ)
    → at < total
    → total * 4 ≤ length data_bytes
    → total ≤ 2 ^ 30
    → Finishes (parse_read_dword data_bytes at) (λ _. Unit)
unfolding parse_read_dword read_word read_bytes
read-Finishes data_bytes at total inside held small =
    let here : leb (at * 4 % 2 ^ 32 + 4) (length data_bytes) ≡ true = ground arith in rw here tt

abbrev pub Placed : ℕ → Parsed Operand → Type 0
Placed start p =
    (start < p.cursor)
    × (source_offset_of p.found ≡ start)
    × (source_length_of p.found ≡ p.cursor - start)

pub found-Finishes {ℓ} :
    {A : Type ℓ} (m : Result TokenError A) (Q : A → Type 0)
    → Finishes m Q
    → (a : A) × (m ≡ ok a) × Q a
found-Finishes (ok a) Q h = (a, refl, h)
found-Finishes (err e) Q h = absurd h

module _ (format : OperandFormat) (data_bytes : List ℕ) (total_dwords instruction_end : ℕ)
    (held : total_dwords * 4 ≤ length data_bytes) (small : total_dwords ≤ 2 ^ 30)
    (whole : instruction_end ≤ total_dwords) where
  -- The cursor has gone from `start` to a place inside the instruction.
  abbrev pub Reached : ℕ → ℕ → Type 0
  Reached start cursor = (start ≤ cursor) × (cursor ≤ instruction_end)

  abbrev pub ReachedBy {ℓ} : {A : Type ℓ} → ℕ → Parsed A → Type 0
  ReachedBy start p = Reached start p.cursor

  pub inner_read-Finishes :
      (at : ℕ) → at < instruction_end → Finishes (parse_read_dword data_bytes at) (λ _. Unit)
  inner_read-Finishes at inside = read-Finishes data_bytes at total_dwords (omega arith) held small

  skip_extended-Finishes :
      (fuel ext_token start cursor : ℕ)
      → Reached start cursor
      → Finishes
          (skip_extended format data_bytes total_dwords instruction_end fuel ext_token cursor)
          (Reached start)
  unfolding skip_extended
  skip_extended-Finishes zero ext_token start cursor here = here
  skip_extended-Finishes (suc fuel) ext_token start cursor here =
      elim (Bool-cases
        (not (format.double_extended ext_token == 0) && ltb cursor instruction_end)) [
          | inl more ↦
              rw (more, skip_extended)
                (bind-Finishes (parse_read_dword data_bytes cursor) _ (λ _. Unit) (Reached start)
                  (inner_read-Finishes cursor (ground arith))
                  (λ next _. skip_extended-Finishes fuel next start (cursor + 1) (ground arith)))
          | inr last ↦ rw (last, skip_extended) here
        ]

  pub parse_modifier-Finishes :
      (token0 cursor : ℕ)
      → cursor ≤ instruction_end
      → Finishes
          (parse_modifier format data_bytes total_dwords instruction_end token0 cursor)
          (ReachedBy cursor)
  unfolding parse_modifier
  parse_modifier-Finishes token0 cursor inside =
      elim (Bool-cases
        (not (format.get Field.extended token0 == 0) && ltb cursor instruction_end)) [
          | inl more ↦
              rw (more, parse_modifier)
                (bind-Finishes (parse_read_dword data_bytes cursor) _ (λ _. Unit) (ReachedBy cursor)
                  (inner_read-Finishes cursor (ground arith))
                  (λ ext _.
                    bind-Finishes
                      (skip_extended format data_bytes total_dwords instruction_end
                        (instruction_end - (cursor + 1)) ext (cursor + 1))
                      _ (Reached cursor) (ReachedBy cursor)
                      (skip_extended-Finishes (instruction_end - (cursor + 1)) ext cursor
                        (cursor + 1) (ground arith))
                      (λ behind h. h)))
          | inr last ↦ rw (last, parse_modifier) (omega arith, inside)
        ]

  pub parse_offset-Finishes :
      (representation : IndexRepresentation) (cursor : ℕ)
      → cursor < instruction_end
      → Finishes
          (parse_offset format data_bytes total_dwords instruction_end representation cursor)
          (ReachedBy cursor)
  unfolding parse_offset
  parse_offset-Finishes immediate32 cursor inside = (omega arith, omega arith)
  parse_offset-Finishes immediate64 cursor inside = (omega arith, omega arith)
  parse_offset-Finishes relative cursor inside = (omega arith, omega arith)
  parse_offset-Finishes immediate32_plus_relative cursor inside =
      bind-Finishes (parse_read_dword data_bytes cursor) _ (λ _. Unit) (ReachedBy cursor)
        (inner_read-Finishes cursor inside) (λ lo _. (omega arith, omega arith))
  parse_offset-Finishes immediate64_plus_relative cursor inside =
      elim (Bool-cases (ltb (cursor + 1) instruction_end)) [
        | inl both ↦ rw both (
            bind-Finishes (parse_read_dword data_bytes cursor) _ (λ _. Unit) (ReachedBy cursor)
              (inner_read-Finishes cursor inside)
              (λ lo _.
                bind-Finishes (parse_read_dword data_bytes (cursor + 1)) _ (λ _. Unit)
                  (ReachedBy cursor) (inner_read-Finishes (cursor + 1) (ground arith))
                  (λ hi _. (ground arith, ground arith))))
        | inr short ↦ rw short (omega arith, omega arith)
      ]

  pub parse_immediates-Finishes :
      (count start cursor : ℕ)
      → Reached start cursor
      → Finishes
          (parse_immediates format data_bytes total_dwords instruction_end count cursor)
          (ReachedBy start)
  unfolding parse_immediates
  parse_immediates-Finishes zero start cursor here = here
  parse_immediates-Finishes (suc count) start cursor here =
      elim (Bool-cases (ltb cursor instruction_end)) [
        | inl more ↦
            rw (more, parse_immediates)
              (bind-Finishes (parse_read_dword data_bytes cursor) _ (λ _. Unit) (ReachedBy start)
                (inner_read-Finishes cursor (ground arith))
                (λ imm _.
                  bind-Finishes
                    (parse_immediates format data_bytes total_dwords instruction_end count
                      (cursor + 1))
                    _ (ReachedBy start) (ReachedBy start)
                    (parse_immediates-Finishes count start (cursor + 1) (ground arith))
                    (λ rest h. h)))
        | inr last ↦ rw (last, parse_immediates) here
      ]
