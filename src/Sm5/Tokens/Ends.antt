-- ===== src/Sm5/Tokens/Ends.antt =====
-- No step of the parser fails as a loop without end does.
use direct_xshader_patcher.Base.{
  ℕ, ◌+◌, ◌-◌, ◌*◌, ◌%◌, ◌^◌, List, Bool, Bool-cases, true, false, not, ◌||◌, ◌&&◌, ltb, ◌==◌,
  Result, ok, err, ◌>>=◌, ◌>>◌, require, map_err, inl, inr,
}
use direct_xshader_patcher.Sm5.Bytes.{CopyError, read_word, read_words}
use direct_xshader_patcher.Sm5.Tokens.{
  plain_span, TokenFormat, TokenError, bad_copy, parse_read_dword, instruction_length, custom_span,
  parse_span,
}

-- A result other than that of a loop without end.
abbrev pub Ends {ℓ} : {A : Type ℓ} → Result TokenError A → Type 0
Ends (ok a) = Unit
Ends (err TokenError.out_of_fuel) = ⊥
Ends (err TokenError.truncated) = Unit
Ends (err (bad_copy e)) = Unit

require-Ends {ℓ} :
    {A : Type ℓ} (t : Bool) (k : Result TokenError A)
    → Ends k
    → Ends (require t TokenError.truncated >> k)
require-Ends true k h = h
require-Ends false k h = tt

bind-Ends {ℓ κ} :
    {A : Type ℓ} {B : Type κ} (m : Result TokenError A) (f : A → Result TokenError B)
    → Ends m
    → ((a : A) → Ends (f a))
    → Ends (m >>= f)
bind-Ends (ok a) f h k = k a
bind-Ends (err TokenError.out_of_fuel) f h k = absurd h
bind-Ends (err TokenError.truncated) f h k = tt
bind-Ends (err (bad_copy e)) f h k = tt

copy-Ends {ℓ} : {A : Type ℓ} (r : Result CopyError A) → Ends (map_err bad_copy r)
copy-Ends (ok a) = tt
copy-Ends (err e) = tt

pub parse_read_dword-Ends : (data_bytes : List ℕ) (at : ℕ) → Ends (parse_read_dword data_bytes at)
unfolding parse_read_dword
parse_read_dword-Ends data_bytes at = copy-Ends (read_word data_bytes (at * 4 % 2 ^ 32))

module _ (format : TokenFormat) (data_bytes : List ℕ) where
  custom_span-Ends : (total at : ℕ) → Ends (custom_span format data_bytes total at)
  unfolding custom_span
  custom_span-Ends total at =
      bind-Ends (parse_read_dword data_bytes ((at + 1) % 2 ^ 32)) _
        (parse_read_dword-Ends data_bytes ((at + 1) % 2 ^ 32))
        (λ count. require-Ends (not (ltb count 2 || ltb total ((at + count) % 2 ^ 32))) _ (
          bind-Ends (map_err bad_copy (read_words data_bytes ((at + 1) * 4) (count - 1))) _
            (copy-Ends (read_words data_bytes ((at + 1) * 4) (count - 1))) (λ words. tt)))

  plain_span-Ends : (opcode at size : ℕ) → Ends (plain_span format data_bytes opcode at size)
  unfolding plain_span
  plain_span-Ends opcode at size = require-Ends (not (opcode == 104 && ltb size 2)) _ tt

  pub parse_span-Ends : (total at : ℕ) → Ends (parse_span format data_bytes total at)
  unfolding parse_span
  parse_span-Ends total at =
      bind-Ends (parse_read_dword data_bytes at) _ (parse_read_dword-Ends data_bytes at) (λ token.
        let opcode = format.opcode_type token in
        let size = instruction_length format data_bytes token in
        require-Ends (not (ltb total ((at + size) % 2 ^ 32))) _ (elim (Bool-cases (opcode == 53)) [
          | inl custom ↦ rw custom (custom_span-Ends total at)
          | inr plain ↦ rw plain (plain_span-Ends opcode at size)
        ]))
