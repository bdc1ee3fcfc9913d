-- ===== src/Sm5/Tokens/Program.antt =====
-- The instructions of a parsed shader stand one behind another, and the loop over them ends.
use direct_xshader_patcher.Base.{
  ℕ, zero, suc, ◌+◌, ◌*◌, ◌/◌, ◌%◌, ◌^◌, ◌≤◌, ◌<◌, min, List, [], ◌∷◌, length, Bool-cases, true,
  false, ltb, leb, Result, ok, err, ◌>>=◌, Result-cases, inl, inr, ◌≡◌, ◌≢◌, refl, sym, ap, subst,
  arith,
}
use direct_xshader_patcher.Sm5.Tokens.{
  TokenFormat, TokenError, bad_copy, Span, parse_read_dword, parse_span, parse_spans, parse_program,
}
use direct_xshader_patcher.Sm5.Tokens.Tiles.{Tiles, Fits, parse_span-Fits}
use direct_xshader_patcher.Sm5.Tokens.Ends.{Ends, parse_read_dword-Ends, parse_span-Ends}

module _ (format : TokenFormat) (data_bytes : List ℕ) where
  -- What the loop gives: spans without a gap, or a failure of another kind than running on.
  abbrev LoopOutcome : ℕ → ℕ → Result TokenError (List Span) → Type 0
  LoopOutcome at total (ok spans) = Tiles at total spans
  LoopOutcome at total (err e) = Ends {A = List Span} (err e)

  one_more :
      (at total : ℕ) (span : Span) (result : Result TokenError (List Span))
      → Fits total at span
      → LoopOutcome (at + span.source_length) total result
      → LoopOutcome at total (result >>= λ spans. ok (span ∷ spans))
  one_more at total span (ok spans) fits h = (fits.0, fits.1, h)
  one_more at total span (err e) fits h = h

  spans_over :
      (fuel total at : ℕ)
      → ltb at total ≡ false
      → parse_spans format data_bytes (suc fuel) total at ≡ ok []
  unfolding parse_spans
  spans_over fuel total at over = rw (over, parse_spans) refl

  spans_failed :
      (fuel total at : ℕ) (e : TokenError)
      → ltb at total ≡ true
      → parse_span format data_bytes total at ≡ err e
      → parse_spans format data_bytes (suc fuel) total at ≡ err e
  unfolding parse_spans
  spans_failed fuel total at e more failed = rw (more, parse_spans) (rw failed refl)

  spans_found :
      (fuel total at : ℕ) (span : Span)
      → ltb at total ≡ true
      → parse_span format data_bytes total at ≡ ok span
      → (at + span.source_length) % 2 ^ 32 ≡ at + span.source_length
      → parse_spans format data_bytes (suc fuel) total at ≡ (
          parse_spans format data_bytes fuel total (at + span.source_length) >>= λ spans.
          ok (span ∷ spans))
  unfolding parse_spans
  spans_found fuel total at span more parsed next =
      rw (more, parse_spans)
        (rw parsed (
          ap (λ n. parse_spans format data_bytes fuel total n >>= λ spans. ok (span ∷ spans)) next))

  parse_spans-LoopOutcome :
      (fuel total at : ℕ)
      → ((token : ℕ) → format.tokenized_length token < 128)
      → length data_bytes < 2 ^ 32
      → total < 2 ^ 30
      → at ≤ total
      → total ≤ at + fuel
      → LoopOutcome at total (parse_spans format data_bytes fuel total at)
  unfolding parse_spans
  parse_spans-LoopOutcome zero total at short small bound le enough =
      let over : ltb at total ≡ false = ground arith in rw over (omega arith)
  parse_spans-LoopOutcome (suc fuel) total at short small bound le enough =
      elim (Bool-cases (ltb at total)) [
        | inr over ↦
            let same : at ≡ total = ground arith in
            subst (LoopOutcome at total) (sym (spans_over fuel total at over)) same
        | inl more ↦ elim (Result-cases (parse_span format data_bytes total at)) [
          | inl (span, parsed) ↦
              let below : at < total = ground arith in
              let fits =
                parse_span-Fits format data_bytes total at span short small below bound parsed in
              let next : (at + span.source_length) % 2 ^ 32 ≡ at + span.source_length =
                omega (arith, fits.2, bound) in
              subst (LoopOutcome at total) (sym (spans_found fuel total at span more parsed next)) (
                one_more at total span
                  (parse_spans format data_bytes fuel total (at + span.source_length)) fits
                  (parse_spans-LoopOutcome fuel total (at + span.source_length) short small bound
                    fits.2 (omega (arith, fits.1, enough))))
          | inr (e, failed) ↦
              subst (LoopOutcome at total) (sym (spans_failed fuel total at e more failed))
                (subst Ends failed (parse_span-Ends format data_bytes total at))
        ]
      ]

  -- A program: spans from behind the two leading tokens to an end inside the bytes, or a failure that is
  -- not the one of a loop without end.
  abbrev pub Outcome : Result TokenError (List Span) → Type 0
  Outcome (ok spans) = (total : ℕ) × (total * 4 ≤ length data_bytes) × Tiles 2 total spans
  Outcome (err e) = e ≢ TokenError.out_of_fuel

  differs : (e : TokenError) → Ends {A = List Span} (err e) → e ≢ TokenError.out_of_fuel
  differs TokenError.out_of_fuel h = absurd h
  differs TokenError.truncated h = λ same. cc
  differs (bad_copy e) h = λ same. cc

  bind-Outcome :
      {A : Type 0} (m : Result TokenError A) (f : A → Result TokenError (List Span))
      → Ends m
      → ((a : A) → Outcome (f a))
      → Outcome (m >>= f)
  bind-Outcome (ok a) f h k = k a
  bind-Outcome (err TokenError.out_of_fuel) f h k = absurd h
  bind-Outcome (err TokenError.truncated) f h k = differs TokenError.truncated tt
  bind-Outcome (err (bad_copy e)) f h k = differs (bad_copy e) tt

  spans-Outcome :
      (total : ℕ) (result : Result TokenError (List Span))
      → total * 4 ≤ length data_bytes
      → LoopOutcome 2 total result
      → Outcome result
  spans-Outcome total (ok spans) fits h = (total, fits, h)
  spans-Outcome total (err e) fits h = differs e h

  short_program : (fuel total : ℕ) → total ≤ 2 → parse_spans format data_bytes fuel total 2 ≡ ok []
  unfolding parse_spans
  short_program zero total h = let over : ltb 2 total ≡ false = ground arith in rw over refl
  short_program (suc fuel) total h = spans_over fuel total 2 (ground arith)

  total-Outcome :
      (total : ℕ)
      → ((token : ℕ) → format.tokenized_length token < 128)
      → length data_bytes < 2 ^ 32
      → 8 ≤ length data_bytes
      → total * 4 ≤ length data_bytes
      → Outcome (parse_spans format data_bytes total total 2)
  total-Outcome total short small enough fits = elim (Bool-cases (leb 2 total)) [
    | inl some_tokens ↦ spans-Outcome total (parse_spans format data_bytes total total 2) fits (
        parse_spans-LoopOutcome total total 2 short small (omega arith) (ground arith)
          (omega arith))
    | inr none_left ↦
        subst Outcome (sym (short_program total total (ground arith))) (2, omega arith, refl)
  ]

  -- With the length field of a token seven bits wide, the loop of `ParseProgramImpl` over less
  -- than 2 ^ 32 bytes ends, whatever they are: it fails, or it leaves instructions that are not
  -- empty and stand one behind another from the third token to an end inside the bytes.
  pub parse_program-Outcome :
      ((token : ℕ) → format.tokenized_length token < 128)
      → length data_bytes < 2 ^ 32
      → Outcome (parse_program format data_bytes)
  unfolding parse_program
  parse_program-Outcome short small = elim (Bool-cases (ltb (length data_bytes % 2 ^ 32) 8)) [
    | inl few ↦ subst Outcome (sym (too_short few)) (differs TokenError.truncated tt)
    | inr enough ↦
        let some_bytes : 8 ≤ length data_bytes = ground (arith, enough) in
        subst Outcome (sym (long_enough enough)) (
          bind-Outcome (parse_read_dword data_bytes 0) _ (parse_read_dword-Ends data_bytes 0)
            (λ version.
              bind-Outcome (parse_read_dword data_bytes 1) _ (parse_read_dword-Ends data_bytes 1)
                (λ declared.
                  total-Outcome (min declared (length data_bytes % 2 ^ 32 / 4)) short small
                    some_bytes (omega (arith)))))
  ]
    where
      too_short :
          ltb (length data_bytes % 2 ^ 32) 8 ≡ true
          → parse_program format data_bytes ≡ err TokenError.truncated
      too_short few = rw (few, parse_program) refl

      long_enough :
          ltb (length data_bytes % 2 ^ 32) 8 ≡ false
          → parse_program format data_bytes ≡ (
              parse_read_dword data_bytes 0 >>= λ version.
              parse_read_dword data_bytes 1 >>= λ declared.
              let total = min declared (length data_bytes % 2 ^ 32 / 4) in
              parse_spans format data_bytes total total 2)
      long_enough enough = rw (enough, parse_program) refl
