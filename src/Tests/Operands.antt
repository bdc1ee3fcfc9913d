-- ===== src/Tests/Operands.antt =====
-- The macros of the Windows header as they are, and operands that are written and parsed with them.
use direct_xshader_patcher.Base.{
  ℕ, zero, suc, ◌+◌, ◌-◌, ◌*◌, ◌/◌, ◌%◌, ◌^◌, ◌≤◌, ◌<◌, List, [], ◌∷◌, ◌++◌, length, ◌==◌,
  if◌then◌else◌, none, some, ok, ◌≡◌, refl, arith, bit_and,
}
use direct_xshader_patcher.Hash.Md5.{little_endian}
use direct_xshader_patcher.Sm5.Bytes.RoundTrip.{word_bytes}
use direct_xshader_patcher.Sm5.Operands.{
  immediate32, immediate32_plus_relative, Operand, operand, no_entries, entry, not_relative,
  relative_to, OperandFormat, Field, num_components, type, index_dimension, extended,
  index_representation, encode, encode_operand_token0,
}
use direct_xshader_patcher.Sm5.Operands.Parse.{Parsed, parsed, parse_operand}
use direct_xshader_patcher.Sm5.Operands.Layout.{HasLayout, shift, width, InToken}
use direct_xshader_patcher.Sm5.Operands.Encodable.{
  Encodable, registers, one_word, offset_register, no_indices,
}
use direct_xshader_patcher.Sm5.Operands.Bounds.{parse_operand-finishes}
use direct_xshader_patcher.Sm5.Operands.Finishes.{Placed}
use direct_xshader_patcher.Sm5.Operands.Sequence.{parse_operands, Consecutive, encode_operands}
use direct_xshader_patcher.Sm5.Operands.All.{AllSame, parse_operands-encode_operands}
use direct_xshader_patcher.Sm5.Operands.Consumed.{parse_operands-consumes}

abbrev windows_put : Field → ℕ → ℕ
windows_put extended v = if v == 0 then 0 else 2 ^ 31
windows_put f v = v % 2 ^ width f * 2 ^ shift f

abbrev windows_format : OperandFormat
windows_format = record {
  put = windows_put;
  get = λ f t. t / 2 ^ shift f % 2 ^ width f;
  encode_modifier = λ m. m % 2 ^ 8 * 2 ^ 6 + 1;
  extended_type = λ t. t % 2 ^ 6;
  decode_modifier = λ t. t / 2 ^ 6 % 2 ^ 8;
  double_extended = λ t. t / 2 ^ 31 % 2;
}

windows_put-bits :
    (f : Field) (v : ℕ) → InToken f → v < 2 ^ width f → windows_put f v ≡ v * 2 ^ shift f
windows_put-bits num_components v here fits = omega (arith, fits)
windows_put-bits type v here fits = omega (arith, fits)
windows_put-bits index_dimension v here fits = omega (arith, fits)
windows_put-bits extended zero here fits = refl
windows_put-bits extended (suc v) here fits = ground (arith, fits)
windows_put-bits (index_representation zero) v here fits = omega (arith, fits)
windows_put-bits (index_representation (suc zero)) v here fits = omega (arith, fits)
windows_put-bits (index_representation (suc (suc zero))) v here fits = omega (arith, fits)
windows_put-bits (index_representation (suc (suc (suc n)))) v here fits =
    absurd (omega (arith, here))

windows_format-HasLayout : HasLayout windows_format
windows_format-HasLayout = record {
  put_bits = windows_put-bits;
  get_bits = λ f t here small. refl;
  modifier_kind = λ m. omega arith;
  modifier_ends = λ m. omega arith;
  modifier_kept = λ m fits. omega arith;
  modifier_word = λ m. omega arith;
}

-- `r1.x`
abbrev register_one : Operand
register_one =
    operand
      (record {
        type = 0;
        num_components = 2;
        component_mode = 8;
        modifier = 0;
        source_offset = 0;
        source_length = 0;
      })
      (entry immediate32 (some 1) none not_relative no_entries) not_relative

-- `-cb0[r1.x + 4]`, all components in their order
abbrev constant : Operand
constant =
    operand
      (record {
        type = 8;
        num_components = 2;
        component_mode = 0xE44;
        modifier = 1;
        source_offset = 0;
        source_length = 0;
      })
      (entry immediate32 (some 0) none not_relative
        (entry immediate32_plus_relative (some 4) none (relative_to register_one) no_entries))
      not_relative

constant_tokens : encode windows_format constant ≡ 0x86208E46 ∷ 0x41 ∷ 0 ∷ 4 ∷ 0x10000A ∷ 1 ∷ []
unfolding encode encode_operand_token0
constant_tokens = refl

mode_eight : bit_and 8 0xFFC ≡ 8
mode_eight = refl

mode_all : bit_and 0xE44 0xFFC ≡ 0xE44
mode_all = refl

register_one-Encodable : Encodable register_one
register_one-Encodable =
    registers _ _
      (record {
        components_fit = omega arith;
        type_fits = omega arith;
        mode_fits = mode_eight;
        modifier_fits = omega arith;
      })
      refl (omega arith) (one_word 1 no_entries (omega arith) no_indices)

constant-Encodable : Encodable constant
constant-Encodable =
    registers _ _
      (record {
        components_fit = omega arith;
        type_fits = omega arith;
        mode_fits = mode_all;
        modifier_fits = omega arith;
      })
      refl (omega arith)
      (one_word 0 _ (omega arith)
        (offset_register 4 register_one no_entries (omega arith) register_one-Encodable no_indices))

-- Three dwords that announce one index and its relative operand, cut off in the middle.
abbrev cut_bytes : List ℕ
cut_bytes = word_bytes (0x86208E46 ∷ 0x41 ∷ 0 ∷ [])

parse_operand-finishes_example :
    (p : Parsed Operand) × (parse_operand windows_format cut_bytes 3 3 (suc 3) 0 ≡ ok p)
    × (0 ≤ p.cursor)
    × (p.cursor ≤ 3)
    × (0 < 3 → Placed 0 p)
unfolding little_endian
parse_operand-finishes_example =
    parse_operand-finishes windows_format cut_bytes 3 3 0 (omega arith) (omega arith) (omega arith)
      (omega arith)

-- `mov r1.x, -cb0[r1.x + 4]` without its opcode token, in a shader of ten dwords.
parse_operands-encode_operands_example :
    (found : List Operand) × (parse_operands windows_format
        (word_bytes (7 ∷ [])
          ++ (word_bytes (encode_operands windows_format (register_one ∷ constant ∷ [])) ++ []))
        10
        (length {A = ℕ} (7 ∷ [])
          + length (encode_operands windows_format (register_one ∷ constant ∷ [])))
        (length (encode_operands windows_format (register_one ∷ constant ∷ [])))
        (length {A = ℕ} (7 ∷ []))
      ≡ ok (
          parsed found (
            length {A = ℕ} (7 ∷ [])
            + length (encode_operands windows_format (register_one ∷ constant ∷ [])))))
    × AllSame found (register_one ∷ constant ∷ [])
unfolding encode
parse_operands-encode_operands_example =
    parse_operands-encode_operands windows_format (register_one ∷ constant ∷ []) (7 ∷ []) [] 10
      windows_format-HasLayout (register_one-Encodable, (constant-Encodable, tt)) (omega arith)
      (omega arith)

-- Three words that are no operands of a compiler.
parse_operands-consumes_example :
    (ops : List Operand) × (parse_operands windows_format cut_bytes 3 3 (3 - 0) 0
      ≡ ok (parsed ops 3))
    × Consecutive 0 ops 3
unfolding little_endian
parse_operands-consumes_example =
    parse_operands-consumes windows_format cut_bytes 3 3 0 (omega arith) (omega arith) (omega arith)
      (omega arith)
