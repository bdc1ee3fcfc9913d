-- ===== src/Tests/Digests.antt =====
-- The hashes of src/dxp/utils/Hash.hpp on short texts.
use direct_xshader_patcher.Base.{ℕ, ◌<◌, List, [], ◌∷◌, All, ◌≡◌, refl, arith}
use direct_xshader_patcher.Hash.Crc32.{compute_crc32, crc32_loop, crc32_round}
use direct_xshader_patcher.Hash.Crc32.Reference.{compute_crc32-reference, reference_crc32}
use direct_xshader_patcher.Hash.Md5.{fresh, finalize, little_endian}
use direct_xshader_patcher.Hash.Md5.Compress.{process_block}
use direct_xshader_patcher.Hash.Md5.Reference.{md5}
use direct_xshader_patcher.Hash.Md5.Digest.{finalize-md5, update_all, concatenation}

-- The text "123456789".
abbrev digits : List ℕ
digits = 0x31 ∷ 0x32 ∷ 0x33 ∷ 0x34 ∷ 0x35 ∷ 0x36 ∷ 0x37 ∷ 0x38 ∷ 0x39 ∷ []

-- The published check value.
crc32_of_digits : compute_crc32 digits ≡ 0xCBF43926
unfolding compute_crc32 crc32_loop crc32_round
crc32_of_digits = refl

digits_are_bytes : All (λ b. b < 256) digits
digits_are_bytes = (
  omega arith,
  (
    omega arith,
    (
      omega arith,
      (omega arith, (omega arith, (omega arith, (omega arith, (omega arith, (omega arith, tt)))))),
    ),
  ),
)

compute_crc32-reference_example : compute_crc32 digits ≡ reference_crc32 digits
compute_crc32-reference_example = compute_crc32-reference digits digits_are_bytes

-- The text "abc" in two pieces and an empty one.
abbrev pieces : List (List ℕ)
pieces = (0x61 ∷ []) ∷ [] ∷ (0x62 ∷ 0x63 ∷ []) ∷ []

md5_of_abc :
    md5 (concatenation pieces)
    ≡ 0x90 ∷ 0x01 ∷ 0x50 ∷ 0x98 ∷ 0x3c ∷ 0xd2 ∷ 0x4f ∷ 0xb0 ∷ 0xd6 ∷ 0x96 ∷ 0x3f ∷ 0x7d ∷ 0x28
      ∷ 0xe1 ∷ 0x7f ∷ 0x72 ∷ []
unfolding md5 little_endian process_block
md5_of_abc = refl

finalize-md5_example : finalize (update_all fresh pieces) ≡ (md5 (concatenation pieces), fresh)
finalize-md5_example = finalize-md5 pieces
