-- ===== src/Sm5/Container/Digest.antt =====
-- `ComputeDXBCHash` and `DxbcHashToHex` of src/dxp/sm5/ShaderProgram.cpp.
pub mod Reference
use direct_xshader_patcher.Base.{
  ℕ, zero, suc, ◌+◌, ◌-◌, ◌*◌, ◌/◌, ◌%◌, ◌^◌, bit_or, List, [], ◌∷◌, ◌++◌, length, take, drop,
  replicate, ltb, leb, ◌==◌, if◌then◌else◌,
}
use direct_xshader_patcher.Hash.Md5.{Md5Hasher, fresh, update, little_endian, padding, get_digest}
use direct_xshader_patcher.Sm5.Container.{u32}

-- `kANum` and `kBNum`
abbrev pub a_num : ℕ → ℕ
a_num size = u32 (u32 size * 8)

unfoldable pub b_num : ℕ → ℕ
b_num size = bit_or (a_num size / 2 ^ 2) 1

-- The last calls of `Update` when the bits of `a` and `b` take a block of their own.
unfoldable pub update_separate : Md5Hasher → List ℕ → List ℕ → List ℕ → Md5Hasher
unfolding update
update_separate md5 rest a_bytes b_bytes =
    let held = if length rest == 0 then md5 else update md5 rest in
    let filled = update held (take (64 - length rest) padding) in
    let counted = update filled a_bytes in
    let zeroed = update counted (take (64 - 4 - 4) (drop 4 padding)) in update zeroed b_bytes

-- The last calls when they share the block of the bytes that are left.
unfoldable pub update_shared : Md5Hasher → List ℕ → List ℕ → List ℕ → Md5Hasher
unfolding update
update_shared md5 rest a_bytes b_bytes =
    let counted = update md5 a_bytes in
    let held = if length rest == 0 then counted else update counted rest in
    let filled = update held (take (64 - length rest - 4 - 4) padding) in update filled b_bytes

unfoldable pub compute_dxbc_hash : List ℕ → List ℕ
unfolding update_separate update_shared update b_num little_endian get_digest
compute_dxbc_hash bytes =
    let size = length bytes in
    let a_bytes = little_endian 4 (a_num size) in
    let b_bytes = little_endian 4 (b_num size) in
    let remainder = size % 64 in
    let rest = drop (size - remainder) bytes in
    let md5 = if ltb remainder size then update fresh (take (size - remainder) bytes) else fresh in
    get_digest (
      if leb 56 remainder
      then update_separate md5 rest a_bytes b_bytes
      else update_shared md5 rest a_bytes b_bytes)

-- A digit of `kHexDigits`, as its character code.
abbrev hex_digit : ℕ → ℕ
hex_digit n = if ltb n 10 then 48 + n else 97 + (n - 10)

abbrev hex_of_bytes : List ℕ → List ℕ
hex_of_bytes [] = []
hex_of_bytes (b ∷ bs) = hex_digit (b / 16) ∷ hex_digit (b % 16) ∷ hex_of_bytes bs

-- `DxbcHashToHex` of the four words of the hash.
unfoldable pub dxbc_hash_to_hex : List ℕ → List ℕ
unfolding little_endian
dxbc_hash_to_hex [] = []
dxbc_hash_to_hex (word ∷ words) = hex_of_bytes (little_endian 4 word) ++ dxbc_hash_to_hex words
