-- ===== src/Hash/Crc32.antt =====
-- `ComputeCrc32` of src/dxp/utils/Hash.hpp: the table-driven loop over the bytes.
pub mod Reference
use direct_xshader_patcher.Base.{ℕ, ◌-◌, ◌/◌, ◌^◌, List, [], ◌∷◌, bit_and, bit_xor, get_or}
use direct_xshader_patcher.Hash.Crc32Table.{crc32_table}

-- One round: `crc = (crc >> 8) ^ crc32_table[(crc ^ byte) & 0xFF]`. The index is below 256, the
-- length of the table, so the default is never read.
unfoldable pub crc32_round : ℕ → ℕ → ℕ
crc32_round crc byte =
    bit_xor (crc / 2 ^ 8) (get_or crc32_table (bit_and (bit_xor crc byte) 0xFF) 0)

unfoldable pub crc32_loop : ℕ → List ℕ → ℕ
crc32_loop crc [] = crc
crc32_loop crc (byte ∷ rest) = crc32_loop (crc32_round crc byte) rest

-- `~crc` on 32 bits is `0xFFFFFFFF - crc`.
unfoldable pub compute_crc32 : List ℕ → ℕ
compute_crc32 bytes = 0xFFFFFFFF - crc32_loop 0xFFFFFFFF bytes
