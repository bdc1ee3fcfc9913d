-- ===== src/Hash/Md5.antt =====
-- `MD5Hasher` of src/dxp/utils/Hash.hpp, a hasher that takes its message in pieces. `m_size` is a
-- `uint64_t` and wraps; copies by `memcpy` are `splice`.
pub mod Compress
pub mod Reference
mod Blocks
pub mod Stream
pub mod Update
pub mod Digest
use direct_xshader_patcher.Base.{
  ℕ, zero, suc, ◌+◌, ◌-◌, ◌*◌, ◌/◌, ◌%◌, ◌^◌, List, [], ◌∷◌, ◌++◌, length, take, drop, replicate,
  is_empty, true, false, leb, ltb, ◌==◌, if◌then◌else◌,
}
use Compress.{Words, process_block}

pub record Md5Hasher : Type 0 where
  pub block : List ℕ
  pub size : ℕ
  pub state : Words

abbrev pub initial : Words
initial = record { a = 0x67452301; b = 0xefcdab89; c = 0x98badcfe; d = 0x10325476 }

-- The default-constructed hasher, to which `Reset` returns.
abbrev pub fresh : Md5Hasher
fresh = record { block = replicate 64 0; size = 0; state = initial }

-- `memcpy(&to[at], from, n)` for the `n` bytes of `from`.
unfoldable pub splice : List ℕ → ℕ → List ℕ → List ℕ
splice to at from = take at to ++ (from ++ drop (at + length from) to)

-- The `while` loop over whole blocks; the fuel is a bound on the blocks left.
pub drain : ℕ → Words → List ℕ → Words × List ℕ
drain zero w rest = (w, rest)
drain (suc fuel) w rest = elim (leb 64 (length rest)) [
  | true ↦ drain fuel (process_block w (take 64 rest)) (drop 64 rest)
  | false ↦ (w, rest)
]

-- The state after the block that was begun before is topped up.
pub top_up : Md5Hasher → ℕ → List ℕ → Md5Hasher
unfolding splice
top_up h offset bytes =
    let block = splice h.block offset bytes in
    record h {
      block = block;
      state = if leb 64 (offset + length bytes) then process_block h.state block else h.state;
    }

-- The rest of `Update`: whole blocks straight from the input, and what is left into the block.
pub absorb_rest : Md5Hasher → List ℕ → Md5Hasher
unfolding drain splice
absorb_rest h input =
    let (w, rest) = drain (length input) h.state input in
    record h { state = w; block = if is_empty rest then h.block else splice h.block 0 rest }

unfoldable pub update : Md5Hasher → List ℕ → Md5Hasher
unfolding top_up absorb_rest
update h input =
    let offset = h.size % 64 in
    let sized : Md5Hasher = record h { size = (h.size + length input) % 2 ^ 64 } in
    let n = if ltb (length input) (64 - offset) then length input else 64 - offset in
    if offset == 0
    then absorb_rest sized input
    else absorb_rest (top_up sized offset (take n input)) (drop n input)

-- The `n` lowest bytes of a number, lowest first.
unfoldable pub little_endian : ℕ → ℕ → List ℕ
little_endian zero x = []
little_endian (suc n) x = x % 2 ^ 8 ∷ little_endian n (x / 2 ^ 8)

-- `kPadding`
abbrev pub padding : List ℕ
padding = 0x80 ∷ replicate 63 0

unfoldable pub pad_block : Md5Hasher → Md5Hasher
unfolding update little_endian
pad_block h =
    let bit_count = 8 * h.size % 2 ^ 64 in
    let current = h.size % 64 in
    let desired = if leb 56 current then 120 else 56 in
    update (update h (take (desired - current) padding)) (little_endian 8 bit_count)

unfoldable pub get_digest : Md5Hasher → List ℕ
unfolding little_endian
get_digest h =
    little_endian 4 h.state.a
    ++ (little_endian 4 h.state.b ++ (little_endian 4 h.state.c ++ little_endian 4 h.state.d))

-- The digest, and the hasher reset.
unfoldable pub finalize : Md5Hasher → List ℕ × Md5Hasher
unfolding pad_block get_digest
finalize h = (get_digest (pad_block h), fresh)
