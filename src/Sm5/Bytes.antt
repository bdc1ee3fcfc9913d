-- ===== src/Sm5/Bytes.antt =====
-- `memcpy` between a byte buffer and 32-bit words, as src/dxp/sm5/ShaderProgram.cpp uses it. A copy
-- that leaves the buffer, which C++ leaves undefined, is an error here.
pub mod RoundTrip
use direct_xshader_patcher.Base.{
  ℕ, zero, suc, ◌+◌, ◌*◌, ◌/◌, ◌%◌, ◌^◌, List, [], ◌∷◌, ◌++◌, length, take, drop, leb, Result, ok,
  err, replicate, ◌>>=◌, ◌>>◌, require,
}
use direct_xshader_patcher.Hash.Md5.{little_endian, splice}

pub data CopyError : Type 0 where
  undefined_read undefined_write : CopyError

abbrev pub from_little_endian : List ℕ → ℕ
from_little_endian [] = 0
from_little_endian (b ∷ bs) = b + 256 * from_little_endian bs

-- `std::vector<uint8_t>(n, 0)`
abbrev pub zeros : ℕ → List ℕ
zeros n = replicate n 0

-- `memcpy(to, &bytes[at], n)`
unfoldable pub read_bytes : List ℕ → ℕ → ℕ → Result CopyError (List ℕ)
read_bytes bytes at n = do
  require (leb (at + n) (length bytes)) CopyError.undefined_read
  ok (take n (drop at bytes))

-- `memcpy(&word, &bytes[at], 4)`
unfoldable pub read_word : List ℕ → ℕ → Result CopyError ℕ
unfolding read_bytes
read_word bytes at = do from ← read_bytes bytes at 4; ok (from_little_endian from)

-- The words one behind another.
unfoldable pub read_words : List ℕ → ℕ → ℕ → Result CopyError (List ℕ)
unfolding read_word
read_words bytes at zero = ok []
read_words bytes at (suc n) = do
  word ← read_word bytes at
  words ← read_words bytes (at + 4) n
  ok (word ∷ words)

-- `memcpy(&out[at], from, n)` for the `n` bytes of `from`.
unfoldable pub write_bytes : List ℕ → ℕ → List ℕ → Result CopyError (List ℕ)
unfolding splice
write_bytes out at from = do
  require (leb (at + length from) (length out)) CopyError.undefined_write
  ok (splice out at from)

-- `memcpy(&out[at], &word, 4)`
unfoldable pub write_word : List ℕ → ℕ → ℕ → Result CopyError (List ℕ)
unfolding write_bytes little_endian
write_word out at word = write_bytes out at (little_endian 4 word)

-- Words one behind another, with `out_offset += 4` behind each.
unfoldable pub write_words : List ℕ → ℕ → List ℕ → Result CopyError (List ℕ)
unfolding write_word
write_words out at [] = ok out
write_words out at (word ∷ words) = do
  next ← write_word out at word
  write_words next (at + 4) words
