-- ===== src/Hash/Md5/Reference.antt =====
-- MD5 of a whole message, as RFC 1321 states it: pad, cut into blocks of 64 bytes, compress each.
use direct_xshader_patcher.Base.{
  ℕ, zero, suc, ◌-◌, ◌*◌, ◌/◌, ◌%◌, ◌^◌, List, ◌∷◌, ◌++◌, length, take, drop, replicate,
}
use direct_xshader_patcher.Hash.Md5.Compress.{Words, process_block}
use direct_xshader_patcher.Hash.Md5.{initial, little_endian}

-- The state after the first `n` blocks of a message.
unfoldable pub absorb : ℕ → Words → List ℕ → Words
absorb zero w message = w
absorb (suc n) w message = absorb n (process_block w (take 64 message)) (drop 64 message)

-- The zeros between the byte 0x80 and the length, so that whole blocks result.
abbrev pub zeros : ℕ → ℕ
zeros n = (119 - n % 64) % 64

unfoldable pub padded : List ℕ → List ℕ
padded message =
    message
    ++ (0x80 ∷ replicate (zeros (length message)) 0
        ++ little_endian 8 (8 * length message % 2 ^ 64))

unfoldable pub md5 : List ℕ → List ℕ
unfolding absorb padded
md5 message =
    let whole = padded message in
    let w = absorb (length whole / 64) initial whole in
    little_endian 4 w.a ++ (little_endian 4 w.b ++ (little_endian 4 w.c ++ little_endian 4 w.d))
