-- ===== src/Frames/Checksum.antt =====
-- tools/exe-harness/net-builders.js, lines 8-29: the Internet checksum and the padding of a frame.
-- `inetChecksum` of tools/exe-harness/test-util.js is the same text.
pub mod Sum
pub mod Valid
use sprinter_rtl8019a.Base.{
  ℕ, ◌+◌, ◌-◌, ◌/◌, ◌%◌, List, [], ◌∷◌, ◌++◌, length, put, slice, replicate, u8, u16, word_of,
}

unfoldable pub default_server_mac : List ℕ
default_server_mac = 0x02 ∷ 0x00 ∷ 0x00 ∷ 0x00 ∷ 0x00 ∷ 0x01 ∷ []

unfoldable pub broadcast_mac : List ℕ
broadcast_mac = replicate 6 0xff

-- `sum = (sum & 0xffff) + (sum >>> 16)`
pub carry : ℕ → ℕ
carry sum = u16 sum + sum / 65536

-- The loop, two bytes at a time; a missing last byte is 0.
pub sum_words : ℕ → List ℕ → ℕ
sum_words sum [] = sum
sum_words sum (a ∷ []) = carry (sum + word_of a 0)
sum_words sum (a ∷ b ∷ bytes) = sum_words (carry (sum + word_of a b)) bytes

-- `(~sum) & 0xffff`
unfoldable pub checksum : List ℕ → ℕ
unfolding sum_words carry
checksum bytes = 0xffff - u16 (sum_words 0 bytes)

-- A field past the end extends the array; the bytes of the hole count as 0.
unfoldable pub put_checksum : List ℕ → ℕ → ℕ → ℕ → List ℕ
put_checksum bytes offset size field =
    let cleared = put 0 (put 0 bytes field 0) (field + 1) 0 in
    let value = checksum (slice offset (offset + size) cleared) in
    put 0 (put 0 cleared field (value / 256)) (field + 1) (u8 value)

unfoldable pub pad_to_60 : List ℕ → List ℕ
pad_to_60 frame = frame ++ replicate (60 - length frame) 0
