-- ===== src/Tile/Words.antt =====
-- lib/terrain_tile.cpp: little-endian words and the CRC-32.
use aowis_server_map.Prelude.{
  ℕ, zero, suc, ◌+◌, ◌-◌, ◌*◌, ◌/◌, ◌%◌, ◌^◌, ◌<◌, ◌≡◌, refl, arith, [], ◌∷◌, Bytes, codes, get_or,
}
use aowis_server_map.Prelude.{bit_and, bit_xor}

-- `appendUInt16` and `appendUInt32`: the bytes that are appended.
abbrev pub uint16_bytes : ℕ → Bytes
uint16_bytes v = (v % 256) ∷ (v / 256 % 256) ∷ []

abbrev pub uint32_bytes : ℕ → Bytes
uint32_bytes v = (v % 256) ∷ (v / 256 % 256) ∷ (v / 65536 % 256) ∷ (v / 16777216 % 256) ∷ []

abbrev pub byte_at : Bytes → ℕ → ℕ
byte_at bytes offset = get_or bytes offset 0

unfoldable pub read_uint16 : Bytes → ℕ → ℕ
read_uint16 bytes offset = byte_at bytes offset + 256 * byte_at bytes (offset + 1)

unfoldable pub read_uint32 : Bytes → ℕ → ℕ
read_uint32 bytes offset =
    byte_at bytes offset
    + 256 * byte_at bytes (offset + 1)
    + 65536 * byte_at bytes (offset + 2)
    + 16777216 * byte_at bytes (offset + 3)

-- One round of the inner loop: `mask` is all ones exactly if the lowest bit is set.
abbrev crc_bit : ℕ → ℕ
crc_bit crc =
    let mask = (2 ^ 32 - bit_and crc 1) % 2 ^ 32 in bit_xor (crc / 2) (bit_and 0xedb88320 mask)

abbrev pub repeat : ℕ → (ℕ → ℕ) → ℕ → ℕ
repeat zero f x = x
repeat (suc n) f x = repeat n f (f x)

unfoldable pub crc_loop : ℕ → Bytes → ℕ
crc_loop crc [] = crc
crc_loop crc (byte ∷ rest) = crc_loop (repeat 8 crc_bit (bit_xor crc byte)) rest

-- `~crc` on a 32-bit word.
unfoldable pub crc32 : Bytes → ℕ
unfolding crc_loop
crc32 bytes = (2 ^ 32 - 1 - crc_loop 0xffffffff bytes) % 2 ^ 32

crc32-check : crc32 (codes "123456789") ≡ 0xcbf43926
unfolding crc32
crc32-check = refl

pub crc32-word : (bytes : Bytes) → crc32 bytes < 2 ^ 32
unfolding crc32
crc32-word bytes = omega arith
