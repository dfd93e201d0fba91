-- ===== src/Endian.antt =====
-- include/Endian.h on a machine with the lowest byte first: `byteswapOnLittleEndian` swaps. The swaps
-- of <byteswap.h> reverse the bytes of a word of 16, 32 or 64 bits.
pub mod Swaps
pub mod Tests
use lt.Base.{ℕ, ◌+◌, ◌*◌, ◌/◌, ◌%◌, ◌^◌}

unfoldable pub byteswap16 : ℕ → ℕ
byteswap16 x = x % 256 * 256 + x / 256 % 256

unfoldable pub byteswap32 : ℕ → ℕ
unfolding byteswap16
byteswap32 x = byteswap16 (x % 2 ^ 16) * 2 ^ 16 + byteswap16 (x / 2 ^ 16 % 2 ^ 16)

unfoldable pub byteswap64 : ℕ → ℕ
unfolding byteswap32
byteswap64 x = byteswap32 (x % 2 ^ 32) * 2 ^ 32 + byteswap32 (x / 2 ^ 32 % 2 ^ 32)

-- On such a machine the other macro does nothing.
unfoldable pub byteswap_on_big_endian : ℕ → ℕ
byteswap_on_big_endian t = t
