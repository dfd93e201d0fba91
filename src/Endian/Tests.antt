-- ===== src/Endian/Tests.antt =====
-- Runs of the byte swaps (include/Endian.h).
use lt.Base.{◌≡◌, refl}
use lt.Endian.{byteswap16, byteswap32}

swapped : byteswap32 0x01020304 ≡ 0x04030201
unfolding byteswap32 byteswap16
swapped = refl
