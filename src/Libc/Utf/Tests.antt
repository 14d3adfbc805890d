-- ===== src/Libc/Utf/Tests.antt =====
-- The UTF-8 functions on the euro sign, and the theorem on it.
use bztsrc_osz.Prelude.{◌≡◌, refl, arith}
use bztsrc_osz.Libc.Memory.{Memory}
use bztsrc_osz.Libc.Utf.{chr, ord}
use bztsrc_osz.Libc.Utf.RoundTrip.{ord-chr}

abbrev blank : Memory
blank x = 0

euro_bytes :
    ((chr blank 100 0x20AC).0 100 ≡ 0xE2)
    × ((chr blank 100 0x20AC).0 101 ≡ 0x82)
    × ((chr blank 100 0x20AC).0 102 ≡ 0xAC)
unfolding chr
euro_bytes = (refl, refl, refl)

ord-chr_example : ord (chr blank 100 0x20AC).0 100 ≡ (0x20AC, (chr blank 100 0x20AC).1)
ord-chr_example = ord-chr blank 100 0x20AC (omega arith)
