-- ===== src/Libc/Utf.antt =====
-- The UTF-8 functions of src/libc/string.c: chr writes a code point, ord reads one. Masks and shifts are
-- remainders and quotients, and `|` is a sum where the bits are apart.
pub mod RoundTrip
pub mod Tests
use bztsrc_osz.Prelude.{ℕ, ◌+◌, ◌*◌, ◌/◌, ◌%◌, ◌==◌, ltb, if◌then◌else◌}
use bztsrc_osz.Libc.Memory.{Memory, put}

-- A byte behind the first one: six bits.
abbrev pub tail : ℕ → ℕ
tail b = b % 0x40

-- chr: the memory, and where the pointer goes on.
unfoldable pub chr : Memory → ℕ → ℕ → Memory × ℕ
chr m s u =
    if ltb u 0x80
    then (put (put m s u) (s + 1) 0, s + 1)
    else if ltb u 0x800
    then (put (put (put m s ((u / 0x40) % 0x20 + 0xC0)) (s + 1) (tail u + 0x80)) (s + 2) 0, s + 2)
    else if ltb u 0x10000
    then (
      put
          (put (put (put m s ((u / 0x1000) % 0x10 + 0xE0)) (s + 1) (tail (u / 0x40) + 0x80)) (s + 2)
            (tail u + 0x80))
          (s + 3) 0,
      s + 3,
    )
    else (
      put
          (put
            (put (put (put m s ((u / 0x40000) % 8 + 0xF0)) (s + 1) (tail (u / 0x1000) + 0x80))
              (s + 2) (tail (u / 0x40) + 0x80))
            (s + 3) (tail u + 0x80))
          (s + 4) 0,
      s + 4,
    )

-- A byte has the bit of value `v`.
abbrev pub bit : ℕ → ℕ → ℕ
bit b v = (b / v) % 2

-- ord: the code point, and where the pointer goes on.
unfoldable pub ord : Memory → ℕ → ℕ × ℕ
ord m s =
    if bit (m s) 128 == 0
    then (m s, s + 1)
    else if bit (m s) 32 == 0
    then ((m s % 0x20) * 0x40 + tail (m (s + 1)), s + 2)
    else if bit (m s) 16 == 0
    then ((m s % 0x10) * 0x1000 + tail (m (s + 1)) * 0x40 + tail (m (s + 2)), s + 3)
    else if bit (m s) 8 == 0
    then (
      (m s % 8) * 0x40000 + tail (m (s + 1)) * 0x1000 + tail (m (s + 2)) * 0x40 + tail (m (s + 3)),
      s + 4,
    )
    else (0, s + 1)
