-- ===== src/Libc/Utf/RoundTrip.antt =====
-- What chr writes, ord reads.
use bztsrc_osz.Prelude.{ℕ, ◌+◌, ◌*◌, ◌/◌, ◌%◌, ◌<◌, ◌≤◌, ◌≡◌, refl, arith, dec_lt}
use bztsrc_osz.Libc.Memory.{Memory, put}
use bztsrc_osz.Libc.Utf.{tail, chr, bit, ord}

-- The bits of a first byte.
lead_three :
    (x : ℕ)
    → x < 0x10
    → (bit (x + 0xE0) 128 ≡ 1)
      × (bit (x + 0xE0) 32 ≡ 1)
      × (bit (x + 0xE0) 16 ≡ 0)
      × ((x + 0xE0) % 0x10 ≡ x)
lead_three x h = (omega arith, omega arith, omega arith, omega arith)

lead_four :
    (x : ℕ)
    → x < 8
    → (bit (x + 0xF0) 128 ≡ 1)
      × (bit (x + 0xF0) 32 ≡ 1)
      × (bit (x + 0xF0) 16 ≡ 1)
      × (bit (x + 0xF0) 8 ≡ 0)
      × ((x + 0xF0) % 8 ≡ x)
lead_four x h = (omega arith, omega arith, omega arith, omega arith, omega arith)

tail_back : (x : ℕ) → tail (tail x + 0x80) ≡ tail x
tail_back x = omega arith

parts_three :
    (u : ℕ) → u < 0x10000 → ((u / 0x1000) % 0x10) * 0x1000 + tail (u / 0x40) * 0x40 + tail u ≡ u
parts_three u h = omega arith

parts_four :
    (u : ℕ)
    → u < 0x200000
    → ((u / 0x40000) % 8) * 0x40000 + tail (u / 0x1000) * 0x1000 + tail (u / 0x40) * 0x40 + tail u
      ≡ u
parts_four u h = omega arith

ord_three :
    (m : Memory) (s u : ℕ)
    → u < 0x10000
    → m s ≡ (u / 0x1000) % 0x10 + 0xE0
    → m (s + 1) ≡ tail (u / 0x40) + 0x80
    → m (s + 2) ≡ tail u + 0x80
    → ord m s ≡ (u, s + 3)
unfolding ord
ord_three m s u h e0 e1 e2 =
    let (b128, b32, b16, low) = lead_three ((u / 0x1000) % 0x10) (omega arith) in
    rw (e0, b128, b32, b16, low, e1, e2, tail_back (u / 0x40), tail_back u, parts_three u h) refl

ord_four :
    (m : Memory) (s u : ℕ)
    → u < 0x200000
    → m s ≡ (u / 0x40000) % 8 + 0xF0
    → m (s + 1) ≡ tail (u / 0x1000) + 0x80
    → m (s + 2) ≡ tail (u / 0x40) + 0x80
    → m (s + 3) ≡ tail u + 0x80
    → ord m s ≡ (u, s + 4)
unfolding ord
ord_four m s u h e0 e1 e2 e3 =
    let (b128, b32, b16, b8, low) = lead_four ((u / 0x40000) % 8) (omega arith) in
    rw
      (
        e0,
        b128,
        b32,
        b16,
        b8,
        low,
        e1,
        e2,
        e3,
        tail_back (u / 0x1000),
        tail_back (u / 0x40),
        tail_back u,
        parts_four u h,
      )
      refl

-- The memory that chr leaves for three and for four bytes.
abbrev wrote_three : Memory → ℕ → ℕ → Memory
wrote_three m s u =
    put
      (put (put (put m s ((u / 0x1000) % 0x10 + 0xE0)) (s + 1) (tail (u / 0x40) + 0x80)) (s + 2)
        (tail u + 0x80))
      (s + 3) 0

abbrev wrote_four : Memory → ℕ → ℕ → Memory
wrote_four m s u =
    put
      (put
        (put (put (put m s ((u / 0x40000) % 8 + 0xF0)) (s + 1) (tail (u / 0x1000) + 0x80)) (s + 2)
          (tail (u / 0x40) + 0x80))
        (s + 3) (tail u + 0x80))
      (s + 4) 0

chr_three :
    (m : Memory) (s u : ℕ) → 0x800 ≤ u → u < 0x10000 → chr m s u ≡ (wrote_three m s u, s + 3)
unfolding chr
chr_three m s u lo hi = ground arith

chr_four : (m : Memory) (s u : ℕ) → 0x10000 ≤ u → chr m s u ≡ (wrote_four m s u, s + 4)
unfolding chr
chr_four m s u lo = ground arith

ord_two : (m : Memory) (s u : ℕ) → u < 0x800 → ord (chr m s u).0 s ≡ (u, (chr m s u).1)
unfolding ord chr
ord_two m s u h = elim (dec_lt u 0x80) [ yes one ↦ ground arith | no more ↦ ground arith ]

-- Whatever is in the memory, a code point below 2 ^ 21 that chr writes at an address is what ord reads there,
-- and both leave the pointer behind the same bytes.
pub ord-chr : (m : Memory) (s u : ℕ) → u < 0x200000 → ord (chr m s u).0 s ≡ (u, (chr m s u).1)
ord-chr m s u h = elim (dec_lt u 0x800) [
  | yes few ↦ ord_two m s u few
  | no more ↦ elim (dec_lt u 0x10000) [
    | yes three ↦
        rw (chr_three m s u (omega arith) three)
          (ord_three (wrote_three m s u) s u three (ground arith) (ground arith) (ground arith))
    | no four ↦ rw (chr_four m s u (omega arith)) (
        ord_four (wrote_four m s u) s u h (ground arith) (ground arith) (ground arith)
          (ground arith))
  ]
]
