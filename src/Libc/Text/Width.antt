-- ===== src/Libc/Text/Width.antt =====
-- The number of characters: mbstrlen goes on as ord does.
use bztsrc_osz.Prelude.{ℕ, zero, suc, ◌+◌, ◌<◌, ◌≡◌, ◌≢◌, sym, ap, ◌∙◌, some, arith}
use bztsrc_osz.Libc.Memory.{Memory}
use bztsrc_osz.Libc.Utf.{chr, ord}
use bztsrc_osz.Libc.Utf.RoundTrip.{ord-chr}
use bztsrc_osz.Libc.Text.{width, count_chars, mbstrlen}

-- ord moves the pointer by the width.
width-ord : (m : Memory) (s : ℕ) → (ord m s).1 ≡ s + width (m s)
unfolding ord width
width-ord m s = ground arith

-- What chr writes ends in a 0, and does not begin with one.
chr_end : (m : Memory) (s u : ℕ) → (chr m s u).0 (chr m s u).1 ≡ 0
unfolding chr
chr_end m s u = ground arith

chr_begin : (m : Memory) (s u : ℕ) → u ≢ 0 → (chr m s u).0 s ≢ 0
unfolding chr
chr_begin m s u nz z = ground arith

count_chars-one :
    (m : Memory) (s fuel : ℕ)
    → m s ≢ 0
    → m (s + width (m s)) ≡ 0
    → 1 < fuel
    → count_chars fuel m s ≡ some 1
unfolding count_chars
count_chars-one m s zero nz z h = absurd (omega arith)
count_chars-one m s (suc zero) nz z h = absurd (omega arith)
count_chars-one m s (suc (suc fuel)) nz z h = ground (arith, nz, z)

-- mbstrlen counts one character where chr wrote a code point below 2 ^ 21 that is not 0, at an address that is
-- not null, with fuel of at least 2.
pub mbstrlen-chr :
    (m : Memory) (s u fuel : ℕ)
    → s ≢ 0
    → u ≢ 0
    → u < 0x200000
    → 1 < fuel
    → mbstrlen fuel (chr m s u).0 s ≡ some 1
unfolding mbstrlen
mbstrlen-chr m s u fuel a b c h =
    let m' : Memory = (chr m s u).0 in
    let next : s + width (m' s) ≡ (chr m s u).1 =
      sym (width-ord m' s) ∙ ap (λ r. r.1) (ord-chr m s u c) in
    let one : count_chars fuel m' s ≡ some 1 =
      count_chars-one m' s fuel (chr_begin m s u b) (ap m' next ∙ chr_end m s u) h in
    ground (arith, a, one)
