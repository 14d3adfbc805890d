-- ===== src/Libc/Stdlib/Numbers.antt =====
-- Decimal numbers: what stdlib_dec, atoi and atol read, and the bounds of what they return.
use bztsrc_osz.Prelude.{
  ℕ, zero, suc, ◌+◌, ◌*◌, ◌^◌, ◌≤◌, ◌<◌, ◌≡◌, refl, ap, ◌∙◌, true, false, some, List, [], ◌∷◌,
  length, arith, inl, inr, Bool-cases, add64, sub64, mul64,
}
use bztsrc_osz.Libc.Memory.{Memory}
use bztsrc_osz.Libc.Stdlib.{
  is_digit, is_hex, hex_digit, clamp, is_prefix, hex_loop, stdlib_hex, dec_loop, stdlib_dec,
}

-- From an address on stand these digits, and then a byte that is none.
unfoldable pub Digits : Memory → ℕ → List ℕ → Type 0
Digits m s [] = is_digit (m s) ≡ false
Digits m s (d ∷ ds) = (m s ≡ 48 + d) × (d < 10) × Digits m (s + 1) ds

-- The number that digits write down, behind those of `v`.
abbrev pub number : ℕ → List ℕ → ℕ
number v [] = v
number v (d ∷ ds) = number (v * 10 + d) ds

number_grows : (v : ℕ) (ds : List ℕ) → v ≤ number v ds
number_grows v [] = omega arith
number_grows v (d ∷ ds) = omega (arith, number_grows (v * 10 + d) ds)

-- One round of the loop, as long as the number fits.
dec_step :
    (c v d : ℕ) → c ≡ 48 + d → v * 10 + d < 2 ^ 64 → add64 (mul64 v 10) (sub64 c 48) ≡ v * 10 + d
dec_step c v d e h = omega arith

digit_next : (m : Memory) (s d : ℕ) (ds : List ℕ) → Digits m s (d ∷ ds) → is_digit (m s) ≡ true
unfolding Digits
digit_next m s d ds t = ground (arith, t.0, t.1)

dec_loop-Digits :
    (m : Memory) (fuel s v d : ℕ) (ds : List ℕ)
    → Digits m s (d ∷ ds)
    → number v (d ∷ ds) < 2 ^ 64
    → length ds < fuel
    → dec_loop fuel m s v ≡ some (s + 1 + length ds, number v (d ∷ ds))
unfolding dec_loop Digits
dec_loop-Digits m zero s v d ds t h k = absurd (omega arith)
dec_loop-Digits m (suc fuel) s v d [] t h k =
    rw (dec_step (m s) v d t.0 h, t.2) (ap (λ p. some (p, v * 10 + d)) (omega arith))
dec_loop-Digits m (suc fuel) s v d (e ∷ ds) t h k =
    let small : v * 10 + d < 2 ^ 64 = omega (arith, number_grows (v * 10 + d) (e ∷ ds)) in
    let rest = dec_loop-Digits m fuel (s + 1) (v * 10 + d) e ds t.2 h (omega arith) in
    rw (dec_step (m s) v d t.0 small, digit_next m (s + 1) e ds t.2, rest)
      (ap (λ p. some (p, number v (d ∷ e ∷ ds))) (omega arith))

-- stdlib_dec reads a decimal number that fits in 64 bits and does not look like a hexadecimal one, with more fuel
-- than it has digits: it returns the address behind the last digit, and the number within the bounds.
pub stdlib_dec-Digits :
    (m : Memory) (fuel s d : ℕ) (ds : List ℕ) (least most : ℕ)
    → Digits m s (d ∷ ds)
    → is_prefix m s ≡ false
    → number 0 (d ∷ ds) < 2 ^ 64
    → length ds < fuel
    → stdlib_dec fuel m s least most
      ≡ some (s + length (d ∷ ds), clamp least most (number 0 (d ∷ ds)))
unfolding stdlib_dec
stdlib_dec-Digits m fuel s d ds least most t p h k =
    let at : s + 1 + length ds ≡ s + length (d ∷ ds) = omega arith in
    rw (p, dec_loop-Digits m fuel s 0 d ds t h k, at) refl

hex_loop_ends :
    (m : Memory) (fuel n s v : ℕ)
    → is_hex (m (s + 1 + n)) ≡ false
    → n < fuel
    → (r : ℕ × ℕ) × (hex_loop fuel m s v ≡ some r)
unfolding hex_loop
hex_loop_ends m zero n s v h k = absurd (omega arith)
hex_loop_ends m (suc fuel) zero s v h k =
    let here : is_hex (m (s + 1)) ≡ false = ap (λ x. is_hex (m x)) (omega arith) ∙ h in
    ((s + 1, add64 (mul64 v 16) (hex_digit (m s))), rw here refl)
hex_loop_ends m (suc fuel) (suc n) s v h k =
    let v' : ℕ = add64 (mul64 v 16) (hex_digit (m s)) in
    let there : is_hex (m (s + 1 + 1 + n)) ≡ false = ap (λ x. is_hex (m x)) (omega arith) ∙ h in
    let (r, run) = hex_loop_ends m fuel n (s + 1) v' there (omega arith) in
    elim (Bool-cases (is_hex (m (s + 1)))) [
      | inr stop ↦ ((s + 1, v'), rw stop refl)
      | inl more ↦ (r, rw (more, run) refl)
    ]

dec_loop_ends :
    (m : Memory) (fuel n s v : ℕ)
    → is_digit (m (s + 1 + n)) ≡ false
    → n < fuel
    → (r : ℕ × ℕ) × (dec_loop fuel m s v ≡ some r)
unfolding dec_loop
dec_loop_ends m zero n s v h k = absurd (omega arith)
dec_loop_ends m (suc fuel) zero s v h k =
    let here : is_digit (m (s + 1)) ≡ false = ap (λ x. is_digit (m x)) (omega arith) ∙ h in
    ((s + 1, add64 (mul64 v 10) (sub64 (m s) 48)), rw here refl)
dec_loop_ends m (suc fuel) (suc n) s v h k =
    let v' : ℕ = add64 (mul64 v 10) (sub64 (m s) 48) in
    let there : is_digit (m (s + 1 + 1 + n)) ≡ false = ap (λ x. is_digit (m x)) (omega arith) ∙ h in
    let (r, run) = dec_loop_ends m fuel n (s + 1) v' there (omega arith) in
    elim (Bool-cases (is_digit (m (s + 1)))) [
      | inr stop ↦ ((s + 1, v'), rw stop refl)
      | inl more ↦ (r, rw (more, run) refl)
    ]

digit-hex : (c : ℕ) → is_hex c ≡ false → is_digit c ≡ false
digit-hex c h = ground (arith, h)

abbrev pub InBounds : ℕ → ℕ → ℕ → Type 0
InBounds least most v = (least ≤ v) × (v ≤ most)

clamp-InBounds :
    (least most v : ℕ) → least ≤ most → 0 < most → InBounds least most (clamp least most v)
clamp-InBounds least most v h k = (ground arith, ground arith)

stdlib_hex-InBounds :
    (m : Memory) (fuel n s least most : ℕ)
    → is_hex (m (s + 3 + n)) ≡ false
    → n + 3 ≤ fuel
    → least ≤ most
    → 0 < most
    → (p v : ℕ) × (stdlib_hex fuel m s least most ≡ some (p, v)) × InBounds least most v
unfolding stdlib_hex
stdlib_hex-InBounds m fuel n s least most h k b c = elim (Bool-cases (is_prefix m s)) [
  | inl skip ↦
      let there : is_hex (m (s + 2 + 1 + n)) ≡ false = ap (λ x. is_hex (m x)) (omega arith) ∙ h in
      let (r, run) = hex_loop_ends m fuel n (s + 2) 0 there (omega arith) in
      (r.0, clamp least most r.1, ground (arith, skip, run), clamp-InBounds least most r.1 b c)
  | inr stay ↦
      let there : is_hex (m (s + 1 + (n + 2))) ≡ false = ap (λ x. is_hex (m x)) (omega arith) ∙ h in
      let (r, run) = hex_loop_ends m fuel (n + 2) s 0 there (omega arith) in
      (r.0, clamp least most r.1, ground (arith, stay, run), clamp-InBounds least most r.1 b c)
]

-- stdlib_dec of any text in which, five or more characters behind its start, one is no hexadecimal digit ends
-- with as much fuel as there are characters up to that one, and returns a number within the bounds, when these
-- are in order and the upper one is not 0.
pub stdlib_dec-InBounds :
    (m : Memory) (fuel n s least most : ℕ)
    → is_hex (m (s + 5 + n)) ≡ false
    → n + 5 ≤ fuel
    → least ≤ most
    → 0 < most
    → (p v : ℕ) × (stdlib_dec fuel m s least most ≡ some (p, v)) × InBounds least most v
unfolding stdlib_dec
stdlib_dec-InBounds m fuel n s least most h k b c = elim (Bool-cases (is_prefix m s)) [
  | inl skip ↦
      let there : is_hex (m (s + 2 + 3 + n)) ≡ false = ap (λ x. is_hex (m x)) (omega arith) ∙ h in
      let (p, v, run, inside) =
        stdlib_hex-InBounds m fuel n (s + 2) least most there (omega arith) b c in
      (p, v, rw (skip, run) refl, inside)
  | inr stay ↦
      let there : is_digit (m (s + 1 + (n + 4))) ≡ false =
        ap (λ x. is_digit (m x)) (omega arith) ∙ digit-hex (m (s + 5 + n)) h in
      let (r, run) = dec_loop_ends m fuel (n + 4) s 0 there (omega arith) in
      (r.0, clamp least most r.1, rw (stay, run) refl, clamp-InBounds least most r.1 b c)
]
