-- ===== src/Libc/Memory/Search.antt =====
-- Searches: what memchr and memmem find.
use bztsrc_osz.Prelude.{
  ℕ, zero, suc, ◌+◌, ◌-◌, ◌%◌, ◌<◌, ◌≤◌, ◌≡◌, ◌≢◌, ◌==◌, Bool, true, false, Option, none, some,
  arith, Bool-cases, inl, inr, ℕ_discrete,
}
use bztsrc_osz.Libc.Memory.{Memory, same, find_byte, memchr, find_up, memmem}

-- The result of a search is the first of the `n` addresses from `a` on that passes the test, or none does.
abbrev pub First : (ℕ → Bool) → ℕ → ℕ → Option ℕ → Type 0
First f a n none = (j : ℕ) → j < n → f (a + j) ≡ false
First f a n (some x) =
    (i : ℕ) × (x ≡ a + i) × (i < n) × (f x ≡ true) × ((j : ℕ) → j < i → f (a + j) ≡ false)

-- The address in front does not pass.
First-next :
    (f : ℕ → Bool) (a n : ℕ) (r : Option ℕ)
    → f a ≡ false
    → First f (a + 1) n r
    → First f a (suc n) r
First-next f a n none no_hit rest = λ j h. elim (ℕ_discrete j 0) [
  | yes first ↦ (let e : a + j ≡ a = omega arith in rw e no_hit)
  | no later ↦
      (let e : a + 1 + (j - 1) ≡ a + j = omega arith in rw (← e) (rest (j - 1) (omega arith)))
]
First-next f a n (some x) no_hit (i, at, lt, hit, before) = (
  suc i,
  omega arith,
  omega arith,
  hit,
  λ j h. elim (ℕ_discrete j 0) [
    | yes first ↦ (let e : a + j ≡ a = omega arith in rw e no_hit)
    | no later ↦
        (let e : a + 1 + (j - 1) ≡ a + j = omega arith in rw (← e) (before (j - 1) (omega arith)))
  ],
)

First-here : (f : ℕ → Bool) (a n : ℕ) → f a ≡ true → First f a (suc n) (some a)
First-here f a n hit = (0, omega arith, omega arith, hit, λ j h. absurd (omega arith))

-- The needle stands at an address.
abbrev pub occurs : Memory → ℕ → ℕ → ℕ → Bool
occurs m needle nl x = same m x needle nl

abbrev pub is_byte : Memory → ℕ → ℕ → Bool
is_byte m c x = m x == (c % 256)

find_up-First :
    (m : Memory) (c hl needle nl : ℕ) → First (occurs m needle nl) c hl (find_up m c hl needle nl)
unfolding find_up
find_up-First m c zero needle nl = λ j h. absurd (omega arith)
find_up-First m c (suc hl) needle nl = elim (Bool-cases (same m c needle nl)) [
  | inl hit ↦ rw hit (First-here (occurs m needle nl) c hl hit)
  | inr out ↦
      rw out (First-next (occurs m needle nl) c hl _ out (find_up-First m (c + 1) hl needle nl))
]

find_byte-First : (m : Memory) (p c n : ℕ) → First (is_byte m c) p n (find_byte m p c n)
unfolding find_byte
find_byte-First m p c zero = λ j h. absurd (omega arith)
find_byte-First m p c (suc n) = elim (Bool-cases (is_byte m c p)) [
  | inl hit ↦ rw hit (First-here (is_byte m c) p n hit)
  | inr out ↦ rw out (First-next (is_byte m c) p n _ out (find_byte-First m (p + 1) c n))
]

-- For a needle that is not empty and not longer than the haystack, with no null pointer, memmem finds the
-- first place of the haystack at which the needle stands, the last place at which it fits excepted: that
-- one is not looked at.
pub memmem-First :
    (m : Memory) (haystack hl needle nl : ℕ)
    → haystack ≢ 0
    → needle ≢ 0
    → 0 < nl
    → nl ≤ hl
    → First (occurs m needle nl) haystack (hl - nl) (memmem m haystack hl needle nl)
unfolding memmem
memmem-First m haystack hl needle nl a b c d =
    let run : memmem m haystack hl needle nl ≡ find_up m haystack (hl - nl) needle nl =
      ground (arith, a, b, c, d) in
    rw run (find_up-First m haystack (hl - nl) needle nl)

memchr-none : (m : Memory) (s c : ℕ) → memchr m s c 0 ≡ none
unfolding memchr
memchr-none m s c = ground arith

-- In an area that is not at the null pointer, memchr finds the first of the bytes that is equal to the
-- lowest byte of the argument.
pub memchr-First : (m : Memory) (s c n : ℕ) → s ≢ 0 → First (is_byte m c) s n (memchr m s c n)
unfolding memchr
memchr-First m s c zero a = rw (memchr-none m s c) (λ j h. absurd (omega arith))
memchr-First m s c (suc n) a =
    let run : memchr m s c (suc n) ≡ find_byte m s c (suc n) = ground (arith, a) in
    rw run (find_byte-First m s c (suc n))
