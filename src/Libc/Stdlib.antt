-- ===== src/Libc/Stdlib.antt =====
-- Number conversion, the binary search and the hooks of exit, of src/libc/stdlib.c, on a memory of bytes.
-- Loops take fuel, and `none` is fuel that ran out. The comparison of bsearch is a parameter.
pub mod Numbers
pub mod Bsearch
pub mod Tests
use bztsrc_osz.Prelude.{
  ℕ, zero, suc, ◌+◌, ◌-◌, ◌*◌, ◌/◌, ◌%◌, ◌^◌, ◌==◌, ◌||◌, ◌&&◌, not, Bool, true, false, Option,
  none, some, List, [], ◌∷◌, ◌++◌, ltb, leb, if◌then◌else◌, add64, sub64, mul64,
}
use bztsrc_osz.Libc.Memory.{Memory}

abbrev pub is_digit : ℕ → Bool
is_digit c = leb 48 c && leb c 57

abbrev pub is_hex : ℕ → Bool
is_hex c = is_digit c || (leb 97 c && leb c 102) || (leb 65 c && leb c 70)

-- What one character adds to a hexadecimal number.
abbrev pub hex_digit : ℕ → ℕ
hex_digit c =
    if is_digit c
    then c - 48
    else if leb 97 c && leb c 102
    then c - 97 + 10
    else if leb 65 c && leb c 70
    then c - 65 + 10
    else 0

-- The bounds of a number; no upper bound is 0.
abbrev pub clamp : ℕ → ℕ → ℕ → ℕ
clamp least most v =
    let v' = if ltb v least then least else v in if not (most == 0) && ltb most v' then most else v'

-- "0x" stands there.
abbrev pub is_prefix : Memory → ℕ → Bool
is_prefix m s = (m s == 48) && (m (s + 1) == 120)

-- The loop of stdlib_hex: the address behind the number, and its value.
pub hex_loop : ℕ → Memory → ℕ → ℕ → Option (ℕ × ℕ)
hex_loop zero m s v = none
hex_loop (suc fuel) m s v =
    let v' = add64 (mul64 v 16) (hex_digit (m s)) in
    let rest = hex_loop fuel m (s + 1) v' in if is_hex (m (s + 1)) then rest else some (s + 1, v')

pub stdlib_hex : ℕ → Memory → ℕ → ℕ → ℕ → Option (ℕ × ℕ)
stdlib_hex fuel m s least most = elim (hex_loop fuel m (if is_prefix m s then s + 2 else s) 0) [
  | none ↦ none
  | some (p, v) ↦ some (p, clamp least most v)
]

-- The loop of stdlib_dec.
pub dec_loop : ℕ → Memory → ℕ → ℕ → Option (ℕ × ℕ)
dec_loop zero m s v = none
dec_loop (suc fuel) m s v =
    let v' = add64 (mul64 v 10) (sub64 (m s) 48) in
    let rest = dec_loop fuel m (s + 1) v' in if is_digit (m (s + 1)) then rest else some (s + 1, v')

pub stdlib_dec : ℕ → Memory → ℕ → ℕ → ℕ → Option (ℕ × ℕ)
stdlib_dec fuel m s least most =
    let hex = stdlib_hex fuel m (s + 2) least most in
    if is_prefix m s
    then hex
    else elim (dec_loop fuel m s 0) [ none ↦ none | some (p, v) ↦ some (p, clamp least most v) ]

-- A number behind a sign, up to `most`, in two's complement of 64 bits.
signed : ℕ → Memory → ℕ → ℕ → Option ℕ
signed fuel m c most =
    let plus = stdlib_dec fuel m c 0 most in
    let minus = stdlib_dec fuel m (c + 1) 0 most in
    if m c == 45
    then elim minus [ none ↦ none | some (p, r) ↦ some (sub64 0 r) ]
    else elim plus [ none ↦ none | some (p, r) ↦ some r ]

-- atoi returns the lower 32 bits.
pub atoi : ℕ → Memory → ℕ → Option ℕ
atoi fuel m c = elim (signed fuel m c 0xFFFFFFFF) [ none ↦ none | some r ↦ some (r % 2 ^ 32) ]

pub atol : ℕ → Memory → ℕ → Option ℕ
atol fuel m c = signed fuel m c 0xFFFFFFFFFFFFFFFF

-- The sign of what a comparison returns.
pub data Sign : Type 0 where
  negative same positive : Sign

-- The loop of bsearch: the index of an element, or `none` in the inner Option. `cmp` compares the key with
-- the element at an address.
pub bsearch_loop : ℕ → (ℕ → Sign) → ℕ → ℕ → ℕ → ℕ → Option (Option ℕ)
bsearch_loop zero cmp base size s e = none
bsearch_loop (suc fuel) cmp base size s e =
    let m = s + (e - s) / 2 in
    let left = bsearch_loop fuel cmp base size s m in
    let right = bsearch_loop fuel cmp base size (m + 1) e in
    if ltb s e
    then elim (cmp (base + m * size)) [
      | negative ↦ left
      | positive ↦ right
      | same ↦ some (some (base + m * size))
    ]
    else some none

pub bsearch : ℕ → (ℕ → Sign) → ℕ → ℕ → ℕ → Option (Option ℕ)
bsearch fuel cmp base nmemb size = bsearch_loop fuel cmp base size 0 nmemb

abbrev pub eexist : ℕ
eexist = 11

contains : List ℕ → ℕ → Bool
contains [] f = false
contains (g ∷ gs) f = (g == f) || contains gs f

-- atexit with the hooks that are registered, the function, and errno after realloc: `none` in the list of
-- hooks is no memory. The result comes with the hooks.
pub atexit : List ℕ → ℕ → Bool → ℕ → ℕ × Option (List ℕ)
atexit hooks f has_memory e =
    if contains hooks f
    then (eexist, some hooks)
    else if not has_memory
    then (e, none)
    else if not (e == 0)
    then (e, some hooks)
    else (0, some (hooks ++ (f ∷ [])))
