-- ===== src/Libc/Memory.antt =====
-- Memory and string functions of src/libc/string.c, on a memory that maps addresses to bytes. Address 0 is
-- the null pointer, and a pointer that is returned is an address or `none`. A string ends at the first byte
-- that is 0, which may lie anywhere, so the loops over strings take fuel, and `none` is fuel that ran out.
pub mod Move
pub mod Search
pub mod Strings
pub mod Tests
use bztsrc_osz.Prelude.{
  ℕ, zero, suc, ◌+◌, ◌-◌, ◌%◌, ◌==◌, ◌||◌, ◌&&◌, not, Bool, true, false, Option, none, some, ltb,
  leb, if◌then◌else◌,
}

abbrev pub Memory : Type 0
Memory = ℕ → ℕ

abbrev pub put : Memory → ℕ → ℕ → Memory
put m a v x = if x == a then v else m x

-- memcpy, which goes upwards.
pub copy_up : Memory → ℕ → ℕ → ℕ → Memory
copy_up m a b zero = m
copy_up m a b (suc n) = copy_up (put m a (m b)) (a + 1) (b + 1) n

-- The loop of memmove, which goes downwards: `n` bytes are left.
pub copy_down : Memory → ℕ → ℕ → ℕ → Memory
copy_down m a b zero = m
copy_down m a b (suc n) = copy_down (put m (a + n) (m (b + n))) a b n

-- The areas overlap, as memmove tests it.
abbrev pub overlaps : ℕ → ℕ → ℕ → Bool
overlaps a b n = (ltb a b && ltb b (a + n)) || (ltb b a && ltb a (b + n))

-- memmove
pub memmove : Memory → ℕ → ℕ → ℕ → Memory
memmove m dst src n =
    if (not (src == 0) && not (dst == 0)) && ltb 0 n
    then if overlaps dst src n then copy_down m dst src n else copy_up m dst src n
    else m

-- memcmp says that `n` bytes are the same.
pub same : Memory → ℕ → ℕ → ℕ → Bool
same m a b zero = true
same m a b (suc n) = (m a == m b) && same m (a + 1) (b + 1) n

-- The loop of memchr.
pub find_byte : Memory → ℕ → ℕ → ℕ → Option ℕ
find_byte m p c zero = none
find_byte m p c (suc n) =
    let rest = find_byte m (p + 1) c n in if m p == (c % 256) then some p else rest

-- memchr
pub memchr : Memory → ℕ → ℕ → ℕ → Option ℕ
memchr m s c n = if (s == 0) || (n == 0) then none else find_byte m s c n

-- The loop of memmem: `hl` places are left.
pub find_up : Memory → ℕ → ℕ → ℕ → ℕ → Option ℕ
find_up m c zero needle nl = none
find_up m c (suc hl) needle nl =
    let rest = find_up m (c + 1) hl needle nl in if same m c needle nl then some c else rest

-- The loop of memrmem, from the last place on.
pub find_down : Memory → ℕ → ℕ → ℕ → ℕ → Option ℕ
find_down m c zero needle nl = none
find_down m c (suc hl) needle nl =
    let rest = find_down m (c - 1) hl needle nl in if same m c needle nl then some c else rest

-- The check of the parameters of memmem and memrmem.
abbrev pub no_search : ℕ → ℕ → ℕ → ℕ → Bool
no_search haystack hl needle nl =
    (haystack == 0) || (needle == 0) || (hl == 0) || (nl == 0) || ltb hl nl

-- memmem
pub memmem : Memory → ℕ → ℕ → ℕ → ℕ → Option ℕ
memmem m haystack hl needle nl =
    if no_search haystack hl needle nl then none else find_up m haystack (hl - nl) needle nl

-- memrmem
pub memrmem : Memory → ℕ → ℕ → ℕ → ℕ → Option ℕ
memrmem m haystack hl needle nl =
    if no_search haystack hl needle nl
    then none
    else find_down m (haystack + (hl - nl)) (hl - nl) needle nl

-- The loop of strlen.
pub count : ℕ → Memory → ℕ → Option ℕ
count zero m s = none
count (suc fuel) m s =
    let rest = count fuel m (s + 1) in
    if m s == 0 then some 0 else elim rest [ none ↦ none | some n ↦ some (n + 1) ]

-- strlen
pub strlen : ℕ → Memory → ℕ → Option ℕ
strlen fuel m s = if s == 0 then some 0 else count fuel m s

-- The loop of strnlen: `n` bytes are left.
pub count_to : Memory → ℕ → ℕ → ℕ
count_to m s zero = 0
count_to m s (suc n) = let rest = count_to m (s + 1) n in if m s == 0 then 0 else rest + 1

-- strnlen
pub strnlen : Memory → ℕ → ℕ → ℕ
strnlen m s n = if s == 0 then 0 else count_to m s n

-- The loop of strcpy and strcat, with the end of the copy.
pub copy_string : ℕ → Memory → ℕ → ℕ → Option (Memory × ℕ)
copy_string zero m dst src = none
copy_string (suc fuel) m dst src =
    let rest = copy_string fuel (put m dst (m src)) (dst + 1) (src + 1) in
    if m src == 0 then some (put m dst 0, dst) else rest

-- strcpy, which returns the end of the copy.
pub strcpy : ℕ → Memory → ℕ → ℕ → Option (Memory × ℕ)
strcpy fuel m dst src =
    if (src == 0) || (dst == 0) then some (m, dst) else copy_string fuel m dst src

-- strcat, which returns the end of the string.
pub strcat : ℕ → Memory → ℕ → ℕ → Option (Memory × ℕ)
strcat fuel m dst src =
    if (src == 0) || (dst == 0)
    then some (m, dst)
    else elim (strlen fuel m dst) [ none ↦ none | some n ↦ copy_string fuel m (dst + n) src ]
