-- ===== src/Libc/Text.antt =====
-- Comparison of strings, bounded copies and the number of characters, from src/libc/string.c. A comparison
-- returns the two bytes whose difference the source returns. The loops take fuel, as in Libc.Memory.
pub mod Compare
pub mod Width
pub mod Tests
use bztsrc_osz.Prelude.{ℕ, zero, suc, ◌+◌, ◌==◌, ◌||◌, not, Option, none, some, if◌then◌else◌}
use bztsrc_osz.Libc.Memory.{Memory, put, strlen}
use bztsrc_osz.Libc.Utf.{bit}

-- The loop of strcmp.
pub compare_up : ℕ → Memory → ℕ → ℕ → Option (ℕ × ℕ)
compare_up zero m a b = none
compare_up (suc fuel) m a b =
    let rest = compare_up fuel m (a + 1) (b + 1) in
    if not (m a == m b)
    then some (m a, m b)
    else if m (a + 1) == 0
    then some (m (a + 1), m (b + 1))
    else rest

-- strcmp
pub strcmp : ℕ → Memory → ℕ → ℕ → Option (ℕ × ℕ)
strcmp fuel m s1 s2 =
    if (s1 == 0) || (s2 == 0) || (s1 == s2) then some (0, 0) else compare_up fuel m s1 s2

-- The loop of strncmp, for at most `n` bytes more, of which the first is always compared.
pub compare_to : Memory → ℕ → ℕ → ℕ → ℕ × ℕ
compare_to m a b zero = (m a, m b)
compare_to m a b (suc n) =
    let rest = compare_to m (a + 1) (b + 1) n in
    if not (m a == m b)
    then (m a, m b)
    else if (m (a + 1) == 0) || (n == 0)
    then (m (a + 1), m (b + 1))
    else rest

-- strncmp
pub strncmp : Memory → ℕ → ℕ → ℕ → ℕ × ℕ
strncmp m s1 s2 n =
    if (s1 == 0) || (s2 == 0) || (s1 == s2) || (n == 0) then (0, 0) else compare_to m s1 s2 n

-- The loop of strncpy and strncat, with the end of the copy.
pub copy_to_end : Memory → ℕ → ℕ → ℕ → Memory × ℕ
copy_to_end m dst src zero = (put m dst 0, dst)
copy_to_end m dst src (suc n) =
    let rest = copy_to_end (put m dst (m src)) (dst + 1) (src + 1) n in
    if m src == 0 then (put m dst 0, dst) else rest

-- strncpy
pub strncpy : Memory → ℕ → ℕ → ℕ → Memory × ℕ
strncpy m dst src n =
    if (src == 0) || (dst == 0) || (n == 0) then (m, dst) else copy_to_end m dst src n

-- strncat
pub strncat : ℕ → Memory → ℕ → ℕ → ℕ → Option (Memory × ℕ)
strncat fuel m dst src n =
    if (src == 0) || (dst == 0) || (n == 0)
    then some (m, dst)
    else elim (strlen fuel m dst) [ none ↦ none | some k ↦ some (copy_to_end m (dst + k) src n) ]

-- How far mbstrlen goes on for one character.
pub width : ℕ → ℕ
width b =
    if bit b 128 == 0
    then 1
    else if bit b 32 == 0
    then 2
    else if bit b 16 == 0
    then 3
    else if bit b 8 == 0
    then 4
    else 1

-- The loop of mbstrlen.
pub count_chars : ℕ → Memory → ℕ → Option ℕ
count_chars zero m s = none
count_chars (suc fuel) m s =
    let rest = count_chars fuel m (s + width (m s)) in
    if m s == 0 then some 0 else elim rest [ none ↦ none | some n ↦ some (n + 1) ]

-- mbstrlen
pub mbstrlen : ℕ → Memory → ℕ → Option ℕ
mbstrlen fuel m s = if s == 0 then some 0 else count_chars fuel m s
