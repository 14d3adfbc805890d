-- ===== src/Libc/Stdlib/Tests.antt =====
-- Numbers and searches on concrete memories.
use bztsrc_osz.Prelude.{
  ℕ, ◌≡◌, refl, ◌==◌, true, Option, some, List, [], ◌∷◌, if◌then◌else◌, arith, get_or, ltb,
}
use bztsrc_osz.Libc.Memory.{Memory}
use bztsrc_osz.Libc.Stdlib.{
  Sign, atoi, atol, stdlib_dec, stdlib_hex, signed, hex_loop, dec_loop, bsearch, bsearch_loop,
  atexit, contains,
}
use bztsrc_osz.Libc.Stdlib.Bsearch.{Searched, IsSorted, bsearch-Searched}
use bztsrc_osz.Libc.Stdlib.Numbers.{Digits}

-- A text at address 1.
abbrev text : List ℕ → Memory
text cs a = get_or (0 ∷ cs) a 0

-- "42", "-1" and "0x2A".
abbrev forty_two : Memory
forty_two = text (52 ∷ 50 ∷ [])

number_runs :
    (atoi 9 forty_two 1 ≡ some 42)
    × (atoi 9 (text (45 ∷ 49 ∷ [])) 1 ≡ some 0xFFFFFFFF)
    × (atol 9 (text (48 ∷ 120 ∷ 50 ∷ 65 ∷ [])) 1 ≡ some 42)
unfolding atoi atol signed stdlib_dec stdlib_hex hex_loop dec_loop
number_runs = (refl, refl, refl)

-- An empty text reads as the largest number.
empty_runs : atoi 9 (text []) 1 ≡ some 0xFFFFFFFF
unfolding atoi signed stdlib_dec stdlib_hex hex_loop dec_loop
empty_runs = refl

-- The key 50 in the array 10, 30, 50, 70 of elements of 8 bytes at 100.
abbrev compare_50 : ℕ → Sign
compare_50 a = if ltb a 116 then Sign.positive else if a == 116 then Sign.same else Sign.negative

search_runs : bsearch 9 compare_50 100 4 8 ≡ some (some 116)
unfolding bsearch bsearch_loop
search_runs = refl

hook_runs : atexit (1 ∷ []) 1 true 0 ≡ (11, some (1 ∷ []))
unfolding atexit contains
hook_runs = refl

compare_50-IsSorted : IsSorted compare_50 100 8 4
compare_50-IsSorted = record {
  above = λ i j h k e. ground (arith, e);
  below = λ i j h k e. ground (arith, e);
}

bsearch-Searched_example :
    (o : Option ℕ) × (bsearch 9 compare_50 100 4 8 ≡ some o) × Searched compare_50 100 8 0 4 o
bsearch-Searched_example = bsearch-Searched compare_50 100 8 4 9 compare_50-IsSorted (omega arith)

forty_two-Digits : Digits forty_two 1 (4 ∷ 2 ∷ [])
unfolding Digits
forty_two-Digits = (refl, omega arith, (refl, omega arith, refl))
