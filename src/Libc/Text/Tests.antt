-- ===== src/Libc/Text/Tests.antt =====
-- Comparisons and counts of characters, and the theorems on them for a concrete memory.
use bztsrc_osz.Prelude.{
  ℕ, ◌+◌, ◌-◌, ◌<◌, ◌≡◌, ◌≢◌, refl, ◌==◌, some, if◌then◌else◌, arith, ltb, leb, ◌&&◌,
}
use bztsrc_osz.Libc.Memory.{Memory}
use bztsrc_osz.Libc.Memory.Strings.{IsString}
use bztsrc_osz.Libc.Text.{strcmp, compare_up, strncpy, copy_to_end}

-- At 100 and at 200 stand strings of three bytes that differ in the last one; an empty string stands at 300,
-- and one at 400 with a 7 behind its end.
abbrev memory : Memory
memory x =
    if leb 100 x && ltb x 103
    then x - 90
    else if leb 200 x && ltb x 202
    then x - 190
    else if x == 202
    then 50
    else if x == 401
    then 7
    else 0

three_bytes : IsString memory 100 3
three_bytes = record { bytes = λ i h. ground arith; last = refl }

no_bytes : IsString memory 300 0
no_bytes = record { bytes = λ i h. absurd (omega arith); last = refl }

no_bytes_other : IsString memory 400 0
no_bytes_other = record { bytes = λ i h. absurd (omega arith); last = refl }

differ_last : strcmp 4 memory 100 200 ≡ some (12, 50)
unfolding strcmp compare_up
differ_last = refl

copied_two : ((strncpy memory 500 100 2).0 501 ≡ 11) × ((strncpy memory 500 100 2).1 ≡ 502)
unfolding strncpy copy_to_end
copied_two = (refl, refl)

two_same : (i : ℕ) → i < 2 → (memory (100 + i) ≢ 0) × (memory (100 + i) ≡ memory (200 + i))
two_same i h = (ground arith, ground arith)
