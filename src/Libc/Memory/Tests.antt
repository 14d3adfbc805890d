-- ===== src/Libc/Memory/Tests.antt =====
-- Runs of the memory and string functions, and the theorems on them for a concrete memory.
use bztsrc_osz.Prelude.{◌-◌, ◌≡◌, refl, none, some, if◌then◌else◌, arith, ltb, leb, ◌&&◌}
use bztsrc_osz.Libc.Memory.{
  Memory, memmove, memmem, memrmem, find_up, find_down, same, strnlen, count_to,
}
use bztsrc_osz.Libc.Memory.Move.{Moved, memmove-Moved}
use bztsrc_osz.Libc.Memory.Strings.{IsString}

-- Address 100 + i holds 10 + i for i below 4, and all other bytes are 0.
abbrev memory : Memory
memory x = if leb 100 x && ltb x 104 then x - 90 else 0

four_bytes : IsString memory 100 4
four_bytes = record { bytes = λ i h. ground arith; last = refl }

no_bytes : IsString memory 200 0
no_bytes = record { bytes = λ i h. absurd (omega arith); last = refl }

-- The needle 13 stands at the last place, which memmem does not look at; memrmem does.
last_place : (memmem memory 100 4 103 1 ≡ none) × (memrmem memory 100 4 103 1 ≡ some 103)
unfolding memmem find_up same memrmem find_down
last_place = (refl, refl)

short_length : strnlen memory 100 3 ≡ 3
unfolding strnlen count_to
short_length = refl

memmove-Moved_example : Moved memory (memmove memory 102 100 4) 102 100 4
memmove-Moved_example =
    memmove-Moved memory 102 100 4 (omega arith) (omega arith) (λ h. omega arith)
