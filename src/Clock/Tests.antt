-- ===== src/Clock/Tests.antt =====
-- Runs of the clock.
use bztsrc_osz.Prelude.{
  ℕ, ◌+◌, ◌%◌, ◌^◌, ◌≡◌, some, [], ◌∷◌, ◌==◌, if◌then◌else◌, refl, arith, false, ltb,
}
use bztsrc_osz.Clock.{
  Clock, interrupts, Datetime, is_bcd, datetime, years, months, seconds, env_getts,
}
use bztsrc_osz.Clock.Second.{Elapsed, interrupts-Elapsed}
use bztsrc_osz.Clock.Calendar.{next_day, seconds-next_day}

abbrev clock : Clock
clock = record { cnt = 100; ts = 1000; ns = 0; ticks = 0; pids = 0; sent = [] }

interrupts-Elapsed_example :
    Elapsed 100 (5 ∷ 6 ∷ []) clock (interrupts 100 100 (some (5 ∷ 6 ∷ [])) clock)
interrupts-Elapsed_example =
    interrupts-Elapsed 100 (5 ∷ 6 ∷ []) clock refl (omega arith) (omega arith) (omega arith)

-- The end of February of a leap year.
abbrev leap_day : Datetime
leap_day = record { year = 2020; month = 2; day = 29; hour = 12; minute = 30; second = 0 }

seconds-next_day_example : seconds (next_day leap_day) 0 ≡ some ((1582979400 + 86400) % 2 ^ 64)
unfolding seconds years months
seconds-next_day_example =
    seconds-next_day leap_day 0 1582979400
      (record {
        year = omega arith;
        month = omega arith;
        month_le = omega arith;
        day = omega arith;
        day_le = omega arith;
      })
      refl

-- The first of January 2016, in the format of the firmware.
abbrev bcd_bytes : ℕ → ℕ
bcd_bytes i = if i == 0 then 0x20 else if i == 1 then 0x16 else if ltb i 4 then 1 else 0

epoch_of_2016 : env_getts bcd_bytes false 0 ≡ some 1451606400
unfolding env_getts datetime is_bcd seconds years months
epoch_of_2016 = refl

-- The same day as binary numbers: the byte 0xe0 of 2016 is negative, and the year is 1760.
abbrev binary_bytes : ℕ → ℕ
binary_bytes i = if i == 0 then 0xe0 else if i == 1 then 7 else if ltb i 4 then 1 else 0

year_is_negative : (datetime binary_bytes).year ≡ 1760
unfolding datetime is_bcd
year_is_negative = refl
