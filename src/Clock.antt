-- ===== src/Clock.antt =====
-- The clock of the core: src/core/clock.c, and env_getts of src/core/env.c, which reads the time at the start.
pub mod Second
pub mod Calendar
pub mod Tests
use bztsrc_osz.Prelude.{
  ℕ, zero, suc, ◌+◌, ◌-◌, ◌*◌, ◌/◌, ◌%◌, ◌^◌, ◌==◌, ◌||◌, ◌&&◌, not, Bool, true, false, Option,
  none, some, List, [], ◌∷◌, ◌++◌, ◌>>=◌, ltb, leb, if◌then◌else◌, add64, sub64, get_elem?,
}

-- The globals of clock.c that the interrupt changes. `sent` are the tasks that were notified, the latest first.
pub record Clock : Type 0 where
  pub cnt : ℕ
  pub ts : ℕ
  pub ns : ℕ
  pub ticks : ℕ
  pub pids : ℕ
  pub sent : List ℕ

-- The step of the clock.
abbrev pub clock_step : ℕ → ℕ
clock_step freq = 1000000000000 / freq

-- clock_init, with the seconds that env_getts returns.
pub clock_init : ℕ → ℕ → Clock
clock_init freq seconds = record {
  cnt = freq;
  ts = add64 seconds 1;
  ns = 0;
  ticks = 0;
  pids = 0;
  sent = [];
}

-- The list of the tasks that subscribed to the interrupt, before the 0 behind it, from task `i` on; `none` is no list.
abbrev pub subscriber : Option (List ℕ) → ℕ → Option ℕ
subscriber subscribers i = elim subscribers [ none ↦ none | some ps ↦ get_elem? ps i ]

-- clock_intr. Each notification is followed by sched_pick, which does not change the clock.
pub clock_intr : ℕ → Option (List ℕ) → Clock → Clock
clock_intr freq subscribers s =
    let cnt' = sub64 s.cnt 1 in
    let ticks' = add64 s.ticks (clock_step freq) in
    let running : Clock = record s {
      cnt = cnt';
      ticks = ticks';
      ns = add64 s.ns (clock_step freq);
    } in
    let restarted : ℕ = elim subscribers [
      | none ↦ s.pids
      | some ps ↦ elim (get_elem? ps s.pids) [ none ↦ 0 | some p ↦ s.pids ]
    ] in
    let second : Clock = record s {
      cnt = freq;
      ts = add64 s.ts 1;
      ns = 0;
      ticks = ticks';
      pids = restarted;
    } in
    if cnt' == 0 then second else elim (subscriber subscribers s.pids) [
      | none ↦ running
      | some p ↦ record running { pids = add64 s.pids 1; sent = p ∷ s.sent }
    ]

-- `n` interrupts.
pub interrupts : ℕ → ℕ → Option (List ℕ) → Clock → Clock
interrupts zero freq subscribers s = s
interrupts (suc n) freq subscribers s =
    interrupts n freq subscribers (clock_intr freq subscribers s)

-- A char is signed: a byte as a number of 64 bits, and the same shifted by four bits.
abbrev pub char : ℕ → ℕ
char b = if ltb b 128 then b else b + (2 ^ 64 - 256)

abbrev pub char_high : ℕ → ℕ
char_high b = if ltb b 128 then b / 16 else b / 16 + (2 ^ 64 - 16)

-- The comparison of a char with a small number.
abbrev pub char_le : ℕ → ℕ → Bool
char_le b n = not (ltb b 128) || leb b n

-- A date and a time.
pub record Datetime : Type 0 where
  pub year : ℕ
  pub month : ℕ
  pub day : ℕ
  pub hour : ℕ
  pub minute : ℕ
  pub second : ℕ

-- Two decimal digits of a byte.
abbrev pub bcd : ℕ → ℕ
bcd b = add64 ((char_high b * 10) % 2 ^ 64) (b % 16)

-- The test of env_getts for the format of the bytes `p`.
pub is_bcd : (ℕ → ℕ) → Bool
is_bcd p =
    (leb 0x20 (p 0) && leb (p 0) 0x30)
    && (leb (p 1) 0x99
        && ((leb 1 (p 2) && leb (p 2) 0x12)
            && ((leb 1 (p 3) && leb (p 3) 0x31)
                && (char_le (p 4) 0x23 && (char_le (p 5) 0x59 && char_le (p 6) 0x60)))))

pub datetime : (ℕ → ℕ) → Datetime
datetime p =
    if is_bcd p
    then record {
      year = add64 ((p 0 / 16) * 1000 + (p 0 % 16) * 100) (bcd (p 1));
      month = bcd (p 2);
      day = bcd (p 3);
      hour = bcd (p 4);
      minute = bcd (p 5);
      second = bcd (p 6);
    }
    else record {
      year = add64 ((char (p 1) * 256) % 2 ^ 64) (char (p 0));
      month = char (p 2);
      day = char (p 3);
      hour = char (p 4);
      minute = char (p 5);
      second = char (p 6);
    }

-- The days of a year, and those of its February.
abbrev pub year_days : ℕ → ℕ
year_days y =
    if not ((y % 4) == 0)
    then 365
    else if ((y % 100) == 0) && not ((y % 400) == 0)
    then 365
    else 366

abbrev pub february : ℕ → ℕ
february y =
    if not ((y % 4) == 0) then 28 else if ((y % 100) == 0) && not ((y % 400) == 0) then 28 else 29

abbrev pub month_days : ℕ → List ℕ
month_days y = 31 ∷ february y ∷ 31 ∷ 30 ∷ 31 ∷ 30 ∷ 31 ∷ 31 ∷ 30 ∷ 31 ∷ 30 ∷ 31 ∷ []

-- The loops over `n` years from 2016 on, and over the first `n` months; `none` is a read behind the months.
pub years : ℕ → ℕ
years zero = 0
years (suc n) = years n + year_days (2016 + n)

pub months : List ℕ → ℕ → Option ℕ
months md zero = some 0
months [] (suc n) = none
months (d ∷ md) (suc n) = months md n >>= λ r. some (d + r)

-- The seconds of a date, for a time zone as a number of 64 bits.
pub seconds : Datetime → ℕ → Option ℕ
seconds t zone = months (month_days t.year) (t.month - 1) >>= λ m. some (
    ((16801 + years (t.year - 2016) + m + t.day + (2 ^ 64 - 1)) * 86400
      + t.hour * 3600
      + (zone + t.minute) * 60
      + t.second)
    % 2 ^ 64)

-- env_getts of the bytes `p`; the time zone is minutes to the east, or else to the west.
pub env_getts : (ℕ → ℕ) → Bool → ℕ → Option ℕ
env_getts p west minutes =
    let zone = if ltb 1440 minutes then 0 else if west then sub64 0 minutes else minutes in
    seconds (datetime p) zone
