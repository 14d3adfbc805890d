-- ===== src/Clock/Calendar.antt =====
-- The seconds of a date against the calendar: the day after each.
use bztsrc_osz.Prelude.{
  ℕ, zero, suc, ◌+◌, ◌-◌, ◌*◌, ◌/◌, ◌%◌, ◌^◌, ◌<◌, ◌≤◌, ◌≡◌, inl, inr, refl, sym, ap, ◌∙◌, ◌==◌,
  ◌&&◌, ◌||◌, not, Bool, true, false, some, List, [], ◌∷◌, ◌>>=◌, arith, if◌then◌else◌, get_elem?,
  ℕ_discrete, Bool-cases,
}
use mathlib.Core.Option.{some-injective}
use bztsrc_osz.Clock.{Datetime, year_days, month_days, years, months, seconds}

-- The leap years of the Gregorian calendar.
abbrev pub is_leap : ℕ → Bool
is_leap y = ((y % 4) == 0) && (not ((y % 100) == 0) || ((y % 400) == 0))

-- The days of month `m`: 30 or 31 by turns, up to July and again from August on, but for February.
abbrev pub month_length : ℕ → ℕ → ℕ
month_length y m = if m == 2 then (if is_leap y then 29 else 28) else 30 + (m + m / 8) % 2

-- The date is one of the Gregorian calendar from 2016 on.
pub record IsDate (t : Datetime) : Type 0 where
  pub year : 2016 ≤ t.year
  pub month : 1 ≤ t.month
  pub month_le : t.month ≤ 12
  pub day : 1 ≤ t.day
  pub day_le : t.day ≤ month_length t.year t.month

-- The day after a date.
pub next_day : Datetime → Datetime
next_day t =
    if not (t.day == month_length t.year t.month)
    then record t { day = t.day + 1 }
    else if not (t.month == 12)
    then record t { day = 1; month = t.month + 1 }
    else record t { day = 1; month = 1; year = t.year + 1 }

-- February has the days of the calendar.
february_length : (y : ℕ) → get_elem? (month_days y) 1 ≡ some (if is_leap y then 29 else 28)
february_length y = elim (Bool-cases ((y % 4) == 0)) [
  | inr common ↦ ground (arith, common)
  | inl fourth ↦ elim (Bool-cases ((y % 100) == 0)) [
    | inr leap ↦ ground (arith, fourth, leap)
    | inl hundred ↦ elim (Bool-cases ((y % 400) == 0)) [
      | inl leap ↦ ground (arith, fourth, hundred, leap)
      | inr common ↦ ground (arith, fourth, hundred, common)
    ]
  ]
]

-- So has every month.
month_days-length : (y m : ℕ) → m < 12 → get_elem? (month_days y) m ≡ some (month_length y (m + 1))
month_days-length y zero h = refl
month_days-length y (suc zero) h = february_length y
month_days-length y (suc (suc zero)) h = refl
month_days-length y (suc (suc (suc zero))) h = refl
month_days-length y (suc (suc (suc (suc zero)))) h = refl
month_days-length y (suc (suc (suc (suc (suc zero))))) h = refl
month_days-length y (suc (suc (suc (suc (suc (suc zero)))))) h = refl
month_days-length y (suc (suc (suc (suc (suc (suc (suc zero))))))) h = refl
month_days-length y (suc (suc (suc (suc (suc (suc (suc (suc zero)))))))) h = refl
month_days-length y (suc (suc (suc (suc (suc (suc (suc (suc (suc zero))))))))) h = refl
month_days-length y (suc (suc (suc (suc (suc (suc (suc (suc (suc (suc zero)))))))))) h = refl
month_days-length y (suc (suc (suc (suc (suc (suc (suc (suc (suc (suc (suc zero))))))))))) h = refl
month_days-length y (suc (suc (suc (suc (suc (suc (suc (suc (suc (suc (suc (suc m)))))))))))) h =
    absurd (omega arith)

months-next :
    (md : List ℕ) (n d : ℕ)
    → get_elem? md n ≡ some d
    → (r : ℕ) × (months md n ≡ some r) × (months md (n + 1) ≡ some (r + d))
unfolding months
months-next [] n d e = cc
months-next (x ∷ md) zero d e =
    let same : x ≡ d = some-injective x d e in
    let z : 0 + 1 ≡ 1 = omega arith in
    (0, refl, ap (months (x ∷ md)) z ∙ ap some (omega (arith, same)))
months-next (x ∷ md) (suc n) d e =
    let (r, f, g) = months-next md n d e in
    let z : suc n + 1 ≡ suc (n + 1) = omega arith in
    (
      x + r,
      ap (λ o. o >>= λ r. some (x + r)) f,
      ap (months (x ∷ md)) z ∙ ap (λ o. o >>= λ r. some (x + r)) g ∙ ap some (omega arith),
    )

-- The months of a year have its days.
year_has : (y : ℕ) → months (month_days y) 12 ≡ some (year_days y)
unfolding months
year_has y = elim (Bool-cases ((y % 4) == 0)) [
  | inr common ↦ ground (arith, common)
  | inl fourth ↦ elim (Bool-cases ((y % 100) == 0)) [
    | inr leap ↦ ground (arith, fourth, leap)
    | inl hundred ↦ elim (Bool-cases ((y % 400) == 0)) [
      | inl leap ↦ ground (arith, fourth, hundred, leap)
      | inr common ↦ ground (arith, fourth, hundred, common)
    ]
  ]
]

-- The number that the days of a date become.
abbrev days : Datetime → ℕ → ℕ
days t m = 16801 + years (t.year - 2016) + m + t.day + (2 ^ 64 - 1)

abbrev total : Datetime → ℕ → ℕ → ℕ
total t zone d = (d * 86400 + t.hour * 3600 + (zone + t.minute) * 60 + t.second) % 2 ^ 64

seconds-total :
    (t : Datetime) (zone m : ℕ)
    → months (month_days t.year) (t.month - 1) ≡ some m
    → seconds t zone ≡ some (total t zone (days t m))
unfolding seconds
seconds-total t zone m e = ap (λ o. o >>= λ m. some (total t zone (days t m))) e

-- A day more.
day_more :
    (d h z s : ℕ)
    → ((d + 1) * 86400 + h + z + s) % 2 ^ 64 ≡ ((d * 86400 + h + z + s) % 2 ^ 64 + 86400) % 2 ^ 64
day_more d h z s = omega arith

years-next : (y : ℕ) → 2016 ≤ y → years (y + 1 - 2016) ≡ years (y - 2016) + year_days y
unfolding years
years-next y h =
    let z : y + 1 - 2016 ≡ suc (y - 2016) = omega (arith, h) in
    let same : 2016 + (y - 2016) ≡ y = omega (arith, h) in
    ap years z ∙ ap (λ x. years (y - 2016) + year_days x) same

-- The day after a date of the Gregorian calendar from 2016 on is 86400 seconds later, modulo 2 ^ 64, at the ends of months
-- and of years too.
pub seconds-next_day :
    (t : Datetime) (zone a : ℕ)
    → IsDate t
    → seconds t zone ≡ some a
    → seconds (next_day t) zone ≡ some ((a + 86400) % 2 ^ 64)
unfolding next_day months
seconds-next_day t zone a h e =
    let last : ℕ = month_length t.year t.month in
    let back : t.month - 1 + 1 ≡ t.month = omega (arith, h.month) in
    let size : get_elem? (month_days t.year) (t.month - 1) ≡ some last =
      month_days-length t.year (t.month - 1) (omega (arith, h.month, h.month_le))
      ∙ ap (λ m. some (month_length t.year m)) back in
    let (m, f, g) = months-next (month_days t.year) (t.month - 1) last size in
    let same : total t zone (days t m) ≡ a =
      some-injective _ a (sym (seconds-total t zone m f) ∙ e) in
    let step : (d : ℕ) → d ≡ days t m + 1 → total t zone d ≡ (a + 86400) % 2 ^ 64 = λ d z.
      ap (total t zone) z
      ∙ day_more (days t m) (t.hour * 3600) ((zone + t.minute) * 60) t.second
      ∙ ap (λ x. (x + 86400) % 2 ^ 64) same in
    elim (ℕ_discrete t.day last) [
      | no before ↦
          let z : (t.day == last) ≡ false = ground (arith, before) in
          let t' : Datetime = record t { day = t.day + 1 } in
          rw z (seconds-total t' zone m f ∙ ap some (step (days t' m) (omega arith)))
      | yes at ↦
          let z : (t.day == last) ≡ true = ground (arith, at) in
          elim (ℕ_discrete t.month 12) [
            | no inside ↦
                let y : (t.month == 12) ≡ false = ground (arith, inside) in
                let t' : Datetime = record t { day = 1; month = t.month + 1 } in
                let n : t.month + 1 - 1 ≡ t.month - 1 + 1 = omega (arith, h.month) in
                let f' : months (month_days t.year) (t.month + 1 - 1) ≡ some (m + last) =
                  ap (months (month_days t.year)) n ∙ g in
                rw (z, y)
                  (seconds-total t' zone (m + last) f'
                    ∙ ap some (step (days t' (m + last)) (omega (arith, at))))
            | yes end_of_year ↦
                let y : (t.month == 12) ≡ true = ground (arith, end_of_year) in
                let t' : Datetime = record t { day = 1; month = 1; year = t.year + 1 } in
                let n : 12 ≡ t.month - 1 + 1 = omega (arith, end_of_year) in
                let all : m + last ≡ year_days t.year =
                  some-injective (m + last) (year_days t.year)
                    (sym g ∙ ap (months (month_days t.year)) (sym n) ∙ year_has t.year) in
                let next = years-next t.year h.year in
                rw (z, y)
                  (seconds-total t' zone 0 refl
                    ∙ ap some (step (days t' 0) (omega (arith, at, all, next))))
          ]
    ]
