-- ===== src/Time/Rtc/Days.antt =====
-- `days_from_civil` counts days: it is one more for the next day of the calendar.
use bubble_os.Base.{
  ℕ, ◌+◌, ◌-◌, ◌*◌, ◌/◌, ◌%◌, ◌≤◌, ◌≡◌, refl, ap, ◌∙◌, ◌≢◌, ◌⊎◌, inl, inr, Bool, true, false, not,
  ◌&&◌, ◌||◌, arith, ltb, leb, ◌==◌, if◌then◌else◌, ==_iff, Bool-cases,
}
use bubble_os.Time.Rtc.{days_from_civil}

abbrev pub is_leap : ℕ → Bool
is_leap year = (year % 4 == 0 && not (year % 100 == 0)) || year % 400 == 0

abbrev pub days_in_month : ℕ → ℕ → ℕ
days_in_month year month =
    if month == 2
    then (if is_leap year then 29 else 28)
    else if month == 4 || month == 6 || month == 9 || month == 11
    then 30
    else 31

-- The day after a date of the Gregorian calendar.
abbrev pub next_day : ℕ → ℕ → ℕ → ℕ × ℕ × ℕ
next_day year month day =
    if ltb day (days_in_month year month)
    then (year, month, day + 1)
    else if month == 12
    then (year + 1, 1, 1)
    else (year, month + 1, 1)

-- The days before March of a year, counted from March of the year 0.
abbrev year_days : ℕ → ℕ
year_days a =
    let era = a / 400 in
    let year_of_era = a - era * 400 in
    era * 146097 + (year_of_era * 365 + year_of_era / 4 - year_of_era / 100)

year_days-closed : (a : ℕ) → year_days a + a / 100 ≡ 365 * a + a / 4 + a / 400
year_days-closed a = omega arith

year_days-ge : (a : ℕ) → 1969 ≤ a → 719162 + 365 * (a - 1969) ≤ year_days a
year_days-ge a h = omega (arith, h, year_days-closed a)

leap-cases :
    (year : ℕ) → is_leap year ≡ true → ((year % 4 ≡ 0) × (year % 100 ≢ 0)) ⊎ (year % 400 ≡ 0)
leap-cases year l = elim (Bool-cases (year % 400 == 0)) [
  | inl z ↦ inr (ground arith)
  | inr z ↦ inl (ground arith, ground arith)
]

common-cases :
    (year : ℕ) → is_leap year ≡ false → (year % 4 ≢ 0) ⊎ ((year % 100 ≡ 0) × (year % 400 ≢ 0))
common-cases year l = elim (Bool-cases (year % 4 == 0)) [
  | inr z ↦ inl (ground arith)
  | inl z ↦ inr (ground arith, ground arith)
]

year_days-leap : (a : ℕ) → is_leap (a + 1) ≡ true → year_days (a + 1) ≡ year_days a + 366
year_days-leap a l = elim (leap-cases (a + 1) l) [
  | inl h ↦ omega (arith, h, year_days-closed a, year_days-closed (a + 1))
  | inr h ↦ omega (arith, h, year_days-closed a, year_days-closed (a + 1))
]

year_days-common : (a : ℕ) → is_leap (a + 1) ≡ false → year_days (a + 1) ≡ year_days a + 365
year_days-common a l = elim (common-cases (a + 1) l) [
  | inl h ↦ omega (arith, h, year_days-closed a, year_days-closed (a + 1))
  | inr h ↦ omega (arith, h, year_days-closed a, year_days-closed (a + 1))
]

from_march :
    (year month day : ℕ)
    → 1970 ≤ year
    → 3 ≤ month
    → 1 ≤ day
    → days_from_civil year month day + 719468
      ≡ year_days year + ((153 * (month - 3) + 2) / 5 + (day - 1))
unfolding days_from_civil
from_march year month day h m d =
    let a : leb month 2 ≡ false = ground arith in
    let b : ltb 2 month ≡ true = ground arith in
    rw (a, b, days_from_civil) (omega (arith, h, d, year_days-ge year (omega arith)))

before_march :
    (year month day : ℕ)
    → 1970 ≤ year
    → 1 ≤ month
    → month ≤ 2
    → 1 ≤ day
    → days_from_civil year month day + 719468
      ≡ year_days (year - 1) + ((153 * (month + 9) + 2) / 5 + (day - 1))
unfolding days_from_civil
before_march year month day h one m d =
    let a : leb month 2 ≡ true = ground arith in
    let b : ltb 2 month ≡ false = ground arith in
    rw (a, b, days_from_civil) (omega (arith, h, d, one, year_days-ge (year - 1) (omega arith)))

next_day-same :
    (year month day : ℕ)
    → 1970 ≤ year
    → 1 ≤ month
    → 1 ≤ day
    → days_from_civil year month (day + 1) ≡ days_from_civil year month day + 1
next_day-same year month day h one d = elim (Bool-cases (leb month 2)) [
  | inl e ↦
      let m : month ≤ 2 = ground arith in
      omega (
        arith,
        before_march year month day h one m d,
        before_march year month (day + 1) h one m (omega arith),
      )
  | inr e ↦
      let m : 3 ≤ month = ground arith in
      omega
        (arith, from_march year month day h m d, from_march year month (day + 1) h m (omega arith))
]

-- The first of March follows the last of February.
february :
    (year : ℕ)
    → 1970 ≤ year
    → days_from_civil year 3 1 ≡ days_from_civil year 2 (days_in_month year 2) + 1
february year h =
    let back : year - 1 + 1 ≡ year = omega arith in
    let same = ap year_days back in
    let march = from_march year 3 1 h (omega arith) (omega arith) in
    elim (Bool-cases (is_leap year)) [
      | inl l ↦
          let step = year_days-leap (year - 1) (rw back l) in
          let last = before_march year 2 29 h (omega arith) (omega arith) (omega arith) in
          rw (l, days_in_month) (omega (arith, same, step, march, last))
      | inr l ↦
          let step = year_days-common (year - 1) (rw back l) in
          let last = before_march year 2 28 h (omega arith) (omega arith) (omega arith) in
          rw (l, days_in_month) (omega (arith, same, step, march, last))
    ]

short_month :
    (month : ℕ)
    → (month == 4 || month == 6 || month == 9 || month == 11) ≡ true
    → (153 * (month + 1 - 3) + 2) / 5 ≡ (153 * (month - 3) + 2) / 5 + 30
short_month month s = ground arith

long_month :
    (month : ℕ)
    → 3 ≤ month
    → month ≤ 11
    → (month == 4 || month == 6 || month == 9 || month == 11) ≡ false
    → (153 * (month + 1 - 3) + 2) / 5 ≡ (153 * (month - 3) + 2) / 5 + 31
long_month month l m s = ground arith

-- Within a year, the first of the next month follows the last of a month.
next_month :
    (year month : ℕ)
    → 1970 ≤ year
    → 1 ≤ month
    → month ≤ 11
    → days_from_civil year (month + 1) 1 ≡ days_from_civil year month (days_in_month year month) + 1
next_month year month h one m = elim (Bool-cases (month == 2)) [
  | inl e ↦ rw ((==_iff month 2).0 e) (february year h)
  | inr e ↦ elim (Bool-cases (leb month 2)) [
    | inl f ↦
        let january : month ≡ 1 = ground arith in
        rw january (
          omega (
            arith,
            before_march year 1 31 h (omega arith) (omega arith) (omega arith),
            before_march year 2 1 h (omega arith) (omega arith) (omega arith),
          ))
    | inr f ↦
        let later : 3 ≤ month = ground arith in
        let d = days_in_month year month in
        let last = from_march year month d h later (ground arith) in
        let next = from_march year (month + 1) 1 h (omega arith) (omega arith) in
        elim (Bool-cases (month == 4 || month == 6 || month == 9 || month == 11)) [
          | inl s ↦
              let d30 : d ≡ 30 = rw (e, s, days_in_month) in
              omega (arith, last, next, d30, short_month month s)
          | inr s ↦
              let d31 : d ≡ 31 = rw (e, s, days_in_month) in
              omega (arith, last, next, d31, long_month month later m s)
        ]
  ]
]

new_year :
    (year month day : ℕ)
    → 1970 ≤ year
    → month ≡ 12
    → day ≡ days_in_month year month
    → days_from_civil (year + 1) 1 1 ≡ days_from_civil year month day + 1
new_year year month day h m l =
    let day31 : day ≡ 31 = l ∙ ap (days_in_month year) m in
    let same : year_days (year + 1 - 1) ≡ year_days year =
      let e : year + 1 - 1 ≡ year = omega arith in ap year_days e in
    rw (m, day31)
      (omega (
        arith,
        same,
        from_march year 12 31 h (omega arith) (omega arith),
        before_march (year + 1) 1 1 (omega arith) (omega arith) (omega arith) (omega arith),
      ))

epoch : days_from_civil 1970 1 1 ≡ 0
unfolding days_from_civil
epoch = refl

-- For a date of the calendar from 1970 on, `days_from_civil` of the day after it is one more; and the
-- first of January 1970 has 0. So it is the number of days since then.
pub days_from_civil-next_day :
    (year month day : ℕ)
    → 1970 ≤ year
    → 1 ≤ month
    → month ≤ 12
    → 1 ≤ day
    → day ≤ days_in_month year month
    → let (year', month', day') = next_day year month day in
      (days_from_civil year' month' day' ≡ days_from_civil year month day + 1)
      × (days_from_civil 1970 1 1 ≡ 0)
days_from_civil-next_day year month day h one m d l =
    elim (Bool-cases (ltb day (days_in_month year month))) [
      | inl e ↦ rw (e, next_day) (next_day-same year month day h one d, epoch)
      | inr e ↦
          let last : day ≡ days_in_month year month = ground arith in
          elim (Bool-cases (month == 12)) [
            | inl f ↦
                rw (e, f, next_day) (new_year year month day h ((==_iff month 12).0 f) last, epoch)
            | inr f ↦ rw (e, f, next_day, last) (next_month year month h one (ground arith), epoch)
          ]
    ]
