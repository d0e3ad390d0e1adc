-- ===== src/Time/Tests.antt =====
-- The clocks and the theorems about them at some times.
use bubble_os.Base.{ℕ, ◌+◌, ◌*◌, ◌≤◌, ◌<◌, ◌≡◌, refl, ◌⊎◌, inr, none, some, arith, word_mod}
use bubble_os.Time.{duration_to_ticks}
use bubble_os.Time.Clock.{duration_to_ticks_lem}
use bubble_os.Time.Rtc.{RtcDateTime, days_from_civil, decode_hours, read_unix_time}
use bubble_os.Time.Rtc.Days.{next_day, days_from_civil-next_day}
use bubble_os.Time.Rtc.Modes.{IsValid, clock_reading, read_unix_time_lem}

duration_rounds_up : duration_to_ticks 1 1 ≡ some 101
unfolding duration_to_ticks
duration_rounds_up = refl

millennium : days_from_civil 2000 1 1 ≡ 10957
unfolding days_from_civil
millennium = refl

-- Of a clock with 12 hours, in binary, noon (12 with the flag) and midnight (12 without it).
noon : decode_hours 4 (12 + 128) ≡ 0
unfolding decode_hours
noon = refl

midnight : decode_hours 4 12 ≡ 12
unfolding decode_hours
midnight = refl

duration_to_ticks_lem_example :
    ((t : ℕ) × (duration_to_ticks 1 1 ≡ some t)
      × (1 * 1000000000 + 1 ≤ t * 10000000)
      × (t * 10000000 < 1 * 1000000000 + 1 + 10000000)
      × (1 * 1000000000 + 1 < word_mod))
    ⊎ ((duration_to_ticks 1 1 ≡ none) × (word_mod ≤ 1 * 1000000000 + 1))
duration_to_ticks_lem_example = duration_to_ticks_lem 1 1

days_from_civil-next_day_example :
    let (year', month', day') = next_day 2024 2 29 in
    (days_from_civil year' month' day' ≡ days_from_civil 2024 2 29 + 1)
    × (days_from_civil 1970 1 1 ≡ 0)
days_from_civil-next_day_example =
    days_from_civil-next_day 2024 2 29 (omega arith) (omega arith) (omega arith) (omega arith)
      (omega arith)

abbrev evening : RtcDateTime
evening = record { seconds = 59; minutes = 30; hours = 19; day = 28; month = 2; year = 24 }

evening-IsValid : IsValid evening
evening-IsValid = record {
  seconds_lt = omega arith;
  minutes_lt = omega arith;
  hours_lt = omega arith;
  day_le = omega arith;
  month_le = omega arith;
  year_lt = omega arith;
}

read_unix_time_lem_example :
    read_unix_time 0 (clock_reading 0 evening)
    ≡ days_from_civil 2024 2 28 * 86400 + 19 * 3600 + 30 * 60 + 59
read_unix_time_lem_example =
    read_unix_time_lem 0 evening evening-IsValid (inr (λ e. absurd (omega (arith, e))))
