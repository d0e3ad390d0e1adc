-- ===== src/Time/Rtc/Modes.antt =====
-- The clock's four ways of keeping a time are read alike.
use bubble_os.Base.{
  ℕ, ◌+◌, ◌-◌, ◌*◌, ◌/◌, ◌%◌, ◌≤◌, ◌<◌, ◌≡◌, sym, ap, ◌∙◌, ◌≢◌, ◌⊎◌, inl, inr, true, false, arith,
  ltb, if◌then◌else◌, Bool-cases,
}
use mathlib.Core.Bool.{false≢true}
use bubble_os.Time.Rtc.{
  RtcDateTime, bcd_to_binary, mode_binary, mode_24_hour, days_from_civil, decode_bcd, decode_hours,
  read_unix_time,
}

abbrev pub to_bcd : ℕ → ℕ
to_bcd v = v / 10 * 16 + v % 10

abbrev pub encode : ℕ → ℕ → ℕ
encode status_b v = if mode_binary status_b then v else to_bcd v

-- The hours as the clock keeps them: with 12 hours the flag tells the afternoon, and the hour 0 of
-- either half is left out here, which is the clock's 12.
abbrev pub encode_hours : ℕ → ℕ → ℕ
encode_hours status_b hours =
    if mode_24_hour status_b
    then encode status_b hours
    else encode status_b (hours % 12) + hours / 12 * 128

abbrev pub clock_reading : ℕ → RtcDateTime → RtcDateTime
clock_reading status_b t = record {
  seconds = encode status_b t.seconds;
  minutes = encode status_b t.minutes;
  hours = encode_hours status_b t.hours;
  day = encode status_b t.day;
  month = encode status_b t.month;
  year = encode status_b t.year;
}

pub record IsValid (t : RtcDateTime) : Type 0 where
  pub seconds_lt : t.seconds < 60
  pub minutes_lt : t.minutes < 60
  pub hours_lt : t.hours < 24
  pub day_le : t.day ≤ 31
  pub month_le : t.month ≤ 12
  pub year_lt : t.year < 100

bcd_to_binary-to_bcd : (v : ℕ) → v < 100 → bcd_to_binary (to_bcd v) ≡ v
bcd_to_binary-to_bcd v h = omega arith

-- The hours out of either half of the day, and out of 24 hours.
afternoon :
    (h : ℕ)
    → h < 24
    → h % 12 ≢ 0
    → ((h < 12) × (h / 12 ≡ 0) × (h % 12 ≡ h)) ⊎ ((12 < h) × (h / 12 ≡ 1) × (h % 12 ≡ h - 12))
afternoon h l n = elim (Bool-cases (ltb h 12)) [
  | inl e ↦ inl (ground arith, ground arith, ground arith)
  | inr e ↦ inr (ground arith, ground arith, ground arith)
]

decode_24 :
    (status_b hours : ℕ) → mode_24_hour status_b ≡ true → decode_hours status_b hours ≡ hours
unfolding decode_hours
decode_24 status_b hours e = rw (e, decode_hours)

decode_12 :
    (status_b h : ℕ)
    → mode_24_hour status_b ≡ false
    → h < 24
    → h % 12 ≢ 0
    → decode_hours status_b (h % 12 + h / 12 * 128) ≡ h
unfolding decode_hours
decode_12 status_b h e l n = elim (afternoon h l n) [
  | inl (_, d, m) ↦ rw (e, d, m, decode_hours) (ground arith)
  | inr (_, d, m) ↦ rw (e, d, m, decode_hours) (ground arith)
]

-- What is left of a reading when the BCD is undone.
decoded :
    (status_b : ℕ) (t : RtcDateTime)
    → IsValid t
    → decode_bcd status_b (clock_reading status_b t) ≡ record t {
      hours = if mode_24_hour status_b then t.hours else t.hours % 12 + t.hours / 12 * 128;
    }
unfolding decode_bcd
decoded status_b t v =
    let s = bcd_to_binary-to_bcd t.seconds (omega (arith, v.seconds_lt)) in
    let m = bcd_to_binary-to_bcd t.minutes (omega (arith, v.minutes_lt)) in
    let d = bcd_to_binary-to_bcd t.day (omega (arith, v.day_le)) in
    let mo = bcd_to_binary-to_bcd t.month (omega (arith, v.month_le)) in
    let y = bcd_to_binary-to_bcd t.year v.year_lt in
    elim (Bool-cases (mode_binary status_b)) [
      | inl b ↦ rw (b, decode_bcd)
      | inr b ↦ elim (Bool-cases (mode_24_hour status_b)) [
        | inl e ↦
            let h : bcd_to_binary (to_bcd t.hours % 128) + to_bcd t.hours / 128 * 128 ≡ t.hours =
              omega (arith, v.hours_lt) in
            rw (b, e, decode_bcd, s, m, h, d, mo, y)
        | inr e ↦
            let shown = to_bcd (t.hours % 12) + t.hours / 12 * 128 in
            let h : bcd_to_binary (shown % 128) + shown / 128 * 128
                ≡ t.hours % 12 + t.hours / 12 * 128 =
              omega (arith, v.hours_lt) in
            rw (b, e, decode_bcd, s, m, h, d, mo, y)
      ]
    ]

-- A time of day of a date is read the same whichever way the clock keeps it, in BCD or binary, with 24
-- hours or 12, as the seconds of the days before it and of the day itself; of a clock with 12 hours the
-- hours 0 and 12 are excepted.
pub read_unix_time_lem :
    (status_b : ℕ) (t : RtcDateTime)
    → IsValid t
    → (mode_24_hour status_b ≡ true) ⊎ (t.hours % 12 ≢ 0)
    → read_unix_time status_b (clock_reading status_b t)
      ≡ days_from_civil (2000 + t.year) t.month t.day * 86400
        + t.hours * 3600
        + t.minutes * 60
        + t.seconds
unfolding read_unix_time
read_unix_time_lem status_b t v h =
    let hours = if mode_24_hour status_b then t.hours else t.hours % 12 + t.hours / 12 * 128 in
    let same : decode_hours status_b hours ≡ t.hours = elim (Bool-cases (mode_24_hour status_b)) [
      | inl e ↦ rw e (decode_24 status_b t.hours e)
      | inr e ↦ elim h [
        | inl e' ↦ absurd (false≢true (sym e ∙ e'))
        | inr n ↦ rw e (decode_12 status_b t.hours e v.hours_lt n)
      ]
    ] in
    ap (since status_b) (decoded status_b t v)
    ∙ ap
        (λ x.
          days_from_civil (2000 + t.year) t.month t.day * 86400
          + x * 3600
          + t.minutes * 60
          + t.seconds)
        same
  where
    since : ℕ → RtcDateTime → ℕ
    since status_b d =
        days_from_civil (2000 + d.year) d.month d.day * 86400
        + decode_hours status_b d.hours * 3600
        + d.minutes * 60
        + d.seconds
