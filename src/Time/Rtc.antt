-- ===== src/Time/Rtc.antt =====
-- src/arch/x86_64/rtc.rs: the date and time of the CMOS clock as seconds since the Unix epoch. A byte is a
-- number below 256, and the masks on it are written as divisions and remainders.
pub mod Days
pub mod Modes
use bubble_os.Base.{
  ℕ, ◌+◌, ◌-◌, ◌*◌, ◌/◌, ◌%◌, Bool, not, ◌&&◌, ltb, leb, ◌==◌, if◌then◌else◌, ◌>>◌,
}

pub record RtcDateTime : Type 0 where
  pub seconds : ℕ
  pub minutes : ℕ
  pub hours : ℕ
  pub day : ℕ
  pub month : ℕ
  pub year : ℕ

-- `(value & 0x0F) + ((value >> 4) * 10)`
abbrev pub bcd_to_binary : ℕ → ℕ
bcd_to_binary value = value % 16 + value / 16 * 10

-- `status_b & RTC_MODE_BINARY`, `status_b & RTC_MODE_24_HOUR` and `hours & RTC_HOUR_PM_FLAG`.
abbrev pub mode_binary : ℕ → Bool
mode_binary status_b = status_b / 4 % 2 == 1

abbrev pub mode_24_hour : ℕ → Bool
mode_24_hour status_b = status_b / 2 % 2 == 1

abbrev pub hour_pm : ℕ → Bool
hour_pm hours = hours / 128 % 2 == 1

-- For the years from 1970 on, where every intermediate value is at least 0.
unfoldable pub days_from_civil : ℕ → ℕ → ℕ → ℕ
days_from_civil year month day =
    let adjusted_year = if leb month 2 then year - 1 else year in
    let era = adjusted_year / 400 in
    let year_of_era = adjusted_year - era * 400 in
    let month_shifted = if ltb 2 month then month - 3 else month + 9 in
    let day_of_year = (153 * month_shifted + 2) / 5 + day - 1 in
    let day_of_era = year_of_era * 365 + year_of_era / 4 - year_of_era / 100 + day_of_year in
    era * 146097 + day_of_era - 719468

-- The values converted from BCD where the clock keeps them so; the flag stays on the hours.
unfoldable pub decode_bcd : ℕ → RtcDateTime → RtcDateTime
decode_bcd status_b t = if mode_binary status_b then t else record {
  seconds = bcd_to_binary t.seconds;
  minutes = bcd_to_binary t.minutes;
  hours = bcd_to_binary (t.hours % 128) + t.hours / 128 * 128;
  day = bcd_to_binary t.day;
  month = bcd_to_binary t.month;
  year = bcd_to_binary t.year;
}

unfoldable pub decode_hours : ℕ → ℕ → ℕ
decode_hours status_b hours =
    if not (mode_24_hour status_b) && hour_pm hours then (hours % 128 + 12) % 24 else hours

-- `read_unix_time` once two reads of the clock agree; the ports are not modelled.
unfoldable pub read_unix_time : ℕ → RtcDateTime → ℕ
read_unix_time status_b read =
    let datetime = decode_bcd status_b read in
    let hours = decode_hours status_b datetime.hours in
    let days = days_from_civil (2000 + datetime.year) datetime.month datetime.day in
    days * 86400 + hours * 3600 + datetime.minutes * 60 + datetime.seconds
