-- ===== src/Time.antt =====
-- src/time/mod.rs: the clocks and durations in ticks of the PIT, which comes 100 times a second.
pub mod Clock
pub mod Rtc
mod Tests
use bubble_os.Base.{
  ℕ, ◌+◌, ◌-◌, ◌*◌, ◌/◌, ◌%◌, Option, some, ◌==◌, if◌then◌else◌, ◌>>=◌, ◌>>◌, word_mod, checked_add,
  checked_mul,
}

abbrev pub pit_hz : ℕ
pit_hz = 100

abbrev pub nanoseconds_per_second : ℕ
nanoseconds_per_second = 1000000000

abbrev pub nanoseconds_per_tick : ℕ
nanoseconds_per_tick = nanoseconds_per_second / pit_hz

pub record Timespec : Type 0 where
  pub tv_sec : ℕ
  pub tv_nsec : ℕ

-- The multiplication wraps in a release build.
unfoldable pub monotonic_ns : ℕ → ℕ
monotonic_ns current_ticks = current_ticks * nanoseconds_per_tick % word_mod

unfoldable pub monotonic_timespec : ℕ → Timespec
monotonic_timespec current_ticks =
    let ns = monotonic_ns current_ticks in
    record { tv_sec = ns / nanoseconds_per_second; tv_nsec = ns % nanoseconds_per_second }

unfoldable pub realtime_timespec : ℕ → ℕ → Timespec
realtime_timespec boot_seconds current_ticks =
    let ns = monotonic_ns current_ticks in
    record {
      tv_sec = (boot_seconds + ns / nanoseconds_per_second) % word_mod;
      tv_nsec = ns % nanoseconds_per_second;
    }

abbrev pub div_ceil : ℕ → ℕ → ℕ
div_ceil a b = if a % b == 0 then a / b else a / b + 1

unfoldable pub duration_to_ticks : ℕ → ℕ → Option ℕ
duration_to_ticks seconds nanoseconds = do
  seconds_ns ← checked_mul seconds nanoseconds_per_second
  total_ns ← checked_add seconds_ns nanoseconds
  some (div_ceil total_ns nanoseconds_per_tick)
