-- ===== src/Time/Clock.antt =====
-- Durations are rounded up to ticks, and the clocks read what the ticks have counted.
use bubble_os.Base.{
  ℕ, ◌+◌, ◌*◌, ◌%◌, ◌≤◌, ◌<◌, ◌≡◌, refl, ◌⊎◌, inl, inr, none, some, arith, ltb, ◌==◌, Bool-cases,
  word_mod,
}
use bubble_os.Time.{
  monotonic_ns, monotonic_timespec, realtime_timespec, div_ceil, duration_to_ticks,
}

-- A duration becomes the least number of ticks that last at least as long; there is none exactly where
-- the nanoseconds do not fit a word.
pub duration_to_ticks_lem :
    (seconds nanoseconds : ℕ)
    → ((t : ℕ) × (duration_to_ticks seconds nanoseconds ≡ some t)
        × (seconds * 1000000000 + nanoseconds ≤ t * 10000000)
        × (t * 10000000 < seconds * 1000000000 + nanoseconds + 10000000)
        × (seconds * 1000000000 + nanoseconds < word_mod))
      ⊎ ((duration_to_ticks seconds nanoseconds ≡ none)
          × (word_mod ≤ seconds * 1000000000 + nanoseconds))
unfolding duration_to_ticks
duration_to_ticks_lem seconds nanoseconds =
    elim (Bool-cases (ltb (seconds * 1000000000) word_mod)) [
      | inr e ↦ inr (rw (e, duration_to_ticks), ground arith)
      | inl e ↦ elim (Bool-cases (ltb (seconds * 1000000000 + nanoseconds) word_mod)) [
        | inr f ↦ inr (rw (e, f, duration_to_ticks), ground arith)
        | inl f ↦
            let total = seconds * 1000000000 + nanoseconds in
            elim (Bool-cases (total % 10000000 == 0)) [
              | inl z ↦ inl (
                div_ceil total 10000000,
                rw (e, f, duration_to_ticks),
                ground arith,
                ground arith,
                ground arith,
              )
              | inr z ↦ inl (
                div_ceil total 10000000,
                rw (e, f, duration_to_ticks),
                ground arith,
                ground arith,
                ground arith,
              )
            ]
      ]
    ]

-- Until the nanoseconds since boot, or the seconds at boot with the ticks, pass a word, the
-- monotonic clock is normalized, reads exactly the ticks that have passed, and the real-time clock
-- is it put off by the seconds at boot.
pub monotonic_timespec_lem :
    (boot_seconds ticks : ℕ)
    → ticks * 10000000 < word_mod
    → boot_seconds + ticks < word_mod
    → let m = monotonic_timespec ticks in
      let r = realtime_timespec boot_seconds ticks in
      (m.tv_nsec < 1000000000)
      × (m.tv_sec * 1000000000 + m.tv_nsec ≡ ticks * 10000000)
      × (r.tv_sec ≡ boot_seconds + m.tv_sec)
      × (r.tv_nsec ≡ m.tv_nsec)
unfolding monotonic_timespec monotonic_ns realtime_timespec
monotonic_timespec_lem boot_seconds ticks h l =
    (omega arith, omega (arith, h), omega (arith, h, l), refl)
