-- ===== src/Syscall/Sleep.antt =====
-- A process that sleeps does not run before its time.
use bubble_os.Base.{
  ℕ, ◌+◌, ◌*◌, ◌%◌, ◌<◌, ◌≡◌, refl, sym, ap, subst, ◌∙◌, ◌≢◌, inl, inr, true, false, Option, none,
  some, List, arith, ltb, leb, ◌==◌, Option-cases, ◌>>=◌, length, get_elem?, set,
  get_elem?-set_self, get_elem?-set_ne, get_elem?-lt, word_mod,
}
use mathlib.Core.Bool.{false≢true}
use bubble_os.Sched.Process.{FullInterruptStackFrame, PageTable, Process}
use bubble_os.Sched.Scheduler.{MemoryOps, Kernel, is_ready, save_interrupted, wake, next_process}
use bubble_os.Sched.Scheduler.Next.{ready_at, ready_at-eq}
use bubble_os.Sched.Scheduler.Pick.{save_context-cases, next_process_lem}
use bubble_os.Sched.Calls.{
  schedule, update_current, sleep_current_until, get_current_process_page_table,
}
use bubble_os.Syscall.{pos, UserMemory, sleep_for, nanosleep}
use bubble_os.Time.{duration_to_ticks}
use bubble_os.Time.Clock.{duration_to_ticks_lem}

-- The process at `i` sleeps until the tick `deadline`.
abbrev pub Asleep : List Process → ℕ → ℕ → Type 0
Asleep ps i deadline =
    (p : Process) × (get_elem? ps i ≡ some p) × (p.sleep_until_tick ≡ some deadline)

is_ready-asleep :
    (u deadline : ℕ) (ps : List Process) (p : Process)
    → p.sleep_until_tick ≡ some deadline
    → u < deadline
    → is_ready u ps p ≡ false
unfolding is_ready
is_ready-asleep u deadline ps p e l =
    let early : ltb u deadline ≡ true = ground arith in rw (e, early, is_ready)

pub ready_at-Asleep :
    (u deadline i : ℕ) (ps : List Process)
    → Asleep ps i deadline
    → u < deadline
    → ready_at u ps i ≡ false
ready_at-Asleep u deadline i ps (p, at, e) l =
    ready_at-eq u ps i p at ∙ is_ready-asleep u deadline ps p e l

module _ {M : Type 0} where
  save_interrupted-Asleep :
      (k : Kernel M) (stack : Option FullInterruptStackFrame) (deadline : ℕ)
      → Asleep k.processes k.current_index deadline
      → Asleep (save_interrupted k stack) k.current_index deadline
  unfolding save_interrupted
  save_interrupted-Asleep k none deadline a = a
  save_interrupted-Asleep k (some frame) deadline (p, at, s) =
      elim (save_context-cases k.processes k.current_index frame) [
        | inl e ↦ rw (e, save_interrupted) (p, at, s)
        | inr (q, at', _, _, e) ↦
            let same : q ≡ p = ground arith in
            rw (e, save_interrupted)
              (
                record q { context = frame },
                get_elem?-set_self k.processes k.current_index (record q { context = frame })
                    (get_elem?-lt k.processes k.current_index q at'),
                ap (λ (r : Process). r.sleep_until_tick) same ∙ s,
              )
      ]

  next_process-Asleep :
      (k : Kernel M) (stack : Option FullInterruptStackFrame) (deadline : ℕ)
      → k.ticks < deadline
      → Asleep k.processes k.current_index deadline
      → Asleep (next_process k stack).1.processes k.current_index deadline
  next_process-Asleep k stack deadline l a =
      let ps = save_interrupted k stack in
      let saved = save_interrupted-Asleep k stack deadline a in
      let inside = get_elem?-lt k.processes k.current_index a.0 a.1 in
      elim (next_process_lem k stack inside) [
        | inr (_, _, e) ↦ rw e saved
        | inl (j, q, _, at, ready, _, e) ↦
            let ne : j ≢ k.current_index = λ f. false≢true (
              sym (ready_at-Asleep k.ticks deadline k.current_index k.processes a l)
              ∙ ap (ready_at k.ticks k.processes) (sym f)
              ∙ ready) in
            rw e (saved.0, get_elem?-set_ne ps j k.current_index (wake q) ne ∙ saved.1, saved.2)
      ]

module _ {M : Type 0} (ops : MemoryOps M) where
  -- `schedule` leaves the processes as `next_process` does.
  schedule-processes :
      (k : Kernel M) (stack : Option FullInterruptStackFrame)
      → (schedule ops k stack).1.processes ≡ (next_process k stack).1.processes
  unfolding schedule
  schedule-processes k stack =
      let k' = (next_process k stack).1 in
      elim (Option-cases (next_process k stack).0) [
        | inl a ↦ rw (a, schedule)
        | inr (p, a) ↦ elim (Option-cases k'.memory) [
          | inl b ↦ rw (a, b, schedule)
          | inr (m, b) ↦ elim (Option-cases p.ring3_page_table) [
            | inl c ↦ rw (a, b, c, schedule)
            | inr (table, c) ↦ elim (Option-cases (ops.switch_table m table).0) [
              | inl d ↦ rw (a, b, c, d, schedule)
              | inr (old, d) ↦ rw (a, b, c, d, schedule)
            ]
          ]
        ]
      ]

  sleep_current_until-eq :
      (k : Kernel M) (deadline : ℕ) (p : Process)
      → get_elem? k.processes k.current_index ≡ some p
      → sleep_current_until k deadline
        ≡ some (record k {
          processes =
              set k.processes k.current_index (record p { sleep_until_tick = some deadline });
        })
  unfolding sleep_current_until update_current
  sleep_current_until-eq k deadline p e =
      let inside = get_elem?-lt k.processes k.current_index p e in
      let some_process : (length k.processes == 0) ≡ false = ground (arith, inside) in
      rw (some_process, e, update_current)

  -- Where there is a current process, a sleep of some ticks that do not take the counter over its end
  -- succeeds without a panic, and in the state that it leaves, and that the scheduler has already
  -- passed through, the process cannot run at any tick before those have passed.
  pub sleep_for_lem :
      (k : Kernel M) (stack : FullInterruptStackFrame) (ticks : ℕ) (p : Process)
      → get_elem? k.processes k.current_index ≡ some p
      → ticks ≢ 0
      → k.ticks + ticks < word_mod
      → (k' : Kernel M) × (sleep_for ops k stack ticks ≡ some (none, k'))
        × ((u : ℕ) → u < k.ticks + ticks → ready_at u k'.processes k.current_index ≡ false)
  unfolding sleep_for
  sleep_for_lem k stack ticks p e n w =
      let deadline = k.ticks + ticks in
      let q : Process = record p { sleep_until_tick = some deadline } in
      let k1 : Kernel M = record k { processes = set k.processes k.current_index q } in
      let frame = some (record stack { rax = 1 }) in
      let fits : deadline % word_mod ≡ deadline = omega (arith, w) in
      let slept : sleep_current_until k (deadline % word_mod) ≡ some k1 =
        ap (sleep_current_until k) fits ∙ sleep_current_until-eq k deadline p e in
      let inside = get_elem?-lt k.processes k.current_index p e in
      let asleep : Asleep k1.processes k.current_index deadline =
        (q, get_elem?-set_self k.processes k.current_index q inside, refl) in
      let later = next_process-Asleep k1 frame deadline (omega (arith, n)) asleep in
      let kept =
        subst (λ ps. Asleep ps k.current_index deadline) (sym (schedule-processes k1 frame))
          later in
      (
        (schedule ops k1 frame).1,
        ap (λ o. o >>= (λ k'. some (none, (schedule ops k' frame).1))) slept,
        λ u l. ready_at-Asleep u deadline k.current_index _ kept l,
      )

  module _ {U : Type 0} (user : UserMemory U) where
    nanosleep-sleep_for :
        (u : U) (k : Kernel M) (stack : FullInterruptStackFrame) (p : Process) (table : PageTable)
        (seconds nanoseconds ticks : ℕ)
        → get_elem? k.processes k.current_index ≡ some p
        → p.ring3_page_table ≡ some table
        → user.copy_timespec_from_user u table stack.rdi ≡ some (pos seconds, pos nanoseconds)
        → nanoseconds < 1000000000
        → duration_to_ticks seconds nanoseconds ≡ some ticks
        → ticks ≢ 0
        → nanosleep ops user u k stack ≡ sleep_for ops k stack ticks
    unfolding nanosleep get_current_process_page_table
    nanosleep-sleep_for u k stack p table seconds nanoseconds ticks e t c l d n =
        let found : get_current_process_page_table k ≡ some table =
          ap (λ o. o >>= (λ (q : Process). q.ring3_page_table)) e ∙ t in
        let ok : leb 1000000000 nanoseconds ≡ false = ground arith in
        let some_ticks : (ticks == 0) ≡ false = ground arith in
        rw (found, c, ok, d, some_ticks, nanosleep)

    -- Where the current process has a page table, and the timespec that it points to can be copied
    -- in and asks for a sleep of some nanoseconds, not too many for a word, the call does sleep,
    -- and in the state that it leaves the process cannot run at any tick before those nanoseconds
    -- have passed since the current tick began.
    pub nanosleep_lem :
        (u : U) (k : Kernel M) (stack : FullInterruptStackFrame) (p : Process) (table : PageTable)
        (seconds nanoseconds : ℕ)
        → get_elem? k.processes k.current_index ≡ some p
        → p.ring3_page_table ≡ some table
        → user.copy_timespec_from_user u table stack.rdi ≡ some (pos seconds, pos nanoseconds)
        → nanoseconds < 1000000000
        → 0 < seconds * 1000000000 + nanoseconds
        → seconds * 1000000000 + nanoseconds + k.ticks < word_mod
        → (k' : Kernel M) × (nanosleep ops user u k stack ≡ some (none, k'))
          × ((t : ℕ)
              → t * 10000000 < k.ticks * 10000000 + (seconds * 1000000000 + nanoseconds)
              → ready_at t k'.processes k.current_index ≡ false)
    nanosleep_lem u k stack p table seconds nanoseconds e t c l some_time fits =
        elim (duration_to_ticks_lem seconds nanoseconds) [
          | inr (_, over) ↦ absurd (omega (arith, over, fits))
          | inl (ticks, d, enough, least, _) ↦
              let n : ticks ≢ 0 = omega (arith, enough, some_time) in
              let (k', s, never) =
                sleep_for_lem k stack ticks p e n (omega (arith, least, fits, some_time)) in
              (
                k',
                nanosleep-sleep_for u k stack p table seconds nanoseconds ticks e t c l d n ∙ s,
                λ v early. never v (omega (arith, early, enough)),
              )
        ]
