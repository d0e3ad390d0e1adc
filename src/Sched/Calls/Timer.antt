-- ===== src/Sched/Calls/Timer.antt =====
-- src/arch/x86_64/timer_isr.rs: the interrupt of the timer; and no process that can run waits for longer than
-- one round of the others while such interrupts come.
use bubble_os.Base.{
  ℕ, zero, suc, ◌+◌, ◌%◌, ◌≤◌, ◌<◌, ◌≡◌, refl, sym, ap, ◌∙◌, ◌⊎◌, inl, inr, Bool, true, Option,
  none, some, List, [], ◌∷◌, arith, if◌then◌else◌, Option-cases, length, get_elem?, contains,
  word_mod,
}
use mathlib.Core.List.{map}
use mathlib.Core.Bool.{false≢true}
use bubble_os.Sched.Process.{FullInterruptStackFrame, Process}
use bubble_os.Sched.Scheduler.{Kernel, MemoryOps, has_pid, is_ready, next_process}
use bubble_os.Sched.Scheduler.Next.{
  distance, distance-le, distance-pos, ready_at, ready_at-lt, ready_at-eq, ready_at-none,
}
use bubble_os.Sched.Scheduler.Fair.{nearer}
use bubble_os.Sched.Calls.{Resume, receive, schedule, process_input, tick}

-- The kernel as `schedule` finds it, with the character that the serial port received, if one came.
unfoldable pub prepared : {M : Type 0} → Kernel M → Option ℕ → Kernel M
unfolding tick process_input
prepared k received = elim received [ none ↦ tick k | some input ↦ process_input (tick k) input ]

-- `sched_enabled` is `SCHEDULING_ENABLED`. The answer to the interrupt controller leaves no trace.
unfoldable pub timer_isr :
    {M : Type 0}
    → MemoryOps M
    → Bool
    → Kernel M
    → Option ℕ
    → FullInterruptStackFrame
    → Option Resume × Kernel M
unfolding tick prepared schedule
timer_isr ops sched_enabled k received stack =
    if sched_enabled
    then (let (r, k') = schedule ops (prepared k received) (some stack) in (some r, k'))
    else (none, tick k)

-- The indices that a row of timer interrupts makes current, each with the character received and the frame
-- of what it interrupts.
abbrev pub turns :
    {M : Type 0} → MemoryOps M → Kernel M → List (Option ℕ × FullInterruptStackFrame) → List ℕ
turns ops k [] = []
turns ops k ((received, stack) ∷ interrupts) =
    let k' = (timer_isr ops true k received stack).1 in k'.current_index ∷ turns ops k' interrupts

-- Switching the page table touches neither the processes nor whose turn it is.
schedule-next_process :
    {M : Type 0} (ops : MemoryOps M) (k : Kernel M) (stack : Option FullInterruptStackFrame)
    → let k' = (schedule ops k stack).1 in
      let next = (next_process k stack).1 in
      (k'.current_index ≡ next.current_index)
      × (k'.processes ≡ next.processes)
      × (k'.ticks ≡ next.ticks)
unfolding schedule
schedule-next_process ops k stack = ground arith

next_process-ticks :
    {M : Type 0} (k : Kernel M) (stack : Option FullInterruptStackFrame)
    → (next_process k stack).1.ticks ≡ k.ticks
unfolding next_process
next_process-ticks k stack = ground arith

length-map : (f : Process → Process) (ps : List Process) → length (map f ps) ≡ length ps
length-map f [] = refl
length-map f (p ∷ ps) = ap suc (length-map f ps)

get_elem?-map :
    (f : Process → Process) (ps : List Process) (i : ℕ) (p : Process)
    → get_elem? ps i ≡ some p
    → get_elem? (map f ps) i ≡ some (f p)
get_elem?-map f [] i p e = absurd (cc)
get_elem?-map f (x ∷ ps) zero p e = ap (λ r. elim r [ none ↦ none | some q ↦ some (f q) ]) e
get_elem?-map f (x ∷ ps) (suc i) p e = get_elem?-map f ps i p e

has_pid-receive :
    (input pid : ℕ) (ps : List Process) → has_pid pid (map (receive input) ps) ≡ has_pid pid ps
unfolding has_pid
has_pid-receive input pid [] = refl
has_pid-receive input pid (p ∷ ps) = ground (arith, has_pid-receive input pid ps)

-- A process that can run still can when time passes and input comes.
is_ready_later :
    (t t' input : ℕ) (ps ps' : List Process) (p : Process)
    → t ≤ t'
    → ((pid : ℕ) → has_pid pid ps' ≡ has_pid pid ps)
    → is_ready t ps p ≡ true
    → (is_ready t' ps' p ≡ true) × (is_ready t' ps' (receive input p) ≡ true)
unfolding is_ready
is_ready_later t t' input ps ps' p le same r = elim (Option-cases p.awaiting_process) [
  | inl e ↦ (ground arith, ground arith)
  | inr (s, e) ↦ (ground (arith, same s), ground (arith, same s))
]

ready_at_later :
    (t t' input : ℕ) (ps : List Process) (j : ℕ)
    → t ≤ t'
    → ready_at t ps j ≡ true
    → (ready_at t' ps j ≡ true) × (ready_at t' (map (receive input) ps) j ≡ true)
ready_at_later t t' input ps j le r = elim (Option-cases (get_elem? ps j)) [
  | inl n ↦ absurd (false≢true (sym (ready_at-none t ps j n) ∙ r))
  | inr (p, at) ↦
      let ready : is_ready t ps p ≡ true = sym (ready_at-eq t ps j p at) ∙ r in
      let (idle_time, _) = is_ready_later t t' input ps ps p le (λ pid. refl) ready in
      let (_, woken) =
        is_ready_later t t' input ps (map (receive input) ps) p le
          (λ pid. has_pid-receive input pid ps) ready in
      let at' = get_elem?-map (receive input) ps j p at in
      (
        ready_at-eq t' ps j p at ∙ idle_time,
        ready_at-eq t' (map (receive input) ps) j (receive input p) at' ∙ woken,
      )
]

-- What an interrupt does before it schedules: time passes, no process that could run cannot any more.
prepared_lem :
    {M : Type 0} (k : Kernel M) (received : Option ℕ) (j : ℕ)
    → k.ticks + 1 < word_mod
    → ready_at k.ticks k.processes j ≡ true
    → let k' = prepared k received in
      (k'.current_index ≡ k.current_index)
      × (length k'.processes ≡ length k.processes)
      × (k'.ticks ≡ k.ticks + 1)
      × (ready_at k'.ticks k'.processes j ≡ true)
unfolding prepared tick process_input
prepared_lem k none j small r =
    let t' = (k.ticks + 1) % word_mod in
    let later : k.ticks ≤ t' = omega (arith, small) in
    (refl, refl, omega (arith, small), (ready_at_later k.ticks t' 0 k.processes j later r).0)
prepared_lem k (some input) j small r =
    let t' = (k.ticks + 1) % word_mod in
    let later : k.ticks ≤ t' = omega (arith, small) in
    (
      refl,
      length-map (receive input) k.processes,
      omega (arith, small),
      (ready_at_later k.ticks t' input k.processes j later r).1,
    )

distance_same :
    (n n' i i' c c' j : ℕ)
    → n ≡ n'
    → i ≡ i'
    → c ≡ c'
    → distance n i j < distance n c j
    → distance n' i' j < distance n' c' j
distance_same n n' i i' c c' j en ei ec d = rw (sym en, sym ei, sym ec) d

-- One interrupt makes a process that can run current or brings its turn nearer, and it can still run.
timer_isr_nearer :
    {M : Type 0} (ops : MemoryOps M) (k : Kernel M) (received : Option ℕ)
    (stack : FullInterruptStackFrame) (j : ℕ)
    → k.current_index < length k.processes
    → k.ticks + 1 < word_mod
    → ready_at k.ticks k.processes j ≡ true
    → let k' = (timer_isr ops true k received stack).1 in
      (k'.current_index < length k'.processes)
      × (length k'.processes ≡ length k.processes)
      × (k'.ticks ≡ k.ticks + 1)
      × ((k'.current_index ≡ j)
          ⊎ ((ready_at k'.ticks k'.processes j ≡ true)
              × (distance (length k.processes) k'.current_index j
                  < distance (length k.processes) k.current_index j)))
unfolding timer_isr
timer_isr_nearer ops k received stack j h small r =
    let k1 = prepared k received in
    let (index, size, time, ready) = prepared_lem k received j small r in
    let (inside, kept, next) = nearer k1 (some stack) j (rw (index, size) h) ready in
    let (at, processes, ticks) = schedule-next_process ops k1 (some stack) in
    (
      rw (at, processes) inside,
      ap length processes ∙ kept ∙ size,
      ticks ∙ next_process-ticks k1 (some stack) ∙ time,
      elim next [
        | inl e ↦ inl (at ∙ e)
        | inr (r', d) ↦ inr (
          rw (ticks, processes) r',
          distance_same (length k1.processes) (length k.processes)
              (next_process k1 (some stack)).1.current_index
              (timer_isr ops true k received stack).1.current_index k1.current_index k.current_index
              j size (sym at) index d,
        )
      ],
    )

contains-head : (x a : ℕ) (xs : List ℕ) → x ≡ a → contains (x ∷ xs) a ≡ true
contains-head x a xs e = ground arith

contains-tail : (x a : ℕ) (xs : List ℕ) → contains xs a ≡ true → contains (x ∷ xs) a ≡ true
contains-tail x a xs e = ground arith

turns-contains :
    {M : Type 0} (ops : MemoryOps M) (k : Kernel M)
    (interrupts : List (Option ℕ × FullInterruptStackFrame)) (j : ℕ)
    → k.current_index < length k.processes
    → k.ticks + length interrupts < word_mod
    → ready_at k.ticks k.processes j ≡ true
    → distance (length k.processes) k.current_index j ≤ length interrupts
    → contains (turns ops k interrupts) j ≡ true
turns-contains ops k [] j h small r d =
    absurd (omega (arith, distance-pos (length k.processes) k.current_index j h))
turns-contains ops k ((received, stack) ∷ interrupts) j h small r d =
    let (h', same, time, next) = timer_isr_nearer ops k received stack j h (omega arith) r in
    let k' = (timer_isr ops true k received stack).1 in
    elim next [
      | inl e ↦ contains-head k'.current_index j (turns ops k' interrupts) e
      | inr (r', closer) ↦ contains-tail k'.current_index j (turns ops k' interrupts) (
          turns-contains ops k' interrupts j h' (omega (arith, time, small)) r'
            (rw same (omega arith)))
    ]

-- Where the current index is in bounds, a process that can run gets its turn: of any row of at least as many
-- timer interrupts as there are processes, with nothing else between them, one makes it current, whatever
-- characters the interrupts bring and whatever they interrupt; the tick counter is not to wrap meanwhile.
pub turns_fair :
    {M : Type 0} (ops : MemoryOps M) (k : Kernel M)
    (interrupts : List (Option ℕ × FullInterruptStackFrame)) (j : ℕ)
    → k.current_index < length k.processes
    → k.ticks + length interrupts < word_mod
    → ready_at k.ticks k.processes j ≡ true
    → length k.processes ≤ length interrupts
    → contains (turns ops k interrupts) j ≡ true
turns_fair ops k interrupts j h small r l = turns-contains ops k interrupts j h small r (
    omega (
      arith,
      distance-le (length k.processes) k.current_index j h (ready_at-lt k.ticks k.processes j r),
    ))
