-- ===== src/Sched/Scheduler/Pick.antt =====
-- What `next_process` returns and how it leaves the scheduler's state.
use bubble_os.Base.{
  ℕ, zero, suc, ◌≤◌, ◌<◌, ◌≡◌, refl, sym, ◌∙◌, ◌≢◌, ◌⊎◌, inl, inr, true, false, not, ◌&&◌, Option,
  none, some, List, [], ◌∷◌, arith, ltb, ◌==◌, ltb→lt, ltb→le, ==_iff, Bool-cases, Option-cases,
  length, get_elem?, set, length-set, get_elem?-set_self, get_elem?-set_ne, get_elem?-ge,
  get_elem?-lt,
}
use bubble_os.Sched.Process.{FullInterruptStackFrame, Process}
use bubble_os.Sched.Scheduler.{
  Kernel, has_pid, is_ready, find_ready, save_context, save_interrupted, wake, next_process,
}
use bubble_os.Sched.Scheduler.Next.{
  distance, distance-le, ready_at, ready_at-eq, ready_at-none, find_ready-some, find_ready-none,
}

has_pid-set :
    (pid : ℕ) (ps : List Process) (i : ℕ) (p q : Process)
    → get_elem? ps i ≡ some p
    → q.pid ≡ p.pid
    → has_pid pid (set ps i q) ≡ has_pid pid ps
unfolding has_pid
has_pid-set pid [] i p q e h = refl
has_pid-set pid (x ∷ ps) zero p q e h = ground arith
has_pid-set pid (x ∷ ps) (suc i) p q e h = ground (arith, has_pid-set pid ps i p q e h)

is_ready-ext :
    (ticks : ℕ) (ps ps' : List Process) (p : Process) (frame : FullInterruptStackFrame)
    → ((pid : ℕ) → has_pid pid ps' ≡ has_pid pid ps)
    → is_ready ticks ps' (record p { context = frame }) ≡ is_ready ticks ps p
unfolding is_ready
is_ready-ext ticks ps ps' p frame h = elim (Option-cases p.awaiting_process) [
  | inl e ↦ ground arith
  | inr (subprocess, e) ↦ ground (arith, h subprocess)
]

-- Whether a process can run does not depend on another one, as long as that keeps its pid.
pub ready_at-set_other :
    (ticks : ℕ) (ps : List Process) (i : ℕ) (p q : Process) (j : ℕ)
    → get_elem? ps i ≡ some p
    → q.pid ≡ p.pid
    → i ≢ j
    → ready_at ticks (set ps i q) j ≡ ready_at ticks ps j
ready_at-set_other ticks ps i p q j e same other =
    let kept = get_elem?-set_ne ps i j q other in
    elim (Option-cases (get_elem? ps j)) [
      | inl gone ↦
          ready_at-none ticks (set ps i q) j (kept ∙ gone) ∙ sym (ready_at-none ticks ps j gone)
      | inr (x, at) ↦
          ready_at-eq ticks (set ps i q) j x (kept ∙ at)
          ∙ is_ready-ext ticks ps (set ps i q) x x.context (λ pid. has_pid-set pid ps i p q e same)
          ∙ sym (ready_at-eq ticks ps j x at)
    ]

-- A process whose context alone changes can run as before, and so can every other.
ready_at-set_context :
    (ticks : ℕ) (ps : List Process) (i : ℕ) (p : Process) (frame : FullInterruptStackFrame) (j : ℕ)
    → get_elem? ps i ≡ some p
    → ready_at ticks (set ps i (record p { context = frame })) j ≡ ready_at ticks ps j
ready_at-set_context ticks ps i p frame j e =
    let q : Process = record p { context = frame } in
    let h = λ (pid : ℕ). has_pid-set pid ps i p q e refl in
    elim (Bool-cases (j == i)) [
      | inl same ↦ rw ((==_iff j i).0 same) (
          ready_at-eq ticks (set ps i q) i q (get_elem?-set_self ps i q (get_elem?-lt ps i p e))
          ∙ is_ready-ext ticks ps (set ps i q) p frame h
          ∙ sym (ready_at-eq ticks ps i p e))
      | inr other ↦ ready_at-set_other ticks ps i p q j e refl (ground arith)
    ]

-- Saving the interrupted context touches the current process alone, and that only if it has been
-- scheduled and was interrupted outside the kernel.
pub save_context-cases :
    (ps : List Process) (idx : ℕ) (frame : FullInterruptStackFrame)
    → (save_context ps idx frame ≡ ps)
      ⊎ ((p : Process) × (get_elem? ps idx ≡ some p)
          × (p.pre_schedule ≡ false)
          × (0x1FFFFF < frame.rip)
          × (save_context ps idx frame ≡ set ps idx (record p { context = frame })))
unfolding save_context
save_context-cases ps idx frame = elim (Option-cases (get_elem? ps idx)) [
  | inl e ↦ rw (e, save_context) (inl refl)
  | inr (p, e) ↦ elim (Bool-cases (not p.pre_schedule && ltb 0x1FFFFF frame.rip)) [
    | inl c ↦ inr (p, e, ground arith, ground arith, rw (e, c, save_context))
    | inr c ↦ inl (rw (e, c, save_context))
  ]
]

-- Saving the context keeps the number of processes and who can run.
pub save_interrupted-frame :
    {M : Type 0} (k : Kernel M) (stack : Option FullInterruptStackFrame)
    → (length (save_interrupted k stack) ≡ length k.processes)
      × ((j : ℕ) → ready_at k.ticks (save_interrupted k stack) j ≡ ready_at k.ticks k.processes j)
unfolding save_interrupted
save_interrupted-frame k none = (refl, λ j. refl)
save_interrupted-frame k (some frame) =
    elim (save_context-cases k.processes k.current_index frame) [
      | inl e ↦ rw (e, save_interrupted) (refl, λ j. refl)
      | inr (p, at, _, _, e) ↦
          rw (e, save_interrupted)
            (
              length-set k.processes k.current_index _,
              λ j. ready_at-set_context k.ticks k.processes k.current_index p frame j at,
            )
    ]

module _ {M : Type 0} (k : Kernel M) (stack : Option FullInterruptStackFrame) where
  next_process-some :
      (i : ℕ) (p : Process)
      → 0 < length k.processes
      → find_ready (length k.processes) k.ticks (save_interrupted k stack) k.current_index
        ≡ some (i, p)
      → next_process k stack ≡ (
        some (wake p),
        record k { current_index = i; processes = set (save_interrupted k stack) i (wake p) },
      )
  unfolding next_process
  next_process-some i p h e =
      let some_process : (length k.processes == 0) ≡ false = ground arith in
      rw (some_process, e, next_process)

  next_process-none :
      0 < length k.processes
      → find_ready (length k.processes) k.ticks (save_interrupted k stack) k.current_index ≡ none
      → next_process k stack ≡ (none, record k { processes = save_interrupted k stack })
  unfolding next_process
  next_process-none h e =
      let some_process : (length k.processes == 0) ≡ false = ground arith in
      rw (some_process, e, next_process)

  nobody :
      k.current_index < length k.processes
      → find_ready (length k.processes) k.ticks (save_interrupted k stack) k.current_index ≡ none
      → (j : ℕ) → ready_at k.ticks k.processes j ≡ false
  nobody h e j =
      let ps = save_interrupted k stack in
      let frame = save_interrupted-frame k stack in
      elim (Bool-cases (ltb j (length ps))) [
        | inl l ↦
            sym (frame.1 j)
            ∙ find_ready-none k.ticks ps (length k.processes) k.current_index
                (omega (arith, frame.0)) e j (ground arith)
                (omega (
                  arith,
                  frame.0,
                  distance-le (length ps) k.current_index j (omega (arith, frame.0)) (ltb→lt _ _ l),
                ))
        | inr l ↦ sym (frame.1 j) ∙ ready_at-none k.ticks ps j (get_elem?-ge ps j (ltb→le _ _ l))
      ]

-- What `next_process` does: it takes the process `p` at `i`, which can run and whose turn comes before
-- that of every other that can, or nothing, where no process can run.
abbrev pub Picks : {M : Type 0} → Kernel M → List Process → Option Process × Kernel M → Type 0
Picks k ps (picked, k') =
    ((i : ℕ) × (p : Process) × (picked ≡ some (wake p))
      × (get_elem? ps i ≡ some p)
      × (ready_at k.ticks k.processes i ≡ true)
      × ((j : ℕ)
          → ready_at k.ticks k.processes j ≡ true
          → distance (length k.processes) k.current_index i
            ≤ distance (length k.processes) k.current_index j)
      × (k' ≡ record k { current_index = i; processes = set ps i (wake p) }))
    ⊎ ((picked ≡ none)
        × ((j : ℕ) → ready_at k.ticks k.processes j ≡ false)
        × (k' ≡ record k { processes = ps }))

-- Where the current index is in bounds, `next_process` saves the interrupted context and then takes
-- the first process behind the current one, in the order of the list and round it, that can run: it
-- becomes the current one, is marked scheduled and no longer waits or sleeps, and no other process
-- changes. It takes nothing, and moves nothing, exactly where no process can run.
pub next_process_lem :
    {M : Type 0} (k : Kernel M) (stack : Option FullInterruptStackFrame)
    → k.current_index < length k.processes
    → Picks k (save_interrupted k stack) (next_process k stack)
next_process_lem k stack h =
    let ps = save_interrupted k stack in
    let frame = save_interrupted-frame k stack in
    let inside : k.current_index < length ps = omega (arith, frame.0) in
    elim (Option-cases (find_ready (length k.processes) k.ticks ps k.current_index)) [
      | inr ((i, p), e) ↦
          let (at, ready, least) =
            find_ready-some k.ticks ps (length k.processes) k.current_index i p inside e in
          rw (next_process-some k stack i p (omega arith) e) (
            inl (
              i,
              p,
              refl,
              at,
              sym (frame.1 i) ∙ ready,
              λ j r. rw frame.0 at (least j (frame.1 j ∙ r)),
              refl,
            ))
      | inl e ↦
          rw (next_process-none k stack (omega arith) e)
            (inr (refl, λ j. nobody k stack h e j, refl))
    ]
