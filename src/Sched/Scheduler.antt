-- ===== src/Sched/Scheduler.antt =====
-- src/scheduling/mod.rs: the global scheduler state and the functions over it. The locks and atomics are
-- one state that is passed on; `none` from a function marks a panic on an index out of bounds.
pub mod Next
pub mod Pick
pub mod Fair
use bubble_os.Base.{
  ℕ, zero, suc, ◌+◌, ◌-◌, ◌/◌, Bool, false, not, ◌&&◌, ◌||◌, Option, none, some, List, [], ◌∷◌, ltb,
  leb, ◌==◌, if◌then◌else◌, length, get_elem?, set,
}
use bubble_os.Sched.Process.{
  FullInterruptStackFrame, Stack, PageTable, Process, ProcessEntry, FdTable, from_entry,
}

-- What the scheduler asks of the memory controller (src/mem/mod.rs) and of src/elf/mod.rs.
pub record MemoryOps (M : Type 0) : Type 0 where
  pub switch_table : M → PageTable → Option PageTable × M
  pub unmap_regions : M → ℕ → M
  pub free_stack : M → Stack → M
  pub free_page_table : M → PageTable → M

-- `CURRENT_INDEX`, `PROCESSES`, `PID_COUNTER`, the tick counter of src/time/mod.rs and
-- `GLOBAL_MEMORY_CONTROLLER`.
pub record Kernel (M : Type 0) : Type 0 where
  pub current_index : ℕ
  pub processes : List Process
  pub pid_counter : ℕ
  pub ticks : ℕ
  pub memory : Option M

unfoldable pub has_pid : ℕ → List Process → Bool
has_pid pid [] = false
has_pid pid (p ∷ ps) = p.pid == pid || has_pid pid ps

-- Blocked on input, waiting for a process that is there, or asleep: none of these can run.
unfoldable pub is_ready : ℕ → List Process → Process → Bool
is_ready ticks ps p =
    let ready : Bool = elim p.awaiting_process [
      | some subprocess_pid ↦ not (has_pid subprocess_pid ps)
      | none ↦ not p.blocking
    ] in
    elim p.sleep_until_tick [
      | some deadline ↦ if ltb ticks deadline then false else ready
      | none ↦ ready
    ]

unfoldable pub next_index : ℕ → ℕ → ℕ
next_index current_index len = if leb len (current_index + 1) then 0 else current_index + 1

-- The loop over the passes, on those left.
unfoldable pub find_ready : ℕ → ℕ → List Process → ℕ → Option (ℕ × Process)
find_ready zero ticks ps current_index = none
find_ready (suc left) ticks ps current_index =
    let i = next_index current_index (length ps) in
    let rest = find_ready left ticks ps i in
    elim (get_elem? ps i) [
      | none ↦ none
      | some p ↦ if is_ready ticks ps p then some (i, p) else rest
    ]

unfoldable pub save_context : List Process → ℕ → FullInterruptStackFrame → List Process
save_context ps current_index frame = elim (get_elem? ps current_index) [
  | none ↦ ps
  | some current ↦
      if not current.pre_schedule && ltb 0x1FFFFF frame.rip
      then set ps current_index (record current { context = frame })
      else ps
]

abbrev pub wake : Process → Process
wake p = record p { pre_schedule = false; awaiting_process = none; sleep_until_tick = none }

module _ {M : Type 0} where
  -- The processes once the interrupted one's context is saved.
  unfoldable pub save_interrupted : Kernel M → Option FullInterruptStackFrame → List Process
  save_interrupted k none = k.processes
  save_interrupted k (some frame) = save_context k.processes k.current_index frame

  unfoldable pub next_process :
      Kernel M → Option FullInterruptStackFrame → Option Process × Kernel M
  next_process k interrupt_stack =
      if length k.processes == 0
      then (none, k)
      else (let ps = save_interrupted k interrupt_stack in
          elim (find_ready (length k.processes) k.ticks ps k.current_index) [
            | none ↦ (none, record k { processes = ps })
            | some (i, p) ↦
                (some (wake p), record k { current_index = i; processes = set ps i (wake p) })
          ])
