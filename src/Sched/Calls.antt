-- ===== src/Sched/Calls.antt =====
-- src/scheduling/mod.rs: the functions that the system calls and the timer use to change the scheduler's
-- state. `none` from a function marks a panic on an index out of bounds.
pub mod Listed
pub mod Invariant
pub mod Steps
pub mod Exit
pub mod Fork
pub mod Timer
use bubble_os.Base.{
  ℕ, zero, suc, ◌+◌, ◌-◌, ◌/◌, ◌%◌, Bool, true, false, not, ◌&&◌, Option, none, some, List, [], ◌∷◌,
  ◌++◌, map, ◌==◌, if◌then◌else◌, ◌>>=◌, ◌>>◌, length, get_elem?, set, word_mod,
}
use bubble_os.Sched.Process.{
  FullInterruptStackFrame, Stack, PageTable, Process, ProcessEntry, FdTable, FileDescriptor,
  from_entry,
}
use bubble_os.Sched.Fd.{FileOps, open_file, close_fd, get_fd, read_fd, write_fd, truncate_fd}
use bubble_os.Sched.Scheduler.{MemoryOps, Kernel, next_process}

-- How `schedule` ends: it jumps to a process, or it waits for the next interrupt.
pub data Resume : Type 0 where
  idle no_memory_controller no_page_table switch_failed : Resume
  jump : Process → Resume

-- `Vec::remove` at an index in bounds.
abbrev pub remove_at {ℓ} : {A : Type ℓ} → List A → ℕ → List A
remove_at [] i = []
remove_at (x ∷ xs) zero = xs
remove_at (x ∷ xs) (suc i) = x ∷ remove_at xs i

abbrev pub receive : ℕ → Process → Process
receive input p =
    if p.blocking
    then record p { context = record (p.context) { rax = input }; blocking = false }
    else p

module _ {M : Type 0} (ops : MemoryOps M) where
  unfoldable pub schedule : Kernel M → Option FullInterruptStackFrame → Resume × Kernel M
  schedule k interrupt_stack =
      let (picked, k') = next_process k interrupt_stack in
      elim picked [
        | none ↦ (idle, k')
        | some p ↦ elim k'.memory [
          | none ↦ (no_memory_controller, k')
          | some m ↦ elim p.ring3_page_table [
            | none ↦ (no_page_table, k')
            | some table ↦
                let (old, m') = ops.switch_table m table in
                elim old [
                  | none ↦ (switch_failed, record k' { memory = some m' })
                  | some _ ↦ (jump p, record k' { memory = some m' })
                ]
          ]
        ]
      ]

  -- Freeing what the process had mapped; without a memory controller nothing is freed.
  unfoldable pub free_process : Option M → Process → Option M
  free_process none p = none
  free_process (some m) p =
      let m' = ops.free_stack (ops.unmap_regions m p.start_region) p.stack in
      elim p.ring3_page_table [ none ↦ some m' | some table ↦ some (ops.free_page_table m' table) ]

  unfoldable pub exit_current : Kernel M → Kernel M
  unfolding free_process
  exit_current k =
      if length k.processes == 0 then k else elim (get_elem? k.processes k.current_index) [
        | none ↦ k
        | some removed ↦ record k {
          processes = remove_at k.processes k.current_index;
          memory = free_process k.memory removed;
          current_index = if k.current_index == 0 then 0 else k.current_index - 1;
        }
      ]

module _ {M : Type 0} where
  -- The working directory and the descriptors that a deployed process takes over; the outer `none` is
  -- the failure on a current index out of bounds.
  unfoldable pub parent_state : Kernel M → Bool → Option (Option (ℕ × FdTable))
  parent_state k fork_current =
      if fork_current && not (length k.processes == 0)
      then (do
        current ← get_elem? k.processes k.current_index
        some (some (current.curr_working_dir, current.fd_table)))
      else some none

  -- `root` is the root directory; `cs` and `ss` are the selectors of the GDT for user code and data. A pid
  -- counter that passes 2 ^ 64 would be a panic of the debug build, and is left to grow here.
  unfoldable pub deploy : Kernel M → ℕ → ℕ → ℕ → ProcessEntry → Bool → ℕ × Kernel M
  unfolding parent_state
  deploy k root cs ss entry fork_current =
      let pid = k.pid_counter in
      let k' = record k { pid_counter = pid + 1 } in
      elim (parent_state k fork_current) [
        | none ↦ (0, k')
        | some parent ↦
            let cwd : ℕ = elim parent [ some (dir, _) ↦ dir | none ↦ root ] in
            elim (from_entry entry pid cwd) [
              | none ↦ (0, k')
              | some p ↦
                  let table : FdTable = elim parent [ some (_, fds) ↦ fds | none ↦ p.fd_table ] in
                  let context = record (p.context) { cs = cs; ss = ss; rflags = 0x202 } in
                  (
                    pid,
                    record k' {
                      processes =
                          k.processes ++ (record p { fd_table = table; context = context } ∷ []);
                    },
                  )
            ]
      ]

  -- `&mut processes[current_index]`, which panics out of bounds, after the check for no process.
  unfoldable pub update_current : Kernel M → (Process → Process) → Option (Kernel M)
  update_current k f = if length k.processes == 0 then some k else (do
    current ← get_elem? k.processes k.current_index
    some (record k { processes = set k.processes k.current_index (f current) }))

  unfoldable pub block_current : Kernel M → Option (Kernel M)
  unfolding update_current
  block_current k = update_current k (λ p. record p { blocking = true })

  unfoldable pub sleep_current_until : Kernel M → ℕ → Option (Kernel M)
  unfolding update_current
  sleep_current_until k deadline_tick =
      update_current k (λ p. record p { sleep_until_tick = some deadline_tick })

  unfoldable pub change_cwd : Kernel M → ℕ → Option (Kernel M)
  unfolding update_current
  change_cwd k cwd = update_current k (λ p. record p { curr_working_dir = cwd })

  unfoldable pub get_current_cwd : Kernel M → ℕ → Option ℕ
  get_current_cwd k root =
      if length k.processes == 0
      then some root
      else (do current ← get_elem? k.processes k.current_index; some current.curr_working_dir)

  unfoldable pub get_current_process_page_table : Kernel M → Option PageTable
  get_current_process_page_table k = do
    current ← get_elem? k.processes k.current_index
    current.ring3_page_table

  -- An index out of bounds is logged, and nothing changes.
  unfoldable pub current_wait_for_process : Kernel M → ℕ → Kernel M
  current_wait_for_process k subprocess = elim (get_elem? k.processes k.current_index) [
    | none ↦ k
    | some current ↦ record k {
      processes =
          set k.processes k.current_index (record current { awaiting_process = some subprocess });
    }
  ]

  -- A character that was received goes to every process that waits for input.
  unfoldable pub process_input : Kernel M → ℕ → Kernel M
  process_input k input = record k { processes = map (receive input) k.processes }

  unfoldable pub tick : Kernel M → Kernel M
  tick k = record k { ticks = (k.ticks + 1) % word_mod }

  -- The descriptor functions of the current process.
  abbrev pub with_fd_table : Kernel M → Process → FdTable → Kernel M
  with_fd_table k p table = record k {
    processes = set k.processes k.current_index (record p { fd_table = table });
  }

  unfoldable pub get_current_file_descriptor : Kernel M → ℕ → Option FileDescriptor
  get_current_file_descriptor k fd = do
    current ← get_elem? k.processes k.current_index
    get_fd current.fd_table fd

  -- The end of `curr_process_open_file` and `curr_process_create_file`, once the file is there.
  unfoldable pub curr_process_open : Kernel M → ℕ → Bool → Bool → Option ℕ × Kernel M
  curr_process_open k file readable writable = elim (get_elem? k.processes k.current_index) [
    | none ↦ (none, k)
    | some p ↦
        let (fd, table) = open_file p.fd_table file readable writable in
        (some fd, with_fd_table k p table)
  ]

  unfoldable pub close_current_file_descriptor : Kernel M → ℕ → Bool × Kernel M
  close_current_file_descriptor k fd = elim (get_elem? k.processes k.current_index) [
    | none ↦ (false, k)
    | some p ↦ let (closed, table) = close_fd p.fd_table fd in (closed, with_fd_table k p table)
  ]

  module _ {S : Type 0} (files : FileOps S) where
    unfoldable pub read_current_file_descriptor : Kernel M → S → ℕ → ℕ → Option (List ℕ) × Kernel M
    read_current_file_descriptor k s fd size = elim (get_elem? k.processes k.current_index) [
      | none ↦ (none, k)
      | some p ↦
          let (bytes, table) = read_fd files s p.fd_table fd size in
          (bytes, with_fd_table k p table)
    ]

    unfoldable pub write_current_file_descriptor :
        Kernel M → S → ℕ → List ℕ → Option ℕ × Kernel M × S
    write_current_file_descriptor k s fd bytes = elim (get_elem? k.processes k.current_index) [
      | none ↦ (none, k, s)
      | some p ↦
          let (written, table, s') = write_fd files s p.fd_table fd bytes in
          (written, with_fd_table k p table, s')
    ]

    unfoldable pub truncate_current_file_descriptor :
        Kernel M → S → ℕ → ℕ → Option (Unit {0}) × Kernel M × S
    truncate_current_file_descriptor k s fd size = elim (get_elem? k.processes k.current_index) [
      | none ↦ (none, k, s)
      | some p ↦
          let (done, table, s') = truncate_fd files s p.fd_table fd size in
          (done, with_fd_table k p table, s')
    ]
