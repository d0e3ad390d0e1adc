-- ===== src/Syscall.antt =====
-- The system calls of src/syscall that move the scheduler: each returns what goes into rax, or nothing
-- where the scheduler has taken over, beside the state.
pub mod Sleep
pub mod Paths
pub mod Opening
mod OpeningTests
pub mod Execute
pub mod ReadDir
mod Tests
use bubble_os.Base.{
  ℕ, ◌+◌, ◌-◌, ◌/◌, ◌%◌, Bool, not, Option, none, some, List, leb, ◌==◌, if◌then◌else◌, ◌>>=◌, ◌>>◌,
  length, word_mod,
}
use bubble_os.Sched.Process.{FullInterruptStackFrame, PageTable}
use bubble_os.Sched.Fd.{FileOps}
use bubble_os.Sched.Scheduler.{MemoryOps, Kernel}
use bubble_os.Sched.Calls.{
  schedule, exit_current, block_current, sleep_current_until, current_wait_for_process,
  get_current_process_page_table, close_current_file_descriptor, read_current_file_descriptor,
  truncate_current_file_descriptor,
}
use bubble_os.Time.{nanoseconds_per_second, duration_to_ticks}

-- An `i64`.
pub data ℤ : Type 0 where
  pos negsuc : ℕ → ℤ

-- The access of Process to the memory `U` of the process, by its page table: whether a range can be
-- written, a timespec that is copied in, and bytes that are copied out.
pub record UserMemory (U : Type 0) : Type 0 where
  pub can_process_pointer : U → PageTable → ℕ → ℕ → Bool
  pub copy_timespec_from_user : U → PageTable → ℕ → Option (ℤ × ℤ)
  pub copy_to_user : U → PageTable → ℕ → List ℕ → Option (Unit {0}) × U

module _ {M : Type 0} (ops : MemoryOps M) where
  unfoldable pub exit : Kernel M → Option ℕ × Kernel M
  exit k = (none, (schedule ops (exit_current ops k) none).1)

  unfoldable pub yld : Kernel M → FullInterruptStackFrame → Option ℕ × Kernel M
  yld k stack = (none, (schedule ops k (some stack)).1)

  unfoldable pub wait_for_process : Kernel M → FullInterruptStackFrame → Option ℕ × Kernel M
  wait_for_process k stack =
      (none, (schedule ops (current_wait_for_process k stack.rdi) (some stack)).1)

  unfoldable pub close : Kernel M → FullInterruptStackFrame → Option ℕ × Kernel M
  close k stack =
      let (closed, k') = close_current_file_descriptor k stack.rdi in
      (some (if closed then 1 else 0), k')

  -- The two fields as numbers, if neither is negative and the nanoseconds are less than a second.
  abbrev pub duration_of : ℤ × ℤ → Option (ℕ × ℕ)
  duration_of (pos seconds, pos nanoseconds) =
      if leb nanoseconds_per_second nanoseconds then none else some (seconds, nanoseconds)
  duration_of (pos seconds, negsuc n) = none
  duration_of (negsuc n, nanoseconds) = none

  -- The end of `nanosleep`, where the duration is some ticks; the outer `none` is a panic.
  unfoldable pub sleep_for : Kernel M → FullInterruptStackFrame → ℕ → Option (Option ℕ × Kernel M)
  sleep_for k stack ticks = do
    k' ← sleep_current_until k ((k.ticks + ticks) % word_mod)
    some (none, (schedule ops k' (some (record stack { rax = 1 }))).1)

  module _ {U : Type 0} (user : UserMemory U) where
    unfoldable pub nanosleep : U → Kernel M → FullInterruptStackFrame → Option (Option ℕ × Kernel M)
    nanosleep u k stack = elim (get_current_process_page_table k) [
      | none ↦ some (some 0, k)
      | some page_table ↦ elim (user.copy_timespec_from_user u page_table stack.rdi) [
        | none ↦ some (some 0, k)
        | some timespec ↦ elim (duration_of timespec) [
          | none ↦ some (some 0, k)
          | some (seconds, nanoseconds) ↦ elim (duration_to_ticks seconds nanoseconds) [
            | none ↦ some (some 0, k)
            | some ticks ↦ if ticks == 0 then some (some 1, k) else sleep_for k stack ticks
          ]
        ]
      ]
    ]

    module _ {S : Type 0} (files : FileOps S) where
      -- Reading from a descriptor of a file.
      unfoldable pub read_file_descriptor :
          U → S → Kernel M → FullInterruptStackFrame → Option ℕ × Kernel M × U
      read_file_descriptor u s k stack = elim (get_current_process_page_table k) [
        | none ↦ (some 0, k, u)
        | some page_table ↦
            if not (user.can_process_pointer u page_table stack.rsi stack.rdx)
            then (some 0, k, u)
            else (let (bytes, k') = read_current_file_descriptor files k s stack.rdi stack.rdx in
                elim bytes [
                  | none ↦ (some 0, k', u)
                  | some read ↦
                      let (copied, u') = user.copy_to_user u page_table stack.rsi read in
                      elim copied [
                        | none ↦ (some 0, k', u')
                        | some _ ↦ (some (length read), k', u')
                      ]
                ])
      ]

      unfoldable pub read :
          U → S → Kernel M → FullInterruptStackFrame → Option (Option ℕ × Kernel M × U)
      read u s k stack =
          if leb 3 stack.rdi
          then some (read_file_descriptor u s k stack)
          else (do k' ← block_current k; some (none, (schedule ops k' (some stack)).1, u))

      unfoldable pub truncate : S → Kernel M → FullInterruptStackFrame → Option ℕ × Kernel M × S
      truncate s k stack =
          let (done, k', s') = truncate_current_file_descriptor files k s stack.rdi stack.rsi in
          elim done [ none ↦ (some 0, k', s') | some _ ↦ (some 1, k', s') ]
