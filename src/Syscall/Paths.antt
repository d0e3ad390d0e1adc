-- ===== src/Syscall/Paths.antt =====
-- The system calls of src/syscall that take a path or bytes from the memory of the process, and
-- `clock_gettime`, which writes there. Each returns what goes into rax beside what it changes.
use bubble_os.Base.{
  ℕ, zero, suc, ◌/◌, ◌%◌, Bool, true, false, Option, none, some, List, [], ◌∷◌, ◌++◌, ◌==◌,
  if◌then◌else◌, ◌>>=◌, length,
}
use bubble_os.Path.{Str, find_directory_from_path}
use bubble_os.Fat.Name.{Unicode, trim_end, is_empty}
use bubble_os.Sched.Process.{FullInterruptStackFrame, FileDescriptor}
use bubble_os.Sched.Fd.{FileOps}
use bubble_os.Sched.Scheduler.{Kernel}
use bubble_os.Sched.Calls.{
  get_current_process_page_table, get_current_file_descriptor, write_current_file_descriptor,
  change_cwd,
}
use bubble_os.Mem.PageTable.{Machine}
use bubble_os.Sched.UserMemory.{copy_from_user, copy_slice_to_user}
use bubble_os.Sched.Files.{
  DirectoryUpdates, cwd_of, curr_process_open_file, curr_process_create_file,
  curr_process_create_directory, curr_process_unlink_file, curr_process_remove_directory,
}
use bubble_os.Time.{Timespec, monotonic_timespec, realtime_timespec}

-- `trim`
abbrev pub trim_start : Unicode → Str → Str
trim_start unicode [] = []
trim_start unicode (c ∷ cs) =
    let rest = trim_start unicode cs in if unicode.is_whitespace c then rest else c ∷ cs

abbrev pub trim : Unicode → Str → Str
trim unicode s = trim_end unicode (trim_start unicode s)

-- `GLOBAL_MEMORY_CONTROLLER` is there.
abbrev pub has_controller : {M : Type 0} → Kernel M → Bool
has_controller k = elim k.memory [ some m ↦ true | none ↦ false ]

-- `then_some(1).or(Some(0))`
abbrev pub one_or_zero : Bool → Option ℕ
one_or_zero b = some (if b then 1 else 0)

-- The two `i64` of a timespec, with the least significant byte first.
abbrev pub le_bytes : ℕ → ℕ → List ℕ
le_bytes zero n = []
le_bytes (suc count) n = n % 256 ∷ le_bytes count (n / 256)

abbrev pub timespec_bytes : Timespec → List ℕ
timespec_bytes t = le_bytes 8 t.tv_sec ++ le_bytes 8 t.tv_nsec

module _ {M U : Type 0} (memory : Machine U) where
  -- `get_current_process_page_table`, then `copy_from_user`.
  unfoldable pub read_user : Kernel M → U → ℕ → ℕ → Option (List ℕ)
  unfolding copy_from_user
  read_user k u addr size = do
    page_table ← get_current_process_page_table k
    copy_from_user memory (has_controller k) u page_table addr size

  -- `clock_id` 0 and 1 are the clocks; `boot_seconds` is the time at boot.
  unfoldable pub clock_gettime : Kernel M → U → ℕ → FullInterruptStackFrame → Option ℕ × U
  unfolding copy_slice_to_user
  clock_gettime k u boot_seconds stack =
      let timespec : Option Timespec =
        if stack.rdi == 0
        then some (realtime_timespec boot_seconds k.ticks)
        else if stack.rdi == 1
        then some (monotonic_timespec k.ticks)
        else none in
      elim timespec [
        | none ↦ (some 0, u)
        | some t ↦ elim (get_current_process_page_table k) [
          | none ↦ (some 0, u)
          | some page_table ↦
              let (copied, u') =
                copy_slice_to_user memory (has_controller k) u page_table stack.rsi 16 1
                  (timespec_bytes t) in
              (elim copied [ none ↦ some 0 | some _ ↦ some 1 ], u')
        ]
      ]

  module _ (unicode : Unicode) where
    -- The path whose address and size are in rdi and rsi.
    unfoldable pub read_user_path : Kernel M → U → FullInterruptStackFrame → Option Str
    unfolding read_user
    read_user_path k u stack = do
      buffer ← read_user k u stack.rdi stack.rsi
      path ← unicode.from_utf8 buffer
      some (trim unicode path)

    -- What is printed is added to `console`.
    unfoldable pub write :
        {S : Type 0}
        → FileOps S
        → Kernel M
        → U
        → S
        → Str
        → FullInterruptStackFrame
        → Option ℕ × Kernel M × S × Str
    unfolding read_user
    write files k u s console stack = elim (read_user k u stack.rsi stack.rdx) [
      | none ↦ (some 0, k, s, console)
      | some buffer ↦ elim (get_current_file_descriptor k stack.rdi) [
        | none ↦ (some 0, k, s, console)
        | some descriptor ↦ elim descriptor [
          | FileDescriptor.stdin ↦ (some 0, k, s, console)
          | FileDescriptor.regular _ ↦
              let (written, k', s') = write_current_file_descriptor files k s stack.rdi buffer in
              (elim written [ some n ↦ some n | none ↦ some 0 ], k', s', console)
          | _ ↦ elim (unicode.from_utf8 buffer) [
            | none ↦ (some 0, k, s, console)
            | some string ↦ (some (length buffer), k, s, console ++ string)
          ]
        ]
      ]
    ]

    module _ {D : Type 0} (updates : DirectoryUpdates D) (root : ℕ) where
      unfoldable pub open_path : Kernel M → U → D → FullInterruptStackFrame → Option ℕ × Kernel M
      unfolding read_user_path curr_process_open_file
      open_path k u d stack = elim (read_user_path k u stack) [
        | none ↦ (some 0, k)
        | some path ↦
            let (fd, k') = curr_process_open_file updates root k d path true true in
            (elim fd [ some n ↦ some n | none ↦ some 0 ], k')
      ]

      unfoldable pub create : Kernel M → U → D → FullInterruptStackFrame → Option ℕ × Kernel M × D
      unfolding read_user_path curr_process_create_file
      create k u d stack = elim (read_user_path k u stack) [
        | none ↦ (some 0, k, d)
        | some path ↦
            if is_empty path
            then (some 0, k, d)
            else let (fd, k', d') = curr_process_create_file updates root k d path true true in
              (elim fd [ some n ↦ some n | none ↦ some 0 ], k', d')
      ]

      -- The outer `none` is the panic of `change_cwd`.
      unfoldable pub cd : Kernel M → U → D → FullInterruptStackFrame → Option (Option ℕ × Kernel M)
      unfolding read_user_path find_directory_from_path
      cd k u d stack = elim (read_user_path k u stack) [
        | none ↦ some (some 0, k)
        | some path ↦
            if is_empty path
            then some (some 0, k)
            else elim (find_directory_from_path (updates.directories d) root (cwd_of k root) path) [
              | none ↦ some (some 0, k)
              | some new_dir ↦ do k' ← change_cwd k new_dir; some (some 1, k')
            ]
      ]

      -- The three calls that change a directory by its path.
      abbrev with_path :
          (Kernel M → D → Str → Bool × D)
          → Kernel M
          → U
          → D
          → FullInterruptStackFrame
          → Option ℕ × D
      with_path change k u d stack = elim (read_user_path k u stack) [
        | none ↦ (some 0, d)
        | some path ↦ let (done, d') = change k d path in (one_or_zero done, d')
      ]

      unfoldable pub mkdir : Kernel M → U → D → FullInterruptStackFrame → Option ℕ × D
      unfolding curr_process_create_directory
      mkdir = with_path (curr_process_create_directory updates root)

      unfoldable pub unlink : Kernel M → U → D → FullInterruptStackFrame → Option ℕ × D
      unfolding curr_process_unlink_file
      unlink = with_path (curr_process_unlink_file updates root)

      unfoldable pub rmdir : Kernel M → U → D → FullInterruptStackFrame → Option ℕ × D
      unfolding curr_process_remove_directory
      rmdir = with_path (curr_process_remove_directory updates root)
