-- ===== src/Sched/Calls/Steps.antt =====
-- The calls of src/scheduling/mod.rs as steps of the scheduler, in any order, and the invariant that they
-- keep.
use bubble_os.Base.{
  ℕ, ◌≡◌, refl, subst, inl, inr, Bool, Option, some, List, [], arith, Option-cases, get_elem?,
}
use bubble_os.Sched.Process.{FullInterruptStackFrame, Process, ProcessEntry, FdTable}
use bubble_os.Sched.Fd.{FileOps}
use bubble_os.Sched.Fd.Standard.{
  IsStandard, open_file-IsStandard, close_fd-IsStandard, read_fd-IsStandard, write_fd-IsStandard,
  truncate_fd-IsStandard,
}
use bubble_os.Sched.Scheduler.{MemoryOps, Kernel}
use bubble_os.Sched.Calls.{
  schedule, exit_current, deploy, update_current, block_current, sleep_current_until, change_cwd,
  current_wait_for_process, process_input, tick, with_fd_table, curr_process_open,
  close_current_file_descriptor, read_current_file_descriptor, write_current_file_descriptor,
  truncate_current_file_descriptor,
}
use bubble_os.Sched.Calls.Invariant.{
  IsValid, set-IsValid, update_current-IsValid, process_input-IsValid, wait-IsValid, deploy-IsValid,
  schedule-IsValid, exit_current-IsValid,
}

module _ {M S : Type 0} (ops : MemoryOps M) (files : FileOps S) where
  -- One call, with the state of the file system beside that of the scheduler: it does what it likes to
  -- the files that are open, and between calls the files may change too.
  pub data Step : Kernel M → Kernel M → Type 0 where
    by_schedule :
        (k : Kernel M) (stack : Option FullInterruptStackFrame) → Step k (schedule ops k stack).1
    by_deploy :
        (k : Kernel M) (root cs ss : ℕ) (entry : ProcessEntry) (fork_current : Bool)
        → Step k (deploy k root cs ss entry fork_current).1
    by_exit : (k : Kernel M) → Step k (exit_current ops k)
    by_block : (k k' : Kernel M) → block_current k ≡ some k' → Step k k'
    by_sleep : (k k' : Kernel M) (tick : ℕ) → sleep_current_until k tick ≡ some k' → Step k k'
    by_change_cwd : (k k' : Kernel M) (cwd : ℕ) → change_cwd k cwd ≡ some k' → Step k k'
    by_wait : (k : Kernel M) (subprocess : ℕ) → Step k (current_wait_for_process k subprocess)
    by_input : (k : Kernel M) (input : ℕ) → Step k (process_input k input)
    by_tick : (k : Kernel M) → Step k (tick k)
    by_open :
        (k : Kernel M) (file : ℕ) (readable writable : Bool)
        → Step k (curr_process_open k file readable writable).1
    by_close : (k : Kernel M) (fd : ℕ) → Step k (close_current_file_descriptor k fd).1
    by_read :
        (k : Kernel M) (s : S) (fd size : ℕ)
        → Step k (read_current_file_descriptor files k s fd size).1
    by_write :
        (k : Kernel M) (s : S) (fd : ℕ) (bytes : List ℕ)
        → Step k (write_current_file_descriptor files k s fd bytes).1
    by_truncate :
        (k : Kernel M) (s : S) (fd size : ℕ)
        → Step k (truncate_current_file_descriptor files k s fd size).1

  pub data Reach : Kernel M → Type 0 where
    boot :
        (memory : Option M)
        → Reach (record {
          current_index = 0;
          processes = [];
          pid_counter = 0;
          ticks = 0;
          memory = memory;
        })
    then_step : (k k' : Kernel M) → Reach k → Step k k' → Reach k'

  with_fd_table-IsValid :
      (k : Kernel M) (p : Process) (table : FdTable)
      → get_elem? k.processes k.current_index ≡ some p
      → (IsStandard p.fd_table → IsStandard table)
      → IsValid k
      → IsValid (with_fd_table k p table)
  with_fd_table-IsValid k p table e keep v = set-IsValid k p _ e refl keep v

  open-IsValid :
      (k : Kernel M) (file : ℕ) (readable writable : Bool)
      → IsValid k
      → IsValid (curr_process_open k file readable writable).1
  unfolding curr_process_open
  open-IsValid k file readable writable v =
      elim (Option-cases (get_elem? k.processes k.current_index)) [
        | inl e ↦ rw (e, curr_process_open) v
        | inr (p, e) ↦
            rw (e, curr_process_open)
              (with_fd_table-IsValid k p _ e
                (open_file-IsStandard p.fd_table file readable writable) v)
      ]

  close-IsValid :
      (k : Kernel M) (fd : ℕ) → IsValid k → IsValid (close_current_file_descriptor k fd).1
  unfolding close_current_file_descriptor
  close-IsValid k fd v = elim (Option-cases (get_elem? k.processes k.current_index)) [
    | inl e ↦ rw (e, close_current_file_descriptor) v
    | inr (p, e) ↦
        rw (e, close_current_file_descriptor)
          (with_fd_table-IsValid k p _ e (close_fd-IsStandard p.fd_table fd) v)
  ]

  read-IsValid :
      (k : Kernel M) (s : S) (fd size : ℕ)
      → IsValid k
      → IsValid (read_current_file_descriptor files k s fd size).1
  unfolding read_current_file_descriptor
  read-IsValid k s fd size v = elim (Option-cases (get_elem? k.processes k.current_index)) [
    | inl e ↦ rw (e, read_current_file_descriptor) v
    | inr (p, e) ↦
        rw (e, read_current_file_descriptor)
          (with_fd_table-IsValid k p _ e (read_fd-IsStandard files s p.fd_table fd size) v)
  ]

  write-IsValid :
      (k : Kernel M) (s : S) (fd : ℕ) (bytes : List ℕ)
      → IsValid k
      → IsValid (write_current_file_descriptor files k s fd bytes).1
  unfolding write_current_file_descriptor
  write-IsValid k s fd bytes v = elim (Option-cases (get_elem? k.processes k.current_index)) [
    | inl e ↦ rw (e, write_current_file_descriptor) v
    | inr (p, e) ↦
        rw (e, write_current_file_descriptor)
          (with_fd_table-IsValid k p _ e (write_fd-IsStandard files s p.fd_table fd bytes) v)
  ]

  truncate-IsValid :
      (k : Kernel M) (s : S) (fd size : ℕ)
      → IsValid k
      → IsValid (truncate_current_file_descriptor files k s fd size).1
  unfolding truncate_current_file_descriptor
  truncate-IsValid k s fd size v = elim (Option-cases (get_elem? k.processes k.current_index)) [
    | inl e ↦ rw (e, truncate_current_file_descriptor) v
    | inr (p, e) ↦
        rw (e, truncate_current_file_descriptor)
          (with_fd_table-IsValid k p _ e (truncate_fd-IsStandard files s p.fd_table fd size) v)
  ]

  updated-IsValid :
      (k k' : Kernel M) (f : Process → Process)
      → ((p : Process) → (f p).pid ≡ p.pid)
      → ((p : Process) → (f p).fd_table ≡ p.fd_table)
      → update_current k f ≡ some k'
      → IsValid k
      → IsValid k'
  updated-IsValid k k' f pid fds e v =
      let (k1, e1, v1) = update_current-IsValid k f pid fds v in
      let same : k1 ≡ k' = cc in subst IsValid same v1

  -- Every call of the scheduler's interface, on every branch of it, keeps the state valid.
  pub Step-IsValid : (k k' : Kernel M) → Step k k' → IsValid k → IsValid k'
  unfolding block_current sleep_current_until change_cwd tick
  Step-IsValid k _ (by_schedule _ stack) v = schedule-IsValid ops k stack v
  Step-IsValid k _ (by_deploy _ root cs ss entry fork_current) v =
      deploy-IsValid k root cs ss entry fork_current v
  Step-IsValid k _ (by_exit _) v = exit_current-IsValid ops k v
  Step-IsValid k k' (by_block _ _ e) v = updated-IsValid k k' _ (λ p. refl) (λ p. refl) e v
  Step-IsValid k k' (by_sleep _ _ tick e) v = updated-IsValid k k' _ (λ p. refl) (λ p. refl) e v
  Step-IsValid k k' (by_change_cwd _ _ cwd e) v = updated-IsValid k k' _ (λ p. refl) (λ p. refl) e v
  Step-IsValid k _ (by_wait _ subprocess) v = wait-IsValid k subprocess v
  Step-IsValid k _ (by_input _ input) v = process_input-IsValid k input v
  Step-IsValid k _ (by_tick _) v = record { in_bounds = v.in_bounds; listed = v.listed }
  Step-IsValid k _ (by_open _ file readable writable) v = open-IsValid k file readable writable v
  Step-IsValid k _ (by_close _ fd) v = close-IsValid k fd v
  Step-IsValid k _ (by_read _ s fd size) v = read-IsValid k s fd size v
  Step-IsValid k _ (by_write _ s fd bytes) v = write-IsValid k s fd bytes v
  Step-IsValid k _ (by_truncate _ s fd size) v = truncate-IsValid k s fd size v

  -- In every state that calls reach from boot, in whatever order they come, the current index is in
  -- bounds or there is no process, the pids rise along the list and stay below the counter, and every
  -- process has its standard descriptors at 0, 1 and 2.
  pub Reach-IsValid : (k : Kernel M) → Reach k → IsValid k
  Reach-IsValid _ (boot memory) = record { in_bounds = omega arith; listed = omega arith }
  Reach-IsValid _ (then_step k k' r s) = Step-IsValid k k' s (Reach-IsValid k r)
