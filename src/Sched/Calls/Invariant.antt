-- ===== src/Sched/Calls/Invariant.antt =====
-- The invariant of the scheduler's state, and that every call keeps it.
use bubble_os.Base.{
  ℕ, suc, ◌+◌, ◌<◌, max, ◌≡◌, refl, ◌⊎◌, inl, inr, Bool, true, not, ◌&&◌, Option, none, some, [],
  ◌∷◌, ◌++◌, arith, ◌==◌, Bool-cases, Option-cases, length, get_elem?, set, length-append,
  length-set, get_elem?-lt, get_elem?-some, length-map,
}
use bubble_os.Sched.Process.{
  FullInterruptStackFrame, Process, ProcessEntry, FdTable, from_entry, standard_fd_table,
}
use bubble_os.Sched.Fd.Standard.{IsStandard, standard_fd_table-IsStandard}
use bubble_os.Sched.Scheduler.{MemoryOps, Kernel, save_interrupted, wake, next_process}
use bubble_os.Sched.Scheduler.Pick.{save_context-cases, save_interrupted-frame, next_process_lem}
use bubble_os.Sched.Calls.{
  receive, schedule, exit_current, parent_state, deploy, update_current, current_wait_for_process,
  process_input,
}
use bubble_os.Sched.Calls.Listed.{
  Listed, Listed-set, Listed-push, Listed-grow, Listed-remove_at, Listed-receive, Listed-IsStandard,
  length-remove_at,
}

-- The current index is in bounds, or is 0 where there is no process; the pids rise along the list and
-- stay below the counter; and every process has its standard descriptors.
pub record IsValid {M : Type 0} (k : Kernel M) : Type 0 where
  pub in_bounds : k.current_index < max 1 (length k.processes)
  pub listed : Listed 0 k.pid_counter k.processes

counted : (n : ℕ) → n + 1 ≡ suc n
counted n = omega arith

from_entry-pid :
    (entry : ProcessEntry) (pid cwd : ℕ) (p : Process)
    → from_entry entry pid cwd ≡ some p
    → (p.pid ≡ pid) × IsStandard p.fd_table
unfolding from_entry
from_entry-pid entry pid cwd p e = elim (Option-cases entry.stack) [
  | inl n ↦ absurd (ground arith)
  | inr (stack, at) ↦ elim (Option-cases entry.ring3_page_table) [
    | inl n ↦ absurd (ground arith)
    | inr (table, found) ↦
        let fds : p.fd_table ≡ standard_fd_table = ground arith in
        (ground arith, rw fds standard_fd_table-IsStandard)
  ]
]

module _ {M : Type 0} where
  -- A call that changes the current process alone.
  pub set-IsValid :
      (k : Kernel M) (p q : Process)
      → get_elem? k.processes k.current_index ≡ some p
      → q.pid ≡ p.pid
      → (IsStandard p.fd_table → IsStandard q.fd_table)
      → IsValid k
      → IsValid (record k { processes = set k.processes k.current_index q })
  set-IsValid k p q e same keep v = record {
    in_bounds = omega (arith, length-set k.processes k.current_index q, v.in_bounds);
    listed = Listed-set 0 k.pid_counter k.processes k.current_index p q e same keep v.listed;
  }

  save_interrupted-Listed :
      (k : Kernel M) (stack : Option FullInterruptStackFrame)
      → Listed 0 k.pid_counter k.processes
      → Listed 0 k.pid_counter (save_interrupted k stack)
  unfolding save_interrupted
  save_interrupted-Listed k none l = l
  save_interrupted-Listed k (some frame) l =
      elim (save_context-cases k.processes k.current_index frame) [
        | inl e ↦ rw (e, save_interrupted) l
        | inr (p, at, _, _, e) ↦
            rw (e, save_interrupted)
              (Listed-set 0 k.pid_counter k.processes k.current_index p
                (record p { context = frame }) at refl (λ s. s) l)
      ]

  next_process-empty :
      (k : Kernel M) (stack : Option FullInterruptStackFrame)
      → (length k.processes == 0) ≡ true
      → (next_process k stack).1 ≡ k
  unfolding next_process
  next_process-empty k stack z = rw (z, next_process)

  pub next_process-IsValid :
      (k : Kernel M) (stack : Option FullInterruptStackFrame)
      → IsValid k
      → IsValid (next_process k stack).1
  next_process-IsValid k stack v = elim (Bool-cases (length k.processes == 0)) [
    | inl z ↦ rw (next_process-empty k stack z) v
    | inr z ↦
        let ps = save_interrupted k stack in
        let same = (save_interrupted-frame k stack).0 in
        let l = save_interrupted-Listed k stack v.listed in
        elim (next_process_lem k stack (ground (arith, v.in_bounds))) [
          | inl (i, p, _, at, _, _, e) ↦ rw e (record {
            in_bounds = omega (arith, length-set ps i (wake p), get_elem?-lt ps i p at);
            listed = Listed-set 0 k.pid_counter ps i p (wake p) at refl (λ s. s) l;
          })
          | inr (_, _, e) ↦
              rw e (record { in_bounds = omega (arith, same, v.in_bounds); listed = l })
        ]
  ]

  update_current-cases :
      (k : Kernel M) (f : Process → Process)
      → IsValid k
      → (update_current k f ≡ some k)
        ⊎ ((p : Process) × (get_elem? k.processes k.current_index ≡ some p)
            × (update_current k f
                ≡ some (record k { processes = set k.processes k.current_index (f p) })))
  unfolding update_current
  update_current-cases k f v = elim (Bool-cases (length k.processes == 0)) [
    | inl z ↦ inl (rw (z, update_current))
    | inr z ↦
        let (p, at) = get_elem?-some k.processes k.current_index (ground (arith, v.in_bounds)) in
        inr (p, at, rw (z, at, update_current))
  ]

  -- In a valid state the functions that index the process list do not panic, and what they leave is
  -- valid if they keep the pid and the descriptors of the current process.
  pub update_current-IsValid :
      (k : Kernel M) (f : Process → Process)
      → ((p : Process) → (f p).pid ≡ p.pid)
      → ((p : Process) → (f p).fd_table ≡ p.fd_table)
      → IsValid k
      → (k' : Kernel M) × (update_current k f ≡ some k') × IsValid k'
  update_current-IsValid k f pid fds v = elim (update_current-cases k f v) [
    | inl e ↦ (k, e, v)
    | inr (p, at, e) ↦ (_, e, set-IsValid k p (f p) at (pid p) (λ s. rw (fds p) s) v)
  ]

  pub process_input-IsValid :
      (k : Kernel M) (input : ℕ) → IsValid k → IsValid (process_input k input)
  unfolding process_input
  process_input-IsValid k input v = record {
    in_bounds = omega (arith, length-map (receive input) k.processes, v.in_bounds);
    listed = Listed-receive 0 k.pid_counter k.processes input v.listed;
  }

  pub wait-IsValid :
      (k : Kernel M) (subprocess : ℕ) → IsValid k → IsValid (current_wait_for_process k subprocess)
  unfolding current_wait_for_process
  wait-IsValid k subprocess v = elim (Option-cases (get_elem? k.processes k.current_index)) [
    | inl e ↦ rw (e, current_wait_for_process) v
    | inr (p, e) ↦ rw (e, current_wait_for_process) (set-IsValid k p _ e refl (λ s. s) v)
  ]

  with_parent-IsValid :
      (k : Kernel M) (fork_current : Bool) (dir : ℕ) (fds : FdTable)
      → parent_state k fork_current ≡ some (some (dir, fds))
      → IsValid k
      → IsStandard fds
  unfolding parent_state
  with_parent-IsValid k fork_current dir fds e v =
      elim (Bool-cases (fork_current && not (length k.processes == 0))) [
        | inl z ↦ elim (Option-cases (get_elem? k.processes k.current_index)) [
          | inl n ↦ absurd (cc)
          | inr (p, at) ↦
              let same : p.fd_table ≡ fds = ground arith in
              rw same at
                (Listed-IsStandard 0 k.pid_counter k.processes k.current_index p at v.listed)
        ]
        | inr z ↦ absurd (ground arith)
      ]

  counted-IsValid :
      (k : Kernel M) → IsValid k → IsValid (record k { pid_counter = k.pid_counter + 1 })
  counted-IsValid k v = record {
    in_bounds = v.in_bounds;
    listed = rw (counted k.pid_counter) (Listed-grow 0 k.pid_counter k.processes v.listed);
  }

  pushed-IsValid :
      (k : Kernel M) (p : Process)
      → p.pid ≡ k.pid_counter
      → IsStandard p.fd_table
      → IsValid k
      → IsValid (record k { pid_counter = k.pid_counter + 1; processes = k.processes ++ (p ∷ []) })
  pushed-IsValid k p e s v = record {
    in_bounds = omega (arith, length-append k.processes (p ∷ []), v.in_bounds);
    listed = rw (counted k.pid_counter) (Listed-push 0 k.pid_counter k.processes p e s v.listed);
  }

  pub deploy-IsValid :
      (k : Kernel M) (root cs ss : ℕ) (entry : ProcessEntry) (fork_current : Bool)
      → IsValid k
      → IsValid (deploy k root cs ss entry fork_current).1
  unfolding deploy
  deploy-IsValid k root cs ss entry fork_current v =
      elim (Option-cases (parent_state k fork_current)) [
        | inl e ↦ rw (e, deploy) (counted-IsValid k v)
        | inr (none, e) ↦ elim (Option-cases (from_entry entry k.pid_counter root)) [
          | inl n ↦ rw (e, n, deploy) (counted-IsValid k v)
          | inr (p, n) ↦
              let (pid, fds) = from_entry-pid entry k.pid_counter root p n in
              rw (e, n, deploy) (pushed-IsValid k _ pid fds v)
        ]
        | inr (some (dir, fds), e) ↦ elim (Option-cases (from_entry entry k.pid_counter dir)) [
          | inl n ↦ rw (e, n, deploy) (counted-IsValid k v)
          | inr (p, n) ↦
              let (pid, _) = from_entry-pid entry k.pid_counter dir p n in
              rw (e, n, deploy)
                (pushed-IsValid k _ pid (with_parent-IsValid k fork_current dir fds e v) v)
        ]
      ]

module _ {M : Type 0} (ops : MemoryOps M) where
  memory-IsValid : (k : Kernel M) (m : Option M) → IsValid k → IsValid (record k { memory = m })
  memory-IsValid k m v = record { in_bounds = v.in_bounds; listed = v.listed }

  pub schedule-IsValid :
      (k : Kernel M) (stack : Option FullInterruptStackFrame)
      → IsValid k
      → IsValid (schedule ops k stack).1
  unfolding schedule
  schedule-IsValid k stack v =
      let v' = next_process-IsValid k stack v in
      let k' = (next_process k stack).1 in
      elim (Option-cases (next_process k stack).0) [
        | inl a ↦ rw (a, schedule) v'
        | inr (p, a) ↦ elim (Option-cases k'.memory) [
          | inl b ↦ rw (a, b, schedule) v'
          | inr (m, b) ↦ elim (Option-cases p.ring3_page_table) [
            | inl c ↦ rw (a, b, c, schedule) v'
            | inr (table, c) ↦
                let kept = memory-IsValid k' (some (ops.switch_table m table).1) v' in
                elim (Option-cases (ops.switch_table m table).0) [
                  | inl d ↦ rw (a, b, c, d, schedule) kept
                  | inr (old, d) ↦ rw (a, b, c, d, schedule) kept
                ]
          ]
        ]
      ]

  pub exit_current-IsValid : (k : Kernel M) → IsValid k → IsValid (exit_current ops k)
  unfolding exit_current
  exit_current-IsValid k v = elim (Bool-cases (length k.processes == 0)) [
    | inl z ↦ rw (z, exit_current) v
    | inr z ↦
        let (p, at) = get_elem?-some k.processes k.current_index (ground (arith, v.in_bounds)) in
        let inside = get_elem?-lt k.processes k.current_index p at in
        let shorter = length-remove_at k.processes k.current_index inside in
        rw (z, at, exit_current)
          (record {
            in_bounds = ground (arith, shorter, v.in_bounds);
            listed = Listed-remove_at 0 k.pid_counter k.processes k.current_index v.listed;
          })
  ]
