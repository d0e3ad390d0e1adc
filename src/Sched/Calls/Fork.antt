-- ===== src/Sched/Calls/Fork.antt =====
-- What `deploy` of src/scheduling/mod.rs makes of an entry for a process that the current one starts.
use bubble_os.Base.{
  ℕ, ◌+◌, ◌≡◌, refl, ◌⊎◌, inl, inr, true, false, none, some, [], ◌∷◌, ◌++◌, arith, ◌==◌,
  Option-cases, length, get_elem?, get_elem?-lt,
}
use bubble_os.Sched.Process.{
  Process, ProcessEntry, Stack, empty_frame, standard_fd_table, from_entry,
}
use bubble_os.Sched.Scheduler.{Kernel}
use bubble_os.Sched.Calls.{parent_state, deploy}

-- A process for the entry, with the next pid, which takes the working directory and the descriptors over.
abbrev pub Forked : {M : Type 0} → Kernel M → Process → ProcessEntry → Process → Type 0
Forked k current entry p =
    (p.pid ≡ k.pid_counter)
    × (p.context.rip ≡ entry.entry)
    × (p.curr_working_dir ≡ current.curr_working_dir)
    × (p.fd_table ≡ current.fd_table)

abbrev made : ProcessEntry → ℕ → ℕ → Stack → Process
made e pid cwd stack = record {
  pid = pid;
  pre_schedule = true;
  blocking = false;
  awaiting_process = none;
  sleep_until_tick = none;
  context = record empty_frame { rip = e.entry; rsp = e.initial_rsp };
  start_region = e.start_region;
  curr_working_dir = cwd;
  stack = stack;
  ring3_page_table = e.ring3_page_table;
  fd_table = standard_fd_table;
}

from_entry-cases :
    (e : ProcessEntry) (pid cwd : ℕ)
    → (from_entry e pid cwd ≡ none)
      ⊎ ((p : Process) × (from_entry e pid cwd ≡ some p)
          × (p.pid ≡ pid)
          × (p.context.rip ≡ e.entry)
          × (p.curr_working_dir ≡ cwd))
unfolding from_entry
from_entry-cases e pid cwd = elim (Option-cases e.stack) [
  | inl n ↦ inl (rw n refl)
  | inr (stack, n) ↦ elim (Option-cases e.ring3_page_table) [
    | inl m ↦ inl (rw (n, m) refl)
    | inr (table, m) ↦ inr (made e pid cwd stack, rw (n, m) refl, refl, refl, refl)
  ]
]

parent_state_current :
    {M : Type 0} (k : Kernel M) (current : Process)
    → get_elem? k.processes k.current_index ≡ some current
    → parent_state k true ≡ some (some (current.curr_working_dir, current.fd_table))
unfolding parent_state
parent_state_current k current e =
    let inside = get_elem?-lt k.processes k.current_index current e in
    let some_process : (length k.processes == 0) ≡ false = ground (arith, inside) in
    rw (some_process, e) refl

-- For an entry without a stack or page table nothing but the counter changes; otherwise one process is added.
pub deploy_lem :
    {M : Type 0} (k : Kernel M) (root cs ss : ℕ) (entry : ProcessEntry) (current : Process)
    → get_elem? k.processes k.current_index ≡ some current
    → let (pid, k') = deploy k root cs ss entry true in
      ((pid ≡ 0) × (k'.processes ≡ k.processes))
      ⊎ ((p : Process) × (pid ≡ k.pid_counter)
          × (k'.processes ≡ k.processes ++ (p ∷ []))
          × (k'.pid_counter ≡ k.pid_counter + 1)
          × Forked k current entry p)
unfolding deploy
deploy_lem k root cs ss entry current e =
    let parent = parent_state_current k current e in
    elim (from_entry-cases entry k.pid_counter current.curr_working_dir) [
      | inl n ↦ inl (rw (deploy, parent, n) refl, rw (deploy, parent, n) refl)
      | inr (p, n, pid, rip, cwd) ↦ inr (
        record p {
          fd_table = current.fd_table;
          context = record (p.context) { cs = cs; ss = ss; rflags = 0x202 };
        },
        rw (deploy, parent, n) refl,
        rw (deploy, parent, n) refl,
        rw (deploy, parent, n) refl,
        (pid, rip, cwd, refl),
      )
    ]
