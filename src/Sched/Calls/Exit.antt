-- ===== src/Sched/Calls/Exit.antt =====
-- A process that waits for another runs once that one has exited, and not before.
use bubble_os.Base.{
  ℕ, zero, suc, ◌<◌, ◌≡◌, refl, ap, ◌∙◌, inl, inr, true, false, not, none, some, List, [], ◌∷◌,
  arith, ◌==◌, Bool-cases, length, get_elem?, get_elem?-lt,
}
use bubble_os.Sched.Process.{Process}
use bubble_os.Sched.Scheduler.{MemoryOps, Kernel, has_pid, is_ready}
use bubble_os.Sched.Scheduler.Next.{ready_at, ready_at-eq}
use bubble_os.Sched.Calls.{remove_at, exit_current}
use bubble_os.Sched.Calls.Listed.{Listed, Listed-above}
use bubble_os.Sched.Calls.Invariant.{IsValid}

has_pid-below :
    (lo hi : ℕ) (ps : List Process) (pid : ℕ) → Listed lo hi ps → pid < lo → has_pid pid ps ≡ false
unfolding has_pid
has_pid-below lo hi [] pid l h = refl
has_pid-below lo hi (x ∷ ps) pid l h =
    let ne : (x.pid == pid) ≡ false = ground (arith, l) in
    rw ne (has_pid-below (suc x.pid) hi ps pid l.2 (omega (arith, l.0)))

has_pid-remove_at :
    (lo hi : ℕ) (ps : List Process) (i : ℕ) (p : Process)
    → Listed lo hi ps
    → get_elem? ps i ≡ some p
    → has_pid p.pid (remove_at ps i) ≡ false
unfolding has_pid
has_pid-remove_at lo hi [] i p l e = absurd (cc)
has_pid-remove_at lo hi (x ∷ ps) zero p l e =
    let same : x.pid ≡ p.pid = ground arith in
    has_pid-below (suc x.pid) hi ps p.pid l.2 (omega (arith, same))
has_pid-remove_at lo hi (x ∷ ps) (suc i) p l e =
    let above = (Listed-above (suc x.pid) hi ps i p l.2 e).0 in
    let ne : (x.pid == p.pid) ≡ false = ground (arith, above) in
    rw ne (has_pid-remove_at (suc x.pid) hi ps i p l.2 e)

has_pid_self :
    (ps : List Process) (i : ℕ) (p : Process) → get_elem? ps i ≡ some p → has_pid p.pid ps ≡ true
unfolding has_pid
has_pid_self [] i p e = absurd (cc)
has_pid_self (x ∷ ps) zero p e =
    let same : x.pid ≡ p.pid = ground arith in
    let eq : (x.pid == p.pid) ≡ true = ground arith in rw eq refl
has_pid_self (x ∷ ps) (suc i) p e = elim (Bool-cases (x.pid == p.pid)) [
  | inl eq ↦ rw eq refl
  | inr ne ↦ rw ne (has_pid_self ps i p e)
]

is_ready-waiting :
    (ticks : ℕ) (ps : List Process) (q : Process) (pid : ℕ)
    → q.awaiting_process ≡ some pid
    → q.sleep_until_tick ≡ none
    → is_ready ticks ps q ≡ not (has_pid pid ps)
unfolding is_ready
is_ready-waiting ticks ps q pid a s = rw (s, a, is_ready)

module _ {M : Type 0} (ops : MemoryOps M) where
  exit_current-processes :
      (k : Kernel M) (p : Process)
      → get_elem? k.processes k.current_index ≡ some p
      → (exit_current ops k).processes ≡ remove_at k.processes k.current_index
  unfolding exit_current
  exit_current-processes k p e =
      let inside = get_elem?-lt k.processes k.current_index p e in
      let some_process : (length k.processes == 0) ≡ false = ground (arith, inside) in
      rw (some_process, e, exit_current)

  -- In a valid state, a process that does not sleep and waits for the current process cannot run, at
  -- whatever index it stands; when the current process has exited, it can, wherever it stands then.
  pub exit_current-wakes :
      (k : Kernel M) (p q : Process) (ticks i j : ℕ)
      → IsValid k
      → get_elem? k.processes k.current_index ≡ some p
      → q.awaiting_process ≡ some p.pid
      → q.sleep_until_tick ≡ none
      → get_elem? k.processes i ≡ some q
      → get_elem? (exit_current ops k).processes j ≡ some q
      → (ready_at ticks k.processes i ≡ false)
        × (ready_at ticks (exit_current ops k).processes j ≡ true)
  exit_current-wakes k p q ticks i j v e a s before after =
      let ps = (exit_current ops k).processes in
      let gone : has_pid p.pid ps ≡ false =
        ap (has_pid p.pid) (exit_current-processes k p e)
        ∙ has_pid-remove_at 0 k.pid_counter k.processes k.current_index p v.listed e in
      (
        ready_at-eq ticks k.processes i q before
            ∙ is_ready-waiting ticks k.processes q p.pid a s
            ∙ ap not (has_pid_self k.processes k.current_index p e),
        ready_at-eq ticks ps j q after ∙ is_ready-waiting ticks ps q p.pid a s ∙ ap not gone,
      )
