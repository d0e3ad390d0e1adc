-- ===== src/Sched/Scheduler/Fair.antt =====
-- A call of `next_process` takes a process that can run, or brings its turn nearer.
use bubble_os.Base.{
  ℕ, ◌≤◌, ◌<◌, ◌≡◌, refl, sym, ◌∙◌, ◌≢◌, ◌⊎◌, inl, inr, true, Option, arith, ◌==◌, ==_iff,
  Bool-cases, length, set, length-set,
}
use mathlib.Core.Bool.{false≢true}
use bubble_os.Sched.Process.{FullInterruptStackFrame}
use bubble_os.Sched.Scheduler.{Kernel, save_interrupted, wake, next_process}
use bubble_os.Sched.Scheduler.Next.{distance, ready_at, ready_at-lt}
use bubble_os.Sched.Scheduler.Pick.{ready_at-set_other, save_interrupted-frame, next_process_lem}

distance-passed :
    (n idx i j : ℕ)
    → idx < n
    → i < n
    → j < n
    → i ≢ j
    → distance n idx i ≤ distance n idx j
    → distance n i j < distance n idx j
distance-passed n idx i j h l m ne d = ground arith

-- One call takes a process that can run or brings its turn nearer, and it can still run.
pub nearer :
    {M : Type 0} (k : Kernel M) (stack : Option FullInterruptStackFrame) (j : ℕ)
    → k.current_index < length k.processes
    → ready_at k.ticks k.processes j ≡ true
    → let k' = (next_process k stack).1 in
      (k'.current_index < length k'.processes)
      × (length k'.processes ≡ length k.processes)
      × ((k'.current_index ≡ j)
          ⊎ ((ready_at k'.ticks k'.processes j ≡ true)
              × (distance (length k.processes) k'.current_index j
                  < distance (length k.processes) k.current_index j)))
nearer k stack j h r = elim (next_process_lem k stack h) [
  | inl (i, p, _, at, ready, least, e) ↦
      let n = length k.processes in
      let ps = save_interrupted k stack in
      let (kept, same_ready) = save_interrupted-frame k stack in
      let length_same : length (set ps i (wake p)) ≡ n = length-set ps i (wake p) ∙ kept in
      let inside : i < n = ready_at-lt k.ticks k.processes i ready in
      rw e (
        omega (arith, length_same, inside),
        length_same,
        elim (Bool-cases (i == j)) [
          | inl q ↦ inl ((==_iff i j).0 q)
          | inr q ↦
              let ne : i ≢ j = ground arith in
              inr (
                ready_at-set_other k.ticks ps i p (wake p) j at refl ne ∙ same_ready j ∙ r,
                distance-passed n k.current_index i j h inside (ready_at-lt k.ticks k.processes j r)
                    ne (least j r),
              )
        ],
      )
  | inr (_, nobody, _) ↦ absurd (false≢true (sym (nobody j) ∙ r))
]
