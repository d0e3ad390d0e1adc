-- ===== src/Syscall/Tests.antt =====
-- A process that sleeps for a second and a nanosecond, and another that waits for its turn.
use bubble_os.Base.{
  ℕ, ◌+◌, ◌*◌, ◌<◌, ◌≡◌, refl, true, false, Option, none, some, [], ◌∷◌, arith, ◌>>=◌,
}
use bubble_os.Sched.Process.{empty_frame, Process, standard_fd_table}
use bubble_os.Sched.Scheduler.{
  MemoryOps, Kernel, is_ready, find_ready, next_index, save_interrupted, save_context, next_process,
}
use bubble_os.Sched.Scheduler.Next.{ready_at}
use bubble_os.Sched.Calls.{
  schedule, update_current, sleep_current_until, get_current_process_page_table,
}
use bubble_os.Syscall.{pos, UserMemory, sleep_for, nanosleep}
use bubble_os.Syscall.Sleep.{nanosleep_lem}
use bubble_os.Time.{duration_to_ticks}

abbrev process_at : ℕ → Process
process_at pid = record {
  pid = pid;
  pre_schedule = false;
  blocking = false;
  awaiting_process = none;
  sleep_until_tick = none;
  context = empty_frame;
  start_region = 0;
  curr_working_dir = 0;
  stack = record { top = 0x4000; bottom = 0x2000 };
  ring3_page_table = some (record { addr = 0x9000 });
  fd_table = standard_fd_table;
}

abbrev two : Kernel ℕ
two = record {
  current_index = 0;
  processes = process_at 4 ∷ process_at 5 ∷ [];
  pid_counter = 6;
  ticks = 90;
  memory = some 1;
}

abbrev counting : MemoryOps ℕ
counting = record {
  switch_table = λ m table. (some table, m + 1);
  unmap_regions = λ m region. m + 1;
  free_stack = λ m stack. m + 1;
  free_page_table = λ m table. m + 1;
}

-- A memory that holds the timespec at every address.
abbrev holding : UserMemory (ℕ × ℕ)
holding = record {
  can_process_pointer = λ u table addr size. true;
  copy_timespec_from_user = λ (s, n) table addr. some (pos s, pos n);
  copy_to_user = λ u table addr bytes. (some tt, u);
}

abbrev after : Option (Option ℕ × Kernel ℕ)
after = nanosleep counting holding (1, 1) two empty_frame

other_runs : (after >>= (λ r. some r.1.current_index)) ≡ some 1
unfolding nanosleep get_current_process_page_table duration_to_ticks sleep_for sleep_current_until
    update_current schedule next_process save_interrupted save_context find_ready next_index
    is_ready
other_runs = refl

nanosleep_lem_example :
    (k' : Kernel ℕ) × (nanosleep counting holding (1, 1) two empty_frame ≡ some (none, k'))
    × ((t : ℕ)
        → t * 10000000 < 90 * 10000000 + (1 * 1000000000 + 1)
        → ready_at t k'.processes 0 ≡ false)
nanosleep_lem_example =
    nanosleep_lem counting holding (1, 1) two empty_frame (process_at 4) (record { addr = 0x9000 })
      1 1 refl refl refl (omega arith) (omega arith) (omega arith)
