-- ===== src/Sched/Tests.antt =====
-- Three processes, of which the second waits for input, and the theorems about the scheduler there.
use bubble_os.Base.{
  ℕ, ◌+◌, ◌≡◌, refl, Bool, true, false, none, some, [], ◌∷◌, arith, length, get_elem?, contains,
}
use bubble_os.Sched.Process.{empty_frame, Process, standard_fd_table, from_entry, ProcessEntry}
use bubble_os.Sched.Fd.{FileOps}
use bubble_os.Sched.Scheduler.{
  save_context, MemoryOps, Kernel, is_ready, find_ready, next_index, save_interrupted, next_process,
}
use bubble_os.Sched.Scheduler.Next.{ready_at}
use bubble_os.Sched.Scheduler.Pick.{Picks, next_process_lem}
use bubble_os.Sched.Calls.Timer.{timer_isr, prepared, turns, turns_fair}
use bubble_os.Sched.Calls.{tick, process_input, parent_state, deploy, schedule, exit_current}
use bubble_os.Sched.Calls.Invariant.{IsValid}
use bubble_os.Sched.Calls.Exit.{exit_current-wakes}
use bubble_os.Sched.Calls.Steps.{
  Reach, boot, then_step, by_deploy, by_schedule, by_exit, Reach-IsValid,
}

abbrev process_at : ℕ → Bool → Process
process_at pid blocking = record {
  pid = pid;
  pre_schedule = false;
  blocking = blocking;
  awaiting_process = none;
  sleep_until_tick = none;
  context = empty_frame;
  start_region = 0;
  curr_working_dir = 0;
  stack = record { top = 0x4000; bottom = 0x2000 };
  ring3_page_table = some (record { addr = 0x9000 });
  fd_table = standard_fd_table;
}

abbrev three : Kernel ℕ
three = record {
  current_index = 0;
  processes = process_at 4 false ∷ process_at 5 true ∷ process_at 6 false ∷ [];
  pid_counter = 7;
  ticks = 90;
  memory = some 1;
}

-- A memory controller that counts what it is asked.
abbrev counting : MemoryOps ℕ
counting = record {
  switch_table = λ m table. (some table, m + 1);
  unmap_regions = λ m region. m + 1;
  free_stack = λ m stack. m + 1;
  free_page_table = λ m table. m + 1;
}

abbrev no_files : FileOps ℕ
no_files = record {
  size = λ s f. 0;
  read = λ s f. none;
  write = λ s f offset bytes. (none, s);
  truncate = λ s f n. (none, s);
}

abbrev entry : ProcessEntry
entry = record {
  entry = 0x400000;
  start_region = 3;
  ring3_page_table = some (record { addr = 0x9000 });
  stack = some (record { top = 0x4000; bottom = 0x2000 });
  initial_rsp = 0x3FF0;
}

abbrev start : Kernel ℕ
start = record { current_index = 0; processes = []; pid_counter = 0; ticks = 0; memory = some 1 }

abbrev one_deployed : Kernel ℕ
one_deployed = (deploy start 0 8 16 entry false).1

abbrev two_deployed : Kernel ℕ
two_deployed = (deploy one_deployed 0 8 16 entry true).1

abbrev running : Kernel ℕ
running = (schedule counting two_deployed none).1

abbrev exited : Kernel ℕ
exited = exit_current counting running

-- The second interrupt brings a character, which wakes the process that waits for it.
input_wakes :
    turns counting three ((none, empty_frame) ∷ (some 65, empty_frame) ∷ (none, empty_frame) ∷ [])
    ≡ 2 ∷ 0 ∷ 1 ∷ []
unfolding timer_isr prepared schedule process_input tick next_process save_interrupted find_ready
    next_index is_ready save_context
input_wakes = refl

next_process_lem_example :
    Picks three (save_interrupted three (some empty_frame)) (next_process three (some empty_frame))
next_process_lem_example = next_process_lem three (some empty_frame) (omega arith)

two_ready : ready_at 90 three.processes 2 ≡ true
unfolding is_ready
two_ready = refl

turns_fair_example :
    contains
      (turns counting three
        ((none, empty_frame) ∷ (some 65, empty_frame) ∷ (none, empty_frame) ∷ []))
      2
    ≡ true
turns_fair_example =
    turns_fair counting three
      ((none, empty_frame) ∷ (some 65, empty_frame) ∷ (none, empty_frame) ∷ []) 2 (omega arith)
      (omega arith) two_ready (omega arith)

exited-Reach : Reach counting no_files exited
exited-Reach =
    then_step running exited
      (then_step two_deployed running
        (then_step one_deployed two_deployed
          (then_step start one_deployed (boot (some 1)) (by_deploy start 0 8 16 entry false))
          (by_deploy one_deployed 0 8 16 entry true))
        (by_schedule two_deployed none))
      (by_exit running)

one_left : length exited.processes ≡ 1
unfolding exit_current schedule next_process save_interrupted find_ready next_index is_ready deploy
    from_entry parent_state
one_left = refl

Reach-IsValid_example : IsValid exited
Reach-IsValid_example = Reach-IsValid counting no_files exited exited-Reach

-- The third process waits for the first, which is the current one.
abbrev waiter : Process
waiter = record (process_at 6 false) { awaiting_process = some 4 }

abbrev waiting : Kernel ℕ
waiting = record three { processes = process_at 4 false ∷ process_at 5 true ∷ waiter ∷ [] }

waiting-IsValid : IsValid waiting
unfolding standard_fd_table
waiting-IsValid = record {
  in_bounds = omega arith;
  listed = (
    omega arith,
    record { at_0 = refl; at_1 = refl; at_2 = refl },
    (
      omega arith,
      record { at_0 = refl; at_1 = refl; at_2 = refl },
      (omega arith, record { at_0 = refl; at_1 = refl; at_2 = refl }, omega arith),
    ),
  );
}

waiter_left : get_elem? (exit_current counting waiting).processes 1 ≡ some waiter
unfolding exit_current
waiter_left = refl

exit_current-wakes_example :
    (ready_at 90 waiting.processes 2 ≡ false)
    × (ready_at 90 (exit_current counting waiting).processes 1 ≡ true)
exit_current-wakes_example =
    exit_current-wakes counting waiting (process_at 4 false) waiter 90 2 1 waiting-IsValid refl refl
      refl refl waiter_left
