-- ===== src/Syscall/OpeningTests.antt =====
-- A process that opens the file `/a`, whose path is in its memory at 4096, and a path that is not mapped.
use bubble_os.Base.{
  ℕ, zero, suc, ◌+◌, ◌*◌, ◌≤◌, ◌≡◌, refl, ap, ◌⊎◌, true, false, Option, none, some, List, [], ◌∷◌,
  ◌++◌, arith, ◌==◌, if◌then◌else◌, length, get_elem?,
}
use bubble_os.Path.{
  Str, find_file_components, normalize_path_components, add_components, split, add_component,
  find_file, find_item,
}
use bubble_os.Sched.Fd.{open_file, first_free}
use bubble_os.Fat.Name.{Unicode}
use bubble_os.Sched.Process.{
  FullInterruptStackFrame, PageTable, empty_frame, Process, standard_fd_table,
}
use bubble_os.Sched.Scheduler.{Kernel}
use bubble_os.Sched.Calls.{get_current_process_page_table}
use bubble_os.Sched.UserMemory.{copy_from_user, validate_user_pointer, check_entry}
use bubble_os.Mem.PageTable.{
  Machine, walk_range_entries, walk_pages, leaf_entry, next_table_temp, get_frame, flags,
}
use bubble_os.Sched.Process.{from_entry}
use bubble_os.Sched.Calls.{deploy, parent_state}
use bubble_os.Sched.Files.{DirectoryUpdates}
use bubble_os.Syscall.Paths.{read_user, read_user_path, open_path}
use bubble_os.Path.{find_file_from_path}
use bubble_os.Sched.Process.{ProcessEntry}
use bubble_os.Sched.Fd.{FileOps}
use bubble_os.Syscall.Execute.{
  execute, read_command, is_shell, shell_elf, read_args, split_ascii_whitespace, words_from,
}
use bubble_os.Syscall.Execute.Starting.{Started, execute_lem}
use bubble_os.Syscall.Opening.{Opens, open_path_lem}

-- A memory with a byte at every address.
abbrev store_bytes : (ℕ → ℕ) → ℕ → List ℕ → ℕ → ℕ
store_bytes u addr [] x = u x
store_bytes u addr (b ∷ bytes) x = if x == addr then b else store_bytes u (addr + 1) bytes x

abbrev load_bytes : (ℕ → ℕ) → ℕ → ℕ → List ℕ
load_bytes u addr zero = []
load_bytes u addr (suc n) = u addr ∷ load_bytes u (addr + 1) n

-- The state is the bytes. The tables in the frames 1, 2 and 3 lead from the root to each other at index 0; of
-- the lowest, page 1 can be read and page 2 can be written by the process, and no other page is there.
abbrev paged : Machine (ℕ → ℕ)
paged = record {
  entries = λ u table index. if index == 0 then 1 * 4096 + 7 else 0;
  frame_entries = λ u frame index.
      if frame == 3
      then (if index == 1 then 10 * 4096 + 5 else if index == 2 then 11 * 4096 + 7 else 0)
      else if index == 0
      then (frame + 1) * 4096 + 7
      else 0;
  load = λ u table addr size. load_bytes u addr size;
  store = λ u table addr bytes. store_bytes u addr bytes;
}

abbrev user_table : PageTable
user_table = record { addr = 0x9000 }

abbrev path_bytes : ℕ → ℕ
path_bytes = store_bytes (λ x. 0) 4096 (47 ∷ 97 ∷ [])

read_only : validate_user_pointer paged true path_bytes user_table 4096 2 true ≡ false
unfolding validate_user_pointer walk_range_entries walk_pages leaf_entry next_table_temp get_frame
    flags check_entry
read_only = refl

abbrev ascii : Unicode
ascii = record {
  to_uppercase = λ s. s;
  to_lowercase = λ s. s;
  is_whitespace = λ c. c == 32;
  from_utf8 = λ bytes. some bytes;
}

-- The root directory 1 has the file `a`, number 5, and nothing can be created.
abbrev one_file : DirectoryUpdates ℕ
one_file = record {
  directories = λ d. record { list_dir = λ dir. ([], (97 ∷ [], 5) ∷ []) };
  create_file = λ d dir name. (none, d);
  create_directory = λ d dir name. (none, d);
  unlink_file = λ d dir name. (none, d);
  remove_directory = λ d dir name. (none, d);
}

abbrev user_process : Process
user_process = record {
  pid = 4;
  pre_schedule = false;
  blocking = false;
  awaiting_process = none;
  sleep_until_tick = none;
  context = empty_frame;
  start_region = 0;
  curr_working_dir = 1;
  stack = record { top = 0x4000; bottom = 0x2000 };
  ring3_page_table = some user_table;
  fd_table = standard_fd_table;
}

abbrev user_kernel : Kernel ℕ
user_kernel = record {
  current_index = 0;
  processes = user_process ∷ [];
  pid_counter = 5;
  ticks = 0;
  memory = some 1;
}

abbrev at_address : ℕ → FullInterruptStackFrame
at_address addr = record empty_frame { rdi = addr; rsi = 2 }

path_read :
    read_user_path paged ascii user_kernel path_bytes (at_address 4096) ≡ some (47 ∷ 97 ∷ [])
unfolding read_user_path read_user get_current_process_page_table copy_from_user
    validate_user_pointer walk_range_entries walk_pages leaf_entry next_table_temp get_frame flags
    check_entry
path_read = refl

opens_third :
    (open_path paged ascii one_file 1 user_kernel path_bytes 0 (at_address 4096)).0 ≡ some 3
unfolding open_path read_user_path read_user get_current_process_page_table copy_from_user
    validate_user_pointer walk_range_entries walk_pages leaf_entry next_table_temp get_frame flags
    check_entry find_file_components normalize_path_components add_components split add_component
    find_file find_item open_file first_free standard_fd_table
opens_third = refl

standard : (p : Process) → get_elem? user_kernel.processes 0 ≡ some p → 3 ≤ length p.fd_table
unfolding standard_fd_table
standard p e =
    let is_user : 3 ≡ length p.fd_table =
      ap (λ q. elim q [ none ↦ 3 | some r ↦ length r.fd_table ]) e in
    omega (arith, is_user)

open_path_lem_example :
    Opens paged ascii one_file 1 user_kernel 0
      (47 ∷ 97 ∷ [])
      (open_path paged ascii one_file 1 user_kernel path_bytes 0 (at_address 4096))
open_path_lem_example =
    open_path_lem paged ascii one_file 1 user_kernel path_bytes 0 (at_address 4096) (47 ∷ 97 ∷ [])
      path_read standard

-- A file of one byte, and a loader that starts it at 0x400000.
abbrev one_byte : FileOps ℕ
one_byte = record {
  size = λ s f. 1;
  read = λ s f. some (127 ∷ []);
  write = λ s f offset bytes. (none, s);
  truncate = λ s f n. (none, s);
}

abbrev loading : Option ℕ → List ℕ → List Str → Option ProcessEntry × Option ℕ
loading m region argv = (
  some (record {
    entry = 0x400000;
    start_region = 3;
    ring3_page_table = some (record { addr = 0xA000 });
    stack = some (record { top = 0x4000; bottom = 0x2000 });
    initial_rsp = 0x3FF0;
  }),
  m,
)

-- A slash behind the name of the shell hides it from the check.
shell_hidden : is_shell (shell_elf ++ (47 ∷ [])) ≡ false
unfolding is_shell split
shell_hidden = refl

shell_found : normalize_path_components (shell_elf ++ (47 ∷ [])) ≡ shell_elf ∷ []
unfolding normalize_path_components add_components split add_component
shell_found = refl

abbrev executed : Option ℕ × Kernel ℕ
executed =
    execute paged ascii one_byte (one_file.directories 0) loading 1 43 35 user_kernel path_bytes 0
      (at_address 4096)

execute_lem_example :
    ((executed.0 ≡ some 0) × (executed.1.processes ≡ user_kernel.processes))
    ⊎ Started paged ascii one_byte
        (one_file.directories 0)
        loading
        1
        user_kernel
        path_bytes
        0
        (at_address 4096)
        executed
execute_lem_example =
    execute_lem paged ascii one_byte (one_file.directories 0) loading 1 43 35 user_kernel path_bytes
      0 (at_address 4096)

execute_starts : executed.0 ≡ some 5
unfolding execute read_command read_args deploy parent_state from_entry is_shell
    split_ascii_whitespace words_from read_user get_current_process_page_table copy_from_user
    validate_user_pointer walk_range_entries walk_pages leaf_entry next_table_temp get_frame flags
    check_entry find_file_from_path find_file_components normalize_path_components add_components
    split add_component find_file find_item standard_fd_table
execute_starts = refl
