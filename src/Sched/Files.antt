-- ===== src/Sched/Files.antt =====
-- The functions of src/scheduling/mod.rs that open, create and remove what a path of the current process
-- names.
use bubble_os.Base.{ℕ, Bool, true, false, Option, none, some}
use bubble_os.Path.{Str, DirectoryOps, find_file_from_path, resolve_parent_directory_and_name}
use bubble_os.Sched.Scheduler.{Kernel}
use bubble_os.Sched.Calls.{get_current_cwd, curr_process_open}

-- The trait `Directory` of src/fs/fs.rs over the state `D` of the directories.
pub record DirectoryUpdates (D : Type 0) : Type 0 where
  pub directories : D → DirectoryOps
  pub create_file : D → ℕ → Str → Option ℕ × D
  pub create_directory : D → ℕ → Str → Option (Unit {0}) × D
  pub unlink_file : D → ℕ → Str → Option (Unit {0}) × D
  pub remove_directory : D → ℕ → Str → Option (Unit {0}) × D

-- The working directory, which a path that is not absolute starts from. A current index out of bounds
-- would be a panic there; the system calls have looked up the current process before.
abbrev pub cwd_of : {M : Type 0} → Kernel M → ℕ → ℕ
cwd_of k root = elim (get_current_cwd k root) [ some dir ↦ dir | none ↦ root ]

module _ {M D : Type 0} (updates : DirectoryUpdates D) (root : ℕ) where
  unfoldable pub curr_process_open_file : Kernel M → D → Str → Bool → Bool → Option ℕ × Kernel M
  unfolding find_file_from_path curr_process_open
  curr_process_open_file k d path readable writable =
      elim (find_file_from_path (updates.directories d) root (cwd_of k root) path) [
        | none ↦ (none, k)
        | some file ↦ curr_process_open k file readable writable
      ]

  abbrev pub parent_of : Kernel M → D → Str → Option (ℕ × Str)
  parent_of k d path =
      resolve_parent_directory_and_name (updates.directories d) root (cwd_of k root) path

  unfoldable pub create_file_from_path : Kernel M → D → Str → Option ℕ × D
  create_file_from_path k d path = elim (parent_of k d path) [
    | none ↦ (none, d)
    | some (parent, name) ↦ updates.create_file d parent name
  ]

  unfoldable pub curr_process_create_file :
      Kernel M → D → Str → Bool → Bool → Option ℕ × Kernel M × D
  unfolding create_file_from_path curr_process_open
  curr_process_create_file k d path readable writable =
      let (created, d') = create_file_from_path k d path in
      elim created [
        | none ↦ (none, k, d')
        | some file ↦ let (fd, k') = curr_process_open k file readable writable in (fd, k', d')
      ]

  -- `.is_some()` of what a change of the parent directory returns.
  abbrev pub change_parent : (D → ℕ → Str → Option (Unit {0}) × D) → Kernel M → D → Str → Bool × D
  change_parent change k d path = elim (parent_of k d path) [
    | none ↦ (false, d)
    | some (parent, name) ↦
        let (r, d') = change d parent name in (elim r [ none ↦ false | some _ ↦ true ], d')
  ]

  unfoldable pub curr_process_create_directory : Kernel M → D → Str → Bool × D
  curr_process_create_directory = change_parent updates.create_directory

  unfoldable pub curr_process_unlink_file : Kernel M → D → Str → Bool × D
  curr_process_unlink_file = change_parent updates.unlink_file

  unfoldable pub curr_process_remove_directory : Kernel M → D → Str → Bool × D
  curr_process_remove_directory = change_parent updates.remove_directory
