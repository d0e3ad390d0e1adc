-- ===== src/Syscall/ReadDir.antt =====
-- The system call of src/syscall/read_dir.rs, which lists the working directory into the memory of the
-- process.
use bubble_os.Base.{
  ℕ, zero, suc, ◌-◌, ◌≡◌, refl, ap, true, not, Option, none, some, List, [], ◌∷◌, ◌++◌, map, arith,
  if◌then◌else◌, length, take, checked_mul,
}
use bubble_os.Path.{Str, DirectoryOps}
use bubble_os.Sched.Process.{FullInterruptStackFrame}
use bubble_os.Sched.Scheduler.{Kernel}
use bubble_os.Sched.Calls.{get_current_process_page_table}
use bubble_os.Mem.PageTable.{Machine}
use bubble_os.Sched.UserMemory.{copy_slice_to_user, can_process_pointer}
use bubble_os.Sched.Files.{cwd_of}
use bubble_os.Syscall.Paths.{has_controller, le_bytes}

-- `DIR_ENTRY_NAME_CAPACITY`
abbrev pub dir_entry_name_capacity : ℕ
dir_entry_name_capacity = 256

pub record SyscallDirEntry : Type 0 where
  pub name : List ℕ
  pub attr : ℕ
  pub size : ℕ

-- The bytes of a name in a buffer of zeros.
abbrev pub name_buffer : ℕ → List ℕ → List ℕ
name_buffer zero name = []
name_buffer (suc n) [] = 0 ∷ name_buffer n []
name_buffer (suc n) (b ∷ name) = b ∷ name_buffer n name

-- `size_of::<SyscallDirEntry>()`: three bytes of padding follow `attr`.
abbrev pub dir_entry_size : ℕ
dir_entry_size = 264

-- What the padding holds is not fixed.
abbrev pub dir_entry_bytes : List ℕ → SyscallDirEntry → List ℕ
dir_entry_bytes padding e = e.name ++ (e.attr ∷ take 3 padding) ++ le_bytes 4 e.size

abbrev pub all_bytes : List ℕ → List SyscallDirEntry → List ℕ
all_bytes padding [] = []
all_bytes padding (e ∷ es) = dir_entry_bytes padding e ++ all_bytes padding es

-- `as_bytes` is the encoding of a name in UTF-8.
module _ (as_bytes : Str → List ℕ) where
  unfoldable pub dir_item : ℕ → Str × ℕ → SyscallDirEntry
  dir_item attr (name, _) = record {
    name = name_buffer dir_entry_name_capacity (as_bytes name);
    attr = attr;
    size = 0;
  }

  -- The directories come first, and the files take what room is left.
  unfoldable pub dir_entries : List (Str × ℕ) × List (Str × ℕ) → ℕ → List SyscallDirEntry
  unfolding dir_item
  dir_entries (dirs, files) max_items =
      let directory_entries = take max_items (map (dir_item 16) dirs) in
      let remaining_items = max_items - length directory_entries in
      directory_entries ++ take remaining_items (map (dir_item 0) files)

  -- What is listed is as much of the directories followed by the files as there is room for.
  pub dir_entries-take :
      (items : List (Str × ℕ) × List (Str × ℕ)) (n : ℕ)
      → dir_entries items n ≡ take n (map (dir_item 16) items.0 ++ map (dir_item 0) items.1)
  unfolding dir_entries
  dir_entries-take (dirs, files) n = go (map (dir_item 16) dirs) n
    where
      go :
          (xs : List SyscallDirEntry) (n : ℕ)
          → take n xs ++ take (n - length (take n xs)) (map (dir_item 0) files)
            ≡ take n (xs ++ map (dir_item 0) files)
      go xs zero = refl
      go [] (suc n) =
          let e : suc n - 0 ≡ suc n = omega arith in ap (λ k. take k (map (dir_item 0) files)) e
      go (x ∷ xs) (suc n) =
          let e : suc n - suc (length (take n xs)) ≡ n - length (take n xs) = omega arith in
          rw e (ap (◌∷◌ x) (go xs n))

  unfoldable pub read_dir :
      {M U : Type 0}
      → Machine U
      → DirectoryOps
      → List ℕ
      → ℕ
      → Kernel M
      → U
      → FullInterruptStackFrame
      → Option ℕ × U
  unfolding can_process_pointer copy_slice_to_user dir_entries get_current_process_page_table
  read_dir memory directories padding root k u stack = elim (get_current_process_page_table k) [
    | none ↦ (some 0, u)
    | some page_table ↦ elim (checked_mul stack.rsi dir_entry_size) [
      | none ↦ (some 0, u)
      | some buffer_size ↦
          if not
            (can_process_pointer memory (has_controller k) u page_table stack.rdi buffer_size true)
          then (some 0, u)
          else let entries = dir_entries (directories.list_dir (cwd_of k root)) stack.rsi in
            let (copied, u') =
              copy_slice_to_user memory (has_controller k) u page_table stack.rdi dir_entry_size
                (length entries) (all_bytes padding entries) in
            (elim copied [ none ↦ some 0 | some _ ↦ some (length entries) ], u')
    ]
  ]
