-- ===== src/Syscall/Opening.antt =====
-- What the calls of src/syscall with a path do: refuse a path that cannot be read, and open a file.
use bubble_os.Base.{
  ℕ, ◌≤◌, ◌≡◌, ap, ◌∙◌, ◌⊎◌, inl, inr, true, Option, none, some, List, Option-cases, ◌>>=◌, length,
  get_elem?,
}
use bubble_os.Path.{Str, find_file_from_path}
use bubble_os.Fat.Name.{Unicode}
use bubble_os.Sched.Process.{FileDescriptor, FullInterruptStackFrame, Process}
use bubble_os.Sched.Fd.{open_file}
use bubble_os.Sched.Fd.Open.{Opened, fresh_file, open_file-Opened}
use bubble_os.Sched.Scheduler.{Kernel}
use bubble_os.Sched.Calls.{curr_process_open, with_fd_table}
use bubble_os.Mem.PageTable.{Machine}
use bubble_os.Sched.Process.{PageTable}
use bubble_os.Sched.Files.{DirectoryUpdates, cwd_of, curr_process_open_file}
use bubble_os.Syscall.Paths.{read_user_path, open_path}

module _ {M U D : Type 0} (memory : Machine U) (unicode : Unicode) (updates : DirectoryUpdates D)
    (root : ℕ) where
  -- What `open_path` does for a path that can be read.
  abbrev pub Opens : Kernel M → D → Str → Option ℕ × Kernel M → Type 0
  Opens k d path out =
      (out ≡ (some 0, k))
      ⊎ ((file : ℕ) × (p : Process) × (fd : ℕ) × (table : List (Option FileDescriptor))
          × (find_file_from_path (updates.directories d) root (cwd_of k root) path ≡ some file)
          × (get_elem? k.processes k.current_index ≡ some p)
          × Opened p.fd_table (fresh_file file true true) fd table
          × (out ≡ (some fd, with_fd_table k p table)))

  -- The end of the call, and its end once there is a file.
  abbrev opened : Option ℕ × Kernel M → Option ℕ × Kernel M
  opened (fd, k') = (elim fd [ some n ↦ some n | none ↦ some 0 ], k')

  abbrev opened_in : Kernel M → ℕ → Option Process → Option ℕ × Kernel M
  opened_in k file r = opened (elim r [
    | none ↦ (none, k)
    | some p ↦
        let (fd, table) = open_file p.fd_table file true true in (some fd, with_fd_table k p table)
  ])

  -- For a path that can be read, and where the current process has its three standard descriptors,
  -- `open` either puts 0 into rax and changes nothing, or the path names a file, and the call puts the
  -- lowest free descriptor from 3 on into rax, which the process then has for that file at offset 0, to
  -- read and to write, beside the descriptors that it had.
  pub open_path_lem :
      (k : Kernel M) (u : U) (d : D) (stack : FullInterruptStackFrame) (path : Str)
      → read_user_path memory unicode k u stack ≡ some path
      → ((p : Process) → get_elem? k.processes k.current_index ≡ some p → 3 ≤ length p.fd_table)
      → Opens k d path (open_path memory unicode updates root k u d stack)
  unfolding open_path curr_process_open_file curr_process_open
  open_path_lem k u d stack path e standard =
      let found = find_file_from_path (updates.directories d) root (cwd_of k root) path in
      let current = get_elem? k.processes k.current_index in
      let from : Option ℕ → Option ℕ × Kernel M = λ r.
        opened (elim r [ none ↦ (none, k) | some file ↦ curr_process_open k file true true ]) in
      let start : open_path memory unicode updates root k u d stack ≡ from found =
        ap
          (λ r. elim r [
            | none ↦ (some 0, k)
            | some path ↦ opened (curr_process_open_file updates root k d path true true)
          ])
          e in
      elim (Option-cases found) [
        | inl n ↦ inl (start ∙ ap from n)
        | inr (file, n) ↦ elim (Option-cases current) [
          | inl m ↦ inl (start ∙ ap from n ∙ ap (opened_in k file) m)
          | inr (p, m) ↦
              let (fd, table) = open_file p.fd_table file true true in
              inr (
                file,
                p,
                fd,
                table,
                n,
                m,
                open_file-Opened p.fd_table file true true (standard p m),
                start ∙ ap from n ∙ ap (opened_in k file) m,
              )
        ]
      ]
