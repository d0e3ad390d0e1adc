-- ===== src/Syscall/Execute/Starting.antt =====
-- Which commands `execute` of src/syscall/execute.rs takes, and the process that it starts.
use bubble_os.Base.{
  ℕ, ◌+◌, ◌≤◌, ◌≡◌, refl, sym, ap, ◌∙◌, ◌⊎◌, inl, inr, Bool, true, false, not, ◌||◌, Option, none,
  some, List, [], ◌∷◌, ◌++◌, arith, ltb, leb, Option-cases, ◌>>=◌, length, get_elem?,
}
use bubble_os.Path.{Str, DirectoryOps, find_file_from_path}
use bubble_os.Fat.Name.{Unicode}
use bubble_os.Sched.Process.{FullInterruptStackFrame, ProcessEntry}
use bubble_os.Sched.Fd.{FileOps}
use bubble_os.Sched.Scheduler.{Kernel}
use bubble_os.Sched.Calls.{get_current_process_page_table}
use bubble_os.Sched.Calls.Fork.{Forked, deploy_lem}
use bubble_os.Sched.Process.{Process}
use bubble_os.Mem.PageTable.{Machine}
use bubble_os.Sched.Files.{cwd_of}
use bubble_os.Syscall.Paths.{read_user}
use bubble_os.Syscall.Execute.{
  args_max_bytes, args_max_count, split_ascii_whitespace, is_shell, accepted, read_args,
  read_command, execute,
}

accepted-some :
    {A : Type 0}
    → (passes : Bool) (r : Option A) (x : A) → accepted passes r ≡ some x
    → (passes ≡ true) × (r ≡ some x)
accepted-some false r x e = ground arith
accepted-some true r x e = (refl, e)

bind_result :
    {A B : Type 0}
    → (r : Option A) (f : A → Option B) (y : B) → (r >>= f) ≡ some y
    → (x : A) × (r ≡ some x) × (f x ≡ some y)
bind_result none f y e = ground arith
bind_result (some x) f y e = (x, refl, e)

accepted_command :
    (p path args : Str) (argv : List Str) (size : ℕ) (r : Option Str)
    → let argv' = p ∷ split_ascii_whitespace args in
      accepted (not (is_shell p || ltb args_max_bytes size)) r ≡ some args
      → accepted {A = Str × List Str} (leb (length argv') args_max_count) (some (p, argv'))
        ≡ some (path, argv)
      → (is_shell path ≡ false)
        × (size ≤ args_max_bytes)
        × (length argv ≤ args_max_count)
        × (r ≡ some args)
        × (argv ≡ path ∷ split_ascii_whitespace args)
accepted_command p path args argv size r e f =
    let argv' = p ∷ split_ascii_whitespace args in
    let (checked, read) = accepted-some (not (is_shell p || ltb args_max_bytes size)) r args e in
    let (few, same) =
      accepted-some (leb (length argv') args_max_count) (some (p, argv')) (path, argv) f in
    let same_path : path ≡ p = ap (λ r. elim r [ none ↦ path | some q ↦ q.0 ]) (sym same) in
    let same_argv : argv ≡ argv' = ap (λ r. elim r [ none ↦ argv | some q ↦ q.1 ]) (sym same) in
    let not_shell : is_shell p ≡ false = ground (arith, checked) in
    let count : length argv' ≤ args_max_count = ground (arith, few) in
    (
      ap is_shell same_path ∙ not_shell,
      ground (arith, checked),
      rw same_argv count,
      read,
      same_argv ∙ ap (λ q. q ∷ split_ascii_whitespace args) (sym same_path),
    )

module _ {M U : Type 0} (memory : Machine U) (unicode : Unicode) where
  -- A command that is accepted has a path whose part behind the last slash is not `shell.elf`, brings at most 4096 bytes of arguments, and has
  -- its path and at most 63 arguments behind it.
  pub read_command_lem :
      (k : Kernel M) (u : U) (stack : FullInterruptStackFrame) (path : Str) (argv : List Str)
      → read_command memory unicode k u stack ≡ some (path, argv)
      → (is_shell path ≡ false)
        × (stack.r10 ≤ args_max_bytes)
        × (length argv ≤ args_max_count)
        × ((args : Str) × (read_args memory unicode k u stack.rdx stack.r10 ≡ some args)
            × (argv ≡ path ∷ split_ascii_whitespace args))
  unfolding read_command
  read_command_lem k u stack path argv e =
      let args_of : Str → Option Str = λ p.
        accepted (not (is_shell p || ltb args_max_bytes stack.r10))
          (read_args memory unicode k u stack.rdx stack.r10) in
      let command : Str → Str → Option (Str × List Str) = λ p args.
        let argv' = p ∷ split_ascii_whitespace args in
        accepted (leb (length argv') args_max_count) (some (p, argv')) in
      let (buffer, _, e1) =
        bind_result (read_user memory k u stack.rdi stack.rsi)
          (λ b. unicode.from_utf8 b >>= (λ p. args_of p >>= command p)) (path, argv) e in
      let (p, _, e2) =
        bind_result (unicode.from_utf8 buffer) (λ p. args_of p >>= command p) (path, argv) e1 in
      let (args, e3, e4) = bind_result (args_of p) (command p) (path, argv) e2 in
      let (not_shell, size, count, read, same) =
        accepted_command p path args argv stack.r10
          (read_args memory unicode k u stack.rdx stack.r10) e3 e4 in
      (not_shell, size, count, (args, read, same))

  -- A command is read only for a current process.
  read_command_current :
      (k : Kernel M) (u : U) (stack : FullInterruptStackFrame) (command : Str × List Str)
      → read_command memory unicode k u stack ≡ some command
      → (current : Process) × (get_elem? k.processes k.current_index ≡ some current)
  unfolding read_command read_user get_current_process_page_table
  read_command_current k u stack command e =
      elim (Option-cases (get_elem? k.processes k.current_index)) [
        | inr at ↦ at
        | inl n ↦ let gone : read_command memory unicode k u stack ≡ none = rw n refl in absurd (cc)
      ]

  -- The process that `execute` starts, and all that it depends on.
  abbrev pub Started :
      {S : Type 0}
      → FileOps S
      → DirectoryOps
      → (Option M → List ℕ → List Str → Option ProcessEntry × Option M)
      → ℕ
      → Kernel M
      → U
      → S
      → FullInterruptStackFrame
      → Option ℕ × Kernel M
      → Type 0
  Started files directories elf_load root k u s stack (rax, k') =
      (path : Str) × (argv : List Str) × (file : ℕ) × (region : List ℕ) × (entry : ProcessEntry)
      × (current : Process) × (p : Process) × (read_command memory unicode k u stack
          ≡ some (path, argv))
      × (is_shell path ≡ false)
      × (length argv ≤ args_max_count)
      × (find_file_from_path directories root (cwd_of k root) path ≡ some file)
      × (files.read s file ≡ some region)
      × ((elf_load k.memory region argv).0 ≡ some entry)
      × (get_elem? k.processes k.current_index ≡ some current)
      × Forked k current entry p
      × (rax ≡ some k.pid_counter)
      × (k'.processes ≡ k.processes ++ (p ∷ []))
      × (k'.pid_counter ≡ k.pid_counter + 1)

  -- `execute` either puts 0 into rax and leaves the processes as they are, or it adds one process behind
  -- them and puts its pid, which was the next, into rax. Then the path's part behind the last slash is not
  -- `shell.elf`, there are at most 64 arguments with the path, the path names a file that can be read, and
  -- the loader made an entry of it with these arguments; the new process begins there, with the working
  -- directory and the descriptors of the current one.
  pub execute_lem :
      {S : Type 0}
      → (files : FileOps S) (directories : DirectoryOps)
      → (elf_load : Option M → List ℕ → List Str → Option ProcessEntry × Option M)
      → (root cs ss : ℕ) (k : Kernel M) (u : U) (s : S) (stack : FullInterruptStackFrame)
      → let out = execute memory unicode files directories elf_load root cs ss k u s stack in
        ((out.0 ≡ some 0) × (out.1.processes ≡ k.processes))
        ⊎ Started files directories elf_load root k u s stack out
  unfolding execute
  execute_lem files directories elf_load root cs ss k u s stack =
      elim (Option-cases (read_command memory unicode k u stack)) [
        | inl n ↦ inl (rw (execute, n) refl, rw (execute, n) refl)
        | inr ((path, argv), n) ↦
            elim (Option-cases (find_file_from_path directories root (cwd_of k root) path)) [
              | inl m ↦ inl (rw (execute, n, m) refl, rw (execute, n, m) refl)
              | inr (file, m) ↦ elim (Option-cases (files.read s file)) [
                | inl o ↦ inl (rw (execute, n, m, o) refl, rw (execute, n, m, o) refl)
                | inr (region, o) ↦
                    let (not_shell, _, count, _) = read_command_lem k u stack path argv n in
                    let (current, at) = read_command_current k u stack (path, argv) n in
                    let (loaded, memory') = elf_load k.memory region argv in
                    let k1 = record k { memory = memory' } in
                    elim (Option-cases loaded) [
                      | inl l ↦ inl (rw (execute, n, m, o, l) refl, rw (execute, n, m, o, l) refl)
                      | inr (entry, l) ↦ elim (deploy_lem k1 root cs ss entry current at) [
                        | inl (none_started, same) ↦ inl (
                          rw (execute, n, m, o, l) (ap some none_started),
                          rw (execute, n, m, o, l) same,
                        )
                        | inr (p, pid, pushed, counter, forked) ↦ inr (
                          path,
                          argv,
                          file,
                          region,
                          entry,
                          current,
                          p,
                          n,
                          not_shell,
                          count,
                          m,
                          o,
                          l,
                          at,
                          forked,
                          rw (execute, n, m, o, l) (ap some pid),
                          rw (execute, n, m, o, l) pushed,
                          rw (execute, n, m, o, l) counter,
                        )
                      ]
                    ]
              ]
            ]
      ]
