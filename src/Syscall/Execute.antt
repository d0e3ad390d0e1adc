-- ===== src/Syscall/Execute.antt =====
-- The system call of src/syscall/execute.rs, which starts a program with its arguments.
pub mod Starting
use bubble_os.Base.{
  ℕ, ◌+◌, ◌-◌, ◌/◌, Bool, true, false, not, ◌||◌, Option, none, some, List, [], ◌∷◌, ◌++◌, ltb, leb,
  ◌==◌, if◌then◌else◌, ◌>>=◌, ◌>>◌, length,
}
use bubble_os.Path.{Str, DirectoryOps, split, last, str_eq, find_file_from_path}
use bubble_os.Fat.Name.{Unicode, is_empty}
use bubble_os.Sched.Process.{FullInterruptStackFrame, ProcessEntry}
use bubble_os.Sched.Fd.{FileOps}
use bubble_os.Sched.Scheduler.{Kernel}
use bubble_os.Sched.Calls.{deploy, get_current_process_page_table}
use bubble_os.Sched.Calls.Fork.{Forked, deploy_lem}
use bubble_os.Sched.Process.{Process}
use bubble_os.Mem.PageTable.{Machine}
use bubble_os.Sched.Files.{cwd_of}
use bubble_os.Syscall.Paths.{read_user}

-- `ARGS_MAX_BYTES` and `ARGS_MAX_COUNT`
abbrev pub args_max_bytes : ℕ
args_max_bytes = 4096

abbrev pub args_max_count : ℕ
args_max_count = 64

-- `shell.elf`
abbrev pub shell_elf : Str
shell_elf = 115 ∷ 104 ∷ 101 ∷ 108 ∷ 108 ∷ 46 ∷ 101 ∷ 108 ∷ 102 ∷ []

-- `split_ascii_whitespace`: `word` is the word that ends before the rest.
abbrev pub is_ascii_whitespace : ℕ → Bool
is_ascii_whitespace c = c == 32 || c == 9 || c == 10 || c == 12 || c == 13

abbrev pub put_word : Str → List Str → List Str
put_word word words = if is_empty word then words else word ∷ words

unfoldable pub words_from : Str → Str → List Str
words_from word [] = put_word word []
words_from word (c ∷ cs) =
    let rest = words_from [] cs in
    let more = words_from (word ++ (c ∷ [])) cs in
    if is_ascii_whitespace c then put_word word rest else more

unfoldable pub split_ascii_whitespace : Str → List Str
unfolding words_from
split_ascii_whitespace = words_from []

-- `rsplit('/').next() == Some("shell.elf")`
unfoldable pub is_shell : Str → Bool
unfolding split
is_shell path = elim (last (split path)) [ none ↦ false | some name ↦ str_eq name shell_elf ]

-- What follows a check, where it passes.
abbrev pub accepted {ℓ} : {A : Type ℓ} → Bool → Option A → Option A
accepted passes r = if passes then r else none

module _ {M U : Type 0} (memory : Machine U) (unicode : Unicode) where
  -- The arguments: without any, no byte is read.
  unfoldable pub read_args : Kernel M → U → ℕ → ℕ → Option Str
  unfolding read_user
  read_args k u args_addr args_size = do
    args_buffer ← if args_size == 0 then some [] else read_user memory k u args_addr args_size
    unicode.from_utf8 args_buffer

  -- The path and `argv`, which begins with it, where all checks pass.
  unfoldable pub read_command : Kernel M → U → FullInterruptStackFrame → Option (Str × List Str)
  unfolding read_user read_args is_shell split_ascii_whitespace
  read_command k u stack = do
    buffer ← read_user memory k u stack.rdi stack.rsi
    path ← unicode.from_utf8 buffer
    args ←
        accepted (not (is_shell path || ltb args_max_bytes stack.r10))
          (read_args k u stack.rdx stack.r10)
    let argv = path ∷ split_ascii_whitespace args
    accepted (leb (length argv) args_max_count) (some (path, argv))

  -- `elf_load` is `elf::load`, which maps the program into memory; `cs` and `ss` are as for `deploy`.
  unfoldable pub execute :
      {S : Type 0}
      → FileOps S
      → DirectoryOps
      → (Option M → List ℕ → List Str → Option ProcessEntry × Option M)
      → ℕ
      → ℕ
      → ℕ
      → Kernel M
      → U
      → S
      → FullInterruptStackFrame
      → Option ℕ × Kernel M
  unfolding read_command find_file_from_path deploy
  execute files directories elf_load root cs ss k u s stack = elim (read_command k u stack) [
    | none ↦ (some 0, k)
    | some (path, argv) ↦ elim (find_file_from_path directories root (cwd_of k root) path) [
      | none ↦ (some 0, k)
      | some file ↦ elim (files.read s file) [
        | none ↦ (some 0, k)
        | some region ↦
            let (loaded, memory') = elf_load k.memory region argv in
            let k1 = record k { memory = memory' } in
            elim loaded [
              | none ↦ (some 0, k1)
              | some elf_entry ↦
                  let (pid, k2) = deploy k1 root cs ss elf_entry true in (some pid, k2)
            ]
      ]
    ]
  ]
