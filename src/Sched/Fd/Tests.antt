-- ===== src/Sched/Fd/Tests.antt =====
-- The descriptor table over files that are byte lists in memory, and the theorems about it there.
use bubble_os.Base.{
  ℕ, zero, suc, ◌+◌, ◌≡◌, refl, ◌≢◌, ◌⊎◌, true, false, none, some, List, [], ◌∷◌, ◌++◌, arith, leb,
  ◌==◌, if◌then◌else◌, length, get_elem?, take, drop,
}
use bubble_os.Sched.Process.{OpenFile, stdin, stdout, stderr, regular, FdTable, standard_fd_table}
use bubble_os.Sched.Fd.{
  FileOps, first_free, open_file, close_fd, get_fd, read_fd, write_fd, truncate_fd,
}
use bubble_os.Sched.Fd.Open.{Opened, fresh_file, open_file-Opened, close_fd-open_file}
use bubble_os.Sched.Fd.Transfer.{read_fd_lem, read_fd-read_fd}
use bubble_os.Sched.Fd.Update.{Wrote, is_file, write_fd_lem, Truncated, truncate_fd_lem}

abbrev pad : ℕ → List ℕ → List ℕ
pad zero bytes = []
pad (suc n) [] = 0 ∷ pad n []
pad (suc n) (b ∷ bytes) = b ∷ pad n bytes

-- One file, number 7, whose contents are the state.
abbrev memory_file : FileOps (List ℕ)
memory_file = record {
  size = λ s f. length s;
  read = λ s f. if f == 7 then some s else none;
  write = λ s f offset bytes.
      if leb (offset + length bytes) (length s)
      then (some (length bytes), take offset s ++ (bytes ++ drop (offset + length bytes) s))
      else (none, s);
  truncate = λ s f n. (some tt, pad n s);
}

abbrev contents : List ℕ
contents = 10 ∷ 11 ∷ 12 ∷ 13 ∷ 14 ∷ []

abbrev open_at_one : OpenFile
open_at_one = record { file = 7; offset = 1; readable = true; writable = true }

-- Descriptor 3 was closed, 4 is the file.
abbrev table : FdTable
table = some stdin ∷ some stdout ∷ some stderr ∷ none ∷ some (regular open_at_one) ∷ []

open_reuses : (open_file table 7 true false).0 ≡ 3
unfolding open_file first_free
open_reuses = refl

open_appends : (open_file standard_fd_table 7 true false).0 ≡ 3
unfolding open_file first_free standard_fd_table
open_appends = refl

write_extends :
    (write_fd memory_file contents table 4 (1 ∷ 2 ∷ 3 ∷ 4 ∷ 5 ∷ [])).2 ≡ 10 ∷ 1 ∷ 2 ∷ 3 ∷ 4 ∷ 5 ∷ []
unfolding write_fd get_fd
write_extends = refl

open_file-Opened_example :
    let (fd, table') = open_file table 7 true false in
    Opened table (fresh_file 7 true false) fd table'
open_file-Opened_example = open_file-Opened table 7 true false (omega arith)

close_fd-open_file_example :
    let (fd, table') = open_file table 7 true false in
    ((close_fd table' fd).0 ≡ true) × ((j : ℕ) → get_fd (close_fd table' fd).1 j ≡ get_fd table j)
close_fd-open_file_example = close_fd-open_file table 7 true false (omega arith)

read_fd_lem_example :
    let (out, table') = read_fd memory_file contents table 4 3 in
    (out ≡ some (11 ∷ 12 ∷ 13 ∷ []))
    × (get_elem? table' 4 ≡ some (some (regular (record open_at_one { offset = 4 }))))
    × ((j : ℕ) → j ≢ 4 → get_elem? table' j ≡ get_elem? table j)
read_fd_lem_example =
    read_fd_lem memory_file contents table 4 open_at_one 3 contents refl refl refl (omega arith)

read_fd-read_fd_example :
    let (_, table') = read_fd memory_file contents table 4 2 in
    (a : List ℕ) × (b : List ℕ) × ((read_fd memory_file contents table 4 2).0 ≡ some a)
    × ((read_fd memory_file contents table' 4 9).0 ≡ some b)
    × ((read_fd memory_file contents table 4 11).0 ≡ some (a ++ b))
read_fd-read_fd_example =
    read_fd-read_fd memory_file contents table 4 open_at_one 2 9 contents refl refl refl
      (omega arith)

write_fd_lem_example :
    ((o : OpenFile) × (get_fd table 4 ≡ some (regular o))
      × Wrote table 4 o (write_fd memory_file contents table 4 (1 ∷ 2 ∷ [])))
    ⊎ ((is_file (get_fd table 4) ≡ false)
        × (write_fd memory_file contents table 4 (1 ∷ 2 ∷ []) ≡ (none, table, contents)))
write_fd_lem_example = write_fd_lem memory_file contents table 4 (1 ∷ 2 ∷ [])

truncate_fd_lem_example :
    Truncated table 4 open_at_one 0 (truncate_fd memory_file contents table 4 0)
truncate_fd_lem_example = truncate_fd_lem memory_file contents table 4 0 open_at_one refl
