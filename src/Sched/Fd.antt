-- ===== src/Sched/Fd.antt =====
-- The descriptor table of a process: the methods of src/scheduling/process.rs that open, close, read,
-- write and truncate a descriptor, over the interface of src/fs/fs.rs to an open file.
pub mod Open
pub mod Transfer
pub mod Update
pub mod Standard
mod Tests
use bubble_os.Base.{
  ℕ, suc, ◌+◌, ◌-◌, ◌/◌, min, Bool, true, false, not, ◌||◌, Option, none, some, List, [], ◌∷◌, ◌++◌,
  ltb, leb, if◌then◌else◌, ◌>>=◌, ◌>>◌, length, get_elem?, take, drop, checked_add,
}
use bubble_os.Base.{set}
use bubble_os.Sched.Process.{OpenFile, FileDescriptor, regular, FdTable}

-- The trait `File` of src/fs/fs.rs over the state `S` of the file system; a number names the shared file.
pub record FileOps (S : Type 0) : Type 0 where
  pub size : S → ℕ → ℕ
  pub read : S → ℕ → Option (List ℕ)
  pub write : S → ℕ → ℕ → List ℕ → Option ℕ × S
  pub truncate : S → ℕ → ℕ → Option (Unit {0}) × S

-- `for fd in 3..self.fd_table.len()`: the first free entry, the list being the table from `fd` on.
unfoldable pub first_free : ℕ → FdTable → Option ℕ
first_free fd [] = none
first_free fd (none ∷ t) = some fd
first_free fd (some _ ∷ t) = first_free (suc fd) t

unfoldable pub open_file : FdTable → ℕ → Bool → Bool → ℕ × FdTable
open_file table file readable writable =
    let descriptor : Option FileDescriptor =
      some
        (regular (record { file = file; offset = 0; readable = readable; writable = writable })) in
    elim (first_free 3 (drop 3 table)) [
      | some fd ↦ (fd, set table fd descriptor)
      | none ↦ let table' = table ++ (descriptor ∷ []) in (length table' - 1, table')
    ]

unfoldable pub close_fd : FdTable → ℕ → Bool × FdTable
close_fd table fd =
    if ltb fd 3 || leb (length table) fd then (false, table) else (true, set table fd none)

unfoldable pub get_fd : FdTable → ℕ → Option FileDescriptor
get_fd table fd = do slot ← get_elem? table fd; slot

abbrev pub with_offset : FdTable → ℕ → OpenFile → ℕ → FdTable
with_offset table fd o offset = set table fd (some (regular (record o { offset = offset })))

-- `min(offset.checked_add(size).unwrap_or(len), len)`
abbrev pub read_end : ℕ → ℕ → ℕ → ℕ
read_end offset size len = min (elim (checked_add offset size) [ some e ↦ e | none ↦ len ]) len

module _ {S : Type 0} (ops : FileOps S) where
  read_file : S → FdTable → ℕ → ℕ → OpenFile → Option (List ℕ) × FdTable
  read_file s table fd size o = if not o.readable then (none, table) else elim (ops.read s o.file) [
    | none ↦ (none, table)
    | some bytes ↦
        if leb (length bytes) o.offset
        then (some [], table)
        else (let end = read_end o.offset size (length bytes) in
            (some (take (end - o.offset) (drop o.offset bytes)), with_offset table fd o end))
  ]

  unfoldable pub read_fd : S → FdTable → ℕ → ℕ → Option (List ℕ) × FdTable
  unfolding read_file
  read_fd s table fd size = elim (get_fd table fd) [
    | none ↦ (none, table)
    | some d ↦ elim d [ regular o ↦ read_file s table fd size o | _ ↦ (none, table) ]
  ]

  -- The write itself, once the file is long enough. An offset that passes 2 ^ 64 would be a panic of the
  -- debug build, and is left to grow here; a file that writes no more than it was given keeps below.
  write_at_offset : S → FdTable → ℕ → List ℕ → OpenFile → Option ℕ × FdTable × S
  write_at_offset s table fd bytes o =
      let (r, s') = ops.write s o.file o.offset bytes in
      elim r [
        | none ↦ (none, table, s')
        | some written ↦ (some written, with_offset table fd o (o.offset + written), s')
      ]

  -- `file.truncate(write_end)?`, then the write.
  write_extended : S → FdTable → ℕ → List ℕ → OpenFile → ℕ → Option ℕ × FdTable × S
  write_extended s table fd bytes o write_end =
      let (r, s') = ops.truncate s o.file write_end in
      elim r [ none ↦ (none, table, s') | some _ ↦ write_at_offset s' table fd bytes o ]

  write_file : S → FdTable → ℕ → List ℕ → OpenFile → Option ℕ × FdTable × S
  unfolding write_extended write_at_offset
  write_file s table fd bytes o =
      if not o.writable then (none, table, s) else elim (checked_add o.offset (length bytes)) [
        | none ↦ (none, table, s)
        | some write_end ↦
            if ltb (ops.size s o.file) write_end
            then write_extended s table fd bytes o write_end
            else write_at_offset s table fd bytes o
      ]

  unfoldable pub write_fd : S → FdTable → ℕ → List ℕ → Option ℕ × FdTable × S
  unfolding write_file
  write_fd s table fd bytes = elim (get_fd table fd) [
    | none ↦ (none, table, s)
    | some d ↦ elim d [ regular o ↦ write_file s table fd bytes o | _ ↦ (none, table, s) ]
  ]

  truncate_file : S → FdTable → ℕ → ℕ → OpenFile → Option (Unit {0}) × FdTable × S
  truncate_file s table fd size o =
      if not o.writable
      then (none, table, s)
      else let (r, s') = ops.truncate s o.file size in
        elim r [
          | none ↦ (none, table, s')
          | some _ ↦
              (some tt, (if ltb size o.offset then with_offset table fd o size else table), s')
        ]

  unfoldable pub truncate_fd : S → FdTable → ℕ → ℕ → Option (Unit {0}) × FdTable × S
  unfolding truncate_file
  truncate_fd s table fd size = elim (get_fd table fd) [
    | none ↦ (none, table, s)
    | some d ↦ elim d [ regular o ↦ truncate_file s table fd size o | _ ↦ (none, table, s) ]
  ]
