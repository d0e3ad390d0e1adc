-- ===== src/Sched/Fd/Standard.antt =====
-- The three standard descriptors stay where they are, whatever a process does with its table.
use bubble_os.Base.{
  ℕ, ◌+◌, ◌≡◌, refl, sym, ◌∙◌, ◌≢◌, ◌⊎◌, inl, inr, Bool, false, ◌&&◌, some, List, arith, ltb,
  Bool-cases, Option-cases, length, get_elem?, get_elem?-set_ne, get_elem?-lt,
}
use bubble_os.Sched.Process.{
  OpenFile, FileDescriptor, FdTable, stdin, stdout, stderr, regular, standard_fd_table,
}
use bubble_os.Sched.Fd.{
  FileOps, open_file, close_fd, get_fd, with_offset, read_end, read_file, read_fd, write_fd,
  truncate_fd,
}
use bubble_os.Sched.Fd.Open.{open_file-Opened, close_fd_lem}
use bubble_os.Sched.Fd.Update.{is_file, is_file-cases, write_fd_lem, truncate_fd_lem}

pub record IsStandard (table : FdTable) : Type 0 where
  pub at_0 : get_elem? table 0 ≡ some (some stdin)
  pub at_1 : get_elem? table 1 ≡ some (some stdout)
  pub at_2 : get_elem? table 2 ≡ some (some stderr)

pub standard_fd_table-IsStandard : IsStandard standard_fd_table
unfolding standard_fd_table
standard_fd_table-IsStandard = record { at_0 = refl; at_1 = refl; at_2 = refl }

-- A change at an index other than 0, 1 and 2 keeps them.
keep_others :
    (table table' : FdTable) (fd : ℕ)
    → (0 ≢ fd) × (1 ≢ fd) × (2 ≢ fd)
    → ((j : ℕ) → j ≢ fd → get_elem? table' j ≡ get_elem? table j)
    → IsStandard table
    → IsStandard table'
keep_others table table' fd n same s = record {
  at_0 = same 0 n.0 ∙ s.at_0;
  at_1 = same 1 n.1 ∙ s.at_1;
  at_2 = same 2 n.2 ∙ s.at_2;
}

pub open_file-IsStandard :
    (table : FdTable) (file : ℕ) (readable writable : Bool)
    → IsStandard table
    → IsStandard (open_file table file readable writable).1
open_file-IsStandard table file readable writable s =
    let long = get_elem?-lt table 2 (some stderr) s.at_2 in
    let o = open_file-Opened table file readable writable long in
    keep_others table _ _ (omega (arith, o.not_standard)) o.others s

pub close_fd-IsStandard :
    (table : FdTable) (fd : ℕ) → IsStandard table → IsStandard (close_fd table fd).1
close_fd-IsStandard table fd s = elim (close_fd_lem table fd) [
  | inl (h, _, _, _, others) ↦ keep_others table _ fd (omega (arith, h)) others s
  | inr (_, _, same) ↦ rw same s
]

get_fd-slot :
    (table : FdTable) (fd : ℕ) (d : FileDescriptor)
    → get_elem? table fd ≡ some (some d)
    → get_fd table fd ≡ some d
unfolding get_fd
get_fd-slot table fd d e = rw (e, get_fd)

-- No standard descriptor is a file's.
regular-ne :
    (table : FdTable) (fd : ℕ) (o : OpenFile)
    → get_fd table fd ≡ some (regular o)
    → IsStandard table
    → (0 ≢ fd) × (1 ≢ fd) × (2 ≢ fd)
regular-ne table fd o e s = (
  λ q. differ 0 q stdin (λ r. cc) s.at_0,
  λ q. differ 1 q stdout (λ r. cc) s.at_1,
  λ q. differ 2 q stderr (λ r. cc) s.at_2,
)
  where
    differ :
        (j : ℕ)
        → j ≡ fd
        → (d : FileDescriptor) → d ≢ regular o
        → get_elem? table j ≡ some (some d)
        → ⊥
    differ j q d ne at =
        let here : get_fd table j ≡ some (regular o) = rw q e in
        ne (cc (here, get_fd-slot table j d at))

with_offset-IsStandard :
    (table : FdTable) (fd : ℕ) (o : OpenFile) (offset : ℕ)
    → get_fd table fd ≡ some (regular o)
    → IsStandard table
    → IsStandard (with_offset table fd o offset)
with_offset-IsStandard table fd o offset e s =
    keep_others table _ fd (regular-ne table fd o e s)
      (λ j n. get_elem?-set_ne table fd j _ (λ q. n (sym q))) s

module _ {S : Type 0} (ops : FileOps S) (st : S) (table : FdTable) (fd : ℕ) where
  read_file-frame :
      (size : ℕ) (o : OpenFile)
      → ((read_file ops st table fd size o).1 ≡ table)
        ⊎ ((offset : ℕ) × ((read_file ops st table fd size o).1 ≡ with_offset table fd o offset))
  unfolding read_file
  read_file-frame size o = elim (Option-cases (ops.read st o.file)) [
    | inl e ↦ inl (ground arith)
    | inr (bytes, e) ↦ elim (Bool-cases (o.readable && ltb o.offset (length bytes))) [
      | inl c ↦ inr (read_end o.offset size (length bytes), ground arith)
      | inr c ↦ inl (ground arith)
    ]
  ]

  read_fd-no_file :
      (size : ℕ) → is_file (get_fd table fd) ≡ false → (read_fd ops st table fd size).1 ≡ table
  unfolding read_fd
  read_fd-no_file size n = ground arith

  pub read_fd-IsStandard :
      (size : ℕ) → IsStandard table → IsStandard (read_fd ops st table fd size).1
  unfolding read_fd
  read_fd-IsStandard size s = elim (is_file-cases (get_fd table fd)) [
    | inr n ↦ rw (read_fd-no_file size n) s
    | inl (o, e) ↦
        rw (e, read_fd)
          (elim (read_file-frame size o) [
            | inl same ↦ rw same s
            | inr (offset, same) ↦ rw same (with_offset-IsStandard table fd o offset e s)
          ])
  ]

  pub write_fd-IsStandard :
      (bytes : List ℕ) → IsStandard table → IsStandard (write_fd ops st table fd bytes).1
  write_fd-IsStandard bytes s = elim (write_fd_lem ops st table fd bytes) [
    | inr (_, e) ↦ rw e s
    | inl (o, e, inr (_, same)) ↦ rw same s
    | inl (o, e, inl (n, _, _, same)) ↦
        rw same (with_offset-IsStandard table fd o (o.offset + n) e s)
  ]

  get_fd-regular :
      (o : OpenFile)
      → get_fd table fd ≡ some (regular o)
      → get_elem? table fd ≡ some (some (regular o))
  unfolding get_fd
  get_fd-regular o e = ground arith

  truncate_fd-no_file :
      (size : ℕ) → is_file (get_fd table fd) ≡ false → (truncate_fd ops st table fd size).1 ≡ table
  unfolding truncate_fd
  truncate_fd-no_file size n = ground arith

  pub truncate_fd-IsStandard :
      (size : ℕ) → IsStandard table → IsStandard (truncate_fd ops st table fd size).1
  truncate_fd-IsStandard size s = elim (is_file-cases (get_fd table fd)) [
    | inr n ↦ rw (truncate_fd-no_file size n) s
    | inl (o, e) ↦ elim (truncate_fd_lem ops st table fd size o (get_fd-regular o e)) [
      | inl (_, _, _, others) ↦ keep_others table _ fd (regular-ne table fd o e s) others s
      | inr (_, same) ↦ rw same s
    ]
  ]
