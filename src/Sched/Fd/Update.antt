-- ===== src/Sched/Fd/Update.antt =====
-- Writing and truncating through a descriptor: what the table is afterwards, whatever the file does.
use bubble_os.Base.{
  ℕ, ◌+◌, min, ◌≡◌, refl, ap, ◌∙◌, ◌≢◌, ◌⊎◌, inl, inr, Bool, true, false, Option, none, some, List,
  arith, ltb, if◌then◌else◌, Bool-cases, Option-cases, length, get_elem?, get_elem?-lt,
}
use bubble_os.Sched.Process.{OpenFile, FileDescriptor, stdin, stdout, stderr, regular, FdTable}
use bubble_os.Sched.Fd.{
  FileOps, get_fd, with_offset, write_fd, write_file, write_extended, write_at_offset, truncate_fd,
  truncate_file,
}
use bubble_os.Sched.Fd.Transfer.{with_offset_lem}

-- What a write through the open file `o` may come to.
abbrev pub Wrote : {S : Type 0} → FdTable → ℕ → OpenFile → Option ℕ × FdTable × S → Type 0
Wrote table fd o (out, table', _) =
    ((n : ℕ) × (out ≡ some n)
      × (o.writable ≡ true)
      × (table' ≡ with_offset table fd o (o.offset + n)))
    ⊎ ((out ≡ none) × (table' ≡ table))

module _ {S : Type 0} (ops : FileOps S) (table : FdTable) (fd : ℕ) (bytes : List ℕ)
    (o : OpenFile) where
  write_at_offset-Wrote :
      (s : S) → o.writable ≡ true → Wrote table fd o (write_at_offset ops s table fd bytes o)
  unfolding write_at_offset
  write_at_offset-Wrote s may = elim (Option-cases (ops.write s o.file o.offset bytes).0) [
    | inl e ↦ rw (e, write_at_offset) (inr (refl, refl))
    | inr (n, e) ↦ rw (e, write_at_offset) (inl (n, refl, may, refl))
  ]

  write_extended-Wrote :
      (s : S) (end : ℕ)
      → o.writable ≡ true
      → Wrote table fd o (write_extended ops s table fd bytes o end)
  unfolding write_extended
  write_extended-Wrote s end may = elim (Option-cases (ops.truncate s o.file end).0) [
    | inl e ↦ rw (e, write_extended) (inr (refl, refl))
    | inr (_, e) ↦ rw (e, write_extended) (write_at_offset-Wrote (ops.truncate s o.file end).1 may)
  ]

  write_file-cases :
      (s : S)
      → (write_file ops s table fd bytes o ≡ (none, table, s))
        ⊎ ((o.writable ≡ true)
            × ((write_file ops s table fd bytes o
                  ≡ write_extended ops s table fd bytes o (o.offset + length bytes))
                ⊎ (write_file ops s table fd bytes o ≡ write_at_offset ops s table fd bytes o)))
  unfolding write_file
  write_file-cases s = ground arith

  write_file-Wrote : (s : S) → Wrote table fd o (write_file ops s table fd bytes o)
  write_file-Wrote s = elim (write_file-cases s) [
    | inl e ↦ rw e (inr (refl, refl))
    | inr (may, inl e) ↦ rw e (write_extended-Wrote s (o.offset + length bytes) may)
    | inr (may, inr e) ↦ rw e (write_at_offset-Wrote s may)
  ]

-- Whether the descriptor's entry is a file's.
abbrev pub is_file : Option FileDescriptor → Bool
is_file none = false
is_file (some (regular o)) = true
is_file (some _) = false

pub is_file-cases :
    (d : Option FileDescriptor) → ((o : OpenFile) × (d ≡ some (regular o))) ⊎ (is_file d ≡ false)
is_file-cases none = inr refl
is_file-cases (some (regular o)) = inl (o, refl)
is_file-cases (some stdin) = inr refl
is_file-cases (some stdout) = inr refl
is_file-cases (some stderr) = inr refl

-- Whatever the file does, a write that returns `n` went through a writable descriptor of a file and
-- moved its offset by `n`; one that returns nothing leaves the table as it is, and so does every
-- write through a descriptor of no file, which does not reach the file system either.
pub write_fd_lem :
    {S : Type 0} (ops : FileOps S) (s : S) (table : FdTable) (fd : ℕ) (bytes : List ℕ)
    → ((o : OpenFile) × (get_fd table fd ≡ some (regular o))
        × Wrote table fd o (write_fd ops s table fd bytes))
      ⊎ ((is_file (get_fd table fd) ≡ false) × (write_fd ops s table fd bytes ≡ (none, table, s)))
unfolding write_fd
write_fd_lem ops s table fd bytes = elim (is_file-cases (get_fd table fd)) [
  | inl (o, e) ↦ inl (o, e, rw (e, write_fd) (write_file-Wrote ops table fd bytes o s))
  | inr n ↦ inr (n, ground arith)
]

-- What truncating the open file `o` to `size` may come to: on success its offset is at most `size`.
abbrev pub Truncated :
    {S : Type 0} → FdTable → ℕ → OpenFile → ℕ → Option (Unit {0}) × FdTable × S → Type 0
Truncated table fd o size (out, table', _) =
    ((out ≡ some tt)
      × (o.writable ≡ true)
      × (get_elem? table' fd ≡ some (some (regular (record o { offset = min o.offset size }))))
      × ((j : ℕ) → j ≢ fd → get_elem? table' j ≡ get_elem? table j))
    ⊎ ((out ≡ none) × (table' ≡ table))

module _ {S : Type 0} (ops : FileOps S) (s : S) (table : FdTable) (fd size : ℕ) (o : OpenFile) where
  truncate_file-cases :
      (truncate_file ops s table fd size o ≡ (none, table, s))
      ⊎ (truncate_file ops s table fd size o ≡ (none, table, (ops.truncate s o.file size).1))
      ⊎ ((o.writable ≡ true)
          × (truncate_file ops s table fd size o ≡ (
            some tt,
            (if ltb size o.offset then with_offset table fd o size else table),
            (ops.truncate s o.file size).1,
          )))
  unfolding truncate_file
  truncate_file-cases = ground arith

  clamp_offset :
      get_elem? table fd ≡ some (some (regular o))
      → let table' = if ltb size o.offset then with_offset table fd o size else table in
        (get_elem? table' fd ≡ some (some (regular (record o { offset = min o.offset size }))))
        × ((j : ℕ) → j ≢ fd → get_elem? table' j ≡ get_elem? table j)
  clamp_offset at = elim (Bool-cases (ltb size o.offset)) [
    | inl e ↦
        let w = with_offset_lem table fd o size (get_elem?-lt table fd (some (regular o)) at) in
        let m : size ≡ min o.offset size = ground arith in
        rw e (w.0 ∙ ap (λ k. some (some (regular (record o { offset = k })))) m, w.1)
    | inr e ↦
        let m : o.offset ≡ min o.offset size = ground arith in
        rw e (at ∙ ap (λ k. some (some (regular (record o { offset = k })))) m, λ j n. refl)
  ]

  -- Truncating through a descriptor of a file that succeeds went through a writable descriptor and
  -- leaves its offset within the new size, every other entry as it was; one that fails leaves the
  -- whole table as it was.
  pub truncate_fd_lem :
      get_elem? table fd ≡ some (some (regular o))
      → Truncated table fd o size (truncate_fd ops s table fd size)
  unfolding truncate_fd get_fd
  truncate_fd_lem at =
      rw (at, truncate_fd)
        (elim truncate_file-cases [
          | inl e ↦ rw e (inr (refl, refl))
          | inr (inl e) ↦ rw e (inr (refl, refl))
          | inr (inr (may, e)) ↦ rw e (inl (refl, may, (clamp_offset at).0, (clamp_offset at).1))
        ])
