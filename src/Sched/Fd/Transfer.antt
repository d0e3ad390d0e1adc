-- ===== src/Sched/Fd/Transfer.antt =====
-- Reading through a descriptor: which bytes are transferred and where the offset goes.
use bubble_os.Base.{
  ℕ, zero, suc, ◌+◌, ◌-◌, ◌≤◌, ◌<◌, min, ◌≡◌, refl, sym, ap, ◌∙◌, ◌≢◌, inl, inr, true, some, List,
  [], ◌++◌, arith, leb, Bool-cases, length, get_elem?, take, drop, get_elem?-set_self,
  get_elem?-set_ne, get_elem?-lt, length-take-le, length-drop, take_of_le, drop_of_le,
  take-append-drop, drop-drop, word_mod,
}
use mathlib.Core.List.{append-nil}
use bubble_os.Sched.Process.{OpenFile, regular, FdTable}
use bubble_os.Sched.Fd.{FileOps, read_end, get_fd, with_offset, read_file, read_fd}

-- The bytes that a read of `size` bytes at `offset` transfers.
abbrev pub chunk : List ℕ → ℕ → ℕ → List ℕ
chunk bytes offset size = take size (drop offset bytes)

read_end_lem :
    (offset size len : ℕ) → len < word_mod → read_end offset size len ≡ min (offset + size) len
read_end_lem offset size len h = ground arith

read_end-chunk :
    (bytes : List ℕ) (offset size : ℕ)
    → length bytes < word_mod
    → offset < length bytes
    → let end = read_end offset size (length bytes) in
      (take (end - offset) (drop offset bytes) ≡ chunk bytes offset size)
      × (end ≡ offset + length (chunk bytes offset size))
read_end-chunk bytes offset size small inside =
    rw (read_end_lem offset size (length bytes) small)
      (elim (Bool-cases (leb (offset + size) (length bytes))) [
        | inl e ↦
            let n : min (offset + size) (length bytes) - offset ≡ size = ground arith in
            (
              ap (λ k. take k (drop offset bytes)) n,
              ground (arith, length-drop offset bytes, length-take-le size (drop offset bytes)),
            )
        | inr e ↦
            let whole =
              take_of_le size (drop offset bytes) (ground (arith, length-drop offset bytes)) in
            (
              take_of_le _ (drop offset bytes) (ground (arith, length-drop offset bytes))
                  ∙ sym whole,
              ground (arith, length-drop offset bytes, ap length whole),
            )
      ])

take-nil : (n : ℕ) → take {A = ℕ} n [] ≡ []
take-nil zero = refl
take-nil (suc n) = refl

pub with_offset_lem :
    (table : FdTable) (fd : ℕ) (o : OpenFile) (offset : ℕ)
    → fd < length table
    → (get_elem? (with_offset table fd o offset) fd
        ≡ some (some (regular (record o { offset = offset }))))
      × ((j : ℕ) → j ≢ fd → get_elem? (with_offset table fd o offset) j ≡ get_elem? table j)
with_offset_lem table fd o offset h =
    (get_elem?-set_self table fd _ h, λ j n. get_elem?-set_ne table fd j _ (λ q. n (sym q)))

module _ {S : Type 0} (ops : FileOps S) (s : S) (table : FdTable) (fd : ℕ) (o : OpenFile) where
  read_fd-file :
      (size : ℕ)
      → get_elem? table fd ≡ some (some (regular o))
      → read_fd ops s table fd size ≡ read_file ops s table fd size o
  unfolding read_fd get_fd
  read_fd-file size at = rw (at, get_fd, read_fd)

  read_file-past :
      (size : ℕ) (bytes : List ℕ)
      → o.readable ≡ true
      → ops.read s o.file ≡ some bytes
      → length bytes ≤ o.offset
      → read_file ops s table fd size o ≡ (some [], table)
  unfolding read_file
  read_file-past size bytes may has h = ground arith

  read_file-inside :
      (size : ℕ) (bytes : List ℕ)
      → o.readable ≡ true
      → ops.read s o.file ≡ some bytes
      → o.offset < length bytes
      → let end = read_end o.offset size (length bytes) in
        read_file ops s table fd size o
        ≡ (some (take (end - o.offset) (drop o.offset bytes)), with_offset table fd o end)
  unfolding read_file
  read_file-inside size bytes may has h = ground arith

  -- Reading `size` bytes through a readable descriptor of a file that holds `bytes`, fewer of them
  -- than a word counts, returns those from its offset on, at most `size` and as far as the file goes, advances its offset by as many,
  -- and leaves every other entry as it is. A sum of offset and size that passes the word size is no
  -- exception.
  pub read_fd_lem :
      (size : ℕ) (bytes : List ℕ)
      → get_elem? table fd ≡ some (some (regular o))
      → o.readable ≡ true
      → ops.read s o.file ≡ some bytes
      → length bytes < word_mod
      → let (out, table') = read_fd ops s table fd size in
        let got = chunk bytes o.offset size in
        (out ≡ some got)
        × (get_elem? table' fd
            ≡ some (some (regular (record o { offset = o.offset + length got }))))
        × ((j : ℕ) → j ≢ fd → get_elem? table' j ≡ get_elem? table j)
  read_fd_lem size bytes at may has small =
      rw (read_fd-file size at) (elim (Bool-cases (leb (length bytes) o.offset)) [
        | inl e ↦
            let nothing : chunk bytes o.offset size ≡ [] =
              ap (take size) (drop_of_le o.offset bytes (ground arith)) ∙ take-nil size in
            let still : o.offset ≡ o.offset + length (chunk bytes o.offset size) =
              omega (arith, ap length nothing) in
            rw (read_file-past size bytes may has (ground arith)) (
              ap some (sym nothing),
              at ∙ ap (λ k. some (some (regular (record o { offset = k })))) still,
              λ j n. refl,
            )
        | inr e ↦
            let r = read_end-chunk bytes o.offset size small (ground arith) in
            let w =
              with_offset_lem table fd o (read_end o.offset size (length bytes))
                (get_elem?-lt table fd (some (regular o)) at) in
            rw (read_file-inside size bytes may has (ground arith)) (
              ap some r.0,
              w.0 ∙ ap (λ k. some (some (regular (record o { offset = k })))) r.1,
              w.1,
            )
      ])

take-add :
    (n m : ℕ) (xs : List ℕ) → take (n + m) xs ≡ take n xs ++ take m (drop (length (take n xs)) xs)
take-add n m xs = elim (Bool-cases (leb n (length xs))) [
  | inl e ↦ rw (length-take-le n xs (ground arith)) (sym (take-append-drop n m xs))
  | inr e ↦
      rw (take_of_le n xs (ground arith), drop_of_le (length xs) xs (omega arith))
        (rw (take-nil m, append-nil) (take_of_le (n + m) xs (ground arith)))
]

chunk-append :
    (bytes : List ℕ) (offset n m : ℕ)
    → chunk bytes offset (n + m)
      ≡ chunk bytes offset n ++ chunk bytes (offset + length (chunk bytes offset n)) m
chunk-append bytes offset n m =
    take-add n m (drop offset bytes)
    ∙ ap (λ k. chunk bytes offset n ++ take m k)
        (drop-drop offset (length (chunk bytes offset n)) bytes)

-- Reading `n` bytes and then `m` through a readable descriptor transfers what one read of `n + m`
-- bytes transfers, in the same order, where the file holds `bytes`
-- throughout, fewer of them than a word counts.
pub read_fd-read_fd :
    {S : Type 0} (ops : FileOps S) (s : S) (table : FdTable) (fd : ℕ) (o : OpenFile) (n m : ℕ)
    (bytes : List ℕ)
    → get_elem? table fd ≡ some (some (regular o))
    → o.readable ≡ true
    → ops.read s o.file ≡ some bytes
    → length bytes < word_mod
    → let (_, table') = read_fd ops s table fd n in
      (a : List ℕ) × (b : List ℕ) × ((read_fd ops s table fd n).0 ≡ some a)
      × ((read_fd ops s table' fd m).0 ≡ some b)
      × ((read_fd ops s table fd (n + m)).0 ≡ some (a ++ b))
read_fd-read_fd ops s table fd o n m bytes at may has small =
    let first = read_fd_lem ops s table fd o n bytes at may has small in
    let got = chunk bytes o.offset n in
    let o' = record o { offset = o.offset + length got } in
    let second =
      read_fd_lem ops s (read_fd ops s table fd n).1 fd o' m bytes first.1 may has small in
    let whole = read_fd_lem ops s table fd o (n + m) bytes at may has small in
    (
      got,
      chunk bytes (o.offset + length got) m,
      first.0,
      second.0,
      whole.0 ∙ ap some (chunk-append bytes o.offset n m),
    )
