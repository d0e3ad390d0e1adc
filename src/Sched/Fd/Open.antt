-- ===== src/Sched/Fd/Open.antt =====
-- Opening and closing: which descriptor a file gets, and what the other descriptors see.
use bubble_os.Base.{
  ℕ, zero, suc, ◌+◌, ◌-◌, ◌≤◌, ◌<◌, ◌≡◌, refl, sym, ◌∙◌, ◌≢◌, ◌⊎◌, inl, inr, Bool, true, false,
  ◌||◌, none, some, [], ◌∷◌, ◌++◌, arith, ltb, leb, ◌==◌, ==_iff, Bool-cases, Option-cases, length,
  get_elem?, drop, length-append, get_elem?-drop, get_elem?-set_self, get_elem?-set_ne,
  get_elem?-ge, get_elem?-lt, get_elem?-push_last, get_elem?-push_ne,
}
use bubble_os.Base.{set}
use bubble_os.Sched.Process.{FileDescriptor, regular, FdTable}
use bubble_os.Sched.Fd.{first_free, open_file, close_fd, get_fd}

abbrev pub fresh_file : ℕ → Bool → Bool → FileDescriptor
fresh_file file readable writable =
    regular (record { file = file; offset = 0; readable = readable; writable = writable })

first_free-some :
    (n : ℕ) (t : FdTable) (k : ℕ)
    → first_free n t ≡ some k
    → (i : ℕ) × (k ≡ n + i)
      × (get_elem? t i ≡ some none)
      × ((j : ℕ) → j < i → get_elem? t j ≢ some none)
unfolding first_free
first_free-some n [] k e = absurd (cc)
first_free-some n (none ∷ t) k e = (0, ground arith, refl, λ j l. absurd (omega arith))
first_free-some n (some d ∷ t) k e =
    let (i, eq, here, low) = first_free-some (suc n) t k e in
    (suc i, omega arith, here, λ j l. later i low j l)
  where
    later :
        (i : ℕ)
        → ((j : ℕ) → j < i → get_elem? t j ≢ some none)
        → (j : ℕ) → j < suc i
        → get_elem? (some d ∷ t) j ≢ some none
    later i low zero l = λ q. cc
    later i low (suc j) l = low j (omega arith)

first_free-none :
    (n : ℕ) (t : FdTable) → first_free n t ≡ none → (j : ℕ) → get_elem? t j ≢ some none
unfolding first_free
first_free-none n [] e j = λ q. cc
first_free-none n (none ∷ t) e j = absurd (cc)
first_free-none n (some d ∷ t) e zero = λ q. cc
first_free-none n (some d ∷ t) e (suc j) = first_free-none (suc n) t e j

-- What opening a file did to `table`: `fd` names it in `table'`, its entry was free or is new, no
-- lower entry from 3 on was free, and every other entry is as it was.
pub record Opened (table : FdTable) (d : FileDescriptor) (fd : ℕ) (table' : FdTable) : Type 0 where
  pub not_standard : 3 ≤ fd
  pub opens : get_elem? table' fd ≡ some (some d)
  pub was_free : get_fd table fd ≡ none
  pub lowest : (j : ℕ) → 3 ≤ j → j < fd → get_elem? table j ≢ some none
  pub others : (j : ℕ) → j ≢ fd → get_elem? table' j ≡ get_elem? table j

reuse-Opened :
    (table : FdTable) (d : FileDescriptor) (fd : ℕ)
    → first_free 3 (drop 3 table) ≡ some fd
    → Opened table d fd (set table fd (some d))
unfolding get_fd
reuse-Opened table d fd e =
    let (i, eq, here, low) = first_free-some 3 (drop 3 table) fd e in
    let at : get_elem? table fd ≡ some none = rw eq (sym (get_elem?-drop 3 i table) ∙ here) in
    record {
      not_standard = omega arith;
      opens = get_elem?-set_self table fd (some d) (get_elem?-lt table fd none at);
      was_free = ground arith;
      lowest =
          λ j l u q. low (j - 3) (omega arith) (get_elem?-drop 3 (j - 3) table ∙ rw (shift j l) q);
      others = λ j n. get_elem?-set_ne table fd j (some d) (λ q. n (sym q));
    }
  where
    shift : (j : ℕ) → 3 ≤ j → 3 + (j - 3) ≡ j
    shift j l = omega arith

push-Opened :
    (table : FdTable) (d : FileDescriptor)
    → 3 ≤ length table
    → first_free 3 (drop 3 table) ≡ none
    → Opened table d (length (table ++ (some d ∷ [])) - 1) (table ++ (some d ∷ []))
unfolding get_fd
push-Opened table d h e = rw last (record {
  not_standard = h;
  opens = get_elem?-push_last table (some d);
  was_free = rw (get_elem?-ge table (length table) (omega arith), get_fd);
  lowest = λ j l u q.
      first_free-none 3 (drop 3 table) e (j - 3)
        (get_elem?-drop 3 (j - 3) table ∙ rw (shift j l) q);
  others = λ j n. get_elem?-push_ne table (some d) j n;
})
  where
    last : length (table ++ (some d ∷ [])) - 1 ≡ length table
    last = omega (arith, length-append table (some d ∷ []))

    shift : (j : ℕ) → 3 ≤ j → 3 + (j - 3) ≡ j
    shift j l = omega arith

-- Opening a file in a table with its three standard entries gives it the lowest free descriptor
-- from 3 on, at offset 0 and with the access asked for, and changes no other entry.
pub open_file-Opened :
    (table : FdTable) (file : ℕ) (readable writable : Bool)
    → 3 ≤ length table
    → let (fd, table') = open_file table file readable writable in
      Opened table (fresh_file file readable writable) fd table'
unfolding open_file
open_file-Opened table file readable writable h =
    elim (Option-cases (first_free 3 (drop 3 table))) [
      | inl e ↦ rw (e, open_file) (push-Opened table (fresh_file file readable writable) h e)
      | inr (fd, e) ↦
          rw (e, open_file) (reuse-Opened table (fresh_file file readable writable) fd e)
    ]

-- Closing answers true exactly at a descriptor from 3 on within the table; it then frees that entry
-- and no other. Anywhere else it answers false and changes nothing.
pub close_fd_lem :
    (table : FdTable) (fd : ℕ)
    → let (closed, table') = close_fd table fd in
      ((3 ≤ fd)
        × (fd < length table)
        × (closed ≡ true)
        × (get_fd table' fd ≡ none)
        × ((j : ℕ) → j ≢ fd → get_elem? table' j ≡ get_elem? table j))
      ⊎ (((fd < 3) ⊎ (length table ≤ fd)) × (closed ≡ false) × (table' ≡ table))
unfolding close_fd get_fd
close_fd_lem table fd = elim (Bool-cases (ltb fd 3 || leb (length table) fd)) [
  | inl e ↦ rw (e, close_fd) (inr (ground arith, refl, refl))
  | inr e ↦
      rw (e, close_fd)
        (inl (
          ground arith,
          ground arith,
          refl,
          rw (get_elem?-set_self table fd none (ground arith), get_fd),
          λ j n. get_elem?-set_ne table fd j none (λ q. n (sym q)),
        ))
]

Opened-close :
    (table : FdTable) (d : FileDescriptor) (fd : ℕ) (table' : FdTable)
    → Opened table d fd table'
    → ((close_fd table' fd).0 ≡ true) × ((j : ℕ) → get_fd (close_fd table' fd).1 j ≡ get_fd table j)
unfolding get_fd
Opened-close table d fd table' o = elim (close_fd_lem table' fd) [
  | inl (_, _, closed, gone, others) ↦ (
    closed,
    λ j. elim (Bool-cases (j == fd)) [
      | inl e ↦ rw ((==_iff j fd).0 e) (gone ∙ sym o.was_free)
      | inr e ↦ rw (others j (ground arith), o.others j (ground arith), get_fd)
    ],
  )
  | inr (outside, _, _) ↦
      absurd (ground (arith, o.not_standard, get_elem?-lt table' fd (some d) o.opens))
]

-- In a table with its standard entries, closing the descriptor that opening a file gave answers
-- true, and leaves every descriptor as it was before the file was opened.
pub close_fd-open_file :
    (table : FdTable) (file : ℕ) (readable writable : Bool)
    → 3 ≤ length table
    → let (fd, table') = open_file table file readable writable in
      ((close_fd table' fd).0 ≡ true) × ((j : ℕ) → get_fd (close_fd table' fd).1 j ≡ get_fd table j)
close_fd-open_file table file readable writable h =
    Opened-close table (fresh_file file readable writable) _ _
      (open_file-Opened table file readable writable h)
