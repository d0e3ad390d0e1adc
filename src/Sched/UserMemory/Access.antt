-- ===== src/Sched/UserMemory/Access.antt =====
-- Which ranges of addresses `validate_user_pointer` of src/scheduling/process.rs lets a process use.
use bubble_os.Base.{
  ℕ, ◌+◌, ◌/◌, ◌%◌, ◌≤◌, ◌<◌, ◌≡◌, refl, ◌↔◌, ◌⊎◌, inl, inr, Bool, true, false, none, some, arith,
  word_mod,
}
use bubble_os.Mem.PageTable.{Machine, flags, leaf_entry}
use bubble_os.Mem.PageTable.Walk.{Passes, walk_range_entries_lem}
use bubble_os.Sched.Process.{PageTable}
use bubble_os.Sched.UserMemory.{check_entry, validate_user_pointer, copy_from_user}

-- The page tables have an entry for the page with the bits for present and for ring 3, and with the one for
-- writing where that is asked for.
abbrev pub MayAccess : {U : Type 0} → Machine U → U → PageTable → Bool → ℕ → Type 0
MayAccess machine u table writable page =
    (entry : ℕ) × (leaf_entry machine u table page ≡ some entry)
    × (entry % 2 ≡ 1)
    × (entry / 4 % 2 ≡ 1)
    × ((writable ≡ false) ⊎ (entry / 2 % 2 ≡ 1))

check_entry_iff :
    (writable : Bool) (page entry : ℕ)
    → (check_entry writable page entry ≡ some tt)
      ↔ ((entry % 2 ≡ 1) × (entry / 4 % 2 ≡ 1) × ((writable ≡ false) ⊎ (entry / 2 % 2 ≡ 1)))
unfolding check_entry flags
check_entry_iff writable page entry = ground arith

module _ {U : Type 0} (machine : Machine U) where
  pub validate_user_pointer_lem :
      (u : U) (table : PageTable) (addr size : ℕ) (writable : Bool)
      → ((validate_user_pointer machine true u table addr size writable ≡ true)
          × ((size ≡ 0) ⊎ (addr + size ≤ word_mod))
          × ((a : ℕ) → addr ≤ a → a < addr + size → MayAccess machine u table writable (a / 4096)))
        ⊎ ((validate_user_pointer machine true u table addr size writable ≡ false)
            × (0 < size)
            × ((word_mod < addr + size)
                ⊎ ((a : ℕ) × (addr ≤ a)
                    × (a < addr + size)
                    × (¬ MayAccess machine u table writable (a / 4096)))))
  unfolding validate_user_pointer
  validate_user_pointer_lem u table addr size writable =
      let check = check_entry writable in
      let may : (page : ℕ)
          → Passes machine u table check page
          → MayAccess machine u table writable page =
        λ page (entry, e, c).
          let (b0, b2, b1) = (check_entry_iff writable page entry).0 c in (entry, e, b0, b2, b1) in
      let passes : (page : ℕ)
          → MayAccess machine u table writable page
          → Passes machine u table check page =
        λ page (entry, e, b0, b2, b1).
          (entry, e, (check_entry_iff writable page entry).1 (b0, b2, b1)) in
      elim (walk_range_entries_lem machine u table check addr size) [
        | inl (w, fits, all) ↦ inl (rw w refl, fits, λ a h l. may (a / 4096) (all a h l))
        | inr (w, some_size, inl beyond) ↦ inr (rw w refl, some_size, inl beyond)
        | inr (w, some_size, inr (a, h, l, bad)) ↦
            inr (rw w refl, some_size, inr (a, h, l, λ m. bad (passes (a / 4096) m)))
      ]

  -- Nothing is copied from a range with an address that the process may not access.
  pub copy_from_user_refuses :
      (controller : Bool) (u : U) (table : PageTable) (addr size a : ℕ)
      → addr ≤ a
      → a < addr + size
      → ¬ MayAccess machine u table false (a / 4096)
      → copy_from_user machine controller u table addr size ≡ none
  unfolding copy_from_user validate_user_pointer
  copy_from_user_refuses false u table addr size a h l bad = refl
  copy_from_user_refuses true u table addr size a h l bad =
      elim (validate_user_pointer_lem u table addr size false) [
        | inl (_, _, all) ↦ absurd (bad (all a h l))
        | inr (v, _, _) ↦ rw (copy_from_user, v) refl
      ]
