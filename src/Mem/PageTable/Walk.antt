-- ===== src/Mem/PageTable/Walk.antt =====
-- A walk over a range of addresses passes exactly when each page of the range has an entry that the callback
-- takes.
use bubble_os.Base.{
  ℕ, zero, suc, ◌+◌, ◌-◌, ◌*◌, ◌/◌, ◌≤◌, ◌<◌, ◌≡◌, refl, sym, ap, subst, ◌∙◌, ◌⊎◌, inl, inr, false,
  Option, none, some, arith, ltb, ◌==◌, ==_iff, Bool-cases, Option-cases, word_mod,
}
use bubble_os.Mem.Stacks.{for_address}
use bubble_os.Sched.Process.{PageTable}
use bubble_os.Mem.PageTable.{Machine, leaf_entry, walk_pages, walk_range_entries}

module _ {U : Type 0} (machine : Machine U) (u : U) (table : PageTable)
    (callback : ℕ → ℕ → Option (Unit {0})) where
  -- A page has an entry, and the callback takes it.
  abbrev pub Passes : ℕ → Type 0
  Passes page =
      (entry : ℕ) × (leaf_entry machine u table page ≡ some entry) × (callback page entry ≡ some tt)

  no_entry : (page : ℕ) → leaf_entry machine u table page ≡ none → ¬ Passes page
  no_entry page n (entry, e, c) = absurd (cc)

  refused :
      (page entry : ℕ)
      → leaf_entry machine u table page ≡ some entry
      → callback page entry ≡ none
      → ¬ Passes page
  refused page entry e n (entry', e', c) =
      let same : entry ≡ entry' = ap (λ r. elim r [ none ↦ entry | some x ↦ x ]) (sym e ∙ e') in
      let taken : callback page entry ≡ some tt = ap (callback page) same ∙ c in absurd (cc)

  -- The pages of a row all pass, or one of them does not.
  pub walk_pages_lem :
      (n page : ℕ)
      → ((walk_pages machine n u table page callback ≡ some tt)
          × ((q : ℕ) → page ≤ q → q < page + n → Passes q))
        ⊎ ((walk_pages machine n u table page callback ≡ none)
            × ((q : ℕ) × (page ≤ q) × (q < page + n) × (¬ Passes q)))
  unfolding walk_pages
  walk_pages_lem zero page = inl (refl, λ q h l. absurd (omega arith))
  walk_pages_lem (suc n) page = elim (Option-cases (leaf_entry machine u table page)) [
    | inl e ↦ inr (rw e refl, (page, omega arith, omega arith, no_entry page e))
    | inr (entry, e) ↦ elim (Option-cases (callback page entry)) [
      | inl c ↦ inr (rw (e, c) refl, (page, omega arith, omega arith, refused page entry e c))
      | inr (tt, c) ↦ elim (walk_pages_lem n (page + 1)) [
        | inl (w, all) ↦ inl (
          rw (e, c) w,
          λ q h l. elim (Bool-cases (q == page)) [
            | inl same ↦ subst Passes (sym ((==_iff q page).0 same)) (entry, e, c)
            | inr other ↦ all q (ground arith) (omega arith)
          ],
        )
        | inr (w, (q, h, l, bad)) ↦ inr (rw (e, c) w, (q, omega arith, omega arith, bad))
      ]
    ]
  ]

  -- A walk over a range passes, and then the range does not reach beyond the address space and each page
  -- in it passes; or it does not, and then it reaches beyond or one of its pages does not pass.
  pub walk_range_entries_lem :
      (addr size : ℕ)
      → ((walk_range_entries machine u table addr size callback ≡ some tt)
          × ((size ≡ 0) ⊎ (addr + size ≤ word_mod))
          × ((a : ℕ) → addr ≤ a → a < addr + size → Passes (a / 4096)))
        ⊎ ((walk_range_entries machine u table addr size callback ≡ none)
            × (0 < size)
            × ((word_mod < addr + size)
                ⊎ ((a : ℕ) × (addr ≤ a) × (a < addr + size) × (¬ Passes (a / 4096)))))
  unfolding walk_range_entries
  walk_range_entries_lem addr zero = inl (refl, inl refl, λ a h l. absurd (omega arith))
  walk_range_entries_lem addr (suc n) =
      let some_left : (suc n == 0) ≡ false = ground arith in
      elim (Bool-cases (ltb (addr + (suc n - 1)) word_mod)) [
        | inr big ↦ inr (rw (some_left, big) refl, omega arith, inl (ground arith))
        | inl fits ↦
            let end_addr = addr + (suc n - 1) in
            let first = for_address addr in
            elim (walk_pages_lem (for_address end_addr + 1 - first) first) [
              | inl (w, all) ↦ inl (
                rw (some_left, fits) w,
                inr (ground arith),
                λ a h l. all (a / 4096) (omega arith) (omega arith),
              )
              | inr (w, (q, h, l, bad)) ↦
                  let reached : q * 4096 ≤ end_addr = omega arith in
                  inr (
                    rw (some_left, fits) w,
                    omega arith,
                    inr (elim (Bool-cases (ltb (q * 4096) addr)) [
                      | inl below ↦
                          let same : q ≡ addr / 4096 = ground arith in
                          (addr, omega arith, omega arith, subst (λ p. ¬ Passes p) same bad)
                      | inr above ↦
                          let same : q ≡ q * 4096 / 4096 = omega arith in
                          (q * 4096, ground arith, omega arith, subst (λ p. ¬ Passes p) same bad)
                    ]),
                  )
            ]
      ]
