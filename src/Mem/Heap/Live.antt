-- ===== src/Mem/Heap/Live.antt =====
-- The heap as what its callers see of it: which addresses are given out, and how much at each.
use bubble_os.Base.{
  ℕ, ◌+◌, ◌-◌, ◌≤◌, ◌<◌, ◌≡◌, refl, sym, ap, ◌∙◌, ◌≢◌, ◌⊎◌, inl, inr, true, false, ◌&&◌, Option,
  none, some, List, [], ◌∷◌, arith, ◌==◌, if◌then◌else◌, Bool-cases, Option-cases,
}
use mathlib.Core.Bool.{false≢true}
use bubble_os.Mem.Heap.{Block, allocate_from, merge_right, dealloc_at}
use bubble_os.Mem.Heap.Tiling.{Tiles, Tiles-le, allocate_from-cases, allocate_from-Tiles}

-- The size of the block in use whose header stands at an address.
abbrev pub used_at : List Block → ℕ → Option ℕ
used_at [] x = none
used_at (b ∷ bs) x = if b.address == x && b.used then some b.size else used_at bs x

used_at-head :
    (b : Block) (bs : List Block) (x : ℕ)
    → ((b.address ≡ x) × (b.used ≡ true) × (used_at (b ∷ bs) x ≡ some b.size))
      ⊎ (((b.address ≢ x) ⊎ (b.used ≡ false)) × (used_at (b ∷ bs) x ≡ used_at bs x))
used_at-head b bs x = elim (Bool-cases (b.address == x)) [
  | inl q ↦ elim (Bool-cases b.used) [
    | inl u ↦ inl (ground arith, u, rw (q, u, used_at))
    | inr u ↦ inr (inr u, rw (q, u, used_at))
  ]
  | inr q ↦ inr (inl (ground arith), rw (q, used_at))
]

pub used_at-bounds :
    (lo hi : ℕ) (bs : List Block) (x n : ℕ)
    → Tiles lo hi bs
    → used_at bs x ≡ some n
    → (lo ≤ x) × (x + n ≤ hi)
used_at-bounds lo hi [] x n t e = absurd (cc)
used_at-bounds lo hi (b ∷ bs) x n t e = elim (used_at-head b bs x) [
  | inl (q, u, s) ↦
      let same : b.size ≡ n = ground arith in
      (omega (arith, t.0), omega (arith, t.0, Tiles-le (lo + b.size) hi bs t.3))
  | inr (_, s) ↦
      let (l, r) = used_at-bounds (lo + b.size) hi bs x n t.3 (sym s ∙ e) in (omega arith, r)
]

-- In a chain that tiles the heap, two blocks in use do not overlap.
pub used_at-disjoint :
    (lo hi : ℕ) (bs : List Block) (x y n m : ℕ)
    → Tiles lo hi bs
    → used_at bs x ≡ some n
    → used_at bs y ≡ some m
    → x < y
    → x + n ≤ y
used_at-disjoint lo hi [] x y n m t e f l = absurd (cc)
used_at-disjoint lo hi (b ∷ bs) x y n m t e f l = elim (used_at-head b bs x) [
  | inl (q, u, s) ↦
      let same : b.size ≡ n = ground arith in
      elim (used_at-head b bs y) [
        | inl (q', _, _) ↦ absurd (omega arith)
        | inr (_, s') ↦
            omega (arith, t.0, (used_at-bounds (lo + b.size) hi bs y m t.3 (sym s' ∙ f)).0)
      ]
  | inr (_, s) ↦ elim (used_at-head b bs y) [
    | inl (q', _, _) ↦
        absurd (omega (arith, t.0, t.1, (used_at-bounds (lo + b.size) hi bs x n t.3 (sym s ∙ e)).0))
    | inr (_, s') ↦ used_at-disjoint (lo + b.size) hi bs x y n m t.3 (sym s ∙ e) (sym s' ∙ f) l
  ]
]

-- `bs'` is `bs` with one more block in use, of `size` bytes, where none was: the one given out.
abbrev pub Adds : List Block → ℕ → ℕ × List Block → Type 0
Adds bs size (addr, bs') =
    (x : ℕ) × (addr ≡ x + 32)
    × (used_at bs x ≡ none)
    × (used_at bs' x ≡ some size)
    × ((y : ℕ) → y ≢ x → used_at bs' y ≡ used_at bs y)

used_at-tail :
    (b : Block) (bs bs' : List Block) (y : ℕ)
    → used_at bs' y ≡ used_at bs y
    → used_at (b ∷ bs') y ≡ used_at (b ∷ bs) y
used_at-tail b bs bs' y e = ap (λ r. if b.address == y && b.used then some b.size else r) e

used_at-below :
    (lo hi : ℕ) (bs : List Block) (x : ℕ) → Tiles lo hi bs → x < lo → used_at bs x ≡ none
used_at-below lo hi bs x t l = elim (Option-cases (used_at bs x)) [
  | inl e ↦ e
  | inr (n, e) ↦ absurd (omega (arith, (used_at-bounds lo hi bs x n t e).0))
]

pub used_at-unused :
    (b : Block) (bs : List Block) (x : ℕ) → b.used ≡ false → used_at (b ∷ bs) x ≡ used_at bs x
used_at-unused b bs x u = elim (used_at-head b bs x) [
  | inl (_, used, _) ↦ absurd (false≢true (sym u ∙ used))
  | inr (_, s) ↦ s
]

used_at-ne :
    (b : Block) (bs : List Block) (x : ℕ) → b.address ≢ x → used_at (b ∷ bs) x ≡ used_at bs x
used_at-ne b bs x ne = elim (used_at-head b bs x) [ inl (q, _, _) ↦ absurd (ne q) | inr (_, s) ↦ s ]

used_at_self :
    (b : Block) (bs : List Block) → b.used ≡ true → used_at (b ∷ bs) b.address ≡ some b.size
used_at_self b bs u = elim (used_at-head b bs b.address) [
  | inl (_, _, s) ↦ s
  | inr (inl ne, _) ↦ absurd (ne refl)
  | inr (inr un, _) ↦ absurd (false≢true (sym un ∙ u))
]

pub allocate_from-Adds :
    (lo hi : ℕ) (bs bs' : List Block) (size addr : ℕ)
    → 32 ≤ size
    → Tiles lo hi bs
    → allocate_from bs size ≡ some (addr, bs')
    → Adds bs size (addr, bs')
unfolding allocate_from
allocate_from-Adds lo hi [] bs' size addr h t e = absurd (cc)
allocate_from-Adds lo hi (b ∷ rest) bs' size addr h t e =
    let free = λ (u : b.used ≡ false).
      used_at-unused b rest b.address u
      ∙ used_at-below (lo + b.size) hi rest b.address t.3 (omega (arith, t.0, t.1)) in
    elim (allocate_from-cases b rest size) [
      | inl (u, sz, s) ↦
          let taken : Block = record b { used = true } in
          let same : taken ∷ rest ≡ bs' = ground arith in
          let addr_same : b.address + 32 ≡ addr = ground arith in
          rw (← same, ← addr_same)
            (
              b.address,
              refl,
              free u,
              used_at_self taken rest refl ∙ ap some sz,
              λ y ne. used_at-ne taken rest y (λ q. ne (sym q)) ∙ sym (used_at-unused b rest y u),
            )
      | inr (inl (u, smaller, up, room, s)) ↦
          let taken : Block = record b { used = true; size = size } in
          let remainder : Block = record {
            used = false;
            size = b.size - size;
            address = b.address + size;
          } in
          let same : taken ∷ remainder ∷ rest ≡ bs' = ground arith in
          let addr_same : b.address + 32 ≡ addr = ground arith in
          rw (← same, ← addr_same)
            (
              b.address,
              refl,
              free u,
              used_at_self taken (remainder ∷ rest) refl,
              λ y ne.
                  used_at-ne taken (remainder ∷ rest) y (λ q. ne (sym q))
                  ∙ used_at-unused remainder rest y refl
                  ∙ sym (used_at-unused b rest y u),
            )
      | inr (inr (_, s)) ↦ elim (Option-cases (allocate_from rest size)) [
        | inl n ↦ absurd (ground arith)
        | inr ((addr', rest'), n) ↦
            let same : b ∷ rest' ≡ bs' = ground arith in
            let addr_same : addr' ≡ addr = ground arith in
            let (x, at, none_before, added, others) =
              allocate_from-Adds (lo + b.size) hi rest rest' size addr' h t.3 n in
            let t' = allocate_from-Tiles (lo + b.size) hi rest rest' size addr' h t.3 n in
            let above = (used_at-bounds (lo + b.size) hi rest' x size t' added).0 in
            let ne : b.address ≢ x = omega (arith, above, t.0, t.1) in
            rw (← same, ← addr_same)
              (
                x,
                at,
                used_at-ne b rest x ne ∙ none_before,
                used_at-ne b rest' x ne ∙ added,
                λ y other. used_at-tail b rest rest' y (others y other),
              )
      ]
    ]

merge_right-kept :
    (b next : Block) (rest : List Block)
    → next.used ≡ true
    → merge_right b (next ∷ rest) ≡ b ∷ next ∷ rest
unfolding merge_right
merge_right-kept b next rest n =
    ap (λ u. if u then b ∷ next ∷ rest else record b { size = b.size + next.size } ∷ rest) n

merge_right-merged :
    (b next : Block) (rest : List Block)
    → next.used ≡ false
    → merge_right b (next ∷ rest) ≡ record b { size = b.size + next.size } ∷ rest
unfolding merge_right
merge_right-merged b next rest n =
    ap (λ u. if u then b ∷ next ∷ rest else record b { size = b.size + next.size } ∷ rest) n

used_at-merge_right :
    (b : Block) (rest : List Block) (y : ℕ)
    → b.used ≡ false
    → used_at (merge_right b rest) y ≡ used_at rest y
unfolding merge_right
used_at-merge_right b [] y u = used_at-unused b [] y u
used_at-merge_right b (next ∷ rest) y u = elim (Bool-cases next.used) [
  | inl n ↦
      ap (λ bs. used_at bs y) (merge_right-kept b next rest n) ∙ used_at-unused b (next ∷ rest) y u
  | inr n ↦
      let merged : Block = record b { size = b.size + next.size } in
      ap (λ bs. used_at bs y) (merge_right-merged b next rest n)
      ∙ used_at-unused merged rest y u
      ∙ sym (used_at-unused next rest y n)
]

-- Freeing a block in use finds it, and nothing else is freed or changes its size.
pub dealloc_at-Removes :
    (lo hi : ℕ) (bs : List Block) (x n : ℕ)
    → Tiles lo hi bs
    → used_at bs x ≡ some n
    → (bs' : List Block) × (dealloc_at bs x ≡ some bs')
      × (used_at bs' x ≡ none)
      × ((y : ℕ) → y ≢ x → used_at bs' y ≡ used_at bs y)
unfolding dealloc_at
dealloc_at-Removes lo hi [] x n t e = absurd (cc)
dealloc_at-Removes lo hi (b ∷ rest) x n t e = elim (Bool-cases (b.address == x)) [
  | inl q ↦
      let eq : b.address ≡ x = ground arith in
      let freed : Block = record b { used = false } in
      (
        merge_right freed rest,
        rw (q, dealloc_at),
        used_at-merge_right freed rest x refl
            ∙ used_at-below (lo + b.size) hi rest x t.3 (omega (arith, eq, t.0, t.1)),
        λ y ne.
            used_at-merge_right freed rest y refl
            ∙ sym (used_at-ne b rest y (λ r. ne (sym r ∙ eq))),
      )
  | inr q ↦
      let ne : b.address ≢ x = ground arith in
      let (rest', d, gone, others) =
        dealloc_at-Removes (lo + b.size) hi rest x n t.3 (sym (used_at-ne b rest x ne) ∙ e) in
      (
        b ∷ rest',
        rw (q, d, dealloc_at),
        used_at-ne b rest' x ne ∙ gone,
        λ y other. used_at-tail b rest rest' y (others y other),
      )
]
