-- ===== src/Mem/Heap/Tiling.antt =====
-- The blocks of the chain lie end to end from the start of the heap to its end.
use bubble_os.Base.{
  ℕ, ◌+◌, ◌-◌, ◌%◌, ◌≤◌, ◌<◌, ◌≡◌, refl, sym, ap, subst, ◌≢◌, ◌⊎◌, inl, inr, Bool, true, false, not,
  ◌&&◌, ◌||◌, none, some, List, [], ◌∷◌, arith, ltb, leb, ◌==◌, Bool-cases, Option-cases, ◌>>=◌,
}
use bubble_os.Mem.Heap.{
  Block, create_block, align_up, align_down, allocate_from, merge_right, dealloc_at,
}

-- From `lo` to `hi`, each block large enough for its header and aligned for it.
abbrev pub Tiles : ℕ → ℕ → List Block → Type 0
Tiles lo hi [] = lo ≡ hi
Tiles lo hi (b ∷ bs) =
    (b.address ≡ lo) × (32 ≤ b.size) × (b.address % 8 ≡ 0) × Tiles (lo + b.size) hi bs

pub Tiles-le : (lo hi : ℕ) (bs : List Block) → Tiles lo hi bs → lo ≤ hi
Tiles-le lo hi [] t = omega arith
Tiles-le lo hi (b ∷ bs) t = omega (arith, Tiles-le (lo + b.size) hi bs t.3)

pub create_block-cases :
    (addr size : ℕ)
    → ((create_block addr size ≡ none) × ((addr % 8 ≢ 0) ⊎ (size < 32)))
      ⊎ ((create_block addr size ≡ some (record { used = false; size = size; address = addr }))
          × (addr % 8 ≡ 0)
          × (32 ≤ size))
unfolding create_block align_up align_down
create_block-cases addr size =
    let up = addr + 8 - 1 - (addr + 8 - 1) % 8 in
    elim (Bool-cases (not (up == addr) || not (leb 32 size))) [
      | inl e ↦ inl (
        rw (e, create_block),
        elim (Bool-cases (leb 32 size)) [
          | inl l ↦ let ne : up ≢ addr = ground arith in inl (omega (arith, ne))
          | inr l ↦ inr (ground arith)
        ],
      )
      | inr e ↦
          let eq : up ≡ addr = ground arith in
          inr (rw (e, create_block), omega (arith, eq), ground arith)
    ]

passed_by :
    (used : Bool) (s n : ℕ)
    → (not used && s == n) ≡ false
    → (not used && ltb n s) ≡ false
    → (used ≡ true) ⊎ (s < n)
passed_by true s n e f = inl refl
passed_by false s n e f = inr (ground arith)

-- What the walk does at the first block: it takes the block whole, splits it, or passes it by.
pub allocate_from-cases :
    (b : Block) (rest : List Block) (size : ℕ)
    → ((b.used ≡ false)
        × (b.size ≡ size)
        × (allocate_from (b ∷ rest) size ≡ some (b.address + 32, record b { used = true } ∷ rest)))
      ⊎ (((b.used ≡ false)
            × (size < b.size)
            × ((b.address + size) % 8 ≡ 0)
            × (32 ≤ b.size - size)
            × (allocate_from (b ∷ rest) size
                ≡ some (
                  b.address + 32,
                  record b { used = true; size = size }
                      ∷ record { used = false; size = b.size - size; address = b.address + size }
                      ∷ rest,
                )))
          ⊎ (((b.used ≡ true)
                ⊎ ((b.size < size)
                    ⊎ ((size < b.size) × (((b.address + size) % 8 ≢ 0) ⊎ (b.size - size < 32)))))
              × (allocate_from (b ∷ rest) size
                  ≡ (do (addr, rest') ← allocate_from rest size; some (addr, b ∷ rest')))))
unfolding allocate_from
allocate_from-cases b rest size = elim (Bool-cases (not b.used && b.size == size)) [
  | inl e ↦ inl (ground arith, ground arith, rw (e, allocate_from))
  | inr e ↦ elim (Bool-cases (not b.used && ltb size b.size)) [
    | inl f ↦ elim (create_block-cases (b.address + size) (b.size - size)) [
      | inl (c, why) ↦ inr (inr (inr (inr (ground arith, why)), rw (e, f, c, allocate_from)))
      | inr (c, aligned, large) ↦
          inr (inl (ground arith, ground arith, aligned, large, rw (e, f, c, allocate_from)))
    ]
    | inr f ↦ inr (
        inr (
          elim (passed_by b.used b.size size e f) [ inl u ↦ inl u | inr l ↦ inr (inl l) ],
          rw (e, f, allocate_from),
        ))
  ]
]

pub allocate_from-Tiles :
    (lo hi : ℕ) (bs bs' : List Block) (size addr : ℕ)
    → 32 ≤ size
    → Tiles lo hi bs
    → allocate_from bs size ≡ some (addr, bs')
    → Tiles lo hi bs'
unfolding allocate_from
allocate_from-Tiles lo hi [] bs' size addr h t e = absurd (cc)
allocate_from-Tiles lo hi (b ∷ rest) bs' size addr h (at, large, aligned, t) e =
    elim (allocate_from-cases b rest size) [
      | inl (_, _, s) ↦
          let same : record b { used = true } ∷ rest ≡ bs' = ground arith in
          rw (← same) (at, large, aligned, t)
      | inr (inl (_, smaller, up, room, s)) ↦
          let same : record b { used = true; size = size }
                ∷ record { used = false; size = b.size - size; address = b.address + size }
                ∷ rest
              ≡ bs' =
            ground arith in
          let sum : lo + size + (b.size - size) ≡ lo + b.size = omega arith in
          rw (← same) (
            at,
            h,
            aligned,
            (ap (λ n. n + size) at, room, up, subst (λ n. Tiles n hi rest) (sym sum) t),
          )
      | inr (inr (_, s)) ↦ elim (Option-cases (allocate_from rest size)) [
        | inl n ↦ absurd (ground arith)
        | inr ((addr', rest'), n) ↦
            let same : b ∷ rest' ≡ bs' = ground arith in
            rw (← same)
              (at, large, aligned, allocate_from-Tiles (lo + b.size) hi rest rest' size addr' h t n)
      ]
    ]

merge_right-Tiles :
    (lo hi : ℕ) (b : Block) (rest : List Block)
    → Tiles lo hi (b ∷ rest)
    → Tiles lo hi (merge_right b rest)
unfolding merge_right
merge_right-Tiles lo hi b [] t = t
merge_right-Tiles lo hi b (next ∷ rest) t = elim (Bool-cases next.used) [
  | inl u ↦ rw (u, merge_right) t
  | inr u ↦
      let sum : lo + b.size + next.size ≡ lo + (b.size + next.size) = omega arith in
      rw (u, merge_right) (t.0, omega (arith, t.1), t.2, subst (λ n. Tiles n hi rest) sum t.3.3)
]

pub dealloc_at-Tiles :
    (lo hi : ℕ) (bs bs' : List Block) (a : ℕ)
    → Tiles lo hi bs
    → dealloc_at bs a ≡ some bs'
    → Tiles lo hi bs'
unfolding dealloc_at
dealloc_at-Tiles lo hi [] bs' a t e = absurd (cc)
dealloc_at-Tiles lo hi (b ∷ rest) bs' a t e = elim (Bool-cases (b.address == a)) [
  | inl q ↦
      let same : merge_right (record b { used = false }) rest ≡ bs' = ground arith in
      rw (← same) (merge_right-Tiles lo hi (record b { used = false }) rest t)
  | inr q ↦ elim (Option-cases (dealloc_at rest a)) [
    | inl n ↦ absurd (ground arith)
    | inr (rest', n) ↦
        let same : b ∷ rest' ≡ bs' = ground arith in
        rw (← same) (t.0, t.1, t.2, dealloc_at-Tiles (lo + b.size) hi rest rest' a t.3 n)
  ]
]
