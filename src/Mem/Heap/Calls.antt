-- ===== src/Mem/Heap/Calls.antt =====
-- `alloc` and `dealloc_internal` on a heap whose blocks tile it.
use native.Mathlib.Nat.{mod-lt, div-add-mod'}
use bubble_os.Base.{
  ℕ, ◌+◌, ◌-◌, ◌%◌, ◌≤◌, ◌<◌, max, ◌≡◌, refl, sym, ap, ◌∙◌, ◌≢◌, ◌⊎◌, inl, inr, true, false, Option,
  none, some, List, [], ◌∷◌, arith, ltb, ◌==◌, ==_iff, Bool-cases, Option-cases, checked_sub,
}
use bubble_os.Mem.Heap.{
  Block, LinkedListHeap, init, allocate_from, allocate_internal, dealloc_internal, block_align_size,
  alloc,
}
use bubble_os.Mem.Heap.Tiling.{
  Tiles, create_block-cases, allocate_from-cases, allocate_from-Tiles, dealloc_at-Tiles,
}
use bubble_os.Mem.Heap.Live.{used_at, used_at-unused, Adds, allocate_from-Adds, dealloc_at-Removes}

abbrev pub IsValid : LinkedListHeap → Type 0
IsValid h = Tiles h.heap_start h.heap_end h.blocks

-- No block that is free has room for `size` bytes: it is smaller, or what would be left of it has no
-- room for a header or is not aligned for one.
abbrev pub TooSmall : List Block → ℕ → Type 0
TooSmall [] size = Unit {0}
TooSmall (b ∷ bs) size =
    ((b.used ≡ true)
      ⊎ ((b.size < size)
          ⊎ ((size < b.size) × (((b.address + size) % 8 ≢ 0) ⊎ (b.size - size < 32)))))
    × TooSmall bs size

allocate_from-none : (bs : List Block) (size : ℕ) → allocate_from bs size ≡ none → TooSmall bs size
allocate_from-none [] size e = tt
allocate_from-none (b ∷ rest) size e = elim (allocate_from-cases b rest size) [
  | inl (_, _, s) ↦ absurd (ground arith)
  | inr (inl (_, _, _, _, s)) ↦ absurd (ground arith)
  | inr (inr (why, s)) ↦ elim (Option-cases (allocate_from rest size)) [
    | inl n ↦ (why, allocate_from-none rest size n)
    | inr (r, n) ↦ absurd (ground arith)
  ]
]

-- The heap that `init` makes is tiled by its one block, and has nothing in use.
pub init-IsValid :
    (heap_start heap_end : ℕ) (h : LinkedListHeap)
    → init heap_start heap_end ≡ some h
    → IsValid h × ((x : ℕ) → used_at h.blocks x ≡ none)
unfolding init
init-IsValid heap_start heap_end h e = elim (Bool-cases (ltb heap_end heap_start)) [
  | inl l ↦ absurd (ground arith)
  | inr l ↦
      let sub : checked_sub heap_end heap_start ≡ some (heap_end - heap_start) = rw l in
      elim (create_block-cases heap_start (heap_end - heap_start)) [
        | inl (c, _) ↦
            let failed : init heap_start heap_end ≡ none = rw (sub, c, init) in
            absurd (ground arith)
        | inr (c, aligned, large) ↦
            let same : record {
              heap_start = heap_start;
              heap_end = heap_end;
              size = heap_end - heap_start;
              blocks =
                  record { used = false; size = heap_end - heap_start; address = heap_start } ∷ [];
            }
                ≡ h =
              ground arith in
            rw (← same) (
              (refl, large, aligned, omega arith),
              λ x.
                  used_at-unused
                    (record { used = false; size = heap_end - heap_start; address = heap_start }) []
                    x refl,
            )
      ]
]

block_align_size-ge : (size align : ℕ) → size + 32 ≤ (block_align_size size align).0
unfolding block_align_size
block_align_size-ge size align =
    let a = max align 8 in
    let short : (size + a - 1) % a < a = mod-lt (size + a - 1) (omega arith) in
    omega (arith, short, div-add-mod' (size + a - 1) a)

-- The outcome of `alloc`: a block of at least `size` bytes behind its header, where none was in use; or
-- the null pointer, where no free block has room.
abbrev pub Allocated : LinkedListHeap → ℕ → ℕ → ℕ × LinkedListHeap → Type 0
Allocated h size n (addr, h') =
    ((size + 32 ≤ n) × Adds h.blocks n (addr, h'.blocks))
    ⊎ ((addr ≡ 0) × (h' ≡ h) × TooSmall h.blocks n)

allocate_internal-none :
    (h : LinkedListHeap) (n : ℕ)
    → allocate_from h.blocks n ≡ none
    → allocate_internal h n ≡ (none, h)
unfolding allocate_internal
allocate_internal-none h n e = rw (e, allocate_internal)

allocate_internal-some :
    (h : LinkedListHeap) (n addr : ℕ) (bs : List Block)
    → allocate_from h.blocks n ≡ some (addr, bs)
    → allocate_internal h n ≡ (some addr, record h { blocks = bs })
unfolding allocate_internal
allocate_internal-some h n addr bs e = rw (e, allocate_internal)

abbrev given : Option ℕ × LinkedListHeap → ℕ × LinkedListHeap
given (r, h') = elim r [ some addr ↦ (addr, h') | none ↦ (0, h') ]

alloc-none :
    (h : LinkedListHeap) (size align : ℕ)
    → allocate_from h.blocks (block_align_size size align).0 ≡ none
    → alloc h size align ≡ (0, h)
unfolding alloc
alloc-none h size align e = ap given (allocate_internal-none h (block_align_size size align).0 e)

alloc-some :
    (h : LinkedListHeap) (size align addr : ℕ) (bs : List Block)
    → allocate_from h.blocks (block_align_size size align).0 ≡ some (addr, bs)
    → alloc h size align ≡ (addr, record h { blocks = bs })
unfolding alloc
alloc-some h size align addr bs e =
    ap given (allocate_internal-some h (block_align_size size align).0 addr bs e)

-- On a heap whose blocks tile it, `alloc` gives out the payload of a block in use that is large enough
-- for the header and the layout, where no block was in use before, and leaves every other block in use
-- as it was; or it returns null and changes nothing, because every free block is too small or leaves a
-- rest that cannot be a block. The blocks tile the heap as before.
pub alloc_lem :
    (h : LinkedListHeap) (size align : ℕ)
    → IsValid h
    → IsValid (alloc h size align).1
      × Allocated h size (block_align_size size align).0 (alloc h size align)
alloc_lem h size align t =
    let n = (block_align_size size align).0 in
    let large = block_align_size-ge size align in
    elim (Option-cases (allocate_from h.blocks n)) [
      | inl e ↦
          rw (alloc-none h size align e) (t, inr (refl, refl, allocate_from-none h.blocks n e))
      | inr ((addr, bs), e) ↦
          let h32 : 32 ≤ n = omega (arith, large) in
          rw (alloc-some h size align addr bs e) (
            allocate_from-Tiles h.heap_start h.heap_end h.blocks bs n addr h32 t e,
            inl (large, allocate_from-Adds h.heap_start h.heap_end h.blocks bs n addr h32 t e),
          )
    ]

-- On a heap whose blocks tile it, freeing what was given out finds its block; then nothing is in
-- use there, every other block in use is as it was, and the blocks tile the heap as before.
pub dealloc_internal_lem :
    (h : LinkedListHeap) (x n : ℕ)
    → IsValid h
    → used_at h.blocks x ≡ some n
    → (h' : LinkedListHeap) × (dealloc_internal h (x + 32) ≡ some h')
      × IsValid h'
      × (used_at h'.blocks x ≡ none)
      × ((y : ℕ) → y ≢ x → used_at h'.blocks y ≡ used_at h.blocks y)
unfolding dealloc_internal
dealloc_internal_lem h x n t e =
    let (bs, d, gone, others) = dealloc_at-Removes h.heap_start h.heap_end h.blocks x n t e in
    let back : checked_sub (x + 32) 32 ≡ some x = ground arith in
    (
      record h { blocks = bs },
      rw (back, d, dealloc_internal),
      dealloc_at-Tiles h.heap_start h.heap_end h.blocks bs x t d,
      gone,
      others,
    )

-- On a heap whose blocks tile it, freeing what `alloc` has just given out succeeds and brings back
-- what was in use before, at every address.
pub dealloc_internal-alloc :
    (h : LinkedListHeap) (size align : ℕ)
    → IsValid h
    → (alloc h size align).0 ≢ 0
    → (h' : LinkedListHeap) × (dealloc_internal (alloc h size align).1 (alloc h size align).0
        ≡ some h')
      × ((y : ℕ) → used_at h'.blocks y ≡ used_at h.blocks y)
dealloc_internal-alloc h size align t nz = elim ((alloc_lem h size align t).1) [
  | inl (_, (x, at, none_before, added, others)) ↦
      let (h', d, _, gone, rest) =
        dealloc_internal_lem (alloc h size align).1 x _ (alloc_lem h size align t).0 added in
      (
        h',
        ap (dealloc_internal (alloc h size align).1) at ∙ d,
        λ y. elim (Bool-cases (y == x)) [
          | inl q ↦ rw ((==_iff y x).0 q) (gone ∙ sym none_before)
          | inr q ↦ let ne : y ≢ x = ground arith in rest y ne ∙ others y ne
        ],
      )
  | inr (null, _, _) ↦ absurd (nz null)
]
