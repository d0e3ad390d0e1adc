-- ===== src/Mem/Heap/Tests.antt =====
-- A heap of one page.
use bubble_os.Base.{ℕ, ◌%◌, ◌≡◌, refl, ◌≢◌, true, false, none, some, [], ◌∷◌, arith}
use bubble_os.Mem.Heap.{
  LinkedListHeap, create_block, align_up, align_down, init, allocate_from, allocate_internal,
  merge_right, dealloc_at, dealloc_internal, block_align_size, alloc,
}
use bubble_os.Mem.Heap.Live.{used_at}
use bubble_os.Mem.Heap.Calls.{
  IsValid, init-IsValid, Allocated, alloc_lem, dealloc_internal_lem, dealloc_internal-alloc,
}

abbrev fresh : LinkedListHeap
fresh = record {
  heap_start = 0x1000;
  heap_end = 0x2000;
  size = 0x1000;
  blocks = record { used = false; size = 0x1000; address = 0x1000 } ∷ [];
}

abbrev after_one : LinkedListHeap
after_one = record fresh {
  blocks =
      record { used = true; size = 40; address = 0x1000 }
      ∷ record { used = false; size = 0xFD8; address = 0x1028 }
      ∷ [];
}

init-fresh : init 0x1000 0x2000 ≡ some fresh
unfolding init create_block align_up align_down
init-fresh = refl

alloc_one : alloc fresh 8 8 ≡ (0x1020, after_one)
unfolding alloc allocate_internal allocate_from block_align_size create_block align_up align_down
alloc_one = refl

dealloc_one : dealloc_internal after_one 0x1020 ≡ some fresh
unfolding dealloc_internal dealloc_at merge_right
dealloc_one = refl

-- The alignment asked for is passed on and not looked at: 16 was asked for here.
alloc_unaligned : (alloc after_one 16 16).0 % 16 ≡ 8
unfolding alloc allocate_internal allocate_from block_align_size create_block align_up align_down
alloc_unaligned = refl

fresh-IsValid : IsValid fresh
fresh-IsValid = (init-IsValid 0x1000 0x2000 fresh init-fresh).0

after_one-IsValid : IsValid after_one
after_one-IsValid = (refl, omega arith, refl, (refl, omega arith, refl, refl))

alloc_lem_example :
    IsValid (alloc after_one 100 8).1
    × Allocated after_one 100 (block_align_size 100 8).0 (alloc after_one 100 8)
alloc_lem_example = alloc_lem after_one 100 8 after_one-IsValid

dealloc_internal_lem_example :
    (h' : LinkedListHeap) × (dealloc_internal after_one 0x1020 ≡ some h')
    × IsValid h'
    × (used_at h'.blocks 0x1000 ≡ none)
    × ((y : ℕ) → y ≢ 0x1000 → used_at h'.blocks y ≡ used_at after_one.blocks y)
dealloc_internal_lem_example = dealloc_internal_lem after_one 0x1000 40 after_one-IsValid refl

not_null : (alloc after_one 100 8).0 ≢ 0
unfolding alloc allocate_internal allocate_from block_align_size create_block align_up align_down
not_null e = absurd (omega (arith, e))

dealloc_internal-alloc_example :
    (h' : LinkedListHeap) × (dealloc_internal (alloc after_one 100 8).1 (alloc after_one 100 8).0
      ≡ some h')
    × ((y : ℕ) → used_at h'.blocks y ≡ used_at after_one.blocks y)
dealloc_internal-alloc_example = dealloc_internal-alloc after_one 100 8 after_one-IsValid not_null
