-- ===== src/Mem/Heap.antt =====
-- src/mem/heap.rs: the kernel's heap, a chain of blocks whose headers stand in the heap itself. The chain
-- from `head.next` on is a list; a block is `size_of::<Block>()` = 32 bytes, aligned to 8.
pub mod Tiling
pub mod Live
pub mod Calls
mod Tests
use bubble_os.Base.{
  ℕ, zero, suc, ◌+◌, ◌-◌, ◌*◌, ◌/◌, ◌%◌, ◌^◌, ◌<◌, max, Bool, true, false, not, ◌&&◌, ◌||◌, Option,
  none, some, List, [], ◌∷◌, ltb, leb, ◌==◌, if◌then◌else◌, ◌>>=◌, ◌>>◌, checked_sub,
}

pub record Block : Type 0 where
  pub used : Bool
  pub size : ℕ
  pub address : ℕ

-- `head` is left out: its address is 0 for ever, so that `dealloc_internal` never moves it.
pub record LinkedListHeap : Type 0 where
  pub heap_start : ℕ
  pub heap_end : ℕ
  pub size : ℕ
  pub blocks : List Block

abbrev pub size_of_block : ℕ
size_of_block = 32

abbrev pub align_of_block : ℕ
align_of_block = 8

abbrev pub is_power_of_two_below : ℕ → ℕ → Bool
is_power_of_two_below zero n = false
is_power_of_two_below (suc k) n = n == 2 ^ k || is_power_of_two_below k n

-- Clearing the low bits under the mask is to subtract the remainder. `none` is the panic on what is no
-- power of two.
unfoldable pub align_down : ℕ → ℕ → Option ℕ
align_down addr align =
    if is_power_of_two_below 64 align
    then some (addr - addr % align)
    else if align == 0
    then some addr
    else none

unfoldable pub align_up : ℕ → ℕ → Option ℕ
unfolding align_down
align_up addr align = align_down (addr + align - 1) align

unfoldable pub create_block : ℕ → ℕ → Option Block
create_block addr size = elim (align_up addr align_of_block) [
  | none ↦ none
  | some up ↦
      if not (up == addr) || not (leb size_of_block size)
      then none
      else some (record { used = false; size = size; address = addr })
]

unfoldable pub init : ℕ → ℕ → Option LinkedListHeap
init heap_start heap_end = do
  heap_size ← checked_sub heap_end heap_start
  start_block ← create_block heap_start heap_size
  some (record {
    heap_start = heap_start;
    heap_end = heap_end;
    size = heap_size;
    blocks = start_block ∷ [];
  })

-- The walk of `allocate_internal` along the chain: the address given out and the chain after it.
unfoldable pub allocate_from : List Block → ℕ → Option (ℕ × List Block)
allocate_from [] size = none
allocate_from (block ∷ rest) size =
    let later : Option (ℕ × List Block) = (do
      (addr, rest') ← allocate_from rest size
      some (addr, block ∷ rest')) in
    if not block.used && block.size == size
    then some (block.address + size_of_block, record block { used = true } ∷ rest)
    else if not block.used && ltb size block.size
    then elim (create_block (block.address + size) (block.size - size)) [
      | none ↦ later
      | some remainder ↦ some (
        block.address + size_of_block,
        record block { used = true; size = size } ∷ remainder ∷ rest,
      )
    ]
    else later

unfoldable pub allocate_internal : LinkedListHeap → ℕ → Option ℕ × LinkedListHeap
allocate_internal h size = elim (allocate_from h.blocks size) [
  | none ↦ (none, h)
  | some (addr, blocks) ↦ (some addr, record h { blocks = blocks })
]

-- The block that was freed, before the chain behind it.
unfoldable pub merge_right : Block → List Block → List Block
merge_right block [] = block ∷ []
merge_right block (next ∷ rest) =
    if next.used then block ∷ next ∷ rest else record block { size = block.size + next.size } ∷ rest

-- The block is read at its address; `none` is an address that is no block's of the chain, where the
-- source reads and writes whatever stands there.
unfoldable pub dealloc_at : List Block → ℕ → Option (List Block)
dealloc_at [] block_addr = none
dealloc_at (block ∷ rest) block_addr =
    let later : Option (List Block) = (do
      rest' ← dealloc_at rest block_addr
      some (block ∷ rest')) in
    if block.address == block_addr
    then some (merge_right (record block { used = false }) rest)
    else later

unfoldable pub dealloc_internal : LinkedListHeap → ℕ → Option LinkedListHeap
dealloc_internal h addr = do
  block_addr ← checked_sub addr size_of_block
  blocks ← dealloc_at h.blocks block_addr
  some (record h { blocks = blocks })

-- The size of the layout, padded to an alignment of at least a block's, and room for the header.
-- A size within one alignment of `isize::MAX`, where the source panics, is padded like any other.
unfoldable pub block_align_size : ℕ → ℕ → ℕ × ℕ
block_align_size size align =
    let align' = max align align_of_block in
    ((size + align' - 1) / align' * align' + size_of_block, align')

-- `alloc` of the global allocator, 0 being the null pointer.
unfoldable pub alloc : LinkedListHeap → ℕ → ℕ → ℕ × LinkedListHeap
alloc h size align =
    let (r, h') = allocate_internal h (block_align_size size align).0 in
    elim r [ some addr ↦ (addr, h') | none ↦ (0, h') ]
