-- ===== src/Mem/Stacks.antt =====
-- src/mem/stack_allocator.rs and the pages of src/mem/paging/mod.rs: the addresses of stacks. A page is its
-- number. That the pages of a stack are mapped is left to the page tables: `alloc` says which ones.
pub mod Disjoint
pub mod Calls
mod Tests
use bubble_os.Base.{
  ℕ, zero, suc, ◌+◌, ◌-◌, ◌*◌, ◌/◌, ◌%◌, ◌^◌, ◌||◌, Option, none, some, List, [], ◌∷◌, ◌++◌, ltb,
  leb, ◌==◌, if◌then◌else◌, ◌>>=◌, ◌>>◌,
}
use bubble_os.Mem.Frames.{page_size}
use bubble_os.Sched.Process.{Stack}

abbrev pub for_address : ℕ → ℕ
for_address addr = addr / page_size

abbrev pub page_start : ℕ → ℕ
page_start page_number = page_number * page_size

-- The indices of a page in the four levels of tables; `& 0o777` is the remainder by 512.
abbrev pub p4_index : ℕ → ℕ
p4_index page_number = page_number / 2 ^ 27 % 512

abbrev pub p3_index : ℕ → ℕ
p3_index page_number = page_number / 2 ^ 18 % 512

abbrev pub p2_index : ℕ → ℕ
p2_index page_number = page_number / 2 ^ 9 % 512

abbrev pub p1_index : ℕ → ℕ
p1_index page_number = page_number % 512

-- The pages from `start` to `end`, `end` included.
pub record PageIter : Type 0 where
  pub start : ℕ
  pub end : ℕ

unfoldable pub next : PageIter → Option ℕ × PageIter
next it =
    if ltb it.end it.start then (none, it) else (some it.start, record it { start = it.start + 1 })

-- `Iterator::nth`: the items before are passed over, until there is none.
unfoldable pub nth : PageIter → ℕ → Option ℕ × PageIter
nth it zero = next it
nth it (suc n) =
    let (page, it') = next it in
    let later = nth it' n in elim page [ none ↦ (none, it') | some _ ↦ later ]

pub record FreeStackRange : Type 0 where
  pub start : ℕ
  pub end : ℕ
  pub user_pages : ℕ

pub record StackAllocator : Type 0 where
  pub range : PageIter
  pub free_ranges : List FreeStackRange

-- `position` and `remove`: the first range of that many pages, and the others.
unfoldable pub take_range : List FreeStackRange → ℕ → Option (FreeStackRange × List FreeStackRange)
take_range [] pages = none
take_range (r ∷ rs) pages =
    let later : Option (FreeStackRange × List FreeStackRange) = (do
      (found, others) ← take_range rs pages
      some (found, r ∷ others)) in
    if r.user_pages == pages then some (r, rs) else later

-- A guard page that stays unmapped, and the pages of the stack behind it.
unfoldable pub alloc_new : StackAllocator → ℕ → Option Stack × StackAllocator
alloc_new a pages_to_alloc =
    let (guard, r1) = next a.range in
    let (start, r2) = next r1 in
    let (end, r3) = if pages_to_alloc == 1 then (start, r2) else nth r2 (pages_to_alloc - 2) in
    elim guard [
      | none ↦ (none, a)
      | some _ ↦ elim start [
        | none ↦ (none, a)
        | some first ↦ elim end [
          | none ↦ (none, a)
          | some last ↦ (
            some (record { top = page_start last + page_size; bottom = page_start first }),
            record a { range = r3 },
          )
        ]
      ]
    ]

unfoldable pub alloc_stack : StackAllocator → ℕ → Option Stack × StackAllocator
alloc_stack a pages_to_alloc =
    if pages_to_alloc == 0 then (none, a) else elim (take_range a.free_ranges pages_to_alloc) [
      | some (r, rs) ↦ (
        some (record { top = page_start r.end + page_size; bottom = page_start r.start }),
        record a { free_ranges = rs },
      )
      | none ↦ alloc_new a pages_to_alloc
    ]

abbrev pub to_range : Stack → FreeStackRange
to_range stack = record {
  start = for_address stack.bottom;
  end = for_address (stack.top - 1);
  user_pages = (stack.top - stack.bottom) / page_size;
}

-- The order of the free ranges is that of the vector, to whose end a range is pushed.
unfoldable pub free_stack_range : StackAllocator → Stack → StackAllocator
free_stack_range a stack =
    if ltb stack.bottom page_size || leb stack.top stack.bottom
    then a
    else record a { free_ranges = a.free_ranges ++ (to_range stack ∷ []) }
