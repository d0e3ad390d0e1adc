-- ===== src/Mem/Stacks/Tests.antt =====
-- Pages 16 to 31 for stacks, of which 17 and 18 were a stack once.
use bubble_os.Base.{◌≡◌, refl, some, [], ◌∷◌, arith}
use bubble_os.Mem.Stacks.{
  next, nth, StackAllocator, take_range, alloc_new, alloc_stack, to_range, free_stack_range,
}
use bubble_os.Mem.Stacks.Disjoint.{Accounts, WellFormed}
use bubble_os.Mem.Stacks.Calls.{Allocated, alloc_stack_lem, free_stack_range-Accounts}
use bubble_os.Sched.Process.{Stack}

abbrev fresh : StackAllocator
fresh = record { range = record { start = 16; end = 31 }; free_ranges = [] }

abbrev two_pages : Stack
two_pages = record { top = 0x13000; bottom = 0x11000 }

abbrev after_one : StackAllocator
after_one = record fresh { range = record { start = 19; end = 31 } }

alloc_two : alloc_stack fresh 2 ≡ (some two_pages, after_one)
unfolding alloc_stack alloc_new take_range next nth
alloc_two = refl

alloc_again : (alloc_stack (free_stack_range after_one two_pages) 2).0 ≡ some two_pages
unfolding alloc_stack free_stack_range take_range
alloc_again = refl

fresh-Accounts : Accounts [] fresh
fresh-Accounts = record { once = λ x. ground arith; well_formed = tt }

after_one-Accounts : Accounts (to_range two_pages ∷ []) after_one
after_one-Accounts = record { once = λ x. ground arith; well_formed = tt }

two_pages-WellFormed : WellFormed (to_range two_pages)
two_pages-WellFormed = (omega arith, omega arith, omega arith)

alloc_stack_lem_example : Allocated [] fresh 2 (alloc_stack fresh 2)
alloc_stack_lem_example = alloc_stack_lem [] fresh 2 (λ e. absurd (omega (arith, e))) fresh-Accounts

free_stack_range-Accounts_example :
    (free_stack_range after_one two_pages
      ≡ record after_one { free_ranges = to_range two_pages ∷ [] })
    × Accounts [] (free_stack_range after_one two_pages)
free_stack_range-Accounts_example =
    free_stack_range-Accounts [] after_one two_pages two_pages-WellFormed after_one-Accounts
