-- ===== src/Mem/Frames/Tests.antt =====
-- A memory of four frames, from number 16 to 20, of which 17 and 18 were given out and 18 came back.
use bubble_os.Base.{ℕ, ◌≡◌, refl, subst, Option, some, [], ◌∷◌, arith}
use bubble_os.Mem.Frames.{SimplePageFrameAllocator, new_allocator, falloc_next, falloc}
use bubble_os.Mem.Frames.Pool.{Accounts, Falloc, falloc_lem, new_allocator-Accounts}

abbrev four : SimplePageFrameAllocator
four = record { frame_head = 16; mem_end = 20; free_frames = [] }

abbrev one_used : SimplePageFrameAllocator
one_used = record { frame_head = 18; mem_end = 20; free_frames = 18 ∷ [] }

new_four : new_allocator 0x10000 0x14000 ≡ four
unfolding new_allocator
new_four = refl

-- The frame at the start of the memory is not given out.
first_given : falloc four ≡ some (some 17, record four { frame_head = 17 })
unfolding falloc falloc_next
first_given = refl

four-Accounts : Accounts 16 [] four
four-Accounts =
    subst (Accounts 16 []) new_four (new_allocator-Accounts 0x10000 0x14000 (omega arith))

two_used-Accounts : Accounts 16 (18 ∷ 17 ∷ []) (record four { frame_head = 18 })
two_used-Accounts = record {
  once = λ x. ground arith;
  below_end = omega arith;
  from_start = omega arith;
}

falloc_lem_example :
    (r : Option ℕ × SimplePageFrameAllocator) × (falloc four ≡ some r) × Falloc 16 [] four r
falloc_lem_example = falloc_lem 16 [] four four-Accounts
