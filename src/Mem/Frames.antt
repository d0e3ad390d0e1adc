-- ===== src/Mem/Frames.antt =====
-- src/mem/page_frame.rs and src/mem/simple_page_frame_allocator.rs: physical page frames, each named by its
-- number, and their allocator.
pub mod Pool
mod Tests
use bubble_os.Base.{
  ℕ, ◌+◌, ◌-◌, ◌*◌, ◌/◌, Option, none, some, List, [], ◌∷◌, ltb, if◌then◌else◌, checked_sub,
}

abbrev pub page_size : ℕ
page_size = 4096

-- The field of `PageFrame` is its number.
abbrev pub from_address : ℕ → ℕ
from_address addr = addr / page_size

abbrev pub start_address : ℕ → ℕ
start_address frame_number = frame_number * page_size

-- The end of `free_frames` that is pushed to and popped from is the head of the list.
pub record SimplePageFrameAllocator : Type 0 where
  pub frame_head : ℕ
  pub mem_end : ℕ
  pub free_frames : List ℕ

unfoldable pub new_allocator : ℕ → ℕ → SimplePageFrameAllocator
new_allocator mem_start mem_end = record {
  frame_head = from_address mem_start;
  mem_end = from_address mem_end;
  free_frames = [];
}

-- The frame behind `frame_head`; `none` is the subtraction that goes below 0.
unfoldable pub falloc_next : SimplePageFrameAllocator → Option (Option ℕ × SimplePageFrameAllocator)
falloc_next a =
    let head_addr = start_address a.frame_head in
    elim (checked_sub (start_address a.mem_end) (head_addr + page_size)) [
      | none ↦ none
      | some left ↦
          if ltb left 4096
          then some (none, a)
          else (let next_frame = from_address (head_addr + page_size) in
              some (some next_frame, record a { frame_head = next_frame }))
    ]

unfoldable pub falloc : SimplePageFrameAllocator → Option (Option ℕ × SimplePageFrameAllocator)
falloc a = elim a.free_frames [
  | frame ∷ frames ↦ some (some frame, record a { free_frames = frames })
  | [] ↦ falloc_next a
]

unfoldable pub free : SimplePageFrameAllocator → ℕ → SimplePageFrameAllocator
free a frame = record a { free_frames = frame ∷ a.free_frames }
