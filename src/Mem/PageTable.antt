-- ===== src/Mem/PageTable.antt =====
-- src/mem/paging/entry.rs and the walks of src/mem/paging/page_table.rs: the words of the page tables, and
-- the entry that the four levels of tables have for a page. A table that is reached through the temporary
-- mapping is the number of its frame; the mapping itself leaves no trace in the state.
pub mod Walk
use bubble_os.Base.{
  ℕ, zero, suc, ◌+◌, ◌-◌, ◌*◌, ◌/◌, ◌%◌, ◌^◌, Bool, true, not, ◌&&◌, Option, none, some, List, ◌==◌,
  if◌then◌else◌, ◌>>=◌, ◌>>◌, checked_add,
}
use bubble_os.Mem.Stacks.{for_address, p4_index, p3_index, p2_index, p1_index}
use bubble_os.Sched.Process.{PageTable}

-- The machine in a state of `U`: the word at an index of the table at an address, and of the table in a
-- frame; and the bytes that the processor loads from an address and stores there.
pub record Machine (U : Type 0) : Type 0 where
  pub entries : U → PageTable → ℕ → ℕ
  pub frame_entries : U → ℕ → ℕ → ℕ
  pub load : U → PageTable → ℕ → ℕ → List ℕ
  pub store : U → PageTable → ℕ → List ℕ → U

-- The flags of `EntryFlags` that are looked at.
abbrev pub present : ℕ
present = 1

abbrev pub writable_flag : ℕ
writable_flag = 2

abbrev pub ring3_accessible : ℕ
ring3_accessible = 4

abbrev pub huge_page : ℕ
huge_page = 128

-- `from_bits_truncate`: bits 0 to 8 and 63 are flags.
unfoldable pub flags : ℕ → ℕ
flags entry = entry % 512 + entry / 2 ^ 63 % 2 * 2 ^ 63

-- `contains` of one flag.
abbrev pub contains_flag : ℕ → ℕ → Bool
contains_flag fs flag = fs / flag % 2 == 1

-- `& 0x000FFFFF_FFFFF000`, as a frame number.
unfoldable pub get_frame : ℕ → Option ℕ
unfolding flags
get_frame entry = if contains_flag (flags entry) present then some (entry / 4096 % 2 ^ 40) else none

unfoldable pub is_user_table_entry : ℕ → Bool
unfolding flags
is_user_table_entry entry =
    contains_flag (flags entry) present
    && contains_flag (flags entry) ring3_accessible
    && not (contains_flag (flags entry) huge_page)

-- The words of a table are a function of the index.
unfoldable pub next_table_temp : (ℕ → ℕ) → ℕ → Option ℕ
unfolding get_frame
next_table_temp table index = if table index == 0 then none else get_frame (table index)

module _ {U : Type 0} (machine : Machine U) where
  -- The entry of the lowest table for a page, where every level above is there.
  unfoldable pub leaf_entry : U → PageTable → ℕ → Option ℕ
  unfolding next_table_temp
  leaf_entry u table page = do
    pml3 ← next_table_temp (machine.entries u table) (p4_index page)
    pml2 ← next_table_temp (machine.frame_entries u pml3) (p3_index page)
    pml1 ← next_table_temp (machine.frame_entries u pml2) (p2_index page)
    some (machine.frame_entries u pml1 (p1_index page))

  unfoldable pub translate_to_phys : U → PageTable → ℕ → Option ℕ
  unfolding leaf_entry get_frame
  translate_to_phys u table addr = do entry ← leaf_entry u table (for_address addr); get_frame entry

  unfoldable pub is_unused : U → PageTable → ℕ → Bool
  unfolding leaf_entry
  is_unused u table page = elim (leaf_entry u table page) [ none ↦ true | some entry ↦ entry == 0 ]

  -- The loop over the pages, on those left.
  unfoldable pub walk_pages :
      ℕ → U → PageTable → ℕ → (ℕ → ℕ → Option (Unit {0})) → Option (Unit {0})
  unfolding leaf_entry
  walk_pages zero u table page callback = some tt
  walk_pages (suc left) u table page callback =
      let rest = walk_pages left u table (page + 1) callback in
      leaf_entry u table page >>= (λ entry. callback page entry >> rest)

  unfoldable pub walk_range_entries :
      U → PageTable → ℕ → ℕ → (ℕ → ℕ → Option (Unit {0})) → Option (Unit {0})
  unfolding walk_pages
  walk_range_entries u table addr size callback = if size == 0 then some tt else (do
    end_addr ← checked_add addr (size - 1)
    walk_pages (for_address end_addr + 1 - for_address addr) u table (for_address addr) callback)
