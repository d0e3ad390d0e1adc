-- ===== src/Sched/UserMemory.antt =====
-- The access of the kernel to the memory of a process: the functions of src/scheduling/process.rs that
-- check a range of user addresses and copy bytes in and out.
pub mod Access
use bubble_os.Base.{
  ℕ, ◌-◌, ◌/◌, Bool, true, false, not, ◌&&◌, ◌||◌, Option, none, some, List, [], ◌==◌,
  if◌then◌else◌, length, checked_mul,
}
use bubble_os.Sched.Process.{PageTable}
use bubble_os.Mem.PageTable.{
  Machine, flags, contains_flag, present, ring3_accessible, writable_flag, walk_range_entries,
}

-- `valid` for the flags of an entry, as what the walk's callback returns.
unfoldable pub check_entry : Bool → ℕ → ℕ → Option (Unit {0})
unfolding flags
check_entry writable page entry =
    if contains_flag (flags entry) present
      && contains_flag (flags entry) ring3_accessible
      && (not writable || contains_flag (flags entry) writable_flag)
    then some tt
    else none

module _ {U : Type 0} (memory : Machine U) where
  -- Without a memory controller there is nothing to check against.
  unfoldable pub validate_user_pointer : Bool → U → PageTable → ℕ → ℕ → Bool → Bool
  unfolding walk_range_entries check_entry
  validate_user_pointer controller u page_table addr size writable =
      if not controller
      then false
      else elim (walk_range_entries memory u page_table addr size (check_entry writable)) [
        | none ↦ false
        | some _ ↦ true
      ]

  unfoldable pub can_process_pointer : Bool → U → PageTable → ℕ → ℕ → Bool → Bool
  unfolding validate_user_pointer
  can_process_pointer controller u page_table addr size writable =
      validate_user_pointer controller u page_table addr size writable

  unfoldable pub copy_from_user : Bool → U → PageTable → ℕ → ℕ → Option (List ℕ)
  unfolding validate_user_pointer
  copy_from_user controller u page_table addr size =
      if not (validate_user_pointer controller u page_table addr size false)
      then none
      else if size == 0
      then some []
      else some (memory.load u page_table addr size)

  unfoldable pub copy_to_user : Bool → U → PageTable → ℕ → List ℕ → Option (Unit {0}) × U
  unfolding validate_user_pointer
  copy_to_user controller u page_table addr bytes =
      if not (validate_user_pointer controller u page_table addr (length bytes) true)
      then (none, u)
      else if length bytes == 0
      then (some tt, u)
      else (some tt, memory.store u page_table addr bytes)

  -- The bytes of a value stand for it.
  unfoldable pub copy_value_to_user : Bool → U → PageTable → ℕ → List ℕ → Option (Unit {0}) × U
  unfolding copy_to_user
  copy_value_to_user controller u page_table addr value =
      if length value == 0 then (some tt, u) else copy_to_user controller u page_table addr value

  -- Values of `width` bytes each, `count` of them, with all their bytes.
  unfoldable pub copy_slice_to_user :
      Bool → U → PageTable → ℕ → ℕ → ℕ → List ℕ → Option (Unit {0}) × U
  unfolding validate_user_pointer
  copy_slice_to_user controller u page_table addr width count values =
      elim (checked_mul width count) [
        | none ↦ (none, u)
        | some size ↦
            if not (validate_user_pointer controller u page_table addr size true)
            then (none, u)
            else if size == 0
            then (some tt, u)
            else (some tt, memory.store u page_table addr values)
      ]
