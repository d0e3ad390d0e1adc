-- ===== src/Fat/Table.antt =====
-- `FatBuffer` of src/fs/fat_fs.rs: the file allocation table in memory, its cluster chains, and the
-- allocation and the release of a chain.
pub mod Chain
pub mod Release
pub mod Search
pub mod Allocate
mod Tests
use bubble_os.Base.{
  ℕ, zero, suc, ◌+◌, ◌-◌, ◌%◌, ◌^◌, Bool, true, false, not, ◌||◌, Option, none, some, leb, ltb,
  ◌==◌, if◌then◌else◌,
}

-- `FAT_CLUSTER_FREE`, `FAT_CLUSTER_EOF` and the first value that `next_cluster` takes for an end.
abbrev pub fat_cluster_free : ℕ
fat_cluster_free = 0

abbrev pub fat_cluster_eof : ℕ
fat_cluster_eof = 0x0FFFFFFF

abbrev pub fat_end_min : ℕ
fat_end_min = 0x0FFFFFF8

-- The raw pointer is the function from an index to the cell that it reaches; `entries` bounds it.
pub record FatBuffer : Type 0 where
  pub fat : ℕ → ℕ
  pub entries : ℕ

abbrev pub write_cell : (ℕ → ℕ) → ℕ → ℕ → ℕ → ℕ
write_cell m a v b = if a == b then v else m b

unfoldable pub next_cluster : FatBuffer → ℕ → Option ℕ
next_cluster f curr =
    if leb f.entries curr
    then none
    else let next = f.fat curr in if leb fat_end_min next || next == 0 then none else some next

unfoldable pub exists : FatBuffer → ℕ → Bool
exists f cluster = elim (next_cluster f cluster) [ some n ↦ not (n == 0) | none ↦ false ]

-- A method that changes the table returns what it returns beside the new table.
unfoldable pub set : FatBuffer → ℕ → ℕ → Option (Unit {0}) × FatBuffer
set f cluster value =
    if leb f.entries cluster
    then (none, f)
    else (some tt, record f { fat = write_cell f.fat cluster value })

-- `for cluster in 2..self.entries`, on the rounds left.
unfoldable pub find_free_from : FatBuffer → ℕ → ℕ → Option ℕ
find_free_from f zero cluster = none
find_free_from f (suc left) cluster =
    let rest = find_free_from f left (suc cluster) in
    if f.fat cluster == fat_cluster_free then some cluster else rest

unfoldable pub find_free_cluster : FatBuffer → Option ℕ
find_free_cluster f = find_free_from f (f.entries - 2) 2

-- The loop of `free_chain` on fuel; the outer `none` means that the fuel ran out.
unfoldable pub free_chain_loop : ℕ → FatBuffer → ℕ → Option (Option (Unit {0}) × FatBuffer)
free_chain_loop zero f cluster = none
free_chain_loop (suc fuel) f cluster = elim (leb f.entries cluster) [
  | true ↦ some (none, f)
  | false ↦
      let next = next_cluster f cluster in
      let (r, f') = set f cluster fat_cluster_free in
      elim r [
        | none ↦ some (none, f')
        | some _ ↦ elim next [ some n ↦ free_chain_loop fuel f' n | none ↦ some (some tt, f') ]
      ]
]

-- The fuel is enough for every table: `Fat.Table.Release.free_chain_total`.
unfoldable pub free_chain : FatBuffer → ℕ → Option (Unit {0}) × FatBuffer
unfolding free_chain_loop
free_chain f cluster = elim (free_chain_loop (f.entries + 1) f cluster) [
  | some r ↦ r
  | none ↦ (none, f)
]

-- `if first_cluster != 0 { let _ = self.free_chain(first_cluster); }`
unfoldable pub release_started : FatBuffer → ℕ → FatBuffer
release_started f first = if first == 0 then f else (free_chain f first).1

-- The loop of `allocate_chain`, on the rounds left.
unfoldable pub allocate_loop : ℕ → FatBuffer → ℕ → Option ℕ → Option ℕ × FatBuffer
allocate_loop zero f first prev = (some first, f)
allocate_loop (suc left) f first prev = elim (find_free_cluster f) [
  | none ↦ (none, release_started f first)
  | some cluster ↦
      let (r, f1) = set f cluster fat_cluster_eof in
      elim r [
        | none ↦ (none, release_started f1 first)
        | some _ ↦ elim prev [
          | none ↦ allocate_loop left f1 cluster (some cluster)
          | some p ↦
              let (r', f2) = set f1 p (cluster % 2 ^ 32) in
              elim r' [
                | none ↦ (none, (set (free_chain f2 first).1 cluster fat_cluster_free).1)
                | some _ ↦ allocate_loop left f2 first (some cluster)
              ]
        ]
      ]
]

unfoldable pub allocate_chain : FatBuffer → ℕ → Option ℕ × FatBuffer
allocate_chain f count = if count == 0 then (none, f) else allocate_loop count f 0 none
