-- ===== src/Fat/Table/Tests.antt =====
-- Runs of the allocation table on small tables, and the theorems about it at such tables.
use bubble_os.Base.{ℕ, ◌≡◌, refl, none, some, [], ◌∷◌, arith, ◌==◌, if◌then◌else◌, contains}
use bubble_os.Fat.Table.{
  FatBuffer, write_cell, fat_cluster_eof, next_cluster, set, find_free_from, find_free_cluster,
  free_chain_loop, free_chain, release_started, allocate_loop, allocate_chain,
}
use bubble_os.Fat.Table.Release.{free_chain_total, free_chain_lem}
use bubble_os.Fat.Table.Allocate.{Allocates, allocate_chain_lem, free_chain-allocate_chain}

-- Seven clusters: 2 goes on to 4, 4 ends, 3, 5 and 6 are free.
abbrev small_table : FatBuffer
small_table = record {
  fat =
      write_cell
        (write_cell (λ x. if x == 0 then fat_cluster_eof else if x == 1 then fat_cluster_eof else 0)
          2 4)
        4 fat_cluster_eof;
  entries = 7;
}

-- 2 and 3 link to one another.
abbrev circular_table : FatBuffer
circular_table = record { fat = write_cell (write_cell (λ _. 0) 2 3) 3 2; entries = 4 }

allocate_two : (allocate_chain small_table 2).0 ≡ some 3
unfolding allocate_chain allocate_loop find_free_cluster find_free_from set
allocate_two = refl

allocate_two_links : next_cluster (allocate_chain small_table 2).1 3 ≡ some 5
unfolding allocate_chain allocate_loop find_free_cluster find_free_from set next_cluster
allocate_two_links = refl

allocate_four : (allocate_chain small_table 4).0 ≡ none
unfolding allocate_chain allocate_loop find_free_cluster find_free_from set release_started
    free_chain
allocate_four = refl

free_circle : (free_chain circular_table 2).0 ≡ some tt
unfolding free_chain free_chain_loop next_cluster set
free_circle = refl

free_chain_total_example : free_chain_loop 5 circular_table 2 ≡ some (free_chain circular_table 2)
free_chain_total_example = free_chain_total circular_table 2

free_chain_lem_example :
    let f' = (free_chain small_table 2).1 in
    ((free_chain small_table 2).0 ≡ some tt)
    × (f'.entries ≡ small_table.entries)
    × ((x : ℕ) → f'.fat x ≡ (if contains (2 ∷ 4 ∷ []) x then 0 else small_table.fat x))
unfolding next_cluster
free_chain_lem_example =
    free_chain_lem small_table 2 (4 ∷ []) (omega arith, refl, (omega arith, refl))

allocate_chain_lem_example : Allocates small_table 2 (allocate_chain small_table 2)
allocate_chain_lem_example = allocate_chain_lem small_table 2 (omega arith) (omega arith)

free_chain-allocate_chain_example :
    let f' = (free_chain (allocate_chain small_table 2).1 3).1 in
    (f'.entries ≡ 7) × ((x : ℕ) → f'.fat x ≡ small_table.fat x)
unfolding allocate_chain allocate_loop find_free_cluster find_free_from set
free_chain-allocate_chain_example =
    free_chain-allocate_chain small_table 2 3 (omega arith) (omega arith) refl
