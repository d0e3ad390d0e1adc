-- ===== src/Fat/Volume/Cut.antt =====
-- The end of a file's chain cut off: `cluster_at` and the work on the table of `shrink_existing_file` of
-- src/fs/fat_fs.rs.
use bubble_os.Base.{
  ℕ, ◌<◌, ◌≡◌, refl, ◌≢◌, inl, inr, true, false, Option, none, some, List, [], ◌∷◌, ◌++◌, arith,
  ◌==◌, if◌then◌else◌, Bool-cases, length, contains,
}
use bubble_os.Fat.Table.{FatBuffer, write_cell, fat_cluster_eof, next_cluster, free_chain}
use bubble_os.Fat.Table as Table
use bubble_os.Fat.Table.Chain.{
  Chain, Chain-fresh, Chain-frame, Chain-below, last_of, contains-last_of, contains-append,
}
use bubble_os.Fat.Table.Release.{free_chain_lem}
use bubble_os.Fat.Volume.{FatFileSystem}
use bubble_os.Fat.Volume.Content.{cluster_at}
use bubble_os.Fat.Volume.Resize.{cut_chain}

-- No cluster stands both before and behind a place of a chain.
prefix_apart :
    (f : FatBuffer) (c : ℕ) (r s : List ℕ)
    → Chain f c (r ++ s)
    → (x : ℕ) → contains (c ∷ r) x ≡ true
    → contains s x ≡ false
prefix_apart f c [] s h x m = ground (arith, Chain-fresh f c s h)
prefix_apart f c (y ∷ r) s h x m = elim (Bool-cases (c == x)) [
  | inl e ↦ ground (arith, Chain-fresh f c (y ∷ (r ++ s)) h, contains-append r s x)
  | inr e ↦ prefix_apart f y r s h.2 x (ground arith)
]

-- What stands behind a place of a chain is a chain.
suffix_Chain :
    (f : FatBuffer) (c : ℕ) (r : List ℕ) (y : ℕ) (s : List ℕ)
    → Chain f c (r ++ (y ∷ s))
    → (next_cluster f (last_of c r) ≡ some y) × Chain f y s
suffix_Chain f c [] y s h = (h.1, h.2)
suffix_Chain f c (x ∷ r) y s h = suffix_Chain f x r y s h.2

-- What stands before it is one, once its last cell is the mark for the end.
prefix_Chain :
    (f g : FatBuffer) (c : ℕ) (r s : List ℕ)
    → g.entries ≡ f.entries
    → g.fat (last_of c r) ≡ fat_cluster_eof
    → ((x : ℕ) → contains (c ∷ r) x ≡ true → x ≢ last_of c r → g.fat x ≡ f.fat x)
    → Chain f c (r ++ s)
    → Chain g c r
unfolding next_cluster
prefix_Chain f g c [] s e last same h =
    let below = Chain-below f c s h c (ground arith) in (ground arith, ground arith)
prefix_Chain f g c (y ∷ r) s e last same h =
    let far : c ≢ last_of y r = λ q.
      ground
        (arith, contains-last_of y r, Chain-fresh f c (y ∷ (r ++ s)) h, contains-append r s c) in
    (
      ground arith,
      ground (arith, same c (ground arith) far),
      prefix_Chain f g y r s e last (λ x m. same x (ground arith)) h.2,
    )

-- In a chain the cluster with index `length r` is the last one of the part through `r`.
pub cluster_at-Chain :
    {S : Type 0} (fs : FatFileSystem S) (c : ℕ) (r s : List ℕ)
    → Chain fs.fat c (r ++ s)
    → cluster_at fs c (length r) ≡ some (last_of c r)
unfolding cluster_at
cluster_at-Chain fs c [] s h = refl
cluster_at-Chain fs c (y ∷ r) s h = rw (h.1, cluster_at) (cluster_at-Chain fs y r s h.2)

abbrev ended : FatBuffer → ℕ → FatBuffer
ended f last = record f { fat = write_cell f.fat last fat_cluster_eof }

-- What cutting a chain leaves: its first part, which ends where the cut was made, and the rest of its
-- clusters free.
abbrev pub Cut : FatBuffer → ℕ → List ℕ → List ℕ → Option (Unit {0}) × FatBuffer → Type 0
Cut f c r s out =
    (out.0 ≡ some tt)
    × (out.1.entries ≡ f.entries)
    × Chain out.1 c r
    × ((x : ℕ) → contains s x ≡ true → out.1.fat x ≡ 0)
    × ((x : ℕ)
        → contains s x ≡ false
        → out.1.fat x ≡ (if x == last_of c r then fat_cluster_eof else f.fat x))

cut_chain-end :
    (f : FatBuffer) (last : ℕ)
    → last < f.entries
    → next_cluster f last ≡ none
    → cut_chain f last ≡ (some tt, ended f last)
unfolding cut_chain Table.set
cut_chain-end f last h e = ground (arith, e)

cut_chain-more :
    (f : FatBuffer) (last y : ℕ)
    → last < f.entries
    → next_cluster f last ≡ some y
    → cut_chain f last ≡ free_chain (ended f last) y
unfolding cut_chain Table.set
cut_chain-more f last y h e = ground (arith, e)

-- Cutting a cluster chain behind its part through `r` succeeds, leaves that part as a chain, frees the
-- clusters of the rest, marks the last cluster of the part as the end and changes no other cell.
pub cut_chain_lem :
    (f : FatBuffer) (c : ℕ) (r s : List ℕ)
    → Chain f c (r ++ s)
    → Cut f c r s (cut_chain f (last_of c r))
cut_chain_lem f c r [] h =
    let last = last_of c r in
    let below =
      Chain-below f c (r ++ []) h last
        (ground (arith, contains-append r [] last, contains-last_of c r)) in
    rw (cut_chain-end f last below (end f c r h)) (
      refl,
      refl,
      prefix_Chain f (ended f last) c r [] refl (ground arith) (λ x m n. ground arith) h,
      λ x m. absurd (cc),
      λ x m. ground arith,
    )
  where
    end :
        (f : FatBuffer) (c : ℕ) (r : List ℕ)
        → Chain f c (r ++ [])
        → next_cluster f (last_of c r) ≡ none
    end f c [] h = h.1
    end f c (y ∷ r) h = end f y r h.2
cut_chain_lem f c r (y ∷ s) h =
    let last = last_of c r in
    let apart = prefix_apart f c r (y ∷ s) h in
    let at_last = apart last (contains-last_of c r) in
    let below =
      Chain-below f c (r ++ (y ∷ s)) h last
        (ground (arith, contains-append r (y ∷ s) last, contains-last_of c r)) in
    let (next, rest) = suffix_Chain f c r y s h in
    let freed =
      free_chain_lem (ended f last) y s
        (Chain-frame f (ended f last) y s refl (λ x m. ground arith) rest) in
    rw (cut_chain-more f last y below next) (
      freed.0,
      freed.1,
      prefix_Chain f (free_chain (ended f last) y).1 c r (y ∷ s) freed.1
          (ground (arith, freed.2 last)) (λ x m n. ground (arith, freed.2 x, apart x m)) h,
      λ x m. ground (arith, freed.2 x),
      λ x m. ground (arith, freed.2 x),
    )
