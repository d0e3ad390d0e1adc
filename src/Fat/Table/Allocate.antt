-- ===== src/Fat/Table/Allocate.antt =====
-- `allocate_chain`: all or nothing, by induction on the clusters still to be linked.
use bubble_os.Base.{
  ℕ, zero, suc, ◌+◌, ◌%◌, ◌^◌, ◌≤◌, ◌<◌, ◌≡◌, refl, subst, ◌≢◌, ◌⊎◌, inl, inr, true, false, Option,
  none, some, List, [], ◌∷◌, ◌++◌, arith, Bool-cases, Option-cases, length, length-append, contains,
}
use bubble_os.Fat.Table.{
  FatBuffer, write_cell, fat_cluster_eof, fat_end_min, next_cluster, find_free_cluster, set,
  free_chain, release_started, allocate_loop, allocate_chain,
}
use bubble_os.Fat.Table.Chain.{Chain, Chain-link, last_of, contains-last_of, contains-append}
use bubble_os.Fat.Table.Release.{free_chain_lem}
use bubble_os.Fat.Table.Search.{
  free_count, find_free_cluster-some, find_free_cluster-none, free_count-take,
}

-- The chain `first`, `r` of table `f` was taken from the free clusters of table `f0`, and nothing
-- else is different.
pub record Grown (f0 f : FatBuffer) (first : ℕ) (r : List ℕ) : Type 0 where
  pub same_size : f.entries ≡ f0.entries
  pub chain : Chain f first r
  pub in_use : (x : ℕ) → contains (first ∷ r) x ≡ true → f.fat x ≢ 0
  pub was_free :
      (x : ℕ) → contains (first ∷ r) x ≡ true → (f0.fat x ≡ 0) × (2 ≤ x) × (x < f0.entries)
  pub others : (x : ℕ) → contains (first ∷ r) x ≡ false → f.fat x ≡ f0.fat x
  pub counted : free_count f + suc (length r) ≡ free_count f0

abbrev started : FatBuffer → ℕ → FatBuffer
started f k = record f { fat = write_cell f.fat k fat_cluster_eof }

abbrev linked : FatBuffer → ℕ → ℕ → FatBuffer
linked f p k = record f { fat = write_cell (write_cell f.fat k fat_cluster_eof) p (k % 2 ^ 32) }

started-Grown : (f : FatBuffer) (k : ℕ) → find_free_cluster f ≡ some k → Grown f (started f k) k []
unfolding next_cluster
started-Grown f k e =
    let h = find_free_cluster-some f k e in
    record {
      same_size = refl;
      chain = (h.2, ground arith);
      in_use = λ x m. ground arith;
      was_free = λ x m. ground arith;
      others = λ x m. ground arith;
      counted = ground (
        arith,
        free_count-take f (started f k) k refl (λ x n. ground arith) h.0 (ground arith) h.1 h.2,
      );
    }

-- A free cluster is not in the chain so far.
not_in_chain :
    (f0 f : FatBuffer) (first : ℕ) (r : List ℕ) (k : ℕ)
    → Grown f0 f first r
    → f.fat k ≡ 0
    → contains (first ∷ r) k ≡ false
not_in_chain f0 f first r k g z = elim (Bool-cases (contains (first ∷ r) k)) [
  | inl m ↦ absurd (g.in_use k m z)
  | inr m ↦ m
]

linked-Grown :
    (f0 f : FatBuffer) (first : ℕ) (r : List ℕ) (k : ℕ)
    → f0.entries ≤ fat_end_min
    → Grown f0 f first r
    → find_free_cluster f ≡ some k
    → Grown f0 (linked f (last_of first r) k) first (r ++ (k ∷ []))
unfolding next_cluster
linked-Grown f0 f first r k small g e =
    let h = find_free_cluster-some f k e in
    let new = not_in_chain f0 f first r k g h.0 in
    let l = contains-last_of first r in
    let p = last_of first r in
    let last_in = g.was_free p l in
    let old = g.others k new in
    let parts = contains-append r (k ∷ []) in
    record {
      same_size = g.same_size;
      chain =
          Chain-link f (linked f p k) first r k refl new (λ x n m. ground arith) (ground arith)
            (h.2, ground arith) g.chain;
      in_use = λ x m. ground (arith, parts x, g.in_use x);
      was_free = λ x m. ground (arith, parts x, g.was_free x);
      others = λ x m. ground (arith, parts x, g.others x);
      counted = ground (
        arith,
        length-append r (k ∷ []),
        g.in_use p l,
        free_count-take f (linked f p k) k refl (λ x n. ground (arith, g.in_use p l)) h.0
            (ground arith) h.1 h.2,
      );
    }

-- Freeing the chain restores the cells that the table had.
Grown-undo :
    (f0 f : FatBuffer) (first : ℕ) (r : List ℕ)
    → Grown f0 f first r
    → ((release_started f first).entries ≡ f0.entries)
      × ((x : ℕ) → (release_started f first).fat x ≡ f0.fat x)
unfolding release_started
Grown-undo f0 f first r g =
    let h = free_chain_lem f first r g.chain in
    let nz = g.was_free first (ground arith) in
    (ground (arith, g.same_size), λ x. ground (arith, h.2 x, g.was_free x, g.others x))

-- What `allocate_chain` does for `count` clusters: it returns a chain of that many, taken from the
-- free ones, or nothing, where there are fewer, and then the table is as it was.
abbrev pub Allocates : FatBuffer → ℕ → Option ℕ × FatBuffer → Type 0
Allocates f0 count out =
    ((first : ℕ) × (r : List ℕ) × (out.0 ≡ some first)
      × Grown f0 out.1 first r
      × (suc (length r) ≡ count))
    ⊎ ((out.0 ≡ none)
        × (out.1.entries ≡ f0.entries)
        × ((x : ℕ) → out.1.fat x ≡ f0.fat x)
        × (free_count f0 < count))

last_of-append : (c : ℕ) (r : List ℕ) (k : ℕ) → last_of c (r ++ (k ∷ [])) ≡ k
last_of-append c [] k = refl
last_of-append c (y ∷ r) k = last_of-append y r k

set_in :
    (f : FatBuffer) (c v : ℕ)
    → c < f.entries
    → set f c v ≡ (some tt, record f { fat = write_cell f.fat c v })
unfolding set
set_in f c v h = ground arith

allocate_loop-started :
    (left : ℕ) (f : FatBuffer) (k : ℕ)
    → find_free_cluster f ≡ some k
    → k < f.entries
    → allocate_loop (suc left) f 0 none ≡ allocate_loop left (started f k) k (some k)
unfolding allocate_loop
allocate_loop-started left f k e h =
    let first_set = set_in f k fat_cluster_eof h in rw (e, first_set, allocate_loop) (rw first_set)

allocate_loop-linked :
    (left : ℕ) (f : FatBuffer) (first p k : ℕ)
    → find_free_cluster f ≡ some k
    → k < f.entries
    → p < f.entries
    → allocate_loop (suc left) f first (some p) ≡ allocate_loop left (linked f p k) first (some k)
unfolding allocate_loop
allocate_loop-linked left f first p k e h l =
    let first_set = set_in f k fat_cluster_eof h in
    let second_set = set_in (started f k) p (k % 2 ^ 32) l in
    rw (e, first_set, allocate_loop)
      (rw first_set (rw (second_set, allocate_loop) (rw (first_set, second_set))))

allocate_loop-Allocates :
    (left : ℕ) (f0 f : FatBuffer) (first : ℕ) (r : List ℕ)
    → f0.entries ≤ fat_end_min
    → Grown f0 f first r
    → Allocates f0 (suc (length r) + left) (allocate_loop left f first (some (last_of first r)))
unfolding allocate_loop
allocate_loop-Allocates zero f0 f first r small g = inl (first, r, refl, g, omega arith)
allocate_loop-Allocates (suc left) f0 f first r small g =
    elim (Option-cases (find_free_cluster f)) [
      | inl e ↦
          let undo = Grown-undo f0 f first r g in
          rw (e, allocate_loop)
            (inr (refl, undo.0, undo.1, omega (arith, g.counted, find_free_cluster-none f e)))
      | inr (k, e) ↦
          let h = find_free_cluster-some f k e in
          let last_in = g.was_free (last_of first r) (contains-last_of first r) in
          let rec =
            allocate_loop-Allocates left f0 (linked f (last_of first r) k) first (r ++ (k ∷ []))
              small (linked-Grown f0 f first r k small g e) in
          rw
            (allocate_loop-linked left f first (last_of first r) k e h.2
              (ground (arith, g.same_size)))
            (subst
              (λ n.
                Allocates f0 n (allocate_loop left (linked f (last_of first r) k) first (some k)))
              (omega (arith, length-append r (k ∷ []))) (rw (last_of-append first r k) at rec))
    ]

allocate_chain-loop :
    (f : FatBuffer) (count : ℕ) → count ≢ 0 → allocate_chain f count ≡ allocate_loop count f 0 none
unfolding allocate_chain
allocate_chain-loop f count nz = ground arith

-- For a count that is not zero and a table whose clusters have numbers below the end marks,
-- `allocate_chain` either returns the first of a chain of `count` clusters, all of which were free
-- and none of which is reserved, with every other cell as it was and `count` fewer clusters free,
-- or returns nothing because fewer than `count` clusters are free, with every cell as it was.
pub allocate_chain_lem :
    (f : FatBuffer) (count : ℕ)
    → f.entries ≤ fat_end_min
    → count ≢ 0
    → Allocates f count (allocate_chain f count)
unfolding allocate_loop release_started
allocate_chain_lem f zero small nz = absurd (nz refl)
allocate_chain_lem f (suc left) small nz = elim (Option-cases (find_free_cluster f)) [
  | inl e ↦
      rw (allocate_chain-loop f (suc left) nz, e, allocate_loop)
        (inr (refl, refl, λ x. refl, omega (arith, find_free_cluster-none f e)))
  | inr (k, e) ↦ rw (allocate_chain-loop f (suc left) nz) (
      rw (allocate_loop-started left f k e (find_free_cluster-some f k e).2) (
        subst (λ n. Allocates f n (allocate_loop left (started f k) k (some k))) (omega arith)
          (allocate_loop-Allocates left f (started f k) k [] small (started-Grown f k e))))
]

-- For a count that is not zero and a table whose clusters have numbers below the end marks,
-- releasing the chain that `allocate_chain` returned restores the number of entries and every cell.
pub free_chain-allocate_chain :
    (f : FatBuffer) (count first : ℕ)
    → f.entries ≤ fat_end_min
    → count ≢ 0
    → (allocate_chain f count).0 ≡ some first
    → let f' = (free_chain (allocate_chain f count).1 first).1 in
      (f'.entries ≡ f.entries) × ((x : ℕ) → f'.fat x ≡ f.fat x)
free_chain-allocate_chain f count first small nz e = elim (allocate_chain_lem f count small nz) [
  | inl (k, r, s, g, _) ↦
      let same : k ≡ first = ground arith in
      let h = free_chain_lem (allocate_chain f count).1 k r g.chain in
      rw (← same)
        (ground (arith, h.1, g.same_size), λ x. ground (arith, h.2 x, g.was_free x, g.others x))
  | inr (s, _, _, _) ↦ absurd (ground arith)
]
