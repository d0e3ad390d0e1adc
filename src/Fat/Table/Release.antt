-- ===== src/Fat/Table/Release.antt =====
-- Releasing a chain: `free_chain` returns on every table, and frees exactly the chain it is given.
use bubble_os.Base.{
  ℕ, zero, suc, ◌+◌, ◌≤◌, ◌<◌, ◌≡◌, refl, ◌≢◌, inl, inr, Option, none, some, List, [], ◌∷◌, arith,
  ◌==◌, if◌then◌else◌, Bool-cases, contains,
}
use bubble_os.Fat.Table.{FatBuffer, write_cell, next_cluster, set, free_chain_loop, free_chain}
use bubble_os.Fat.Table.Chain.{Chain, Chain-fresh, Chain-frame}

-- How many of the first `k` cells are in use.
used : (ℕ → ℕ) → ℕ → ℕ
used m zero = 0
used m (suc k) = used m k + (if m k == 0 then 0 else 1)

used-le : (m : ℕ → ℕ) (k : ℕ) → used m k ≤ k
unfolding used
used-le m zero = omega arith
used-le m (suc k) = ground (arith, used-le m k)

used-frame : (m : ℕ → ℕ) (c v k : ℕ) → k ≤ c → used (write_cell m c v) k ≡ used m k
unfolding used
used-frame m c v zero h = refl
used-frame m c v (suc k) h = ground (arith, used-frame m c v k)

-- Freeing a cell in use leaves one less.
used-write_cell : (m : ℕ → ℕ) (c k : ℕ) → c < k → m c ≢ 0 → used (write_cell m c 0) k + 1 ≡ used m k
unfolding used
used-write_cell m c zero h n = absurd (omega arith)
used-write_cell m c (suc k) h n = elim (Bool-cases (c == k)) [
  | inl e ↦ ground (arith, used-frame m c 0 k)
  | inr e ↦ ground (arith, used-write_cell m c k)
]

-- Each round but the last frees a cell in use, so that the loop ends also where the table links
-- clusters in a circle.
free_chain_loop-ne-none :
    (fuel : ℕ) (f : FatBuffer) (c : ℕ)
    → used f.fat f.entries < fuel
    → free_chain_loop fuel f c ≢ none
unfolding free_chain_loop next_cluster set
free_chain_loop-ne-none zero f c h = elim h [ ]
free_chain_loop-ne-none (suc fuel) f c h = ground (
  arith,
  free_chain_loop-ne-none fuel (record f { fat = write_cell f.fat c 0 }) (f.fat c),
  used-write_cell f.fat c f.entries,
)

abbrev freed : FatBuffer → ℕ → FatBuffer
freed f c = record f { fat = write_cell f.fat c 0 }

freed-Chain : (f : FatBuffer) (c y : ℕ) (r : List ℕ) → Chain f c (y ∷ r) → Chain (freed f c) y r
freed-Chain f c y r h =
    Chain-frame f (freed f c) y r refl (λ x m. ground (arith, Chain-fresh f c (y ∷ r) h)) h.2

-- Whatever the fuel, what the loop returns on a chain is that chain freed.
free_chain_loop-Chain :
    (fuel : ℕ) (f : FatBuffer) (c : ℕ) (r : List ℕ) (out : Option (Unit {0}) × FatBuffer)
    → Chain f c r
    → free_chain_loop fuel f c ≡ some out
    → (out.0 ≡ some tt)
      × (out.1.entries ≡ f.entries)
      × ((x : ℕ) → out.1.fat x ≡ (if contains (c ∷ r) x then 0 else f.fat x))
unfolding free_chain_loop set
free_chain_loop-Chain zero f c r out h e = absurd (cc)
free_chain_loop-Chain (suc fuel) f c [] out h e = (ground arith, ground arith, λ x. ground arith)
free_chain_loop-Chain (suc fuel) f c (y ∷ r) out h e =
    let rest =
      free_chain_loop-Chain fuel (freed f c) y r out (freed-Chain f c y r h) (ground arith) in
    (rest.0, rest.1, λ x. ground (arith, rest.2 x))

-- `free_chain` never runs out of fuel: it returns on every table, corrupt ones included.
pub free_chain_total :
    (f : FatBuffer) (c : ℕ) → free_chain_loop (f.entries + 1) f c ≡ some (free_chain f c)
unfolding free_chain
free_chain_total f c =
    ground (arith, free_chain_loop-ne-none (f.entries + 1) f c, used-le f.fat f.entries)

-- On a cluster chain that begins with `c` and goes on with `r`, `free_chain` succeeds, clears
-- exactly the cells of the chain and leaves every other as it is.
pub free_chain_lem :
    (f : FatBuffer) (c : ℕ) (r : List ℕ)
    → Chain f c r
    → ((free_chain f c).0 ≡ some tt)
      × ((free_chain f c).1.entries ≡ f.entries)
      × ((x : ℕ) → (free_chain f c).1.fat x ≡ (if contains (c ∷ r) x then 0 else f.fat x))
free_chain_lem f c r h =
    free_chain_loop-Chain (f.entries + 1) f c r (free_chain f c) h (free_chain_total f c)
