-- ===== src/Fat/Table/Search.antt =====
-- Looking for a free cluster: `find_free_cluster` against a count of the free clusters.
use bubble_os.Base.{
  ℕ, zero, suc, ◌+◌, ◌-◌, ◌≤◌, ◌<◌, ◌≡◌, refl, ◌≢◌, inl, inr, none, some, arith, ◌==◌,
  if◌then◌else◌, Bool-cases,
}
use bubble_os.Fat.Table.{FatBuffer, find_free_from, find_free_cluster}

-- How many of the `n` cells from `c` on are free.
abbrev pub free_from : (ℕ → ℕ) → ℕ → ℕ → ℕ
free_from m zero c = 0
free_from m (suc n) c = (if m c == 0 then 1 else 0) + free_from m n (suc c)

-- How many clusters can be allocated: clusters 0 and 1 are reserved.
pub free_count : FatBuffer → ℕ
free_count f = free_from f.fat (f.entries - 2) 2

find_free_from-some :
    (f : FatBuffer) (n c k : ℕ)
    → find_free_from f n c ≡ some k
    → (f.fat k ≡ 0) × (c ≤ k) × (k < c + n)
unfolding find_free_from
find_free_from-some f zero c k e = absurd (cc)
find_free_from-some f (suc n) c k e = elim (Bool-cases (f.fat c == 0)) [
  | inl z ↦ ground arith
  | inr z ↦ ground (arith, find_free_from-some f n (suc c) k)
]

find_free_from-none :
    (f : FatBuffer) (n c : ℕ) → find_free_from f n c ≡ none → free_from f.fat n c ≡ 0
unfolding find_free_from
find_free_from-none f zero c e = refl
find_free_from-none f (suc n) c e = ground (arith, find_free_from-none f n (suc c))

-- What the search finds is free and may be allocated.
pub find_free_cluster-some :
    (f : FatBuffer) (k : ℕ)
    → find_free_cluster f ≡ some k
    → (f.fat k ≡ 0) × (2 ≤ k) × (k < f.entries)
unfolding find_free_cluster
find_free_cluster-some f k e =
    let h = find_free_from-some f (f.entries - 2) 2 k e in (h.0, h.1, omega arith)

-- It finds nothing only where nothing is free.
pub find_free_cluster-none : (f : FatBuffer) → find_free_cluster f ≡ none → free_count f ≡ 0
unfolding find_free_cluster free_count
find_free_cluster-none f e = find_free_from-none f (f.entries - 2) 2 e

free_from-congr :
    (m m' : ℕ → ℕ) (n c : ℕ)
    → ((x : ℕ) → c ≤ x → (m' x == 0) ≡ (m x == 0))
    → free_from m' n c ≡ free_from m n c
free_from-congr m m' zero c h = refl
free_from-congr m m' (suc n) c h =
    ground (arith, h c (omega arith), free_from-congr m m' n (suc c) (λ x l. h x (omega arith)))

free_from-take :
    (m m' : ℕ → ℕ) (n c k : ℕ)
    → ((x : ℕ) → x ≢ k → (m' x == 0) ≡ (m x == 0))
    → m k ≡ 0
    → m' k ≢ 0
    → c ≤ k
    → k < c + n
    → free_from m' n c + 1 ≡ free_from m n c
free_from-take m m' zero c k h z nz l u = absurd (omega arith)
free_from-take m m' (suc n) c k h z nz l u = elim (Bool-cases (c == k)) [
  | inl e ↦ ground (arith, free_from-congr m m' n (suc c) (λ x g. h x (ground arith)))
  | inr e ↦ ground (
    arith,
    h c (ground arith),
    free_from-take m m' n (suc c) k h z nz (ground arith) (omega arith),
  )
]

-- Taking one free cluster leaves one less to take.
pub free_count-take :
    (f f' : FatBuffer) (k : ℕ)
    → f'.entries ≡ f.entries
    → ((x : ℕ) → x ≢ k → (f'.fat x == 0) ≡ (f.fat x == 0))
    → f.fat k ≡ 0
    → f'.fat k ≢ 0
    → 2 ≤ k
    → k < f.entries
    → free_count f' + 1 ≡ free_count f
unfolding free_count
free_count-take f f' k e h z nz l u =
    rw e (free_from-take f.fat f'.fat (f.entries - 2) 2 k h z nz l (omega arith))
