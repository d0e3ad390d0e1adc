-- ===== src/Fat/Table/Chain.antt =====
-- Cluster chains: what `next_cluster` reaches from a first cluster, as a list.
use bubble_os.Base.{
  ℕ, ◌<◌, ◌≡◌, refl, ap, ◌≢◌, inl, inr, true, false, ◌||◌, none, some, List, [], ◌∷◌, ◌++◌, arith,
  ◌==◌, ==_iff, Bool-cases, length, contains,
}
use bubble_os.Fat.Table.{FatBuffer, next_cluster}

-- The chain from `c` goes on through `rest`, in order, and ends there.
abbrev pub Chain : FatBuffer → ℕ → List ℕ → Type 0
Chain f c [] = (c < f.entries) × (next_cluster f c ≡ none)
Chain f c (y ∷ r) = (c < f.entries) × (next_cluster f c ≡ some y) × Chain f y r

-- The table says what follows, so two chains from one cluster are the same.
pub Chain-unique : (f : FatBuffer) (c : ℕ) (r s : List ℕ) → Chain f c r → Chain f c s → r ≡ s
Chain-unique f c [] [] p q = refl
Chain-unique f c [] (y ∷ s) p q = ground arith
Chain-unique f c (x ∷ r) [] p q = ground arith
Chain-unique f c (x ∷ r) (y ∷ s) p q =
    let e : y ≡ x = ground arith in cc (e, Chain-unique f x r s p.2 (rw e at q.2))

-- A chain that starts inside another is a part of it.
Chain-suffix :
    (f : FatBuffer) (c : ℕ) (r : List ℕ) (x : ℕ)
    → Chain f c r
    → contains r x ≡ true
    → (s : List ℕ) × Chain f x s × (length s < length r)
Chain-suffix f c [] x h m = absurd (cc)
Chain-suffix f c (y ∷ r) x h m = elim (Bool-cases (y == x)) [
  | inl e ↦ (r, rw (← (==_iff y x).0 e) h.2, omega arith)
  | inr e ↦ let (s, hs, l) = Chain-suffix f y r x h.2 (ground arith) in (s, hs, omega arith)
]

-- So no cluster stands in a chain twice.
pub Chain-fresh : (f : FatBuffer) (c : ℕ) (r : List ℕ) → Chain f c r → contains r c ≡ false
Chain-fresh f c r h = elim (Bool-cases (contains r c)) [
  | inr e ↦ e
  | inl e ↦
      let (s, hs, l) = Chain-suffix f c r c h e in
      absurd (omega (arith, ap length (Chain-unique f c s r hs h)))
]

-- A chain depends on its own cells alone.
pub Chain-frame :
    (f g : FatBuffer) (c : ℕ) (r : List ℕ)
    → g.entries ≡ f.entries
    → ((x : ℕ) → contains (c ∷ r) x ≡ true → g.fat x ≡ f.fat x)
    → Chain f c r
    → Chain g c r
unfolding next_cluster
Chain-frame f g c [] e same h = ground (arith, same c (ground arith))
Chain-frame f g c (y ∷ r) e same h = (
  ground arith,
  ground (arith, same c (ground arith)),
  Chain-frame f g y r e (λ x m. same x (ground arith)) h.2,
)

-- A chain lies in the table.
pub Chain-below :
    (f : FatBuffer) (c : ℕ) (r : List ℕ)
    → Chain f c r
    → (x : ℕ) → contains (c ∷ r) x ≡ true
    → x < f.entries
Chain-below f c [] h x m = ground arith
Chain-below f c (y ∷ r) h x m = elim (Bool-cases (c == x)) [
  | inl e ↦ ground arith
  | inr e ↦ Chain-below f y r h.2 x (ground arith)
]

-- The last cluster of a chain.
abbrev pub last_of : ℕ → List ℕ → ℕ
last_of c [] = c
last_of c (y ∷ r) = last_of y r

pub contains-last_of : (c : ℕ) (r : List ℕ) → contains (c ∷ r) (last_of c r) ≡ true
contains-last_of c [] = ground arith
contains-last_of c (y ∷ r) = ground (arith, contains-last_of y r)

pub contains-append :
    (xs ys : List ℕ) (a : ℕ) → contains (xs ++ ys) a ≡ (contains xs a || contains ys a)
contains-append [] ys a = refl
contains-append (x ∷ xs) ys a = ground (arith, contains-append xs ys a)

-- Linking a cluster that ends the chain behind its last one makes the chain longer by it.
pub Chain-link :
    (f g : FatBuffer) (c : ℕ) (r : List ℕ) (k : ℕ)
    → g.entries ≡ f.entries
    → contains (c ∷ r) k ≡ false
    → ((x : ℕ) → x ≢ last_of c r → x ≢ k → g.fat x ≡ f.fat x)
    → next_cluster g (last_of c r) ≡ some k
    → Chain g k []
    → Chain f c r
    → Chain g c (r ++ (k ∷ []))
unfolding next_cluster
Chain-link f g c [] k e new same link end h = (ground arith, link, end)
Chain-link f g c (y ∷ r) k e new same link end h = (
  ground arith,
  ground (arith, same c ne (ground arith)),
  Chain-link f g y r k e (ground arith) same link end h.2,
)
  where
    ne : c ≢ last_of y r
    ne q = ground (arith, contains-last_of y r, Chain-fresh f c (y ∷ r) h)
