-- ===== src/Sched/Calls/Listed.antt =====
-- What holds of the process list at any time, and the list operations that keep it.
use bubble_os.Base.{
  ℕ, zero, suc, ◌+◌, ◌≤◌, ◌<◌, ◌≡◌, refl, ap, inl, inr, some, List, [], ◌∷◌, ◌++◌, map, arith,
  Bool-cases, length, get_elem?, set,
}
use bubble_os.Sched.Process.{Process}
use bubble_os.Sched.Fd.Standard.{IsStandard}
use bubble_os.Sched.Calls.{remove_at, receive}

-- The processes stand in the order of their pids, from `lo` on and below `hi`, each with its standard
-- descriptors.
abbrev pub Listed : ℕ → ℕ → List Process → Type 0
Listed lo hi [] = lo ≤ hi
Listed lo hi (p ∷ ps) = (lo ≤ p.pid) × IsStandard p.fd_table × Listed (suc p.pid) hi ps

pub Listed-weaken :
    (lo lo' hi : ℕ) (ps : List Process) → lo' ≤ lo → Listed lo hi ps → Listed lo' hi ps
Listed-weaken lo lo' hi [] h l = omega arith
Listed-weaken lo lo' hi (p ∷ ps) h l = (omega arith, l.1, l.2)

pub Listed-set :
    (lo hi : ℕ) (ps : List Process) (i : ℕ) (p q : Process)
    → get_elem? ps i ≡ some p
    → q.pid ≡ p.pid
    → (IsStandard p.fd_table → IsStandard q.fd_table)
    → Listed lo hi ps
    → Listed lo hi (set ps i q)
Listed-set lo hi [] i p q e same keep l = l
Listed-set lo hi (x ∷ ps) zero p q e same keep l =
    let x_is_p : x ≡ p = ground arith in
    let pid : q.pid ≡ x.pid = ground arith in (rw pid l.0, keep (rw x_is_p at l.1), rw pid l.2)
Listed-set lo hi (x ∷ ps) (suc i) p q e same keep l =
    (l.0, l.1, Listed-set (suc x.pid) hi ps i p q e same keep l.2)

pub Listed-push :
    (lo hi : ℕ) (ps : List Process) (p : Process)
    → p.pid ≡ hi
    → IsStandard p.fd_table
    → Listed lo hi ps
    → Listed lo (suc hi) (ps ++ (p ∷ []))
Listed-push lo hi [] p e s l = (omega arith, s, omega arith)
Listed-push lo hi (x ∷ ps) p e s l = (l.0, l.1, Listed-push (suc x.pid) hi ps p e s l.2)

pub Listed-grow : (lo hi : ℕ) (ps : List Process) → Listed lo hi ps → Listed lo (suc hi) ps
Listed-grow lo hi [] l = omega arith
Listed-grow lo hi (x ∷ ps) l = (l.0, l.1, Listed-grow (suc x.pid) hi ps l.2)

pub Listed-remove_at :
    (lo hi : ℕ) (ps : List Process) (i : ℕ) → Listed lo hi ps → Listed lo hi (remove_at ps i)
Listed-remove_at lo hi [] i l = l
Listed-remove_at lo hi (x ∷ ps) zero l = Listed-weaken (suc x.pid) lo hi ps (omega arith) l.2
Listed-remove_at lo hi (x ∷ ps) (suc i) l = (l.0, l.1, Listed-remove_at (suc x.pid) hi ps i l.2)

receive-frame :
    (input : ℕ) (p : Process)
    → ((receive input p).pid ≡ p.pid) × ((receive input p).fd_table ≡ p.fd_table)
receive-frame input p = elim (Bool-cases p.blocking) [
  | inl e ↦ (ground arith, ground arith)
  | inr e ↦ (ground arith, ground arith)
]

pub Listed-receive :
    (lo hi : ℕ) (ps : List Process) (input : ℕ)
    → Listed lo hi ps
    → Listed lo hi (map (receive input) ps)
Listed-receive lo hi [] input l = l
Listed-receive lo hi (x ∷ ps) input l =
    let f = receive-frame input x in
    (rw f.0 l.0, rw f.1 l.1, rw f.0 (Listed-receive (suc x.pid) hi ps input l.2))

-- The standard descriptors of a process that is listed.
pub Listed-IsStandard :
    (lo hi : ℕ) (ps : List Process) (i : ℕ) (p : Process)
    → get_elem? ps i ≡ some p
    → Listed lo hi ps
    → IsStandard p.fd_table
Listed-IsStandard lo hi [] i p e l = absurd (cc)
Listed-IsStandard lo hi (x ∷ ps) zero p e l = let x_is_p : x ≡ p = ground arith in rw x_is_p at l.1
Listed-IsStandard lo hi (x ∷ ps) (suc i) p e l = Listed-IsStandard (suc x.pid) hi ps i p e l.2

pub length-remove_at {ℓ} :
    {A : Type ℓ} (xs : List A) (i : ℕ) → i < length xs → length (remove_at xs i) + 1 ≡ length xs
length-remove_at [] i h = elim h [ ]
length-remove_at (x ∷ xs) zero h = omega arith
length-remove_at (x ∷ xs) (suc i) h = omega (arith, length-remove_at xs i)

pub Listed-above :
    (lo hi : ℕ) (ps : List Process) (i : ℕ) (p : Process)
    → Listed lo hi ps
    → get_elem? ps i ≡ some p
    → (lo ≤ p.pid) × (p.pid < hi)
Listed-above lo hi [] i p l e = absurd (cc)
Listed-above lo hi (x ∷ ps) zero p l e =
    let x_is_p : x.pid ≡ p.pid = ground arith in
    (omega arith, omega (arith, Listed-le (suc x.pid) hi ps l.2))
  where
    Listed-le : (lo hi : ℕ) (ps : List Process) → Listed lo hi ps → lo ≤ hi
    Listed-le lo hi [] l = l
    Listed-le lo hi (x ∷ ps) l = omega (arith, Listed-le (suc x.pid) hi ps l.2)
Listed-above lo hi (x ∷ ps) (suc i) p l e =
    let h = Listed-above (suc x.pid) hi ps i p l.2 e in (omega (arith, h.0), h.1)

-- Every pid is below the counter that gives out the next, and no two processes share one.
pub Listed-unique :
    (lo hi : ℕ) (ps : List Process) (i j : ℕ) (p q : Process)
    → Listed lo hi ps
    → get_elem? ps i ≡ some p
    → get_elem? ps j ≡ some q
    → p.pid ≡ q.pid
    → i ≡ j
Listed-unique lo hi [] i j p q l a b e = absurd (cc)
Listed-unique lo hi (x ∷ ps) zero zero p q l a b e = refl
Listed-unique lo hi (x ∷ ps) zero (suc j) p q l a b e =
    let x_is_p : x.pid ≡ p.pid = ground arith in
    absurd (omega (arith, (Listed-above (suc x.pid) hi ps j q l.2 b).0))
Listed-unique lo hi (x ∷ ps) (suc i) zero p q l a b e =
    let x_is_q : x.pid ≡ q.pid = ground arith in
    absurd (omega (arith, (Listed-above (suc x.pid) hi ps i p l.2 a).0))
Listed-unique lo hi (x ∷ ps) (suc i) (suc j) p q l a b e =
    ap suc (Listed-unique (suc x.pid) hi ps i j p q l.2 a b e)
