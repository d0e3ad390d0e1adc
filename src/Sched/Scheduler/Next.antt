-- ===== src/Sched/Scheduler/Next.antt =====
-- `next_process` is round robin: it takes the first process behind the current one that can run.
use bubble_os.Base.{
  ℕ, zero, suc, ◌+◌, ◌-◌, ◌≤◌, ◌<◌, ◌≡◌, sym, ap, ◌∙◌, ◌≢◌, inl, inr, Bool, true, false, none, some,
  List, arith, ltb, ◌==◌, if◌then◌else◌, ==_iff, Bool-cases, Option-cases, length, get_elem?,
  get_elem?-lt, get_elem?-some,
}
use mathlib.Core.Bool.{false≢true}
use bubble_os.Sched.Process.{Process}
use bubble_os.Sched.Scheduler.{is_ready, next_index, find_ready}

-- How many turns after `idx` it is the turn of `i`, of `n`: 1 for the next one, `n` for `idx` itself.
abbrev pub distance : ℕ → ℕ → ℕ → ℕ
distance n idx i = if ltb idx i then i - idx else i + n - idx

-- Whether the process at an index can run.
abbrev pub ready_at : ℕ → List Process → ℕ → Bool
ready_at ticks ps i = elim (get_elem? ps i) [ some p ↦ is_ready ticks ps p | none ↦ false ]

pub next_index-lt : (n idx : ℕ) → 0 < n → next_index idx n < n
unfolding next_index
next_index-lt n idx h = ground arith

distance-next : (n idx : ℕ) → idx < n → distance n idx (next_index idx n) ≡ 1
unfolding next_index
distance-next n idx h = ground arith

pub distance-pos : (n idx i : ℕ) → idx < n → 1 ≤ distance n idx i
distance-pos n idx i h = ground arith

pub distance-le : (n idx i : ℕ) → idx < n → i < n → distance n idx i ≤ n
distance-le n idx i h l = ground arith

distance-step :
    (n idx i : ℕ)
    → idx < n
    → i < n
    → i ≢ next_index idx n
    → distance n idx i ≡ suc (distance n (next_index idx n) i)
unfolding next_index
distance-step n idx i h l ne = ground arith

pub ready_at-lt :
    (ticks : ℕ) (ps : List Process) (i : ℕ) → ready_at ticks ps i ≡ true → i < length ps
ready_at-lt ticks ps i e = elim (Option-cases (get_elem? ps i)) [
  | inl n ↦ absurd (ground arith)
  | inr (p, q) ↦ get_elem?-lt ps i p q
]

module _ (ticks : ℕ) (ps : List Process) where
  find_ready-step :
      (left idx : ℕ) (p : Process)
      → get_elem? ps (next_index idx (length ps)) ≡ some p
      → find_ready (suc left) ticks ps idx ≡ (
          if is_ready ticks ps p
          then some (next_index idx (length ps), p)
          else find_ready left ticks ps (next_index idx (length ps)))
  unfolding find_ready
  find_ready-step left idx p e = rw (e, find_ready)

  pub ready_at-eq :
      (i : ℕ) (p : Process) → get_elem? ps i ≡ some p → ready_at ticks ps i ≡ is_ready ticks ps p
  ready_at-eq i p e = rw (e, ready_at)

  pub ready_at-none : (i : ℕ) → get_elem? ps i ≡ none → ready_at ticks ps i ≡ false
  ready_at-none i e = rw (e, ready_at)

  ready_at-ne : (i j : ℕ) → ready_at ticks ps i ≡ true → ready_at ticks ps j ≡ false → i ≢ j
  ready_at-ne i j r n q = false≢true (sym n ∙ ap (ready_at ticks ps) (sym q) ∙ r)

  -- What the search finds can run, and nothing that can run has its turn before.
  pub find_ready-some :
      (left idx i : ℕ) (p : Process)
      → idx < length ps
      → find_ready left ticks ps idx ≡ some (i, p)
      → (get_elem? ps i ≡ some p)
        × (ready_at ticks ps i ≡ true)
        × ((j : ℕ)
            → ready_at ticks ps j ≡ true
            → distance (length ps) idx i ≤ distance (length ps) idx j)
  unfolding find_ready
  find_ready-some zero idx i p h e = absurd (cc)
  find_ready-some (suc left) idx i p h e =
      let n = length ps in
      let i' = next_index idx n in
      let l = next_index-lt n idx (omega arith) in
      let (p', e') = get_elem?-some ps i' l in
      let step = find_ready-step left idx p' e' in
      elim (Bool-cases (is_ready ticks ps p')) [
        | inl r ↦
            let same : i' ≡ i = ground arith in
            let same_p : p' ≡ p = ground arith in
            rw (← same, ← same_p)
              (
                e',
                ready_at-eq i' p' e' ∙ r,
                λ j _. omega (arith, distance-next n idx h, distance-pos n idx j h),
              )
        | inr r ↦
            let (at, ready, least) = find_ready-some left i' i p l (ground arith) in
            let stopped : ready_at ticks ps i' ≡ false = ready_at-eq i' p' e' ∙ r in
            let later = λ (j : ℕ) (rj : ready_at ticks ps j ≡ true).
              distance-step n idx j h (ready_at-lt ticks ps j rj) (ready_at-ne j i' rj stopped) in
            (at, ready, λ j rj. omega (arith, later i ready, later j rj, least j rj))
      ]

  -- Where it finds nothing, nothing whose turn is within the passes made can run.
  pub find_ready-none :
      (left idx : ℕ)
      → idx < length ps
      → find_ready left ticks ps idx ≡ none
      → (j : ℕ) → j < length ps
      → distance (length ps) idx j ≤ left
      → ready_at ticks ps j ≡ false
  find_ready-none zero idx h e j l d = absurd (omega (arith, distance-pos (length ps) idx j h))
  find_ready-none (suc left) idx h e j l d =
      let n = length ps in
      let i' = next_index idx n in
      let l' = next_index-lt n idx (omega arith) in
      let (p', e') = get_elem?-some ps i' l' in
      let step = find_ready-step left idx p' e' in
      elim (Bool-cases (is_ready ticks ps p')) [
        | inl r ↦ absurd (ground arith)
        | inr r ↦ elim (Bool-cases (j == i')) [
          | inl q ↦ rw ((==_iff j i').0 q) (ready_at-eq i' p' e' ∙ r)
          | inr q ↦
              let ne : j ≢ i' = ground arith in
              find_ready-none left i' l' (ground arith) j l
                (omega (arith, distance-step n idx j h l ne))
        ]
      ]
