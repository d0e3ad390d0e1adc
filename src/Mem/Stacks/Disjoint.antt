-- ===== src/Mem/Stacks/Disjoint.antt =====
-- No page is in two stacks, whether they are in use or free.
use bubble_os.Base.{
  ℕ, zero, suc, ◌+◌, ◌-◌, ◌*◌, ◌≤◌, ◌<◌, ◌≡◌, refl, sym, ap, ◌∙◌, ◌⊎◌, inl, inr, ◌&&◌, Option, none,
  some, List, [], ◌∷◌, arith, ltb, leb, ◌==◌, if◌then◌else◌, ==_iff, Bool-cases,
}
use bubble_os.Mem.Stacks.{PageIter, next, nth, FreeStackRange, StackAllocator, alloc_new}
use bubble_os.Sched.Process.{Stack}

-- How often a page is in one of the ranges.
abbrev pub covers : List FreeStackRange → ℕ → ℕ
covers [] x = 0
covers (r ∷ rs) x = if leb r.start x && leb x r.end then suc (covers rs x) else covers rs x

-- A range of as many pages as it says, at least one, and not at address 0.
abbrev pub WellFormed : FreeStackRange → Type 0
WellFormed r = (1 ≤ r.start) × (1 ≤ r.user_pages) × (r.end + 1 ≡ r.start + r.user_pages)

abbrev pub AllWellFormed : List FreeStackRange → Type 0
AllWellFormed [] = Unit {0}
AllWellFormed (r ∷ rs) = WellFormed r × AllWellFormed rs

-- With the stacks `out` in use: a page is at most once in a free range or a stack, and none that the
-- allocator has yet to reach is.
pub record Accounts (out : List FreeStackRange) (a : StackAllocator) : Type 0 where
  pub once :
      (x : ℕ) → covers a.free_ranges x + covers out x ≤ (if ltb x a.range.start then 1 else 0)
  pub well_formed : AllWellFormed a.free_ranges

abbrev pub at : PageIter → ℕ → PageIter
at it k = record it { start = k }

next-cases :
    (it : PageIter)
    → ((it.start ≤ it.end) × (next it ≡ (some it.start, at it (it.start + 1))))
      ⊎ ((it.end < it.start) × (next it ≡ (none, it)))
unfolding next
next-cases it = elim (Bool-cases (ltb it.end it.start)) [
  | inl e ↦ inr (ground arith, rw (e, next))
  | inr e ↦ inl (ground arith, rw (e, next))
]

abbrev pass_over : ℕ → Option ℕ × PageIter → Option ℕ × PageIter
pass_over n (page, it) = elim page [ none ↦ (none, it) | some _ ↦ nth it n ]

nth-cases :
    (it : PageIter) (n : ℕ)
    → ((it.start + n ≤ it.end) × (nth it n ≡ (some (it.start + n), at it (it.start + n + 1))))
      ⊎ ((it.end < it.start + n) × ((nth it n).0 ≡ none))
unfolding nth
nth-cases it zero =
    let plus : it.start ≡ it.start + 0 = omega arith in
    elim (next-cases it) [
      | inl (h, e) ↦ inl (omega (arith, h), e ∙ ap (λ k. (some k, at it (k + 1))) plus)
      | inr (h, e) ↦ inr (omega (arith, h), ap (λ r. r.0) e)
    ]
nth-cases it (suc n) = elim (next-cases it) [
  | inr (h, e) ↦ inr (omega (arith, h), ap (λ r. (pass_over n r).0) e)
  | inl (h, e) ↦
      let plus : it.start + 1 + n ≡ it.start + suc n = omega arith in
      elim (nth-cases (at it (it.start + 1)) n) [
        | inl (l, f) ↦
            inl (omega (arith, l), ap (pass_over n) e ∙ f ∙ ap (λ k. (some k, at it (k + 1))) plus)
        | inr (l, f) ↦ inr (omega (arith, l), ap (λ r. (pass_over n r).0) e ∙ f)
      ]
]

abbrev finish :
    StackAllocator → Option ℕ → Option ℕ → Option ℕ × PageIter → Option Stack × StackAllocator
finish a guard start (end, r3) = elim guard [
  | none ↦ (none, a)
  | some _ ↦ elim start [
    | none ↦ (none, a)
    | some first ↦ elim end [
      | none ↦ (none, a)
      | some last ↦ (
        some (record { top = last * 4096 + 4096; bottom = first * 4096 }),
        record a { range = r3 },
      )
    ]
  ]
]

-- The rest of `alloc_new` behind the start page, and behind the guard page.
abbrev from_start :
    StackAllocator → ℕ → Option ℕ → Option ℕ × PageIter → Option Stack × StackAllocator
from_start a n guard (start, r2) =
    finish a guard start (if n == 1 then (start, r2) else nth r2 (n - 2))

abbrev from_guard : StackAllocator → ℕ → Option ℕ × PageIter → Option Stack × StackAllocator
from_guard a n (guard, r1) = from_start a n guard (next r1)

alloc_new-guard : (a : StackAllocator) (n : ℕ) → alloc_new a n ≡ from_guard a n (next a.range)
unfolding alloc_new
alloc_new-guard a n = refl

-- With `n` more pages behind the guard page, these are the stack; otherwise there is none.
pub alloc_new-cases :
    (a : StackAllocator) (n : ℕ)
    → 1 ≤ n
    → let s = a.range.start in
      ((s + n ≤ a.range.end)
        × (alloc_new a n ≡ (
          some (record { top = (s + n) * 4096 + 4096; bottom = (s + 1) * 4096 }),
          record a { range = at a.range (s + n + 1) },
        )))
      ⊎ ((a.range.end < s + n) × (alloc_new a n ≡ (none, a)))
alloc_new-cases a n h = elim (next-cases a.range) [
  | inr (l, e) ↦ inr (omega (arith, l, h), alloc_new-guard a n ∙ ap (from_guard a n) e)
  | inl (l, e) ↦
      let s = a.range.start in
      let first = alloc_new-guard a n ∙ ap (from_guard a n) e in
      elim (next-cases (at a.range (s + 1))) [
        | inr (l', e') ↦ inr (omega (arith, l', h), first ∙ ap (from_start a n (some s)) e')
        | inl (l', e') ↦
            let second = first ∙ ap (from_start a n (some s)) e' in
            let r2 = at a.range (s + 1 + 1) in
            elim (Bool-cases (n == 1)) [
              | inl one ↦
                  let one' : 1 ≡ n = sym ((==_iff n 1).0 one) in
                  inl (omega (arith, l', one'), second ∙ rw (← one') refl)
              | inr more ↦
                  let third =
                    second
                    ∙ ap
                        (λ b.
                          finish a (some s) (some (s + 1))
                            (if b then (some (s + 1), r2) else nth r2 (n - 2)))
                        more in
                  let plus : s + 1 + 1 + (n - 2) ≡ s + n = ground arith in
                  elim (nth-cases r2 (n - 2)) [
                    | inl (k, f) ↦ inl (
                      omega (arith, k, plus),
                      third
                          ∙ ap (finish a (some s) (some (s + 1)))
                              (f ∙ ap (λ x. (some x, at a.range (x + 1))) plus),
                    )
                    | inr (k, f) ↦ inr (
                      omega (arith, k, plus),
                      third
                          ∙ ap (λ o. (finish a (some s) (some (s + 1)) (o, (nth r2 (n - 2)).1))) f,
                    )
                  ]
            ]
      ]
]
