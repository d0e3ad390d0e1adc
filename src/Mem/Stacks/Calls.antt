-- ===== src/Mem/Stacks/Calls.antt =====
-- What `alloc` and `free` of the stack allocator do to the pages accounted for.
use bubble_os.Base.{
  ℕ, suc, ◌+◌, ◌-◌, ◌*◌, ◌/◌, ◌%◌, ◌≤◌, ◌<◌, ◌≡◌, refl, ap, ◌∙◌, ◌≢◌, inl, inr, false, ◌&&◌, ◌||◌,
  Option, none, some, List, [], ◌∷◌, ◌++◌, arith, ltb, leb, ◌==◌, if◌then◌else◌, Bool-cases,
  Option-cases,
}
use bubble_os.Mem.Stacks.{
  FreeStackRange, StackAllocator, take_range, alloc_new, alloc_stack, to_range, free_stack_range,
}
use bubble_os.Mem.Stacks.Disjoint.{covers, WellFormed, AllWellFormed, Accounts, at, alloc_new-cases}
use bubble_os.Sched.Process.{Stack}

covers-swap :
    (r q : FreeStackRange) (rs : List FreeStackRange) (x : ℕ)
    → covers (r ∷ q ∷ rs) x ≡ covers (q ∷ r ∷ rs) x
covers-swap r q rs x = ground arith

covers-cons :
    (r : FreeStackRange) (rs qs : List FreeStackRange) (x : ℕ)
    → covers rs x ≡ covers qs x
    → covers (r ∷ rs) x ≡ covers (r ∷ qs) x
covers-cons r rs qs x e = ap (λ n. if leb r.start x && leb x r.end then suc n else n) e

take_range-found :
    (rs rest : List FreeStackRange) (pages : ℕ) (r : FreeStackRange)
    → take_range rs pages ≡ some (r, rest)
    → AllWellFormed rs
    → (r.user_pages ≡ pages)
      × WellFormed r
      × AllWellFormed rest
      × ((x : ℕ) → covers rs x ≡ covers (r ∷ rest) x)
unfolding take_range
take_range-found [] rest pages r e w = absurd (cc)
take_range-found (q ∷ rs) rest pages r e w = elim (Bool-cases (q.user_pages == pages)) [
  | inl f ↦
      let same : q ≡ r = ground arith in
      let same_rest : rs ≡ rest = ground arith in
      rw (← same, ← same_rest) (ground arith, w.0, w.1, λ x. refl)
  | inr f ↦ elim (Option-cases (take_range rs pages)) [
    | inl n ↦ absurd (ground arith)
    | inr ((r', rest'), n) ↦
        let same : r' ≡ r = ground arith in
        let same_rest : q ∷ rest' ≡ rest = ground arith in
        let (size, wr, wrest, c) = take_range-found rs rest' pages r' n w.1 in
        rw (← same, ← same_rest)
          (
            size,
            wr,
            (w.0, wrest),
            λ x. covers-cons q rs (r' ∷ rest') x (c x) ∙ covers-swap q r' rest' x,
          )
  ]
]

alloc_stack-free :
    (a : StackAllocator) (pages : ℕ) (r : FreeStackRange) (rs : List FreeStackRange)
    → pages ≢ 0
    → take_range a.free_ranges pages ≡ some (r, rs)
    → alloc_stack a pages ≡ (
      some (record { top = r.end * 4096 + 4096; bottom = r.start * 4096 }),
      record a { free_ranges = rs },
    )
unfolding alloc_stack
alloc_stack-free a pages r rs n e =
    let z : (pages == 0) ≡ false = ground arith in rw (z, e, alloc_stack)

alloc_stack-new :
    (a : StackAllocator) (pages : ℕ)
    → pages ≢ 0
    → take_range a.free_ranges pages ≡ none
    → alloc_stack a pages ≡ alloc_new a pages
unfolding alloc_stack
alloc_stack-new a pages n e = let z : (pages == 0) ≡ false = ground arith in rw (z, e, alloc_stack)

-- The outcome of `alloc`: a stack of `pages` pages, which is now accounted as in use; or none.
abbrev pub Allocated :
    List FreeStackRange → StackAllocator → ℕ → Option Stack × StackAllocator → Type 0
Allocated out a pages (none, a') =
    (a' ≡ a) × (take_range a.free_ranges pages ≡ none) × (a.range.end < a.range.start + pages)
Allocated out a pages (some stack, a') =
    (stack.top ≡ stack.bottom + pages * 4096)
    × (stack.bottom % 4096 ≡ 0)
    × WellFormed (to_range stack)
    × Accounts (to_range stack ∷ out) a'

-- The pages of a stack, once it is a range again.
stack_range :
    (s e n : ℕ) (out : List FreeStackRange) (x : ℕ)
    → 1 ≤ s
    → 1 ≤ n
    → e + 1 ≡ s + n
    → let stack : Stack = record { top = e * 4096 + 4096; bottom = s * 4096 } in
      (stack.top ≡ stack.bottom + n * 4096)
      × (stack.bottom % 4096 ≡ 0)
      × WellFormed (to_range stack)
      × (covers (to_range stack ∷ out) x
          ≡ (if leb s x && leb x e then suc (covers out x) else covers out x))
stack_range s e n out x one many span =
    let first : s * 4096 / 4096 ≡ s = omega arith in
    let last : (e * 4096 + 4096 - 1) / 4096 ≡ e = omega arith in
    (
      omega arith,
      omega arith,
      (omega arith, omega arith, omega arith),
      ap
            (λ k.
              if leb k x && leb x ((e * 4096 + 4096 - 1) / 4096)
              then suc (covers out x)
              else covers out x)
            first
          ∙ ap (λ k. if leb s x && leb x k then suc (covers out x) else covers out x) last,
    )

once_free :
    (r : FreeStackRange) (rs out : List FreeStackRange) (x m : ℕ) {n f : ℕ}
    → f ≡ covers (r ∷ rs) x
    → f + covers out x ≤ m
    → n ≡ (if leb r.start x && leb x r.end then suc (covers out x) else covers out x)
    → covers rs x + n ≤ m
once_free r rs out x m c h q = ground arith

once_new :
    (s pages f : ℕ) (out : List FreeStackRange) (x : ℕ) {n : ℕ}
    → f + covers out x ≤ (if ltb x s then 1 else 0)
    → n ≡ (if leb (s + 1) x && leb x (s + pages) then suc (covers out x) else covers out x)
    → f + n ≤ (if ltb x (s + pages + 1) then 1 else 0)
once_new s pages f out x h q = ground arith

of_free :
    (out : List FreeStackRange) (a : StackAllocator) (pages : ℕ) (r : FreeStackRange)
    (rs : List FreeStackRange)
    → take_range a.free_ranges pages ≡ some (r, rs)
    → Accounts out a
    → Allocated out a pages (
      some (record { top = r.end * 4096 + 4096; bottom = r.start * 4096 }),
      record a { free_ranges = rs },
    )
of_free out a pages r rs e v =
    let (size, (one, many, span), wrest, c) =
      take_range-found a.free_ranges rs pages r e v.well_formed in
    let made = λ (x : ℕ). stack_range r.start r.end pages out x one (omega arith) (omega arith) in
    (
      (made 0).0,
      (made 0).1,
      (made 0).2,
      record {
        once = λ x. once_free r rs out x _ (c x) (v.once x) (made x).3;
        well_formed = wrest;
      },
    )

of_new :
    (out : List FreeStackRange) (a : StackAllocator) (pages : ℕ)
    → 1 ≤ pages
    → Accounts out a
    → let s = a.range.start in
      Allocated out a pages (
        some (record { top = (s + pages) * 4096 + 4096; bottom = (s + 1) * 4096 }),
        record a { range = at a.range (s + pages + 1) },
      )
of_new out a pages h v =
    let s = a.range.start in
    let made =
      λ (x : ℕ). stack_range (s + 1) (s + pages) pages out x (omega arith) h (omega arith) in
    (
      (made 0).0,
      (made 0).1,
      (made 0).2,
      record {
        once = λ x. once_new s pages (covers a.free_ranges x) out x (v.once x) (made x).3;
        well_formed = v.well_formed;
      },
    )

-- Where the stacks are accounted for, `alloc` of a number of pages other than 0 gives out a stack of
-- that many whole pages, none of which is in another stack, and keeps the stacks accounted for; or it
-- gives out nothing and changes nothing, because no free range is of that size and the pages left are
-- too few with the guard page.
pub alloc_stack_lem :
    (out : List FreeStackRange) (a : StackAllocator) (pages : ℕ)
    → pages ≢ 0
    → Accounts out a
    → Allocated out a pages (alloc_stack a pages)
alloc_stack_lem out a pages n v = elim (Option-cases (take_range a.free_ranges pages)) [
  | inr ((r, rs), e) ↦ rw (alloc_stack-free a pages r rs n e) (of_free out a pages r rs e v)
  | inl e ↦ elim (alloc_new-cases a pages (omega (arith, n))) [
    | inl (_, f) ↦ rw (alloc_stack-new a pages n e ∙ f) (of_new out a pages (omega (arith, n)) v)
    | inr (l, f) ↦ rw (alloc_stack-new a pages n e ∙ f) (refl, e, l)
  ]
]

covers-push :
    (rs : List FreeStackRange) (r : FreeStackRange) (x : ℕ)
    → covers (rs ++ (r ∷ [])) x ≡ covers (r ∷ rs) x
covers-push [] r x = refl
covers-push (q ∷ rs) r x =
    covers-cons q (rs ++ (r ∷ [])) (r ∷ rs) x (covers-push rs r x) ∙ covers-swap q r rs x

AllWellFormed-push :
    (rs : List FreeStackRange) (r : FreeStackRange)
    → WellFormed r
    → AllWellFormed rs
    → AllWellFormed (rs ++ (r ∷ []))
AllWellFormed-push [] r w h = (w, tt)
AllWellFormed-push (q ∷ rs) r w h = (h.0, AllWellFormed-push rs r w h.1)

covers-moved :
    (r : FreeStackRange) (rs out : List FreeStackRange) (x : ℕ)
    → covers (r ∷ rs) x + covers out x ≡ covers rs x + covers (r ∷ out) x
covers-moved r rs out x = ground arith

-- Giving back a stack in use, of whole pages and not at address 0, makes its pages a free range and
-- keeps the stacks accounted for.
pub free_stack_range-Accounts :
    (out : List FreeStackRange) (a : StackAllocator) (stack : Stack)
    → WellFormed (to_range stack)
    → Accounts (to_range stack ∷ out) a
    → (free_stack_range a stack ≡ record a { free_ranges = a.free_ranges ++ (to_range stack ∷ []) })
      × Accounts out (free_stack_range a stack)
unfolding free_stack_range
free_stack_range-Accounts out a stack w v =
    let e : (ltb stack.bottom 4096 || leb stack.top stack.bottom) ≡ false = ground (arith, w) in
    let r = to_range stack in
    rw (e, free_stack_range)
      (
        refl,
        record {
          once = λ x.
              omega (
                arith,
                v.once x,
                covers-push a.free_ranges r x,
                covers-moved r a.free_ranges out x,
              );
          well_formed = AllWellFormed-push a.free_ranges r w v.well_formed;
        },
      )
