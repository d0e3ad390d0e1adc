-- ===== src/Mem/Frames/Pool.antt =====
-- Every frame that was ever given out is either free or in use, and once.
use bubble_os.Base.{
  ℕ, suc, ◌+◌, ◌-◌, ◌*◌, ◌/◌, ◌≤◌, ◌<◌, ◌≡◌, refl, sym, ap, ◌∙◌, ◌⊎◌, inl, inr, ◌&&◌, Option, none,
  some, List, [], ◌∷◌, arith, ltb, leb, ◌==◌, if◌then◌else◌, Bool-cases, checked_sub,
}
use bubble_os.Mem.Frames.{
  SimplePageFrameAllocator, from_address, new_allocator, falloc_next, falloc, free,
}

abbrev pub count : List ℕ → ℕ → ℕ
count [] x = 0
count (y ∷ ys) x = if y == x then suc (count ys x) else count ys x

-- With the frames `out` in use: those behind `lo` up to the head are free or in use, once each, and no
-- others are; and the head is below the end of memory.
pub record Accounts (lo : ℕ) (out : List ℕ) (a : SimplePageFrameAllocator) : Type 0 where
  pub once :
      (x : ℕ)
      → count a.free_frames x + count out x ≡ (if ltb lo x && leb x a.frame_head then 1 else 0)
  pub below_end : a.frame_head < a.mem_end
  pub from_start : lo ≤ a.frame_head

-- What `falloc` answers: a frame that was not in use, now accounted as in use; or nothing, where all
-- frames before the last of the memory are in use.
abbrev pub Falloc :
    ℕ → List ℕ → SimplePageFrameAllocator → Option ℕ × SimplePageFrameAllocator → Type 0
Falloc lo out a (none, a') = (a' ≡ a) × (a.free_frames ≡ []) × (a.frame_head + 1 ≡ a.mem_end)
Falloc lo out a (some frame, a') =
    (count out frame ≡ 0) × (lo < frame) × (frame < a.mem_end) × Accounts lo (frame ∷ out) a'

list-cases : (xs : List ℕ) → (xs ≡ []) ⊎ ((x : ℕ) × (ys : List ℕ) × (xs ≡ x ∷ ys))
list-cases [] = inl refl
list-cases (x ∷ ys) = inr (x, ys, refl)

falloc-reuse :
    (a : SimplePageFrameAllocator) (frame : ℕ) (frames : List ℕ)
    → a.free_frames ≡ frame ∷ frames
    → falloc a ≡ some (some frame, record a { free_frames = frames })
unfolding falloc
falloc-reuse a frame frames e = rw (e, falloc)

falloc-empty : (a : SimplePageFrameAllocator) → a.free_frames ≡ [] → falloc a ≡ falloc_next a
unfolding falloc
falloc-empty a e =
    ap
      (λ (free_frames : List ℕ).
        elim free_frames as (λ _. Option (Option ℕ × SimplePageFrameAllocator)) [
          | frame ∷ frames ↦ some (some frame, record a { free_frames = frames })
          | [] ↦ falloc_next a
        ])
      e

falloc_next-cases :
    (a : SimplePageFrameAllocator)
    → a.frame_head < a.mem_end
    → ((a.frame_head + 1 ≡ a.mem_end) × (falloc_next a ≡ some (none, a)))
      ⊎ ((a.frame_head + 1 < a.mem_end)
          × (falloc_next a
              ≡ some (some (a.frame_head + 1), record a { frame_head = a.frame_head + 1 })))
unfolding falloc_next
falloc_next-cases a h =
    let left = a.mem_end * 4096 - (a.frame_head * 4096 + 4096) in
    let enough : checked_sub (a.mem_end * 4096) (a.frame_head * 4096 + 4096) ≡ some left =
      ground arith in
    let next : (a.frame_head * 4096 + 4096) / 4096 ≡ a.frame_head + 1 = omega arith in
    elim (Bool-cases (ltb left 4096)) [
      | inl e ↦ inl (ground arith, rw (enough, e, falloc_next))
      | inr e ↦ inr (ground arith, rw (enough, e, next, falloc_next))
    ]

-- It is the same to count a frame among the free ones as among those in use.
moved :
    (frame : ℕ) (frames out : List ℕ) (x n : ℕ)
    → count (frame ∷ frames) x + count out x ≡ n
    → count frames x + count (frame ∷ out) x ≡ n
moved frame frames out x n e = ground arith

reused :
    (lo : ℕ) (out : List ℕ) (a : SimplePageFrameAllocator) (frame : ℕ) (frames : List ℕ)
    → a.free_frames ≡ frame ∷ frames
    → Accounts lo out a
    → Falloc lo out a (some frame, record a { free_frames = frames })
reused lo out a frame frames e v =
    let at : (x : ℕ)
        → count (frame ∷ frames) x + count out x
          ≡ (if ltb lo x && leb x a.frame_head then 1 else 0) =
      λ x. ap (λ l. count l x + count out x) (sym e) ∙ v.once x in
    let self = at frame in
    (
      ground arith,
      ground arith,
      ground (arith, v.below_end),
      record {
        once = λ x. moved frame frames out x _ (at x);
        below_end = v.below_end;
        from_start = v.from_start;
      },
    )

grown :
    (lo head : ℕ) (out : List ℕ) (x : ℕ)
    → lo ≤ head
    → 0 + count out x ≡ (if ltb lo x && leb x head then 1 else 0)
    → 0 + count ((head + 1) ∷ out) x ≡ (if ltb lo x && leb x (head + 1) then 1 else 0)
grown lo head out x l e = elim (Bool-cases (head + 1 == x)) [
  | inl q ↦ ground arith
  | inr q ↦ ground arith
]

appended :
    (lo : ℕ) (out : List ℕ) (a : SimplePageFrameAllocator)
    → a.free_frames ≡ []
    → a.frame_head + 1 < a.mem_end
    → Accounts lo out a
    → Falloc lo out a (some (a.frame_head + 1), record a { frame_head = a.frame_head + 1 })
appended lo out a e h v =
    let at : (x : ℕ) → 0 + count out x ≡ (if ltb lo x && leb x a.frame_head then 1 else 0) =
      λ x. ap (λ l. count l x + count out x) (sym e) ∙ v.once x in
    let self = at (a.frame_head + 1) in
    (
      ground arith,
      omega (arith, v.from_start),
      h,
      record {
        once = λ x.
            ap (λ l. count l x + count ((a.frame_head + 1) ∷ out) x) e
            ∙ grown lo a.frame_head out x v.from_start (at x);
        below_end = h;
        from_start = omega (arith, v.from_start);
      },
    )

-- Where the frames are accounted for, `falloc` does not underflow, and it gives out a frame that was
-- not in use, or nothing, where none is free and the memory has no further one; the frames stay
-- accounted for.
pub falloc_lem :
    (lo : ℕ) (out : List ℕ) (a : SimplePageFrameAllocator)
    → Accounts lo out a
    → (r : Option ℕ × SimplePageFrameAllocator) × (falloc a ≡ some r) × Falloc lo out a r
falloc_lem lo out a v = elim (list-cases a.free_frames) [
  | inr (frame, frames, e) ↦ (_, falloc-reuse a frame frames e, reused lo out a frame frames e v)
  | inl e ↦ elim (falloc_next-cases a v.below_end) [
    | inl (last, s) ↦ (_, falloc-empty a e ∙ s, (refl, e, last))
    | inr (room, s) ↦ (_, falloc-empty a e ∙ s, appended lo out a e room v)
  ]
]

-- A new allocator has the frames accounted for, none in use, if the memory has more than one.
pub new_allocator-Accounts :
    (mem_start mem_end : ℕ)
    → from_address mem_start < from_address mem_end
    → Accounts (from_address mem_start) [] (new_allocator mem_start mem_end)
unfolding new_allocator
new_allocator-Accounts mem_start mem_end h = record {
  once = λ x. ground arith;
  below_end = h;
  from_start = omega arith;
}

-- Giving back a frame in use keeps the frames accounted for, and makes it the next to be given out.
pub free-Accounts :
    (lo frame : ℕ) (out : List ℕ) (a : SimplePageFrameAllocator)
    → Accounts lo (frame ∷ out) a
    → Accounts lo out (free a frame) × (falloc (free a frame) ≡ some (some frame, a))
unfolding free falloc
free-Accounts lo frame out a v = (
  record {
    once = λ x. sym (moved frame a.free_frames out x _ refl) ∙ v.once x;
    below_end = v.below_end;
    from_start = v.from_start;
  },
  refl,
)
