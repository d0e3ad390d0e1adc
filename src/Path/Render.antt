-- ===== src/Path/Render.antt =====
-- Components written as a path again, and paths put together.
use bubble_os.Base.{
  ℕ, ◌≡◌, refl, sym, ap, ◌∙◌, inl, inr, false, List, [], ◌∷◌, ◌++◌, arith, ◌==◌, ==_iff, Bool-cases,
  contains,
}
use bubble_os.Path.{
  Str, slash, combine_path, put_first, split, pop, add_component, add_components,
  normalize_path_components,
}
use bubble_os.Path.Normal.{Normal, add_component-cases, add_components-Normal, add_components_fixed}

-- The path that has these components.
abbrev pub join : List Str → Str
join [] = []
join (c ∷ []) = c
join (c ∷ d ∷ ds) = combine_path c (join (d ∷ ds))

-- Components without a slash in them.
abbrev pub Parts : List Str → Type 0
Parts [] = Unit {0}
Parts (c ∷ cs) = (contains c slash ≡ false) × Parts cs

put_first-Parts : (c : ℕ) (ss : List Str) → (c == slash) ≡ false → Parts ss → Parts (put_first c ss)
put_first-Parts c [] n h = (ground arith, tt)
put_first-Parts c (s ∷ ss) n h = let k = h.0 in (ground arith, h.1)

split-other : (c : ℕ) (cs : Str) → (c == slash) ≡ false → split (c ∷ cs) ≡ put_first c (split cs)
unfolding split
split-other c cs n = rw (n, split)

split-Parts : (cs : Str) → Parts (split cs)
unfolding split
split-Parts [] = (refl, tt)
split-Parts (c ∷ cs) = elim (Bool-cases (c == slash)) [
  | inl e ↦ rw ((==_iff c slash).0 e) (refl, split-Parts cs)
  | inr n ↦ rw (split-other c cs n) (put_first-Parts c (split cs) n (split-Parts cs))
]

Parts-push :
    (cs : List Str) (c : Str) → contains c slash ≡ false → Parts cs → Parts (cs ++ (c ∷ []))
Parts-push [] c n h = (n, tt)
Parts-push (x ∷ cs) c n h = (h.0, Parts-push cs c n h.1)

Parts-pop : (cs : List Str) → Parts cs → Parts (pop cs)
Parts-pop [] h = tt
Parts-pop (x ∷ []) h = tt
Parts-pop (x ∷ y ∷ cs) h = (h.0, Parts-pop (y ∷ cs) h.1)

add_components-Parts : (cs ds : List Str) → Parts cs → Parts ds → Parts (add_components cs ds)
unfolding add_components
add_components-Parts cs [] h g = h
add_components-Parts cs (d ∷ ds) h g =
    add_components-Parts (add_component cs d) ds
      (elim (add_component-cases cs d) [
        | inl e ↦ rw e h
        | inr (inl (_, e)) ↦ rw e (Parts-push cs d g.0 h)
        | inr (inr (inl (_, _, e))) ↦ rw e (Parts-push cs d g.0 h)
        | inr (inr (inr e)) ↦ rw e (Parts-pop cs h)
      ])
      g.1

split-part : (c : Str) → contains c slash ≡ false → split c ≡ c ∷ []
unfolding split
split-part [] n = refl
split-part (x ∷ c) n =
    let ne : (x == slash) ≡ false = ground arith in
    let rest : contains c slash ≡ false = ground arith in
    split-other x c ne ∙ ap (put_first x) (split-part c rest)

put_first-append :
    (c : ℕ) (s : Str) (ss ts : List Str) → put_first c ((s ∷ ss) ++ ts) ≡ put_first c (s ∷ ss) ++ ts
put_first-append c s ss ts = refl

split-cons : (cs : Str) → (s : Str) × (ss : List Str) × (split cs ≡ s ∷ ss)
unfolding split
split-cons [] = ([], [], refl)
split-cons (c ∷ cs) = elim (Bool-cases (c == slash)) [
  | inl e ↦ rw ((==_iff c slash).0 e) ([], split cs, refl)
  | inr n ↦ let (s, ss, q) = split-cons cs in (c ∷ s, ss, split-other c cs n ∙ ap (put_first c) q)
]

-- Splitting a combined path gives the components of both.
pub split-combine_path : (p1 p2 : Str) → split (combine_path p1 p2) ≡ split p1 ++ split p2
unfolding split
split-combine_path [] p2 = refl
split-combine_path (c ∷ cs) p2 = elim (Bool-cases (c == slash)) [
  | inl e ↦ rw ((==_iff c slash).0 e) (ap (λ l. [] ∷ l) (split-combine_path cs p2))
  | inr n ↦
      let (s, ss, q) = split-cons cs in
      split-other c (cs ++ (slash ∷ p2)) n
      ∙ ap (put_first c) (split-combine_path cs p2 ∙ ap (λ l. l ++ split p2) q)
      ∙ ap (λ l. l ++ split p2) (sym (split-other c cs n ∙ ap (put_first c) q))
]

split-join : (c : Str) (cs : List Str) → Parts (c ∷ cs) → split (join (c ∷ cs)) ≡ c ∷ cs
split-join c [] h = split-part c h.0
split-join c (d ∷ cs) h =
    split-combine_path c (join (d ∷ cs))
    ∙ ap (λ l. l ++ split (join (d ∷ cs))) (split-part c h.0)
    ∙ ap (◌∷◌ c) (split-join d cs h.1)

normalize-Normal : (path : Str) → Normal (normalize_path_components path)
unfolding normalize_path_components
normalize-Normal path = add_components-Normal [] (split path) tt

normalize-Parts : (path : Str) → Parts (normalize_path_components path)
unfolding normalize_path_components
normalize-Parts path = add_components-Parts [] (split path) tt (split-Parts path)

join-Normal : (cs : List Str) → Normal cs → Parts cs → normalize_path_components (join cs) ≡ cs
unfolding normalize_path_components split add_components add_component
join-Normal [] n h = refl
join-Normal (c ∷ cs) n h =
    ap (add_components []) (split-join c cs h) ∙ add_components_fixed [] (c ∷ cs) n

-- Normalizing gives some components `..` and then names, none of which is empty, `.` or `..` or has a
-- slash in it; and the path written from them normalizes to them again.
pub normalize_path_components_lem :
    (path : Str)
    → let components = normalize_path_components path in
      Normal components
      × Parts components
      × (normalize_path_components (join components) ≡ components)
normalize_path_components_lem path =
    let n = normalize-Normal path in
    let h = normalize-Parts path in (n, h, join-Normal (normalize_path_components path) n h)
