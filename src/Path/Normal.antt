-- ===== src/Path/Normal.antt =====
-- The form that `normalize_path_components` gives: first components that go up, then names.
use bubble_os.Base.{
  ◌≡◌, refl, sym, ap, subst, ◌∙◌, ◌⊎◌, inl, inr, Bool, true, false, not, ◌&&◌, ◌||◌, none, some,
  List, [], ◌∷◌, ◌++◌, arith, Bool-cases, Option-cases,
}
use mathlib.Core.Bool.{false≢true}
use mathlib.Core.List.{append-nil, append_assoc}
use bubble_os.Path.{Str, str_eq, here, up, last, pop, add_component, add_components}

-- A component that is none of the empty one, `.` and `..`.
abbrev pub is_name : Str → Bool
is_name c = not (str_eq c []) && not (str_eq c here) && not (str_eq c up)

abbrev pub Names : List Str → Type 0
Names [] = Unit {0}
Names (c ∷ cs) = (is_name c ≡ true) × Names cs

abbrev pub Normal : List Str → Type 0
Normal [] = Unit {0}
Normal (c ∷ cs) = ((str_eq c up ≡ true) × Normal cs) ⊎ ((is_name c ≡ true) × Names cs)

pub is_name-up : (c : Str) → is_name c ≡ true → str_eq c up ≡ false
is_name-up c e = elim (Bool-cases (str_eq c up)) [ inl u ↦ absurd (ground arith) | inr u ↦ u ]

pub str_eq-up : (c : Str) → str_eq c up ≡ true → (str_eq c [] ≡ false) × (str_eq c here ≡ false)
str_eq-up [] e = absurd (cc)
str_eq-up (c ∷ []) e = absurd (ground arith)
str_eq-up (c ∷ d ∷ ds) e = (refl, ground arith)

-- The cases of a turn of the loop.
pub add_component-skip :
    (cs : List Str) (c : Str) → (str_eq c [] || str_eq c here) ≡ true → add_component cs c ≡ cs
unfolding add_component
add_component-skip cs c e = rw (e, add_component)

pub add_component-name :
    (cs : List Str) (c : Str) → is_name c ≡ true → add_component cs c ≡ cs ++ (c ∷ [])
unfolding add_component
add_component-name cs c n =
    let e : (str_eq c [] || str_eq c here) ≡ false = ground arith in
    let f : str_eq c up ≡ false = is_name-up c n in rw (e, f, add_component)

pub add_component-up :
    (cs : List Str) (c : Str)
    → str_eq c up ≡ true
    → (last cs ≡ none) ⊎ ((d : Str) × (last cs ≡ some d) × (str_eq d up ≡ true))
    → add_component cs c ≡ cs ++ (c ∷ [])
unfolding add_component
add_component-up cs c u l =
    let (a, b) = str_eq-up c u in
    let e : (str_eq c [] || str_eq c here) ≡ false = ground arith in
    elim l [ inl n ↦ rw (e, u, n, add_component) | inr (d, n, v) ↦ rw (e, u, n, v, add_component) ]

pub add_component-pop :
    (cs : List Str) (c d : Str)
    → str_eq c up ≡ true
    → last cs ≡ some d
    → str_eq d up ≡ false
    → add_component cs c ≡ pop cs
unfolding add_component
add_component-pop cs c d u n v =
    let (a, b) = str_eq-up c u in
    let e : (str_eq c [] || str_eq c here) ≡ false = ground arith in rw (e, u, n, v, add_component)

-- One of the four always applies.
abbrev Added : List Str → Str → Type 0
Added cs c =
    (add_component cs c ≡ cs)
    ⊎ (((is_name c ≡ true) × (add_component cs c ≡ cs ++ (c ∷ [])))
        ⊎ (((str_eq c up ≡ true)
              × ((last cs ≡ none) ⊎ ((d : Str) × (last cs ≡ some d) × (str_eq d up ≡ true)))
              × (add_component cs c ≡ cs ++ (c ∷ [])))
            ⊎ (add_component cs c ≡ pop cs)))

pub add_component-cases : (cs : List Str) (c : Str) → Added cs c
add_component-cases cs c = elim (Bool-cases (str_eq c [] || str_eq c here)) [
  | inl e ↦ inl (add_component-skip cs c e)
  | inr e ↦ elim (Bool-cases (str_eq c up)) [
    | inr u ↦ let n : is_name c ≡ true = ground arith in inr (inl (n, add_component-name cs c n))
    | inl u ↦ elim (Option-cases (last cs)) [
      | inl n ↦ inr (inr (inl (u, inl n, add_component-up cs c u (inl n))))
      | inr (d, n) ↦ elim (Bool-cases (str_eq d up)) [
        | inl v ↦ let l = inr (d, n, v) in inr (inr (inl (u, l, add_component-up cs c u l)))
        | inr v ↦ inr (inr (inr (add_component-pop cs c d u n v)))
      ]
    ]
  ]
]

Names-push : (cs : List Str) (c : Str) → is_name c ≡ true → Names cs → Names (cs ++ (c ∷ []))
Names-push [] c n h = (n, tt)
Names-push (x ∷ cs) c n h = (h.0, Names-push cs c n h.1)

Names-pop : (cs : List Str) → Names cs → Names (pop cs)
Names-pop [] h = tt
Names-pop (x ∷ []) h = tt
Names-pop (x ∷ y ∷ cs) h = (h.0, Names-pop (y ∷ cs) h.1)

pub Names-last : (cs : List Str) (d : Str) → Names cs → last cs ≡ some d → is_name d ≡ true
Names-last [] d h e = absurd (cc)
Names-last (x ∷ []) d h e = let same : x ≡ d = ground arith in rw same at h.0
Names-last (x ∷ y ∷ cs) d h e = Names-last (y ∷ cs) d h.1 e

Normal-push : (cs : List Str) (c : Str) → is_name c ≡ true → Normal cs → Normal (cs ++ (c ∷ []))
Normal-push [] c n h = inr (n, tt)
Normal-push (x ∷ cs) c n (inl (u, h)) = inl (u, Normal-push cs c n h)
Normal-push (x ∷ cs) c n (inr (m, h)) = inr (m, Names-push cs c n h)

Normal-pop : (cs : List Str) → Normal cs → Normal (pop cs)
Normal-pop [] h = tt
Normal-pop (x ∷ []) h = tt
Normal-pop (x ∷ y ∷ cs) (inl (u, h)) = inl (u, Normal-pop (y ∷ cs) h)
Normal-pop (x ∷ y ∷ cs) (inr (m, h)) = inr (m, Names-pop (y ∷ cs) h)

not_name : (d : Str) → is_name d ≡ true → str_eq d up ≡ true → ⊥
not_name d n u = false≢true (sym (is_name-up d n) ∙ u)

Normal-push_up :
    (cs : List Str) (c : Str)
    → str_eq c up ≡ true
    → (last cs ≡ none) ⊎ ((d : Str) × (last cs ≡ some d) × (str_eq d up ≡ true))
    → Normal cs
    → Normal (cs ++ (c ∷ []))
Normal-push_up [] c u l h = inl (u, tt)
Normal-push_up (x ∷ []) c u l (inl (v, h)) = inl (v, inl (u, tt))
Normal-push_up (x ∷ y ∷ cs) c u l (inl (v, h)) = inl (v, Normal-push_up (y ∷ cs) c u l h)
Normal-push_up (x ∷ cs) c u (inr (d, e, v)) (inr (n, h)) =
    absurd (not_name d (Names-last (x ∷ cs) d (n, h) e) v)
Normal-push_up (x ∷ []) c u (inl e) (inr (n, h)) = absurd (cc)
Normal-push_up (x ∷ y ∷ cs) c u (inl e) (inr (n, h)) = absurd (last-ne y cs e)
  where
    last-ne : (y : Str) (cs : List Str) → last (y ∷ cs) ≡ none → ⊥
    last-ne y [] e = absurd (cc)
    last-ne y (z ∷ cs) e = last-ne z cs e

pub add_component-Normal : (cs : List Str) (c : Str) → Normal cs → Normal (add_component cs c)
add_component-Normal cs c h = elim (add_component-cases cs c) [
  | inl e ↦ rw e h
  | inr (inl (n, e)) ↦ rw e (Normal-push cs c n h)
  | inr (inr (inl (u, l, e))) ↦ rw e (Normal-push_up cs c u l h)
  | inr (inr (inr e)) ↦ rw e (Normal-pop cs h)
]

pub add_components-Normal : (cs ds : List Str) → Normal cs → Normal (add_components cs ds)
unfolding add_components
add_components-Normal cs [] h = h
add_components-Normal cs (d ∷ ds) h =
    add_components-Normal (add_component cs d) ds (add_component-Normal cs d h)

-- A list that begins with `cs` and goes on with `d` lets `d` be added as it is.
abbrev Fits : List Str → Str → Type 0
Fits cs d =
    (is_name d ≡ true)
    ⊎ ((str_eq d up ≡ true)
        × ((last cs ≡ none) ⊎ ((e : Str) × (last cs ≡ some e) × (str_eq e up ≡ true))))

Names-Fits : (cs ds : List Str) (d : Str) → Names (cs ++ (d ∷ ds)) → is_name d ≡ true
Names-Fits [] ds d h = h.0
Names-Fits (c ∷ cs) ds d h = Names-Fits cs ds d h.1

Normal-Fits : (cs ds : List Str) (d : Str) → Normal (cs ++ (d ∷ ds)) → Fits cs d
Normal-Fits [] ds d (inl (u, h)) = inr (u, inl refl)
Normal-Fits [] ds d (inr (n, h)) = inl n
Normal-Fits (c ∷ cs) ds d (inr (n, h)) = inl (Names-Fits cs ds d h)
Normal-Fits (c ∷ []) ds d (inl (u, h)) = elim (Normal-Fits [] ds d h) [
  | inl n ↦ inl n
  | inr (v, _) ↦ inr (v, inr (c, refl, u))
]
Normal-Fits (c ∷ x ∷ cs) ds d (inl (u, h)) = Normal-Fits (x ∷ cs) ds d h

Fits-add : (cs : List Str) (d : Str) → Fits cs d → add_component cs d ≡ cs ++ (d ∷ [])
Fits-add cs d (inl n) = add_component-name cs d n
Fits-add cs d (inr (u, l)) = add_component-up cs d u l

-- A list in normal form is added as it is.
pub add_components_fixed : (cs ds : List Str) → Normal (cs ++ ds) → add_components cs ds ≡ cs ++ ds
unfolding add_components
add_components_fixed cs [] h = sym (append-nil cs)
add_components_fixed cs (d ∷ ds) h =
    let e = append_assoc cs (d ∷ []) ds in
    ap (λ l. add_components l ds) (Fits-add cs d (Normal-Fits cs ds d h))
    ∙ add_components_fixed (cs ++ (d ∷ [])) ds (subst Normal (sym e) h)
    ∙ e
