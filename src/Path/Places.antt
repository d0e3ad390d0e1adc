-- ===== src/Path/Places.antt =====
-- Normalizing a path of src/fs/fs.rs does not change where it leads.
use bubble_os.Base.{
  ◌≡◌, refl, sym, ap, ◌∙◌, inl, inr, true, false, ◌||◌, none, some, List, [], ◌∷◌, ◌++◌, arith,
  if◌then◌else◌, Bool-cases, Option-cases,
}
use bubble_os.Path.{
  Str, str_eq, here, up, last, pop, split, add_component, add_components, normalize_path_components,
}
use bubble_os.Path.Normal.{
  is_name-up, str_eq-up, Normal, is_name, Names-last, add_component-skip, add_component-name,
  add_component-up, add_component-pop, add_component-Normal,
}

-- Places that have a parent and, for each name, a place below them whose parent they are.
pub record Places (N : Type 0) : Type 0 where
  pub parent : N → N
  pub enter : N → Str → N
  pub parent_enter : (n : N) (name : Str) → is_name name ≡ true → parent (enter n name) ≡ n

Normal-last :
    (cs : List Str) (d : Str)
    → Normal cs
    → last cs ≡ some d
    → str_eq d up ≡ false
    → is_name d ≡ true
Normal-last [] d h e v = absurd (cc)
Normal-last (x ∷ []) d (inl (u, h)) e v = absurd (ground arith)
Normal-last (x ∷ y ∷ cs) d (inl (u, h)) e v = Normal-last (y ∷ cs) d h e v
Normal-last (x ∷ cs) d (inr (n, h)) e v = Names-last (x ∷ cs) d (n, h) e

module _ {N : Type 0} (places : Places N) where
  -- Where one component leads from a place: nowhere, to the parent, or to the place of that name.
  abbrev pub follow : N → Str → N
  follow n c =
      if str_eq c [] || str_eq c here
      then n
      else if str_eq c up
      then places.parent n
      else places.enter n c

  abbrev pub follow_all : N → List Str → N
  follow_all n [] = n
  follow_all n (c ∷ cs) = follow_all (follow n c) cs

  follow_all-push :
      (n : N) (cs : List Str) (c : Str) → follow_all n (cs ++ (c ∷ [])) ≡ follow (follow_all n cs) c
  follow_all-push n [] c = refl
  follow_all-push n (d ∷ cs) c = follow_all-push (follow n d) cs c

  follow_all-last :
      (n : N) (cs : List Str) (d : Str)
      → last cs ≡ some d
      → follow_all n cs ≡ follow (follow_all n (pop cs)) d
  follow_all-last n [] d e = absurd (cc)
  follow_all-last n (x ∷ []) d e = ap (λ r. elim r [ none ↦ follow n x | some y ↦ follow n y ]) e
  follow_all-last n (x ∷ y ∷ cs) d e = follow_all-last (follow n x) (y ∷ cs) d e

  follow_back :
      (n : N) (c d : Str) → str_eq c up ≡ true → is_name d ≡ true → follow (follow n d) c ≡ n
  follow_back n c d u m =
      let (a, b) = str_eq-up c u in
      let some_c : (str_eq c [] || str_eq c here) ≡ false = ground arith in
      let some_d : (str_eq d [] || str_eq d here) ≡ false = ground arith in
      let below : str_eq d up ≡ false = is_name-up d m in
      rw (some_c, u, some_d, below) (places.parent_enter n d m)

  follow_all-add_component :
      (n : N) (cs : List Str) (c : Str)
      → Normal cs
      → follow_all n (add_component cs c) ≡ follow (follow_all n cs) c
  follow_all-add_component n cs c h = elim (Bool-cases (str_eq c [] || str_eq c here)) [
    | inl e ↦ ap (follow_all n) (add_component-skip cs c e) ∙ rw e refl
    | inr e ↦ elim (Bool-cases (str_eq c up)) [
      | inr u ↦
          let m : is_name c ≡ true = ground arith in
          ap (follow_all n) (add_component-name cs c m) ∙ follow_all-push n cs c
      | inl u ↦ elim (Option-cases (last cs)) [
        | inl l ↦ ap (follow_all n) (add_component-up cs c u (inl l)) ∙ follow_all-push n cs c
        | inr (d, l) ↦ elim (Bool-cases (str_eq d up)) [
          | inl v ↦
              ap (follow_all n) (add_component-up cs c u (inr (d, l, v))) ∙ follow_all-push n cs c
          | inr v ↦
              ap (follow_all n) (add_component-pop cs c d u l v)
              ∙ sym (follow_back (follow_all n (pop cs)) c d u (Normal-last cs d h l v))
              ∙ ap (λ m. follow m c) (sym (follow_all-last n cs d l))
        ]
      ]
    ]
  ]

  follow_all-add_components :
      (n : N) (cs ds : List Str)
      → Normal cs
      → follow_all n (add_components cs ds) ≡ follow_all (follow_all n cs) ds
  unfolding add_components
  follow_all-add_components n cs [] h = refl
  follow_all-add_components n cs (d ∷ ds) h =
      follow_all-add_components n (add_component cs d) ds (add_component-Normal cs d h)
      ∙ ap (λ m. follow_all m ds) (follow_all-add_component n cs d h)

  -- The components that a path is normalized to lead to the same place as the path's own, from wherever
  -- they are followed, in any places of which each is the parent of those below it.
  pub follow_all-normalize_path_components :
      (n : N) (path : Str)
      → follow_all n (normalize_path_components path) ≡ follow_all n (split path)
  unfolding normalize_path_components
  follow_all-normalize_path_components n path = follow_all-add_components n [] (split path) tt
