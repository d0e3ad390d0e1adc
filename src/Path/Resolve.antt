-- ===== src/Path/Resolve.antt =====
-- The functions that resolve a path agree with each other.
use bubble_os.Base.{
  ℕ, ◌≡◌, refl, sym, ap, ◌∙◌, inl, inr, false, ◌||◌, Option, none, some, List, [], ◌∷◌, arith,
  Bool-cases, Option-cases, ◌>>=◌,
}
use bubble_os.Path.{
  Str, DirectoryOps, slash, tilde, up, split_last, str_eq, strip_prefix, ends_with_slash,
  normalize_path_components, find_directory, find_file, find_directory_components,
  find_file_components, find_directory_or_self, find_file_from_path, find_directory_from_path,
  base_dir, resolve_parent_directory_and_name,
}

split_last-cons :
    (x y : Str) (xs initial : List Str) (name : Str)
    → split_last (x ∷ y ∷ xs) ≡ some (name, initial)
    → (rest : List Str) × (split_last (y ∷ xs) ≡ some (name, rest)) × (initial ≡ x ∷ rest)
split_last-cons x y xs initial name e = elim (Option-cases (split_last (y ∷ xs))) [
  | inl n ↦ absurd (ground arith)
  | inr ((name', rest), n) ↦
      let same : name' ≡ name = ground arith in
      let same_rest : x ∷ rest ≡ initial = ground arith in
      (rest, n ∙ ap (λ k. some (k, rest)) same, sym same_rest)
]

bind_assoc :
    {A B C : Type 0} (o : Option A) (f : A → Option B) (g : B → Option C)
    → (o >>= f >>= g) ≡ (o >>= (λ x. f x >>= g))
bind_assoc none f g = refl
bind_assoc (some x) f g = refl

bind_ext :
    {A B : Type 0} (o : Option A) (f g : A → Option B)
    → ((x : A) → f x ≡ g x)
    → (o >>= f) ≡ (o >>= g)
bind_ext none f g h = refl
bind_ext (some x) f g h = h x

bind_some : {A : Type 0} (o : Option A) → o ≡ (o >>= some)
bind_some none = refl
bind_some (some x) = refl

module _ (dirs : DirectoryOps) where
  find_directory_or_self-cons :
      (dir : ℕ) (x : Str) (rest : List Str)
      → find_directory_or_self dirs dir (x ∷ rest)
        ≡ (find_directory dirs dir x >>= (λ next. find_directory_or_self dirs next rest))
  unfolding find_directory_components
  find_directory_or_self-cons dir x [] = bind_some (find_directory dirs dir x)
  find_directory_or_self-cons dir x (y ∷ rest) = refl

  -- To look up all components but the last as directories, and then the last as a file or a directory,
  -- is to look up all of them.
  find_components-last :
      (dir : ℕ) (components initial : List Str) (name : Str)
      → split_last components ≡ some (name, initial)
      → (find_file_components dirs dir components
          ≡ (find_directory_or_self dirs dir initial >>= (λ parent. find_file dirs parent name)))
        × (find_directory_or_self dirs dir components ≡ (
            find_directory_or_self dirs dir initial
            >>= (λ parent. find_directory dirs parent name)))
  unfolding find_file_components find_directory_components
  find_components-last dir [] initial name e = absurd (cc)
  find_components-last dir (x ∷ []) initial name e =
      let same : x ≡ name = ground arith in
      let none_left : [] ≡ initial = ground arith in rw (← none_left, ← same) (refl, refl)
  find_components-last dir (x ∷ y ∷ xs) initial name e =
      let (rest, e', q) = split_last-cons x y xs initial name e in
      let o = find_directory dirs dir x in
      let later = λ (next : ℕ). find_components-last next (y ∷ xs) rest name e' in
      let parents =
        ap (find_directory_or_self dirs dir) q ∙ find_directory_or_self-cons dir x rest in
      (
        bind_ext o _ _ (λ next. (later next).0)
            ∙ sym (
                bind_assoc o (λ next. find_directory_or_self dirs next rest)
                  (λ parent. find_file dirs parent name))
            ∙ ap (λ k. k >>= (λ parent. find_file dirs parent name)) (sym parents),
        bind_ext o _ _ (λ next. (later next).1)
            ∙ sym (
                bind_assoc o (λ next. find_directory_or_self dirs next rest)
                  (λ parent. find_directory dirs parent name))
            ∙ ap (λ k. k >>= (λ parent. find_directory dirs parent name)) (sym parents),
      )

  find_file_from_path-base :
      (root cwd : ℕ) (path : Str)
      → find_file_from_path dirs root cwd path
        ≡ find_file_components dirs
            (base_dir root cwd path).0
            (normalize_path_components (base_dir root cwd path).1)
  unfolding find_file_from_path
  find_file_from_path-base root cwd path =
      elim (Option-cases (strip_prefix (tilde ∷ slash ∷ []) path)) [
        | inr (p, e) ↦ rw (e, find_file_from_path, base_dir)
        | inl e ↦ elim (Option-cases (strip_prefix (slash ∷ []) path)) [
          | inr (p, f) ↦ rw (e, f, find_file_from_path, base_dir)
          | inl f ↦ rw (e, f, find_file_from_path, base_dir)
        ]
      ]

  find_directory_from_path-base :
      (root cwd : ℕ) (path : Str)
      → (str_eq path (slash ∷ []) || str_eq path (tilde ∷ [])) ≡ false
      → find_directory_from_path dirs root cwd path
        ≡ find_directory_or_self dirs
            (base_dir root cwd path).0
            (normalize_path_components (base_dir root cwd path).1)
  unfolding find_directory_from_path
  find_directory_from_path-base root cwd path n =
      elim (Option-cases (strip_prefix (tilde ∷ slash ∷ []) path)) [
        | inr (p, e) ↦ rw (n, e, find_directory_from_path, base_dir)
        | inl e ↦ elim (Option-cases (strip_prefix (slash ∷ []) path)) [
          | inr (p, f) ↦ rw (n, e, f, find_directory_from_path, base_dir)
          | inl f ↦ rw (n, e, f, find_directory_from_path, base_dir)
        ]
      ]

  resolve-parts :
      (root cwd : ℕ) (path name : Str) (parent : ℕ)
      → resolve_parent_directory_and_name dirs root cwd path ≡ some (parent, name)
      → let (base, p) = base_dir root cwd path in
        (ends_with_slash path ≡ false)
        × (str_eq name up ≡ false)
        × (initial : List Str) × (split_last (normalize_path_components p) ≡ some (name, initial))
        × (find_directory_or_self dirs base initial ≡ some parent)
  unfolding resolve_parent_directory_and_name
  resolve-parts root cwd path name parent e =
      let (base, p) = base_dir root cwd path in
      elim (Bool-cases (str_eq path [] || ends_with_slash path)) [
        | inl z ↦ absurd (ground arith)
        | inr z ↦ elim (Option-cases (split_last (normalize_path_components p))) [
          | inl n ↦ absurd (ground arith)
          | inr ((filename, initial), n) ↦ elim (Bool-cases (str_eq filename up)) [
            | inl u ↦ absurd (ground arith)
            | inr u ↦ elim (Option-cases (find_directory_or_self dirs base initial)) [
              | inl m ↦ absurd (ground arith)
              | inr (dir, m) ↦
                  let same : filename ≡ name = ground arith in
                  let same_dir : dir ≡ parent = ground arith in
                  (
                    ground arith,
                    rw same at u,
                    initial,
                    n ∙ ap (λ k. some (k, initial)) same,
                    m ∙ ap some same_dir,
                  )
            ]
          ]
        ]
      ]

  -- Where a path resolves to a parent directory and a name, the name is not `..`, and looking it up in
  -- that directory is what the path finds as a file: a file is created and removed where it is opened.
  pub resolve-find_file_from_path :
      (root cwd : ℕ) (path name : Str) (parent : ℕ)
      → resolve_parent_directory_and_name dirs root cwd path ≡ some (parent, name)
      → (str_eq name up ≡ false)
        × (find_file_from_path dirs root cwd path ≡ find_file dirs parent name)
  resolve-find_file_from_path root cwd path name parent e =
      let (_, not_up, initial, l, d) = resolve-parts root cwd path name parent e in
      let (base, p) = base_dir root cwd path in
      (
        not_up,
        find_file_from_path-base root cwd path
            ∙ (find_components-last base (normalize_path_components p) initial name l).0
            ∙ ap (λ k. k >>= (λ dir. find_file dirs dir name)) d,
      )

  not_root :
      (path : Str)
      → ends_with_slash path ≡ false
      → str_eq path (tilde ∷ []) ≡ false
      → (str_eq path (slash ∷ []) || str_eq path (tilde ∷ [])) ≡ false
  not_root [] e n = refl
  not_root (c ∷ []) e n = ground arith
  not_root (c ∷ d ∷ cs) e n = ground arith

  -- Where a path other than `~` resolves to a parent directory and a name, looking the name up in
  -- that directory is what the path finds as a directory.
  pub resolve-find_directory_from_path :
      (root cwd : ℕ) (path name : Str) (parent : ℕ)
      → str_eq path (tilde ∷ []) ≡ false
      → resolve_parent_directory_and_name dirs root cwd path ≡ some (parent, name)
      → find_directory_from_path dirs root cwd path ≡ find_directory dirs parent name
  resolve-find_directory_from_path root cwd path name parent n e =
      let (no_slash, _, initial, l, d) = resolve-parts root cwd path name parent e in
      let (base, p) = base_dir root cwd path in
      find_directory_from_path-base root cwd path (not_root path no_slash n)
      ∙ (find_components-last base (normalize_path_components p) initial name l).1
      ∙ ap (λ k. k >>= (λ dir. find_directory dirs dir name)) d
