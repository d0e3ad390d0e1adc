-- ===== src/Path.antt =====
-- Paths: the normalization and the lookups of src/fs/fs.rs, and the functions of src/scheduling/mod.rs that
-- resolve a path. A string is the list of its characters' codes.
pub mod Normal
pub mod Render
pub mod Places
pub mod Resolve
mod Tests
use bubble_os.Base.{
  ℕ, ◌+◌, ◌-◌, ◌/◌, Bool, true, false, ◌&&◌, ◌||◌, Option, none, some, List, [], ◌∷◌, ◌++◌, map,
  leb, ◌==◌, if◌then◌else◌, ◌>>=◌, ◌>>◌,
}

abbrev pub Str : Type 0
Str = List ℕ

abbrev pub slash : ℕ
slash = 47

abbrev pub dot : ℕ
dot = 46

abbrev pub tilde : ℕ
tilde = 126

abbrev pub combine_path : Str → Str → Str
combine_path p1 p2 = p1 ++ (slash ∷ p2)

-- `path.split('/')`
abbrev pub put_first : ℕ → List Str → List Str
put_first c [] = (c ∷ []) ∷ []
put_first c (s ∷ ss) = (c ∷ s) ∷ ss

unfoldable pub split : Str → List Str
split [] = [] ∷ []
split (c ∷ cs) = let rest = split cs in if c == slash then [] ∷ rest else put_first c rest

abbrev pub str_eq : Str → Str → Bool
str_eq [] [] = true
str_eq [] (d ∷ ds) = false
str_eq (c ∷ cs) [] = false
str_eq (c ∷ cs) (d ∷ ds) = c == d && str_eq cs ds

abbrev pub here : Str
here = dot ∷ []

abbrev pub up : Str
up = dot ∷ dot ∷ []

abbrev pub last {ℓ} : {A : Type ℓ} → List A → Option A
last [] = none
last (x ∷ []) = some x
last (x ∷ y ∷ xs) = last (y ∷ xs)

abbrev pub pop {ℓ} : {A : Type ℓ} → List A → List A
pop [] = []
pop (x ∷ []) = []
pop (x ∷ y ∷ xs) = x ∷ pop (y ∷ xs)

-- One turn of the loop of `normalize_path_components`.
unfoldable pub add_component : List Str → Str → List Str
add_component components component =
    if str_eq component [] || str_eq component here
    then components
    else if str_eq component up
    then elim (last components) [
      | none ↦ components ++ (component ∷ [])
      | some c ↦ if str_eq c up then components ++ (component ∷ []) else pop components
    ]
    else components ++ (component ∷ [])

unfoldable pub add_components : List Str → List Str → List Str
add_components components [] = components
add_components components (c ∷ cs) = add_components (add_component components c) cs

unfoldable pub normalize_path_components : Str → List Str
normalize_path_components path = add_components [] (split path)

-- `list_dir` of the trait `Directory`: the names and handles of the subdirectories and of the files.
pub record DirectoryOps : Type 0 where
  pub list_dir : ℕ → List (Str × ℕ) × List (Str × ℕ)

abbrev pub to_ascii_lowercase : ℕ → ℕ
to_ascii_lowercase c = if leb 65 c && leb c 90 then c + 32 else c

abbrev pub eq_ignore_ascii_case : Str → Str → Bool
eq_ignore_ascii_case a b = str_eq (map to_ascii_lowercase a) (map to_ascii_lowercase b)

unfoldable pub find_item : List (Str × ℕ) → Str → Option ℕ
find_item [] name = none
find_item ((n, item) ∷ items) name =
    if eq_ignore_ascii_case n name then some item else find_item items name

abbrev pub split_last {ℓ} : {A : Type ℓ} → List A → Option (A × List A)
split_last [] = none
split_last (x ∷ []) = some (x, [])
split_last (x ∷ y ∷ xs) = do (l, initial) ← split_last (y ∷ xs); some (l, x ∷ initial)

abbrev pub strip_prefix : Str → Str → Option Str
strip_prefix [] s = some s
strip_prefix (p ∷ ps) [] = none
strip_prefix (p ∷ ps) (c ∷ cs) = if p == c then strip_prefix ps cs else none

abbrev pub ends_with_slash : Str → Bool
ends_with_slash path = elim (last path) [ none ↦ false | some c ↦ c == slash ]

-- The directory that a path starts from, and the rest of the path.
abbrev pub base_dir : ℕ → ℕ → Str → ℕ × Str
base_dir root cwd path = elim (strip_prefix (tilde ∷ slash ∷ []) path) [
  | some p ↦ (root, p)
  | none ↦ elim (strip_prefix (slash ∷ []) path) [ some p ↦ (root, p) | none ↦ (cwd, path) ]
]

module _ (dirs : DirectoryOps) where
  unfoldable pub find_directory : ℕ → Str → Option ℕ
  find_directory dir name = find_item (dirs.list_dir dir).0 name

  unfoldable pub find_file : ℕ → Str → Option ℕ
  find_file dir name = find_item (dirs.list_dir dir).1 name

  unfoldable pub find_directory_components : ℕ → List Str → Option ℕ
  find_directory_components dir [] = none
  find_directory_components dir (next ∷ []) = find_directory dir next
  find_directory_components dir (next ∷ c ∷ rest) = do
    next_dir ← find_directory dir next
    find_directory_components next_dir (c ∷ rest)

  unfoldable pub find_file_components : ℕ → List Str → Option ℕ
  find_file_components dir [] = none
  find_file_components dir (next ∷ []) = find_file dir next
  find_file_components dir (next ∷ c ∷ rest) = do
    next_dir ← find_directory dir next
    find_file_components next_dir (c ∷ rest)

  -- `root` is the root directory and `cwd` that of the current process.
  unfoldable pub find_file_from_path : ℕ → ℕ → Str → Option ℕ
  find_file_from_path root cwd path = elim (strip_prefix (tilde ∷ slash ∷ []) path) [
    | some p ↦ find_file_components root (normalize_path_components p)
    | none ↦ elim (strip_prefix (slash ∷ []) path) [
      | some p ↦ find_file_components root (normalize_path_components p)
      | none ↦ find_file_components cwd (normalize_path_components path)
    ]
  ]

  -- `if components.is_empty() { Some(dir) } else { dir.find_directory_components(&components) }`
  abbrev pub find_directory_or_self : ℕ → List Str → Option ℕ
  find_directory_or_self dir [] = some dir
  find_directory_or_self dir (c ∷ cs) = find_directory_components dir (c ∷ cs)

  unfoldable pub find_directory_from_path : ℕ → ℕ → Str → Option ℕ
  find_directory_from_path root cwd path =
      if str_eq path (slash ∷ []) || str_eq path (tilde ∷ [])
      then some root
      else elim (strip_prefix (tilde ∷ slash ∷ []) path) [
        | some p ↦ find_directory_or_self root (normalize_path_components p)
        | none ↦ elim (strip_prefix (slash ∷ []) path) [
          | some p ↦ find_directory_or_self root (normalize_path_components p)
          | none ↦ find_directory_or_self cwd (normalize_path_components path)
        ]
      ]

  unfoldable pub resolve_parent_directory_and_name : ℕ → ℕ → Str → Option (ℕ × Str)
  resolve_parent_directory_and_name root cwd path =
      if str_eq path [] || ends_with_slash path
      then none
      else (let (base, p) = base_dir root cwd path in
          elim (split_last (normalize_path_components p)) [
            | none ↦ none
            | some (filename, parent_components) ↦ if str_eq filename up then none else (do
              parent ← find_directory_or_self base parent_components
              some (parent, filename))
          ])
