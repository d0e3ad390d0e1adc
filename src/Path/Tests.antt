-- ===== src/Path/Tests.antt =====
-- A root directory with the subdirectory `a`, handle 1, in which stands the file `b`, handle 7.
use bubble_os.Base.{ℕ, ◌+◌, ◌≡◌, refl, false, some, List, [], ◌∷◌, ◌==◌, if◌then◌else◌}
use bubble_os.Path.{
  Str, DirectoryOps, slash, dot, up, str_eq, split, add_component, add_components,
  normalize_path_components, find_item, find_directory, find_file, find_directory_components,
  find_file_from_path, find_directory_from_path, resolve_parent_directory_and_name,
}
use bubble_os.Path.Normal.{Normal}
use bubble_os.Path.Render.{join, Parts, normalize_path_components_lem}
use bubble_os.Path.Places.{Places, follow_all, follow_all-normalize_path_components}
use bubble_os.Path.Resolve.{resolve-find_file_from_path, resolve-find_directory_from_path}

abbrev dirs : DirectoryOps
dirs = record {
  list_dir = λ dir. if dir == 0 then ((97 ∷ [], 1) ∷ [], []) else ([], (98 ∷ [], 7) ∷ []);
}

-- `../x/./y/../z` and `/A/b`
abbrev winding : Str
winding = dot ∷ dot ∷ slash ∷ 120 ∷ slash ∷ dot ∷ slash ∷ 121 ∷ slash ∷ dot ∷ dot ∷ slash ∷ 122 ∷ []

abbrev to_b : Str
to_b = slash ∷ 65 ∷ slash ∷ 98 ∷ []

normalize_winding : normalize_path_components winding ≡ up ∷ (120 ∷ []) ∷ (122 ∷ []) ∷ []
unfolding normalize_path_components add_components add_component split
normalize_winding = refl

resolve_to_b : resolve_parent_directory_and_name dirs 0 5 to_b ≡ some (1, 98 ∷ [])
unfolding resolve_parent_directory_and_name normalize_path_components add_components add_component
    split find_directory_components find_directory find_item
resolve_to_b = refl

normalize_path_components_lem_example :
    let components = normalize_path_components winding in
    Normal components
    × Parts components
    × (normalize_path_components (join components) ≡ components)
normalize_path_components_lem_example = normalize_path_components_lem winding

-- Places in an endless tree: how often one went up from the start, and the names from there, the last first.
abbrev above : ℕ × List Str → ℕ × List Str
above (n, []) = (n + 1, [])
above (n, _ ∷ names) = (n, names)

abbrev tree : Places (ℕ × List Str)
tree = record {
  parent = above;
  enter = λ (n, names) name. (n, name ∷ names);
  parent_enter = λ n name named. refl;
}

follow_all-normalize_path_components_example :
    follow_all tree (0, []) (normalize_path_components winding)
    ≡ follow_all tree (0, []) (split winding)
follow_all-normalize_path_components_example =
    follow_all-normalize_path_components tree (0, []) winding

resolve-find_file_from_path_example :
    (str_eq (98 ∷ []) up ≡ false) × (find_file_from_path dirs 0 5 to_b ≡ find_file dirs 1 (98 ∷ []))
resolve-find_file_from_path_example =
    resolve-find_file_from_path dirs 0 5 to_b (98 ∷ []) 1 resolve_to_b

resolve-find_directory_from_path_example :
    find_directory_from_path dirs 0 5 to_b ≡ find_directory dirs 1 (98 ∷ [])
resolve-find_directory_from_path_example =
    resolve-find_directory_from_path dirs 0 5 to_b (98 ∷ []) 1 refl resolve_to_b
