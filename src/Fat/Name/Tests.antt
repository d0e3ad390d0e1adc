-- ===== src/Fat/Name/Tests.antt =====
-- The alias of `a long name.txt`, where the first one is taken.
use bubble_os.Base.{ℕ, ◌≡◌, refl, false, some, List, [], ◌∷◌, length}
use bubble_os.Path.{Str}
use bubble_os.Fat.Name.{contains_str, generate_short_alias}
use bubble_os.Fat.Name.Alias.{Plain, generate_short_alias_lem}

abbrev spaced_name : Str
spaced_name =
    97 ∷ 32 ∷ 108 ∷ 111 ∷ 110 ∷ 103 ∷ 32 ∷ 110 ∷ 97 ∷ 109 ∷ 101 ∷ 46 ∷ 116 ∷ 120 ∷ 116 ∷ []

-- `ALONGN~1.TXT` and `ALONGN~2.TXT`
abbrev alias_with : ℕ → List ℕ
alias_with digit = 65 ∷ 76 ∷ 79 ∷ 78 ∷ 71 ∷ 78 ∷ 126 ∷ digit ∷ 84 ∷ 88 ∷ 84 ∷ []

spaced_name-second : generate_short_alias spaced_name (alias_with 49 ∷ []) ≡ some (alias_with 50)
unfolding generate_short_alias
spaced_name-second = refl

generate_short_alias_lem_example :
    (contains_str (alias_with 49 ∷ []) (alias_with 50) ≡ false)
    × (length (alias_with 50) ≡ 11)
    × Plain (alias_with 50)
generate_short_alias_lem_example =
    generate_short_alias_lem spaced_name (alias_with 49 ∷ []) (alias_with 50) spaced_name-second
