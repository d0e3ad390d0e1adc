-- ===== src/Fat/Name.antt =====
-- src/fs/fat.rs: the names of files, as long names of UTF-16 units and as short 8.3 names of 11 bytes. A
-- string is the list of its characters' codes.
pub mod Utf16
pub mod Alias
mod Tests
use bubble_os.Base.{
  ℕ, zero, suc, ◌+◌, ◌-◌, ◌*◌, ◌/◌, ◌%◌, min, Bool, true, false, not, ◌&&◌, ◌||◌, Option, none,
  some, List, [], ◌∷◌, ◌++◌, ltb, leb, ◌==◌, if◌then◌else◌, length, take, drop, splice, contains,
}
use bubble_os.Path.{Str, dot, tilde, str_eq}
use bubble_os.Fat.Entry.{before_terminator}

-- What the code takes from the Unicode tables of the standard library.
pub record Unicode : Type 0 where
  pub to_uppercase : Str → Str
  pub to_lowercase : Str → Str
  pub is_whitespace : ℕ → Bool
  pub from_utf8 : List ℕ → Option Str

abbrev pub space : ℕ
space = 32

-- `LFN_MAX_UNITS` and `LFN_MAX_ENTRIES`
abbrev pub lfn_max_units : ℕ
lfn_max_units = 255

abbrev pub lfn_max_entries : ℕ
lfn_max_entries = 20

unfoldable pub is_invalid_long_name_char : ℕ → Bool
is_invalid_long_name_char c =
    ltb c 0x20 || contains (34 ∷ 42 ∷ 47 ∷ 58 ∷ 60 ∷ 62 ∷ 63 ∷ 92 ∷ 124 ∷ []) c

unfoldable pub is_invalid_short_name_byte : ℕ → Bool
is_invalid_short_name_byte byte =
    leb byte space
    || contains (34 ∷ 42 ∷ 43 ∷ 44 ∷ 47 ∷ 58 ∷ 59 ∷ 60 ∷ 61 ∷ 62 ∷ 63 ∷ 91 ∷ 92 ∷ 93 ∷ 124 ∷ [])
        byte

abbrev pub contains_str : List Str → Str → Bool
contains_str [] s = false
contains_str (t ∷ ts) s = str_eq t s || contains_str ts s

abbrev pub any : (ℕ → Bool) → List ℕ → Bool
any p [] = false
any p (x ∷ xs) = p x || any p xs

abbrev pub is_empty : List ℕ → Bool
is_empty [] = true
is_empty (x ∷ xs) = false

abbrev pub ends_with : Str → ℕ → Bool
ends_with [] c = false
ends_with (d ∷ []) c = d == c
ends_with (d ∷ e ∷ s) c = ends_with (e ∷ s) c

-- One unit, or two surrogates for a character from 0x10000 on.
unfoldable pub encode_utf16 : Str → List ℕ
encode_utf16 [] = []
encode_utf16 (c ∷ cs) =
    let rest = encode_utf16 cs in
    if ltb c 0x10000
    then c ∷ rest
    else (0xD800 + (c - 0x10000) / 1024) ∷ (0xDC00 + (c - 0x10000) % 1024) ∷ rest

-- `char::decode_utf16` with every `char.ok()?`: nothing where a surrogate is not in its pair.
unfoldable pub decode_utf16 : List ℕ → Option Str
decode_utf16 [] = some []
decode_utf16 (u ∷ []) = if ltb u 0xD800 || leb 0xE000 u then some (u ∷ []) else none
decode_utf16 (u ∷ v ∷ us) =
    if ltb u 0xD800 || leb 0xE000 u
    then elim (decode_utf16 (v ∷ us)) [ some s ↦ some (u ∷ s) | none ↦ none ]
    else if ltb u 0xDC00 && (leb 0xDC00 v && ltb v 0xE000)
    then elim (decode_utf16 us) [
      | some s ↦ some ((0x10000 + (u - 0xD800) * 1024 + (v - 0xDC00)) ∷ s)
      | none ↦ none
    ]
    else none

unfoldable pub encode_long_filename : Str → Option (List ℕ)
unfolding is_invalid_long_name_char encode_utf16
encode_long_filename filename =
    if is_empty filename
      || contains_str ((dot ∷ []) ∷ (dot ∷ dot ∷ []) ∷ []) filename
      || ends_with filename space
      || ends_with filename dot
      || any is_invalid_long_name_char filename
    then none
    else let units = encode_utf16 filename in
      if ltb lfn_max_units (length units) then none else some units

unfoldable pub decode_long_filename : List ℕ → Option Str
unfolding before_terminator decode_utf16
decode_long_filename units = elim (decode_utf16 (before_terminator units)) [
  | none ↦ none
  | some name ↦ if is_empty name then none else some name
]

-- What stands before and behind the last and the first dot.
abbrev pub split_last_dot : Str → Option (Str × Str)
split_last_dot [] = none
split_last_dot (c ∷ cs) = elim (split_last_dot cs) [
  | some (before, behind) ↦ some (c ∷ before, behind)
  | none ↦ if c == dot then some ([], cs) else none
]

abbrev pub split_first_dot : Str → Str × Option Str
split_first_dot [] = ([], none)
split_first_dot (c ∷ cs) =
    let (before, behind) = split_first_dot cs in
    if c == dot then ([], some cs) else (c ∷ before, behind)

abbrev pub to_ascii_uppercase : ℕ → ℕ
to_ascii_uppercase c = if leb 97 c && leb c 122 then c - 32 else c

-- The loop over the characters, with the room that is left.
unfoldable pub sanitize_short_component : Str → ℕ → List ℕ
unfolding is_invalid_short_name_byte
sanitize_short_component [] left = []
sanitize_short_component (c ∷ cs) zero = []
sanitize_short_component (c ∷ cs) (suc left) =
    let skipped = sanitize_short_component cs (suc left) in
    let rest = sanitize_short_component cs left in
    let upper = to_ascii_uppercase c in
    if c == space || c == dot
    then skipped
    else (if ltb upper 128 && not (is_invalid_short_name_byte upper) then upper else 95) ∷ rest

abbrev pub spaces : ℕ → List ℕ
spaces zero = []
spaces (suc n) = space ∷ spaces n

-- `while remaining > 0`, the digits in the order of the loop. An array of six digits bounds it.
unfoldable pub tail_digits : ℕ → ℕ → List ℕ
tail_digits zero remaining = []
tail_digits (suc fuel) remaining =
    let rest = tail_digits fuel (remaining / 10) in
    if remaining == 0 then [] else (48 + remaining % 10) ∷ rest

abbrev pub reverse : List ℕ → List ℕ
reverse [] = []
reverse (x ∷ xs) = reverse xs ++ (x ∷ [])

unfoldable pub compose_short_alias : List ℕ → List ℕ → ℕ → List ℕ
unfolding tail_digits splice
compose_short_alias base ext tail =
    let digits = tail_digits 6 tail in
    let base_len = min (length base) (8 - 1 - length digits) in
    splice 8 ext (
      splice (base_len + 1) (reverse digits)
        (splice base_len (tilde ∷ []) (splice 0 (take base_len base) (spaces 11))))

-- `for tail in 1..=999_999`, on the rounds left.
unfoldable pub alias_from : ℕ → List ℕ → List ℕ → List (List ℕ) → ℕ → Option (List ℕ)
unfolding compose_short_alias
alias_from zero base ext taken tail = none
alias_from (suc left) base ext taken tail =
    let candidate = compose_short_alias base ext tail in
    elim (contains_str taken candidate) [
      | false ↦ some candidate
      | true ↦ alias_from left base ext taken (suc tail)
    ]

-- The name and the extension that an alias is made of.
unfoldable pub alias_parts : Str → Str × Str
alias_parts filename = elim (split_last_dot filename) [
  | none ↦ (filename, [])
  | some (base, ext) ↦ if is_empty base then (filename, []) else (base, ext)
]

unfoldable pub generate_short_alias : Str → List (List ℕ) → Option (List ℕ)
unfolding alias_from sanitize_short_component alias_parts
generate_short_alias filename taken =
    let (base, ext) = alias_parts filename in
    alias_from 999999 (sanitize_short_component base 8) (sanitize_short_component ext 3) taken 1

-- `str::len`, in bytes of UTF-8.
abbrev pub utf8_len : Str → ℕ
utf8_len [] = 0
utf8_len (c ∷ cs) =
    (if ltb c 0x80 then 1 else if ltb c 0x800 then 2 else if ltb c 0x10000 then 3 else 4)
    + utf8_len cs

abbrev pub count_dots : Str → ℕ
count_dots [] = 0
count_dots (c ∷ cs) = (if c == dot then 1 else 0) + count_dots cs

unfoldable pub get_fat_filename : Unicode → Str → Option (List ℕ)
unfolding is_invalid_short_name_byte splice
get_fat_filename unicode filename =
    let (before, behind) = split_first_dot filename in
    let name = unicode.to_uppercase before in
    let ext = unicode.to_uppercase (elim behind [ some e ↦ e | none ↦ [] ]) in
    if is_empty name
      || ltb 8 (utf8_len name)
      || ltb 3 (utf8_len ext)
      || ltb 1 (count_dots filename)
      || any (leb 128) name
      || any (leb 128) ext
      || any is_invalid_short_name_byte (name ++ ext)
    then none
    else some (splice 8 (take 3 ext) (splice 0 (take 8 name) (spaces 11)))

-- `trim_end`
abbrev pub trim_end : Unicode → Str → Str
trim_end unicode [] = []
trim_end unicode (c ∷ cs) =
    let rest = trim_end unicode cs in
    if is_empty rest && unicode.is_whitespace c then [] else c ∷ rest

abbrev pub short_part : Unicode → List ℕ → Str
short_part unicode bytes =
    unicode.to_lowercase
      (trim_end unicode (elim (unicode.from_utf8 bytes) [ some s ↦ s | none ↦ [] ]))

unfoldable pub get_filename_from_fat : Unicode → List ℕ → Str
get_filename_from_fat unicode filename =
    let name = short_part unicode (take 8 filename) in
    let ext = short_part unicode (take 3 (drop 8 filename)) in
    if is_empty ext then name else name ++ (dot ∷ ext)
