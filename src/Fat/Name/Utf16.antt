-- ===== src/Fat/Name/Utf16.antt =====
-- Long names as UTF-16 units, in `encode_long_filename` and `decode_long_filename` of src/fs/fat.rs.
use bubble_os.Base.{
  ℕ, ◌+◌, ◌-◌, ◌*◌, ◌/◌, ◌%◌, ◌≤◌, ◌<◌, ◌≡◌, refl, sym, ap, ◌∙◌, ◌⊎◌, inl, inr, Bool, true, false,
  ◌&&◌, ◌||◌, none, some, List, [], ◌∷◌, arith, ltb, leb, if◌then◌else◌, Bool-cases, length,
}
use bubble_os.Path.{Str, dot}
use bubble_os.Fat.Entry.Units.{IsUnits}
use bubble_os.Fat.Name.{
  encode_utf16, decode_utf16, encode_long_filename, is_invalid_long_name_char, any, is_empty,
  contains_str, ends_with, space,
}

-- The characters of a string: no surrogates, and nothing from 0x110000 on.
abbrev pub IsText : Str → Type 0
IsText [] = Unit {0}
IsText (c ∷ cs) = (c < 0x110000) × ((c < 0xD800) ⊎ (0xE000 ≤ c)) × IsText cs

decode_utf16-plain :
    (u : ℕ) (us : List ℕ) (s : Str)
    → (u < 0xD800) ⊎ (0xE000 ≤ u)
    → decode_utf16 us ≡ some s
    → decode_utf16 (u ∷ us) ≡ some (u ∷ s)
unfolding decode_utf16
decode_utf16-plain u [] s h e = ground (arith, e)
decode_utf16-plain u (v ∷ us) s h e =
    let plain : (ltb u 0xD800 || leb 0xE000 u) ≡ true = ground arith in rw (plain, e) refl

decode_utf16-pair :
    (k : ℕ) (us : List ℕ) (s : Str)
    → k < 0x100000
    → decode_utf16 us ≡ some s
    → decode_utf16 ((0xD800 + k / 1024) ∷ (0xDC00 + k % 1024) ∷ us) ≡ some ((0x10000 + k) ∷ s)
unfolding decode_utf16
decode_utf16-pair k us s h e =
    let u = 0xD800 + k / 1024 in
    let v = 0xDC00 + k % 1024 in
    let plain : (ltb u 0xD800 || leb 0xE000 u) ≡ false = ground arith in
    let paired : (ltb u 0xDC00 && (leb 0xDC00 v && ltb v 0xE000)) ≡ true = ground arith in
    let same : 0x10000 + (u - 0xD800) * 1024 + (v - 0xDC00) ≡ 0x10000 + k = omega arith in
    rw (plain, paired, e) (ap (λ c. some (c ∷ s)) same)

-- What `encode_utf16` makes of a string is decoded to that string.
pub decode_utf16-encode_utf16 : (s : Str) → IsText s → decode_utf16 (encode_utf16 s) ≡ some s
unfolding encode_utf16 decode_utf16
decode_utf16-encode_utf16 [] h = refl
decode_utf16-encode_utf16 (c ∷ cs) (l, plain, h) =
    let rest = decode_utf16-encode_utf16 cs h in
    elim (Bool-cases (ltb c 0x10000)) [
      | inl e ↦ rw e (decode_utf16-plain c (encode_utf16 cs) cs plain rest)
      | inr e ↦
          let back : 0x10000 + (c - 0x10000) ≡ c = ground arith in
          rw e (
            decode_utf16-pair (c - 0x10000) (encode_utf16 cs) cs (omega arith) rest
            ∙ ap (λ d. some (d ∷ cs)) back)
    ]

-- A name without the characters that a long name may not have has no unit 0.
encode_utf16-IsUnits :
    (s : Str) → IsText s → any is_invalid_long_name_char s ≡ false → IsUnits (encode_utf16 s)
unfolding encode_utf16 is_invalid_long_name_char
encode_utf16-IsUnits [] h v = tt
encode_utf16-IsUnits (c ∷ cs) (l, plain, h) v =
    let rest = encode_utf16-IsUnits cs h (ground arith) in
    let visible : 0x20 ≤ c = ground arith in
    elim (Bool-cases (ltb c 0x10000)) [
      | inl e ↦ rw e (ground arith, ground arith, rest)
      | inr e ↦
          let k = c - 0x10000 in
          let below : k < 0x100000 = ground arith in
          let second : IsUnits ((0xDC00 + k % 1024) ∷ encode_utf16 cs) =
            (omega arith, omega arith, rest) in
          let both : IsUnits ((0xD800 + k / 1024) ∷ (0xDC00 + k % 1024) ∷ encode_utf16 cs) =
            (omega arith, omega arith, second) in
          rw e both
    ]

-- The tests of `encode_long_filename`, in its order.
abbrev refused : Str → Bool
refused s =
    is_empty s
    || contains_str ((dot ∷ []) ∷ (dot ∷ dot ∷ []) ∷ []) s
    || ends_with s space
    || ends_with s dot
    || any is_invalid_long_name_char s

refused_lem :
    (s : Str) → refused s ≡ false → (is_empty s ≡ false) × (any is_invalid_long_name_char s ≡ false)
refused_lem s h =
    five (is_empty s) (contains_str ((dot ∷ []) ∷ (dot ∷ dot ∷ []) ∷ []) s) (ends_with s space)
      (ends_with s dot) (any is_invalid_long_name_char s) h
  where
    five : (a b c d e : Bool) → (a || b || c || d || e) ≡ false → (a ≡ false) × (e ≡ false)
    five true b c d e h = absurd (cc)
    five false true c d e h = absurd (cc)
    five false false true d e h = absurd (cc)
    five false false false true e h = absurd (cc)
    five false false false false e h = (refl, h)

-- What `encode_long_filename` returns are the units of the name, at most 255 and none of them 0.
pub encode_long_filename_lem :
    (s : Str) (units : List ℕ)
    → IsText s
    → encode_long_filename s ≡ some units
    → (is_empty s ≡ false) × (units ≡ encode_utf16 s) × (length units ≤ 255) × IsUnits units
unfolding encode_long_filename
encode_long_filename_lem s units h e =
    let us = encode_utf16 s in
    let fits = λ (b : Bool). if b then none else some us in
    let shape = λ (b : Bool). if b then none else fits (ltb 255 (length us)) in
    elim (Bool-cases (refused s)) [
      | inl r ↦ let no : none ≡ some units = sym (ap shape r) ∙ e in absurd (cc)
      | inr r ↦ elim (Bool-cases (ltb 255 (length us))) [
        | inl big ↦
            let no : none ≡ some units = sym (ap fits big) ∙ sym (ap shape r) ∙ e in absurd (cc)
        | inr small ↦
            let yes : some us ≡ some units = sym (ap fits small) ∙ sym (ap shape r) ∙ e in
            let same : us ≡ units = cc in
            let (full, clean) = refused_lem s r in
            let short : length us ≤ 255 = ground arith in
            (full, sym same, rw (← same) short, rw (← same) (encode_utf16-IsUnits s h clean))
      ]
    ]
