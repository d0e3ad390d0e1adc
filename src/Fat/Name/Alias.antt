-- ===== src/Fat/Name/Alias.antt =====
-- The short alias of a long name: `generate_short_alias` of src/fs/fat.rs.
use bubble_os.Base.{
  ℕ, zero, suc, ◌+◌, ◌-◌, ◌/◌, ◌%◌, ◌≤◌, ◌<◌, min, ◌≡◌, refl, sym, ap, subst, ◌∙◌, inl, inr, Bool,
  true, false, not, ◌&&◌, ◌||◌, Option, some, List, [], ◌∷◌, ◌++◌, arith, ltb, ◌==◌, if◌then◌else◌,
  Bool-cases, length, take, drop, length-append, length-take-le, splice,
}
use bubble_os.Path.{Str, dot, tilde}
use bubble_os.Fat.Name.{
  space, is_invalid_short_name_byte, contains_str, to_ascii_uppercase, sanitize_short_component,
  spaces, tail_digits, reverse, compose_short_alias, alias_from, alias_parts, generate_short_alias,
}
use bubble_os.Fat.Volume.Splice.{length-splice}

-- Bytes from the space to the end of ASCII, which no directory takes for an end or a deleted entry.
abbrev pub Plain : List ℕ → Type 0
Plain [] = Unit {0}
Plain (b ∷ bs) = (32 ≤ b) × (b < 128) × Plain bs

Plain-append : (xs ys : List ℕ) → Plain xs → Plain ys → Plain (xs ++ ys)
Plain-append [] ys h l = l
Plain-append (x ∷ xs) ys (a, b, h) l = let rest = Plain-append xs ys h l in (a, b, rest)

Plain-take : (n : ℕ) (xs : List ℕ) → Plain xs → Plain (take n xs)
Plain-take zero xs h = tt
Plain-take (suc n) [] h = tt
Plain-take (suc n) (x ∷ xs) (a, b, h) = let rest = Plain-take n xs h in (a, b, rest)

Plain-drop : (n : ℕ) (xs : List ℕ) → Plain xs → Plain (drop n xs)
Plain-drop zero xs h = h
Plain-drop (suc n) [] h = tt
Plain-drop (suc n) (x ∷ xs) (a, b, h) = Plain-drop n xs h

Plain-splice : (at : ℕ) (b xs : List ℕ) → Plain b → Plain xs → Plain (splice at b xs)
unfolding splice
Plain-splice at b xs h l =
    Plain-append (take at xs) (b ++ drop (at + length b) xs) (Plain-take at xs l)
      (Plain-append b (drop (at + length b) xs) h (Plain-drop (at + length b) xs l))

Plain-reverse : (xs : List ℕ) → Plain xs → Plain (reverse xs)
Plain-reverse [] h = tt
Plain-reverse (x ∷ xs) (a, b, h) =
    Plain-append (reverse xs) (x ∷ []) (Plain-reverse xs h) (a, b, tt)

length-reverse : (xs : List ℕ) → length (reverse xs) ≡ length xs
length-reverse [] = refl
length-reverse (x ∷ xs) = omega (arith, length-append (reverse xs) (x ∷ []), length-reverse xs)

length-spaces : (n : ℕ) → length (spaces n) ≡ n
length-spaces zero = refl
length-spaces (suc n) = ap suc (length-spaces n)

Plain-spaces : (n : ℕ) → Plain (spaces n)
Plain-spaces zero = tt
Plain-spaces (suc n) = let rest = Plain-spaces n in (omega arith, omega arith, rest)

tail_digits_lem : (fuel n : ℕ) → (length (tail_digits fuel n) ≤ fuel) × Plain (tail_digits fuel n)
unfolding tail_digits
tail_digits_lem zero n = (omega arith, tt)
tail_digits_lem (suc fuel) n =
    let (l, h) = tail_digits_lem fuel (n / 10) in
    elim (Bool-cases (n == 0)) [
      | inl e ↦ rw e (omega arith, tt)
      | inr e ↦
          let digits : Plain ((48 + n % 10) ∷ tail_digits fuel (n / 10)) =
            (omega arith, omega arith, h) in
          rw e (omega arith, digits)
    ]

-- The byte that stands for a character.
abbrev short_byte : ℕ → ℕ
short_byte c =
    let upper = to_ascii_uppercase c in
    if ltb upper 128 && not (is_invalid_short_name_byte upper) then upper else 95

short_byte_lem : (c : ℕ) → (32 ≤ short_byte c) × (short_byte c < 128)
unfolding is_invalid_short_name_byte
short_byte_lem c = (ground arith, ground arith)

sanitize_short_component_lem :
    (s : Str) (left : ℕ)
    → (length (sanitize_short_component s left) ≤ left) × Plain (sanitize_short_component s left)
unfolding sanitize_short_component
sanitize_short_component_lem [] left = (omega arith, tt)
sanitize_short_component_lem (c ∷ cs) zero = (omega arith, tt)
sanitize_short_component_lem (c ∷ cs) (suc left) =
    let skipped = sanitize_short_component_lem cs (suc left) in
    let (l, h) = sanitize_short_component_lem cs left in
    let (low, high) = short_byte_lem c in
    elim (Bool-cases (c == space || c == dot)) [
      | inl e ↦ rw e skipped
      | inr e ↦
          let kept : Plain (short_byte c ∷ sanitize_short_component cs left) = (low, high, h) in
          rw e (omega arith, kept)
    ]

-- An alias has 11 bytes, all of them plain.
compose_short_alias_lem :
    (base ext : List ℕ) (tail : ℕ)
    → Plain base
    → Plain ext
    → length ext ≤ 3
    → (length (compose_short_alias base ext tail) ≡ 11) × Plain (compose_short_alias base ext tail)
unfolding compose_short_alias
compose_short_alias_lem base ext tail hb he l =
    let digits = tail_digits 6 tail in
    let (few, hd) = tail_digits_lem 6 tail in
    let n = min (length base) (8 - 1 - length digits) in
    let front = take n base in
    let size = length-take-le n base (omega arith) in
    let turned = length-reverse digits in
    let s0 = splice 0 front (spaces 11) in
    let s1 = splice n (tilde ∷ []) s0 in
    let s2 = splice (n + 1) (reverse digits) s1 in
    let l0 = length-splice 0 front (spaces 11) (omega (arith, length-spaces 11)) in
    let l1 = length-splice n (tilde ∷ []) s0 (omega (arith, length-spaces 11)) in
    let l2 = length-splice (n + 1) (reverse digits) s1 (omega (arith, length-spaces 11)) in
    let l3 = length-splice 8 ext s2 (omega (arith, length-spaces 11)) in
    (
      omega (arith, length-spaces 11),
      Plain-splice 8 ext s2 he (
          Plain-splice (n + 1) (reverse digits) s1 (Plain-reverse digits hd) (
            Plain-splice n (tilde ∷ []) s0 (omega arith, omega arith, tt)
              (Plain-splice 0 front (spaces 11) (Plain-take n base hb) (Plain-spaces 11)))),
    )

alias_from_lem :
    (left : ℕ) (base ext : List ℕ) (taken : List (List ℕ)) (tail : ℕ) (short : List ℕ)
    → Plain base
    → Plain ext
    → length ext ≤ 3
    → alias_from left base ext taken tail ≡ some short
    → (contains_str taken short ≡ false) × (length short ≡ 11) × Plain short
unfolding alias_from
alias_from_lem zero base ext taken tail short hb he l e = absurd (cc)
alias_from_lem (suc left) base ext taken tail short hb he l e =
    let candidate = compose_short_alias base ext tail in
    let (size, plain) = compose_short_alias_lem base ext tail hb he l in
    let pick : Bool → Option (List ℕ) =
      λ b. elim b [ false ↦ some candidate | true ↦ alias_from left base ext taken (suc tail) ] in
    elim (Bool-cases (contains_str taken candidate)) [
      | inl b ↦ alias_from_lem left base ext taken (suc tail) short hb he l (sym (ap pick b) ∙ e)
      | inr b ↦
          let yes : some candidate ≡ some short = sym (ap pick b) ∙ e in
          let same : candidate ≡ short = cc in
          subst (λ s. (contains_str taken s ≡ false) × (length s ≡ 11) × Plain s) same
            (b, size, plain)
    ]

-- The alias that `generate_short_alias` returns for any name is none of the short names taken, has 11
-- bytes, and each byte of it lies from 32, the space, to 127, the end of ASCII.
pub generate_short_alias_lem :
    (filename : Str) (taken : List (List ℕ)) (short : List ℕ)
    → generate_short_alias filename taken ≡ some short
    → (contains_str taken short ≡ false) × (length short ≡ 11) × Plain short
unfolding generate_short_alias
generate_short_alias_lem filename taken short e =
    let (base, ext) = alias_parts filename in
    let (_, hb) = sanitize_short_component_lem base 8 in
    let (l, he) = sanitize_short_component_lem ext 3 in
    alias_from_lem 999999 (sanitize_short_component base 8) (sanitize_short_component ext 3) taken 1
      short hb he l e
