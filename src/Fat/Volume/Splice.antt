-- ===== src/Fat/Volume/Splice.antt =====
-- Bytes replaced inside a buffer, along the borders of the clusters that the buffer is cut into.
use bubble_os.Base.{
  ℕ, zero, suc, ◌+◌, ◌-◌, ◌≤◌, ◌≡◌, refl, sym, ap, ◌∙◌, List, [], ◌∷◌, ◌++◌, arith, length, take,
  drop, length-append, length-take-le, length-drop, drop_of_le, drop-drop, take-append, drop-append,
  splice,
}

module _ {A : Type 0} where
  pub take-append_le : (n : ℕ) (xs ys : List A) → n ≤ length xs → take n (xs ++ ys) ≡ take n xs
  take-append_le zero xs ys h = refl
  take-append_le (suc n) [] ys h = absurd (omega arith)
  take-append_le (suc n) (x ∷ xs) ys h = ap (◌∷◌ x) (take-append_le n xs ys (omega arith))

  pub take-append_ge :
      (n : ℕ) (xs ys : List A) → length xs ≤ n → take n (xs ++ ys) ≡ xs ++ take (n - length xs) ys
  take-append_ge n [] ys h = let e : n ≡ n - 0 = omega arith in ap (λ k. take k ys) e
  take-append_ge zero (x ∷ xs) ys h = absurd (omega arith)
  take-append_ge (suc n) (x ∷ xs) ys h =
      let e : n - length xs ≡ suc n - suc (length xs) = omega arith in
      ap (◌∷◌ x) (take-append_ge n xs ys (omega arith) ∙ ap (λ k. xs ++ take k ys) e)

  pub drop-append_le :
      (n : ℕ) (xs ys : List A) → n ≤ length xs → drop n (xs ++ ys) ≡ drop n xs ++ ys
  drop-append_le zero xs ys h = refl
  drop-append_le (suc n) [] ys h = absurd (omega arith)
  drop-append_le (suc n) (x ∷ xs) ys h = drop-append_le n xs ys (omega arith)

  pub drop-append_ge :
      (n : ℕ) (xs ys : List A) → length xs ≤ n → drop n (xs ++ ys) ≡ drop (n - length xs) ys
  drop-append_ge n [] ys h = let e : n ≡ n - 0 = omega arith in ap (λ k. drop k ys) e
  drop-append_ge zero (x ∷ xs) ys h = absurd (omega arith)
  drop-append_ge (suc n) (x ∷ xs) ys h =
      let e : n - length xs ≡ suc n - suc (length xs) = omega arith in
      drop-append_ge n xs ys (omega arith) ∙ ap (λ k. drop k ys) e

  pub append_assoc : (xs ys zs : List A) → (xs ++ ys) ++ zs ≡ xs ++ (ys ++ zs)
  append_assoc [] ys zs = refl
  append_assoc (x ∷ xs) ys zs = ap (◌∷◌ x) (append_assoc xs ys zs)

pub length-splice :
    (at : ℕ) (b xs : List ℕ) → at + length b ≤ length xs → length (splice at b xs) ≡ length xs
unfolding splice
length-splice at b xs h = omega (
  arith,
  length-append (take at xs) (b ++ drop (at + length b) xs),
  length-append b (drop (at + length b) xs),
  length-take-le at xs (omega arith),
  length-drop (at + length b) xs,
)

-- The bytes fit into the first part.
pub splice-append_left :
    (at : ℕ) (b xs ys : List ℕ)
    → at + length b ≤ length xs
    → splice at b (xs ++ ys) ≡ splice at b xs ++ ys
unfolding splice
splice-append_left at b xs ys h =
    rw
      (
        take-append_le at xs ys (omega arith),
        drop-append_le (at + length b) xs ys h,
        append_assoc (take at xs) (b ++ drop (at + length b) xs) ys,
        append_assoc b (drop (at + length b) xs) ys,
      )
      refl

-- The bytes reach from the first part into the second.
pub splice-append_both :
    (at : ℕ) (a b xs ys : List ℕ)
    → at + length a ≡ length xs
    → splice at (a ++ b) (xs ++ ys) ≡ splice at a xs ++ splice 0 b ys
unfolding splice
splice-append_both at a b xs ys h =
    let n : (at + length (a ++ b)) - length xs ≡ 0 + length b = omega (arith, length-append a b) in
    rw
      (
        take-append_le at xs ys (omega arith),
        drop-append_ge (at + length (a ++ b)) xs ys (omega (arith, length-append a b)),
        n,
        drop_of_le (at + length a) xs (omega arith),
        append_assoc a b (drop (0 + length b) ys),
        append_assoc (take at xs) (a ++ []) (b ++ drop (0 + length b) ys),
        append_assoc a [] (b ++ drop (0 + length b) ys),
      )
      refl

-- The bytes stand in the second part.
pub splice-append_right :
    (at : ℕ) (b xs ys : List ℕ)
    → length xs ≤ at
    → splice at b (xs ++ ys) ≡ xs ++ splice (at - length xs) b ys
unfolding splice
splice-append_right at b xs ys h =
    let e : (at + length b) - length xs ≡ (at - length xs) + length b = omega arith in
    rw
      (
        take-append_ge at xs ys h,
        drop-append_ge (at + length b) xs ys (omega arith),
        e,
        append_assoc xs (take (at - length xs) ys) (b ++ drop ((at - length xs) + length b) ys),
      )
      refl

pub take-drop {ℓ} : {A : Type ℓ} (n : ℕ) (xs : List A) → take n xs ++ drop n xs ≡ xs
take-drop zero xs = refl
take-drop (suc n) [] = refl
take-drop (suc n) (x ∷ xs) = ap (◌∷◌ x) (take-drop n xs)

-- A prefix that holds all of the bytes is changed like the whole.
pub take-splice :
    (at : ℕ) (b : List ℕ) (n : ℕ) (xs : List ℕ)
    → at + length b ≤ n
    → n ≤ length xs
    → take n (splice at b xs) ≡ splice at b (take n xs)
take-splice at b n xs h l =
    let parts : xs ≡ take n xs ++ drop n xs = sym (take-drop n xs) in
    let size = length-take-le n xs l in
    let fits : at + length b ≤ length (take n xs) = omega arith in
    ap (λ ys. take n (splice at b ys)) parts
    ∙ ap (take n) (splice-append_left at b (take n xs) (drop n xs) fits)
    ∙ take-append n (splice at b (take n xs)) (drop n xs)
        (length-splice at b (take n xs) fits ∙ size)

-- A window on the bytes that were put in, one in front of them and one behind them.
pub drop-splice_self :
    (at : ℕ) (b xs : List ℕ)
    → at + length b ≤ length xs
    → take (length b) (drop at (splice at b xs)) ≡ b
unfolding splice
drop-splice_self at b xs h =
    let rest = b ++ drop (at + length b) xs in
    ap (take (length b)) (drop-append at (take at xs) rest (length-take-le at xs (omega arith)))
    ∙ take-append (length b) b (drop (at + length b) xs) refl

pub window-append :
    (o n : ℕ) (xs ys : List ℕ) → o + n ≤ length xs → take n (drop o (xs ++ ys)) ≡ take n (drop o xs)
window-append o n xs ys h =
    ap (take n) (drop-append_le o xs ys (omega arith))
    ∙ take-append_le n (drop o xs) ys (omega (arith, length-drop o xs))

pub drop-splice_left :
    (at : ℕ) (b xs : List ℕ) (o n : ℕ)
    → at + length b ≤ length xs
    → o + n ≤ at
    → take n (drop o (splice at b xs)) ≡ take n (drop o xs)
unfolding splice
drop-splice_left at b xs o n h l =
    let size = length-take-le at xs (omega arith) in
    window-append o n (take at xs) (b ++ drop (at + length b) xs) (omega arith)
    ∙ sym (window-append o n (take at xs) (drop at xs) (omega arith))
    ∙ ap (λ ys. take n (drop o ys)) (take-drop at xs)

pub drop-splice_right :
    (at : ℕ) (b xs : List ℕ) (o : ℕ)
    → at + length b ≤ length xs
    → at + length b ≤ o
    → drop o (splice at b xs) ≡ drop o xs
unfolding splice
drop-splice_right at b xs o h l =
    let size = length-take-le at xs (omega arith) in
    let front = take at xs ++ b in
    let long : length front ≡ at + length b = omega (arith, length-append (take at xs) b) in
    let again : (at + length b) + (o - (at + length b)) ≡ o = omega arith in
    ap (drop o) (sym (append_assoc (take at xs) b (drop (at + length b) xs)))
    ∙ drop-append_ge o front (drop (at + length b) xs) (omega arith)
    ∙ ap (λ k. drop (o - k) (drop (at + length b) xs)) long
    ∙ drop-drop (at + length b) (o - (at + length b)) xs
    ∙ ap (λ k. drop k xs) again
