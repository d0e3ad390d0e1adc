-- ===== src/Fat/Volume/TestDisk.antt =====
-- A disk in memory, to try the volume of src/fs/fat_fs.rs on: a byte for every address.
use bubble_os.Base.{
  ℕ, zero, suc, ◌+◌, ◌*◌, ◌≤◌, ◌<◌, ◌≡◌, refl, sym, ap, ◌∙◌, ◌⊎◌, inl, inr, true, some, List, [],
  ◌∷◌, arith, ◌==◌, if◌then◌else◌, length, take, take_of_le,
}
use bubble_os.Fat.Volume.{Port}
use bubble_os.Fat.Volume.Disk.{Reliable}

abbrev pub TestBytes : Type 0
TestBytes = ℕ → ℕ

abbrev range : TestBytes → ℕ → ℕ → List ℕ
range m a zero = []
range m a (suc n) = m a ∷ range m (suc a) n

abbrev stored : TestBytes → ℕ → List ℕ → TestBytes
stored m a [] x = m x
stored m a (b ∷ bs) x = if x == a then b else stored m (suc a) bs x

-- A read of `n` sectors takes as many whole sectors, and a write of a longer list stops there.
abbrev pub test_disk : Port TestBytes
test_disk = record {
  read = λ m a n b. some (range m (512 * a) (512 * n));
  write_sectors = λ m a n b. (true, stored m (512 * a) (take (512 * n) b));
  alloc = λ m n. true;
}

length-range : (m : TestBytes) (a n : ℕ) → length (range m a n) ≡ n
length-range m a zero = refl
length-range m a (suc n) = ap suc (length-range m (suc a) n)

stored-below : (m : TestBytes) (a : ℕ) (bs : List ℕ) (x : ℕ) → x < a → stored m a bs x ≡ m x
stored-below m a [] x h = refl
stored-below m a (b ∷ bs) x h = ground (arith, stored-below m (suc a) bs x)

stored-above :
    (m : TestBytes) (a : ℕ) (bs : List ℕ) (x : ℕ) → a + length bs ≤ x → stored m a bs x ≡ m x
stored-above m a [] x h = refl
stored-above m a (b ∷ bs) x h = ground (arith, stored-above m (suc a) bs x (omega arith))

range-same :
    (m m' : TestBytes) (a n : ℕ)
    → ((x : ℕ) → a ≤ x → x < a + n → m x ≡ m' x)
    → range m a n ≡ range m' a n
range-same m m' a zero h = refl
range-same m m' a (suc n) h =
    rw
      (
        h a (omega arith) (omega arith),
        range-same m m' (suc a) n (λ x l u. h x (omega arith) (omega arith)),
      )
      refl

range-stored : (m : TestBytes) (a : ℕ) (bs : List ℕ) → range (stored m a bs) a (length bs) ≡ bs
range-stored m a [] = refl
range-stored m a (b ∷ bs) =
    let first : stored m a (b ∷ bs) a ≡ b = ground arith in
    let rest =
      range-same (stored m a (b ∷ bs)) (stored m (suc a) bs) (suc a) (length bs)
        (λ x l u. ground arith) in
    rw (first, rest, range-stored m (suc a) bs) refl

range-stored_apart :
    (m : TestBytes) (a : ℕ) (bs : List ℕ) (x n : ℕ)
    → (a + length bs ≤ x) ⊎ (x + n ≤ a)
    → range (stored m a bs) x n ≡ range m x n
range-stored_apart m a bs x n (inl h) =
    range-same (stored m a bs) m x n (λ y l u. stored-above m a bs y (omega arith))
range-stored_apart m a bs x n (inr h) =
    range-same (stored m a bs) m x n (λ y l u. stored-below m a bs y (omega arith))

length-take_le : (n : ℕ) (xs : List ℕ) → length (take n xs) ≤ n
length-take_le zero xs = omega arith
length-take_le (suc n) [] = omega arith
length-take_le (suc n) (x ∷ xs) = omega (arith, length-take_le n xs)

test_disk-read_apart :
    (m : TestBytes) (a n : ℕ) (b : List ℕ) (x k : ℕ)
    → (a + n ≤ x) ⊎ (x + k ≤ a)
    → range (stored m (512 * a) (take (512 * n) b)) (512 * x) (512 * k)
      ≡ range m (512 * x) (512 * k)
test_disk-read_apart m a n b x k (inl h) =
    range-stored_apart m (512 * a) (take (512 * n) b) (512 * x) (512 * k)
      (inl (omega (arith, length-take_le (512 * n) b)))
test_disk-read_apart m a n b x k (inr h) =
    range-stored_apart m (512 * a) (take (512 * n) b) (512 * x) (512 * k) (inr (omega arith))

pub test_disk-Reliable : Reliable test_disk
test_disk-Reliable = record {
  read_fills =
      λ m a n b h e. (range m (512 * a) (512 * n), refl, length-range m (512 * a) (512 * n));
  write_succeeds = λ m a n b h. refl;
  read_written = λ m a n b c h e f. ap some (
      ap (λ k. range (stored m (512 * a) (take k b)) (512 * a) k) (sym e)
      ∙ ap (λ l. range (stored m (512 * a) l) (512 * a) (length b))
          (take_of_le (length b) b (omega arith))
      ∙ range-stored m (512 * a) b);
  read_apart = λ m a n b x k c h. ap some (test_disk-read_apart m a n b x k h);
}
