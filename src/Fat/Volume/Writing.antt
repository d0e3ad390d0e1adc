-- ===== src/Fat/Volume/Writing.antt =====
-- `write_existing_file` of src/fs/fat_fs.rs on a cluster chain that holds the file.
use bubble_os.Base.{
  ℕ, zero, suc, ◌+◌, ◌-◌, ◌≤◌, ◌<◌, min, ◌≡◌, refl, sym, ap, ◌∙◌, ◌≢◌, inl, inr, Bool, true, false,
  not, Option, none, some, List, [], ◌∷◌, arith, ltb, ◌==◌, if◌then◌else◌, ltb→lt, ==_iff,
  Bool-cases, length, take, drop, length-append, length-take-le, length-drop, take_of_le, splice,
  contains,
}
use bubble_os.Fat.Table.{next_cluster}
use bubble_os.Fat.Table.Chain.{Chain, Chain-fresh}
use bubble_os.Fat.Volume.{FatFileSystem, Port, cluster_size, write_cluster}
use bubble_os.Fat.Volume.Content.{write_loop}
use bubble_os.Fat.Volume.Disk.{
  Reliable, VolumeIsValid, content, written, read_cluster-content, write_cluster-written,
  content-written_self, content-written_ne,
}
use bubble_os.Fat.Volume.Splice.{length-splice, splice-append_left, splice-append_both, take-drop}
use bubble_os.Fat.Volume.Reading.{contents}

abbrev pub at_port : {S : Type 0} → FatFileSystem S → S → FatFileSystem S
at_port fs s = record fs { port = s }

abbrev pub InVolume : {S : Type 0} → FatFileSystem S → ℕ → Type 0
InVolume fs x = (2 ≤ x) × (x < fs.fat.entries)

module _ {S : Type 0} (P : Port S) (R : Reliable P) (fs : FatFileSystem S)
    (valid : VolumeIsValid fs) where
  -- The rest of a round, after its write.
  abbrev after_write :
      ℕ → ℕ → ℕ → ℕ → List ℕ → Bool × FatFileSystem S → Option (Option ℕ × FatFileSystem S)
  after_write fuel c bytes_written n bytes (status, fs') =
      if not status
      then some ((if bytes_written == 0 then none else some bytes_written), fs')
      else let written = bytes_written + n in
        if n == length bytes then some (some written, fs') else elim (next_cluster fs.fat c) [
          | none ↦ some (none, fs')
          | some d ↦ write_loop P fuel fs' d 0 written (drop n bytes)
        ]

  write_loop-round :
      (fuel c at w : ℕ) (bytes : List ℕ) (n : ℕ)
      → min (length bytes) (cluster_size fs - at) ≡ n
      → write_loop P (suc fuel) fs c at w bytes
        ≡ after_write fuel c w n bytes
            (true, written P fs c (splice at (take n bytes) (content P fs c)))
  unfolding write_loop
  write_loop-round fuel c at w bytes n e =
      let m = min (length bytes) (cluster_size fs - at) in
      ap
        (λ r. elim r [
          | none ↦ some (none, fs)
          | some region ↦
              after_write fuel c w m bytes (write_cluster P fs c (splice at (take m bytes) region))
        ])
        (read_cluster-content P R fs valid c).0
      ∙ ap (after_write fuel c w m bytes)
          (write_cluster-written P R fs valid c (splice at (take m bytes) (content P fs c)))
      ∙ ap
          (λ k.
            after_write fuel c w k bytes
              (true, written P fs c (splice at (take k bytes) (content P fs c))))
          e

  write_loop-fits :
      (fuel c at w : ℕ) (bytes : List ℕ)
      → at + length bytes ≤ cluster_size fs
      → write_loop P (suc fuel) fs c at w bytes
        ≡ some (some (w + length bytes), written P fs c (splice at bytes (content P fs c)))
  write_loop-fits fuel c at w bytes h =
      let whole = take_of_le (length bytes) bytes (omega arith) in
      let done = (==_iff (length bytes) (length bytes)).1 refl in
      write_loop-round fuel c at w bytes (length bytes) (omega arith)
      ∙ rw done (
          ap (λ b. some (some (w + length bytes), written P fs c (splice at b (content P fs c))))
            whole)

  write_loop-spills :
      (fuel c d at w : ℕ) (bytes : List ℕ)
      → at < cluster_size fs
      → cluster_size fs < at + length bytes
      → next_cluster fs.fat c ≡ some d
      → let n = cluster_size fs - at in
        write_loop P (suc fuel) fs c at w bytes
        ≡ write_loop P fuel
            (written P fs c (splice at (take n bytes) (content P fs c)))
            d
            0
            (w + n)
            (drop n bytes)
  write_loop-spills fuel c d at w bytes l h next =
      let more : (cluster_size fs - at == length bytes) ≡ false = ground arith in
      write_loop-round fuel c at w bytes (cluster_size fs - at) (omega arith) ∙ rw (more, next) refl

-- Clusters that are not written keep what they hold.
pub contents-frame :
    {S : Type 0} (P : Port S) (fs fs' : FatFileSystem S) (r : List ℕ)
    → ((x : ℕ) → contains r x ≡ true → content P fs' x ≡ content P fs x)
    → contents P fs' r ≡ contents P fs r
contents-frame P fs fs' [] h = refl
contents-frame P fs fs' (x ∷ r) h =
    rw (h x (ground arith), contents-frame P fs fs' r (λ y m. h y (ground arith))) refl

-- What a write of `bytes` at `at` into the clusters `cs` leaves behind: their bytes with those replaced,
-- and every other cluster of the volume as it was.
abbrev pub Replaced :
    {S : Type 0} → Port S → FatFileSystem S → List ℕ → ℕ → List ℕ → FatFileSystem S → Type 0
Replaced P fs cs at bytes fs' =
    (contents P fs' cs ≡ splice at bytes (contents P fs cs))
    × ((x : ℕ) → InVolume fs x → contains cs x ≡ false → content P fs' x ≡ content P fs x)

abbrev pub Numbered : {S : Type 0} → FatFileSystem S → List ℕ → Type 0
Numbered fs cs = (x : ℕ) → contains cs x ≡ true → InVolume fs x

module _ {S : Type 0} (P : Port S) (R : Reliable P) where
  written-Replaced :
      (fs : FatFileSystem S) (c : ℕ) (r : List ℕ) (at : ℕ) (bytes : List ℕ)
      → VolumeIsValid fs
      → Numbered fs (c ∷ r)
      → contains r c ≡ false
      → at + length bytes ≤ cluster_size fs
      → Replaced P fs (c ∷ r) at bytes (written P fs c (splice at bytes (content P fs c)))
  written-Replaced fs c r at bytes valid num fresh h =
      let (_, size) = read_cluster-content P R fs valid c in
      let b = splice at bytes (content P fs c) in
      let fs' = written P fs c b in
      let fits : at + length bytes ≤ length (content P fs c) = omega arith in
      let here =
        content-written_self P R fs valid c b
          (length-splice at bytes (content P fs c) fits ∙ size) in
      let other : (x : ℕ) → InVolume fs x → c ≢ x → content P fs' x ≡ content P fs x =
        λ x v n. content-written_ne P R fs valid c x b (num c (ground arith)) v n in
      let rest =
        contents-frame P fs fs' r
          (λ x m. other x (num x (ground arith)) (λ e. absurd (ground arith))) in
      (
        rw (here, rest) (sym (splice-append_left at bytes (content P fs c) (contents P fs r) fits)),
        λ x v m. other x v (λ e. absurd (ground arith)),
      )

  -- A write that does not fit into the first cluster goes on in the next.
  spilled-Replaced :
      (fs : FatFileSystem S) (s : S) (c y : ℕ) (r : List ℕ) (at n : ℕ) (bytes : List ℕ)
      → VolumeIsValid fs
      → Numbered fs (c ∷ y ∷ r)
      → contains (y ∷ r) c ≡ false
      → at + n ≡ cluster_size fs
      → n ≤ length bytes
      → let fs1 = written P fs c (splice at (take n bytes) (content P fs c)) in
        Replaced P fs1 (y ∷ r) 0 (drop n bytes) (at_port fs s)
        → Replaced P fs (c ∷ y ∷ r) at bytes (at_port fs s)
  spilled-Replaced fs s c y r at n bytes valid num fresh e l (same, other) =
      let (_, size) = read_cluster-content P R fs valid c in
      let a = take n bytes in
      let la = length-take-le n bytes l in
      let fits : at + length a ≡ length (content P fs c) = omega arith in
      let fs1 = written P fs c (splice at a (content P fs c)) in
      let (whole, before) = written-Replaced fs c (y ∷ r) at a valid num fresh (omega arith) in
      let own : content P fs1 c ≡ splice at a (content P fs c) =
        content-written_self P R fs valid c (splice at a (content P fs c))
          (length-splice at a (content P fs c) (omega arith) ∙ size) in
      let rest : contents P fs1 (y ∷ r) ≡ contents P fs (y ∷ r) =
        contents-frame P fs fs1 (y ∷ r) (λ x m.
          content-written_ne P R fs valid c x (splice at a (content P fs c)) (num c (ground arith))
            (num x (ground arith)) (λ e. absurd (ground arith))) in
      (
        rw (other c (num c (ground arith)) fresh, own, same)
            (rw rest (
                sym (
                  splice-append_both at a (drop n bytes) (content P fs c) (contents P fs (y ∷ r))
                    fits))
              ∙ ap (λ b. splice at b (contents P fs (c ∷ y ∷ r))) (take-drop n bytes)),
        λ x v m. other x v (ground arith) ∙ before x v m,
      )

  -- The loop of `write_existing_file`, which begins with `written` bytes done, writes all that is left.
  pub write_loop-Replaced :
      (fuel : ℕ) (fs : FatFileSystem S) (c : ℕ) (r : List ℕ) (at w : ℕ) (bytes : List ℕ)
      → VolumeIsValid fs
      → Chain fs.fat c r
      → Numbered fs (c ∷ r)
      → at < cluster_size fs
      → 0 < length bytes
      → length bytes ≤ fuel
      → at + length bytes ≤ length (contents P fs (c ∷ r))
      → (s : S) × (write_loop P fuel fs c at w bytes ≡ some (some (w + length bytes), at_port fs s))
        × Replaced P fs (c ∷ r) at bytes (at_port fs s)
  write_loop-Replaced zero fs c r at w bytes valid chain num below pos f l = absurd (omega arith)
  write_loop-Replaced (suc fuel) fs c [] at w bytes valid chain num below pos f l =
      let (_, size) = read_cluster-content P R fs valid c in
      let fits : at + length bytes ≤ cluster_size fs =
        omega (arith, length-append (content P fs c) []) in
      (
        _,
        write_loop-fits P R fs valid fuel c at w bytes fits,
        written-Replaced fs c [] at bytes valid num refl fits,
      )
  write_loop-Replaced (suc fuel) fs c (y ∷ r) at w bytes valid chain num below pos f l =
      let (_, size) = read_cluster-content P R fs valid c in
      let fresh = Chain-fresh fs.fat c (y ∷ r) chain in
      elim (Bool-cases (ltb (cluster_size fs) (at + length bytes))) [
        | inr e ↦
            let fits : at + length bytes ≤ cluster_size fs = ground arith in
            (
              _,
              write_loop-fits P R fs valid fuel c at w bytes fits,
              written-Replaced fs c (y ∷ r) at bytes valid num fresh fits,
            )
        | inl e ↦
            let big = ltb→lt (cluster_size fs) (at + length bytes) e in
            let n = cluster_size fs - at in
            let b = splice at (take n bytes) (content P fs c) in
            let la = length-take-le n bytes (omega arith) in
            let (whole, _) =
              written-Replaced fs c (y ∷ r) at (take n bytes) valid num fresh (omega arith) in
            let fits : length (take n bytes) + at ≤ length (contents P fs (c ∷ y ∷ r)) =
              omega arith in
            let total =
              ap length whole
              ∙ length-splice at (take n bytes) (contents P fs (c ∷ y ∷ r)) (omega arith) in
            let own =
              content-written_self P R fs valid c b
                (length-splice at (take n bytes) (content P fs c) (omega arith) ∙ size) in
            let (s, run, done) =
              write_loop-Replaced fuel (written P fs c b) y r 0 (w + n) (drop n bytes) valid chain.2
                (λ x m. num x (ground arith)) (omega arith) (omega (arith, length-drop n bytes))
                (omega (arith, length-drop n bytes))
                (omega (
                  arith,
                  length-drop n bytes,
                  length-append (content P (written P fs c b) c)
                      (contents P (written P fs c b) (y ∷ r)),
                  ap length own,
                  length-splice at (take n bytes) (content P fs c) (omega arith),
                  total,
                )) in
            let counted : (w + n) + length (drop n bytes) ≡ w + length bytes =
              omega (arith, length-drop n bytes) in
            (
              s,
              write_loop-spills P R fs valid fuel c y at w bytes below big chain.1
                  ∙ run
                  ∙ ap (λ k. some (some k, at_port fs s)) counted,
              spilled-Replaced fs s c y r at n bytes valid num fresh (omega arith) (omega arith)
                  done,
            )
      ]
