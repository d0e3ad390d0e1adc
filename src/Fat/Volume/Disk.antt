-- ===== src/Fat/Volume/Disk.antt =====
-- A disk that keeps what is written to it, under the cluster reads and writes of src/fs/fat_fs.rs.
use bubble_os.Base.{
  ℕ, zero, suc, ◌+◌, ◌-◌, ◌*◌, ◌%◌, ◌^◌, ◌≤◌, ◌<◌, ◌≡◌, refl, sym, ap, ◌∙◌, ◌≢◌, ◌⊎◌, inl, inr,
  true, none, some, List, [], arith, ltb, ltb→lt, Bool-cases, length,
}
use bubble_os.Fat.Volume.{
  cluster_size, read_cluster, zeros, get_sector, write_cluster, FatFileSystem, Port,
  first_data_sector,
}

-- The disk has sectors of 512 bytes. A read of at least one sector fills the buffer, a write succeeds, and
-- changes what later reads of the same sectors return to what was written, and no other sector.
pub record Reliable {S : Type 0} (P : Port S) : Type 0 where
  pub read_fills :
      (s : S) (a n : ℕ) (b : List ℕ)
      → 0 < n
      → length b ≡ 512 * n
      → (out : List ℕ) × (P.read s a n b ≡ some out) × (length out ≡ 512 * n)
  pub write_succeeds : (s : S) (a n : ℕ) (b : List ℕ) → 0 < n → (P.write_sectors s a n b).0 ≡ true
  pub read_written :
      (s : S) (a n : ℕ) (b c : List ℕ)
      → 0 < n
      → length b ≡ 512 * n
      → length c ≡ 512 * n
      → P.read (P.write_sectors s a n b).1 a n c ≡ some b
  pub read_apart :
      (s : S) (a n : ℕ) (b : List ℕ) (x m : ℕ) (c : List ℕ)
      → (a + n ≤ x) ⊎ (x + m ≤ a)
      → P.read (P.write_sectors s a n b).1 x m c ≡ P.read s x m c

-- The boot sector describes a FAT32 volume with sectors of 512 bytes, whose sectors have 64-bit numbers.
abbrev pub VolumeIsValid : {S : Type 0} → FatFileSystem S → Type 0
VolumeIsValid fs =
    (fs.bs.bytes_per_sector ≡ 512)
    × (0 < fs.bs.sectors_per_cluster)
    × (fs.bs.table_size_16 ≡ 0)
    × (first_data_sector fs + fs.fat.entries * fs.bs.sectors_per_cluster < 2 ^ 64)

wrapped :
    (k n first : ℕ)
    → first + k * n < 2 ^ 64
    → (first + (suc (suc k) + (2 ^ 64 - 2)) * n) % 2 ^ 64 ≡ first + k * n
wrapped k n first h = omega arith

clusters_apart : (k m n : ℕ) → k < m → k * n + n ≤ m * n
clusters_apart k m n h = grind arith

module _ {S : Type 0} (fs : FatFileSystem S) (valid : VolumeIsValid fs) where
  get_sector_lem :
      (k : ℕ)
      → suc (suc k) < fs.fat.entries
      → get_sector fs (suc (suc k)) ≡ first_data_sector fs + k * fs.bs.sectors_per_cluster
  unfolding get_sector
  get_sector_lem k h =
      wrapped k fs.bs.sectors_per_cluster (first_data_sector fs)
        (omega (arith, clusters_apart k fs.fat.entries fs.bs.sectors_per_cluster (omega arith)))

  -- Two clusters of the volume have no sector in common.
  get_sector-apart :
      (c d : ℕ)
      → (2 ≤ c) × (c < fs.fat.entries)
      → (2 ≤ d) × (d < fs.fat.entries)
      → c ≢ d
      → (get_sector fs c + fs.bs.sectors_per_cluster ≤ get_sector fs d)
        ⊎ (get_sector fs d + fs.bs.sectors_per_cluster ≤ get_sector fs c)
  get_sector-apart zero d (h, _) _ _ = absurd (omega arith)
  get_sector-apart (suc zero) d (h, _) _ _ = absurd (omega arith)
  get_sector-apart (suc (suc k)) zero _ (h, _) _ = absurd (omega arith)
  get_sector-apart (suc (suc k)) (suc zero) _ (h, _) _ = absurd (omega arith)
  get_sector-apart (suc (suc k)) (suc (suc m)) (_, hk) (_, hm) n = elim (Bool-cases (ltb k m)) [
    | inl e ↦ inl (
        omega (
          arith,
          get_sector_lem k hk,
          get_sector_lem m hm,
          clusters_apart k m fs.bs.sectors_per_cluster (ltb→lt k m e),
        ))
    | inr e ↦
        let l : m < k = ground arith in
        inr (
          omega (
            arith,
            get_sector_lem k hk,
            get_sector_lem m hm,
            clusters_apart m k fs.bs.sectors_per_cluster l,
          ))
  ]

get_sector-above :
    {S : Type 0} (fs : FatFileSystem S)
    → VolumeIsValid fs
    → (c : ℕ) → (2 ≤ c) × (c < fs.fat.entries)
    → first_data_sector fs ≤ get_sector fs c
get_sector-above fs valid zero (h, _) = absurd (omega arith)
get_sector-above fs valid (suc zero) (h, _) = absurd (omega arith)
get_sector-above fs valid (suc (suc k)) (_, h) = omega (arith, get_sector_lem fs valid k h)

pub length-zeros : (n : ℕ) → length (zeros n) ≡ n
length-zeros zero = refl
length-zeros (suc n) = ap suc (length-zeros n)

-- The file system after a cluster is written.
abbrev pub written : {S : Type 0} → Port S → FatFileSystem S → ℕ → List ℕ → FatFileSystem S
written P fs c b = record fs {
  port = (P.write_sectors fs.port (get_sector fs c) fs.bs.sectors_per_cluster b).1;
}

-- What a cluster holds.
unfoldable pub content : {S : Type 0} → Port S → FatFileSystem S → ℕ → List ℕ
content P fs c = elim (read_cluster P fs c) [ some b ↦ b | none ↦ [] ]

module _ {S : Type 0} (P : Port S) (R : Reliable P) (fs : FatFileSystem S) where
  content-some : (c : ℕ) (b : List ℕ) → read_cluster P fs c ≡ some b → content P fs c ≡ b
  unfolding content
  content-some c b e = ap (λ r. elim r [ some b ↦ b | none ↦ [] ]) e

  sectors_fill :
      VolumeIsValid fs → (n : ℕ) → n ≡ cluster_size fs → n ≡ 512 * fs.bs.sectors_per_cluster
  sectors_fill valid n e = e ∙ ap (λ n. n * fs.bs.sectors_per_cluster) valid.0

  pub read_cluster-content :
      VolumeIsValid fs
      → (c : ℕ)
      → (read_cluster P fs c ≡ some (content P fs c)) × (length (content P fs c) ≡ cluster_size fs)
  unfolding read_cluster
  read_cluster-content valid c =
      let (out, e, l) =
        R.read_fills fs.port (get_sector fs c) fs.bs.sectors_per_cluster (zeros (cluster_size fs))
          valid.1 (sectors_fill valid _ (length-zeros (cluster_size fs))) in
      let same = content-some c out e in
      (
        e ∙ ap some (sym same),
        ap length same ∙ l ∙ ap (λ n. n * fs.bs.sectors_per_cluster) (sym valid.0),
      )

  pub write_cluster-written :
      VolumeIsValid fs → (c : ℕ) (b : List ℕ) → write_cluster P fs c b ≡ (true, written P fs c b)
  unfolding write_cluster
  write_cluster-written valid c b =
      ap (λ r. (r, written P fs c b))
        (R.write_succeeds fs.port (get_sector fs c) fs.bs.sectors_per_cluster b valid.1)

module _ {S : Type 0} (P : Port S) (R : Reliable P) (fs : FatFileSystem S) where
  pub content-written_self :
      VolumeIsValid fs
      → (c : ℕ) (b : List ℕ) → length b ≡ cluster_size fs
      → content P (written P fs c b) c ≡ b
  unfolding read_cluster
  content-written_self valid c b h = content-some P R (written P fs c b) c b (
      R.read_written fs.port (get_sector fs c) fs.bs.sectors_per_cluster b (zeros (cluster_size fs))
        valid.1 (sectors_fill P R fs valid _ h)
        (sectors_fill P R fs valid _ (length-zeros (cluster_size fs))))

  pub content-written_ne :
      VolumeIsValid fs
      → (c d : ℕ) (b : List ℕ) → (2 ≤ c) × (c < fs.fat.entries)
      → (2 ≤ d) × (d < fs.fat.entries)
      → c ≢ d
      → content P (written P fs c b) d ≡ content P fs d
  unfolding read_cluster
  content-written_ne valid c d b hc hd n =
      let far = get_sector-apart fs valid c d hc hd n in
      content-some P R (written P fs c b) d (content P fs d) (
        R.read_apart fs.port (get_sector fs c) fs.bs.sectors_per_cluster b (get_sector fs d)
          fs.bs.sectors_per_cluster (zeros (cluster_size fs)) far
        ∙ (read_cluster-content P R fs valid d).0)

  -- A change to the port that no cluster's sectors see.
  pub content-above :
      VolumeIsValid fs
      → (d a n : ℕ) (b : List ℕ) → (2 ≤ d) × (d < fs.fat.entries)
      → a + n ≤ first_data_sector fs
      → content P (record fs { port = (P.write_sectors fs.port a n b).1 }) d ≡ content P fs d
  unfolding read_cluster
  content-above valid d a n b v h =
      let s = (P.write_sectors fs.port a n b).1 in
      let place = get_sector-above fs valid d v in
      content-some P R (record fs { port = s }) d (content P fs d)
        (R.read_apart fs.port a n b (get_sector fs d) fs.bs.sectors_per_cluster
            (zeros (cluster_size fs)) (inl (omega (arith, place)))
          ∙ (read_cluster-content P R fs valid d).0)
