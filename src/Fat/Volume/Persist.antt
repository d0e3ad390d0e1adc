-- ===== src/Fat/Volume/Persist.antt =====
-- The table written to the disk: `persist_fat` of src/fs/fat_fs.rs does not touch the clusters.
use bubble_os.Base.{
  ℕ, zero, suc, ◌+◌, ◌*◌, ◌≤◌, ◌<◌, ◌≡◌, refl, ap, ◌∙◌, Bool, Option, none, some, arith,
  if◌then◌else◌,
}
use bubble_os.Fat.Volume.{
  FatFileSystem, Port, sectors_per_fat, fat_start_sector, first_data_sector, table_bytes,
  persist_fat, persist_fat_from,
}
use bubble_os.Fat.Volume.Disk.{Reliable, VolumeIsValid, content, content-above}
use bubble_os.Fat.Volume.Writing.{at_port, InVolume}

-- The copies end where the clusters begin.
copies_below : (i k n : ℕ) → i < k → i * n + n ≤ k * n
copies_below i k n h = grind arith

copies_end :
    {S : Type 0} (fs : FatFileSystem S) (i : ℕ)
    → VolumeIsValid fs
    → i < fs.bs.table_count
    → fat_start_sector fs i + sectors_per_fat fs ≤ first_data_sector fs
unfolding fat_start_sector sectors_per_fat
copies_end fs i (_, _, z, _) l =
    rw z (omega (arith, copies_below i fs.bs.table_count fs.bs_32.table_size l))

module _ {S : Type 0} (P : Port S) (R : Reliable P) where
  abbrev after_copy : ℕ → FatFileSystem S → ℕ → Bool → S → Option (Unit {0}) × FatFileSystem S
  after_copy left fs table_index status port =
      let rest = persist_fat_from P left (at_port fs port) (suc table_index) in
      if status then rest else (none, at_port fs port)

  -- The disk after one more copy of the table.
  abbrev pub copied : FatFileSystem S → ℕ → S
  copied fs i =
      (P.write_sectors fs.port (fat_start_sector fs i) (sectors_per_fat fs) (table_bytes fs.fat)).1

  pub persist_fat_from-suc :
      (left : ℕ) (fs : FatFileSystem S) (i : ℕ)
      → 0 < sectors_per_fat fs
      → persist_fat_from P (suc left) fs i
        ≡ persist_fat_from P left (at_port fs (copied fs i)) (suc i)
  unfolding persist_fat_from
  persist_fat_from-suc left fs i h =
      ap (λ b. after_copy left fs i b (copied fs i))
        (R.write_succeeds fs.port (fat_start_sector fs i) (sectors_per_fat fs) (table_bytes fs.fat)
          h)

  copied-content :
      (fs : FatFileSystem S) (i x : ℕ)
      → VolumeIsValid fs
      → i < fs.bs.table_count
      → InVolume fs x
      → content P (at_port fs (copied fs i)) x ≡ content P fs x
  copied-content fs i x valid l v =
      content-above P R fs valid x (fat_start_sector fs i) (sectors_per_fat fs) (table_bytes fs.fat)
        v (copies_end fs i valid l)

  persist_fat_from_lem :
      (left : ℕ) (fs : FatFileSystem S) (i : ℕ)
      → VolumeIsValid fs
      → 0 < sectors_per_fat fs
      → i + left ≤ fs.bs.table_count
      → (s : S) × (persist_fat_from P left fs i ≡ (some tt, at_port fs s))
        × ((x : ℕ) → InVolume fs x → content P (at_port fs s) x ≡ content P fs x)
  unfolding persist_fat_from
  persist_fat_from_lem zero fs i valid h l = (fs.port, refl, λ x v. refl)
  persist_fat_from_lem (suc left) fs i valid h l =
      let (s, run, same) =
        persist_fat_from_lem left (at_port fs (copied fs i)) (suc i) valid h (omega arith) in
      (
        s,
        persist_fat_from-suc left fs i h ∙ run,
        λ x v. same x v ∙ copied-content fs i x valid (omega arith) v,
      )

  -- The table is written, and every cluster of the volume keeps its content.
  pub persist_fat_lem :
      (fs : FatFileSystem S)
      → VolumeIsValid fs
      → 0 < sectors_per_fat fs
      → (s : S) × (persist_fat P fs ≡ (some tt, at_port fs s))
        × ((x : ℕ) → InVolume fs x → content P (at_port fs s) x ≡ content P fs x)
  unfolding persist_fat
  persist_fat_lem fs valid h = persist_fat_from_lem fs.bs.table_count fs 0 valid h (omega arith)
