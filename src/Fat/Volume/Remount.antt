-- ===== src/Fat/Volume/Remount.antt =====
-- The table written by `persist_fat` of src/fs/fat_fs.rs and read by `read_fat` at the next mount.
use bubble_os.Base.{
  ℕ, zero, suc, ◌+◌, ◌-◌, ◌*◌, ◌/◌, ◌%◌, ◌^◌, ◌≤◌, ◌<◌, ◌≡◌, refl, sym, ap, ◌∙◌, inr, Bool, true,
  not, Option, none, some, List, arith, if◌then◌else◌, length,
}
use bubble_os.Fat.Table.{FatBuffer}
use bubble_os.Fat.Entry.Bytes.{u32_at}
use bubble_os.Fat.Volume.{
  FatFileSystem, Port, zeros, cell_bytes, table_bytes, sectors_per_fat, fat_start_sector,
  persist_fat, persist_fat_from,
}
use bubble_os.Fat.Volume.Disk.{Reliable, VolumeIsValid, length-zeros}
use bubble_os.Fat.Volume.Writing.{at_port}
use bubble_os.Fat.Volume.Persist.{copied, persist_fat_from-suc}
use bubble_os.Fat.Volume.Mount.{table_of_bytes, read_fat}

length-cell_bytes : (m : ℕ → ℕ) (i n : ℕ) → length (cell_bytes m i n) ≡ 4 * n
unfolding cell_bytes
length-cell_bytes m i zero = refl
length-cell_bytes m i (suc n) = omega (arith, length-cell_bytes m (suc i) n)

-- A cell of 32 bits is read back from its bytes.
u32_at-cell_bytes :
    (m : ℕ → ℕ) (j n i : ℕ)
    → ((x : ℕ) → m x < 2 ^ 32)
    → i < n
    → u32_at (cell_bytes m j n) (4 * i) ≡ m (j + i)
unfolding cell_bytes
u32_at-cell_bytes m j zero i h l = absurd (omega arith)
u32_at-cell_bytes m j (suc n) zero h l =
    let here : j ≡ j + 0 = omega arith in
    let low = h j in
    let parts : m j % 256
          + m j / 256 % 256 * 256
          + (m j / 65536 % 256 + m j / 16777216 % 256 * 256) * 65536
        ≡ m j =
      omega arith in
    parts ∙ ap m here
u32_at-cell_bytes m j (suc n) (suc i) h l =
    let next : 4 * suc i ≡ suc (suc (suc (suc (4 * i)))) = omega arith in
    let index : suc j + i ≡ j + suc i = omega arith in
    ap (u32_at (cell_bytes m j (suc n))) next
    ∙ u32_at-cell_bytes m (suc j) n i h (omega arith)
    ∙ ap m index

copy_above : (i n : ℕ) → 1 ≤ i → n ≤ i * n
copy_above i n h = grind arith

module _ {S : Type 0} (P : Port S) (R : Reliable P) where
  -- The further copies leave the first one.
  persist_fat_from-first :
      (left : ℕ) (fs : FatFileSystem S) (i : ℕ) (b : List ℕ)
      → 0 < sectors_per_fat fs
      → 1 ≤ i
      → P.read
          (persist_fat_from P left fs i).1.port
          fs.bs.reserved_sector_count
          (sectors_per_fat fs)
          b
        ≡ P.read fs.port fs.bs.reserved_sector_count (sectors_per_fat fs) b
  unfolding persist_fat_from sectors_per_fat fat_start_sector
  persist_fat_from-first zero fs i b h l = refl
  persist_fat_from-first (suc left) fs i b h l =
      let n = sectors_per_fat fs in
      let fs' = at_port fs (copied P R fs i) in
      let above = copy_above i n l in
      ap (λ q. P.read q.1.port fs.bs.reserved_sector_count n b)
        (persist_fat_from-suc P R left fs i h)
      ∙ persist_fat_from-first left fs' (suc i) b h (omega arith)
      ∙ R.read_apart fs.port (fat_start_sector fs i) n (table_bytes fs.fat)
          fs.bs.reserved_sector_count n b (inr (omega arith))

  -- After the table is written, a read of its sectors returns its bytes.
  persist_fat-read :
      (fs : FatFileSystem S) (b : List ℕ)
      → 0 < sectors_per_fat fs
      → 0 < fs.bs.table_count
      → 4 * fs.fat.entries ≡ 512 * sectors_per_fat fs
      → length b ≡ 512 * sectors_per_fat fs
      → P.read (persist_fat P fs).1.port fs.bs.reserved_sector_count (sectors_per_fat fs) b
        ≡ some (table_bytes fs.fat)
  unfolding persist_fat fat_start_sector
  persist_fat-read fs b h c size long =
      let n = sectors_per_fat fs in
      let first : fs.bs.reserved_sector_count + 0 * n ≡ fs.bs.reserved_sector_count = omega arith in
      let count : fs.bs.table_count ≡ suc (fs.bs.table_count - 1) = omega arith in
      let left = fs.bs.table_count - 1 in
      ap (λ k. P.read (persist_fat_from P k fs 0).1.port fs.bs.reserved_sector_count n b) count
      ∙ ap (λ q. P.read q.1.port fs.bs.reserved_sector_count n b)
          (persist_fat_from-suc P R left fs 0 h)
      ∙ persist_fat_from-first left (at_port fs (copied P R fs 0)) 1 b h (omega arith)
      ∙ ap (λ a. P.read (copied P R fs 0) a n b) (sym first)
      ∙ R.read_written fs.port (fs.bs.reserved_sector_count + 0 * n) n (table_bytes fs.fat) b h
          (length-cell_bytes fs.fat.fat 0 fs.fat.entries ∙ size) long

  -- On a reliable disk and a valid volume that has a table of 32-bit cells, which fills its sectors, the
  -- table that `persist_fat` wrote is the one that `read_fat` reads from the disk, if the heap has a
  -- buffer for it: it has the same number of entries and the same cells.
  pub read_fat-persist_fat :
      (fs : FatFileSystem S)
      → VolumeIsValid fs
      → 0 < sectors_per_fat fs
      → 0 < fs.bs.table_count
      → 4 * fs.fat.entries ≡ 512 * sectors_per_fat fs
      → ((x : ℕ) → fs.fat.fat x < 2 ^ 32)
      → let fs' = (persist_fat P fs).1 in
        P.alloc fs'.port (512 * sectors_per_fat fs) ≡ true
        → (f : FatBuffer) × (read_fat P fs'.port fs.bs fs.bs_32 ≡ some f)
          × (f.entries ≡ fs.fat.entries)
          × ((i : ℕ) → i < fs.fat.entries → f.fat i ≡ fs.fat.fat i)
  unfolding read_fat table_of_bytes sectors_per_fat
  read_fat-persist_fat fs valid h c size cells memory =
      let n = sectors_per_fat fs in
      let port = (persist_fat P fs).1.port in
      let bytes : n * fs.bs.bytes_per_sector ≡ 512 * n = ap (λ k. n * k) valid.0 ∙ omega arith in
      let table = λ (k : ℕ). table_of_bytes (table_bytes fs.fat) (k / 4) in
      let answer : ℕ → Option (List ℕ) → Option FatBuffer =
        λ k r. elim r [ none ↦ none | some buffer ↦ some (table_of_bytes buffer (k / 4)) ] in
      let read : Bool → ℕ → Option FatBuffer = λ b k.
        if not b then none else answer k (P.read port fs.bs.reserved_sector_count n (zeros k)) in
      (
        table (512 * n),
        ap (λ k. read (P.alloc port k) k) bytes
            ∙ ap (λ b. read b (512 * n)) memory
            ∙ ap (answer (512 * n))
                (persist_fat-read fs (zeros (512 * n)) h c size (length-zeros (512 * n))),
        omega arith,
        λ i l.
            let here : 0 + i ≡ i = omega arith in
            u32_at-cell_bytes fs.fat.fat 0 fs.fat.entries i cells l ∙ ap fs.fat.fat here,
      )
