-- ===== src/Fat32/Volume/Clusters.antt =====
-- Cluster numbers, their sectors and their table entries on a FAT32 volume.
use data_recovery_tool.Common.{ℕ, ◌+◌, ◌-◌, ◌*◌, ◌/◌, ◌%◌, ◌^◌, ◌≤◌, ◌<◌, ◌≡◌, refl, ◌↔◌, ◌⊎◌}
use data_recovery_tool.Common.{inl, inr, true, arith, if◌then◌else◌}
use data_recovery_tool.Common.{
  Option-cases, ok, ltb, leb, length, lt→ltb, le→leb, u32_at, add32, mul32, sub32, ap,
}
use native.Mathlib.Nat.{div-add-mod, mod-lt}
use data_recovery_tool.Device.{IsExact}
use data_recovery_tool.Fat32.Volume.{Drive, is_valid_cluster, sanitize_cluster, cluster_to_sector}
use data_recovery_tool.Fat32.Volume.{next_of_entry, get_next_cluster, fat_sector_of}
use data_recovery_tool.Fat32.Volume.{entry_offset_of}

pub is_valid_cluster_iff :
    (drive : Drive) (c : ℕ)
    → (is_valid_cluster drive c ≡ true)
      ↔ ((2 ≤ c) × (c ≤ drive.max_cluster_count) × (c < 0x0FFFFFF7))
unfolding is_valid_cluster
is_valid_cluster_iff drive c = (ground arith, ground arith)

-- `sanitizeCluster` and `isValidCluster` make the same test: a cluster is kept where it is valid and
-- becomes 0 where it is not.
pub sanitize_cluster-is_valid_cluster :
    (drive : Drive) (c : ℕ) → sanitize_cluster drive c ≡ (if is_valid_cluster drive c then c else 0)
unfolding sanitize_cluster is_valid_cluster
sanitize_cluster-is_valid_cluster drive c = ground arith

mul_mono : (a b k : ℕ) → a ≤ b → a * k ≤ b * k
mul_mono a b k h = grind arith

plain_sector :
    (start k c m : ℕ)
    → 2 ≤ c
    → c ≤ m
    → c < 0x0FFFFFF7
    → start + m * k < 2 ^ 32
    → add32 start (mul32 (sub32 c 2) k) ≡ start + (c - 2) * k
plain_sector start k c m low high small room =
    let e : sub32 c 2 ≡ c - 2 = omega arith in
    let le = mul_mono (c - 2) m k (omega arith) in rw e (omega (arith, le))

-- Two valid clusters, the second above the first, on a volume whose data region ends below sector
-- 2 ^ 32: the sectors of the first begin in the data region and end before those of the second, and
-- those of the second end within the sectors that the clusters from 2 to the largest number take.
pub cluster_to_sector_apart :
    (drive : Drive) (c d : ℕ)
    → is_valid_cluster drive c ≡ true
    → is_valid_cluster drive d ≡ true
    → c < d
    → drive.data_start_sector + drive.max_cluster_count * drive.sectors_per_cluster < 2 ^ 32
    → (drive.data_start_sector ≤ cluster_to_sector drive c)
      × (cluster_to_sector drive c + drive.sectors_per_cluster ≤ cluster_to_sector drive d)
      × (cluster_to_sector drive d + drive.sectors_per_cluster
          ≤ drive.data_start_sector + (drive.max_cluster_count - 1) * drive.sectors_per_cluster)
unfolding cluster_to_sector
cluster_to_sector_apart drive c d vc vd lt room =
    let (low, high, small) = (is_valid_cluster_iff drive c).0 vc in
    let (low', high', small') = (is_valid_cluster_iff drive d).0 vd in
    let ec =
      plain_sector drive.data_start_sector drive.sectors_per_cluster c drive.max_cluster_count low
        high small room in
    let ed =
      plain_sector drive.data_start_sector drive.sectors_per_cluster d drive.max_cluster_count low'
        high' small' room in
    let le = mul_mono (c - 2 + 1) (d - 2) drive.sectors_per_cluster (omega arith) in
    let last =
      mul_mono (d - 2 + 1) (drive.max_cluster_count - 1) drive.sectors_per_cluster (omega arith) in
    (omega (arith, ec), omega (arith, ec, ed, le), omega (arith, ed, last))

position :
    (start c b : ℕ)
    → 0 < b
    → c < 2 ^ 30
    → start + 4 * c < 2 ^ 32
    → add32 start (mul32 c 4 / b) * b + mul32 c 4 % b ≡ start * b + 4 * c
position start c b pos small room =
    let e : mul32 c 4 ≡ 4 * c = omega arith in
    let split = div-add-mod (4 * c) b in
    let le : 4 * c / b ≤ 4 * c = grind arith in
    let sum : add32 start (4 * c / b) ≡ start + 4 * c / b = omega arith in
    rw (e, sum) (omega (arith, split))

-- The buffer's sector and the offset in it address the entry of the cluster: four bytes for each
-- cluster from the first sector of the table on. The cluster is below 2 ^ 30, its byte
-- offset added to the table's first sector stays below 2 ^ 32, and sectors have some bytes.
pub fat_position :
    (drive : Drive) (c : ℕ)
    → 0 < drive.bytes_per_sector
    → c < 2 ^ 30
    → drive.fat_start_sector + 4 * c < 2 ^ 32
    → fat_sector_of drive c * drive.bytes_per_sector + entry_offset_of drive c
      ≡ drive.fat_start_sector * drive.bytes_per_sector + 4 * c
unfolding fat_sector_of entry_offset_of
fat_position drive c pos small room =
    position drive.fat_start_sector c drive.bytes_per_sector pos small room

next_of_entry_range :
    (e : ℕ)
    → (next_of_entry e < 0x0FFFFFF8)
      ⊎ ((next_of_entry e ≡ 0xFFFFFFFF) ⊎ (next_of_entry e ≡ 0xFFFFFFF7))
unfolding next_of_entry
next_of_entry_range e = ground arith

entry_in_bounds : (x n : ℕ) → 0 < n → n % 4 ≡ 0 → (4 * x) % n + 4 ≤ n
entry_in_bounds x n pos h =
    let k = n / 4 in
    let e : n ≡ 4 * k = omega arith in
    let split = div-add-mod (4 * x) n in
    let q = ap (λ (t : ℕ). t * (4 * x / n)) e in omega (arith, split, q, mod-lt (4 * x) pos)

-- With a reader that fills its buffers, and sectors of a positive number of bytes that four divides,
-- the step along a chain never reads past its buffer and never divides by 0: it returns a number
-- below 0x0FFFFFF8 or one of the two markers 0xFFFFFFFF and 0xFFFFFFF7.
pub get_next_cluster_total :
    (drive : Drive) (c : ℕ)
    → IsExact drive.reader
    → 0 < drive.bytes_per_sector
    → drive.bytes_per_sector % 4 ≡ 0
    → (v : ℕ) × (get_next_cluster drive c ≡ ok v)
      × ((v < 0x0FFFFFF8) ⊎ ((v ≡ 0xFFFFFFFF) ⊎ (v ≡ 0xFFFFFFF7)))
unfolding get_next_cluster entry_offset_of
get_next_cluster_total drive c exact pos four =
    let some_bytes : ltb 0 drive.bytes_per_sector ≡ true = lt→ltb _ _ pos in
    elim (Option-cases (drive.reader.read_sector (fat_sector_of drive c) drive.bytes_per_sector)) [
      | inl e ↦ (0xFFFFFFFF, rw (some_bytes, e), inr (inl refl))
      | inr (buffer, e) ↦
          let offset = mul32 c 4 % drive.bytes_per_sector in
          let size = exact.filled (fat_sector_of drive c) drive.bytes_per_sector buffer e in
          let four_times : mul32 c 4 ≡ 4 * (c % 2 ^ 30) = omega arith in
          let inside : mul32 c 4 % drive.bytes_per_sector + 4 ≤ drive.bytes_per_sector =
            rw four_times (entry_in_bounds (c % 2 ^ 30) drive.bytes_per_sector pos four) in
          let fits : leb (offset + 4) (length buffer) ≡ true =
            le→leb _ _ (omega (arith, size, inside)) in
          (
            next_of_entry (u32_at buffer offset),
            rw (some_bytes, e, fits),
            next_of_entry_range (u32_at buffer offset),
          )
    ]
