-- ===== src/ExFat/Volume/Table.antt =====
-- Where the exFAT class looks for a table entry.
use native.Mathlib.Nat.{div-add-mod}
use data_recovery_tool.Common.{ℕ, ◌+◌, ◌*◌, ◌/◌, ◌%◌, ◌^◌, ◌≤◌, ◌<◌, ◌≡◌, arith}
use data_recovery_tool.Common.{add32, mul32, sub32}
use data_recovery_tool.ExFat.Volume.{Drive, fat_sector_of, cluster_to_sector}

quotient_small : (s k : ℕ) → 0 < k → s / k ≤ s
quotient_small s k pos = grind arith

placed :
    (heap s k : ℕ)
    → 0 < k
    → heap + s < 2 ^ 32
    → heap + s ≡ add32 heap (mul32 (sub32 (2 + s / k) 2) k) + s % k
placed heap s k pos room =
    let split = div-add-mod s k in
    let small = quotient_small s k pos in
    let e : sub32 (2 + s / k) 2 ≡ s / k = omega arith in rw e (omega (arith, split))

-- The sector that is read for the table entry of a cluster is a sector of the cluster heap: with
-- sectors of some bytes, clusters of some sectors, and sums that stay below 2 ^ 32, it is the `s`-th from the start of the heap, which belongs to the
-- cluster `s / sectors_per_cluster` clusters behind the first, where `s` is the sector that the
-- entry has within a table.
pub fat_sector_of_in_heap :
    (drive : Drive) (c : ℕ)
    → 0 < drive.bytes_per_sector
    → 0 < drive.sectors_per_cluster
    → 4 * c < 2 ^ 32
    → drive.boot_sector.cluster_heap_offset + 4 * c < 2 ^ 32
    → fat_sector_of drive c
      ≡ cluster_to_sector drive (2 + 4 * c / drive.bytes_per_sector / drive.sectors_per_cluster)
        + 4 * c / drive.bytes_per_sector % drive.sectors_per_cluster
unfolding fat_sector_of cluster_to_sector
fat_sector_of_in_heap drive c bytes sectors small room =
    let e : mul32 c 4 ≡ 4 * c = omega arith in
    let le = quotient_small (4 * c) drive.bytes_per_sector bytes in
    let sum : add32 drive.boot_sector.cluster_heap_offset (4 * c / drive.bytes_per_sector)
        ≡ drive.boot_sector.cluster_heap_offset + 4 * c / drive.bytes_per_sector =
      omega arith in
    rw (e, sum)
      (placed drive.boot_sector.cluster_heap_offset (4 * c / drive.bytes_per_sector)
        drive.sectors_per_cluster sectors (omega arith))
