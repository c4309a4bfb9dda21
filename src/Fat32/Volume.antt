-- ===== src/Fat32/Volume.antt =====
-- The boot sector, the cluster tests and the file allocation table of FAT32Recovery.cpp.
pub mod Clusters
pub mod Failures
use data_recovery_tool.Common.{ℕ, ◌+◌, ◌-◌, ◌*◌, ◌/◌, ◌%◌, ◌^◌, Bool, true, false, ◌||◌}
use data_recovery_tool.Common.{List, ◌++◌, Option, none, some, length, take, replicate}
use data_recovery_tool.Common.{ltb, leb, ◌==◌, if◌then◌else◌, add32, sub32, mul32, u32_at}
use data_recovery_tool.Common.{Outcome, ok, err, ◌>>=◌, ◌>>◌, require, thrown}
use data_recovery_tool.Common.{out_of_bounds, division_by_zero}
use data_recovery_tool.Common.{failed_to_read_boot_sector, not_a_valid_volume}
use data_recovery_tool.Text.{codes, same_text}
use data_recovery_tool.Device.{SectorReader, set_sector_reader, get_bytes_per_sector}
use data_recovery_tool.Fat32.Structs.{BootSector, boot_sector_at, sizeof_boot_sector}

pub record DriveInfo : Type 0 where
  pub boot_sector : BootSector
  pub open boot_sector use {bytes_per_sector, sectors_per_cluster}
  pub fat_start_sector : ℕ
  pub data_start_sector : ℕ
  pub root_dir_cluster : ℕ
  pub max_cluster_count : ℕ

-- What the constructor leaves in the object, and no later call changes.
pub record Drive : Type 0 where
  pub reader : SectorReader
  pub info : DriveInfo
  pub open info use {
    boot_sector, bytes_per_sector, sectors_per_cluster, fat_start_sector, data_start_sector,
    root_dir_cluster, max_cluster_count,
  }

abbrev pub min_data_cluster : ℕ
min_data_cluster = 2

abbrev pub bad_cluster : ℕ
bad_cluster = 0x0FFFFFF7

abbrev fat32_name : List ℕ
fat32_name = codes "FAT32"

or_throw : Option (List ℕ) → Outcome (List ℕ)
or_throw none = err (thrown failed_to_read_boot_sector)
or_throw (some bytes) = ok bytes

-- The geometry that follows from a boot sector. Products and sums with a 32-bit operand wrap; the
-- sum for the root directory is of small numbers, and with no bytes per sector the code divides
-- by 0 before the -1 in it can matter.
unfoldable pub drive_info_of : BootSector → Outcome DriveInfo
drive_info_of boot_sector = do
  let fats = mul32 boot_sector.num_fats boot_sector.fat_size32
  let data_start = add32 boot_sector.reserved_sector_count fats
  require (ltb 0 boot_sector.bytes_per_sector) division_by_zero
  let root_dir_sectors =
      (boot_sector.root_entry_count * 32 + (boot_sector.bytes_per_sector - 1))
      / boot_sector.bytes_per_sector
  let total_sectors =
      if boot_sector.total_sectors32 == 0
      then boot_sector.total_sectors16
      else boot_sector.total_sectors32
  let data_sectors = sub32 total_sectors (add32 data_start root_dir_sectors)
  require (ltb 0 boot_sector.sectors_per_cluster) division_by_zero
  ok (record {
    boot_sector = boot_sector;
    fat_start_sector = boot_sector.reserved_sector_count;
    data_start_sector = data_start;
    root_dir_cluster = boot_sector.root_cluster;
    max_cluster_count = data_sectors / boot_sector.sectors_per_cluster;
  })

-- The buffer has eight bytes for each byte of the sector, zero behind those that are read.
unfoldable pub read_boot_sector : SectorReader → ℕ → Outcome DriveInfo
unfolding same_text drive_info_of boot_sector_at or_throw get_bytes_per_sector
read_boot_sector reader sector = do
  bytes_per_sector ← get_bytes_per_sector (some reader)
  bytes ← or_throw (reader.read_sector sector bytes_per_sector)
  let buffer = bytes ++ replicate (8 * bytes_per_sector - length bytes) 0
  require (leb sizeof_boot_sector (length buffer)) out_of_bounds
  let boot_sector = boot_sector_at buffer
  require (same_text (take 5 boot_sector.file_system_type) fat32_name) (thrown not_a_valid_volume)
  drive_info_of boot_sector

-- The constructor, less its output.
unfoldable pub construct : Option SectorReader → Outcome Drive
unfolding read_boot_sector set_sector_reader
construct pointer = do
  reader ← set_sector_reader pointer
  info ← read_boot_sector reader 0
  ok (record { reader = reader; info = info })

unfoldable pub is_valid_cluster : Drive → ℕ → Bool
is_valid_cluster drive cluster =
    if ltb cluster min_data_cluster || ltb drive.max_cluster_count cluster
    then false
    else if leb bad_cluster cluster
    then false
    else true

-- 0 stands for a cluster that is refused.
unfoldable pub sanitize_cluster : Drive → ℕ → ℕ
sanitize_cluster drive cluster =
    if cluster == 0 || ltb cluster min_data_cluster || leb bad_cluster cluster
    then 0
    else if ltb drive.max_cluster_count cluster
    then 0
    else cluster

unfoldable pub cluster_to_sector : Drive → ℕ → ℕ
cluster_to_sector drive cluster =
    add32 drive.data_start_sector (mul32 (sub32 cluster 2) drive.sectors_per_cluster)

-- The special values of a table entry, after its upper four bits are cleared.
unfoldable pub next_of_entry : ℕ → ℕ
next_of_entry fat_entry =
    let next_cluster = fat_entry % 2 ^ 28 in
    if leb 0x0FFFFFF8 next_cluster
    then (if next_cluster == 0x0FFFFFFF then 0xFFFFFFFF else 0xFFFFFFF7)
    else next_cluster

-- Where the table entry of a cluster lies.
unfoldable pub fat_sector_of : Drive → ℕ → ℕ
fat_sector_of drive cluster =
    add32 drive.fat_start_sector (mul32 cluster 4 / drive.bytes_per_sector)

unfoldable pub entry_offset_of : Drive → ℕ → ℕ
entry_offset_of drive cluster = mul32 cluster 4 % drive.bytes_per_sector

unfoldable pub get_next_cluster : Drive → ℕ → Outcome ℕ
unfolding next_of_entry fat_sector_of entry_offset_of u32_at
get_next_cluster drive cluster = do
  require (ltb 0 drive.bytes_per_sector) division_by_zero
  elim (drive.reader.read_sector (fat_sector_of drive cluster) drive.bytes_per_sector) [
    | none ↦ ok 0xFFFFFFFF
    | some buffer ↦ do
      require (leb (entry_offset_of drive cluster + 4) (length buffer)) out_of_bounds
      ok (next_of_entry (u32_at buffer (entry_offset_of drive cluster)))
  ]
