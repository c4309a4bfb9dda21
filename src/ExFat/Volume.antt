-- ===== src/ExFat/Volume.antt =====
-- The boot sector, the cluster tests and the step along a chain of exFATRecovery.cpp.
pub mod Table
use data_recovery_tool.Common.{ℕ, ◌+◌, ◌/◌, ◌%◌, ◌^◌, Bool, true, false, ◌||◌, List, Option, none}
use data_recovery_tool.Common.{some, length, ltb, leb, ◌==◌, if◌then◌else◌, add32, sub32, mul32}
use data_recovery_tool.Common.{mul64, u32_at, Outcome, ok, err, ◌>>=◌, ◌>>◌, require, thrown}
use data_recovery_tool.Common.{out_of_bounds, undefined_shift, failed_to_read_boot_sector}
use data_recovery_tool.Common.{not_a_valid_volume}
use data_recovery_tool.Text.{codes, same_text}
use data_recovery_tool.Device.{SectorReader, set_sector_reader, get_bytes_per_sector}
use data_recovery_tool.ExFat.Structs.{BootSector, boot_sector_at, sizeof_boot_sector}

pub record DriveInfo : Type 0 where
  pub boot_sector : BootSector
  pub bytes_per_sector : ℕ
  pub sectors_per_cluster : ℕ

-- What the constructor leaves in the object, and no later call changes.
pub record Drive : Type 0 where
  pub reader : SectorReader
  pub info : DriveInfo
  pub open info use {boot_sector, bytes_per_sector, sectors_per_cluster}

abbrev pub min_data_cluster : ℕ
min_data_cluster = 2

abbrev pub bad_cluster : ℕ
bad_cluster = 0xFFFFFFF7

or_throw : Option (List ℕ) → Outcome (List ℕ)
or_throw none = err (thrown failed_to_read_boot_sector)
or_throw (some bytes) = ok bytes

-- A shift of a 32-bit number by 32 or more is undefined; one by 31 is converted back to 2 ^ 31.
unfoldable pub read_boot_sector : SectorReader → ℕ → Outcome DriveInfo
unfolding boot_sector_at or_throw get_bytes_per_sector same_text
read_boot_sector reader sector = do
  bytes_per_sector ← get_bytes_per_sector (some reader)
  buffer ← or_throw (reader.read_sector sector bytes_per_sector)
  require (leb sizeof_boot_sector (length buffer)) out_of_bounds
  let boot_sector = boot_sector_at buffer
  require (same_text boot_sector.file_system_name (codes "EXFAT   ")) (thrown not_a_valid_volume)
  require (ltb boot_sector.bytes_per_sector_shift 32) undefined_shift
  require (ltb boot_sector.sectors_per_cluster_shift 32) undefined_shift
  ok (record {
    boot_sector = boot_sector;
    bytes_per_sector = 2 ^ boot_sector.bytes_per_sector_shift;
    sectors_per_cluster = 2 ^ boot_sector.sectors_per_cluster_shift;
  })

-- The constructor, less its output.
unfoldable pub construct : Option SectorReader → Outcome Drive
unfolding read_boot_sector set_sector_reader
construct pointer = do
  reader ← set_sector_reader pointer
  info ← read_boot_sector reader 0
  ok (record { reader = reader; info = info })

unfoldable pub is_valid_cluster : Drive → ℕ → Bool
is_valid_cluster drive cluster =
    if ltb cluster min_data_cluster || ltb drive.boot_sector.cluster_count cluster
    then false
    else if leb bad_cluster cluster
    then false
    else true

unfoldable pub is_valid_deleted_entry : Drive → ℕ → ℕ → Bool
unfolding is_valid_cluster
is_valid_deleted_entry drive cluster size =
    if size == 0
    then false
    else if ltb (mul64 drive.boot_sector.volume_length drive.bytes_per_sector) size
    then false
    else is_valid_cluster drive cluster

unfoldable pub cluster_to_sector : Drive → ℕ → ℕ
cluster_to_sector drive cluster =
    add32 drive.boot_sector.cluster_heap_offset (mul32 (sub32 cluster 2) drive.sectors_per_cluster)

-- The special values of a table entry, after its upper four bits are cleared.
unfoldable pub next_of_entry : ℕ → ℕ
next_of_entry fat_entry =
    let next_cluster = fat_entry % 2 ^ 28 in
    if leb 0x0FFFFFF8 next_cluster
    then (if next_cluster == 0x0FFFFFFF then 0xFFFFFFFF else 0xFFFFFFF7)
    else next_cluster

-- Where the code looks for the table entry of a cluster: from the cluster heap on.
unfoldable pub fat_sector_of : Drive → ℕ → ℕ
fat_sector_of drive cluster =
    add32 drive.boot_sector.cluster_heap_offset (mul32 cluster 4 / drive.bytes_per_sector)

unfoldable pub entry_offset_of : Drive → ℕ → ℕ
entry_offset_of drive cluster = mul32 cluster 4 % drive.bytes_per_sector

unfoldable pub get_next_cluster : Drive → ℕ → Outcome ℕ
unfolding next_of_entry fat_sector_of entry_offset_of u32_at
get_next_cluster drive cluster =
    elim (drive.reader.read_sector (fat_sector_of drive cluster) drive.bytes_per_sector) [
      | none ↦ ok 0xFFFFFFFF
      | some buffer ↦ do
        require (leb (entry_offset_of drive cluster + 4) (length buffer)) out_of_bounds
        ok (next_of_entry (u32_at buffer (entry_offset_of drive cluster)))
    ]
