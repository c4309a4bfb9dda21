-- ===== src/Ntfs/Volume.antt =====
-- The boot sector and the small tests of NTFSRecovery.cpp.
use data_recovery_tool.Common.{ℕ, ◌+◌, ◌-◌, ◌*◌, ◌/◌, ◌%◌, ◌^◌, Bool, true, false, ◌&&◌, ◌||◌, not}
use data_recovery_tool.Common.{List, Option, none, some, length, take, ltb, leb, ◌==◌}
use data_recovery_tool.Common.{if◌then◌else◌, mul32, mul64, Outcome, ok, err, ◌>>=◌, ◌>>◌, require}
use data_recovery_tool.Common.{thrown, out_of_bounds, undefined_shift, division_by_zero}
use data_recovery_tool.Common.{failed_to_read_boot_sector, not_a_valid_volume}
use data_recovery_tool.Text.{codes, same_text}
use data_recovery_tool.Device.{SectorReader, set_sector_reader, get_bytes_per_sector}
use data_recovery_tool.Ntfs.Structs.{BootSector, boot_sector_at, sizeof_boot_sector, FileInfo}

pub record DriveInfo : Type 0 where
  pub boot_sector : BootSector
  pub bytes_per_sector : ℕ
  pub mft_record_size : ℕ
  pub bytes_per_cluster : ℕ
  pub mft_offset : ℕ

-- What the constructor leaves in the object, and no later call changes.
pub record Drive : Type 0 where
  pub reader : SectorReader
  pub info : DriveInfo
  pub open info use {boot_sector, mft_record_size, bytes_per_cluster}

or_throw : Option (List ℕ) → Outcome (List ℕ)
or_throw none = err (thrown failed_to_read_boot_sector)
or_throw (some bytes) = ok bytes

-- The signed byte is a number of clusters if it is positive, and otherwise minus the logarithm of
-- the size; a shift by 32 or more is undefined.
unfoldable pub mft_record_size_of : ℕ → ℕ → Outcome ℕ
mft_record_size_of byte bytes_per_cluster =
    if ltb 0 byte && ltb byte 128
    then ok (mul32 byte bytes_per_cluster)
    else require (ltb ((256 - byte) % 256) 32) undefined_shift >> ok (2 ^ ((256 - byte) % 256))

unfoldable pub read_boot_sector : SectorReader → ℕ → Outcome DriveInfo
unfolding boot_sector_at or_throw get_bytes_per_sector mft_record_size_of same_text
read_boot_sector reader sector = do
  bytes_per_sector ← get_bytes_per_sector (some reader)
  buffer ← or_throw (reader.read_sector sector bytes_per_sector)
  require (leb sizeof_boot_sector (length buffer)) out_of_bounds
  let boot_sector = boot_sector_at buffer
  require (same_text (take 4 boot_sector.oem_id) (codes "NTFS")) (thrown not_a_valid_volume)
  let bytes_per_cluster = boot_sector.bytes_per_sector * boot_sector.sectors_per_cluster
  size ← mft_record_size_of boot_sector.clusters_per_mft_record bytes_per_cluster
  ok (record {
    boot_sector = boot_sector;
    bytes_per_sector =
        if ltb boot_sector.bytes_per_sector bytes_per_sector
        then bytes_per_sector
        else boot_sector.bytes_per_sector;
    mft_record_size = size;
    bytes_per_cluster = bytes_per_cluster;
    mft_offset = mul64 boot_sector.mft_cluster bytes_per_cluster;
  })

-- The constructor, less its output.
unfoldable pub construct : Option SectorReader → Outcome Drive
unfolding read_boot_sector set_sector_reader
construct pointer = do
  reader ← set_sector_reader pointer
  info ← read_boot_sector reader 0
  ok (record { reader = reader; info = info })

-- The sectors of a record of the file table, rounded up.
unfoldable pub get_sectors_per_mft_record : Drive → Outcome ℕ
get_sectors_per_mft_record drive = do
  require (ltb 0 drive.boot_sector.bytes_per_sector) division_by_zero
  let whole = drive.mft_record_size / drive.boot_sector.bytes_per_sector
  ok (if drive.mft_record_size % drive.boot_sector.bytes_per_sector == 0 then whole else whole + 1)

unfoldable pub cluster_to_sector : Drive → ℕ → ℕ
cluster_to_sector drive cluster = mul64 cluster drive.boot_sector.sectors_per_cluster

unfoldable pub is_valid_sector : Drive → ℕ → Bool
is_valid_sector drive sector = ltb sector drive.boot_sector.total_sectors

unfoldable pub validate_file_info : FileInfo → Bool
validate_file_info info =
    if length info.file_name == 0 || info.file_size == 0
    then false
    else if info.non_resident && (info.cluster == 0 || info.run_length == 0)
    then false
    else if not info.non_resident && length info.content == 0
    then false
    else true
