-- ===== src/LogicalDrive/Disk.antt =====
-- A drive that Windows serves, and the reader of src/SectorReader.h without state that stands for an
-- object of src/LogicalDriveReader.cpp on it.
use data_recovery_tool.Common.{[], ℕ, ◌*◌, ◌%◌, ◌^◌, ◌/◌, true, false, List, ◌∷◌, length, Option}
use data_recovery_tool.Common.{none, some, ◌≡◌, ltb, arith}
use data_recovery_tool.Common.{if◌then◌else◌, Bool-cases, inl, inr, ◌==◌, ==→≡}
use data_recovery_tool.Device.{SectorReader, IsExact}
use data_recovery_tool.LogicalDrive.{Call, moved, VolumeData, Windows, filled, invalid_handle_value}
use data_recovery_tool.LogicalDrive.Ownership.{open_handles, is_among}
use data_recovery_tool.LogicalDrive.Requests.{
  Request, sector_at, sector_size, filesystem, mft_records, opened_again, shut, Reply, bytes,
  number, text, whether, nothing,
}

-- What is on a drive: the bytes that a read of a size at an offset gives, if it succeeds, and the
-- answers to the three queries.
pub record Disk : Type 0 where
  pub contents : ℕ → ℕ → Option (List ℕ)
  pub bytes_per_sector : ℕ
  pub filesystem_name : List ℕ
  pub volume_data : VolumeData

-- Windows serves the drive at `path`: it can be opened, an open handle can be placed at every offset
-- that is not negative as a signed number, the read that follows gives the bytes there, and the
-- queries answer. `ReadFile`, `SetFilePointerEx` and `DeviceIoControl` are documented so.
pub record Serves (windows : Windows) (path : List ℕ) (disk : Disk) : Type 0 where
  pub opens : (calls : List Call) → (windows.create_file calls path == invalid_handle_value) ≡ false
  pub places :
      (calls : List Call) (handle offset : ℕ)
      → is_among handle (open_handles calls) ≡ true
      → windows.set_file_pointer calls handle offset ≡ ltb offset (2 ^ 63)
  pub reads :
      (calls : List Call) (handle offset size : ℕ)
      → is_among handle (open_handles calls) ≡ true
      → windows.read_file (moved handle offset ∷ calls) handle size ≡ disk.contents offset size
  pub geometry :
      (calls : List Call) (handle : ℕ)
      → is_among handle (open_handles calls) ≡ true
      → windows.get_drive_geometry calls handle ≡ some disk.bytes_per_sector
  pub volume :
      (calls : List Call) (handle : ℕ)
      → is_among handle (open_handles calls) ≡ true
      → windows.get_volume_information calls handle ≡ some disk.filesystem_name
  pub records :
      (calls : List Call) (handle : ℕ)
      → is_among handle (open_handles calls) ≡ true
      → windows.get_ntfs_volume_data calls handle ≡ some disk.volume_data
  pub segment : (disk.volume_data.bytes_per_file_record_segment == 0) ≡ false

-- What a read stores.
abbrev given : Option (List ℕ) → List ℕ
given none = []
given (some stored) = stored

-- The reader without state: sector times size is taken modulo 2^64.
unfoldable pub sector_reader_of : Disk → SectorReader
unfolding filled
sector_reader_of disk = record {
  read_sector = λ sector size.
      let offset = sector * size % 2 ^ 64 in
      if ltb offset (2 ^ 63) then filled size (disk.contents offset size) else none;
  left_behind = λ sector size.
      let offset = sector * size % 2 ^ 64 in
      if ltb offset (2 ^ 63) then given (disk.contents offset size) else [];
  bytes_per_sector = disk.bytes_per_sector;
  filesystem_type = disk.filesystem_name;
  total_mft_records =
      disk.volume_data.mft_valid_data_length / disk.volume_data.bytes_per_file_record_segment;
}

-- Every read of it that succeeds fills the buffer, whatever the drive gives.
filled-length :
    (size : ℕ) (answer : Option (List ℕ)) (stored : List ℕ)
    → filled size answer ≡ some stored
    → length stored ≡ size
unfolding filled
filled-length size none stored h = cc h
filled-length size (some given) stored h = ground (arith, ==→≡ (length given) size, h)

pub sector_reader_of-IsExact : (disk : Disk) → IsExact (sector_reader_of disk)
unfolding sector_reader_of
sector_reader_of-IsExact disk = record {
  filled = λ sector size stored h. elim (Bool-cases (ltb (sector * size % 2 ^ 64) (2 ^ 63))) [
    | inl placed ↦
        filled-length size (disk.contents (sector * size % 2 ^ 64) size) stored (rw placed at h)
    | inr refused ↦ cc (h, refused)
  ];
}

-- What the reader without state replies. `reopen` and `close` have nothing to tell.
unfoldable pub reply_of : SectorReader → Request → Reply
reply_of reader (sector_at sector size) = bytes (reader.read_sector sector size)
reply_of reader sector_size = number reader.bytes_per_sector
reply_of reader filesystem = text reader.filesystem_type
reply_of reader mft_records = number reader.total_mft_records
reply_of reader opened_again = whether true
reply_of reader shut = nothing
