-- ===== src/ExFat/Structs.antt =====
-- The packed structures of src/exFATStructs.h, read from the bytes of a sector.
use data_recovery_tool.Common.{ℕ, zero, suc, ◌+◌, List, [], ◌∷◌, Bool, false}
use data_recovery_tool.Common.{byte_at, u16_at, u32_at, u64_at, bytes_at}

pub record BootSector : Type 0 where
  pub jump_boot : List ℕ
  pub file_system_name : List ℕ
  pub must_be_zero : List ℕ
  pub partition_offset : ℕ
  pub volume_length : ℕ
  pub fat_offset : ℕ
  pub fat_length : ℕ
  pub cluster_heap_offset : ℕ
  pub cluster_count : ℕ
  pub root_directory_cluster : ℕ
  pub volume_serial_number : ℕ
  pub file_system_revision : ℕ
  pub volume_flags : ℕ
  pub bytes_per_sector_shift : ℕ
  pub sectors_per_cluster_shift : ℕ
  pub number_of_fats : ℕ
  pub drive_select : ℕ
  pub percent_in_use : ℕ
  pub reserved : List ℕ
  pub boot_code : List ℕ
  pub boot_signature : ℕ

abbrev pub sizeof_boot_sector : ℕ
sizeof_boot_sector = 512

unfoldable pub boot_sector_at : List ℕ → BootSector
unfolding byte_at u16_at u32_at u64_at
boot_sector_at buffer = record {
  jump_boot = bytes_at buffer 0 3;
  file_system_name = bytes_at buffer 3 8;
  must_be_zero = bytes_at buffer 11 53;
  partition_offset = u64_at buffer 64;
  volume_length = u64_at buffer 72;
  fat_offset = u32_at buffer 80;
  fat_length = u32_at buffer 84;
  cluster_heap_offset = u32_at buffer 88;
  cluster_count = u32_at buffer 92;
  root_directory_cluster = u32_at buffer 96;
  volume_serial_number = u32_at buffer 100;
  file_system_revision = u16_at buffer 104;
  volume_flags = u16_at buffer 106;
  bytes_per_sector_shift = byte_at buffer 108;
  sectors_per_cluster_shift = byte_at buffer 109;
  number_of_fats = byte_at buffer 110;
  drive_select = byte_at buffer 111;
  percent_in_use = byte_at buffer 112;
  reserved = bytes_at buffer 113 7;
  boot_code = bytes_at buffer 120 390;
  boot_signature = u16_at buffer 510;
}

abbrev pub sizeof_directory_entry : ℕ
sizeof_directory_entry = 32

-- `DirectoryEntryCommon`. Every kind of entry has its type in the first byte.
pub record DirectoryEntryCommon : Type 0 where
  pub entry_type : ℕ
  pub custom_defined : List ℕ
  pub first_cluster : ℕ
  pub data_length : ℕ

unfoldable pub common_entry_at : List ℕ → ℕ → DirectoryEntryCommon
unfolding byte_at u32_at u64_at
common_entry_at buffer i = record {
  entry_type = byte_at buffer i;
  custom_defined = bytes_at buffer (i + 1) 19;
  first_cluster = u32_at buffer (i + 20);
  data_length = u64_at buffer (i + 24);
}

-- `DirectoryEntryExFAT`, as far as its attributes; the times behind them are never read.
pub record DirectoryEntry : Type 0 where
  pub entry_type : ℕ
  pub secondary_count : ℕ
  pub set_checksum : ℕ
  pub file_attributes : ℕ

unfoldable pub directory_entry_at : List ℕ → ℕ → DirectoryEntry
unfolding byte_at u16_at
directory_entry_at buffer i = record {
  entry_type = byte_at buffer i;
  secondary_count = byte_at buffer (i + 1);
  set_checksum = u16_at buffer (i + 2);
  file_attributes = u16_at buffer (i + 4);
}

pub record StreamExtensionEntry : Type 0 where
  pub entry_type : ℕ
  pub general_flags : ℕ
  pub reserved1 : ℕ
  pub name_length : ℕ
  pub name_hash : ℕ
  pub reserved2 : ℕ
  pub valid_data_length : ℕ
  pub reserved3 : ℕ
  pub first_cluster : ℕ
  pub data_length : ℕ

unfoldable pub stream_entry_at : List ℕ → ℕ → StreamExtensionEntry
unfolding byte_at u16_at u32_at u64_at
stream_entry_at buffer i = record {
  entry_type = byte_at buffer i;
  general_flags = byte_at buffer (i + 1);
  reserved1 = byte_at buffer (i + 2);
  name_length = byte_at buffer (i + 3);
  name_hash = u16_at buffer (i + 4);
  reserved2 = u16_at buffer (i + 6);
  valid_data_length = u64_at buffer (i + 8);
  reserved3 = u32_at buffer (i + 16);
  first_cluster = u32_at buffer (i + 20);
  data_length = u64_at buffer (i + 24);
}

pub record FileNameEntry : Type 0 where
  pub entry_type : ℕ
  pub general_flags : ℕ
  pub file_name : List ℕ

units_at : List ℕ → ℕ → ℕ → List ℕ
units_at buffer i zero = []
units_at buffer i (suc n) = u16_at buffer i ∷ units_at buffer (i + 2) n

unfoldable pub file_name_entry_at : List ℕ → ℕ → FileNameEntry
unfolding byte_at u16_at units_at
file_name_entry_at buffer i = record {
  entry_type = byte_at buffer i;
  general_flags = byte_at buffer (i + 1);
  file_name = units_at buffer (i + 2) 15;
}

-- A deleted file that the scan has found.
pub record FileInfo : Type 0 where
  pub file_id : ℕ
  pub file_name : List ℕ
  pub file_size : ℕ
  pub cluster : ℕ

-- What the entries of a set have told so far (`exFATDirEntryData`), and `{}`.
pub record DirEntryData : Type 0 where
  pub long_filename : List ℕ
  pub starting_cluster : ℕ
  pub file_size : ℕ
  pub in_file_entry : Bool
  pub is_directory : Bool
  pub is_deleted : Bool

abbrev pub no_data : DirEntryData
no_data = record {
  long_filename = [];
  starting_cluster = 0;
  file_size = 0;
  in_file_entry = false;
  is_directory = false;
  is_deleted = false;
}
