-- ===== src/Fat32/Structs.antt =====
-- The packed structures of src/FAT32Structs.h, read from the bytes of a sector.
use data_recovery_tool.Common.{ℕ, ◌+◌, List, [], ◌∷◌, Bool, zero, suc}
use data_recovery_tool.Common.{byte_at, u16_at, u32_at, bytes_at}

pub record BootSector : Type 0 where
  pub jmp_boot : List ℕ
  pub oem_name : List ℕ
  pub bytes_per_sector : ℕ
  pub sectors_per_cluster : ℕ
  pub reserved_sector_count : ℕ
  pub num_fats : ℕ
  pub root_entry_count : ℕ
  pub total_sectors16 : ℕ
  pub media : ℕ
  pub fat_size16 : ℕ
  pub sectors_per_track : ℕ
  pub number_of_heads : ℕ
  pub hidden_sectors : ℕ
  pub total_sectors32 : ℕ
  pub fat_size32 : ℕ
  pub ext_flags : ℕ
  pub fs_version : ℕ
  pub root_cluster : ℕ
  pub fs_info : ℕ
  pub bk_boot_sec : ℕ
  pub reserved : List ℕ
  pub drive_number : ℕ
  pub reserved1 : ℕ
  pub boot_signature : ℕ
  pub volume_id : ℕ
  pub volume_label : List ℕ
  pub file_system_type : List ℕ
  pub boot_code : List ℕ
  pub boot_sector_signature : ℕ

abbrev pub sizeof_boot_sector : ℕ
sizeof_boot_sector = 512

unfoldable pub boot_sector_at : List ℕ → BootSector
unfolding byte_at u16_at u32_at
boot_sector_at buffer = record {
  jmp_boot = bytes_at buffer 0 3;
  oem_name = bytes_at buffer 3 8;
  bytes_per_sector = u16_at buffer 11;
  sectors_per_cluster = byte_at buffer 13;
  reserved_sector_count = u16_at buffer 14;
  num_fats = byte_at buffer 16;
  root_entry_count = u16_at buffer 17;
  total_sectors16 = u16_at buffer 19;
  media = byte_at buffer 21;
  fat_size16 = u16_at buffer 22;
  sectors_per_track = u16_at buffer 24;
  number_of_heads = u16_at buffer 26;
  hidden_sectors = u32_at buffer 28;
  total_sectors32 = u32_at buffer 32;
  fat_size32 = u32_at buffer 36;
  ext_flags = u16_at buffer 40;
  fs_version = u16_at buffer 42;
  root_cluster = u32_at buffer 44;
  fs_info = u16_at buffer 48;
  bk_boot_sec = u16_at buffer 50;
  reserved = bytes_at buffer 52 12;
  drive_number = byte_at buffer 64;
  reserved1 = byte_at buffer 65;
  boot_signature = byte_at buffer 66;
  volume_id = u32_at buffer 67;
  volume_label = bytes_at buffer 71 11;
  file_system_type = bytes_at buffer 82 8;
  boot_code = bytes_at buffer 90 420;
  boot_sector_signature = u16_at buffer 510;
}

pub record DirectoryEntry : Type 0 where
  pub name : List ℕ
  pub attr : ℕ
  pub nt_res : ℕ
  pub crt_time_tenth : ℕ
  pub crt_time : ℕ
  pub crt_date : ℕ
  pub lst_acc_date : ℕ
  pub fst_clus_hi : ℕ
  pub wrt_time : ℕ
  pub wrt_date : ℕ
  pub fst_clus_lo : ℕ
  pub file_size : ℕ

abbrev pub sizeof_directory_entry : ℕ
sizeof_directory_entry = 32

-- The entry at an offset, and the same bytes read as a part of a long name.
unfoldable pub directory_entry_at : List ℕ → ℕ → DirectoryEntry
unfolding byte_at u16_at u32_at
directory_entry_at buffer i = record {
  name = bytes_at buffer i 11;
  attr = byte_at buffer (i + 11);
  nt_res = byte_at buffer (i + 12);
  crt_time_tenth = byte_at buffer (i + 13);
  crt_time = u16_at buffer (i + 14);
  crt_date = u16_at buffer (i + 16);
  lst_acc_date = u16_at buffer (i + 18);
  fst_clus_hi = u16_at buffer (i + 20);
  wrt_time = u16_at buffer (i + 22);
  wrt_date = u16_at buffer (i + 24);
  fst_clus_lo = u16_at buffer (i + 26);
  file_size = u32_at buffer (i + 28);
}

pub record LfnEntry : Type 0 where
  pub ord : ℕ
  pub name1 : List ℕ
  pub attr : ℕ
  pub type : ℕ
  pub chksum : ℕ
  pub name2 : List ℕ
  pub fst_clus_lo : ℕ
  pub name3 : List ℕ

-- `n` code units from an offset.
units_at : List ℕ → ℕ → ℕ → List ℕ
units_at buffer i zero = []
units_at buffer i (suc n) = u16_at buffer i ∷ units_at buffer (i + 2) n

unfoldable pub lfn_entry_at : List ℕ → ℕ → LfnEntry
unfolding units_at byte_at u16_at
lfn_entry_at buffer i = record {
  ord = byte_at buffer i;
  name1 = units_at buffer (i + 1) 5;
  attr = byte_at buffer (i + 11);
  type = byte_at buffer (i + 12);
  chksum = byte_at buffer (i + 13);
  name2 = units_at buffer (i + 14) 6;
  fst_clus_lo = u16_at buffer (i + 26);
  name3 = units_at buffer (i + 28) 2;
}

-- A deleted file that the scan has found.
pub record FileInfo : Type 0 where
  pub file_id : ℕ
  pub full_name : List ℕ
  pub file_name : List ℕ
  pub extension : List ℕ
  pub file_size : ℕ
  pub cluster : ℕ
  pub is_extension_predicted : Bool
