-- ===== src/Ntfs/Structs.antt =====
-- The packed structures of src/NTFSStructs.h. Those inside a record of the file table are read
-- through pointers that the record's own contents place, so each field is read with a test of the
-- buffer's bounds.
use data_recovery_tool.Common.{ℕ, zero, suc, ◌+◌, List, [], ◌∷◌, Bool, false, leb, length}
use data_recovery_tool.Common.{byte_at, u16_at, u32_at, u64_at, bytes_at}
use data_recovery_tool.Common.{Outcome, ok, ◌>>=◌, ◌>>◌, require, out_of_bounds}

pub record BootSector : Type 0 where
  pub jump : List ℕ
  pub oem_id : List ℕ
  pub bytes_per_sector : ℕ
  pub sectors_per_cluster : ℕ
  pub reserved_sectors : ℕ
  pub reserved1 : List ℕ
  pub reserved2 : ℕ
  pub media_descriptor : ℕ
  pub reserved3 : ℕ
  pub sectors_per_track : ℕ
  pub number_of_heads : ℕ
  pub hidden_sectors : ℕ
  pub reserved4 : ℕ
  pub reserved5 : ℕ
  pub total_sectors : ℕ
  pub mft_cluster : ℕ
  pub mirror_mft_cluster : ℕ
  pub clusters_per_mft_record : ℕ
  pub reserved6 : List ℕ
  pub clusters_per_index_block : ℕ
  pub reserved7 : List ℕ
  pub volume_serial_number : ℕ
  pub checksum : ℕ

abbrev pub sizeof_boot_sector : ℕ
sizeof_boot_sector = 84

-- The two signed bytes are kept as they lie on the medium.
unfoldable pub boot_sector_at : List ℕ → BootSector
unfolding byte_at u16_at u32_at u64_at
boot_sector_at buffer = record {
  jump = bytes_at buffer 0 3;
  oem_id = bytes_at buffer 3 8;
  bytes_per_sector = u16_at buffer 11;
  sectors_per_cluster = byte_at buffer 13;
  reserved_sectors = u16_at buffer 14;
  reserved1 = bytes_at buffer 16 3;
  reserved2 = u16_at buffer 19;
  media_descriptor = byte_at buffer 21;
  reserved3 = u16_at buffer 22;
  sectors_per_track = u16_at buffer 24;
  number_of_heads = u16_at buffer 26;
  hidden_sectors = u32_at buffer 28;
  reserved4 = u32_at buffer 32;
  reserved5 = u32_at buffer 36;
  total_sectors = u64_at buffer 40;
  mft_cluster = u64_at buffer 48;
  mirror_mft_cluster = u64_at buffer 56;
  clusters_per_mft_record = byte_at buffer 64;
  reserved6 = bytes_at buffer 65 3;
  clusters_per_index_block = byte_at buffer 68;
  reserved7 = bytes_at buffer 69 3;
  volume_serial_number = u64_at buffer 72;
  checksum = u32_at buffer 80;
}

-- Reads through a pointer into the buffer.
unfoldable pub read8 : List ℕ → ℕ → Outcome ℕ
unfolding byte_at
read8 buffer i = require (leb (i + 1) (length buffer)) out_of_bounds >> ok (byte_at buffer i)

unfoldable pub read16 : List ℕ → ℕ → Outcome ℕ
unfolding u16_at
read16 buffer i = require (leb (i + 2) (length buffer)) out_of_bounds >> ok (u16_at buffer i)

unfoldable pub read32 : List ℕ → ℕ → Outcome ℕ
unfolding u32_at
read32 buffer i = require (leb (i + 4) (length buffer)) out_of_bounds >> ok (u32_at buffer i)

unfoldable pub read64 : List ℕ → ℕ → Outcome ℕ
unfolding u64_at
read64 buffer i = require (leb (i + 8) (length buffer)) out_of_bounds >> ok (u64_at buffer i)

-- `n` code units from an offset.
unfoldable pub read_units : List ℕ → ℕ → ℕ → Outcome (List ℕ)
unfolding read16
read_units buffer i zero = ok []
read_units buffer i (suc n) = do
  unit ← read16 buffer i
  units ← read_units buffer (i + 2) n
  ok (unit ∷ units)

-- Offsets of the fields that are read: in `MFTEntryHeader`, in `AttributeHeader` with its resident
-- and its nonresident extension, and in `FileNameAttribute`.
abbrev pub first_attribute_offset_at : ℕ
first_attribute_offset_at = 20

abbrev pub flags_at : ℕ
flags_at = 22

abbrev pub attribute_length_at : ℕ
attribute_length_at = 4

abbrev pub non_resident_at : ℕ
non_resident_at = 8

abbrev pub content_length_at : ℕ
content_length_at = 16

abbrev pub content_offset_at : ℕ
content_offset_at = 20

abbrev pub data_run_offset_at : ℕ
data_run_offset_at = 32

abbrev pub real_size_at : ℕ
real_size_at = 48

abbrev pub name_length_at : ℕ
name_length_at = 64

abbrev pub name_at : ℕ
name_at = 66

-- A deleted file that the scan has found.
pub record FileInfo : Type 0 where
  pub file_name : List ℕ
  pub file_id : ℕ
  pub file_size : ℕ
  pub cluster : ℕ
  pub run_length : ℕ
  pub content : List ℕ
  pub non_resident : Bool

abbrev pub no_info : FileInfo
no_info = record {
  file_name = [];
  file_id = 0;
  file_size = 0;
  cluster = 0;
  run_length = 0;
  content = [];
  non_resident = false;
}
