-- ===== src/Handler/Partition.antt =====
-- The test for partition tables of src/DriveHandler.cpp, which nothing calls yet, and the methods of
-- the handler that pass its reader on.
use data_recovery_tool.Common.{
  ℕ, zero, suc, ◌+◌, ◌*◌, Bool, true, false, ◌&&◌, List, [], ◌∷◌, ◌++◌, Option, none, some,
}
use data_recovery_tool.Common.{
  ◌==◌, ltb, length, get_or, Outcome, ok, err, ◌>>=◌, ◌>>◌, require, thrown,
}
use data_recovery_tool.Common.{
  out_of_bounds, failed_to_read_partition_table, failed_to_read_gpt_header,
}
use data_recovery_tool.Common.{◌≡◌, refl, if◌then◌else◌}
use data_recovery_tool.Text.{codes, same_text}
use data_recovery_tool.Device.{SectorReader}

pub data PartitionType : Type 0 where
  unknown_partition mbr gpt : PartitionType

-- `readSector`: a handler that has given its reader away reads nothing.
unfoldable pub read_sector : Option SectorReader → ℕ → ℕ → Option (List ℕ)
read_sector none sector size = none
read_sector (some reader) sector size = reader.read_sector sector size

-- The reader that is handed over, and what the handler keeps.
unfoldable pub release_sector_reader :
    Option SectorReader → Option SectorReader × Option SectorReader
release_sector_reader reader = (reader, none)

unfoldable pub close_drive : Option SectorReader → Option SectorReader
close_drive none = none
close_drive (some reader) = none

abbrev pub mbr_signature_offset : ℕ
mbr_signature_offset = 0x1FE

-- The first `n` 16-bit units, which is how `wchar_t` reads a buffer.
unfoldable pub wide_units : ℕ → List ℕ → List ℕ
wide_units zero bytes = []
wide_units (suc n) [] = []
wide_units (suc n) (low ∷ []) = []
wide_units (suc n) (low ∷ high ∷ bytes) = (low + 256 * high) ∷ wide_units n bytes

unfoldable pub is_gpt : List ℕ → Bool
unfolding wide_units same_text
is_gpt buffer = same_text (wide_units 8 buffer) (codes "EFI PART")

unfoldable pub is_mbr : List ℕ → Outcome Bool
is_mbr buffer = do
  require (ltb (mbr_signature_offset + 1) (length buffer)) out_of_bounds
  ok (
      get_or buffer mbr_signature_offset 0 == 0x55
      && get_or buffer (mbr_signature_offset + 1) 0 == 0xAA)

-- A sector of the partition table, or the exception.
unfoldable pub read_or_throw : Outcome (List ℕ) → Option (List ℕ) → Outcome (List ℕ)
read_or_throw failure none = failure
read_or_throw failure (some buffer) = ok buffer

unfoldable pub get_partition_type : Option SectorReader → ℕ → Outcome PartitionType
unfolding read_sector read_or_throw is_mbr is_gpt
get_partition_type reader bytes_per_sector = do
  buffer ←
      read_or_throw (err (thrown failed_to_read_partition_table))
        (read_sector reader 0 bytes_per_sector)
  has_mbr ← is_mbr buffer
  elim has_mbr [
    | false ↦ ok unknown_partition
    | true ↦ do
      header ←
          read_or_throw (err (thrown failed_to_read_gpt_header))
            (read_sector reader 1 bytes_per_sector)
      ok (if is_gpt header then gpt else mbr)
  ]

-- A disk with the signature of a boot record and, in its second sector, the signature of a GPT header
-- in eight ASCII bytes is taken for one without a GPT.
pub get_partition_type_of_gpt :
    (reader : SectorReader) (bytes_per_sector : ℕ) (first rest : List ℕ)
    → reader.read_sector 0 bytes_per_sector ≡ some first
    → is_mbr first ≡ ok true
    → reader.read_sector 1 bytes_per_sector ≡ some (codes "EFI PART" ++ rest)
    → get_partition_type (some reader) bytes_per_sector ≡ ok mbr
unfolding get_partition_type read_sector is_gpt same_text wide_units
get_partition_type_of_gpt reader bytes_per_sector first rest reads has_mbr header =
    rw (reads, read_or_throw, has_mbr, header) refl
