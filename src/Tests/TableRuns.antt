-- ===== src/Tests/TableRuns.antt =====
-- A file table of three records of two sectors each, on an NTFS volume of 128-byte sectors, of which
-- the second record cannot be read as a whole.
use data_recovery_tool.Common.{
  ℕ, ◌≡◌, refl, arith, List, [], ◌∷◌, drop, Option, none, some, Bool-cases, inl, inr, if◌then◌else◌,
  ◌==◌,
}
use data_recovery_tool.Device.{SectorReader, IsExact}
use data_recovery_tool.Ntfs.Volume.{Drive, is_valid_sector, cluster_to_sector}
use data_recovery_tool.Ntfs.Record.{scan_mft}
use data_recovery_tool.Ntfs.Record.Invariant.{at_start}
use data_recovery_tool.Ntfs.Record.Whole.{
  records_from, process_records, scan_mft-eq-process_records,
}
use data_recovery_tool.Tests.Sample.{device, device-IsExact, fit}
use data_recovery_tool.Tests.NtfsRuns.{boot, mft_record}

-- The record of the deleted file at sectors 4 and 5, then empty ones.
abbrev table_sectors : ℕ → List ℕ
table_sectors sector =
    if sector == 4 then mft_record else if sector == 5 then drop 128 mft_record else []

abbrev damaged : SectorReader
damaged = record (device table_sectors) {
  read_sector =
      λ sector size. if sector == 7 then none else (device table_sectors).read_sector sector size;
  total_mft_records = 3;
}

none_is_not_some : {bytes : List ℕ} → ◌≡◌ {A = Option (List ℕ)} none (some bytes) → ⊥
none_is_not_some h = cc

pub damaged-IsExact : IsExact damaged
damaged-IsExact = record {
  filled = λ sector size bytes e. elim (Bool-cases (sector == 7)) [
    | inl bad ↦ absurd (none_is_not_some (rw bad at e))
    | inr good ↦ (device-IsExact table_sectors).filled sector size bytes (rw good at e)
  ];
}

abbrev pub table_drive : Drive
table_drive = record {
  reader = damaged;
  info = record {
    boot_sector = record boot { bytes_per_sector = 128 };
    bytes_per_sector = 128;
    mft_record_size = 256;
    bytes_per_cluster = 128;
    mft_offset = 512;
  };
}

scan_mft-eq-process_records_example :
    scan_mft table_drive 10 at_start
    ≡ process_records table_drive 10 (fit 256 mft_record ∷ fit 256 [] ∷ []) at_start
unfolding is_valid_sector cluster_to_sector records_from
scan_mft-eq-process_records_example =
    scan_mft-eq-process_records table_drive damaged-IsExact 10 2 at_start (omega arith) refl refl
