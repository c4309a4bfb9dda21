-- ===== src/Tests/RecordRuns.antt =====
-- The attributes of the first record of the sample file table.
use data_recovery_tool.Common.{
  ℕ, ◌^◌, length, inl, Some, true, ◌<◌, ◌≡◌, refl, arith, List, [], ◌∷◌, ok, drop,
}
use data_recovery_tool.Text.{codes}
use data_recovery_tool.Ntfs.Record.{process_mft_record, record_file}
use data_recovery_tool.Ntfs.Record.Invariant.{at_start}
use data_recovery_tool.Ntfs.Record.Held.{Attribute, tell_all, nothing_told}
use data_recovery_tool.Ntfs.Record.Held.Deleted.{IsDeletedRecord, process_mft_record-Holds}
use data_recovery_tool.Tests.Sample.{fit}
use data_recovery_tool.Tests.NtfsRuns.{mft_record, after_search}
use data_recovery_tool.Tests.TableRuns.{table_drive, damaged-IsExact}
use data_recovery_tool.Ntfs.Record.{scan_mft}
use data_recovery_tool.Ntfs.Record.Whole.{records_from}
use data_recovery_tool.Ntfs.Record.Listing.{IsTold, scan_mft-IsTold}
use data_recovery_tool.Ntfs.Volume.{validate_file_info, is_valid_sector, cluster_to_sector}

abbrev whole_record : List ℕ
whole_record = fit 256 mft_record

abbrev attributes : List Attribute
attributes = Attribute.name 24 (codes "A.T") ∷ Attribute.content 24 (7 ∷ 8 ∷ 9 ∷ []) ∷ []

sample-IsDeletedRecord : IsDeletedRecord table_drive whole_record attributes
sample-IsDeletedRecord = record {
  signed = (drop 4 whole_record, refl);
  flags = 0;
  flags_stand = (drop 24 whole_record, refl);
  flags_small = omega arith;
  unused = refl;
  first = 56;
  first_stands = (drop 22 whole_record, refl);
  first_small = omega arith;
  holds = (
    96,
    omega arith,
    omega arith,
    (drop 64 whole_record, refl),
    (
      (drop 60 whole_record, refl),
      (drop 65 whole_record, refl),
      (drop 78 whole_record, refl),
      omega arith,
      (drop 145 whole_record, refl),
      omega arith,
      (drop 152 whole_record, refl),
      (omega arith, (omega arith, (omega arith, tt))),
    ),
    (
      28,
      omega arith,
      omega arith,
      (drop 160 whole_record, refl),
      (
        (drop 156 whole_record, refl),
        (drop 161 whole_record, refl),
        (drop 172 whole_record, refl),
        omega arith,
        (drop 174 whole_record, refl),
        omega arith,
        (drop 179 whole_record, refl),
        omega arith,
      ),
      (omega arith, (drop 184 whole_record, refl)),
    ),
  );
}

process_mft_record-Holds_example :
    process_mft_record table_drive 3 whole_record at_start ≡ ok after_search
unfolding sample-IsDeletedRecord record_file
process_mft_record-Holds_example =
    process_mft_record-Holds table_drive whole_record (omega arith) attributes
      sample-IsDeletedRecord 3 at_start (omega arith)

table_run : scan_mft table_drive 3 at_start ≡ ok after_search
unfolding scan_mft
table_run = refl

small : table_drive.mft_record_size < 2 ^ 32
small = omega arith

enough : length attributes < 3
enough = omega arith

valid : (file_id : ℕ) → validate_file_info (tell_all file_id attributes nothing_told).info ≡ true
unfolding validate_file_info
valid file_id = refl

scan_mft-IsTold_example :
    Some (IsTold table_drive 3 attributes small enough valid) after_search.recovery_list
unfolding is_valid_sector cluster_to_sector records_from
scan_mft-IsTold_example =
    scan_mft-IsTold table_drive 3 attributes small enough valid damaged-IsExact 2 (omega arith) refl
      refl (inl sample-IsDeletedRecord) at_start after_search table_run
