-- ===== src/Tests/NtfsRuns.antt =====
-- An NTFS volume of 256-byte sectors whose file table has one record: a deleted file with its content
-- in the record.
use data_recovery_tool.Common.{ℕ, ◌≡◌, refl, arith}
use data_recovery_tool.Common.{
  List, [], ◌∷◌, ◌++◌, ok, true, false, ◌==◌, if◌then◌else◌, replicate, take,
}
use data_recovery_tool.Text.{same_text, codes}
use data_recovery_tool.Analysis.Status.{Status}
use data_recovery_tool.Analysis.Chain.Walk.{consecutive}
use data_recovery_tool.Recovery.Prefix.{chain_content}
use data_recovery_tool.Session.{Host}
use data_recovery_tool.Ntfs.Structs.{BootSector, FileInfo, no_info}
use data_recovery_tool.Ntfs.Volume.{Drive, cluster_to_sector}
use data_recovery_tool.Ntfs.Runs.{read_runs}
use data_recovery_tool.Ntfs.Runs.Encoding.{Run, forward, back, encode_all}
use data_recovery_tool.Ntfs.Runs.Last.{read_runs-last}
use data_recovery_tool.Ntfs.Record.{State, scan_for_deleted_files}
use data_recovery_tool.Ntfs.Record.Invariant.{at_start, IsSound, scan_for_deleted_files-IsSound}
use data_recovery_tool.Ntfs.Recover.{recover_content}
use data_recovery_tool.Ntfs.Recover.Chain.{recover_content-eq-take}
use data_recovery_tool.Tests.Sample.{device, device-IsExact, recovering}

abbrev pub zeros : ℕ → List ℕ
zeros n = replicate n 0

-- The header, the attribute with the name, the one with the content, and the end.
abbrev pub mft_record : List ℕ
mft_record =
    codes "FILE"
    ++ zeros 16
    ++ (56 ∷ zeros 35)
    ++ (0x30 ∷ 0 ∷ 0 ∷ 0 ∷ 96 ∷ zeros 15)
    ++ (24 ∷ zeros 67)
    ++ (3 ∷ 0 ∷ b'A' ∷ 0 ∷ b'.' ∷ 0 ∷ b'T' ∷ 0 ∷ [])
    ++ (0x80 ∷ 0 ∷ 0 ∷ 0 ∷ 28 ∷ zeros 11)
    ++ (3 ∷ 0 ∷ 0 ∷ 0 ∷ 24 ∷ 0 ∷ 0 ∷ 0 ∷ 7 ∷ 8 ∷ 9 ∷ 0 ∷ 0xFF ∷ 0xFF ∷ 0xFF ∷ 0xFF ∷ [])

abbrev sectors : ℕ → List ℕ
sectors sector = if sector == 4 then mft_record else replicate 256 sector

abbrev pub boot : BootSector
boot = record {
  jump = [];
  oem_id = codes "NTFS    ";
  bytes_per_sector = 256;
  sectors_per_cluster = 1;
  reserved_sectors = 0;
  reserved1 = [];
  reserved2 = 0;
  media_descriptor = 0xF8;
  reserved3 = 0;
  sectors_per_track = 0;
  number_of_heads = 0;
  hidden_sectors = 0;
  reserved4 = 0;
  reserved5 = 0;
  total_sectors = 2000;
  mft_cluster = 4;
  mirror_mft_cluster = 5;
  clusters_per_mft_record = 1;
  reserved6 = [];
  clusters_per_index_block = 1;
  reserved7 = [];
  volume_serial_number = 0;
  checksum = 0;
}

abbrev pub drive : Drive
drive = record {
  reader = record (device sectors) { total_mft_records = 1 };
  info = record {
    boot_sector = boot;
    bytes_per_sector = 256;
    mft_record_size = 256;
    bytes_per_cluster = 256;
    mft_offset = 1024;
  };
}

abbrev found : FileInfo
found = record {
  file_name = codes "A.T";
  file_id = 1;
  file_size = 3;
  cluster = 0;
  run_length = 0;
  content = 7 ∷ 8 ∷ 9 ∷ [];
  non_resident = false;
}

abbrev pub after_search : State
after_search = record {
  file_id = 2;
  recovery_list = found ∷ [];
  reported = record { file_id = 1; file_name = codes "A.T"; file_size = 3 } ∷ [];
}

search_run : scan_for_deleted_files drive 10 true false at_start ≡ ok after_search
unfolding scan_for_deleted_files
search_run = refl

scan_for_deleted_files-IsSound_example : IsSound after_search
scan_for_deleted_files-IsSound_example =
    scan_for_deleted_files-IsSound drive 10 true false after_search search_run

-- Two runs: three clusters at 300, then two clusters 100 before.
abbrev first_run : Run
first_run = record { length_size = 1; offset_size = 2; clusters = 3; move = forward 300 }

abbrev second_run : Run
second_run = record { length_size = 1; offset_size = 1; clusters = 2; move = back 100 }

read_runs-last_example :
    read_runs 5 drive (encode_all (first_run ∷ second_run ∷ [])) 0 no_info
    ≡ ok (record no_info { cluster = 200; run_length = 2; non_resident = true })
read_runs-last_example =
    read_runs-last drive (first_run ∷ []) second_run 5 0 no_info (omega arith) (omega arith)
      (
        record {
          some_length = omega arith;
          length_size = omega arith;
          offset_size = omega arith;
          clusters = omega arith;
          move = omega arith;
        },
        (
          record {
            some_length = omega arith;
            length_size = omega arith;
            offset_size = omega arith;
            clusters = omega arith;
            move = (omega arith, omega arith);
          },
          tt,
        ),
      )
      (omega arith, omega arith, ((omega arith, omega arith), omega arith, tt))

abbrev in_run : FileInfo
in_run = record found { cluster = 9; run_length = 2; file_size = 300; non_resident = true }

abbrev host : Host
host = record {
  clock = λ step. 0;
  holds = λ name. false;
  same_name = same_text;
  can_create = λ name. true;
  tries = 3;
}

recover_content-eq-take_example :
    (status : Status) × (recover_content drive recovering host in_run (codes "A.T") 2
      ≡ ok (
        take 300 (chain_content drive.reader 256 1 (cluster_to_sector drive) (consecutive 2 9)),
        status,
      ))
recover_content-eq-take_example =
    recover_content-eq-take drive recovering host in_run (codes "A.T") 2
      (record { filled = (device-IsExact sectors).filled }) refl (omega arith) (omega arith)
