-- ===== src/Tests/ExFatRuns.antt =====
-- An exFAT volume of 128-byte sectors whose root directory has the set of one deleted file.
use data_recovery_tool.Common.{
  ℕ, ◌+◌, ◌*◌, ◌/◌, ◌%◌, ◌≡◌, refl, arith, List, [], ◌∷◌, ◌++◌, ok, true, false, ◌==◌,
}
use data_recovery_tool.Common.{if◌then◌else◌, replicate, All, Some, inl}
use data_recovery_tool.Text.{codes}
use data_recovery_tool.ExFat.Structs.{BootSector, FileInfo}
use data_recovery_tool.ExFat.Volume.{Drive, fat_sector_of, cluster_to_sector}
use data_recovery_tool.ExFat.Volume.Table.{fat_sector_of_in_heap}
use data_recovery_tool.ExFat.Scan.{State, scan_for_deleted_files}
use data_recovery_tool.ExFat.Scan.Invariant.{at_start, IsOrdered, scan_for_deleted_files-IsOrdered}
use data_recovery_tool.ExFat.Structs.{DirEntryData}
use data_recovery_tool.ExFat.Volume.{is_valid_cluster}
use data_recovery_tool.ExFat.Scan.{is_complete}
use data_recovery_tool.ExFat.Scan.Sets.{sets_of}
use data_recovery_tool.ExFat.Scan.Reached.{Place, Reaches, IsDeletedFile, IsFileOf, Origin}
use data_recovery_tool.ExFat.Scan.Listing.{scan_for_deleted_files-lists_sets}
use data_recovery_tool.Tests.Sample.{fit, device, recovering}

abbrev zeros : ℕ → List ℕ
zeros n = replicate n 0

-- The entry of the file, the stream with cluster 5 and size 10, and the name.
abbrev root_directory : List ℕ
root_directory =
    (0x05 ∷ zeros 31)
    ++ (0x40 ∷ zeros 19)
    ++ (5 ∷ 0 ∷ 0 ∷ 0 ∷ 10 ∷ zeros 7)
    ++ (0x41 ∷ 0 ∷ b'a' ∷ 0 ∷ b'.' ∷ 0 ∷ b't' ∷ zeros 25)

abbrev pub sectors : ℕ → List ℕ
sectors sector =
    if sector == 2 then root_directory else if sector == 5 then codes "0123456789" else []

abbrev pub boot : BootSector
boot = record {
  jump_boot = [];
  file_system_name = codes "EXFAT   ";
  must_be_zero = [];
  partition_offset = 0;
  volume_length = 20;
  fat_offset = 1;
  fat_length = 1;
  cluster_heap_offset = 2;
  cluster_count = 10;
  root_directory_cluster = 2;
  volume_serial_number = 0;
  file_system_revision = 0;
  volume_flags = 0;
  bytes_per_sector_shift = 7;
  sectors_per_cluster_shift = 0;
  number_of_fats = 1;
  drive_select = 0;
  percent_in_use = 0;
  reserved = [];
  boot_code = [];
  boot_signature = 0xAA55;
}

abbrev pub drive : Drive
drive = record {
  reader = device sectors;
  info = record { boot_sector = boot; bytes_per_sector = 128; sectors_per_cluster = 1 };
}

abbrev found : FileInfo
found = record { file_id = 1; file_name = codes "a.t"; file_size = 10; cluster = 5 }

abbrev after_search : State
after_search = record {
  file_id = 2;
  recovery_list = found ∷ [];
  reported = record { file_id = 1; file_name = codes "a.t"; file_size = 10 } ∷ [];
}

search_run : scan_for_deleted_files drive recovering 5 true false at_start ≡ ok after_search
unfolding scan_for_deleted_files
search_run = refl

scan_for_deleted_files-IsOrdered_example : IsOrdered drive after_search
scan_for_deleted_files-IsOrdered_example =
    scan_for_deleted_files-IsOrdered drive recovering refl 5 true false after_search search_run

scan_for_deleted_files-lists_sets_example :
    All (Origin drive 2) after_search.recovery_list
    × ((cluster : ℕ)
        → Reaches drive 0 2 cluster
        → (place : Place drive cluster) → IsDeletedFile drive place.set
        → Some (IsFileOf drive place.set) after_search.recovery_list)
scan_for_deleted_files-lists_sets_example =
    scan_for_deleted_files-lists_sets drive recovering 5 true false after_search refl search_run

abbrev pub deleted_set : DirEntryData
deleted_set = record {
  long_filename = codes "a.t";
  starting_cluster = 5;
  file_size = 10;
  in_file_entry = true;
  is_directory = false;
  is_deleted = true;
}

unfoldable pub file_place : Place drive 2
unfolding cluster_to_sector sets_of
file_place = record {
  sector = 2;
  buffer = fit 128 root_directory;
  set = deleted_set;
  low = omega arith;
  high = omega arith;
  inside = refl;
  read = refl;
  stands = inl refl;
}

-- The deleted file is one that the search gets to.
file_is_listed : Some (IsFileOf drive deleted_set) after_search.recovery_list
unfolding is_valid_cluster is_complete file_place
file_is_listed =
    scan_for_deleted_files-lists_sets_example.1 2 (Reaches.here (refl, refl)) file_place
      (refl, refl, refl)

fat_sector_of_in_heap_example :
    fat_sector_of drive 40 ≡ cluster_to_sector drive (2 + 4 * 40 / 128 / 1) + 4 * 40 / 128 % 1
fat_sector_of_in_heap_example =
    fat_sector_of_in_heap drive 40 (omega arith) (omega arith) (omega arith) (omega arith)
