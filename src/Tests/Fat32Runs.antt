-- ===== src/Tests/Fat32Runs.antt =====
-- The search and the volume's layout on the sample volume.
use data_recovery_tool.Common.{ℕ, ◌+◌, ◌*◌, ◌%◌, ◌^◌, ◌≤◌, ◌<◌, ◌≡◌, ◌≢◌, refl, ◌⊎◌, arith}
use data_recovery_tool.Common.{List, [], ◌∷◌, ◌++◌, ok, true, false, ◌==◌, if◌then◌else◌, replicate}
use data_recovery_tool.Config.{Config}
use data_recovery_tool.Text.{codes}
use data_recovery_tool.Fat32.Structs.{FileInfo}
use data_recovery_tool.Fat32.Volume.{Drive, get_next_cluster, is_valid_cluster}
use data_recovery_tool.Fat32.Volume.{cluster_to_sector, fat_sector_of, entry_offset_of}
use data_recovery_tool.Fat32.Volume.Clusters.{fat_position}
use data_recovery_tool.Fat32.Volume.Clusters.{cluster_to_sector_apart, get_next_cluster_total}
use data_recovery_tool.Fat32.Names.Signatures.{
  known_extension, known_signatures, guess_file_extension-known_extension,
}
use data_recovery_tool.Fat32.Names.{guess_file_extension, get_file_signature}
use data_recovery_tool.Fat32.Names.{parse_file_info}
use data_recovery_tool.Fat32.Names.Parse.{IsParsed, parse_file_info-IsParsed}
use data_recovery_tool.Fat32.Scan.{State, scan_for_deleted_files, scan_directory}
use data_recovery_tool.Fat32.Scan.Invariant.{at_start, IsConsistent, scan_for_deleted_files_empty}
use data_recovery_tool.Fat32.Scan.Invariant.{scan_for_deleted_files-IsConsistent}
use data_recovery_tool.Fat32.Scan.Endless.{IsCycle, scan_directory_endless}
use data_recovery_tool.Tests.Sample.{drive, drive_of, sectors, device-IsExact, recovering}
use data_recovery_tool.Tests.Sample.{is_ascii_alnum}

abbrev found : FileInfo
found = record {
  file_id = 1;
  full_name = codes "_OTES.TXT";
  file_name = codes "_OTES";
  extension = codes "TXT";
  file_size = 10;
  cluster = 3;
  is_extension_predicted = false;
}

abbrev after_search : State
after_search = record {
  file_id = 2;
  recovery_list = found ∷ [];
  reported = record { file_id = 1; file_name = codes "_OTES"; file_size = 10 } ∷ [];
}

search_run :
    scan_for_deleted_files drive recovering is_ascii_alnum 3 true false at_start ≡ ok after_search
unfolding scan_for_deleted_files
search_run = refl

next_run : get_next_cluster drive 2 ≡ ok 0xFFFFFFFF
unfolding get_next_cluster
next_run = refl

cluster_to_sector_apart_example :
    (2 ≤ cluster_to_sector drive 3)
    × (cluster_to_sector drive 3 + 1 ≤ cluster_to_sector drive 5)
    × (cluster_to_sector drive 5 + 1 ≤ 2 + 9 * 1)
unfolding is_valid_cluster
cluster_to_sector_apart_example =
    cluster_to_sector_apart drive 3 5 refl refl (omega arith) (omega arith)

fat_position_example : fat_sector_of drive 21 * 64 + entry_offset_of drive 21 ≡ 1 * 64 + 4 * 21
fat_position_example = fat_position drive 21 (omega arith) (omega arith) (omega arith)

get_next_cluster_total_example :
    (v : ℕ) × (get_next_cluster drive 2 ≡ ok v)
    × ((v < 0x0FFFFFF8) ⊎ ((v ≡ 0xFFFFFFFF) ⊎ (v ≡ 0xFFFFFFF7)))
get_next_cluster_total_example =
    get_next_cluster_total drive 2 (device-IsExact sectors) (omega arith) refl

parse_file_info-IsParsed_example :
    IsParsed is_ascii_alnum drive 1 (codes "_OTES.TXT") 3 10 found × (2 ≡ (1 + 1) % 2 ^ 16)
unfolding parse_file_info
parse_file_info-IsParsed_example =
    parse_file_info-IsParsed is_ascii_alnum drive 1 (codes "_OTES.TXT") 3 10 found 2 refl

scan_for_deleted_files-IsConsistent_example : IsConsistent drive after_search
scan_for_deleted_files-IsConsistent_example =
    scan_for_deleted_files-IsConsistent drive recovering is_ascii_alnum 3 true false after_search
      refl search_run

abbrev listing : Config
listing = record recovering { recover = false }

nothing_listed : ◌≡◌ {A = List FileInfo} [] []
unfolding scan_for_deleted_files
nothing_listed =
    scan_for_deleted_files_empty drive listing is_ascii_alnum 3 true false
      (record after_search { recovery_list = [] }) refl refl

-- The root directory is its own next cluster.
abbrev looping : Drive
looping = drive_of (λ sector. if sector == 1 then replicate 8 0 ++ 2 ∷ [] else sectors sector)

looping-IsCycle : IsCycle looping recovering is_ascii_alnum (λ c. c ≡ 2)
unfolding is_valid_cluster get_next_cluster
looping-IsCycle c e = rw e (refl, (2, refl, refl))

scan_directory_endless_example :
    scan_directory looping recovering is_ascii_alnum 1000 2 at_start ≢ ok after_search
scan_directory_endless_example =
    scan_directory_endless looping recovering is_ascii_alnum (λ c. c ≡ 2) looping-IsCycle 1000 2
      at_start after_search refl

-- An MP3 file with an ID3 tag is not recognized.
mp3_run : guess_file_extension (get_file_signature (codes "ID3" ++ 3 ∷ [])) ≡ codes "bin"
unfolding guess_file_extension get_file_signature
mp3_run = refl

guess_file_extension-known_extension_example :
    guess_file_extension (codes "ffd8ffe0") ≡ known_extension known_signatures (codes "ffd8ffe0")
guess_file_extension-known_extension_example =
    guess_file_extension-known_extension (codes "ffd8ffe0") refl
