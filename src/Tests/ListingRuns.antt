-- ===== src/Tests/ListingRuns.antt =====
-- A FAT32 volume whose root directory, in cluster 2, holds a directory in cluster 3 with a deleted
-- file.
use data_recovery_tool.Common.{
  ℕ, ◌≤◌, ◌<◌, ◌≡◌, refl, arith, List, [], ◌∷◌, ◌++◌, true, false, ◌==◌,
}
use data_recovery_tool.Common.{if◌then◌else◌, replicate, All, Some}
use data_recovery_tool.Common.{ok, ◌+◌}
use data_recovery_tool.Fat32.Volume.{get_next_cluster}
use data_recovery_tool.Text.{same_text, codes}
use data_recovery_tool.Fat32.Structs.{directory_entry_at}
use data_recovery_tool.Fat32.Volume.{Drive, is_valid_cluster, sanitize_cluster, cluster_to_sector}
use data_recovery_tool.Fat32.Scan.{State, scan_for_deleted_files, first_byte}
use data_recovery_tool.Fat32.Scan.Reached.{
  Place, entry_at, entry_of, IsDeletedFile, Reaches, here, child, IsFileOf, Origin,
}
use data_recovery_tool.Fat32.Scan.Listing.{scan_for_deleted_files-lists}
use data_recovery_tool.Config.{logical_type}
use data_recovery_tool.Analysis.Status.{initial}
use data_recovery_tool.Session.{Host, Answers, OutputFile, Processed, new_tracker, left_in_folder}
use data_recovery_tool.Fat32.Run.{start_recovery}
use data_recovery_tool.Fat32.Recover.Contiguous.{IsIntact, content_of}
use data_recovery_tool.Fat32.Run.Recovered.{start_recovery-recovers}
use data_recovery_tool.Tests.Sample.{device-IsExact, fit, drive_of, recovering, is_ascii_alnum}

abbrev nested_sectors : ℕ → List ℕ
nested_sectors sector =
    if sector == 2
    then codes "SUB        " ++ (0x10 ∷ replicate 14 0) ++ 3 ∷ []
    else if sector == 3
    then (0xE5 ∷ codes "OTES   TXT") ++ (0x20 ∷ replicate 14 0) ++ 4 ∷ 0 ∷ 10 ∷ []
    else if sector == 4
    then codes "0123456789"
    else []

abbrev nested : Drive
nested = drive_of nested_sectors

abbrev listed : State
listed = record {
  file_id = 2;
  recovery_list =
      record {
        file_id = 1;
        full_name = codes "_OTES.TXT";
        file_name = codes "_OTES";
        extension = codes "TXT";
        file_size = 10;
        cluster = 4;
        is_extension_predicted = false;
      }
      ∷ [];
  reported = record { file_id = 1; file_name = codes "_OTES"; file_size = 10 } ∷ [];
}

scan_for_deleted_files-lists_example :
    All (Origin nested 2) listed.recovery_list
    × ((cluster : ℕ)
        → Reaches nested 2 cluster
        → (place : Place nested cluster) → IsDeletedFile nested (entry_at nested place)
        → Some (IsFileOf nested (entry_at nested place)) listed.recovery_list)
unfolding scan_for_deleted_files
scan_for_deleted_files-lists_example =
    scan_for_deleted_files-lists nested recovering is_ascii_alnum 3 true false listed refl refl

first_alive :
    (sector i : ℕ)
    → (first_byte (entry_of (fit 64 (nested_sectors sector)) 0) == 0) ≡ false
    → i ≤ 0
    → (first_byte (entry_of (fit 64 (nested_sectors sector)) i) == 0) ≡ false
first_alive sector i h low = let at : i ≡ 0 = omega arith in rw at h

abbrev directory_place : Place nested 2
unfolding is_valid_cluster cluster_to_sector directory_entry_at
directory_place = record {
  sector = 2;
  buffer = fit 64 (nested_sectors 2);
  index = 0;
  valid = refl;
  low = omega arith;
  high = omega arith;
  read = refl;
  few = omega arith;
  alive = λ i h. first_alive 2 i refl h;
  plain = refl;
}

abbrev file_place : Place nested 3
unfolding is_valid_cluster cluster_to_sector directory_entry_at
file_place = record {
  sector = 3;
  buffer = fit 64 (nested_sectors 3);
  index = 0;
  valid = refl;
  low = omega arith;
  high = omega arith;
  read = refl;
  few = omega arith;
  alive = λ i h. first_alive 3 i refl h;
  plain = refl;
}

-- The deleted file is one that the search gets to.
file_is_listed : Some (IsFileOf nested (entry_at nested file_place)) listed.recovery_list
unfolding left_in_folder sanitize_cluster directory_entry_at directory_place
file_is_listed =
    scan_for_deleted_files-lists_example.1 3 (child directory_place refl refl here) file_place
      (refl, refl, refl)

abbrev host : Host
host = record {
  clock = λ step. 0;
  holds = λ name. false;
  same_name = same_text;
  can_create = λ name. true;
  tries = 3;
}

abbrev answers : Answers
answers = record { fuel = 3; log_opened = true; confirmed = false; input = codes "1" }

abbrev processed : Processed
processed = record {
  writes = record { name = codes "_OTES.TXT"; content = codes "0123456789" } ∷ [];
  statuses = record (initial 1) { recovered_bytes = 10; recovered_clusters = 1 } ∷ [];
  tracker = record new_tracker { written = codes "_OTES.TXT" ∷ [] };
  reported = record { file_id = 1; file_name = codes "_OTES"; file_size = 10 } ∷ [];
}

run : start_recovery is_ascii_alnum nested recovering host answers logical_type ≡ ok processed
unfolding start_recovery
run = refl

one : (c : ℕ) → 4 ≤ c → c < 4 + 1 → c ≡ 4
one c low high = omega arith

intact : IsIntact nested 4 10 1
unfolding get_next_cluster
intact = record {
  some_cluster = omega arith;
  some_bytes = omega arith;
  fits = omega arith;
  enough = omega arith;
  tight = omega arith;
  cleared = λ c low high. rw (one c low high) refl;
  low = omega arith;
  high = omega arith;
}

start_recovery-recovers_example :
    Some
      (λ (out : OutputFile). out.content ≡ content_of nested 4 10 1)
      (left_in_folder host processed.writes)
unfolding left_in_folder sanitize_cluster directory_entry_at directory_place file_place
start_recovery-recovers_example =
    start_recovery-recovers is_ascii_alnum nested recovering host (device-IsExact nested_sectors)
      refl refl refl refl answers [] processed refl run (refl, tt) 3 1
      (child directory_place refl refl here) file_place (refl, refl, refl) intact
