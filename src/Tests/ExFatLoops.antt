-- ===== src/Tests/ExFatLoops.antt =====
-- An exFAT volume of 128-byte sectors whose root directory holds a directory that starts at the root's
-- own cluster.
use data_recovery_tool.Common.{ℕ, ◌≡◌, ◌≢◌, refl, arith, List, [], ◌∷◌, ◌++◌, ok, ◌==◌, inl}
use data_recovery_tool.Common.{if◌then◌else◌, replicate, true}
use data_recovery_tool.ExFat.Structs.{DirEntryData}
use data_recovery_tool.ExFat.Volume.{Drive, is_valid_cluster, cluster_to_sector}
use data_recovery_tool.ExFat.Scan.{scan_directory, is_complete}
use data_recovery_tool.ExFat.Scan.Invariant.{at_start}
use data_recovery_tool.ExFat.Scan.Sets.{sets_of}
use data_recovery_tool.ExFat.Scan.Reached.{Place}
use data_recovery_tool.ExFat.Scan.Endless.{LeadsBack, scan_directory_never_returns}
use data_recovery_tool.Tests.Sample.{fit, device, recovering}
use data_recovery_tool.Tests.ExFatRuns.{boot}

-- The entry of a directory, the stream with cluster 2 and size 10, and the name.
abbrev loop_directory : List ℕ
loop_directory =
    (0x05 ∷ 0 ∷ 0 ∷ 0 ∷ 0x10 ∷ replicate 27 0)
    ++ (0x40 ∷ replicate 19 0)
    ++ (2 ∷ 0 ∷ 0 ∷ 0 ∷ 10 ∷ replicate 7 0)
    ++ (0x41 ∷ 0 ∷ b'a' ∷ replicate 29 0)

abbrev loop_sectors : ℕ → List ℕ
loop_sectors sector = if sector == 2 then loop_directory else []

abbrev drive : Drive
drive = record {
  reader = device loop_sectors;
  info = record { boot_sector = boot; bytes_per_sector = 128; sectors_per_cluster = 1 };
}

abbrev loop_set : DirEntryData
loop_set = record {
  long_filename = b'a' ∷ [];
  starting_cluster = 2;
  file_size = 10;
  in_file_entry = true;
  is_directory = true;
  is_deleted = true;
}

loop_place : Place drive 2
unfolding cluster_to_sector sets_of
loop_place = record {
  sector = 2;
  buffer = fit 128 loop_directory;
  set = loop_set;
  low = omega arith;
  high = omega arith;
  inside = refl;
  read = refl;
  stands = inl refl;
}

abbrev IsRoot : ℕ → Type 0
IsRoot c = c ≡ 2

IsRoot-LeadsBack : LeadsBack drive IsRoot 2
unfolding is_valid_cluster is_complete loop_place
IsRoot-LeadsBack = record {
  valid = refl;
  place = loop_place;
  complete = refl;
  directory = refl;
  again = refl;
}

leads_back : (c : ℕ) → IsRoot c → LeadsBack drive IsRoot c
leads_back c root = rw root IsRoot-LeadsBack

scan_directory_never_returns_example :
    scan_directory drive recovering 1_000_000 2 0 at_start ≢ ok at_start
scan_directory_never_returns_example =
    scan_directory_never_returns drive recovering IsRoot leads_back 1_000_000 2 0 at_start at_start
      refl refl
