-- ===== src/ExFat/Scan/Reached.antt =====
-- What an exFAT volume holds for the search: the sets of entries in the clusters of a directory, and
-- the clusters that are reached within the limit of depth.
use data_recovery_tool.Common.{
  ℕ, ◌+◌, ◌/◌, ◌≤◌, ◌<◌, ◌≡◌, true, false, Some, List, some, ok, ◌==◌, leb, mul64,
}
use data_recovery_tool.ExFat.Structs.{DirEntryData, no_data, sizeof_directory_entry, FileInfo}
use data_recovery_tool.ExFat.Volume.{Drive, is_valid_cluster, cluster_to_sector, get_next_cluster}
use data_recovery_tool.ExFat.Scan.{is_complete, max_recursion_depth}
use data_recovery_tool.ExFat.Scan.Sets.{sets_of}

-- The sets of a sector.
abbrev pub sets_in : Drive → List ℕ → List DirEntryData
sets_in drive buffer = sets_of (drive.bytes_per_sector / sizeof_directory_entry) 0 buffer no_data

module _ (drive : Drive) where
  -- A set of entries in a sector of a cluster that is read.
  pub record Place (cluster : ℕ) : Type 0 where
    pub sector : ℕ
    pub buffer : List ℕ
    pub set : DirEntryData
    pub low : cluster_to_sector drive cluster ≤ sector
    pub high : sector < cluster_to_sector drive cluster + drive.sectors_per_cluster
    pub inside :
        leb (mul64 drive.boot_sector.cluster_count drive.sectors_per_cluster) sector ≡ false
    pub read : drive.reader.read_sector sector drive.bytes_per_sector ≡ some buffer
    pub stands : Some (λ dir. dir ≡ set) (sets_in drive buffer)

  -- The depth is below the limit, and the cluster is valid.
  abbrev pub IsEntered : ℕ → ℕ → Type 0
  IsEntered depth cluster =
      (leb max_recursion_depth depth ≡ false) × (is_valid_cluster drive cluster ≡ true)

  abbrev pub IsDeletedFile : DirEntryData → Type 0
  IsDeletedFile set =
      (is_complete drive set ≡ true) × (set.is_directory ≡ false) × (set.is_deleted ≡ true)

  -- The clusters that are entered by a search from a cluster at a depth: the next one of the chain
  -- one deeper, and the first one of a deleted subdirectory at depth 1.
  pub data Reaches : ℕ → ℕ → ℕ → Type 0 where
    here : {depth c : ℕ} → IsEntered depth c → Reaches depth c c
    chain :
        {depth c n d : ℕ}
        → IsEntered depth c
        → get_next_cluster drive c ≡ ok n
        → is_valid_cluster drive n ≡ true
        → (n == c) ≡ false
        → Reaches (depth + 1) n d
        → Reaches depth c d
    child :
        {depth c d : ℕ}
        → IsEntered depth c
        → (place : Place c) → is_complete drive place.set ≡ true
        → place.set.is_directory ≡ true
        → Reaches 1 place.set.starting_cluster d
        → Reaches depth c d

  -- A listed file is that of a set.
  abbrev pub IsFileOf : DirEntryData → FileInfo → Type 0
  IsFileOf set file =
      (file.cluster ≡ set.starting_cluster)
      × (file.file_size ≡ set.file_size)
      × (file.file_name ≡ set.long_filename)

  -- Where a listed file comes from.
  pub record Origin (root : ℕ) (file : FileInfo) : Type 0 where
    pub cluster : ℕ
    pub reached : Reaches 0 root cluster
    pub place : Place cluster
    pub deleted : IsDeletedFile place.set
    pub same : IsFileOf place.set file
