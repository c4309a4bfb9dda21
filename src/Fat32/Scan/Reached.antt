-- ===== src/Fat32/Scan/Reached.antt =====
-- What a FAT32 volume holds, said without the search: the places of the entries in a cluster of a
-- directory, the clusters that a directory leads to, and the deleted files among the entries.
use data_recovery_tool.Common.{ℕ, ◌+◌, ◌*◌, ◌/◌, ◌≤◌, ◌<◌, ◌≡◌, true, false, List, some, ok, ◌==◌}
use data_recovery_tool.Fat32.Structs.{
  DirectoryEntry, directory_entry_at, sizeof_directory_entry, FileInfo,
}
use data_recovery_tool.Fat32.Volume.{
  Drive, is_valid_cluster, sanitize_cluster, cluster_to_sector, get_next_cluster,
}
use data_recovery_tool.Fat32.Scan.{first_byte, is_deleted, is_directory, first_cluster}

-- The `k`-th entry of a sector.
abbrev pub entry_of : List ℕ → ℕ → DirectoryEntry
entry_of buffer k = directory_entry_at buffer (k * sizeof_directory_entry)

module _ (drive : Drive) where
  -- The place of an entry in a valid cluster: a sector of it that can be read, and an index in the
  -- sector. No entry up to it ends the sector, and it is no part of a long name.
  pub record Place (cluster : ℕ) : Type 0 where
    pub sector : ℕ
    pub buffer : List ℕ
    pub index : ℕ
    pub valid : is_valid_cluster drive cluster ≡ true
    pub low : cluster_to_sector drive cluster ≤ sector
    pub high : sector < cluster_to_sector drive cluster + drive.sectors_per_cluster
    pub read : drive.reader.read_sector sector drive.bytes_per_sector ≡ some buffer
    pub few : index < drive.bytes_per_sector / sizeof_directory_entry
    pub alive : (i : ℕ) → i ≤ index → (first_byte (entry_of buffer i) == 0) ≡ false
    pub plain : ((entry_of buffer index).attr == 0x0F) ≡ false

  abbrev pub entry_at : {cluster : ℕ} → Place cluster → DirectoryEntry
  entry_at place = entry_of place.buffer place.index

  -- The cluster that an entry names, and whether it is kept.
  abbrev pub target : DirectoryEntry → ℕ
  target entry = sanitize_cluster drive (first_cluster entry)

  abbrev pub IsKept : DirectoryEntry → Type 0
  IsKept entry = (target entry == 0) ≡ false

  abbrev pub IsDeletedFile : DirectoryEntry → Type 0
  IsDeletedFile entry = IsKept entry × (is_directory entry ≡ false) × (is_deleted entry ≡ true)

  -- The clusters that a search from a cluster gets to: the next one of a chain, and the first one of
  -- a subdirectory, live or deleted.
  pub data Reaches : ℕ → ℕ → Type 0 where
    here : {c : ℕ} → Reaches c c
    chain :
        {c n d : ℕ}
        → is_valid_cluster drive c ≡ true
        → get_next_cluster drive c ≡ ok n
        → is_valid_cluster drive n ≡ true
        → Reaches n d
        → Reaches c d
    child :
        {c d : ℕ} (place : Place c)
        → is_directory (entry_at place) ≡ true
        → IsKept (entry_at place)
        → Reaches (target (entry_at place)) d
        → Reaches c d

  pub Reaches-trans : {a b c : ℕ} → Reaches a b → Reaches b c → Reaches a c
  Reaches-trans here s = s
  Reaches-trans (chain valid next valid_next r) s = chain valid next valid_next (Reaches-trans r s)
  Reaches-trans (child place directory kept r) s = child place directory kept (Reaches-trans r s)

  -- A listed file is that of an entry.
  abbrev pub IsFileOf : DirectoryEntry → FileInfo → Type 0
  IsFileOf entry file = (file.cluster ≡ target entry) × (file.file_size ≡ entry.file_size)

  -- Where a listed file comes from.
  pub record Origin (root : ℕ) (file : FileInfo) : Type 0 where
    pub cluster : ℕ
    pub reached : Reaches root cluster
    pub place : Place cluster
    pub deleted : IsDeletedFile (entry_at place)
    pub same : IsFileOf (entry_at place) file
