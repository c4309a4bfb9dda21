-- ===== src/Fat32/Scan.antt =====
-- The search for deleted files in the directories of a FAT32 volume.
pub mod Induction
pub mod Invariant
pub mod Endless
pub mod Termination
pub mod Reached
pub mod Visits
pub mod Found
pub mod Listing
use data_recovery_tool.Common.{ℕ, zero, suc, ◌+◌, ◌*◌, ◌/◌, ◌%◌, ◌^◌, Bool, true, false, ◌&&◌}
use data_recovery_tool.Common.{not, ◌||◌, List, [], ◌∷◌, ◌++◌, none, some, ◌==◌, if◌then◌else◌}
use data_recovery_tool.Common.{get_or, Outcome, ok, err, ◌>>=◌, out_of_fuel, exited}
use data_recovery_tool.Config.{Config}
use data_recovery_tool.Utils.Log.{LogLine}
use data_recovery_tool.Fat32.Structs.{DirectoryEntry, directory_entry_at, lfn_entry_at, FileInfo}
use data_recovery_tool.Fat32.Structs.{sizeof_directory_entry}
use data_recovery_tool.Fat32.Volume.{Drive, is_valid_cluster, sanitize_cluster, cluster_to_sector}
use data_recovery_tool.Fat32.Volume.{get_next_cluster}
use data_recovery_tool.Fat32.Names.{get_long_filename, get_short_filename, parse_file_info}

-- The fields of the object that the search changes, and the lines that it reports.
pub record State : Type 0 where
  pub file_id : ℕ
  pub recovery_list : List FileInfo
  pub reported : List LogLine

unfoldable pub add_to_recovery_list : Config → FileInfo → State → State
add_to_recovery_list config info st =
    if config.recover || config.analyze
    then record st { recovery_list = st.recovery_list ++ info ∷ [] }
    else st

-- Tests of an entry's first byte and of its attributes.
abbrev pub first_byte : DirectoryEntry → ℕ
first_byte entry = get_or entry.name 0 0

abbrev pub is_deleted : DirectoryEntry → Bool
is_deleted entry = first_byte entry == 0xE5

abbrev pub is_directory : DirectoryEntry → Bool
is_directory entry = entry.attr / 16 % 2 == 1 && not (first_byte entry == b'.')

abbrev pub first_cluster : DirectoryEntry → ℕ
first_cluster entry = entry.fst_clus_hi * 2 ^ 16 + entry.fst_clus_lo

-- The long name that was read so far, or the short one.
unfoldable pub name_of : DirectoryEntry → List ℕ → List ℕ
unfolding get_short_filename
name_of entry [] = get_short_filename entry (is_deleted entry)
name_of entry (c ∷ cs) = c ∷ cs

module _ (drive : Drive) (config : Config) (iswalnum : ℕ → Bool) where
  -- The case of a deleted file.
  unfoldable pub record_file : DirectoryEntry → List ℕ → ℕ → State → Outcome State
  unfolding parse_file_info add_to_recovery_list
  record_file entry filename cluster st = do
    (info, file_id) ← parse_file_info iswalnum drive st.file_id filename cluster entry.file_size
    let st' = add_to_recovery_list config info (record st { file_id = file_id })
    let line : LogLine = record {
      file_id = info.file_id;
      file_name = info.file_name;
      file_size = info.file_size;
    }
    ok (record st' { reported = st'.reported ++ line ∷ [] })

  -- `scan` is the call of `scanDirectory` on a subdirectory.
  module _ (scan : ℕ → State → Outcome State) where
    unfoldable pub process_directory_entry : DirectoryEntry → List ℕ → State → Outcome State
    unfolding record_file sanitize_cluster
    process_directory_entry entry filename st =
        let cluster = sanitize_cluster drive (first_cluster entry) in
        elim (cluster == 0) [
          | true ↦ ok st
          | false ↦ elim (is_directory entry) [
            | true ↦ scan cluster st
            | false ↦ elim (is_deleted entry) [
              | true ↦ record_file entry filename cluster st
              | false ↦ ok st
            ]
          ]
        ]

    -- The entries from the `j`-th on, with the long name that was read so far.
    unfoldable pub process_entries : ℕ → ℕ → List ℕ → List ℕ → State → Outcome State
    unfolding process_directory_entry get_long_filename name_of directory_entry_at lfn_entry_at
    process_entries zero j long_filename buffer st = ok st
    process_entries (suc left) j long_filename buffer st =
        let entry = directory_entry_at buffer (j * sizeof_directory_entry) in
        let lfn = lfn_entry_at buffer (j * sizeof_directory_entry) in
        elim (first_byte entry == 0) [
          | true ↦ ok st
          | false ↦ elim (entry.attr == 0x0F) [
            | true ↦ process_entries left (j + 1) (get_long_filename lfn ++ long_filename) buffer st
            | false ↦ do
              st' ← process_directory_entry entry (name_of entry long_filename) st
              process_entries left (j + 1) [] buffer st'
          ]
        ]

    unfoldable pub process_entries_in_sector : ℕ → List ℕ → State → Outcome State
    unfolding process_entries
    process_entries_in_sector entries_per_sector buffer st =
        process_entries entries_per_sector 0 [] buffer st

    -- The sectors of a cluster, with the number of those left. One that cannot be read is skipped.
    unfoldable pub scan_sectors : ℕ → ℕ → State → Outcome State
    unfolding process_entries_in_sector
    scan_sectors zero sector st = ok st
    scan_sectors (suc left) sector st = do
      let entries_per_sector = drive.bytes_per_sector / sizeof_directory_entry
      st' ← elim (drive.reader.read_sector sector drive.bytes_per_sector) [
        | none ↦ ok st
        | some buffer ↦ process_entries_in_sector entries_per_sector buffer st
      ]
      scan_sectors left (sector + 1) st'

  -- The recursion goes to the next cluster of a directory and into its subdirectories.
  unfoldable pub scan_directory : ℕ → ℕ → State → Outcome State
  unfolding scan_sectors is_valid_cluster get_next_cluster cluster_to_sector
  scan_directory zero cluster st = err out_of_fuel
  scan_directory (suc fuel) cluster st = elim (is_valid_cluster drive cluster) [
    | false ↦ ok st
    | true ↦ do
      st' ←
          scan_sectors (scan_directory fuel) drive.sectors_per_cluster
            (cluster_to_sector drive cluster) st
      next_cluster ← get_next_cluster drive cluster
      elim (is_valid_cluster drive next_cluster) [
        | false ↦ ok st'
        | true ↦ scan_directory fuel next_cluster st'
      ]
  ]

  -- `log_opened` and `confirmed` are the results of `openLogFile` and `confirmProceedWithoutLogFile`.
  unfoldable pub scan_for_deleted_files : ℕ → Bool → Bool → State → Outcome State
  unfolding scan_directory
  scan_for_deleted_files fuel log_opened confirmed st =
      if not log_opened && not confirmed
      then err (exited 1)
      else scan_directory fuel drive.root_dir_cluster st
