-- ===== src/ExFat/Scan.antt =====
-- The search for deleted files in the directories of an exFAT volume. The only exception below
-- `scanDirectory` is that of its own depth test, which its own handler catches, so no handler is
-- reached with a changed state.
pub mod Invariant
pub mod Sets
pub mod Reached
pub mod Visits
pub mod Found
pub mod Listing
pub mod Endless
use data_recovery_tool.Common.{ℕ, zero, suc, ◌+◌, ◌*◌, ◌/◌, ◌%◌, ◌^◌, Bool, true, false, ◌&&◌}
use data_recovery_tool.Common.{not, ◌||◌, List, [], ◌∷◌, ◌++◌, none, some, ltb, leb, ◌==◌}
use data_recovery_tool.Common.{if◌then◌else◌, length, mul64, Outcome, ok, err, ◌>>=◌, out_of_fuel}
use data_recovery_tool.Common.{exited}
use data_recovery_tool.Config.{Config}
use data_recovery_tool.Text.{c_string}
use data_recovery_tool.Utils.Log.{LogLine}
use data_recovery_tool.ExFat.Structs.{FileInfo, DirEntryData, no_data, sizeof_directory_entry}
use data_recovery_tool.ExFat.Structs.{common_entry_at, directory_entry_at, stream_entry_at}
use data_recovery_tool.ExFat.Structs.{file_name_entry_at, FileNameEntry}
use data_recovery_tool.ExFat.Volume.{Drive, is_valid_cluster, is_valid_deleted_entry}
use data_recovery_tool.ExFat.Volume.{cluster_to_sector, get_next_cluster}

-- The tests of an entry's type, without and with its status bit.
unfoldable pub is_directory_entry : ℕ → Bool
is_directory_entry entry_type = entry_type % 128 == 0x05

unfoldable pub is_stream_extension_entry : ℕ → Bool
is_stream_extension_entry entry_type = entry_type % 128 == 0x40

unfoldable pub is_file_name_entry : ℕ → Bool
is_file_name_entry entry_type = entry_type % 128 == 0x41

unfoldable pub is_entry_in_use : ℕ → Bool
is_entry_in_use entry_type = not (entry_type / 128 % 2 == 0)

abbrev pub max_recursion_depth : ℕ
max_recursion_depth = 100

-- The fields of the object that the search changes, and the lines that it reports.
pub record State : Type 0 where
  pub file_id : ℕ
  pub recovery_list : List FileInfo
  pub reported : List LogLine

unfoldable pub add_to_recovery_list : Config → FileInfo → State → State
add_to_recovery_list config info st =
    if config.recover || config.analyze
    then record st { recovery_list = st.recovery_list ++ info ∷ [] }
    else st

-- The units of the name up to a null.
unfoldable pub extract_file_name : FileNameEntry → List ℕ
unfolding c_string
extract_file_name entry = c_string entry.file_name

-- The information of a set, and the counter `fileId` afterwards.
unfoldable pub parse_file_info : ℕ → DirEntryData → FileInfo × ℕ
parse_file_info file_id dir = (
  record {
    file_id = file_id;
    file_name = dir.long_filename;
    file_size = dir.file_size;
    cluster = dir.starting_cluster;
  },
  (file_id + 1) % 2 ^ 16,
)

-- One entry of a set. Entries in use change nothing.
unfoldable pub process_directory_entry : List ℕ → ℕ → DirEntryData → DirEntryData
unfolding is_entry_in_use is_file_name_entry is_stream_extension_entry is_directory_entry
    common_entry_at directory_entry_at stream_entry_at file_name_entry_at extract_file_name
process_directory_entry buffer i dir =
    let entry_type = (common_entry_at buffer i).entry_type in
    let deleted = record dir { is_deleted = true } in
    if is_entry_in_use entry_type
    then dir
    else if is_file_name_entry entry_type
    then record deleted {
      long_filename = dir.long_filename ++ extract_file_name (file_name_entry_at buffer i);
      in_file_entry = true;
    }
    else if is_stream_extension_entry entry_type
    then record deleted {
      starting_cluster = (stream_entry_at buffer i).first_cluster;
      file_size = (stream_entry_at buffer i).data_length;
    }
    else if is_directory_entry entry_type
    then record deleted {
      is_directory = not ((directory_entry_at buffer i).file_attributes / 16 % 2 == 0);
    }
    else deleted

-- A set names a file: it has a name, a cluster, and a size and a cluster that are possible.
unfoldable pub is_complete : Drive → DirEntryData → Bool
unfolding is_valid_deleted_entry
is_complete drive dir =
    dir.in_file_entry
    && not (length dir.long_filename == 0)
    && ltb 0 dir.starting_cluster
    && is_valid_deleted_entry drive dir.starting_cluster dir.file_size

module _ (drive : Drive) (config : Config) where
  unfoldable pub record_file : DirEntryData → State → State
  unfolding parse_file_info add_to_recovery_list
  record_file dir st =
      let (info, file_id) = parse_file_info st.file_id dir in
      let st' = add_to_recovery_list config info (record st { file_id = file_id }) in
      let line : LogLine = record {
        file_id = info.file_id;
        file_name = info.file_name;
        file_size = info.file_size;
      } in
      record st' { reported = st'.reported ++ line ∷ [] }

  -- `scan` is the call of `scanDirectory` on a subdirectory, whose depth is
  -- `currentRecursionDepth + 1`; that field is 0 throughout.
  module _ (scan : ℕ → State → Outcome State) where
    -- The set's data are `{}` afterwards, whatever happens.
    unfoldable pub finalize_directory_entry : DirEntryData → State → Outcome State
    unfolding is_complete record_file
    finalize_directory_entry dir st = elim (is_complete drive dir) [
      | false ↦ ok st
      | true ↦ elim dir.is_directory [
        | true ↦ scan dir.starting_cluster st
        | false ↦ elim dir.is_deleted [ true ↦ ok (record_file dir st) | false ↦ ok st ]
      ]
    ]

    -- The entries from the `j`-th on.
    unfoldable pub process_entries : ℕ → ℕ → List ℕ → DirEntryData → State → Outcome State
    unfolding finalize_directory_entry process_directory_entry is_directory_entry common_entry_at
    process_entries zero j buffer dir st = elim dir.in_file_entry [
      | false ↦ ok st
      | true ↦ finalize_directory_entry dir st
    ]
    process_entries (suc left) j buffer dir st =
        let i = j * sizeof_directory_entry in
        let begins =
          is_directory_entry (common_entry_at buffer i).entry_type && dir.in_file_entry in
        elim (ltb (length buffer) ((j + 1) * sizeof_directory_entry)) [
          | true ↦ elim dir.in_file_entry [ false ↦ ok st | true ↦ finalize_directory_entry dir st ]
          | false ↦ elim begins [
            | true ↦ do
              st' ← finalize_directory_entry dir st
              process_entries left (j + 1) buffer (process_directory_entry buffer i no_data) st'
            | false ↦ process_entries left (j + 1) buffer (process_directory_entry buffer i dir) st
          ]
        ]

    unfoldable pub process_entries_in_sector : ℕ → List ℕ → State → Outcome State
    unfolding process_entries
    process_entries_in_sector entries_per_sector buffer st =
        process_entries entries_per_sector 0 buffer no_data st

    -- The sectors of a cluster. One at or above the bound is skipped, and one that cannot be read.
    unfoldable pub scan_sectors : ℕ → ℕ → State → Outcome State
    unfolding process_entries_in_sector
    scan_sectors zero sector st = ok st
    scan_sectors (suc left) sector st = do
      let max_sector_count = mul64 drive.boot_sector.cluster_count drive.sectors_per_cluster
      let entries_per_sector = drive.bytes_per_sector / sizeof_directory_entry
      st' ← elim (leb max_sector_count sector) [
        | true ↦ ok st
        | false ↦ elim (drive.reader.read_sector sector drive.bytes_per_sector) [
          | none ↦ ok st
          | some buffer ↦ process_entries_in_sector entries_per_sector buffer st
        ]
      ]
      scan_sectors left (sector + 1) st'

  -- At the depth limit the exception is thrown and caught at once.
  unfoldable pub scan_directory : ℕ → ℕ → ℕ → State → Outcome State
  unfolding scan_sectors is_valid_cluster get_next_cluster cluster_to_sector
  scan_directory zero cluster depth st = err out_of_fuel
  scan_directory (suc fuel) cluster depth st =
      elim (leb max_recursion_depth depth || not (is_valid_cluster drive cluster)) [
        | true ↦ ok st
        | false ↦ do
          st' ←
              scan_sectors (λ c. scan_directory fuel c 1) drive.sectors_per_cluster
                (cluster_to_sector drive cluster) st
          next_cluster ← get_next_cluster drive cluster
          elim (is_valid_cluster drive next_cluster && not (next_cluster == cluster)) [
            | false ↦ ok st'
            | true ↦ scan_directory fuel next_cluster (depth + 1) st'
          ]
      ]

  -- `log_opened` and `confirmed` are the results of `openLogFile` and `confirmProceedWithoutLogFile`.
  unfoldable pub scan_for_deleted_files : ℕ → Bool → Bool → State → Outcome State
  unfolding scan_directory
  scan_for_deleted_files fuel log_opened confirmed st =
      if not log_opened && not confirmed
      then err (exited 1)
      else scan_directory fuel drive.boot_sector.root_directory_cluster 0 st
