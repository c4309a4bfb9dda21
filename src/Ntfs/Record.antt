-- ===== src/Ntfs/Record.antt =====
-- The search of NTFSRecovery.cpp: the records of the file table, their attributes, and the list of
-- deleted files.
pub mod Attributes
pub mod Loop
pub mod Named
pub mod Invariant
pub mod Whole
pub mod Layout
pub mod Held
pub mod Listing
use data_recovery_tool.Common.{ℕ, zero, suc, ◌+◌, ◌*◌, ◌%◌, Bool, true, false, ◌&&◌, ◌||◌, not}
use data_recovery_tool.Common.{List, [], ◌∷◌, ◌++◌, none, some, ltb, leb, ◌==◌, length, take, drop}
use data_recovery_tool.Common.{replicate, if◌then◌else◌, add32, bytes_at}
use data_recovery_tool.Common.{Outcome, ok, err, ◌>>=◌, ◌>>◌, require, out_of_bounds, out_of_fuel}
use data_recovery_tool.Common.{exited}
use data_recovery_tool.Utils.Log.{LogLine}
use data_recovery_tool.Ntfs.Structs.{FileInfo, no_info, read8, read16, read32, read64, read_units}
use data_recovery_tool.Ntfs.Structs.{first_attribute_offset_at, flags_at, attribute_length_at}
use data_recovery_tool.Ntfs.Structs.{non_resident_at, content_length_at, content_offset_at}
use data_recovery_tool.Ntfs.Structs.{data_run_offset_at, real_size_at, name_length_at, name_at}
use data_recovery_tool.Ntfs.Volume.{Drive, cluster_to_sector, is_valid_sector, validate_file_info}
use data_recovery_tool.Ntfs.Volume.{get_sectors_per_mft_record}
use data_recovery_tool.Ntfs.Runs.{read_runs}

-- The fields of the object that the search changes, and the lines that it reports.
pub record State : Type 0 where
  pub file_id : ℕ
  pub recovery_list : List FileInfo
  pub reported : List LogLine

-- What the loop over the attributes fills in: the arguments taken by reference.
pub record Found : Type 0 where
  pub info : FileInfo
  pub has_file_name : Bool
  pub has_data : Bool

-- The signature of a record.
unfoldable pub is_valid_file_record : List ℕ → Outcome Bool
unfolding read32
is_valid_file_record buffer = do signature ← read32 buffer 0; ok (signature == 0x454C4946)

-- `buffer` from `at` on, overwritten by the bytes of one sector.
unfoldable pub overwrite : List ℕ → ℕ → List ℕ → List ℕ
overwrite buffer at bytes = take at buffer ++ bytes ++ drop (at + length bytes) buffer

module _ (drive : Drive) where
  -- The sectors of a record from the `i`-th on, with the number of those left. A sector that would
  -- be stored behind the end of the buffer is out of bounds. What a read that fails may have stored is
  -- left out: only a record read as a whole is looked at, and it overwrites the buffer.
  unfoldable pub read_mft_record : ℕ → ℕ → ℕ → List ℕ → Outcome (Bool × List ℕ)
  unfolding overwrite
  read_mft_record zero i current_sector buffer = ok (true, buffer)
  read_mft_record (suc left) i current_sector buffer = do
    let size = drive.boot_sector.bytes_per_sector
    require (leb (i * size + size) (length buffer)) out_of_bounds
    elim (drive.reader.read_sector (current_sector + i) size) [
      | none ↦ ok (false, buffer)
      | some bytes ↦ read_mft_record left (i + 1) current_sector (overwrite buffer (i * size) bytes)
    ]

  -- The attribute at `at`. The name is kept for a deleted record, which every record is that gets
  -- this far.
  unfoldable pub process_file_name_attribute : ℕ → List ℕ → ℕ → FileInfo → Outcome FileInfo
  unfolding read8 read16 read_units
  process_file_name_attribute file_id buffer at info = do
    non_resident ← read8 buffer (at + non_resident_at)
    elim (non_resident == 0) [
      | false ↦ ok info
      | true ↦ do
        content_offset ← read16 buffer (at + content_offset_at)
        name_length ← read8 buffer (at + content_offset + name_length_at)
        elim (ltb 255 name_length) [
          | true ↦ ok info
          | false ↦ do
            name ← read_units buffer (at + content_offset + name_at) name_length
            ok (record info { file_name = name; file_id = file_id })
        ]
    ]

  -- The content of a small file is in the record itself; that of another is in data runs.
  unfoldable pub process_data_attribute : List ℕ → ℕ → FileInfo → Outcome FileInfo
  unfolding read8 read16 read32 read64 read_runs
  process_data_attribute buffer at info = do
    non_resident ← read8 buffer (at + non_resident_at)
    elim (non_resident == 0) [
      | false ↦ do
        real_size ← read64 buffer (at + real_size_at)
        data_run_offset ← read16 buffer (at + data_run_offset_at)
        read_runs (suc (length buffer)) drive (drop (at + data_run_offset) buffer) 0
            (record info { file_size = real_size })
      | true ↦ do
        content_offset ← read16 buffer (at + content_offset_at)
        content_length ← read32 buffer (at + content_length_at)
        require (leb (at + content_offset + content_length) (length buffer)) out_of_bounds
        ok (record info {
          file_size = content_length;
          non_resident = false;
          content = bytes_at buffer (at + content_offset) content_length;
        })
    ]

  -- The `switch` on the type of an attribute.
  unfoldable pub process_one_attribute : ℕ → List ℕ → ℕ → ℕ → Found → Outcome Found
  unfolding process_file_name_attribute process_data_attribute
  process_one_attribute file_id buffer at kind found = elim (kind == 0x30) [
    | true ↦ do
      info ← process_file_name_attribute file_id buffer at found.info
      ok (record found { info = info; has_file_name = true })
    | false ↦ elim (kind == 0x80) [
      | true ↦ do
        info ← process_data_attribute buffer at found.info
        ok (record found { info = info; has_data = true })
      | false ↦ ok found
    ]
  ]

  -- The loop over the attributes, on fuel. Offset and length are added in 32 bits.
  unfoldable pub process_attribute : ℕ → ℕ → List ℕ → ℕ → Found → Outcome Found
  unfolding read32 process_one_attribute
  process_attribute zero file_id buffer at found = err out_of_fuel
  process_attribute (suc fuel) file_id buffer at found = elim (ltb at drive.mft_record_size) [
    | false ↦ ok found
    | true ↦ do
      kind ← read32 buffer at
      elim (kind == 0xFFFFFFFF) [
        | true ↦ ok found
        | false ↦ do
          len ← read32 buffer (at + attribute_length_at)
          elim (len == 0 || ltb drive.mft_record_size (add32 at len)) [
            | true ↦ ok found
            | false ↦ do
              found' ← process_one_attribute file_id buffer at kind found
              process_attribute fuel file_id buffer (add32 at len) found'
          ]
      ]
  ]

  unfoldable pub add_to_recovery_list : FileInfo → State → State
  add_to_recovery_list info st = record st { recovery_list = st.recovery_list ++ info ∷ [] }

  -- A record with a name and content goes to the list and takes a number of 16 bits.
  unfoldable pub record_file : Found → State → State
  unfolding validate_file_info add_to_recovery_list
  record_file found st =
      let line : LogLine = record {
        file_id = found.info.file_id;
        file_name = found.info.file_name;
        file_size = found.info.file_size;
      } in
      let st' = add_to_recovery_list found.info st in
      if validate_file_info found.info
      then record st' { reported = st'.reported ++ line ∷ []; file_id = (st'.file_id + 1) % 65536 }
      else st

  unfoldable pub process_mft_record : ℕ → List ℕ → State → Outcome State
  unfolding is_valid_file_record read16 process_attribute record_file
  process_mft_record fuel buffer st = do
    valid ← is_valid_file_record buffer
    elim valid [
      | false ↦ ok st
      | true ↦ do
        flags ← read16 buffer flags_at
        elim (flags % 2 == 0) [
          | false ↦ ok st
          | true ↦ do
            at ← read16 buffer first_attribute_offset_at
            found ←
                process_attribute fuel st.file_id buffer at
                  (record { info = no_info; has_file_name = false; has_data = false })
            ok (if not found.has_file_name && not found.has_data then st else record_file found st)
        ]
    ]

  -- The loop over the records, with the number of those left. The buffer stays between the rounds.
  unfoldable pub scan_records : ℕ → ℕ → ℕ → ℕ → ℕ → List ℕ → State → Outcome State
  unfolding read_mft_record process_mft_record
  scan_records fuel per_record mft_sector zero index buffer st = ok st
  scan_records fuel per_record mft_sector (suc left) index buffer st = do
    (complete, buffer') ← read_mft_record per_record 0 (mft_sector + index * per_record) buffer
    st' ← elim complete [ false ↦ ok st | true ↦ process_mft_record fuel buffer' st ]
    scan_records fuel per_record mft_sector left (index + 1) buffer' st'

  unfoldable pub scan_mft : ℕ → State → Outcome State
  unfolding cluster_to_sector is_valid_sector get_sectors_per_mft_record scan_records
  scan_mft fuel st = do
    let mft_sector = cluster_to_sector drive drive.boot_sector.mft_cluster
    elim (is_valid_sector drive mft_sector) [
      | false ↦ ok st
      | true ↦ do
        per_record ← get_sectors_per_mft_record drive
        scan_records fuel per_record mft_sector drive.reader.total_mft_records 0
            (replicate drive.mft_record_size 0) st
    ]

  -- `log_opened` and `confirmed` are the results of `openLogFile` and `confirmProceedWithoutLogFile`.
  unfoldable pub scan_for_deleted_files : ℕ → Bool → Bool → State → Outcome State
  unfolding scan_mft
  scan_for_deleted_files fuel log_opened confirmed st =
      if not log_opened && not confirmed then err (exited 1) else scan_mft fuel st
