-- ===== src/Ntfs/Record/Invariant.antt =====
-- What the search of the file table leaves in the list of the files to recover.
use data_recovery_tool.Common.{
  ℕ, zero, suc, ◌+◌, ◌*◌, ◌%◌, ◌≡◌, refl, sym, ap, ◌∙◌, inl, inr, arith,
}
use data_recovery_tool.Common.{
  true, false, Bool, List, [], ◌∷◌, ◌++◌, map, All, All-append, ◌==◌, ◌&&◌, not,
}
use data_recovery_tool.Common.{ok, Bool-cases, Ends, Ends-bind, Ends-anyhow, Ends-ok}
use data_recovery_tool.Common.{IsNumbered, IsNumbered-append, map-append_one, length, replicate}
use data_recovery_tool.Utils.Log.{LogLine}
use data_recovery_tool.Ntfs.Structs.{FileInfo, no_info, read16, flags_at, first_attribute_offset_at}
use data_recovery_tool.Ntfs.Volume.{Drive, validate_file_info, cluster_to_sector, is_valid_sector}
use data_recovery_tool.Ntfs.Volume.{get_sectors_per_mft_record}
use data_recovery_tool.Ntfs.Record.{
  State, Found, is_valid_file_record, process_attribute, record_file,
}
use data_recovery_tool.Ntfs.Record.{process_mft_record, read_mft_record, scan_records, scan_mft}
use data_recovery_tool.Ntfs.Record.{add_to_recovery_list, scan_for_deleted_files}
use data_recovery_tool.Ntfs.Record.Attributes.{Any}
use data_recovery_tool.Ntfs.Record.Named.{Anyhow, IsNamed, Names, process_attribute-Names}

abbrev pub file_id_of : FileInfo → ℕ
file_id_of info = info.file_id

abbrev pub line_of : FileInfo → LogLine
line_of info = record {
  file_id = info.file_id;
  file_name = info.file_name;
  file_size = info.file_size;
}

-- The ids in the list count from 1 and the counter comes next, every file passes the test of
-- `validateFileInfo`, and the log has the same files.
pub record IsSound (st : State) : Type 0 where
  pub numbered : IsNumbered file_id_of 1 st.recovery_list st.file_id
  pub valid : All (λ (info : FileInfo). validate_file_info info ≡ true) st.recovery_list
  pub reported : st.reported ≡ map line_of st.recovery_list

abbrev pub at_start : State
at_start = record { file_id = 1; recovery_list = []; reported = [] }

nameless-invalid : (info : FileInfo) → length info.file_name ≡ 0 → validate_file_info info ≡ false
unfolding validate_file_info
nameless-invalid info h = ground arith

id_of_valid :
    (file_id : ℕ) (info : FileInfo)
    → IsNamed file_id info
    → validate_file_info info ≡ true
    → info.file_id ≡ file_id
id_of_valid file_id info (inr same) valid = same
id_of_valid file_id info (inl nameless) valid =
    let invalid = nameless-invalid info nameless in absurd cc

module _ (drive : Drive) where
  record_file-IsSound :
      (found : Found) (st : State)
      → Names st.file_id drive [] found
      → IsSound st
      → IsSound (record_file drive found st)
  unfolding record_file add_to_recovery_list
  record_file-IsSound found st named c = elim (Bool-cases (validate_file_info found.info)) [
    | inr invalid ↦ rw (invalid, record_file) c
    | inl valid ↦
        rw (valid, record_file)
          (record {
            numbered =
                IsNumbered-append file_id_of 1 st.file_id st.recovery_list found.info c.numbered
                  (id_of_valid st.file_id found.info named valid);
            valid =
                All-append (λ (info : FileInfo). validate_file_info info ≡ true) st.recovery_list
                  (found.info ∷ []) c.valid (valid, tt);
            reported =
                ap (λ t. t ++ line_of found.info ∷ []) c.reported
                ∙ sym (map-append_one line_of st.recovery_list found.info);
          })
  ]

  process_mft_record-IsSound :
      (fuel : ℕ) (buffer : List ℕ) (st : State)
      → IsSound st
      → Ends IsSound Anyhow (process_mft_record drive fuel buffer st)
  unfolding process_mft_record
  process_mft_record-IsSound fuel buffer st c =
      Ends-bind Any IsSound Anyhow (is_valid_file_record buffer) _
        (Ends-anyhow (is_valid_file_record buffer))
        (λ valid h. elim (Bool-cases valid) [
          | inr invalid ↦ rw (invalid, Ends) c
          | inl signed ↦
              rw (signed, Ends)
                (Ends-bind Any IsSound Anyhow (read16 buffer flags_at) _
                  (Ends-anyhow (read16 buffer flags_at))
                  (λ flags h'. elim (Bool-cases (flags % 2 == 0)) [
                    | inr in_use ↦ rw (in_use, Ends) c
                    | inl deleted ↦
                        rw (deleted, Ends)
                          (Ends-bind Any IsSound Anyhow (read16 buffer first_attribute_offset_at) _
                            (Ends-anyhow (read16 buffer first_attribute_offset_at))
                            (λ at h''.
                              Ends-bind (Names st.file_id drive buffer) IsSound Anyhow
                                (process_attribute drive fuel st.file_id buffer at (record {
                                  info = no_info;
                                  has_file_name = false;
                                  has_data = false;
                                }))
                                _
                                (process_attribute-Names st.file_id drive buffer fuel at _
                                  (inl refl))
                                (λ found named.
                                  elim (Bool-cases
                                    (not found.has_file_name && not found.has_data)) [
                                      | inl neither ↦ rw neither c
                                      | inr either ↦
                                          rw either (record_file-IsSound found st named c)
                                    ])))
                  ]))
        ])

  scan_records-IsSound :
      (fuel per_record mft_sector left index : ℕ) (buffer : List ℕ) (st : State)
      → IsSound st
      → Ends IsSound Anyhow (scan_records drive fuel per_record mft_sector left index buffer st)
  unfolding scan_records
  scan_records-IsSound fuel per_record mft_sector zero index buffer st c = c
  scan_records-IsSound fuel per_record mft_sector (suc left) index buffer st c =
      let reads = read_mft_record drive per_record 0 (mft_sector + index * per_record) buffer in
      Ends-bind Any IsSound Anyhow reads _ (Ends-anyhow reads) (λ (complete, buffer') h.
        elim (Bool-cases complete) [
          | inr failed ↦
              rw (failed, Ends)
                (scan_records-IsSound fuel per_record mft_sector left (index + 1) buffer' st c)
          | inl whole ↦
              rw (whole, Ends)
                (Ends-bind IsSound IsSound Anyhow (process_mft_record drive fuel buffer' st) _
                  (process_mft_record-IsSound fuel buffer' st c)
                  (λ st' c'.
                    scan_records-IsSound fuel per_record mft_sector left (index + 1) buffer' st'
                      c'))
        ])

  scan_mft-IsSound : (fuel : ℕ) → Ends IsSound Anyhow (scan_mft drive fuel at_start)
  unfolding scan_mft
  scan_mft-IsSound fuel =
      let mft_sector = cluster_to_sector drive drive.boot_sector.mft_cluster in
      elim (Bool-cases (is_valid_sector drive mft_sector)) [
        | inr outside ↦ rw (outside, Ends) (record { numbered = refl; valid = tt; reported = refl })
        | inl inside ↦
            rw (inside, Ends)
              (Ends-bind Any IsSound Anyhow (get_sectors_per_mft_record drive) _
                (Ends-anyhow (get_sectors_per_mft_record drive))
                (λ per_record h.
                  scan_records-IsSound fuel per_record mft_sector drive.reader.total_mft_records 0
                    (replicate drive.mft_record_size 0) at_start
                    (record { numbered = refl; valid = tt; reported = refl })))
      ]

  -- A search that returns leaves a list whose ids count from 1 in 16 bits, with the counter of the
  -- object as the next; every file in it has a name, a size, and a data run or content of its own;
  -- and the files reported are exactly those of the list, in its order.
  pub scan_for_deleted_files-IsSound :
      (fuel : ℕ) (log_opened confirmed : Bool) (st : State)
      → scan_for_deleted_files drive fuel log_opened confirmed at_start ≡ ok st
      → IsSound st
  unfolding scan_for_deleted_files
  scan_for_deleted_files-IsSound fuel log_opened confirmed st returns =
      Ends-ok IsSound (scan_for_deleted_files drive fuel log_opened confirmed at_start)
        (elim (Bool-cases (not log_opened && not confirmed)) [
          | inl leaves ↦ rw (leaves, Ends) tt
          | inr goes ↦ rw (goes, Ends) (scan_mft-IsSound fuel)
        ])
        returns
