-- ===== src/Ntfs/Record/Listing.antt =====
-- The deleted records of the file table whose content lies in the record itself, in the list that the
-- search leaves.
use data_recovery_tool.Common.{
  ℕ, ◌*◌, ◌%◌, ◌^◌, ◌<◌, ◌≡◌, ◌∙◌, refl, sym, inl, inr, true, false, ◌==◌, ◌&&◌, not, List, [], ◌∷◌,
  length, Bool-cases, if-holds,
}
use data_recovery_tool.Common.{Some, Some-append_left, Some-append_right}
use data_recovery_tool.Common.{ok, Ends, Ends-bind, Ends-anyhow, Ends-ok}
use data_recovery_tool.Device.{IsExact}
use data_recovery_tool.Ntfs.Structs.{FileInfo, no_info, read16, flags_at, first_attribute_offset_at}
use data_recovery_tool.Ntfs.Volume.{Drive, validate_file_info, cluster_to_sector, is_valid_sector}
use data_recovery_tool.Ntfs.Record.{
  State, Found, is_valid_file_record, process_attribute, record_file, add_to_recovery_list,
  process_mft_record, scan_mft,
}
use data_recovery_tool.Ntfs.Record.Attributes.{Any}
use data_recovery_tool.Ntfs.Record.Named.{Anyhow}
use data_recovery_tool.Ntfs.Record.Whole.{
  records_from, process_records, scan_mft-eq-process_records,
}
use data_recovery_tool.Ntfs.Record.Held.{Attribute, tell_all, nothing_told}
use data_recovery_tool.Ntfs.Record.Held.Deleted.{IsDeletedRecord, process_mft_record-Holds}

module _ (drive : Drive) where
  -- A record either leaves the state or adds what `record_file` makes of it.
  process_mft_record-Ends :
      (P : State → Type 0) (fuel : ℕ) (buffer : List ℕ) (st : State)
      → P st
      → ((found : Found) → P (record_file drive found st))
      → Ends P Anyhow (process_mft_record drive fuel buffer st)
  unfolding process_mft_record
  process_mft_record-Ends P fuel buffer st same more =
      let signature = is_valid_file_record buffer in
      let flags_read = read16 buffer flags_at in
      let first_read = read16 buffer first_attribute_offset_at in
      Ends-bind Any P Anyhow signature _ (Ends-anyhow signature) (λ valid h.
        elim (Bool-cases valid) [
          | inr invalid ↦ rw (invalid, Ends) same
          | inl signed ↦
              rw (signed, Ends)
                (Ends-bind Any P Anyhow flags_read _ (Ends-anyhow flags_read) (λ flags h'.
                  elim (Bool-cases (flags % 2 == 0)) [
                    | inr in_use ↦ rw (in_use, Ends) same
                    | inl deleted ↦
                        rw (deleted, Ends)
                          (Ends-bind Any P Anyhow first_read _ (Ends-anyhow first_read) (λ at h''.
                            let attributes =
                              process_attribute drive fuel st.file_id buffer at (record {
                                info = no_info;
                                has_file_name = false;
                                has_data = false;
                              }) in
                            Ends-bind Any P Anyhow attributes _ (Ends-anyhow attributes)
                              (λ found h'''.
                                if-holds P (not found.has_file_name && not found.has_data)
                                  (λ neither. same) (λ either. more found))))
                  ]))
        ])

  module _ (P : FileInfo → Type 0) where
    abbrev Lists : State → Type 0
    Lists st = Some P st.recovery_list

    record_file-Lists : (found : Found) (st : State) → Lists st → Lists (record_file drive found st)
    unfolding record_file add_to_recovery_list
    record_file-Lists found st lists =
        if-holds Lists (validate_file_info found.info)
          (λ valid. Some-append_left P st.recovery_list (found.info ∷ []) lists) (λ invalid. lists)

    process_records-Lists :
        (fuel : ℕ) (buffers : List (List ℕ)) (st : State)
        → Lists st
        → Ends Lists Anyhow (process_records drive fuel buffers st)
    unfolding process_records
    process_records-Lists fuel [] st lists = lists
    process_records-Lists fuel (buffer ∷ buffers) st lists =
        Ends-bind Lists Lists Anyhow (process_mft_record drive fuel buffer st) _
          (process_mft_record-Ends Lists fuel buffer st lists
            (λ found. record_file-Lists found st lists))
          (λ st' lists'. process_records-Lists fuel buffers st' lists')

  module _ (fuel : ℕ) (attributes : List Attribute) (small : drive.mft_record_size < 2 ^ 32)
      (enough : length attributes < fuel)
      (valid : (file_id : ℕ)
        → validate_file_info (tell_all file_id attributes nothing_told).info ≡ true) where
    -- The file that the attributes tell of, under some id.
    abbrev pub IsTold : FileInfo → Type 0
    IsTold info = (file_id : ℕ) × (info ≡ (tell_all file_id attributes nothing_told).info)

    record_file-IsTold :
        (st : State)
        → Lists IsTold (record_file drive (tell_all st.file_id attributes nothing_told) st)
    unfolding record_file add_to_recovery_list
    record_file-IsTold st =
        let info = (tell_all st.file_id attributes nothing_told).info in
        rw (valid st.file_id)
          (Some-append_right IsTold st.recovery_list (info ∷ []) (inl (st.file_id, refl)))

    process_records-IsTold :
        (buffers : List (List ℕ)) (st : State)
        → Some (λ buffer. IsDeletedRecord drive buffer attributes) buffers
        → Ends (Lists IsTold) Anyhow (process_records drive fuel buffers st)
    unfolding process_records
    process_records-IsTold [] st held = absurd held
    process_records-IsTold (buffer ∷ buffers) st (inl here) =
        rw (process_mft_record-Holds drive buffer small attributes here fuel st enough)
          (process_records-Lists IsTold fuel buffers _ (record_file-IsTold st))
    process_records-IsTold (buffer ∷ buffers) st (inr later) =
        let first = process_mft_record drive fuel buffer st in
        Ends-bind Any (Lists IsTold) Anyhow first _ (Ends-anyhow first)
          (λ st' h. process_records-IsTold buffers st' later)

    -- If one of the records that can be read as a whole is a deleted record of some attributes, whose
    -- names and contents lie in the record itself and tell of a file that passes
    -- `validateFileInfo`, then a search of the table that returns, on more fuel than the record has
    -- attributes, lists this file: under the last name, with the last content. The reads that succeed
    -- fill their buffers, the records are a whole number of sectors and below 2 ^ 32 bytes, and the
    -- table starts inside the volume.
    pub scan_mft-IsTold :
        (exact : IsExact drive.reader) (per_record : ℕ)
        → 0 < drive.boot_sector.bytes_per_sector
        → drive.mft_record_size ≡ per_record * drive.boot_sector.bytes_per_sector
        → is_valid_sector drive (cluster_to_sector drive drive.boot_sector.mft_cluster) ≡ true
        → Some
            (λ buffer. IsDeletedRecord drive buffer attributes)
            (records_from drive per_record
              (cluster_to_sector drive drive.boot_sector.mft_cluster)
              drive.reader.total_mft_records
              0)
        → (st st' : State) → scan_mft drive fuel st ≡ ok st'
        → Some IsTold st'.recovery_list
    scan_mft-IsTold exact per_record some_bytes whole inside held st st' returns =
        let buffers =
          records_from drive per_record (cluster_to_sector drive drive.boot_sector.mft_cluster)
            drive.reader.total_mft_records 0 in
        Ends-ok (Lists IsTold) (process_records drive fuel buffers st)
          (process_records-IsTold buffers st held)
          (sym (scan_mft-eq-process_records drive exact fuel per_record st some_bytes whole inside)
            ∙ returns)
