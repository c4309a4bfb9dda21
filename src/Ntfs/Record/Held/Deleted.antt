-- ===== src/Ntfs/Record/Held/Deleted.antt =====
-- A deleted record of the file table, said of its bytes alone, and what `processMftRecord` makes of it.
use data_recovery_tool.Common.{ℕ, ◌^◌, ◌<◌, ◌≡◌, refl, arith, true, false, ◌==◌}
use data_recovery_tool.Common.{List, [], ◌∷◌, length, ok, ◌>>=◌}
use data_recovery_tool.Common.{if◌then◌else◌, Bool-cases, inl, inr, not, ◌&&◌, ◌%◌, ap}
use data_recovery_tool.Ntfs.Structs.{no_info}
use data_recovery_tool.Ntfs.Volume.{Drive, validate_file_info}
use data_recovery_tool.Ntfs.Runs.Encoding.{bytes_of}
use data_recovery_tool.Ntfs.Record.{
  Found, process_mft_record, is_valid_file_record, record_file, State,
}
use data_recovery_tool.Ntfs.Record.Layout.{IsAt, read16-IsAt, read32-IsAt}
use data_recovery_tool.Ntfs.Record.Held.{
  Attribute, name, content, other, Holds, tell, tell_all, nothing_told, process_attribute-Holds,
}

-- A list that says nothing of a file leaves the file as it was.
abbrev Silent : Found → Type 0
Silent found = (not found.has_file_name && not found.has_data) ≡ true → found.info ≡ no_info

tell-Silent :
    (file_id : ℕ) (a : Attribute) (found : Found) → Silent found → Silent (tell file_id a found)
tell-Silent file_id (name o units) found silent = λ h. absurd cc
tell-Silent file_id (content o bytes) found silent = λ h. absurd (ground arith)
tell-Silent file_id (other kind) found silent = silent

tell_all-Silent :
    (file_id : ℕ) (attributes : List Attribute) (found : Found)
    → Silent found
    → Silent (tell_all file_id attributes found)
tell_all-Silent file_id [] found silent = silent
tell_all-Silent file_id (a ∷ attributes) found silent =
    tell_all-Silent file_id attributes (tell file_id a found) (tell-Silent file_id a found silent)

module _ (drive : Drive) where
  record_file-Silent :
      (found : Found) (st : State)
      → Silent found
      → (if not found.has_file_name && not found.has_data then st else record_file drive found st)
        ≡ record_file drive found st
  unfolding record_file validate_file_info
  record_file-Silent found st silent =
      elim (Bool-cases (not found.has_file_name && not found.has_data)) [
        | inr said ↦ rw said refl
        | inl nothing ↦
            let invalid : validate_file_info found.info ≡ false = rw (silent nothing) refl in
            rw (nothing, record_file, invalid) refl
      ]

  module _ (buffer : List ℕ) where
    -- A deleted record: the signature, the flags without that of a record in use, and the
    -- attributes.
    pub record IsDeletedRecord (attributes : List Attribute) : Type 0 where
      pub signed : IsAt buffer 0 (bytes_of 4 0x454C4946)
      pub flags : ℕ
      pub flags_stand : IsAt buffer 22 (bytes_of 2 flags)
      pub flags_small : flags < 65536
      pub unused : (flags % 2 == 0) ≡ true
      pub first : ℕ
      pub first_stands : IsAt buffer 20 (bytes_of 2 first)
      pub first_small : first < 65536
      pub holds : Holds buffer drive.mft_record_size first attributes

    -- A deleted record of less than 2 ^ 32 bytes, each of whose names and contents lies in the
    -- record itself: on more fuel than attributes the record is processed without a failure, and
    -- leaves what `record_file` makes of the last name and the last content among the attributes.
    pub process_mft_record-Holds :
        drive.mft_record_size < 2 ^ 32
        → (attributes : List Attribute) → IsDeletedRecord attributes
        → (fuel : ℕ) (st : State) → length attributes < fuel
        → process_mft_record drive fuel buffer st
          ≡ ok (record_file drive (tell_all st.file_id attributes nothing_told) st)
    unfolding process_mft_record is_valid_file_record
    process_mft_record-Holds small attributes deleted fuel st enough =
        let signature = read32-IsAt buffer 0 0x454C4946 (omega arith) deleted.signed in
        let flags = read16-IsAt buffer 22 deleted.flags deleted.flags_small deleted.flags_stand in
        let first = read16-IsAt buffer 20 deleted.first deleted.first_small deleted.first_stands in
        let attributes_told =
          process_attribute-Holds drive st.file_id buffer small attributes fuel deleted.first
            nothing_told enough deleted.holds in
        let silent = tell_all-Silent st.file_id attributes nothing_told (λ h. refl) in
        rw (signature, ◌>>=◌, flags, ◌>>=◌, deleted.unused, first, ◌>>=◌, attributes_told, ◌>>=◌)
          (ap ok (record_file-Silent (tell_all st.file_id attributes nothing_told) st silent))
