-- ===== src/ExFat/Scan/Invariant.antt =====
-- What the search of an exFAT volume leaves in the list of the files to recover.
use data_recovery_tool.Common.{
  ℕ, zero, suc, ◌+◌, ◌*◌, ◌/◌, ◌≡◌, refl, sym, ap, ◌∙◌, inl, inr, arith,
}
use data_recovery_tool.Common.{
  true, false, Bool, List, [], ◌∷◌, ◌++◌, map, All, All-append, ◌==◌, ◌&&◌, not,
}
use data_recovery_tool.Common.{Outcome, ok, Bool-cases, Option-cases, Ends, Ends-bind, Ends-anyhow}
use data_recovery_tool.Common.{
  Ends-ok, IsNumbered, IsNumbered-append, map-append_one, length, ltb, leb,
}
use data_recovery_tool.Common.{◌||◌, Failure, mul64}
use data_recovery_tool.Config.{Config}
use data_recovery_tool.Utils.Log.{LogLine}
use data_recovery_tool.ExFat.Structs.{FileInfo, DirEntryData, no_data, common_entry_at}
use data_recovery_tool.ExFat.Structs.{sizeof_directory_entry}
use data_recovery_tool.ExFat.Volume.{Drive, is_valid_cluster, is_valid_deleted_entry}
use data_recovery_tool.ExFat.Volume.{cluster_to_sector, get_next_cluster}
use data_recovery_tool.ExFat.Scan.{State, is_complete, record_file, add_to_recovery_list}
use data_recovery_tool.ExFat.Scan.{parse_file_info, finalize_directory_entry, process_entries}
use data_recovery_tool.ExFat.Scan.{process_directory_entry, process_entries_in_sector, scan_sectors}
use data_recovery_tool.ExFat.Scan.{scan_directory, scan_for_deleted_files, is_directory_entry}
use data_recovery_tool.ExFat.Scan.{max_recursion_depth}

abbrev Anyhow : Failure → Type 0
Anyhow e = Unit

abbrev pub file_id_of : FileInfo → ℕ
file_id_of info = info.file_id

abbrev pub line_of : FileInfo → LogLine
line_of info = record {
  file_id = info.file_id;
  file_name = info.file_name;
  file_size = info.file_size;
}

abbrev pub at_start : State
at_start = record { file_id = 1; recovery_list = []; reported = [] }

module _ (drive : Drive) where
  -- The file has a name, and passes the test of `isValidDeletedEntry`.
  abbrev pub IsRecoverable : FileInfo → Type 0
  IsRecoverable info =
      ((length info.file_name == 0) ≡ false)
      × (is_valid_deleted_entry drive info.cluster info.file_size ≡ true)

  -- The ids in the list count from 1 and the counter comes next, every file can be recovered, and
  -- the log has the same files.
  pub record IsOrdered (st : State) : Type 0 where
    pub numbered : IsNumbered file_id_of 1 st.recovery_list st.file_id
    pub recoverable : All IsRecoverable st.recovery_list
    pub reported : st.reported ≡ map line_of st.recovery_list

  complete-IsRecoverable :
      (dir : DirEntryData)
      → is_complete drive dir ≡ true
      → ((length dir.long_filename == 0) ≡ false)
        × (is_valid_deleted_entry drive dir.starting_cluster dir.file_size ≡ true)
  unfolding is_complete
  complete-IsRecoverable dir complete = (ground arith, ground arith)

  module _ (config : Config) (wanted : (config.recover || config.analyze) ≡ true) where
    record_file-IsOrdered :
        (dir : DirEntryData) (st : State)
        → is_complete drive dir ≡ true
        → IsOrdered st
        → IsOrdered (record_file drive config dir st)
    unfolding record_file add_to_recovery_list parse_file_info
    record_file-IsOrdered dir st complete c =
        let info = (parse_file_info st.file_id dir).0 in
        rw wanted (record {
          numbered =
              IsNumbered-append file_id_of 1 st.file_id st.recovery_list info c.numbered refl;
          recoverable =
              All-append IsRecoverable st.recovery_list (info ∷ []) c.recoverable
                (complete-IsRecoverable dir complete, tt);
          reported =
              ap (λ t. t ++ line_of info ∷ []) c.reported
              ∙ sym (map-append_one line_of st.recovery_list info);
        })

    module _ (scan : ℕ → State → Outcome State)
        (scans : (c : ℕ) (st : State) → IsOrdered st → Ends IsOrdered Anyhow (scan c st)) where
      finalize-IsOrdered :
          (dir : DirEntryData) (st : State)
          → IsOrdered st
          → Ends IsOrdered Anyhow (finalize_directory_entry drive config scan dir st)
      unfolding finalize_directory_entry
      finalize-IsOrdered dir st c = elim (Bool-cases (is_complete drive dir)) [
        | inr partial ↦ rw (partial, Ends) c
        | inl complete ↦ elim (Bool-cases dir.is_directory) [
          | inl directory ↦
              rw (complete, finalize_directory_entry, directory, Ends)
                (scans dir.starting_cluster st c)
          | inr file ↦ elim (Bool-cases dir.is_deleted) [
            | inl deleted ↦
                rw (complete, finalize_directory_entry, file, deleted, Ends)
                  (record_file-IsOrdered dir st complete c)
            | inr in_use ↦ rw (complete, finalize_directory_entry, file, in_use, Ends) c
          ]
        ]
      ]

      last-IsOrdered :
          (left j : ℕ) (buffer : List ℕ) (dir : DirEntryData) (st : State)
          → IsOrdered st
          → Ends IsOrdered Anyhow (process_entries drive config scan left j buffer dir st)
      unfolding process_entries
      last-IsOrdered zero j buffer dir st c = elim (Bool-cases dir.in_file_entry) [
        | inr nothing ↦ rw (nothing, Ends) c
        | inl pending ↦ rw (pending, Ends) (finalize-IsOrdered dir st c)
      ]
      last-IsOrdered (suc left) j buffer dir st c =
          let i = j * sizeof_directory_entry in
          let begins =
            is_directory_entry (common_entry_at buffer i).entry_type && dir.in_file_entry in
          elim (Bool-cases (ltb (length buffer) ((j + 1) * sizeof_directory_entry))) [
            | inl outside ↦ elim (Bool-cases dir.in_file_entry) [
              | inr nothing ↦ rw (outside, process_entries, nothing, Ends) c
              | inl pending ↦
                  rw (outside, process_entries, pending, Ends) (finalize-IsOrdered dir st c)
            ]
            | inr inside ↦ elim (Bool-cases begins) [
              | inr goes_on ↦
                  rw (inside, process_entries, goes_on, Ends)
                    (last-IsOrdered left (j + 1) buffer (process_directory_entry buffer i dir) st c)
              | inl next ↦
                  rw (inside, process_entries, next, Ends)
                    (Ends-bind IsOrdered IsOrdered Anyhow
                      (finalize_directory_entry drive config scan dir st) _
                      (finalize-IsOrdered dir st c)
                      (λ st' c'.
                        last-IsOrdered left (j + 1) buffer
                          (process_directory_entry buffer i no_data) st' c'))
            ]
          ]

      scan_sectors-IsOrdered :
          (left sector : ℕ) (st : State)
          → IsOrdered st
          → Ends IsOrdered Anyhow (scan_sectors drive config scan left sector st)
      unfolding scan_sectors process_entries_in_sector
      scan_sectors-IsOrdered zero sector st c = c
      scan_sectors-IsOrdered (suc left) sector st c =
          let bound = mul64 drive.boot_sector.cluster_count drive.sectors_per_cluster in
          let entries = drive.bytes_per_sector / sizeof_directory_entry in
          elim (Bool-cases (leb bound sector)) [
            | inl outside ↦
                rw (outside, scan_sectors, Ends) (scan_sectors-IsOrdered left (sector + 1) st c)
            | inr inside ↦
                elim (Option-cases (drive.reader.read_sector sector drive.bytes_per_sector)) [
                  | inl fails ↦
                      rw (inside, scan_sectors, fails, Ends)
                        (scan_sectors-IsOrdered left (sector + 1) st c)
                  | inr (buffer, reads) ↦
                      rw (inside, scan_sectors, reads, Ends)
                        (Ends-bind IsOrdered IsOrdered Anyhow
                          (process_entries drive config scan entries 0 buffer no_data st) _
                          (last-IsOrdered entries 0 buffer no_data st c)
                          (λ st' c'. scan_sectors-IsOrdered left (sector + 1) st' c'))
                ]
          ]

    scan_directory-IsOrdered :
        (fuel cluster depth : ℕ) (st : State)
        → IsOrdered st
        → Ends IsOrdered Anyhow (scan_directory drive config fuel cluster depth st)
    unfolding scan_directory
    scan_directory-IsOrdered zero cluster depth st c = tt
    scan_directory-IsOrdered (suc fuel) cluster depth st c =
        let scan = λ (d : ℕ). scan_directory drive config fuel d 1 in
        let sector = cluster_to_sector drive cluster in
        elim (Bool-cases (leb max_recursion_depth depth || not (is_valid_cluster drive cluster))) [
          | inl stops ↦ rw (stops, Ends) c
          | inr goes_on ↦
              rw (goes_on, Ends)
                (Ends-bind IsOrdered IsOrdered Anyhow
                  (scan_sectors drive config scan drive.sectors_per_cluster sector st) _
                  (scan_sectors-IsOrdered scan
                    (λ d st' c'. scan_directory-IsOrdered fuel d 1 st' c') drive.sectors_per_cluster
                    sector st c)
                  (λ st' c'.
                    Ends-bind (λ n. Unit {0}) IsOrdered Anyhow (get_next_cluster drive cluster) _
                      (Ends-anyhow (get_next_cluster drive cluster))
                      (λ next h.
                        elim (Bool-cases (is_valid_cluster drive next && not (next == cluster))) [
                          | inr last ↦ rw (last, Ends) c'
                          | inl more ↦
                              rw (more, Ends)
                                (scan_directory-IsOrdered fuel next (depth + 1) st' c')
                        ])))
        ]

    -- With recovery or analysis asked for, a search that returns leaves a list whose ids count from 1
    -- in 16 bits, with the counter of the object as the next; every file in it has a name, and a size
    -- and a first cluster that the volume can hold; and the files reported are exactly those of the
    -- list, in its order.
    pub scan_for_deleted_files-IsOrdered :
        (fuel : ℕ) (log_opened confirmed : Bool) (st : State)
        → scan_for_deleted_files drive config fuel log_opened confirmed at_start ≡ ok st
        → IsOrdered st
    unfolding scan_for_deleted_files
    scan_for_deleted_files-IsOrdered fuel log_opened confirmed st returns =
        Ends-ok IsOrdered (scan_for_deleted_files drive config fuel log_opened confirmed at_start)
          (elim (Bool-cases (not log_opened && not confirmed)) [
            | inl leaves ↦ rw (leaves, Ends) tt
            | inr goes ↦
                rw (goes, Ends)
                  (scan_directory-IsOrdered fuel drive.boot_sector.root_directory_cluster 0 at_start
                    (record { numbered = refl; recoverable = tt; reported = refl }))
          ])
          returns
