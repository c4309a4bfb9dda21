-- ===== src/Fat32/Scan/Invariant.antt =====
-- What the search leaves in the list of the files to recover.
use data_recovery_tool.Common.{ℕ, zero, suc, ◌≡◌, refl, sym, ap, ◌∙◌, Bool, true}
use data_recovery_tool.Common.{false, ◌||◌, not, ◌&&◌, [], ◌∷◌, ◌++◌, map, All, All-append}
use data_recovery_tool.Common.{
  inl, inr, Ends-anyhow, Bool-cases, ok, Failure, Ends, Ends-bind, Ends-ok,
}
use data_recovery_tool.Common.{IsNumbered, IsNumbered-append, map-append_one}
use data_recovery_tool.Config.{Config}
use data_recovery_tool.Fat32.Structs.{FileInfo}
use data_recovery_tool.Fat32.Volume.{Drive, is_valid_cluster, get_next_cluster, cluster_to_sector}
use data_recovery_tool.Fat32.Names.{parse_file_info}
use data_recovery_tool.Fat32.Names.Parse.{IsCounted, parse_file_info-Ends}
use data_recovery_tool.Utils.Log.{LogLine}
use data_recovery_tool.Fat32.Scan.{State, record_file, add_to_recovery_list}
use data_recovery_tool.Fat32.Scan.{scan_sectors, scan_directory, scan_for_deleted_files}
use data_recovery_tool.Fat32.Scan.Induction.{RecordsWell, scan_sectors-Ends}

abbrev Anyhow : Failure → Type 0
Anyhow e = Unit

module _ (drive : Drive) (config : Config) (iswalnum : ℕ → Bool) (P : State → Type 0) where
  -- A property that the recording of a file keeps is kept by the search.
  pub scan_directory-Ends :
      RecordsWell drive config iswalnum P Anyhow (λ c. Unit)
      → (fuel cluster : ℕ) (st : State) → P st
      → Ends P Anyhow (scan_directory drive config iswalnum fuel cluster st)
  unfolding scan_directory
  scan_directory-Ends records zero cluster st p = tt
  scan_directory-Ends records (suc fuel) cluster st p =
      elim (Bool-cases (is_valid_cluster drive cluster)) [
        | inr invalid ↦ rw (invalid, Ends) p
        | inl valid ↦
            rw (valid, Ends)
              (Ends-bind P P Anyhow
                (scan_sectors drive config iswalnum (scan_directory drive config iswalnum fuel)
                  drive.sectors_per_cluster (cluster_to_sector drive cluster) st)
                _
                (scan_sectors-Ends drive config iswalnum P Anyhow (λ c. Unit) records
                  (scan_directory drive config iswalnum fuel)
                  (λ c st' _ p'. scan_directory-Ends records fuel c st' p')
                  drive.sectors_per_cluster (cluster_to_sector drive cluster) st
                  (λ s buffer _ _ _ k _ _ _. tt) p)
                (λ st' p'.
                  Ends-bind (λ _. Unit {0}) P Anyhow (get_next_cluster drive cluster) _
                    (Ends-anyhow (get_next_cluster drive cluster))
                    (λ next _. elim (Bool-cases (is_valid_cluster drive next)) [
                      | inr last ↦ rw (last, Ends) p'
                      | inl more ↦ rw (more, Ends) (scan_directory-Ends records fuel next st' p')
                    ])))
      ]

abbrev pub file_id_of : FileInfo → ℕ
file_id_of file = file.file_id

abbrev pub line_of : FileInfo → LogLine
line_of info = record {
  file_id = info.file_id;
  file_name = info.file_name;
  file_size = info.file_size;
}

-- The ids in the list count from 1 and the counter comes next, the files start at valid clusters,
-- and the log has the same files.
module _ (drive : Drive) where
  pub record IsConsistent (st : State) : Type 0 where
    pub numbered : IsNumbered file_id_of 1 st.recovery_list st.file_id
    pub valid :
        All (λ (file : FileInfo). is_valid_cluster drive file.cluster ≡ true) st.recovery_list
    pub reported : st.reported ≡ map line_of st.recovery_list

  record_file-IsConsistent :
      (config : Config) (iswalnum : ℕ → Bool)
      → (config.recover || config.analyze) ≡ true
      → RecordsWell drive config iswalnum IsConsistent Anyhow (λ c. Unit)
  unfolding record_file add_to_recovery_list
  record_file-IsConsistent config iswalnum wanted entry filename cluster st good c =
      Ends-bind (IsCounted iswalnum drive st.file_id filename cluster entry.file_size) IsConsistent
        Anyhow (parse_file_info iswalnum drive st.file_id filename cluster entry.file_size) _
        (parse_file_info-Ends iswalnum drive st.file_id filename cluster entry.file_size)
        (λ (info, next_id) (parsed, e). rw wanted (record {
          numbered = rw e (
              IsNumbered-append file_id_of 1 st.file_id st.recovery_list info c.numbered
                parsed.same_id);
          valid =
              All-append (λ (file : FileInfo). is_valid_cluster drive file.cluster ≡ true)
                st.recovery_list (info ∷ []) c.valid (rw parsed.same_cluster good, tt);
          reported =
              ap (λ t. t ++ line_of info ∷ []) c.reported
              ∙ sym (map-append_one line_of st.recovery_list info);
        }))

abbrev pub at_start : State
at_start = record { file_id = 1; recovery_list = []; reported = [] }

module _ (drive : Drive) (config : Config) (iswalnum : ℕ → Bool) where
  -- With recovery or analysis asked for, a search that returns leaves a list whose ids count from 1
  -- in 16 bits, with the counter of the object as the next; every file in it starts at a valid
  -- cluster; and the files reported are exactly those of the list, in its order.
  pub scan_for_deleted_files-IsConsistent :
      (fuel : ℕ) (log_opened confirmed : Bool) (st : State)
      → (config.recover || config.analyze) ≡ true
      → scan_for_deleted_files drive config iswalnum fuel log_opened confirmed at_start ≡ ok st
      → IsConsistent drive st
  unfolding scan_for_deleted_files
  scan_for_deleted_files-IsConsistent fuel log_opened confirmed st wanted returns =
      Ends-ok (IsConsistent drive)
        (scan_for_deleted_files drive config iswalnum fuel log_opened confirmed at_start)
        (elim (Bool-cases (not log_opened && not confirmed)) [
          | inl leaves ↦ rw (leaves, Ends) tt
          | inr goes ↦
              rw (goes, Ends)
                (scan_directory-Ends drive config iswalnum (IsConsistent drive)
                  (record_file-IsConsistent drive config iswalnum wanted) fuel
                  drive.root_dir_cluster at_start
                  (record { numbered = refl; valid = tt; reported = refl }))
        ])
        returns

  record_file-keeps_empty :
      (config.recover || config.analyze) ≡ false
      → RecordsWell drive config iswalnum (λ st. st.recovery_list ≡ []) Anyhow (λ c. Unit)
  unfolding record_file add_to_recovery_list
  record_file-keeps_empty unwanted entry filename cluster st good none_yet =
      Ends-bind (λ _. Unit {0}) (λ (st : State). st.recovery_list ≡ []) Anyhow
        (parse_file_info iswalnum drive st.file_id filename cluster entry.file_size) _
        (Ends-anyhow (parse_file_info iswalnum drive st.file_id filename cluster entry.file_size))
        (λ (info, next_id) _. rw unwanted none_yet)

  -- With neither recovery nor analysis asked for, a search that returns leaves the list empty.
  pub scan_for_deleted_files_empty :
      (fuel : ℕ) (log_opened confirmed : Bool) (st : State)
      → (config.recover || config.analyze) ≡ false
      → scan_for_deleted_files drive config iswalnum fuel log_opened confirmed at_start ≡ ok st
      → st.recovery_list ≡ []
  unfolding scan_for_deleted_files
  scan_for_deleted_files_empty fuel log_opened confirmed st unwanted returns =
      Ends-ok (λ (st : State). st.recovery_list ≡ [])
        (scan_for_deleted_files drive config iswalnum fuel log_opened confirmed at_start)
        (elim (Bool-cases (not log_opened && not confirmed)) [
          | inl leaves ↦ rw (leaves, Ends) tt
          | inr goes ↦
              rw (goes, Ends)
                (scan_directory-Ends drive config iswalnum (λ (st : State). st.recovery_list ≡ [])
                  (record_file-keeps_empty unwanted) fuel drive.root_dir_cluster at_start refl)
        ])
        returns
