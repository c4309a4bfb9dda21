-- ===== src/Fat32/Run/Recovered.antt =====
-- The whole way of a deleted file of a FAT32 volume: from its entry in a directory that the search
-- gets to, through the list and the menu, to the file written.
use data_recovery_tool.Common.{
  ℕ, ◌≡◌, inl, inr, refl, ◌∙◌, true, false, Bool, ◌||◌, ◌&&◌, not, List, [], ◌∷◌,
}
use data_recovery_tool.Common.{◌==◌, Some, Some-append_left, Some-append_right}
use data_recovery_tool.Common.{ok, Ends, Ends-bind, Ends-anyhow, Ends-ok, Bool-cases, if-holds}
use data_recovery_tool.Common.{Outcome-cases, arith}
use data_recovery_tool.Device.{IsExact}
use data_recovery_tool.Config.{Config, logical_type}
use data_recovery_tool.Select.{select_files_to_recover}
use data_recovery_tool.Utils.{get_output_path}
use data_recovery_tool.Session.{
  Tracker, Host, Answers, OutputFile, Processed, new_tracker, exists, is_skipped, IsApart,
  left_in_folder, left_in_folder-IsApart,
}
use data_recovery_tool.Fat32.Structs.{DirectoryEntry, FileInfo}
use data_recovery_tool.Fat32.Volume.{Drive}
use data_recovery_tool.Fat32.Scan.{scan_for_deleted_files}
use data_recovery_tool.Fat32.Scan.Reached.{
  Place, entry_at, target, IsDeletedFile, Reaches, IsFileOf,
}
use data_recovery_tool.Fat32.Scan.Visits.{Anyhow}
use data_recovery_tool.Fat32.Scan.Found.Complete.{Lists, scan_directory-Lists}
use data_recovery_tool.Fat32.Recover.{process_file_for_recovery, process_files, recover_partition}
use data_recovery_tool.Fat32.Recover.Contiguous.{
  IsIntact, content_of, process_file_for_recovery-contiguous, process_file_for_recovery-refused,
}
use data_recovery_tool.Fat32.Run.{new_state, run_logical_drive_recovery, start_recovery}

module _ (iswalnum : ℕ → Bool) (drive : Drive) (config : Config) (host : Host)
    (exact : IsExact drive.reader) (recovers : config.recover ≡ true)
    (plain : config.analyze ≡ false) (no_cluster : config.target_cluster ≡ 0)
    (no_size : config.target_file_size ≡ 0) where
  module _ (cluster size n : ℕ) (intact : IsIntact drive cluster size n) where
    -- One of the files written has the content.
    abbrev Has : Processed → Type 0
    Has processed =
        Some (λ (out : OutputFile). out.content ≡ content_of drive cluster size n) processed.writes

    process_file_for_recovery-Has :
        (info : FileInfo) (tracker : Tracker)
        → info.cluster ≡ cluster
        → info.file_size ≡ size
        → Ends Has Anyhow (process_file_for_recovery drive config host info tracker)
    unfolding process_file_for_recovery is_skipped
    process_file_for_recovery-Has info tracker at_cluster at_size =
        let whole : IsIntact drive info.cluster info.file_size n =
          rw (at_cluster, at_size) intact in
        let same : content_of drive info.cluster info.file_size n
            ≡ content_of drive cluster size n =
          rw (at_cluster, at_size) refl in
        let wanted : is_skipped config info.file_size info.cluster ≡ false =
          (let some_bytes : (info.file_size == 0) ≡ false = ground (arith, whole.some_bytes) in
            rw (no_cluster, some_bytes) refl) in
        elim (Outcome-cases (get_output_path (exists host tracker) host.tries info.full_name)) [
          | inl (e, unnamed) ↦ rw (wanted, unnamed, Ends) tt
          | inr (name, named) ↦ elim (Bool-cases (host.can_create name)) [
            | inl creates ↦
                let (status, run) =
                  process_file_for_recovery-contiguous drive config host info tracker name n exact
                    wanted recovers plain named creates whole in
                rw (run, Ends) (inl same)
            | inr refuses ↦
                let run =
                  process_file_for_recovery-refused drive config host info tracker name n wanted
                    recovers plain named refuses whole in
                rw (run, Ends) tt
          ]
        ]

    process_files-Has :
        (entry : DirectoryEntry) (infos : List FileInfo) (tracker : Tracker)
        → target drive entry ≡ cluster
        → entry.file_size ≡ size
        → Some (IsFileOf drive entry) infos
        → Ends Has Anyhow (process_files drive config host infos tracker)
    unfolding process_files
    process_files-Has entry [] tracker at_cluster at_size listed = absurd listed
    process_files-Has entry (info ∷ infos) tracker at_cluster at_size
          (inl (same_cluster, same_size)) =
        Ends-bind Has Has Anyhow (process_file_for_recovery drive config host info tracker) _
          (process_file_for_recovery-Has info tracker (same_cluster ∙ at_cluster)
            (same_size ∙ at_size))
          (λ one has.
            let others = process_files drive config host infos one.tracker in
            Ends-bind (λ _. Unit {0}) Has Anyhow others _ (Ends-anyhow others)
              (λ rest _. Some-append_left _ one.writes rest.writes has))
    process_files-Has entry (info ∷ infos) tracker at_cluster at_size (inr later) =
        let first = process_file_for_recovery drive config host info tracker in
        Ends-bind (λ _. Unit {0}) Has Anyhow first _ (Ends-anyhow first)
          (λ one _.
            Ends-bind Has Has Anyhow (process_files drive config host infos one.tracker) _
              (process_files-Has entry infos one.tracker at_cluster at_size later)
              (λ rest has. Some-append_right _ one.writes rest.writes has))

    recover_partition-Has :
        (entry : DirectoryEntry) (typed : List ℕ) (infos : List FileInfo) (tracker : Tracker)
        → target drive entry ≡ cluster
        → entry.file_size ≡ size
        → Some (IsFileOf drive entry) infos
        → Ends Has Anyhow (recover_partition drive config host (b'1' ∷ typed) infos tracker)
    unfolding recover_partition select_files_to_recover
    recover_partition-Has entry typed [] tracker at_cluster at_size listed = absurd listed
    recover_partition-Has entry typed (info ∷ infos) tracker at_cluster at_size listed =
        let all_wanted : (config.target_cluster == 0 && config.target_file_size == 0) ≡ true =
          rw (no_cluster, no_size) refl in
        rw all_wanted (process_files-Has entry (info ∷ infos) tracker at_cluster at_size listed)

    scan_for_deleted_files-Lists :
        (entry : DirectoryEntry) (found : ℕ) (answers : Answers)
        → Reaches drive drive.root_dir_cluster found
        → (place : Place drive found) → entry_at drive place ≡ entry
        → IsDeletedFile drive entry
        → Ends (Lists drive config iswalnum entry) Anyhow (
            scan_for_deleted_files drive config iswalnum answers.fuel answers.log_opened
              answers.confirmed new_state)
    unfolding scan_for_deleted_files
    scan_for_deleted_files-Lists entry found answers reaches place at deleted =
        let wanted : (config.recover || config.analyze) ≡ true = rw recovers refl in
        if-holds (λ m. Ends (Lists drive config iswalnum entry) Anyhow m)
          (not answers.log_opened && not answers.confirmed) (λ leaves. tt)
          (λ goes.
            scan_directory-Lists drive config iswalnum wanted entry answers.fuel
              drive.root_dir_cluster found new_state reaches place at deleted)

  -- A run of the recovery on a logical drive with `--recover`, without the analysis and without target
  -- settings, in which the user takes all files, leaves the content of each deleted file of the
  -- following kind in the output folder, if it returns, the reader fills each buffer that it reads,
  -- and no two files are written under the same name: the file of a deleted entry, no directory, with
  -- a kept cluster, at a place of a cluster reached from the root directory, with a size above 0 that
  -- is with the size of a cluster below 2 ^ 32, whose table entries are cleared from its first
  -- cluster on for `n` clusters, all from 2 below 0x0FFFFFF8, where `n` is its size by that of a
  -- cluster, rounded up. One of the files left holds the first bytes of the readable content of these
  -- clusters, as many as the entry's size says.
  pub start_recovery-recovers :
      (answers : Answers) (typed : List ℕ) (processed : Processed)
      → answers.input ≡ b'1' ∷ typed
      → start_recovery iswalnum drive config host answers logical_type ≡ ok processed
      → IsApart host processed.writes
      → (found n : ℕ) → Reaches drive drive.root_dir_cluster found
      → (place : Place drive found) → IsDeletedFile drive (entry_at drive place)
      → IsIntact drive (target drive (entry_at drive place)) (entry_at drive place).file_size n
      → Some
          (λ (out : OutputFile).
            out.content
            ≡ content_of drive
                (target drive (entry_at drive place))
                (entry_at drive place).file_size
                n)
          (left_in_folder host processed.writes)
  unfolding start_recovery run_logical_drive_recovery
  start_recovery-recovers answers typed processed all_files returns apart found n reaches place
        deleted intact =
      let entry = entry_at drive place in
      let has = Has (target drive entry) entry.file_size n intact in
      rw (left_in_folder-IsApart host processed.writes apart) (
        Ends-ok has (start_recovery iswalnum drive config host answers logical_type)
          (Ends-bind (Lists drive config iswalnum entry) has Anyhow _ _
            (scan_for_deleted_files-Lists (target drive entry) entry.file_size n intact entry found
              answers reaches place refl deleted)
            (λ st listed.
              Ends-bind has has Anyhow
                (recover_partition drive config host answers.input st.recovery_list new_tracker) _
                (rw all_files (
                  recover_partition-Has (target drive entry) entry.file_size n intact entry typed
                    st.recovery_list new_tracker refl refl listed))
                (λ p wrote. wrote)))
          returns)
