-- ===== src/ExFat/Run/Recovered.antt =====
-- The whole way of a deleted file of an exFAT volume: from its set of entries in a directory that the
-- search gets to, through the list and the menu, to the file written.
use data_recovery_tool.Common.{
  arith, ℕ, ◌≡◌, refl, inl, inr, true, false, ◌||◌, ◌&&◌, not, List, [], ◌∷◌, ◌==◌, Bool-cases,
  if-holds,
}
use data_recovery_tool.Common.{Some, Some-append_left, Some-append_right, ok, Outcome-cases}
use data_recovery_tool.Common.{Ends, Ends-bind, Ends-anyhow, Ends-ok}
use data_recovery_tool.Device.{IsExact}
use data_recovery_tool.Config.{Config, logical_type}
use data_recovery_tool.Select
use data_recovery_tool.Utils.{get_output_path}
use data_recovery_tool.Session.{
  Tracker, Host, Answers, OutputFile, Processed, new_tracker, exists, is_skipped, IsApart,
  left_in_folder, left_in_folder-IsApart,
}
use data_recovery_tool.ExFat.Structs.{DirEntryData, FileInfo}
use data_recovery_tool.ExFat.Volume.{Drive}
use data_recovery_tool.ExFat.Scan.{State, scan_for_deleted_files}
use data_recovery_tool.ExFat.Scan.Reached.{Place, Reaches, IsDeletedFile, IsFileOf}
use data_recovery_tool.ExFat.Scan.Visits.{Anyhow}
use data_recovery_tool.ExFat.Scan.Found.Complete.{Lists, scan_directory-Lists}
use data_recovery_tool.ExFat.Recover.{
  process_file_for_recovery, process_files, recover_partition, select_files_to_recover,
}
use data_recovery_tool.ExFat.Recover.Consecutive.{
  IsIntact, content_of, process_file_for_recovery-consecutive, process_file_for_recovery-refused,
}
use data_recovery_tool.ExFat.Run.{new_state, run_logical_drive_recovery, start_recovery}

module _ (drive : Drive) (config : Config) (host : Host) (exact : IsExact drive.reader)
    (recovers : config.recover ≡ true) (plain : config.analyze ≡ false)
    (no_cluster : config.target_cluster ≡ 0) (no_size : config.target_file_size ≡ 0) where
  module _ (set : DirEntryData) (n : ℕ)
      (intact : IsIntact drive set.starting_cluster set.file_size n) where
    -- One of the files written has the content of the file of the set.
    abbrev Has : Processed → Type 0
    Has processed =
        Some
          (λ (out : OutputFile).
            out.content ≡ content_of drive set.starting_cluster set.file_size n)
          processed.writes

    process_file_for_recovery-Has :
        (info : FileInfo) (tracker : Tracker)
        → IsFileOf drive set info
        → Ends Has Anyhow (process_file_for_recovery drive config host info tracker)
    unfolding process_file_for_recovery is_skipped
    process_file_for_recovery-Has info tracker (at_cluster, at_size, at_name) =
        let whole : IsIntact drive info.cluster info.file_size n =
          rw (at_cluster, at_size) intact in
        let same : content_of drive info.cluster info.file_size n
            ≡ content_of drive set.starting_cluster set.file_size n =
          rw (at_cluster, at_size) refl in
        let wanted : is_skipped config info.file_size info.cluster ≡ false =
          (let some_bytes : (info.file_size == 0) ≡ false = ground (arith, whole.some_bytes) in
            rw (no_cluster, some_bytes) refl) in
        elim (Outcome-cases (get_output_path (exists host tracker) host.tries info.file_name)) [
          | inl (e, unnamed) ↦ rw (wanted, unnamed, Ends) tt
          | inr (name, named) ↦ elim (Bool-cases (host.can_create name)) [
            | inl creates ↦
                let (status, run) =
                  process_file_for_recovery-consecutive drive config host recovers plain info
                    tracker name n exact wanted named creates whole in
                rw (run, Ends) (inl same)
            | inr refuses ↦
                let run =
                  process_file_for_recovery-refused drive config host recovers plain info tracker
                    name n wanted named refuses whole in
                rw (run, Ends) tt
          ]
        ]

    process_files-Has :
        (infos : List FileInfo) (tracker : Tracker)
        → Some (IsFileOf drive set) infos
        → Ends Has Anyhow (process_files drive config host infos tracker)
    unfolding process_files
    process_files-Has [] tracker listed = absurd listed
    process_files-Has (info ∷ infos) tracker (inl same) =
        Ends-bind Has Has Anyhow (process_file_for_recovery drive config host info tracker) _
          (process_file_for_recovery-Has info tracker same)
          (λ one has.
            let others = process_files drive config host infos one.tracker in
            Ends-bind (λ _. Unit {0}) Has Anyhow others _ (Ends-anyhow others)
              (λ rest _. Some-append_left _ one.writes rest.writes has))
    process_files-Has (info ∷ infos) tracker (inr later) =
        let first = process_file_for_recovery drive config host info tracker in
        Ends-bind (λ _. Unit {0}) Has Anyhow first _ (Ends-anyhow first)
          (λ one _.
            Ends-bind Has Has Anyhow (process_files drive config host infos one.tracker) _
              (process_files-Has infos one.tracker later)
              (λ rest has. Some-append_right _ one.writes rest.writes has))

    recover_partition-Has :
        (typed : List ℕ) (infos : List FileInfo) (tracker : Tracker)
        → Some (IsFileOf drive set) infos
        → Ends Has Anyhow (recover_partition drive config host (b'1' ∷ typed) infos tracker)
    unfolding recover_partition select_files_to_recover Select.select_files_to_recover
    recover_partition-Has typed [] tracker listed = absurd listed
    recover_partition-Has typed (info ∷ infos) tracker listed =
        let all_wanted : (config.target_cluster == 0 && config.target_file_size == 0) ≡ true =
          rw (no_cluster, no_size) refl in
        rw all_wanted (process_files-Has (info ∷ infos) tracker listed)

  scan_for_deleted_files-Lists :
      (set : DirEntryData) (found : ℕ) (answers : Answers)
      → Reaches drive 0 drive.boot_sector.root_directory_cluster found
      → (place : Place drive found) → place.set ≡ set
      → IsDeletedFile drive set
      → Ends
          (λ st. Some (IsFileOf drive set) st.recovery_list)
          Anyhow
          (scan_for_deleted_files drive config answers.fuel answers.log_opened answers.confirmed
            new_state)
  unfolding scan_for_deleted_files
  scan_for_deleted_files-Lists set found answers reaches place at deleted =
      let wanted : (config.recover || config.analyze) ≡ true = rw recovers refl in
      if-holds (λ m. Ends (Lists drive config wanted set) Anyhow m)
        (not answers.log_opened && not answers.confirmed) (λ leaves. tt)
        (λ goes.
          scan_directory-Lists drive config wanted set answers.fuel 0
            drive.boot_sector.root_directory_cluster found new_state reaches place at deleted)

  -- A run of the recovery on a logical exFAT drive with `--recover`, without the analysis and without
  -- target settings, in which the user takes all files, leaves the content of each deleted file of the
  -- following kind in the output folder, if it returns, the reader fills each buffer that it reads,
  -- and no two files are written under the same name: the file of a complete set of entries, deleted
  -- and no directory, in a cluster that is entered from the root directory, with a size above 0, for
  -- whose `n` clusters from the first on the class reads 0 where it looks for their table entries,
  -- which is in the cluster heap, all from 2 below 0x0FFFFFF8, where `n` is the size by that of a
  -- cluster, rounded up, and both sizes are together below 2 ^ 64. One of the files left holds the
  -- first bytes of the readable content of these clusters, as many as the set's size says.
  pub start_recovery-recovers_sets :
      (answers : Answers) (typed : List ℕ) (processed : Processed)
      → answers.input ≡ b'1' ∷ typed
      → start_recovery drive config host answers logical_type ≡ ok processed
      → IsApart host processed.writes
      → (found n : ℕ) → Reaches drive 0 drive.boot_sector.root_directory_cluster found
      → (place : Place drive found) → IsDeletedFile drive place.set
      → IsIntact drive place.set.starting_cluster place.set.file_size n
      → Some
          (λ (out : OutputFile).
            out.content ≡ content_of drive place.set.starting_cluster place.set.file_size n)
          (left_in_folder host processed.writes)
  unfolding start_recovery run_logical_drive_recovery
  start_recovery-recovers_sets answers typed processed all_files returns apart found n reaches place
        deleted intact =
      let has = Has place.set n intact in
      rw (left_in_folder-IsApart host processed.writes apart) (
        Ends-ok has (start_recovery drive config host answers logical_type)
          (Ends-bind (λ (st : State). Some (IsFileOf drive place.set) st.recovery_list) has Anyhow _
            _ (scan_for_deleted_files-Lists place.set found answers reaches place refl deleted)
            (λ st listed.
              Ends-bind has has Anyhow
                (recover_partition drive config host answers.input st.recovery_list new_tracker) _
                (rw all_files (
                  recover_partition-Has place.set n intact typed st.recovery_list new_tracker
                    listed))
                (λ p wrote. wrote)))
          returns)
