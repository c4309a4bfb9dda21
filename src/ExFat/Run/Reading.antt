-- ===== src/ExFat/Run/Reading.antt =====
-- A run without `--recover` recovers no file.
use data_recovery_tool.Common.{ℕ, ◌≡◌, refl, inl, inr, false, ◌==◌, ◌&&◌}
use data_recovery_tool.Common.{List, [], ◌∷◌, ok, Failure}
use data_recovery_tool.Common.{Bool-cases, Ends, Ends-bind, Ends-anyhow, Ends-ok}
use data_recovery_tool.Config.{Config, DriveType, unknown_type, logical_type, physical_type}
use data_recovery_tool.Analysis.Status.{initial}
use data_recovery_tool.Select.{select_files_to_recover}
use data_recovery_tool.Utils.{get_output_path}
use data_recovery_tool.Session.{Tracker, Host, Answers, Processed, exists, is_skipped, new_tracker}
use data_recovery_tool.ExFat.Structs.{FileInfo}
use data_recovery_tool.ExFat.Volume.{Drive}
use data_recovery_tool.ExFat.Scan.{scan_for_deleted_files}
use data_recovery_tool.ExFat.Recover.{
  process_file_for_recovery, clusters_for, bytes_per_cluster, validate_cluster_chain,
}
use data_recovery_tool.ExFat.Recover.{process_files, recover_partition}
use data_recovery_tool.ExFat.Run.{run_logical_drive_recovery, start_recovery, new_state}

abbrev Anyhow : Failure → Type 0
Anyhow e = Unit

abbrev WritesNothing : Processed → Type 0
WritesNothing processed = processed.writes ≡ []

module _ (drive : Drive) (config : Config) (host : Host) where
  module _ (reading : config.recover ≡ false) where
    process_file-WritesNothing :
        (info : FileInfo) (tracker : Tracker)
        → Ends WritesNothing Anyhow (process_file_for_recovery drive config host info tracker)
    unfolding process_file_for_recovery
    process_file-WritesNothing info tracker =
        let named = get_output_path (exists host tracker) host.tries info.file_name in
        elim (Bool-cases (is_skipped config info.file_size info.cluster)) [
          | inl skipped ↦ rw (skipped, Ends) refl
          | inr wanted ↦
              rw (wanted, Ends)
                (Ends-bind (λ n. Unit {0}) WritesNothing Anyhow named _ (Ends-anyhow named)
                  (λ name h.
                    let expected = clusters_for (bytes_per_cluster drive) info.file_size in
                    let valid =
                      validate_cluster_chain drive config host info.cluster info.file_size name
                        false (initial expected) tracker in
                    Ends-bind (λ n. Unit {0}) WritesNothing Anyhow valid _ (Ends-anyhow valid)
                      (λ (chain, status, tracker') k. rw (reading, Ends) refl)))
        ]

    process_files-WritesNothing :
        (infos : List FileInfo) (tracker : Tracker)
        → Ends WritesNothing Anyhow (process_files drive config host infos tracker)
    unfolding process_files
    process_files-WritesNothing [] tracker = refl
    process_files-WritesNothing (info ∷ infos) tracker =
        Ends-bind WritesNothing WritesNothing Anyhow
          (process_file_for_recovery drive config host info tracker) _
          (process_file-WritesNothing info tracker)
          (λ one first.
            Ends-bind WritesNothing WritesNothing Anyhow
              (process_files drive config host infos one.tracker) _
              (process_files-WritesNothing infos one.tracker) (λ others rest. rw (first, rest)))

    recover_partition-WritesNothing :
        (input : List ℕ) (infos : List FileInfo) (tracker : Tracker)
        → Ends WritesNothing Anyhow (recover_partition drive config host input infos tracker)
    unfolding recover_partition
    recover_partition-WritesNothing input [] tracker = refl
    recover_partition-WritesNothing input (info ∷ infos) tracker =
        elim (Bool-cases (config.target_cluster == 0 && config.target_file_size == 0)) [
          | inr targeted ↦ rw (targeted, Ends) (process_files-WritesNothing (info ∷ infos) tracker)
          | inl asks ↦
              let selected =
                select_files_to_recover (λ (f : FileInfo). f.file_id) input (info ∷ infos) in
              rw (asks, Ends)
                (Ends-bind (λ n. Unit {0}) WritesNothing Anyhow selected _ (Ends-anyhow selected)
                  (λ files h. process_files-WritesNothing files tracker))
        ]

    run-WritesNothing :
        (answers : Answers)
        → Ends WritesNothing Anyhow (run_logical_drive_recovery drive config host answers)
    unfolding run_logical_drive_recovery
    run-WritesNothing answers =
        let searched =
          scan_for_deleted_files drive config answers.fuel answers.log_opened answers.confirmed
            new_state in
        Ends-bind (λ n. Unit {0}) WritesNothing Anyhow searched _ (Ends-anyhow searched)
          (λ st h.
            Ends-bind WritesNothing WritesNothing Anyhow
              (recover_partition drive config host answers.input st.recovery_list new_tracker) _
              (recover_partition-WritesNothing answers.input st.recovery_list new_tracker)
              (λ processed nothing. nothing))

  -- Without `--recover` a run of the class that returns has recovered no file, whatever the volume
  -- holds, the user types, and the other settings say.
  pub exfat_writes_nothing :
      (answers : Answers) (drive_type : DriveType) (processed : Processed)
      → config.recover ≡ false
      → start_recovery drive config host answers drive_type ≡ ok processed
      → processed.writes ≡ []
  unfolding start_recovery
  exfat_writes_nothing answers logical_type processed reading returns =
      Ends-ok WritesNothing (run_logical_drive_recovery drive config host answers)
        (run-WritesNothing reading answers) returns
  exfat_writes_nothing answers physical_type processed reading returns = absurd cc
  exfat_writes_nothing answers unknown_type processed reading returns = absurd cc
