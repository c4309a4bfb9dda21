-- ===== src/Fat32/Run.antt =====
-- The entry point of the FAT32 recovery class (src/FAT32Recovery.cpp): the search, then the recovery.
pub mod Reading
pub mod Recovered
use data_recovery_tool.Common.{ℕ, Bool, [], Outcome, ok, err, ◌>>=◌, thrown, unknown_drive_type}
use data_recovery_tool.Config.{Config, DriveType, unknown_type, logical_type, physical_type}
use data_recovery_tool.Session.{Host, Answers, Processed, new_tracker}
use data_recovery_tool.Fat32.Volume.{Drive}
use data_recovery_tool.Fat32.Scan.{State, scan_for_deleted_files}
use data_recovery_tool.Fat32.Recover.{recover_partition}

-- The fields as the object is made.
abbrev pub new_state : State
new_state = record { file_id = 1; recovery_list = []; reported = [] }

module _ (iswalnum : ℕ → Bool) (drive : Drive) (config : Config) (host : Host)
    (answers : Answers) where
  unfoldable pub run_logical_drive_recovery : Outcome Processed
  unfolding scan_for_deleted_files recover_partition
  run_logical_drive_recovery = do
    st ←
        scan_for_deleted_files drive config iswalnum answers.fuel answers.log_opened
          answers.confirmed new_state
    processed ← recover_partition drive config host answers.input st.recovery_list new_tracker
    ok (record processed { reported = st.reported })

  unfoldable pub start_recovery : DriveType → Outcome Processed
  unfolding run_logical_drive_recovery
  start_recovery logical_type = run_logical_drive_recovery
  start_recovery physical_type = err (thrown unknown_drive_type)
  start_recovery unknown_type = err (thrown unknown_drive_type)
