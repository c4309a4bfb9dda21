-- ===== src/Handler/Reading.antt =====
-- A run of the program without `--recover` recovers nothing.
use data_recovery_tool.Common.{ℕ, ◌==◌, false, List, [], ◌∷◌, flatten, map, length, All, ◌≡◌, refl}
use data_recovery_tool.Common.{
  Outcome, ok, err, ◌>>=◌, Failure, Ends, Ends-bind, Ends-anyhow, Ends-ok, some,
}
use data_recovery_tool.Common.{
  thrown, exited, out_of_bounds, division_by_zero, undefined_shift, out_of_fuel,
}
use data_recovery_tool.Config.{Config, DriveType}
use data_recovery_tool.Session.{Processed, Answers}
use data_recovery_tool.Utils.Log.{new_log_file, open_log_file, ensure_output_directory}
use data_recovery_tool.CommandLine.{initial_config, parse_command_line}
use data_recovery_tool.CommandLine.Options.{Setting, drive, no_log, recover, analyze, arguments_of}
use data_recovery_tool.CommandLine.Options.{apply, apply_all, parse_arguments-arguments_of}
use data_recovery_tool.Fat32.Run.Reading.{fat32_writes_nothing}
use data_recovery_tool.ExFat.Run.Reading.{exfat_writes_nothing}
use data_recovery_tool.Ntfs.Run.Reading.{ntfs_writes_nothing}
use data_recovery_tool.Handler.{
  Surroundings, Finished, with_output_directory, run_with_log, DriveHandler, FilesystemType,
  unknown_filesystem, fat32,
}
use data_recovery_tool.Handler.{ntfs, exfat, ext4, recover_drive, make_handler, main, caught}
use data_recovery_tool.Handler.{recover_fat32, recover_exfat, recover_ntfs, determine_drive_type}
use data_recovery_tool.Handler.{initialize_sector_reader}
use data_recovery_tool.Device.{SectorReader, get_bytes_per_sector}
use data_recovery_tool.Common.{Bool-cases, inl, inr}
use data_recovery_tool.Fat32
use data_recovery_tool.ExFat
use data_recovery_tool.Ntfs

-- The option is not `--recover`.
abbrev pub OnlyReads : Setting → Type 0
OnlyReads (drive short path) = Unit
OnlyReads (no_log short) = Unit
OnlyReads (recover short) = ⊥
OnlyReads (analyze short) = Unit

apply_all-OnlyReads :
    (f : List ℕ → List ℕ) (settings : List Setting) (config : Config)
    → All OnlyReads settings
    → config.recover ≡ false
    → (apply_all f settings config).recover ≡ false
apply_all-OnlyReads f [] config reads e = e
apply_all-OnlyReads f (drive short path ∷ settings) config (r, reads) e =
    apply_all-OnlyReads f settings (apply f (drive short path) config) reads e
apply_all-OnlyReads f (no_log short ∷ settings) config (r, reads) e =
    apply_all-OnlyReads f settings (apply f (no_log short) config) reads e
apply_all-OnlyReads f (recover short ∷ settings) config (r, reads) e = absurd r
apply_all-OnlyReads f (analyze short ∷ settings) config (r, reads) e =
    apply_all-OnlyReads f settings (apply f (analyze short) config) reads e

abbrev Anyhow : Failure → Type 0
Anyhow e = Unit

abbrev WritesNothing : Finished → Type 0
WritesNothing finished = finished.processed.writes ≡ []

Ends-of :
    {A : Type 0} (P : A → Type 0) (m : Outcome A) → ((a : A) → m ≡ ok a → P a) → Ends P Anyhow m
Ends-of P (ok a) h = h a refl
Ends-of P (err e) h = tt

module _ (world : Surroundings) where
  -- A class that recovers nothing, made and run with its log.
  with_log-WritesNothing :
      {A : Type 0} (construct : Outcome A) (config : Config)
      (start : A → Answers → Outcome Processed)
      → ((drive : A) (answers : Answers) (processed : Processed)
          → start drive answers ≡ ok processed
          → processed.writes ≡ [])
      → Ends WritesNothing Anyhow
          (with_output_directory world construct (λ drive. run_with_log world config (start drive)))
  unfolding with_output_directory run_with_log
  with_log-WritesNothing construct config start nothing =
      let made = ensure_output_directory world.output_exists world.can_create_directory in
      let opens = open_log_file world.log_folder config new_log_file in
      Ends-bind (λ _. Unit {0}) WritesNothing Anyhow made _ (Ends-anyhow made)
        (λ _ _.
          Ends-bind (λ _. Unit {0}) WritesNothing Anyhow construct _ (Ends-anyhow construct)
            (λ drive _.
              Ends-bind (λ _. Unit {0}) WritesNothing Anyhow opens _ (Ends-anyhow opens)
                (λ (log, opened) _.
                  let answers = record world.answers { log_opened = opened } in
                  Ends-bind (λ (p : Processed). p.writes ≡ []) WritesNothing Anyhow
                    (start drive answers) _
                    (Ends-of (λ (p : Processed). p.writes ≡ []) (start drive answers)
                      (nothing drive answers))
                    (λ processed e. e))))

  recover_fat32-WritesNothing :
      (h : DriveHandler)
      → h.config.recover ≡ false
      → Ends WritesNothing Anyhow (recover_fat32 world h)
  unfolding recover_fat32
  recover_fat32-WritesNothing h reading =
      with_log-WritesNothing (Fat32.Volume.construct (some h.reader)) h.config
        (λ d answers.
          Fat32.Run.start_recovery world.iswalnum d h.config world.host answers h.drive_type)
        (λ d answers processed returns.
          fat32_writes_nothing world.iswalnum d h.config world.host answers h.drive_type processed
            reading returns)

  recover_exfat-WritesNothing :
      (h : DriveHandler)
      → h.config.recover ≡ false
      → Ends WritesNothing Anyhow (recover_exfat world h)
  unfolding recover_exfat
  recover_exfat-WritesNothing h reading =
      with_log-WritesNothing (ExFat.Volume.construct (some h.reader)) h.config
        (λ d answers. ExFat.Run.start_recovery d h.config world.host answers h.drive_type)
        (λ d answers processed returns.
          exfat_writes_nothing d h.config world.host answers h.drive_type processed reading returns)

  recover_ntfs-WritesNothing :
      (h : DriveHandler)
      → h.config.recover ≡ false
      → Ends WritesNothing Anyhow (recover_ntfs world h)
  unfolding recover_ntfs
  recover_ntfs-WritesNothing h reading =
      with_log-WritesNothing (Ntfs.Volume.construct (some h.reader)) h.config
        (λ d answers. Ntfs.Run.start_recovery d h.config world.host answers h.drive_type)
        (λ d answers processed returns.
          ntfs_writes_nothing d h.config world.host answers h.drive_type processed reading returns)

  recover_by-WritesNothing :
      (config : Config) (drive_type : DriveType) (fs_type : FilesystemType) (reader : SectorReader)
      → config.recover ≡ false
      → Ends WritesNothing Anyhow (
          recover_drive world (record {
            config = config;
            drive_type = drive_type;
            fs_type = fs_type;
            reader = reader;
          }))
  unfolding recover_drive
  recover_by-WritesNothing config drive_type fat32 reader reading =
      recover_fat32-WritesNothing
        (record { config = config; drive_type = drive_type; fs_type = fat32; reader = reader })
        reading
  recover_by-WritesNothing config drive_type exfat reader reading =
      recover_exfat-WritesNothing
        (record { config = config; drive_type = drive_type; fs_type = exfat; reader = reader })
        reading
  recover_by-WritesNothing config drive_type ntfs reader reading =
      recover_ntfs-WritesNothing
        (record { config = config; drive_type = drive_type; fs_type = ntfs; reader = reader })
        reading
  recover_by-WritesNothing config drive_type unknown_filesystem reader reading = tt
  recover_by-WritesNothing config drive_type ext4 reader reading = tt

  abbrev Reads : DriveHandler → Type 0
  Reads h = h.config.recover ≡ false

  make_handler-Reads :
      (config : Config) → config.recover ≡ false → Ends Reads Anyhow (make_handler world config)
  unfolding make_handler
  make_handler-Reads config reading =
      let (drive_type, path) =
        determine_drive_type world.towupper world.iswalpha config.drive_path in
      let made = initialize_sector_reader world drive_type path in
      Ends-bind (λ r. Unit {0}) Reads Anyhow made _ (Ends-anyhow made)
        (λ reader k.
          Ends-bind (λ r. Unit {0}) Reads Anyhow (get_bytes_per_sector (some reader)) _
            (Ends-anyhow (get_bytes_per_sector (some reader))) (λ n k'. reading))

  parse-Reads :
      (settings : List Setting)
      → All OnlyReads settings
      → Ends
          (λ (config : Config). config.recover ≡ false)
          Anyhow
          (parse_command_line world.string_to_wstring
            (flatten (map arguments_of settings))
            initial_config)
  unfolding parse_command_line
  parse-Reads settings reads =
      let config = apply_all world.string_to_wstring settings initial_config in
      let parsed = parse_arguments-arguments_of world.string_to_wstring settings initial_config in
      let reading =
        apply_all-OnlyReads world.string_to_wstring settings initial_config reads refl in
      elim (Bool-cases (length config.drive_path == 0)) [
        | inl missing ↦ rw (parsed, ◌>>=◌, missing, Ends) tt
        | inr named ↦ rw (parsed, ◌>>=◌, named, Ends) reading
      ]

  caught-WritesNothing :
      (m : Outcome Finished) → Ends WritesNothing Anyhow m → Ends WritesNothing Anyhow (caught m)
  unfolding caught
  caught-WritesNothing (ok finished) h = h
  caught-WritesNothing (err (thrown e)) h = tt
  caught-WritesNothing (err (exited n)) h = tt
  caught-WritesNothing (err out_of_bounds) h = tt
  caught-WritesNothing (err division_by_zero) h = tt
  caught-WritesNothing (err undefined_shift) h = tt
  caught-WritesNothing (err out_of_fuel) h = tt

  -- A run of the program with any options but `--recover`, in either spelling and any order, recovers
  -- no file if it returns: on every kind of volume, whatever it holds and the user answers, all that
  -- it may write is the output directory and the log of the search.
  pub main_recovers_nothing :
      (settings : List Setting) (finished : Finished)
      → All OnlyReads settings
      → main world (flatten (map arguments_of settings)) ≡ ok finished
      → finished.processed.writes ≡ []
  unfolding main
  main_recovers_nothing settings finished reads returns =
      let args = flatten (map arguments_of settings) in
      let parsed = parse_command_line world.string_to_wstring args initial_config in
      Ends-ok WritesNothing (main world args)
        (caught-WritesNothing _ (
          Ends-bind (λ (config : Config). config.recover ≡ false) WritesNothing Anyhow parsed _
            (parse-Reads settings reads)
            (λ config reading.
              Ends-bind Reads WritesNothing Anyhow (make_handler world config) _
                (make_handler-Reads config reading)
                (λ h reading'.
                  recover_by-WritesNothing h.config h.drive_type h.fs_type h.reader reading'))))
        returns
