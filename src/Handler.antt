-- ===== src/Handler.antt =====
-- The drive handler (src/DriveHandler.cpp): the kind of drive, the file system, and the recovery class
-- that is run; with it the entry points of the three classes. The characters' classes depend on the
-- locale and are parameters, as is the constructor of the reader of logical drives.
pub mod Reading
pub mod Partition
use data_recovery_tool.Common.{ℕ, Bool, true, false, ◌&&◌, ◌||◌, List, [], ◌∷◌, ◌++◌, map, length}
use data_recovery_tool.Common.{leb, ◌==◌, if◌then◌else◌, Option, none, some, take, Outcome, ok, err}
use data_recovery_tool.Common.{
  ◌>>=◌, ◌>>◌, require, thrown, unknown_drive_type, unsupported_filesystem,
}
use data_recovery_tool.Common.{physical_not_implemented, exited, out_of_bounds, division_by_zero}
use data_recovery_tool.Common.{undefined_shift, out_of_fuel}
use data_recovery_tool.Config.{Config, DriveType, unknown_type, logical_type, physical_type}
use data_recovery_tool.Text.{codes, same_text}
use data_recovery_tool.Device.{SectorReader, set_sector_reader, get_bytes_per_sector}
use data_recovery_tool.Session.{Host, Answers, Processed}
use data_recovery_tool.CommandLine.{initial_config, parse_command_line}
use data_recovery_tool.Utils.Log.{
  LogFile, LogFolder, new_log_file, open_log_file, log_files, close_log_file,
  ensure_output_directory,
}
use data_recovery_tool.Fat32
use data_recovery_tool.ExFat
use data_recovery_tool.Ntfs

pub data FilesystemType : Type 0 where
  unknown_filesystem fat32 ntfs exfat ext4 : FilesystemType

abbrev is_digit : ℕ → Bool
is_digit c = leb b'0' c && leb c b'9'

-- A text begins with another, or has it somewhere.
starts_with : List ℕ → List ℕ → Bool
unfolding same_text
starts_with piece text = same_text (take (length piece) text) piece

has_piece : List ℕ → List ℕ → Bool
unfolding starts_with
has_piece piece [] = starts_with piece []
has_piece piece (c ∷ cs) = starts_with piece (c ∷ cs) || has_piece piece cs

ends_in_digit : List ℕ → Bool
ends_in_digit [] = false
ends_in_digit (c ∷ []) = is_digit c
ends_in_digit (c ∷ d ∷ cs) = ends_in_digit (d ∷ cs)

-- A letter, or a letter and a colon.
is_letter_path : (ℕ → Bool) → List ℕ → Bool
is_letter_path iswalpha [] = false
is_letter_path iswalpha (c ∷ []) = iswalpha c
is_letter_path iswalpha (c ∷ d ∷ []) = iswalpha c && d == b':'
is_letter_path iswalpha (c ∷ d ∷ e ∷ cs) = false

is_one_digit : List ℕ → Bool
is_one_digit [] = false
is_one_digit (c ∷ []) = is_digit c
is_one_digit (c ∷ d ∷ cs) = false

-- The kind of drive, and the path to open, which replaces that of the settings.
unfoldable pub determine_drive_type : (ℕ → ℕ) → (ℕ → Bool) → List ℕ → DriveType × List ℕ
unfolding is_one_digit has_piece ends_in_digit is_letter_path
determine_drive_type towupper iswalpha path =
    let upper = map towupper path in
    if is_one_digit path
    then (physical_type, path)
    else if has_piece (codes "PHYSICALDRIVE") upper && ends_in_digit upper
    then (physical_type, path)
    else if is_letter_path iswalpha upper
    then (logical_type, codes "\\\\.\\" ++ upper ++ (if length upper == 1 then codes ":" else []))
    else (unknown_type, path)

unfoldable pub get_filesystem_type : SectorReader → FilesystemType
unfolding same_text
get_filesystem_type reader =
    if same_text reader.filesystem_type (codes "exFAT")
    then exfat
    else if same_text reader.filesystem_type (codes "FAT32")
    then fat32
    else if same_text reader.filesystem_type (codes "NTFS")
    then ntfs
    else unknown_filesystem

-- What the program takes from its surroundings. `open_reader` is the constructor of the reader of
-- logical drives; `output_exists` and `can_create_directory` are about the output directory with the
-- log's. Of the answers, `log_opened` is what the run makes of it.
pub record Surroundings : Type 0 where
  pub string_to_wstring : List ℕ → List ℕ
  pub towupper : ℕ → ℕ
  pub iswalpha : ℕ → Bool
  pub iswalnum : ℕ → Bool
  pub open_reader : List ℕ → Outcome SectorReader
  pub host : Host
  pub answers : Answers
  pub output_exists : Option Bool
  pub can_create_directory : Bool
  pub log_folder : LogFolder

pub record DriveHandler : Type 0 where
  pub config : Config
  pub drive_type : DriveType
  pub fs_type : FilesystemType
  pub reader : SectorReader

-- What a run leaves: the files recovered, and the log of the search. Its directory has been created.
pub record Finished : Type 0 where
  pub processed : Processed
  pub log : LogFile

-- `main`: an exception ends the program with 1.
unfoldable pub caught : Outcome Finished → Outcome Finished
caught (ok finished) = ok finished
caught (err (thrown e)) = err (exited 1)
caught (err (exited n)) = err (exited n)
caught (err out_of_bounds) = err out_of_bounds
caught (err division_by_zero) = err division_by_zero
caught (err undefined_shift) = err undefined_shift
caught (err out_of_fuel) = err out_of_fuel

module _ (world : Surroundings) where
  unfoldable pub initialize_sector_reader : DriveType → List ℕ → Outcome SectorReader
  unfolding set_sector_reader
  initialize_sector_reader logical_type path = do
    reader ← world.open_reader path
    set_sector_reader (some reader)
  initialize_sector_reader physical_type path = err (thrown physical_not_implemented)
  initialize_sector_reader unknown_type path = err (thrown unknown_drive_type)

  -- The constructor. The handler prints the exception and throws it again.
  unfoldable pub make_handler : Config → Outcome DriveHandler
  unfolding determine_drive_type initialize_sector_reader get_bytes_per_sector get_filesystem_type
  make_handler config = do
    let (drive_type, path) = determine_drive_type world.towupper world.iswalpha config.drive_path
    reader ← initialize_sector_reader drive_type path
    bytes_per_sector ← get_bytes_per_sector (some reader)
    ok (record {
      config = record config { drive_path = path };
      drive_type = drive_type;
      fs_type = get_filesystem_type reader;
      reader = reader;
    })

  -- The search of a class opens the log, writes to it for each file that it reports, and closes it.
  unfoldable pub run_with_log : Config → (Answers → Outcome Processed) → Outcome Finished
  unfolding open_log_file log_files close_log_file
  run_with_log config start = do
    (log, opened) ← open_log_file world.log_folder config new_log_file
    processed ← start (record world.answers { log_opened = opened })
    ok (record {
      processed = processed;
      log = close_log_file (log_files world.log_folder config processed.reported log);
    })

  -- The constructor of a class makes the output directory first.
  unfoldable pub with_output_directory :
      {A : Type 0} → Outcome A → (A → Outcome Finished) → Outcome Finished
  unfolding ensure_output_directory
  with_output_directory construct run = do
    made ← ensure_output_directory world.output_exists world.can_create_directory
    drive ← construct
    run drive

  -- The class is made from the reader, and run.
  unfoldable pub recover_fat32 : DriveHandler → Outcome Finished
  unfolding with_output_directory run_with_log Fat32.Volume.construct Fat32.Run.start_recovery
  recover_fat32 h = with_output_directory (Fat32.Volume.construct (some h.reader)) (λ drive.
      run_with_log h.config (λ answers.
        Fat32.Run.start_recovery world.iswalnum drive h.config world.host answers h.drive_type))

  unfoldable pub recover_exfat : DriveHandler → Outcome Finished
  unfolding with_output_directory run_with_log ExFat.Volume.construct ExFat.Run.start_recovery
  recover_exfat h = with_output_directory (ExFat.Volume.construct (some h.reader)) (λ drive.
      run_with_log h.config
        (λ answers. ExFat.Run.start_recovery drive h.config world.host answers h.drive_type))

  unfoldable pub recover_ntfs : DriveHandler → Outcome Finished
  unfolding with_output_directory run_with_log Ntfs.Volume.construct Ntfs.Run.start_recovery
  recover_ntfs h = with_output_directory (Ntfs.Volume.construct (some h.reader)) (λ drive.
      run_with_log h.config
        (λ answers. Ntfs.Run.start_recovery drive h.config world.host answers h.drive_type))

  unfoldable pub recover_drive : DriveHandler → Outcome Finished
  unfolding recover_fat32 recover_exfat recover_ntfs
  recover_drive h = elim h.fs_type [
    | fat32 ↦ recover_fat32 h
    | exfat ↦ recover_exfat h
    | ntfs ↦ recover_ntfs h
    | unknown_filesystem ↦ err (thrown unsupported_filesystem)
    | ext4 ↦ err (thrown unsupported_filesystem)
  ]

  unfoldable pub main : List (List ℕ) → Outcome Finished
  unfolding caught parse_command_line make_handler recover_drive
  main args = caught (do
    config ← parse_command_line world.string_to_wstring args initial_config
    handler ← make_handler config
    recover_drive handler)
