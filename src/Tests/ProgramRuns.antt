-- ===== src/Tests/ProgramRuns.antt =====
-- The whole program on a FAT32 volume of 512-byte sectors with one deleted file.
use data_recovery_tool.Common.{
  ℕ, ◌≡◌, refl, List, [], ◌∷◌, ◌++◌, ok, some, true, false, ◌==◌, if◌then◌else◌, replicate,
}
use data_recovery_tool.Common.{◌-◌, leb, ◌&&◌, flatten, map}
use data_recovery_tool.Text.{same_text, codes}
use data_recovery_tool.Device.{SectorReader}
use data_recovery_tool.Session.{new_tracker}
use data_recovery_tool.Analysis.Status.{initial}
use data_recovery_tool.CommandLine.{initial_config, parse_command_line}
use data_recovery_tool.CommandLine.Options.{Setting, drive, no_log, recover, analyze, arguments_of}
use data_recovery_tool.CommandLine.Options.{parse_command_line-arguments_of}
use data_recovery_tool.Handler.{Surroundings, Finished, main}
use data_recovery_tool.Utils.Log.{LogLine, new_log_file}
use data_recovery_tool.Handler.Reading.{main_recovers_nothing}
use data_recovery_tool.Tests.Sample.{device, is_ascii_alnum}

abbrev zeros : ℕ → List ℕ
zeros n = replicate n 0

abbrev boot_sector : List ℕ
boot_sector =
    zeros 11
    ++ (0 ∷ 2 ∷ 1 ∷ 1 ∷ 0 ∷ 1 ∷ zeros 15)
    ++ (12 ∷ 0 ∷ 0 ∷ 0 ∷ 1 ∷ zeros 7)
    ++ (2 ∷ zeros 37)
    ++ codes "FAT32   "

abbrev root_directory : List ℕ
root_directory = (0xE5 ∷ codes "OTES   TXT") ++ (0x20 ∷ zeros 14) ++ (3 ∷ 0 ∷ 10 ∷ 0 ∷ 0 ∷ 0 ∷ [])

abbrev sectors : ℕ → List ℕ
sectors sector =
    if sector == 0
    then boot_sector
    else if sector == 2
    then root_directory
    else if sector == 3
    then codes "Hello, you!"
    else []

abbrev reader : SectorReader
reader = record (device sectors) { bytes_per_sector = 512 }

-- The user takes all files, and goes on without a log where there is none.
abbrev world : Surroundings
world = record {
  string_to_wstring = λ text. text;
  towupper = λ c. if leb b'a' c && leb c b'z' then c - 32 else c;
  iswalpha = λ c. leb b'A' c && leb c b'Z';
  iswalnum = is_ascii_alnum;
  open_reader = λ path. ok reader;
  host = record {
    clock = λ step. 0;
    holds = λ name. false;
    same_name = same_text;
    can_create = λ name. true;
    tries = 3;
  };
  answers = record { fuel = 5; log_opened = false; confirmed = true; input = codes "1" };
  output_exists = some false;
  can_create_directory = true;
  log_folder = record {
    holds = λ name. false;
    can_open = λ name. true;
    tries = 3;
    convert = λ text. (text, true);
  };
}

abbrev reading : List Setting
reading = drive true (codes "f:") ∷ no_log false ∷ []

abbrev found_line : LogLine
found_line = record { file_id = 1; file_name = codes "_OTES"; file_size = 10 }

-- Without a log.
abbrev listed : Finished
listed = record {
  processed = record {
    writes = [];
    statuses = [];
    tracker = new_tracker;
    reported = found_line ∷ [];
  };
  log = new_log_file;
}

reading_run : main world (flatten (map arguments_of reading)) ≡ ok listed
unfolding main
reading_run = refl

-- With `--recover` the ten bytes of the file are written, and a line of the log.
abbrev recovered : Finished
recovered = record {
  processed = record {
    writes = record { name = codes "_OTES.TXT"; content = codes "Hello, you" } ∷ [];
    statuses = record (initial 1) { recovered_bytes = 10; recovered_clusters = 1 } ∷ [];
    tracker = record new_tracker { written = codes "_OTES.TXT" ∷ [] };
    reported = found_line ∷ [];
  };
  log = record new_log_file { content = codes "#1 Filename: \"_OTES\" (10 bytes)\n" };
}

recovering_run : main world (codes "--recover" ∷ codes "-d" ∷ codes "F" ∷ []) ≡ ok recovered
unfolding main
recovering_run = refl

main_recovers_nothing_example : listed.processed.writes ≡ []
main_recovers_nothing_example =
    main_recovers_nothing world reading listed (tt, (tt, tt)) reading_run

abbrev all_settings : List Setting
all_settings = drive false (codes "G") ∷ recover true ∷ drive true (codes "f:") ∷ analyze false ∷ []

parse_command_line-arguments_of_example :
    parse_command_line (λ text. text) (flatten (map arguments_of all_settings)) initial_config
    ≡ ok (record initial_config { drive_path = codes "f:"; recover = true; analyze = true })
parse_command_line-arguments_of_example =
    parse_command_line-arguments_of (λ text. text) all_settings initial_config refl
