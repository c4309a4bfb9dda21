-- ===== src/CommandLine.antt =====
-- `parseCommandLine` of src/main.cpp. An argument is a list of code units; `stringToWstring` is the
-- system's conversion from UTF-8, a parameter.
pub mod Options
use data_recovery_tool.Common.{ℕ, Bool, true, false, ◌||◌, List, [], ◌∷◌, length, ◌==◌}
use data_recovery_tool.Common.{Outcome, ok, err, ◌>>=◌, exited, thrown, drive_argument_missing}
use data_recovery_tool.Config.{Config}
use data_recovery_tool.Text.{codes, same_text}

-- The initial values of the settings.
abbrev pub initial_config : Config
initial_config = record {
  drive_path = [];
  input_folder = [];
  output_folder = codes "Recovered";
  log_folder = codes "Log";
  log_file = codes "FileDataLog.txt";
  target_cluster = 0;
  target_file_size = 0;
  create_file_data_log = true;
  recover = false;
  analyze = false;
}

-- One of the two spellings of an option.
abbrev pub is_option : List ℕ → List ℕ → List ℕ → Bool
is_option arg short long = same_text arg short || same_text arg long

-- The tests behind that for the drive. Their own exceptions are caught in the round that throws them,
-- which ends the program with 1; the help ends it with 0. The text is printed.
unfoldable pub set_flag : List ℕ → Config → Outcome Config
unfolding same_text
set_flag arg config = elim (is_option arg (codes "-l") (codes "--no-log")) [
  | true ↦ ok (record config { create_file_data_log = false })
  | false ↦ elim (is_option arg (codes "-r") (codes "--recover")) [
    | true ↦ ok (record config { recover = true })
    | false ↦ elim (is_option arg (codes "-a") (codes "--analyze")) [
      | true ↦ ok (record config { analyze = true })
      | false ↦ elim (is_option arg (codes "-h") (codes "--help")) [
        | true ↦ err (exited 0)
        | false ↦ err (exited 1)
      ]
    ]
  ]
]

module _ (string_to_wstring : List ℕ → List ℕ) where
  -- The loop. A drive that is not followed by its path ends the program with 1.
  unfoldable pub parse_arguments : List (List ℕ) → Config → Outcome Config
  unfolding set_flag
  parse_arguments [] config = ok config
  parse_arguments (arg ∷ []) config = elim (is_option arg (codes "-d") (codes "--drive")) [
    | true ↦ err (exited 1)
    | false ↦ set_flag arg config
  ]
  parse_arguments (arg ∷ next ∷ rest) config = elim (is_option arg (codes "-d") (codes "--drive")) [
    | true ↦ parse_arguments rest (record config { drive_path = string_to_wstring next })
    | false ↦ do config' ← set_flag arg config; parse_arguments (next ∷ rest) config'
  ]

  unfoldable pub parse_command_line : List (List ℕ) → Config → Outcome Config
  unfolding parse_arguments
  parse_command_line args config = do
    config' ← parse_arguments args config
    elim (length config'.drive_path == 0) [
      | true ↦ err (thrown drive_argument_missing)
      | false ↦ ok config'
    ]
