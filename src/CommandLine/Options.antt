-- ===== src/CommandLine/Options.antt =====
-- The command lines that the options make.
use data_recovery_tool.Common.{ℕ, Bool, true, false, List, [], ◌∷◌, flatten, map, length, ◌==◌}
use data_recovery_tool.Common.{ok, ◌>>=◌, ◌≡◌, refl, ◌∙◌, if◌then◌else◌}
use data_recovery_tool.Config.{Config}
use data_recovery_tool.Text.{codes, same_text}
use data_recovery_tool.CommandLine.{set_flag, is_option, parse_arguments, parse_command_line}

-- The options but for the help; the flag asks for the short spelling.
pub data Setting : Type 0 where
  drive : Bool → List ℕ → Setting
  no_log recover analyze : Bool → Setting

abbrev pub arguments_of : Setting → List (List ℕ)
arguments_of (drive short path) = (if short then codes "-d" else codes "--drive") ∷ path ∷ []
arguments_of (no_log short) = (if short then codes "-l" else codes "--no-log") ∷ []
arguments_of (recover short) = (if short then codes "-r" else codes "--recover") ∷ []
arguments_of (analyze short) = (if short then codes "-a" else codes "--analyze") ∷ []

module _ (string_to_wstring : List ℕ → List ℕ) where
  -- What an option does to the settings.
  abbrev pub apply : Setting → Config → Config
  apply (drive short path) config = record config { drive_path = string_to_wstring path }
  apply (no_log short) config = record config { create_file_data_log = false }
  apply (recover short) config = record config { recover = true }
  apply (analyze short) config = record config { analyze = true }

  -- The options from the first to the last.
  abbrev pub apply_all : List Setting → Config → Config
  apply_all [] config = config
  apply_all (s ∷ settings) config = apply_all settings (apply s config)

  -- A flag is read by itself, whatever comes behind it.
  parse-flag :
      (arg : List ℕ) (args : List (List ℕ)) (config config' : Config)
      → is_option arg (codes "-d") (codes "--drive") ≡ false
      → set_flag arg config ≡ ok config'
      → parse_arguments string_to_wstring (arg ∷ args) config
        ≡ parse_arguments string_to_wstring args config'
  unfolding parse_arguments
  parse-flag arg [] config config' other flag = rw (other, parse_arguments, flag)
  parse-flag arg (next ∷ rest) config config' other flag = rw (other, parse_arguments, flag)

  pub parse_arguments-arguments_of :
      (settings : List Setting) (config : Config)
      → parse_arguments string_to_wstring (flatten (map arguments_of settings)) config
        ≡ ok (apply_all settings config)
  unfolding parse_arguments same_text set_flag
  parse_arguments-arguments_of [] config = refl
  parse_arguments-arguments_of (drive true path ∷ settings) config =
      parse_arguments-arguments_of settings (apply (drive true path) config)
  parse_arguments-arguments_of (drive false path ∷ settings) config =
      parse_arguments-arguments_of settings (apply (drive false path) config)
  parse_arguments-arguments_of (no_log true ∷ settings) config =
      parse-flag (codes "-l") (flatten (map arguments_of settings)) config _ refl refl
      ∙ parse_arguments-arguments_of settings (apply (no_log true) config)
  parse_arguments-arguments_of (no_log false ∷ settings) config =
      parse-flag (codes "--no-log") (flatten (map arguments_of settings)) config _ refl refl
      ∙ parse_arguments-arguments_of settings (apply (no_log false) config)
  parse_arguments-arguments_of (recover true ∷ settings) config =
      parse-flag (codes "-r") (flatten (map arguments_of settings)) config _ refl refl
      ∙ parse_arguments-arguments_of settings (apply (recover true) config)
  parse_arguments-arguments_of (recover false ∷ settings) config =
      parse-flag (codes "--recover") (flatten (map arguments_of settings)) config _ refl refl
      ∙ parse_arguments-arguments_of settings (apply (recover false) config)
  parse_arguments-arguments_of (analyze true ∷ settings) config =
      parse-flag (codes "-a") (flatten (map arguments_of settings)) config _ refl refl
      ∙ parse_arguments-arguments_of settings (apply (analyze true) config)
  parse_arguments-arguments_of (analyze false ∷ settings) config =
      parse-flag (codes "--analyze") (flatten (map arguments_of settings)) config _ refl refl
      ∙ parse_arguments-arguments_of settings (apply (analyze false) config)

  -- A command line that is put together from options, in either spelling and in any order, and that
  -- names a drive, is read as these options: each is applied to the settings, the last drive counts.
  pub parse_command_line-arguments_of :
      (settings : List Setting) (config : Config)
      → (length (apply_all settings config).drive_path == 0) ≡ false
      → parse_command_line string_to_wstring (flatten (map arguments_of settings)) config
        ≡ ok (apply_all settings config)
  unfolding parse_command_line
  parse_command_line-arguments_of settings config named =
      rw (parse_arguments-arguments_of settings config, ◌>>=◌, named)
