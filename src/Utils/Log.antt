-- ===== src/Utils/Log.antt =====
-- The log of the files found (src/Utils.cpp): the stream that is opened before the search, written to
-- for each file, and closed behind it; the directories and the prompt that belong to it.
pub mod Content
use data_recovery_tool.Common.{ℕ, ◌-◌, Bool, true, false, not, ◌&&◌, ◌||◌, List, [], ◌∷◌, ◌++◌, map}
use data_recovery_tool.Common.{
  Option, none, some, if◌then◌else◌, leb, Outcome, ok, err, thrown, ◌>>=◌,
}
use data_recovery_tool.Common.{failed_to_create_output_directory}
use data_recovery_tool.Config.{Config}
use data_recovery_tool.Text.{codes, same_text}
use data_recovery_tool.Utils.{decimal, get_output_path}

-- The arguments of `logFileInfo`.
pub record LogLine : Type 0 where
  pub file_id : ℕ
  pub file_name : List ℕ
  pub file_size : ℕ

-- `logFile`: whether the stream is open, whether an operation on it has failed, and what the run has
-- appended to the file.
pub record LogFile : Type 0 where
  pub is_open : Bool
  pub failed : Bool
  pub content : List ℕ

-- The names in the log folder, those that can be opened there, and what the stream's locale makes of
-- a text: the bytes that reach the file, and whether every character could be converted.
pub record LogFolder : Type 0 where
  pub holds : List ℕ → Bool
  pub can_open : List ℕ → Bool
  pub tries : ℕ
  pub convert : List ℕ → List ℕ × Bool

-- The stream before it is opened.
abbrev pub new_log_file : LogFile
new_log_file = record { is_open = false; failed = false; content = [] }

-- What `fs::exists` says of the output path, `none` for an exception, and whether the directories
-- can be created.
unfoldable pub ensure_output_directory : Option Bool → Bool → Outcome (Unit {0})
ensure_output_directory none can_create = err (thrown failed_to_create_output_directory)
ensure_output_directory (some true) can_create = ok tt
ensure_output_directory (some false) can_create =
    if can_create then ok tt else err (thrown failed_to_create_output_directory)

-- The line of one file.
unfoldable pub render : LogLine → List ℕ
unfolding decimal
render line =
    codes "#"
    ++ decimal line.file_id
    ++ codes " Filename: \""
    ++ line.file_name
    ++ codes "\" ("
    ++ decimal line.file_size
    ++ codes " bytes)\n"

-- `toupper` on ASCII.
abbrev upper : ℕ → ℕ
upper c = if leb b'a' c && leb c b'z' then c - 32 else c

-- The lines that the user types; at their end the answer is empty.
unfoldable pub confirm_proceed_without_log_file : List (List ℕ) → Bool
unfolding same_text
confirm_proceed_without_log_file [] = true
confirm_proceed_without_log_file (line ∷ lines) =
    let response = map upper line in
    let again = confirm_proceed_without_log_file lines in
    if same_text response (codes "Y") || same_text response []
    then true
    else if same_text response (codes "N")
    then false
    else again

unfoldable pub close_log_file : LogFile → LogFile
close_log_file log = if log.is_open then record log { is_open = false } else log

module _ (folder : LogFolder) (config : Config) where
  -- The stream, and the result.
  unfoldable pub open_log_file : LogFile → Outcome (LogFile × Bool)
  unfolding get_output_path
  open_log_file log = elim (config.create_file_data_log && not log.is_open) [
    | false ↦ ok (log, log.is_open)
    | true ↦ do
      name ← get_output_path folder.holds folder.tries config.log_file
      ok (
        record log {
          is_open = folder.can_open name;
          failed = log.failed || not (folder.can_open name);
        },
        folder.can_open name,
      )
  ]

  -- A stream that has failed, or that is not open, takes nothing.
  unfoldable pub write_to_log_file : LogLine → LogFile → LogFile
  unfolding render
  write_to_log_file line log =
      let (bytes, whole) = folder.convert (render line) in
      if log.failed
      then log
      else if log.is_open
      then record log { content = log.content ++ bytes; failed = not whole }
      else record log { failed = true }

  unfoldable pub log_file_info : LogLine → LogFile → LogFile
  unfolding write_to_log_file
  log_file_info line log = if config.create_file_data_log then write_to_log_file line log else log

  -- The files that a search reports, one after the other.
  unfoldable pub log_files : List LogLine → LogFile → LogFile
  unfolding log_file_info
  log_files [] log = log
  log_files (line ∷ lines) log = log_files lines (log_file_info line log)

  -- What a search leaves in the log: the stream is opened, written to, and closed.
  unfoldable pub log_search : List LogLine → Outcome LogFile
  unfolding open_log_file log_files close_log_file
  log_search lines = do
    (log, opened) ← open_log_file new_log_file
    ok (close_log_file (log_files lines log))
