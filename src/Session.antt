-- ===== src/Session.antt =====
-- What the recovery of files shares between the recovery classes: the output folder, the record of
-- used clusters, and the results.
use data_recovery_tool.Common.{
  ℕ, Bool, false, ◌&&◌, ◌||◌, not, List, [], ◌∷◌, ◌==◌, map, ◌≡◌, refl, if◌then◌else◌,
}
use data_recovery_tool.Config.{Config}
use data_recovery_tool.History.{ClusterHistory, empty}
use data_recovery_tool.Analysis.Status.{Status}
use data_recovery_tool.Utils.Log.{LogLine}

-- The fields that the analysis changes, and the names of the files written so far.
pub record Tracker : Type 0 where
  pub history : ClusterHistory
  pub next_file_id : ℕ
  pub written : List (List ℕ)

-- One file that is written to the output folder.
pub record OutputFile : Type 0 where
  pub name : List ℕ
  pub content : List ℕ

-- What the surroundings decide: the clock at the steps of the analysis, the names that the output
-- folder holds before the run, which names are the same to the file system (which may not look at
-- the case of letters), whether a file of a name can be created there, and how many
-- numbered names are tried at most.
pub record Host : Type 0 where
  pub clock : ℕ → ℕ
  pub holds : List ℕ → Bool
  pub same_name : List ℕ → List ℕ → Bool
  pub can_create : List ℕ → Bool
  pub tries : ℕ

-- The answers to the prompts, and the fuel of the search.
pub record Answers : Type 0 where
  pub fuel : ℕ
  pub log_opened : Bool
  pub confirmed : Bool
  pub input : List ℕ

-- The fields before the first file.
abbrev pub new_tracker : Tracker
new_tracker = record { history = empty; next_file_id = 0; written = [] }

unfoldable pub is_written : Host → List ℕ → List (List ℕ) → Bool
is_written host name [] = false
is_written host name (other ∷ others) = host.same_name name other || is_written host name others

-- What the processing of files leaves: the files written, in their order, the statuses, and the
-- changed fields, and the files that the search reported. A file that is written under the name of an earlier one takes its place.
pub record Processed : Type 0 where
  pub writes : List OutputFile
  pub statuses : List Status
  pub tracker : Tracker
  pub reported : List LogLine

-- `fs::exists` on a name in the output folder.
unfoldable pub exists : Host → Tracker → List ℕ → Bool
unfolding is_written
exists host tracker name = host.holds name || is_written host name tracker.written

-- The files that are in the output folder in the end: each one opened truncates an earlier one of the
-- same name.
unfoldable pub left_in_folder : Host → List OutputFile → List OutputFile
unfolding is_written
left_in_folder host [] = []
left_in_folder host (out ∷ later) =
    let rest = left_in_folder host later in
    if is_written host out.name (map (λ o. o.name) later) then rest else out ∷ rest

-- No two files are written under the same name.
abbrev pub IsApart : Host → List OutputFile → Type 0
IsApart host [] = Unit
IsApart host (out ∷ later) =
    (is_written host out.name (map (λ o. o.name) later) ≡ false) × IsApart host later

pub left_in_folder-IsApart :
    (host : Host) (writes : List OutputFile)
    → IsApart host writes
    → left_in_folder host writes ≡ writes
unfolding left_in_folder
left_in_folder-IsApart host [] apart = refl
left_in_folder-IsApart host (out ∷ later) (alone, apart) =
    rw (alone, left_in_folder-IsApart host later apart) refl

-- The files that the target settings rule out, and those with no content.
unfoldable pub is_skipped : Config → ℕ → ℕ → Bool
is_skipped config file_size cluster =
    file_size == 0
    || not (config.target_cluster == 0)
      && not (config.target_file_size == 0)
      && (not (cluster == config.target_cluster) || not (file_size == config.target_file_size))
