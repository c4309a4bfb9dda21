-- ===== src/Analysis/Report.antt =====
-- What is printed of a file's status: `showAnalysisResult`, and `showRecoveryResult`, which
-- src/FAT32Recovery.cpp and src/exFATRecovery.cpp hold in the same words. A line of the report is
-- the message with the values that it shows.
use data_recovery_tool.Common.{ℕ, Bool, List, [], ◌∷◌, ◌++◌, if◌then◌else◌}
use data_recovery_tool.Analysis.Status.{Status, Ratio}

pub data Line : Type 0 where
  no_signs_of_corruption : Line
  appears_corrupted : Line
  invalid_file_name : Line
  invalid_extension : Line
  overwritten : List ℕ → Line
  fragmented : Ratio → Line
  repeated : ℕ → Line
  back_jumps : ℕ → Line
  large_gaps : ℕ → Line
  clusters_recovered : ℕ → ℕ → Line
  bytes_recovered : ℕ → ℕ → Line
  saved : List ℕ → Line
  failed_to_save : Line

-- The lines under a test.
abbrev pub lines_if : Bool → Line → List Line
lines_if shown line = if shown then line ∷ [] else []

unfoldable pub show_analysis_result : Status → List Line
show_analysis_result s =
    if s.is_corrupted
    then appears_corrupted ∷ lines_if s.has_invalid_file_name invalid_file_name
      ++ lines_if s.has_invalid_extension invalid_extension
      ++ lines_if s.has_overwritten_clusters (overwritten s.problematic_clusters)
      ++ lines_if s.has_fragmented_clusters (fragmented s.fragmentation)
      ++ lines_if s.has_repeated_clusters (repeated s.repeated_clusters)
      ++ lines_if s.has_back_jumps (back_jumps s.back_jumps)
      ++ lines_if s.has_large_gaps (large_gaps s.large_gaps)
    else no_signs_of_corruption ∷ []

-- The line on the file, which all three classes print. `exists` is the test behind the writing.
unfoldable pub show_saved : Bool → List ℕ → Line
show_saved exists path = if exists then saved path else failed_to_save

unfoldable pub show_recovery_result : Status → Bool → List ℕ → ℕ → List Line
unfolding show_saved
show_recovery_result s exists path expected_size =
    clusters_recovered s.recovered_clusters s.expected_clusters
    ∷ bytes_recovered s.recovered_bytes expected_size
    ∷ show_saved exists path
    ∷ []
