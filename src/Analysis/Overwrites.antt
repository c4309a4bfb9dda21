-- ===== src/Analysis/Overwrites.antt =====
-- `analyzeClusterOverwrites`: which clusters of a file's chain other deleted files used. The class
-- passes its file allocation table as `next`, and the clock enters as a function of the offset.
pub mod Termination
use data_recovery_tool.Common.{ℕ, zero, suc, Bool, true, false, ◌&&◌}
use data_recovery_tool.Common.{List, [], ◌∷◌, ◌++◌, map, ltb, leb, ◌==◌, if◌then◌else◌, add64}
use data_recovery_tool.Common.{length, Outcome, ok, err, ◌>>=◌, out_of_fuel}
use data_recovery_tool.Analysis.Status.{Ratio}
use data_recovery_tool.History.{ClusterUsage, ClusterHistory, record_cluster_usage}
use data_recovery_tool.History.{find_overlapping_usage}

-- `overwritePercentage` is a hundred times this quotient; a map's missing keys read as empty.
pub record OverwriteAnalysis : Type 0 where
  pub has_overwrite : Bool
  pub overwritten_clusters : List ℕ
  pub overwritten_by : ℕ → List ℕ
  pub overwrite_quotient : Ratio

abbrev pub no_overwrite : OverwriteAnalysis
no_overwrite = record {
  has_overwrite = false;
  overwritten_clusters = [];
  overwritten_by = λ _. [];
  overwrite_quotient = record { num = 0; den = 1 };
}

-- The loop's body up to the record of the usage.
unfoldable pub note_overlaps :
    ℕ → List (ClusterUsage × ClusterUsage) → OverwriteAnalysis → OverwriteAnalysis
note_overlaps cluster [] a = a
note_overlaps cluster (p ∷ ps) a = record a {
  has_overwrite = true;
  overwritten_clusters = a.overwritten_clusters ++ cluster ∷ [];
  overwritten_by = λ c.
      if c == cluster
      then a.overwritten_by c ++ map (λ q. (q.1).file_id) (p ∷ ps)
      else a.overwritten_by c;
}

abbrev pub is_chain_cluster : ℕ → Bool
is_chain_cluster cluster = leb 2 cluster && ltb cluster 0x0FFFFFF8

module _ (next : ℕ → Outcome ℕ) (clock : ℕ → ℕ) (bytes_per_cluster file_id size : ℕ) where
  unfoldable pub overwrite_loop :
      ℕ → ℕ → ℕ → OverwriteAnalysis → ClusterHistory → Outcome (OverwriteAnalysis × ClusterHistory)
  unfolding note_overlaps record_cluster_usage find_overlapping_usage
  overwrite_loop zero offset cluster a history =
      if ltb offset size && is_chain_cluster cluster then err out_of_fuel else ok (a, history)
  overwrite_loop (suc fuel) offset cluster a history =
      elim (ltb offset size && is_chain_cluster cluster) [
        | false ↦ ok (a, history)
        | true ↦ do
          let a' = note_overlaps cluster (find_overlapping_usage history cluster) a
          let history' = record_cluster_usage (clock offset) history cluster file_id offset
          following ← next cluster
          overwrite_loop fuel (add64 offset bytes_per_cluster) following a' history'
      ]

  -- Each round moves the offset by a cluster, so `size` rounds are enough.
  unfoldable pub analyze_cluster_overwrites :
      ℕ → ℕ → ClusterHistory → Outcome (OverwriteAnalysis × ClusterHistory)
  unfolding overwrite_loop
  analyze_cluster_overwrites expected_clusters start history = do
    (a, history') ← overwrite_loop size 0 start no_overwrite history
    let quotient : Ratio = record { num = length a.overwritten_clusters; den = expected_clusters }
    let a' =
        if ltb 0 (length a.overwritten_clusters)
        then record a { overwrite_quotient = quotient }
        else a
    ok (a', history')
