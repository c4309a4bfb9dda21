-- ===== src/Analysis/Overwrites/Termination.antt =====
-- The loop of `analyzeClusterOverwrites` ends.
use data_recovery_tool.Common.{ℕ, zero, suc, ◌+◌, ◌^◌, ◌≤◌, ◌<◌, ◌≡◌, ◌≢◌, refl, inl, inr, arith}
use data_recovery_tool.Common.{true, false, ltb, ◌&&◌, add64, Bool-cases}
use data_recovery_tool.Common.{Outcome, err, Failure, out_of_fuel, Ends, Ends-bind}
use data_recovery_tool.History.{ClusterHistory, record_cluster_usage, find_overlapping_usage}
use data_recovery_tool.Analysis.Overwrites.{OverwriteAnalysis, overwrite_loop, note_overlaps}
use data_recovery_tool.Analysis.Overwrites.{analyze_cluster_overwrites, is_chain_cluster}
use data_recovery_tool.Analysis.Overwrites.{no_overwrite}

abbrev Any : OverwriteAnalysis × ClusterHistory → Type 0
Any r = Unit

abbrev HasFuel : Failure → Type 0
HasFuel e = e ≢ out_of_fuel

module _ (next : ℕ → Outcome ℕ) (reads : (c : ℕ) → Ends (λ n. Unit {0}) HasFuel (next c))
    (clock : ℕ → ℕ) (bytes_per_cluster file_id size : ℕ) (some_bytes : 0 < bytes_per_cluster)
    (fits : size + bytes_per_cluster < 2 ^ 64) where
  overwrite_loop-HasFuel :
      (fuel offset cluster : ℕ) (a : OverwriteAnalysis) (history : ClusterHistory)
      → size ≤ offset + fuel
      → Ends Any HasFuel
          (overwrite_loop next clock bytes_per_cluster file_id size fuel offset cluster a history)
  unfolding overwrite_loop
  overwrite_loop-HasFuel zero offset cluster a history enough =
      let ended : (ltb offset size && is_chain_cluster cluster) ≡ false = ground arith in
      rw (ended, Ends) tt
  overwrite_loop-HasFuel (suc fuel) offset cluster a history enough =
      elim (Bool-cases (ltb offset size && is_chain_cluster cluster)) [
        | inr ended ↦ rw (ended, Ends) tt
        | inl goes_on ↦
            rw (goes_on, Ends)
              (Ends-bind (λ n. Unit {0}) Any HasFuel (next cluster) _ (reads cluster)
                (λ following h.
                  overwrite_loop-HasFuel fuel (add64 offset bytes_per_cluster) following
                    (note_overlaps cluster (find_overlapping_usage history cluster) a)
                    (record_cluster_usage (clock offset) history cluster file_id offset)
                    (further offset cluster fuel goes_on enough)))
      ]
    where
      further :
          (offset cluster fuel : ℕ)
          → (ltb offset size && is_chain_cluster cluster) ≡ true
          → size ≤ offset + suc fuel
          → size ≤ add64 offset bytes_per_cluster + fuel
      further offset cluster fuel goes_on enough =
          let inside : offset < size = ground arith in
          let same : add64 offset bytes_per_cluster ≡ offset + bytes_per_cluster = omega arith in
          omega arith

  -- With clusters of some bytes, a size that leaves room for a cluster below 2 ^ 64, and a table
  -- whose reads do not want for fuel, the analysis of the overwrites ends, also on a chain that comes
  -- back to itself.
  pub analyze_cluster_overwrites_terminates :
      (expected_clusters start : ℕ) (history : ClusterHistory)
      → analyze_cluster_overwrites next clock bytes_per_cluster file_id size expected_clusters start
          history
        ≢ err out_of_fuel
  unfolding analyze_cluster_overwrites
  analyze_cluster_overwrites_terminates expected_clusters start history stuck =
      let run =
        overwrite_loop next clock bytes_per_cluster file_id size size 0 start no_overwrite
          history in
      let ends : Ends Any HasFuel (
          analyze_cluster_overwrites next clock bytes_per_cluster file_id size expected_clusters
            start history) =
        Ends-bind Any Any HasFuel run _
          (overwrite_loop-HasFuel size 0 start no_overwrite history (omega arith)) (λ r h. tt) in
      not_stuck (rw (stuck, Ends) at ends)
    where
      not_stuck : (out_of_fuel ≢ out_of_fuel) → ⊥
      not_stuck k = k refl
