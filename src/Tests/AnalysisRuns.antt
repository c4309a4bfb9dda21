-- ===== src/Tests/AnalysisRuns.antt =====
-- The analysis of chains at concrete inputs.
use data_recovery_tool.Common.{ℕ, ◌≡◌, refl, List, [], ◌∷◌, Outcome, ok, true, false, arith}
use data_recovery_tool.Common.{◌==◌, if◌then◌else◌}
use data_recovery_tool.Common.{◌↔◌, ◌≢◌, err, out_of_fuel}
use data_recovery_tool.History.{ClusterHistory, empty, record_cluster_usage, find_overlapping_usage}
use data_recovery_tool.History.Overlap.{IsOneFile, find_overlapping_usage_empty}
use data_recovery_tool.Analysis.Overwrites.{analyze_cluster_overwrites}
use data_recovery_tool.Analysis.Overwrites.Termination.{analyze_cluster_overwrites_terminates}
use data_recovery_tool.Analysis.Status.{Status, initial}
use data_recovery_tool.Analysis.Pattern.{analyze_cluster_pattern}
use data_recovery_tool.Analysis.Pattern.Counts.{Describes, analyze_cluster_pattern-Describes}
use data_recovery_tool.Analysis.Chain.{walk}
use data_recovery_tool.Analysis.Chain.Walk.{IsChain, walk-IsChain}

-- One repeat, one large gap and one jump back among eleven pairs.
abbrev jumpy : List ℕ
jumpy = 5 ∷ 6 ∷ 6 ∷ 7 ∷ 2000 ∷ 2001 ∷ 2002 ∷ 30 ∷ 31 ∷ 32 ∷ 33 ∷ 34 ∷ []

analyze_cluster_pattern-Describes_example :
    Describes jumpy (initial 12) (analyze_cluster_pattern jumpy (initial 12))
analyze_cluster_pattern-Describes_example =
    analyze_cluster_pattern-Describes jumpy (initial 12) (omega arith) (omega arith)
      (refl, refl, refl)

-- A table with one live entry.
abbrev entry : ℕ → ℕ
entry c = if c == 6 then 40 else 0

abbrev table : ℕ → Outcome ℕ
table c = ok (entry c)

walk_run : walk table false 4 5 [] (initial 4) ≡ ok (5 ∷ 6 ∷ 40 ∷ 41 ∷ [], initial 4)
unfolding walk
walk_run = refl

walk-IsChain_example :
    (chain : List ℕ) × (s' : Status) × (walk table true 4 5 [] (initial 4) ≡ ok (chain, s'))
    × IsChain entry 4 5 chain
walk-IsChain_example = walk-IsChain entry table (λ c. refl) true 4 5 [] (initial 4)

abbrev cleared : ℕ → Outcome ℕ
cleared c = ok 0

-- Two usages of cluster 5 by the file 1 and one by the file 2.
abbrev used : ClusterHistory
used =
    record_cluster_usage 0 (record_cluster_usage 0 (record_cluster_usage 0 empty 5 1 0) 5 1 64) 5 2
      0

find_overlapping_usage_empty_example : (find_overlapping_usage used 5 ≡ []) ↔ IsOneFile (used 5)
unfolding record_cluster_usage
find_overlapping_usage_empty_example =
    find_overlapping_usage_empty used 5 (refl, (refl, (refl, tt)))

-- A table that leads from each cluster to itself.
abbrev circular : ℕ → Outcome ℕ
circular c = ok c

analyze_cluster_overwrites_terminates_example :
    analyze_cluster_overwrites circular (λ step. 0) 64 7 1000 16 5 used ≢ err out_of_fuel
analyze_cluster_overwrites_terminates_example =
    analyze_cluster_overwrites_terminates circular (λ c. tt) (λ step. 0) 64 7 1000 (omega arith)
      (omega arith) 16 5 used
