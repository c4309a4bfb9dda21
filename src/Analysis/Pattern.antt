-- ===== src/Analysis/Pattern.antt =====
-- `analyzeClusterPattern`: repeated clusters, backward jumps and gaps of a chain. The comparisons of
-- `double`s are written as comparisons of integers. They agree: the constant 0.1 is above 1/10 by a
-- factor 1 + 2^-54, so the rounded product `n * 0.1` is the integer n/10 where 10 divides n and
-- lies on the side of each integer on which n/10 lies elsewhere; and a quotient of 32-bit numbers
-- above 1/4 is above it by more than the rounding.
pub mod Counts
use data_recovery_tool.Common.{ℕ, ◌-◌, ◌*◌, Bool, true, ◌||◌, List, [], ◌∷◌, add32}
use data_recovery_tool.Common.{ltb, leb, ◌==◌, if◌then◌else◌, length}
use data_recovery_tool.Analysis.Status.{Status, Ratio}

abbrev pub minimum_clusters_for_analysis : ℕ
minimum_clusters_for_analysis = 10

abbrev pub large_gap_threshold : ℕ
large_gap_threshold = 1000

-- The counters that the loop keeps. The sum of the gaps is computed and not used.
pub record Counters : Type 0 where
  pub repeated : ℕ
  pub back : ℕ
  pub large : ℕ
  pub anomalies : ℕ

-- One round, at `clusters[i - 1]` and `clusters[i]`.
unfoldable pub count_pair : ℕ → ℕ → Counters → Counters
count_pair previous current s =
    if current == previous
    then record s { repeated = add32 s.repeated 1; anomalies = add32 s.anomalies 1 }
    else if ltb previous current
    then (if leb large_gap_threshold (current - previous - 1)
        then record s { large = add32 s.large 1; anomalies = add32 s.anomalies 1 }
        else s)
    else record s { back = add32 s.back 1; anomalies = add32 s.anomalies 1 }

unfoldable pub count_from : ℕ → List ℕ → Counters → Counters
unfolding count_pair
count_from previous [] s = s
count_from previous (current ∷ rest) s = count_from current rest (count_pair previous current s)

unfoldable pub count_pairs : List ℕ → Counters → Counters
unfolding count_from
count_pairs [] s = s
count_pairs (first ∷ rest) s = count_from first rest s

-- `min(1.0, anomalies / pairs)`.
unfoldable pub fragmentation_of : ℕ → ℕ → Ratio
fragmentation_of anomalies total_pairs =
    if ltb total_pairs anomalies
    then record { num = 1; den = 1 }
    else record { num = anomalies; den = total_pairs }

-- The score is above the threshold of 0.25.
unfoldable pub is_severe : Ratio → Bool
is_severe r = ltb r.den (4 * r.num)

unfoldable pub analyze_cluster_pattern : List ℕ → Status → Status
unfolding count_pairs fragmentation_of is_severe
analyze_cluster_pattern clusters status =
    let start : Counters = record {
      repeated = status.repeated_clusters;
      back = status.back_jumps;
      large = status.large_gaps;
      anomalies = 0;
    } in
    let s = count_pairs clusters start in
    let total_pairs = length clusters - 1 in
    let fragmentation = fragmentation_of s.anomalies total_pairs in
    let has_large_gaps = ltb total_pairs (10 * s.large) in
    let has_back_jumps = ltb total_pairs (10 * s.back) in
    let has_fragmented_clusters = is_severe fragmentation in
    let has_repeated_clusters = ltb 0 s.repeated in
    if ltb (length clusters) minimum_clusters_for_analysis then status else record status {
      repeated_clusters = s.repeated;
      back_jumps = s.back;
      large_gaps = s.large;
      fragmentation = fragmentation;
      has_large_gaps = has_large_gaps;
      has_back_jumps = has_back_jumps;
      has_fragmented_clusters = has_fragmented_clusters;
      has_repeated_clusters = has_repeated_clusters;
      is_corrupted =
          if has_back_jumps || has_fragmented_clusters || has_large_gaps || has_repeated_clusters
          then true
          else status.is_corrupted;
    }
