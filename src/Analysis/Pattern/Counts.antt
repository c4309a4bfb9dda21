-- ===== src/Analysis/Pattern/Counts.antt =====
-- What `analyzeClusterPattern` says of a chain, by the numbers of its adjacent pairs of each kind.
use data_recovery_tool.Common.{ℕ, ◌+◌, ◌-◌, ◌*◌, ◌^◌, ◌≤◌, ◌<◌, ◌≡◌, ◌↔◌, ◌⊎◌, arith}
use data_recovery_tool.Common.{Bool, true, false, ◌||◌, List, [], ◌∷◌, ltb, ◌==◌}
use data_recovery_tool.Common.{if◌then◌else◌, length}
use data_recovery_tool.Analysis.Status.{Status}
use data_recovery_tool.Analysis.Pattern.{Counters, count_pair, count_from, count_pairs}
use data_recovery_tool.Analysis.Pattern.{analyze_cluster_pattern, fragmentation_of, is_severe}
use data_recovery_tool.Analysis.Pattern.{large_gap_threshold, minimum_clusters_for_analysis}

-- How many adjacent pairs of a list pass a test.
unfoldable pub pairs_from : (ℕ → ℕ → Bool) → ℕ → List ℕ → ℕ
pairs_from test previous [] = 0
pairs_from test previous (current ∷ rest) =
    (if test previous current then 1 else 0) + pairs_from test current rest

unfoldable pub pairs : (ℕ → ℕ → Bool) → List ℕ → ℕ
unfolding pairs_from
pairs test [] = 0
pairs test (first ∷ rest) = pairs_from test first rest

abbrev pub is_repeat : ℕ → ℕ → Bool
is_repeat previous current = previous == current

abbrev pub is_back_jump : ℕ → ℕ → Bool
is_back_jump previous current = ltb current previous

abbrev pub is_large_gap : ℕ → ℕ → Bool
is_large_gap previous current = ltb (previous + large_gap_threshold) current

record Counted (previous : ℕ) (rest : List ℕ) (s t : Counters) : Type 0 where
  repeated : t.repeated ≡ s.repeated + pairs_from is_repeat previous rest
  back : t.back ≡ s.back + pairs_from is_back_jump previous rest
  large : t.large ≡ s.large + pairs_from is_large_gap previous rest
  anomalies :
      t.anomalies
      ≡ s.anomalies
        + (pairs_from is_repeat previous rest
            + (pairs_from is_back_jump previous rest + pairs_from is_large_gap previous rest))

record HasRoom (n : ℕ) (s : Counters) : Type 0 where
  repeated : s.repeated + n < 2 ^ 32
  back : s.back + n < 2 ^ 32
  large : s.large + n < 2 ^ 32
  anomalies : s.anomalies + n < 2 ^ 32

count_pair-HasRoom :
    (previous current n : ℕ) (s : Counters)
    → HasRoom (n + 1) s
    → HasRoom n (count_pair previous current s)
unfolding count_pair
count_pair-HasRoom previous current n s h = ground arith

count_pair-Counted :
    (previous current : ℕ) (s : Counters)
    → HasRoom 1 s
    → Counted previous (current ∷ []) s (count_pair previous current s)
unfolding count_pair pairs_from
count_pair-Counted previous current s h = ground arith

count_from-Counted :
    (previous : ℕ) (rest : List ℕ) (s : Counters)
    → HasRoom (length rest) s
    → Counted previous rest s (count_from previous rest s)
unfolding count_from pairs_from
count_from-Counted previous [] s h = omega arith
count_from-Counted previous (current ∷ rest) s h =
    let room : HasRoom (length rest + 1) s = omega (arith, h.repeated) in
    let one : HasRoom 1 s = omega (arith, h.repeated) in
    let first = count_pair-Counted previous current s one in
    let tail =
      count_from-Counted current rest (count_pair previous current s)
        (count_pair-HasRoom previous current (length rest) s room) in
    omega (
      arith, first.repeated, first.back, first.large, first.anomalies, tail.repeated, tail.back,
      tail.large, tail.anomalies,
    )

-- `new` is the status that the analysis of `chain` makes of `old`.
pub record Describes (chain : List ℕ) (old new : Status) : Type 0 where
  pub repeated : new.repeated_clusters ≡ pairs is_repeat chain
  pub back : new.back_jumps ≡ pairs is_back_jump chain
  pub large : new.large_gaps ≡ pairs is_large_gap chain
  pub has_repeated : (new.has_repeated_clusters ≡ true) ↔ (0 < pairs is_repeat chain)
  pub has_back : (new.has_back_jumps ≡ true) ↔ (length chain - 1 < 10 * pairs is_back_jump chain)
  pub has_large : (new.has_large_gaps ≡ true) ↔ (length chain - 1 < 10 * pairs is_large_gap chain)
  pub has_fragmented : (new.has_fragmented_clusters ≡ true) ↔ (
      length chain - 1
      < 4 * (pairs is_repeat chain + (pairs is_back_jump chain + pairs is_large_gap chain)))
  pub score_le_one : new.fragmentation.num ≤ new.fragmentation.den
  pub corrupted : (new.is_corrupted ≡ true) ↔ (
      (old.is_corrupted ≡ true)
      ⊎ ((new.has_repeated_clusters ≡ true)
          ⊎ ((new.has_back_jumps ≡ true)
              ⊎ ((new.has_large_gaps ≡ true) ⊎ (new.has_fragmented_clusters ≡ true)))))

-- `fragmentation_of` and `is_severe` together compare four times the anomalies with the pairs.
severe_iff :
    (anomalies total : ℕ)
    → 0 < total
    → (is_severe (fragmentation_of anomalies total) ≡ true) ↔ (total < 4 * anomalies)
unfolding fragmentation_of is_severe
severe_iff anomalies total h = (ground arith, ground arith)

fragmentation-le-one :
    (anomalies total : ℕ)
    → (fragmentation_of anomalies total).num ≤ (fragmentation_of anomalies total).den
unfolding fragmentation_of
fragmentation-le-one anomalies total = ground arith

flag_iff : (a b c : ℕ) → b ≡ c → (ltb a b ≡ true) ↔ (a < c)
flag_iff a b c e = ground arith

any_flag :
    (back fragmented large repeated old : Bool)
    → ((if back || fragmented || large || repeated then true else old) ≡ true) ↔ (
        (old ≡ true)
        ⊎ ((repeated ≡ true) ⊎ ((back ≡ true) ⊎ ((large ≡ true) ⊎ (fragmented ≡ true)))))
any_flag back fragmented large repeated old = ground arith

-- A chain of at least ten clusters, and fewer than 2 ^ 32, analysed from counters at 0: the three
-- counters are the numbers of adjacent pairs that repeat a cluster, go back, or leave a gap of a
-- thousand clusters; each flag is set exactly when its count passes the threshold, the score is at
-- most 1, and the file is corrupted exactly when it was before or one of the flags is set.
pub analyze_cluster_pattern-Describes :
    (chain : List ℕ) (s : Status)
    → 10 ≤ length chain
    → length chain < 2 ^ 32
    → (s.repeated_clusters ≡ 0) × (s.back_jumps ≡ 0) × (s.large_gaps ≡ 0)
    → Describes chain s (analyze_cluster_pattern chain s)
unfolding analyze_cluster_pattern count_pairs pairs
analyze_cluster_pattern-Describes [] s many few zeros = absurd (omega arith)
analyze_cluster_pattern-Describes (first ∷ rest) s many few zeros =
    let start : Counters = record {
      repeated = s.repeated_clusters;
      back = s.back_jumps;
      large = s.large_gaps;
      anomalies = 0;
    } in
    let c = count_from-Counted first rest start (omega arith) in
    let t = count_from first rest start in
    let enough : ltb (length (first ∷ rest)) minimum_clusters_for_analysis ≡ false = ground arith in
    let severe = severe_iff t.anomalies (length (first ∷ rest) - 1) (omega arith) in
    rw enough (record {
      repeated = omega (arith, c.repeated);
      back = omega (arith, c.back);
      large = omega (arith, c.large);
      has_repeated = flag_iff 0 t.repeated _ (omega (arith, c.repeated));
      has_back = flag_iff _ (10 * t.back) _ (omega (arith, c.back));
      has_large = flag_iff _ (10 * t.large) _ (omega (arith, c.large));
      has_fragmented =
          (λ h. omega (arith, c.anomalies, severe.0 h), λ h. severe.1 (omega (arith, c.anomalies)));
      score_le_one = fragmentation-le-one t.anomalies (length (first ∷ rest) - 1);
      corrupted = any_flag _ _ _ _ s.is_corrupted;
    })

-- With fewer than ten clusters the status is left as it is.
pub analyze_cluster_pattern_short :
    (chain : List ℕ) (s : Status) → length chain < 10 → analyze_cluster_pattern chain s ≡ s
unfolding analyze_cluster_pattern
analyze_cluster_pattern_short chain s h = ground arith
