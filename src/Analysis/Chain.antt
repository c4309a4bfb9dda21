-- ===== src/Analysis/Chain.antt =====
-- `validateClusterChain`: the clusters that a file's content is read from, and the signs of
-- corruption that the walk meets. The class passes its file allocation table as `next`.
pub mod Walk
use data_recovery_tool.Common.{ℕ, zero, suc, Bool, true, false, ◌&&◌, ◌||◌, not}
use data_recovery_tool.Common.{List, [], ◌∷◌, ◌++◌, ltb, leb, ◌==◌, if◌then◌else◌, add32}
use data_recovery_tool.Common.{Outcome, ok, ◌>>=◌}
use data_recovery_tool.Analysis.Status.{Status}
use data_recovery_tool.Analysis.Pattern.{analyze_cluster_pattern}
use data_recovery_tool.Analysis.FileName.{is_member, is_file_name_corrupted}
use data_recovery_tool.Analysis.Overwrites.{is_chain_cluster}

-- A table entry that leads nowhere is replaced by the cluster behind the current one.
unfoldable pub follow : ℕ → ℕ → ℕ
follow cluster next_cluster =
    if next_cluster == cluster || ltb next_cluster 2 || leb 0x0FFFFFF8 next_cluster
    then add32 cluster 1
    else next_cluster

unfoldable pub mark : Bool → ℕ → Status → Status
mark found cluster s =
    if found
    then record s {
      is_corrupted = true;
      has_overwritten_clusters = true;
      problematic_clusters = s.problematic_clusters ++ cluster ∷ [];
    }
    else s

module _ (next : ℕ → Outcome ℕ) (analyze : Bool) where
  -- `isClusterInUse`
  unfoldable pub is_cluster_in_use : ℕ → Outcome Bool
  is_cluster_in_use cluster = do
    fat_value ← next cluster
    ok (not (fat_value == 0) && not (fat_value == 0xF8FFFFFF))

  -- The two tests of a cluster, which are made for the analysis only.
  unfoldable pub inspect : ℕ → List ℕ → Status → Outcome Status
  unfolding mark is_cluster_in_use
  inspect cluster used s = elim analyze [
    | false ↦ ok s
    | true ↦ do
      let s' = mark (is_member cluster used) cluster s
      in_use ← is_cluster_in_use cluster
      ok (mark in_use cluster s')
  ]

  -- The loop, with the number of clusters that are still wanted. `used` is the set of the clusters
  -- so far; the result is the chain from here on.
  unfoldable pub walk : ℕ → ℕ → List ℕ → Status → Outcome (List ℕ × Status)
  unfolding inspect follow
  walk zero cluster used s = ok ([], s)
  walk (suc wanted) cluster used s = elim (is_chain_cluster cluster) [
    | false ↦ ok ([], s)
    | true ↦ do
      s' ← inspect cluster used s
      next_cluster ← next cluster
      (chain, s'') ← walk wanted (follow cluster next_cluster) (cluster ∷ used) s'
      ok (cluster ∷ chain, s'')
  ]

-- What the analysis does behind the loop. The statement `status.isCorrupted;` that stands under the
-- test of the file name has no effect.
unfoldable pub conclude : Bool → Bool → Bool → List ℕ → List ℕ → Status → Status
unfolding analyze_cluster_pattern is_file_name_corrupted
conclude has_overwrite is_valid_start is_extension_predicted file_name chain s =
    let s1 = record s {
      has_overwritten_clusters = has_overwrite;
      is_corrupted = has_overwrite || s.is_corrupted;
    } in
    let s2 = record s1 { has_invalid_file_name = is_file_name_corrupted file_name } in
    let s3 = if is_valid_start then s2 else record s2 { is_corrupted = true } in
    let s4 =
      if is_extension_predicted
      then record s3 { is_corrupted = true; has_invalid_extension = true }
      else s3 in
    analyze_cluster_pattern chain s4
