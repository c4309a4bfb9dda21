-- ===== src/History.antt =====
-- Which deleted files used a cluster (src/ClusterHistory.cpp, src/ClusterHistory.h,
-- src/Structures.h).
pub mod Overlap
use data_recovery_tool.Common.{ℕ, Bool, true, ◌&&◌, not, List, [], ◌∷◌, ◌++◌, ◌==◌, if◌then◌else◌}

pub record ClusterUsage : Type 0 where
  pub timestamp : ℕ
  pub file_id : ℕ
  pub is_deleted : Bool
  pub write_offset : ℕ

-- The map from clusters to usages. A key that is missing reads as the empty vector, which is also
-- what `operator[]` inserts for it.
abbrev pub ClusterHistory : Type 0
ClusterHistory = ℕ → List ClusterUsage

abbrev pub empty : ClusterHistory
empty cluster = []

-- `now` is the system's clock.
unfoldable pub record_cluster_usage : ℕ → ClusterHistory → ℕ → ℕ → ℕ → ClusterHistory
record_cluster_usage now history cluster file_id write_offset other =
    let usage : ClusterUsage = record {
      timestamp = now;
      file_id = file_id;
      is_deleted = true;
      write_offset = write_offset;
    } in
    if other == cluster then history other ++ usage ∷ [] else history other

abbrev pub is_overlap : ClusterUsage → ClusterUsage → Bool
is_overlap u v = not (u.file_id == v.file_id) && (u.is_deleted && v.is_deleted)

-- The inner loop, over the usages behind `u`.
unfoldable pub overlaps_of : ClusterUsage → List ClusterUsage → List (ClusterUsage × ClusterUsage)
overlaps_of u [] = []
overlaps_of u (v ∷ vs) = if is_overlap u v then (u, v) ∷ overlaps_of u vs else overlaps_of u vs

-- The outer loop.
unfoldable pub overlaps : List ClusterUsage → List (ClusterUsage × ClusterUsage)
unfolding overlaps_of
overlaps [] = []
overlaps (u ∷ us) = overlaps_of u us ++ overlaps us

unfoldable pub find_overlapping_usage : ClusterHistory → ℕ → List (ClusterUsage × ClusterUsage)
unfolding overlaps
find_overlapping_usage history cluster = overlaps (history cluster)
