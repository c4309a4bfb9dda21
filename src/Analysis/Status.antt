-- ===== src/Analysis/Status.antt =====
-- The status of one file's recovery (FAT32RecoveryStatus and exFATRecoveryStatus).
use data_recovery_tool.Common.{ℕ, Bool, false, List, []}

-- A quotient that the code holds in a `double`.
pub record Ratio : Type 0 where
  pub num : ℕ
  pub den : ℕ

pub record Status : Type 0 where
  pub is_corrupted : Bool
  pub has_fragmented_clusters : Bool
  pub fragmentation : Ratio
  pub has_back_jumps : Bool
  pub back_jumps : ℕ
  pub has_repeated_clusters : Bool
  pub repeated_clusters : ℕ
  pub has_large_gaps : Bool
  pub large_gaps : ℕ
  pub has_overwritten_clusters : Bool
  pub has_invalid_file_name : Bool
  pub has_invalid_extension : Bool
  pub expected_clusters : ℕ
  pub recovered_clusters : ℕ
  pub recovered_bytes : ℕ
  pub problematic_clusters : List ℕ

-- `status = {}`, then the number of clusters that the size asks for.
abbrev pub initial : ℕ → Status
initial expected_clusters = record {
  is_corrupted = false;
  has_fragmented_clusters = false;
  fragmentation = record { num = 0; den = 1 };
  has_back_jumps = false;
  back_jumps = 0;
  has_repeated_clusters = false;
  repeated_clusters = 0;
  has_large_gaps = false;
  large_gaps = 0;
  has_overwritten_clusters = false;
  has_invalid_file_name = false;
  has_invalid_extension = false;
  expected_clusters = expected_clusters;
  recovered_clusters = 0;
  recovered_bytes = 0;
  problematic_clusters = [];
}
