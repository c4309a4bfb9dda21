-- ===== src/Config.antt =====
-- The settings of a run (src/Config.h) and the kinds of drive (src/Enums.h).
use data_recovery_tool.Common.{ℕ, Bool, List}

-- Texts are lists of UTF-16 code units.
pub record Config : Type 0 where
  pub drive_path : List ℕ
  pub input_folder : List ℕ
  pub output_folder : List ℕ
  pub log_folder : List ℕ
  pub log_file : List ℕ
  pub target_cluster : ℕ
  pub target_file_size : ℕ
  pub create_file_data_log : Bool
  pub recover : Bool
  pub analyze : Bool

pub data DriveType : Type 0 where
  unknown_type logical_type physical_type : DriveType
