-- ===== src/Fat32/Recover.antt =====
-- The recovery of the files that the search found on a FAT32 volume.
pub mod Contiguous
use data_recovery_tool.Common.{ℕ, ◌*◌, ◌/◌, ◌^◌, Bool, true, false, ◌&&◌}
use data_recovery_tool.Common.{List, [], ◌∷◌, ◌++◌, ltb, ◌==◌, add32, sub32}
use data_recovery_tool.Common.{Outcome, ok, ◌>>=◌, ◌>>◌, require, thrown, division_by_zero}
use data_recovery_tool.Common.{file_size_overflow}
use data_recovery_tool.Config.{Config}
use data_recovery_tool.Analysis.Status.{Status, initial}
use data_recovery_tool.Analysis.Overwrites.{analyze_cluster_overwrites}
use data_recovery_tool.Analysis.Chain.{walk, conclude}
use data_recovery_tool.Recovery.{recover_file}
use data_recovery_tool.Select.{select_files_to_recover}
use data_recovery_tool.Text.{filename}
use data_recovery_tool.Utils.{get_output_path}
use data_recovery_tool.Session.{Tracker, Host, Processed, exists, is_skipped}
use data_recovery_tool.Fat32.Structs.{FileInfo}
use data_recovery_tool.Fat32.Volume.{Drive, is_valid_cluster, cluster_to_sector, get_next_cluster}

unfoldable pub bytes_per_cluster : Drive → ℕ
bytes_per_cluster drive = drive.sectors_per_cluster * drive.bytes_per_sector

-- `(expectedSize + bytesPerCluster - 1) / bytesPerCluster`, in 32 bits.
unfoldable pub clusters_for : Drive → ℕ → Outcome ℕ
unfolding bytes_per_cluster
clusters_for drive size = do
  require (ltb 0 (bytes_per_cluster drive)) division_by_zero
  ok (sub32 (add32 size (bytes_per_cluster drive)) 1 / bytes_per_cluster drive)

module _ (drive : Drive) (config : Config) (host : Host) where
  -- The analysis behind the loop of `validateClusterChain`.
  unfoldable pub analyze_chain :
      ℕ → ℕ → List ℕ → Bool → List ℕ → Status → Tracker → Outcome (Status × Tracker)
  unfolding clusters_for analyze_cluster_overwrites conclude is_valid_cluster get_next_cluster
      filename
  analyze_chain start size name is_extension_predicted chain status tracker = do
    expected_clusters ← clusters_for drive size
    (analysis, history) ←
        analyze_cluster_overwrites (get_next_cluster drive) host.clock (bytes_per_cluster drive)
          tracker.next_file_id size expected_clusters start tracker.history
    let status' =
        conclude analysis.has_overwrite (is_valid_cluster drive start) is_extension_predicted
          (filename name) chain status
    ok (status', record tracker { history = history; next_file_id = add32 tracker.next_file_id 1 })

  unfoldable pub validate_cluster_chain :
      ℕ → ℕ → List ℕ → Bool → Status → Tracker → Outcome (List ℕ × Status × Tracker)
  unfolding walk analyze_chain
  validate_cluster_chain start size name is_extension_predicted status tracker = do
    (chain, status') ←
        walk (get_next_cluster drive) config.analyze status.expected_clusters start [] status
    (status'', tracker') ← elim config.analyze [
      | false ↦ ok (status', tracker)
      | true ↦ analyze_chain start size name is_extension_predicted chain status' tracker
    ]
    ok (chain, status'', tracker')

  -- The local `isExtensionPredicted` of this function is false, whatever the file's own says.
  unfoldable pub process_file_for_recovery : FileInfo → Tracker → Outcome Processed
  unfolding clusters_for validate_cluster_chain recover_file get_output_path exists is_skipped
  process_file_for_recovery info tracker = elim (is_skipped config info.file_size info.cluster) [
    | true ↦ ok (record { writes = []; statuses = []; tracker = tracker; reported = [] })
    | false ↦ do
      name ← get_output_path (exists host tracker) host.tries info.full_name
      require (ltb info.file_size (2 ^ 32)) (thrown file_size_overflow)
      expected_clusters ← clusters_for drive info.file_size
      (chain, status, tracker') ←
          validate_cluster_chain info.cluster info.file_size name false (initial expected_clusters)
            tracker
      elim config.recover [
        | false ↦
            ok (record { writes = []; statuses = status ∷ []; tracker = tracker'; reported = [] })
        | true ↦ do
          (content, status') ←
              recover_file drive.reader drive.bytes_per_sector drive.sectors_per_cluster
                info.file_size (host.can_create name) (cluster_to_sector drive) chain status
          ok (record {
            writes = record { name = name; content = content } ∷ [];
            statuses = status' ∷ [];
            tracker = record tracker' { written = name ∷ tracker'.written };
            reported = [];
          })
      ]
  ]

  -- The loop of `recoverPartition`.
  unfoldable pub process_files : List FileInfo → Tracker → Outcome Processed
  unfolding process_file_for_recovery
  process_files [] tracker =
      ok (record { writes = []; statuses = []; tracker = tracker; reported = [] })
  process_files (info ∷ infos) tracker = do
    one ← process_file_for_recovery info tracker
    others ← process_files infos one.tracker
    ok (record {
      writes = one.writes ++ others.writes;
      statuses = one.statuses ++ others.statuses;
      tracker = others.tracker;
      reported = [];
    })

  -- `input` is what the user types.
  unfoldable pub recover_partition : List ℕ → List FileInfo → Tracker → Outcome Processed
  unfolding process_files select_files_to_recover
  recover_partition input [] tracker =
      ok (record { writes = []; statuses = []; tracker = tracker; reported = [] })
  recover_partition input (info ∷ infos) tracker = do
    selected ← elim (config.target_cluster == 0 && config.target_file_size == 0) [
      | true ↦ select_files_to_recover (λ file. file.file_id) input (info ∷ infos)
      | false ↦ ok (info ∷ infos)
    ]
    process_files selected tracker
