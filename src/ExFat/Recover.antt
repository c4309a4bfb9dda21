-- ===== src/ExFat/Recover.antt =====
-- The recovery of the files that the search found on an exFAT volume.
pub mod Consecutive
use data_recovery_tool.Common.{ℕ, ◌*◌, ◌/◌, Bool, true, false, ◌&&◌, List, [], ◌∷◌, ◌++◌}
use data_recovery_tool.Common.{ltb, ◌==◌, add32, mul32, add64, sub64}
use data_recovery_tool.Common.{Outcome, ok, ◌>>=◌, ◌>>◌, require, division_by_zero}
use data_recovery_tool.Config.{Config}
use data_recovery_tool.Analysis.Status.{Status, initial}
use data_recovery_tool.Analysis.Overwrites
use data_recovery_tool.Analysis.Overwrites.{OverwriteAnalysis}
use data_recovery_tool.Analysis.Chain.{walk, conclude}
use data_recovery_tool.Recovery
use data_recovery_tool.Select
use data_recovery_tool.Text.{filename}
use data_recovery_tool.Utils.{get_output_path}
use data_recovery_tool.Session.{Tracker, Host, Processed, exists, is_skipped}
use data_recovery_tool.ExFat.Structs.{FileInfo}
use data_recovery_tool.ExFat.Volume.{Drive, is_valid_cluster, cluster_to_sector, get_next_cluster}

-- The 64-bit product, which no pair of the shifts overflows.
unfoldable pub bytes_per_cluster : Drive → ℕ
bytes_per_cluster drive = drive.sectors_per_cluster * drive.bytes_per_sector

-- `(expectedSize + bytesPerCluster - 1) / bytesPerCluster`, in 64 bits; the divisor is not 0.
unfoldable pub clusters_for : ℕ → ℕ → ℕ
clusters_for divisor size = sub64 (add64 size divisor) 1 / divisor

-- The class's own `selectFilesToRecover`, in the words of the other two classes.
unfoldable pub select_files_to_recover : List ℕ → List FileInfo → Outcome (List FileInfo)
unfolding Select.select_files_to_recover
select_files_to_recover = Select.select_files_to_recover (λ file. file.file_id)

module _ (drive : Drive) (config : Config) (host : Host) where
  -- The class's own `analyzeClusterOverwrites`, which takes the size in 64 bits. The bytes per cluster
  -- are computed in 32 bits here.
  unfoldable pub analyze_cluster_overwrites :
      ℕ → ℕ → Tracker → Outcome (OverwriteAnalysis × Tracker)
  unfolding clusters_for Overwrites.analyze_cluster_overwrites get_next_cluster
  analyze_cluster_overwrites start size tracker = do
    let narrow = mul32 drive.sectors_per_cluster drive.bytes_per_sector
    require (ltb 0 narrow) division_by_zero
    (analysis, history) ←
        Overwrites.analyze_cluster_overwrites (get_next_cluster drive) host.clock narrow
          tracker.next_file_id size (clusters_for narrow size) start tracker.history
    ok (analysis, record tracker { history = history; next_file_id = add32 tracker.next_file_id 1 })

  -- The class's own `recoverFile`, which takes the size in 64 bits.
  unfoldable pub recover_file : List ℕ → Status → List ℕ → ℕ → Outcome (List ℕ × Status)
  unfolding Recovery.recover_file cluster_to_sector
  recover_file chain status name size =
      Recovery.recover_file drive.reader drive.bytes_per_sector drive.sectors_per_cluster size
        (host.can_create name) (cluster_to_sector drive) chain status

  -- The analysis behind the loop of `validateClusterChain`.
  unfoldable pub analyze_chain :
      ℕ → ℕ → List ℕ → Bool → List ℕ → Status → Tracker → Outcome (Status × Tracker)
  unfolding analyze_cluster_overwrites conclude is_valid_cluster filename
  analyze_chain start size name is_extension_predicted chain status tracker = do
    (analysis, tracker') ← analyze_cluster_overwrites start size tracker
    ok (
      conclude analysis.has_overwrite (is_valid_cluster drive start) is_extension_predicted
          (filename name) chain status,
      tracker',
    )

  unfoldable pub validate_cluster_chain :
      ℕ → ℕ → List ℕ → Bool → Status → Tracker → Outcome (List ℕ × Status × Tracker)
  unfolding walk analyze_chain
  validate_cluster_chain start size name is_extension_predicted status tracker = do
    (chain, status') ←
        walk (get_next_cluster drive) config.analyze status.expected_clusters start [] status
    (status'', tracker') ← elim config.analyze [
      | false ↦ ok (status', tracker)
      | true ↦ analyze_chain start size name is_extension_predicted chain status' tracker
    ]
    ok (chain, status'', tracker')

  unfoldable pub process_file_for_recovery : FileInfo → Tracker → Outcome Processed
  unfolding clusters_for bytes_per_cluster validate_cluster_chain recover_file get_output_path
      exists is_skipped
  process_file_for_recovery info tracker = elim (is_skipped config info.file_size info.cluster) [
    | true ↦ ok (record { writes = []; statuses = []; tracker = tracker; reported = [] })
    | false ↦ do
      name ← get_output_path (exists host tracker) host.tries info.file_name
      let expected_clusters = clusters_for (bytes_per_cluster drive) info.file_size
      (chain, status, tracker') ←
          validate_cluster_chain info.cluster info.file_size name false (initial expected_clusters)
            tracker
      elim config.recover [
        | false ↦
            ok (record { writes = []; statuses = status ∷ []; tracker = tracker'; reported = [] })
        | true ↦ do
          (content, status') ← recover_file chain status name info.file_size
          ok (record {
            writes = record { name = name; content = content } ∷ [];
            statuses = status' ∷ [];
            tracker = record tracker' { written = name ∷ tracker'.written };
            reported = [];
          })
      ]
  ]

  -- The loop of `recoverPartition`.
  unfoldable pub process_files : List FileInfo → Tracker → Outcome Processed
  unfolding process_file_for_recovery
  process_files [] tracker =
      ok (record { writes = []; statuses = []; tracker = tracker; reported = [] })
  process_files (info ∷ infos) tracker = do
    one ← process_file_for_recovery info tracker
    others ← process_files infos one.tracker
    ok (record {
      writes = one.writes ++ others.writes;
      statuses = one.statuses ++ others.statuses;
      tracker = others.tracker;
      reported = [];
    })

  -- `input` is what the user types. An empty list of files leaves only a message.
  unfoldable pub recover_partition : List ℕ → List FileInfo → Tracker → Outcome Processed
  unfolding process_files select_files_to_recover
  recover_partition input [] tracker =
      ok (record { writes = []; statuses = []; tracker = tracker; reported = [] })
  recover_partition input (info ∷ infos) tracker = do
    selected ← elim (config.target_cluster == 0 && config.target_file_size == 0) [
      | true ↦ select_files_to_recover input (info ∷ infos)
      | false ↦ ok (info ∷ infos)
    ]
    process_files selected tracker
