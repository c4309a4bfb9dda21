-- ===== src/Ntfs/Recover.antt =====
-- The recovery of the files that the search found on an NTFS volume.
pub mod Chain
use data_recovery_tool.Common.{ℕ, zero, suc, ◌/◌, true, false, ◌&&◌, List, [], ◌∷◌, ◌++◌}
use data_recovery_tool.Common.{ltb, ◌==◌, add64, sub64}
use data_recovery_tool.Common.{Outcome, ok, ◌>>=◌, ◌>>◌, require, division_by_zero, thrown}
use data_recovery_tool.Common.{failed_to_create_output, ◌+◌}
use data_recovery_tool.Config.{Config}
use data_recovery_tool.Analysis.Status.{Status, initial}
use data_recovery_tool.Analysis.FileName.{is_member}
use data_recovery_tool.Recovery.{recover_file}
use data_recovery_tool.Select
use data_recovery_tool.Utils.{get_output_path}
use data_recovery_tool.Session.{Tracker, Host, Processed, exists, is_skipped}
use data_recovery_tool.Ntfs.Structs.{FileInfo}
use data_recovery_tool.Ntfs.Volume.{Drive, cluster_to_sector}

-- The clusters of the run from the `i`-th on, with the number of those left. The set of used
-- clusters has the members of the chain.
unfoldable pub chain_of_run : ℕ → ℕ → ℕ → List ℕ → List ℕ
unfolding is_member
chain_of_run zero start i chain = chain
chain_of_run (suc left) start i chain = elim (is_member (add64 start i) chain) [
  | true ↦ chain_of_run left start (i + 1) chain
  | false ↦ chain_of_run left start (i + 1) (chain ++ add64 start i ∷ [])
]

unfoldable pub validate_cluster_chain : FileInfo → List ℕ
unfolding chain_of_run
validate_cluster_chain info = chain_of_run info.run_length info.cluster 0 []

-- The class's own `selectFilesToRecover`, in the words of the other two classes.
unfoldable pub select_files_to_recover : List ℕ → List FileInfo → Outcome (List FileInfo)
unfolding Select.select_files_to_recover
select_files_to_recover = Select.select_files_to_recover (λ file. file.file_id)

module _ (drive : Drive) (config : Config) (host : Host) where
  -- `recoverFile` of the other classes under another name, with 64-bit numbers of clusters and
  -- sectors.
  unfoldable pub recover_non_resident_file :
      List ℕ → Status → List ℕ → ℕ → Outcome (List ℕ × Status)
  unfolding recover_file cluster_to_sector
  recover_non_resident_file chain status name size =
      recover_file drive.reader drive.boot_sector.bytes_per_sector
        drive.boot_sector.sectors_per_cluster size (host.can_create name) (cluster_to_sector drive)
        chain status

  unfoldable pub recover_resident_file : FileInfo → List ℕ → Outcome (List ℕ)
  recover_resident_file info name =
      require (host.can_create name) (thrown failed_to_create_output) >> ok info.content

  -- The content of a file that is to be written, and its status.
  unfoldable pub recover_content : FileInfo → List ℕ → ℕ → Outcome (List ℕ × Status)
  unfolding validate_cluster_chain recover_non_resident_file recover_resident_file
  recover_content info name expected_clusters = elim info.non_resident [
    | true ↦
        recover_non_resident_file (validate_cluster_chain info) (initial expected_clusters) name
          info.file_size
    | false ↦ do content ← recover_resident_file info name; ok (content, initial expected_clusters)
  ]

  unfoldable pub process_file_for_recovery : FileInfo → Tracker → Outcome Processed
  unfolding recover_content get_output_path exists is_skipped
  process_file_for_recovery info tracker = elim (is_skipped config info.file_size info.cluster) [
    | true ↦ ok (record { writes = []; statuses = []; tracker = tracker; reported = [] })
    | false ↦ do
      name ← get_output_path (exists host tracker) host.tries info.file_name
      require (ltb 0 drive.bytes_per_cluster) division_by_zero
      let expected_clusters =
          sub64 (add64 info.file_size drive.bytes_per_cluster) 1 / drive.bytes_per_cluster
      elim config.recover [
        | false ↦ ok (record {
          writes = [];
          statuses = initial expected_clusters ∷ [];
          tracker = tracker;
          reported = [];
        })
        | true ↦ do
          (content, status) ← recover_content info name expected_clusters
          ok (record {
            writes = record { name = name; content = content } ∷ [];
            statuses = status ∷ [];
            tracker = record tracker { written = name ∷ tracker.written };
            reported = [];
          })
      ]
  ]

  -- The loop of `recoverPartition`.
  unfoldable pub process_files : List FileInfo → Tracker → Outcome Processed
  unfolding process_file_for_recovery
  process_files [] tracker =
      ok (record { writes = []; statuses = []; tracker = tracker; reported = [] })
  process_files (info ∷ infos) tracker = do
    one ← process_file_for_recovery info tracker
    others ← process_files infos one.tracker
    ok (record {
      writes = one.writes ++ others.writes;
      statuses = one.statuses ++ others.statuses;
      tracker = others.tracker;
      reported = [];
    })

  -- `input` is what the user types. An empty list of files leaves only a message.
  unfoldable pub recover_partition : List ℕ → List FileInfo → Tracker → Outcome Processed
  unfolding process_files select_files_to_recover
  recover_partition input [] tracker =
      ok (record { writes = []; statuses = []; tracker = tracker; reported = [] })
  recover_partition input (info ∷ infos) tracker = do
    selected ← elim (config.target_cluster == 0 && config.target_file_size == 0) [
      | true ↦ select_files_to_recover input (info ∷ infos)
      | false ↦ ok (info ∷ infos)
    ]
    process_files selected tracker
