-- ===== src/Recovery.antt =====
-- `recoverFile` of the recovery classes: the content of a chain of clusters goes to the output.
pub mod Prefix
pub mod Complete
use data_recovery_tool.Common.{ℕ, zero, suc, ◌+◌, Bool, true, false, List, [], ◌∷◌, ◌++◌, min}
use data_recovery_tool.Common.{none, some, leb, if◌then◌else◌, take, add64, sub64}
use data_recovery_tool.Common.{Outcome, ok, ◌>>◌, require, thrown}
use data_recovery_tool.Common.{failed_to_create_output}
use data_recovery_tool.Device.{SectorReader}
use data_recovery_tool.Analysis.Status.{Status}

-- The bytes written and the two counters of the status.
pub record Progress : Type 0 where
  pub output : List ℕ
  pub recovered_bytes : ℕ
  pub recovered_clusters : ℕ

module _ (reader : SectorReader) (bytes_per_sector sectors_per_cluster expected_size : ℕ) where
  unfoldable pub write_sector : List ℕ → Progress → Progress
  write_sector buffer p =
      let bytes_to_write = min bytes_per_sector (sub64 expected_size p.recovered_bytes) in
      record p {
        output = p.output ++ take bytes_to_write buffer;
        recovered_bytes = add64 p.recovered_bytes bytes_to_write;
      }

  -- The inner loop, with the number of sectors left. A sector that cannot be read is left out.
  unfoldable pub write_sectors : ℕ → ℕ → Progress → Progress
  unfolding write_sector
  write_sectors zero sector p = p
  write_sectors (suc left) sector p = elim (reader.read_sector sector bytes_per_sector) [
    | none ↦ write_sectors left (sector + 1) p
    | some buffer ↦ elim (leb expected_size (write_sector buffer p).recovered_bytes) [
      | true ↦ write_sector buffer p
      | false ↦ write_sectors left (sector + 1) (write_sector buffer p)
    ]
  ]

  unfoldable pub write_cluster : ℕ → Progress → Progress
  unfolding write_sectors
  write_cluster sector p =
      let p' = write_sectors sectors_per_cluster sector p in
      record p' { recovered_clusters = add64 p'.recovered_clusters 1 }

  -- The outer loop.
  unfoldable pub write_chain : (ℕ → ℕ) → List ℕ → Progress → Progress
  unfolding write_cluster
  write_chain cluster_to_sector [] p = p
  write_chain cluster_to_sector (cluster ∷ chain) p =
      let p' = write_cluster (cluster_to_sector cluster) p in
      let rest = write_chain cluster_to_sector chain p' in
      if leb expected_size p'.recovered_bytes then p' else rest

  -- `opened` says whether the output file could be created; the bytes are the file's content.
  unfoldable pub recover_file : Bool → (ℕ → ℕ) → List ℕ → Status → Outcome (List ℕ × Status)
  unfolding write_chain
  recover_file opened cluster_to_sector chain status = do
    require opened (thrown failed_to_create_output)
    let start : Progress = record {
      output = [];
      recovered_bytes = status.recovered_bytes;
      recovered_clusters = status.recovered_clusters;
    }
    let p = write_chain cluster_to_sector chain start
    ok (
      p.output,
      record status {
        recovered_bytes = p.recovered_bytes;
        recovered_clusters = p.recovered_clusters;
      },
    )
