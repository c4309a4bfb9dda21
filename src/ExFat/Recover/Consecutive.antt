-- ===== src/ExFat/Recover/Consecutive.antt =====
-- The recovery of a deleted file of an exFAT volume whose clusters are consecutive.
use data_recovery_tool.Common.{ℕ, ◌+◌, ◌^◌, ◌≤◌, ◌<◌, ◌≡◌, refl, true, false, List, [], ◌∷◌}
use data_recovery_tool.Common.{ok, err, take, thrown, failed_to_create_output}
use data_recovery_tool.Common.{◌*◌, ◌-◌, arith, add64, sub64, rounded_up_unique}
use data_recovery_tool.Device.{IsExact}
use data_recovery_tool.Config.{Config}
use data_recovery_tool.Analysis.Status.{Status, initial}
use data_recovery_tool.Analysis.Chain.Walk.{consecutive, walk-consecutive}
use data_recovery_tool.Recovery
use data_recovery_tool.Recovery.Prefix.{chain_content, recover_file-eq-take}
use data_recovery_tool.Utils.{get_output_path}
use data_recovery_tool.Session.{Tracker, Host, exists, is_skipped}
use data_recovery_tool.ExFat.Structs.{FileInfo}
use data_recovery_tool.ExFat.Volume.{Drive, cluster_to_sector, get_next_cluster}
use data_recovery_tool.ExFat.Recover.{
  bytes_per_cluster, clusters_for, recover_file, validate_cluster_chain, process_file_for_recovery,
}

-- A deleted file that was stored in `n` consecutive clusters, for each of which the class reads 0 where
-- it looks for the table entry. It has some bytes, fewer by a cluster than 2 ^ 64, and `n` clusters
-- are enough for them, but no fewer.
pub record IsIntact (drive : Drive) (cluster size n : ℕ) : Type 0 where
  pub some_cluster : 0 < drive.sectors_per_cluster * drive.bytes_per_sector
  pub some_bytes : 0 < size
  pub fits : size + drive.sectors_per_cluster * drive.bytes_per_sector < 2 ^ 64
  pub enough : size ≤ n * (drive.sectors_per_cluster * drive.bytes_per_sector)
  pub tight :
      n * (drive.sectors_per_cluster * drive.bytes_per_sector)
      < size + drive.sectors_per_cluster * drive.bytes_per_sector
  pub cleared : (c : ℕ) → cluster ≤ c → c < cluster + n → get_next_cluster drive c ≡ ok 0
  pub low : 2 ≤ cluster
  pub high : cluster + n ≤ 0x0FFFFFF8

clusters_for-IsIntact :
    (drive : Drive) (cluster size n : ℕ)
    → IsIntact drive cluster size n
    → clusters_for (bytes_per_cluster drive) size ≡ n
unfolding clusters_for bytes_per_cluster
clusters_for-IsIntact drive cluster size n intact =
    let b = drive.sectors_per_cluster * drive.bytes_per_sector in
    let e : sub64 (add64 size b) 1 ≡ size + b - 1 = omega (arith, intact.fits, intact.some_bytes) in
    rw e
      (rounded_up_unique b size n intact.some_cluster intact.some_bytes intact.enough intact.tight)

-- The first bytes of `n` consecutive clusters.
abbrev pub content_of : Drive → ℕ → ℕ → ℕ → List ℕ
content_of drive cluster size n = take size (
    chain_content drive.reader drive.bytes_per_sector drive.sectors_per_cluster
      (cluster_to_sector drive) (consecutive n cluster))

module _ (drive : Drive) (config : Config) (host : Host) (recovers : config.recover ≡ true)
    (plain : config.analyze ≡ false) where
  -- The walk over the chain, without the analysis.
  validated :
      (info : FileInfo) (name : List ℕ) (tracker : Tracker) (n : ℕ)
      → IsIntact drive info.cluster info.file_size n
      → validate_cluster_chain drive config host info.cluster info.file_size name false
          (initial n)
          tracker
        ≡ ok (consecutive n info.cluster, initial n, tracker)
  unfolding validate_cluster_chain
  validated info name tracker n intact =
      rw
        (
          plain,
          walk-consecutive (get_next_cluster drive) n info.cluster [] (initial n) intact.cleared
              intact.low intact.high,
        )
        refl

  -- A file that the settings do not rule out, whose name is found and can be created, is written with
  -- its content.
  pub process_file_for_recovery-consecutive :
      (info : FileInfo) (tracker : Tracker) (name : List ℕ) (n : ℕ)
      → IsExact drive.reader
      → is_skipped config info.file_size info.cluster ≡ false
      → get_output_path (exists host tracker) host.tries info.file_name ≡ ok name
      → host.can_create name ≡ true
      → IsIntact drive info.cluster info.file_size n
      → (status : Status) × (process_file_for_recovery drive config host info tracker
          ≡ ok (record {
            writes =
                record { name = name; content = content_of drive info.cluster info.file_size n }
                ∷ [];
            statuses = status ∷ [];
            tracker = record tracker { written = name ∷ tracker.written };
            reported = [];
          }))
  unfolding process_file_for_recovery recover_file
  process_file_for_recovery-consecutive info tracker name n exact wanted named creates intact =
      let expected = clusters_for-IsIntact drive info.cluster info.file_size n intact in
      let fits : info.file_size < 2 ^ 64 = omega (arith, intact.fits) in
      let (status, written, counted) =
        recover_file-eq-take drive.reader drive.bytes_per_sector drive.sectors_per_cluster exact
          info.file_size fits (cluster_to_sector drive) (consecutive n info.cluster) (initial n)
          refl in
      let opened : Recovery.recover_file drive.reader drive.bytes_per_sector
            drive.sectors_per_cluster info.file_size (host.can_create name)
            (cluster_to_sector drive) (consecutive n info.cluster) (initial n)
          ≡ ok (content_of drive info.cluster info.file_size n, status) =
        rw creates written in
      (
        status,
        rw
            (
              wanted,
              process_file_for_recovery,
              named,
              expected,
              validated info name tracker n intact,
              recovers,
              recover_file,
              opened,
            )
            refl,
      )

  -- The same file where the output file cannot be created.
  pub process_file_for_recovery-refused :
      (info : FileInfo) (tracker : Tracker) (name : List ℕ) (n : ℕ)
      → is_skipped config info.file_size info.cluster ≡ false
      → get_output_path (exists host tracker) host.tries info.file_name ≡ ok name
      → host.can_create name ≡ false
      → IsIntact drive info.cluster info.file_size n
      → process_file_for_recovery drive config host info tracker
        ≡ err (thrown failed_to_create_output)
  unfolding process_file_for_recovery recover_file Recovery.recover_file
  process_file_for_recovery-refused info tracker name n wanted named refuses intact =
      let expected = clusters_for-IsIntact drive info.cluster info.file_size n intact in
      rw
        (
          wanted,
          process_file_for_recovery,
          named,
          expected,
          validated info name tracker n intact,
          recovers,
          recover_file,
          refuses,
        )
        refl
