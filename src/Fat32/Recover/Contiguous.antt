-- ===== src/Fat32/Recover/Contiguous.antt =====
-- The recovery of a deleted file of a FAT32 volume whose clusters are consecutive: the whole way from
-- its directory entry to the bytes written.
use data_recovery_tool.Common.{ℕ, ◌+◌, ◌-◌, ◌*◌, ◌/◌, ◌^◌, ◌≤◌, ◌<◌, ◌≡◌, refl, true, false, arith}
use data_recovery_tool.Common.{
  Bool, List, [], ◌∷◌, ok, err, thrown, failed_to_create_output, ltb, lt→ltb, take, sub32, add32,
}
use data_recovery_tool.Common.{rounded_up, rounded_up_unique}
use data_recovery_tool.Device.{SectorReader, IsExact}
use data_recovery_tool.Config.{Config}
use data_recovery_tool.Analysis.Status.{Status, initial}
use data_recovery_tool.Analysis.Chain.Walk.{consecutive, walk-consecutive}
use data_recovery_tool.Recovery.{recover_file}
use data_recovery_tool.Recovery.Prefix.{chain_content, recover_file-eq-take}
use data_recovery_tool.Utils.{get_output_path}
use data_recovery_tool.Session.{Tracker, Host, exists, is_skipped}
use data_recovery_tool.Fat32.Structs.{FileInfo}
use data_recovery_tool.Fat32.Volume.{Drive, cluster_to_sector, get_next_cluster}
use data_recovery_tool.Fat32.Recover.{bytes_per_cluster, clusters_for, process_file_for_recovery}
use data_recovery_tool.Fat32.Recover.{validate_cluster_chain}

-- For a size above 0 that leaves room for a cluster below 2 ^ 32, and clusters of some bytes, the
-- expected number of clusters is the
-- size divided by the bytes per cluster, rounded up: that many clusters hold the file, and one fewer
-- do not.
pub clusters_for_rounds_up :
    (drive : Drive) (size : ℕ)
    → 0 < bytes_per_cluster drive
    → 0 < size
    → size + bytes_per_cluster drive < 2 ^ 32
    → (n : ℕ) × (clusters_for drive size ≡ ok n)
      × (size ≤ n * bytes_per_cluster drive)
      × (n * bytes_per_cluster drive < size + bytes_per_cluster drive)
unfolding clusters_for
clusters_for_rounds_up drive size pos some_bytes room =
    let b = bytes_per_cluster drive in
    let divides : ltb 0 (bytes_per_cluster drive) ≡ true = lt→ltb _ _ pos in
    let e : sub32 (add32 size (bytes_per_cluster drive)) 1 ≡ size + bytes_per_cluster drive - 1 =
      omega arith in
    let (below, enough) = rounded_up (bytes_per_cluster drive) size pos some_bytes in
    ((size + b - 1) / b, rw (divides, e), enough, below)

-- A deleted file that was stored in `n` consecutive clusters, whose table entries are cleared. It has
-- some bytes, fewer by a cluster than 2 ^ 32, and `n` clusters are enough for them, but no fewer.
pub record IsIntact (drive : Drive) (cluster size n : ℕ) : Type 0 where
  pub some_cluster : 0 < drive.sectors_per_cluster * drive.bytes_per_sector
  pub some_bytes : 0 < size
  pub fits : size + drive.sectors_per_cluster * drive.bytes_per_sector < 2 ^ 32
  pub enough : size ≤ n * (drive.sectors_per_cluster * drive.bytes_per_sector)
  pub tight :
      n * (drive.sectors_per_cluster * drive.bytes_per_sector)
      < size + drive.sectors_per_cluster * drive.bytes_per_sector
  pub cleared : (c : ℕ) → cluster ≤ c → c < cluster + n → get_next_cluster drive c ≡ ok 0
  pub low : 2 ≤ cluster
  pub high : cluster + n ≤ 0x0FFFFFF8

clusters_for-IsIntact :
    (drive : Drive) (cluster size n : ℕ)
    → IsIntact drive cluster size n
    → clusters_for drive size ≡ ok n
unfolding clusters_for bytes_per_cluster
clusters_for-IsIntact drive cluster size n intact =
    let b = drive.sectors_per_cluster * drive.bytes_per_sector in
    let divides : ltb 0 b ≡ true = lt→ltb _ _ intact.some_cluster in
    let e : sub32 (add32 size b) 1 ≡ size + b - 1 = omega (arith, intact.fits, intact.some_bytes) in
    let n_pieces =
      rounded_up_unique b size n intact.some_cluster intact.some_bytes intact.enough intact.tight in
    rw (divides, e, n_pieces) refl

-- The first bytes of `n` consecutive clusters.
abbrev pub content_of : Drive → ℕ → ℕ → ℕ → List ℕ
content_of drive cluster size n = take size (
    chain_content drive.reader drive.bytes_per_sector drive.sectors_per_cluster
      (cluster_to_sector drive) (consecutive n cluster))

recover_file_refused :
    (reader : SectorReader) (bytes_per_sector sectors_per_cluster size : ℕ) (opened : Bool)
    (place : ℕ → ℕ) (chain : List ℕ) (status : Status)
    → opened ≡ false
    → recover_file reader bytes_per_sector sectors_per_cluster size opened place chain status
      ≡ err (thrown failed_to_create_output)
unfolding recover_file
recover_file_refused reader bytes_per_sector sectors_per_cluster size opened place chain status h =
    rw h refl

module _ (drive : Drive) (config : Config) (host : Host) where
  -- A file that the settings do not rule out is recovered without the analysis, the search of a free
  -- name ends, the output file can be created, and the reader fills each buffer that it reads. The
  -- file has some bytes, and its size and that of a cluster are together below 2 ^ 32. The table
  -- entries from its first cluster on are cleared for as many clusters as its size takes, rounded up,
  -- and these lie from 2 below 0x0FFFFFF8. Then the one file written holds the first bytes of the
  -- readable content of these consecutive clusters, as many as the size says.
  pub process_file_for_recovery-contiguous :
      (info : FileInfo) (tracker : Tracker) (name : List ℕ) (n : ℕ)
      → IsExact drive.reader
      → is_skipped config info.file_size info.cluster ≡ false
      → config.recover ≡ true
      → config.analyze ≡ false
      → get_output_path (exists host tracker) host.tries info.full_name ≡ ok name
      → host.can_create name ≡ true
      → IsIntact drive info.cluster info.file_size n
      → (status : Status) × (process_file_for_recovery drive config host info tracker
          ≡ ok (record {
            writes =
                record { name = name; content = content_of drive info.cluster info.file_size n }
                ∷ [];
            statuses = status ∷ [];
            tracker = record tracker { written = name ∷ tracker.written };
            reported = [];
          }))
  unfolding process_file_for_recovery validate_cluster_chain
  process_file_for_recovery-contiguous info tracker name n exact wanted recovers plain named creates
        intact =
      let fits : info.file_size < 2 ^ 32 = omega (arith, intact.fits) in
      let small : ltb info.file_size (2 ^ 32) ≡ true = lt→ltb _ _ fits in
      let expected = clusters_for-IsIntact drive info.cluster info.file_size n intact in
      let walked =
        walk-consecutive (get_next_cluster drive) n info.cluster [] (initial n) intact.cleared
          intact.low intact.high in
      let (status, written, counted) =
        recover_file-eq-take drive.reader drive.bytes_per_sector drive.sectors_per_cluster exact
          info.file_size (omega arith) (cluster_to_sector drive) (consecutive n info.cluster)
          (initial n) refl in
      let opened : recover_file drive.reader drive.bytes_per_sector drive.sectors_per_cluster
            info.file_size (host.can_create name) (cluster_to_sector drive)
            (consecutive n info.cluster) (initial n)
          ≡ ok (
            take info.file_size (
                chain_content drive.reader drive.bytes_per_sector drive.sectors_per_cluster
                  (cluster_to_sector drive) (consecutive n info.cluster)),
            status,
          ) =
        rw creates written in
      (
        status,
        rw (
          wanted, process_file_for_recovery, named, small, expected, validate_cluster_chain, plain,
          walked, recovers, opened,
        ),
      )

  -- The same file where the output file cannot be created.
  pub process_file_for_recovery-refused :
      (info : FileInfo) (tracker : Tracker) (name : List ℕ) (n : ℕ)
      → is_skipped config info.file_size info.cluster ≡ false
      → config.recover ≡ true
      → config.analyze ≡ false
      → get_output_path (exists host tracker) host.tries info.full_name ≡ ok name
      → host.can_create name ≡ false
      → IsIntact drive info.cluster info.file_size n
      → process_file_for_recovery drive config host info tracker
        ≡ err (thrown failed_to_create_output)
  unfolding process_file_for_recovery validate_cluster_chain
  process_file_for_recovery-refused info tracker name n wanted recovers plain named refuses intact =
      let fits : info.file_size < 2 ^ 32 = omega (arith, intact.fits) in
      let small : ltb info.file_size (2 ^ 32) ≡ true = lt→ltb _ _ fits in
      let expected = clusters_for-IsIntact drive info.cluster info.file_size n intact in
      let walked =
        walk-consecutive (get_next_cluster drive) n info.cluster [] (initial n) intact.cleared
          intact.low intact.high in
      let closed =
        recover_file_refused drive.reader drive.bytes_per_sector drive.sectors_per_cluster
          info.file_size (host.can_create name) (cluster_to_sector drive)
          (consecutive n info.cluster) (initial n) refuses in
      rw
        (
          wanted, process_file_for_recovery, named, small, expected, validate_cluster_chain, plain,
          walked, recovers, closed,
        )
        refl
