-- ===== src/Ntfs/Runs/Last.antt =====
-- What the loop of `processDataAttribute` keeps of a list of data runs.
use data_recovery_tool.Common.{ℕ, zero, suc, ◌+◌, ◌*◌, ◌/◌, ◌≤◌, ◌<◌, ◌≡◌, refl, ap, ◌∙◌}
use data_recovery_tool.Common.{true, false, List, [], ◌∷◌, ◌++◌, arith, ltb, ◌==◌}
use data_recovery_tool.Common.{ok, length, All}
use data_recovery_tool.Ntfs.Structs.{FileInfo}
use data_recovery_tool.Ntfs.Volume.{Drive}
use data_recovery_tool.Ntfs.Runs.{read_runs}
use data_recovery_tool.Ntfs.Runs.Encoding.{Run, IsEncodable, StaysUp, target, encode_all}
use data_recovery_tool.Ntfs.Runs.Encoding.{read_run-encode}

-- The cluster that a list of runs leads to.
abbrev pub destination : ℕ → List Run → ℕ
destination lcn [] = lcn
destination lcn (r ∷ runs) = destination (target lcn r.move) runs

-- The clusters that the runs lead to stay on the volume.
abbrev pub IsOnVolume : Drive → ℕ → List Run → Type 0
IsOnVolume drive lcn [] = Unit
IsOnVolume drive lcn (r ∷ runs) =
    StaysUp lcn r.move
    × (target lcn r.move ≤ drive.boot_sector.total_sectors / drive.boot_sector.sectors_per_cluster)
    × IsOnVolume drive (target lcn r.move) runs

-- What the code keeps of a list of runs.
abbrev kept : ℕ → List Run → FileInfo → FileInfo
kept lcn [] info = info
kept lcn (r ∷ runs) info =
    kept (target lcn r.move) runs
      (record info { cluster = target lcn r.move; run_length = r.clusters; non_resident = true })

read_runs-encode_all :
    (drive : Drive) (runs : List Run) (fuel lcn : ℕ) (info : FileInfo)
    → 0 < drive.boot_sector.sectors_per_cluster
    → length runs < fuel
    → All IsEncodable runs
    → IsOnVolume drive lcn runs
    → read_runs fuel drive (encode_all runs) lcn info ≡ ok (kept lcn runs info)
unfolding read_runs
read_runs-encode_all drive runs zero lcn info pos few good on = absurd (omega arith)
read_runs-encode_all drive [] (suc fuel) lcn info pos few good on = refl
read_runs-encode_all drive (r ∷ runs) (suc fuel) lcn info pos few (good, goods) (up, inside, on) =
    let more : (r.length_size + 16 * r.offset_size == 0) ≡ false =
      ground (arith, good.some_length) in
    let (offset, read, leads) = read_run-encode r lcn (encode_all runs) good up in
    let divides : ltb 0 drive.boot_sector.sectors_per_cluster ≡ true = ground arith in
    let below : ltb (drive.boot_sector.total_sectors / drive.boot_sector.sectors_per_cluster)
          (target lcn r.move)
        ≡ false =
      ground arith in
    let rest =
      read_runs-encode_all drive runs fuel (target lcn r.move)
        (record info { cluster = target lcn r.move; run_length = r.clusters; non_resident = true })
        pos (omega arith) goods on in
    rw (more, read_runs, read, divides, leads, below, leads) rest

kept-append :
    (runs : List Run) (r : Run) (lcn : ℕ) (info : FileInfo)
    → kept lcn (runs ++ r ∷ []) info ≡ record info {
      cluster = destination lcn (runs ++ r ∷ []);
      run_length = r.clusters;
      non_resident = true;
    }
kept-append [] r lcn info = refl
kept-append (first ∷ runs) r lcn info = kept-append runs r (target lcn first.move) (record info {
  cluster = target lcn first.move;
  run_length = first.clusters;
  non_resident = true;
})

-- The loop reads every list of runs that is encoded in at most eight bytes for a length and seven for
-- a step, that stays on the volume, that is shorter than the fuel and not empty, where a cluster has
-- some sectors. What it leaves is the last run
-- alone: the cluster that all the steps lead to, and the length of the last run.
pub read_runs-last :
    (drive : Drive) (runs : List Run) (r : Run) (fuel lcn : ℕ) (info : FileInfo)
    → 0 < drive.boot_sector.sectors_per_cluster
    → length (runs ++ r ∷ []) < fuel
    → All IsEncodable (runs ++ r ∷ [])
    → IsOnVolume drive lcn (runs ++ r ∷ [])
    → read_runs fuel drive (encode_all (runs ++ r ∷ [])) lcn info
      ≡ ok (record info {
        cluster = destination lcn (runs ++ r ∷ []);
        run_length = r.clusters;
        non_resident = true;
      })
read_runs-last drive runs r fuel lcn info pos few good on =
    read_runs-encode_all drive (runs ++ r ∷ []) fuel lcn info pos few good on
    ∙ ap ok (kept-append runs r lcn info)
