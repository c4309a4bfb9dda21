-- ===== src/ExFat/Scan/Found/Sound.antt =====
-- Every file that the search of an exFAT volume lists is a deleted file of the volume.
use data_recovery_tool.Common.{ℕ, zero, suc, ◌+◌, ◌≡◌, true, ◌||◌, [], ◌∷◌}
use data_recovery_tool.Common.{All, All-append, Outcome, Ends}
use data_recovery_tool.Config.{Config}
use data_recovery_tool.ExFat.Volume.{Drive}
use data_recovery_tool.ExFat.Scan.{State, scan_directory}
use data_recovery_tool.ExFat.Scan.Reached.{Place, Reaches, IsEntered, Origin}
use data_recovery_tool.ExFat.Scan.Visits.{Anyhow, Keeps, scan_cluster-Keeps}
use data_recovery_tool.ExFat.Scan.Found.{record_file-adds, finalize-Ends, scan_directory-step}

module _ (drive : Drive) (config : Config) (wanted : (config.recover || config.analyze) ≡ true)
    (root : ℕ) where
  abbrev pub IsOriginal : State → Type 0
  IsOriginal st = All (Origin drive root) st.recovery_list

  -- What is reached from a cluster at a depth is reached from the root.
  abbrev LeadsOn : ℕ → ℕ → Type 0
  LeadsOn depth cluster = (d : ℕ) → Reaches drive depth cluster d → Reaches drive 0 root d

  place-IsOriginal :
      (scan : ℕ → State → Outcome State)
      → ((c : ℕ) (st : State) → LeadsOn 1 c → IsOriginal st → Ends IsOriginal Anyhow (scan c st))
      → (cluster depth : ℕ) → IsEntered drive depth cluster
      → LeadsOn depth cluster
      → (place : Place drive cluster) → Keeps drive config scan IsOriginal place.set
  place-IsOriginal scan scans cluster depth entered leads place st p =
      finalize-Ends drive config IsOriginal scan place.set st
        (λ complete directory.
          scans place.set.starting_cluster st
            (λ d r. leads d (Reaches.child entered place complete directory r)) p)
        (λ deleted.
          let (file, added, same) = record_file-adds drive config wanted place.set st in
          rw added (
            All-append (Origin drive root) st.recovery_list (file ∷ []) p (
              record {
                cluster = cluster;
                reached = leads cluster (Reaches.here entered);
                place = place;
                deleted = deleted;
                same = same;
              },
              tt,
            )))
        p

  pub scan_directory-IsOriginal :
      (fuel cluster depth : ℕ) (st : State)
      → LeadsOn depth cluster
      → IsOriginal st
      → Ends IsOriginal Anyhow (scan_directory drive config fuel cluster depth st)
  unfolding scan_directory
  scan_directory-IsOriginal zero cluster depth st leads p = tt
  scan_directory-IsOriginal (suc fuel) cluster depth st leads p =
      let scan = λ (c : ℕ). scan_directory drive config fuel c 1 in
      scan_directory-step drive config IsOriginal IsOriginal fuel cluster depth st (λ stopped. p)
        (λ entered.
          scan_cluster-Keeps drive config scan IsOriginal cluster st
            (place-IsOriginal scan
              (λ c st' leads' p'. scan_directory-IsOriginal fuel c 1 st' leads' p') cluster depth
              entered leads)
            p)
        (λ st' next p' e ends. p')
        (λ st' next entered p' e (valid, other).
          scan_directory-IsOriginal fuel next (depth + 1) st'
            (λ d r. leads d (Reaches.chain entered e valid other r)) p')
