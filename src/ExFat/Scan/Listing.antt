-- ===== src/ExFat/Scan/Listing.antt =====
-- The list that the search of an exFAT volume leaves, against what the volume holds.
use data_recovery_tool.Common.{
  ℕ, ◌≡◌, refl, inl, inr, true, ◌||◌, ◌&&◌, not, Bool, Bool-cases, All, Some, ok, err, exited,
  Outcome, Ends-ok,
}
use data_recovery_tool.Config.{Config}
use data_recovery_tool.ExFat.Volume.{Drive}
use data_recovery_tool.ExFat.Scan.{State, scan_directory, scan_for_deleted_files}
use data_recovery_tool.ExFat.Scan.Invariant.{at_start}
use data_recovery_tool.ExFat.Scan.Reached.{Place, Reaches, IsDeletedFile, IsFileOf, Origin}
use data_recovery_tool.ExFat.Scan.Found.Sound.{IsOriginal, scan_directory-IsOriginal}
use data_recovery_tool.ExFat.Scan.Found.Complete.{Lists, scan_directory-Lists}

module _ (drive : Drive) (config : Config) where
  -- With recovery or analysis asked for, a search that returns lists the deleted files of the volume:
  -- every file listed is that of a complete set of entries, deleted and no directory, in a readable
  -- sector below the bound of a cluster that is entered from the root directory at a depth below the
  -- limit, and has its name, cluster and size; and for every such set a file with its name, cluster
  -- and size is listed. A subdirectory is entered at depth 1, however deep it lies.
  pub scan_for_deleted_files-lists_sets :
      (fuel : ℕ) (log_opened confirmed : Bool) (st : State)
      → (config.recover || config.analyze) ≡ true
      → scan_for_deleted_files drive config fuel log_opened confirmed at_start ≡ ok st
      → All (Origin drive drive.boot_sector.root_directory_cluster) st.recovery_list
        × ((cluster : ℕ)
            → Reaches drive 0 drive.boot_sector.root_directory_cluster cluster
            → (place : Place drive cluster) → IsDeletedFile drive place.set
            → Some (IsFileOf drive place.set) st.recovery_list)
  unfolding scan_for_deleted_files
  scan_for_deleted_files-lists_sets fuel log_opened confirmed st wanted returns =
      let root = drive.boot_sector.root_directory_cluster in
      elim (Bool-cases (not log_opened && not confirmed)) [
        | inl leaves ↦ absurd (no_exit (rw leaves at returns))
        | inr goes ↦
            let run : scan_directory drive config fuel root 0 at_start ≡ ok st =
              rw goes at returns in
            (
              Ends-ok (IsOriginal drive config wanted root) _
                  (scan_directory-IsOriginal drive config wanted root fuel root 0 at_start
                    (λ d r. r) tt)
                  run,
              λ cluster reaches place deleted.
                  Ends-ok (Lists drive config wanted place.set) _
                    (scan_directory-Lists drive config wanted place.set fuel 0 root cluster at_start
                      reaches place refl deleted)
                    run,
            )
      ]
    where
      no_exit : {st : State} → ◌≡◌ {A = Outcome State} (err (exited 1)) (ok st) → ⊥
      no_exit e = cc e
