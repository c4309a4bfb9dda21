-- ===== src/Fat32/Scan/Listing.antt =====
-- The list that the search of a FAT32 volume leaves, against what the volume holds.
use data_recovery_tool.Common.{ℕ, ◌≡◌, refl, inl, inr, Bool, true, ◌||◌, ◌&&◌, not}
use data_recovery_tool.Common.{All, Some, Bool-cases}
use data_recovery_tool.Common.{ok, err, exited, Outcome, Ends-ok}
use data_recovery_tool.Config.{Config}
use data_recovery_tool.Fat32.Volume.{Drive}
use data_recovery_tool.Fat32.Scan.{State, scan_directory, scan_for_deleted_files}
use data_recovery_tool.Fat32.Scan.Invariant.{at_start}
use data_recovery_tool.Fat32.Scan.Reached.{
  Place, entry_at, IsDeletedFile, Reaches, here, IsFileOf, Origin,
}
use data_recovery_tool.Fat32.Scan.Found.Sound.{IsOriginal, scan_directory-IsOriginal}
use data_recovery_tool.Fat32.Scan.Found.Complete.{Lists, scan_directory-Lists}

module _ (drive : Drive) (config : Config) (iswalnum : ℕ → Bool) where
  -- With recovery or analysis asked for, a search that returns lists the deleted files of the volume:
  -- every file listed is that of a deleted entry, no directory, with a kept cluster, that stands at a
  -- place of a cluster reached from the root directory by chains and subdirectories, and has its
  -- cluster and its size; and for every such entry a file with its cluster and size is listed.
  pub scan_for_deleted_files-lists :
      (fuel : ℕ) (log_opened confirmed : Bool) (st : State)
      → (config.recover || config.analyze) ≡ true
      → scan_for_deleted_files drive config iswalnum fuel log_opened confirmed at_start ≡ ok st
      → All (Origin drive drive.root_dir_cluster) st.recovery_list
        × ((cluster : ℕ)
            → Reaches drive drive.root_dir_cluster cluster
            → (place : Place drive cluster) → IsDeletedFile drive (entry_at drive place)
            → Some (IsFileOf drive (entry_at drive place)) st.recovery_list)
  unfolding scan_for_deleted_files
  scan_for_deleted_files-lists fuel log_opened confirmed st wanted returns =
      let root = drive.root_dir_cluster in
      elim (Bool-cases (not log_opened && not confirmed)) [
        | inl leaves ↦ absurd (no_exit (rw leaves at returns))
        | inr goes ↦
            let run : scan_directory drive config iswalnum fuel root at_start ≡ ok st =
              rw goes at returns in
            (
              Ends-ok (IsOriginal drive config iswalnum root) _
                  (scan_directory-IsOriginal drive config iswalnum root fuel root at_start here tt)
                  run,
              λ cluster reaches place deleted.
                  Ends-ok (Lists drive config iswalnum (entry_at drive place)) _
                    (scan_directory-Lists drive config iswalnum wanted (entry_at drive place) fuel
                      root cluster at_start reaches place refl deleted)
                    run,
            )
      ]
    where
      no_exit : {st : State} → ◌≡◌ {A = Outcome State} (err (exited 1)) (ok st) → ⊥
      no_exit e = cc e
