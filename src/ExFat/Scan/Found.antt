-- ===== src/ExFat/Scan/Found.antt =====
-- What one set of entries adds to the list of an exFAT volume's deleted files, and the search of one
-- cluster. `scan` is the call on a subdirectory.
pub mod Sound
pub mod Complete
use data_recovery_tool.Common.{
  ℕ, suc, Bool, ◌+◌, ◌≡◌, ◌==◌, refl, inl, inr, true, false, ◌||◌, ◌&&◌, not, [], ◌∷◌, ◌++◌, leb,
  Bool-cases, ok, arith,
}
use data_recovery_tool.Common.{Outcome, Ends, Ends-bind, Ends-anyhow, Ends-self, ◌>>=◌}
use data_recovery_tool.Config.{Config}
use data_recovery_tool.ExFat.Structs.{DirEntryData, FileInfo}
use data_recovery_tool.ExFat.Volume.{Drive, is_valid_cluster, cluster_to_sector, get_next_cluster}
use data_recovery_tool.ExFat.Scan.{
  State, is_complete, record_file, parse_file_info, add_to_recovery_list, finalize_directory_entry,
  scan_sectors, scan_directory, max_recursion_depth,
}
use data_recovery_tool.ExFat.Scan.Reached.{IsDeletedFile, IsEntered, IsFileOf}
use data_recovery_tool.ExFat.Scan.Visits.{Anyhow, Keeps}

module _ (drive : Drive) (config : Config) where
  -- With recovery or analysis asked for, one file of the set is added.
  pub record_file-adds :
      (config.recover || config.analyze) ≡ true
      → (set : DirEntryData) (st : State)
      → (file : FileInfo) × ((record_file drive config set st).recovery_list
          ≡ st.recovery_list ++ file ∷ [])
        × IsFileOf drive set file
  unfolding record_file add_to_recovery_list parse_file_info
  record_file-adds wanted set st =
      ((parse_file_info st.file_id set).0, rw wanted refl, (refl, refl, refl))

  -- A set is searched, recorded, or left.
  pub finalize-Ends :
      (P : State → Type 0) (scan : ℕ → State → Outcome State) (set : DirEntryData) (st : State)
      → (is_complete drive set ≡ true
          → set.is_directory ≡ true
          → Ends P Anyhow (scan set.starting_cluster st))
      → (IsDeletedFile drive set → P (record_file drive config set st))
      → P st
      → Ends P Anyhow (finalize_directory_entry drive config scan set st)
  unfolding finalize_directory_entry
  finalize-Ends P scan set st enters records p = elim (Bool-cases (is_complete drive set)) [
    | inr partial ↦ rw (partial, Ends) p
    | inl complete ↦ elim (Bool-cases set.is_directory) [
      | inl directory ↦
          rw (complete, finalize_directory_entry, directory, Ends) (enters complete directory)
      | inr file ↦ elim (Bool-cases set.is_deleted) [
        | inl deleted ↦
            rw (complete, finalize_directory_entry, file, deleted, Ends)
              (records (complete, file, deleted))
        | inr live ↦ rw (complete, finalize_directory_entry, file, live, Ends) p
      ]
    ]
  ]

  -- A cluster is left alone, or its sectors are searched, which gives `R`, and then the next one of
  -- the chain.
  pub scan_directory-step :
      (P R : State → Type 0) (fuel cluster depth : ℕ) (st : State)
      → ((leb max_recursion_depth depth || not (is_valid_cluster drive cluster)) ≡ true → P st)
      → (IsEntered drive depth cluster
          → Ends R Anyhow (
              scan_sectors drive config
                (λ c. scan_directory drive config fuel c 1)
                drive.sectors_per_cluster
                (cluster_to_sector drive cluster)
                st))
      → ((st' : State) (next : ℕ)
          → R st'
          → get_next_cluster drive cluster ≡ ok next
          → (is_valid_cluster drive next && not (next == cluster)) ≡ false
          → P st')
      → ((st' : State) (next : ℕ)
          → IsEntered drive depth cluster
          → R st'
          → get_next_cluster drive cluster ≡ ok next
          → (is_valid_cluster drive next ≡ true) × ((next == cluster) ≡ false)
          → Ends P Anyhow (scan_directory drive config fuel next (depth + 1) st'))
      → Ends P Anyhow (scan_directory drive config (suc fuel) cluster depth st)
  unfolding scan_directory
  scan_directory-step P R fuel cluster depth st stops goes last more =
      elim (Bool-cases (leb max_recursion_depth depth || not (is_valid_cluster drive cluster))) [
        | inl stopped ↦ rw (stopped, Ends) (stops stopped)
        | inr goes_on ↦
            let m = get_next_cluster drive cluster in
            let enters = entered _ _ goes_on in
            rw (goes_on, Ends)
              (Ends-bind R P Anyhow
                (scan_sectors drive config (λ c. scan_directory drive config fuel c 1)
                  drive.sectors_per_cluster (cluster_to_sector drive cluster) st)
                _ (goes enters)
                (λ st' r.
                  Ends-bind (λ next. m ≡ ok next) P Anyhow m _ (Ends-self Anyhow m (Ends-anyhow m))
                    (λ next e.
                      elim (Bool-cases (is_valid_cluster drive next && not (next == cluster))) [
                        | inr ends ↦ rw (ends, Ends) (last st' next r e ends)
                        | inl goes' ↦ rw (goes', Ends) (more st' next enters r e (both _ _ goes'))
                      ])))
      ]
    where
      entered : (a b : Bool) → (a || not b) ≡ false → (a ≡ false) × (b ≡ true)
      entered a b h = ground (arith, h)

      both : (a b : Bool) → (a && not b) ≡ true → (a ≡ true) × (b ≡ false)
      both a b h = ground (arith, h)
