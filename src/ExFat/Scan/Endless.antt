-- ===== src/ExFat/Scan/Endless.antt =====
-- Subdirectories of an exFAT volume that lead back: a subdirectory is always entered at depth 1, so
-- the limit of depth does not stop them.
use data_recovery_tool.Common.{ℕ, zero, suc, ◌≡◌, ◌≢◌, true, false, ◌||◌, not, leb, ok, Outcome}
use data_recovery_tool.Common.{Ends, Ends-ok, refl}
use data_recovery_tool.Config.{Config}
use data_recovery_tool.ExFat.Structs.{DirEntryData}
use data_recovery_tool.ExFat.Volume.{Drive, is_valid_cluster}
use data_recovery_tool.ExFat.Scan.{
  State, is_complete, finalize_directory_entry, scan_directory, max_recursion_depth,
}
use data_recovery_tool.ExFat.Scan.Reached.{Place}
use data_recovery_tool.ExFat.Scan.Visits.{Anyhow, Gives, scan_cluster-Gives}
use data_recovery_tool.ExFat.Scan.Found.{scan_directory-step}

abbrev Never : State → Type 0
Never st = ⊥

-- A valid cluster with a subdirectory that starts at a cluster of the family.
pub record LeadsBack (drive : Drive) (InFamily : ℕ → Type 0) (cluster : ℕ) : Type 0 where
  pub valid : is_valid_cluster drive cluster ≡ true
  pub place : Place drive cluster
  pub complete : is_complete drive place.set ≡ true
  pub directory : place.set.is_directory ≡ true
  pub again : InFamily place.set.starting_cluster

module _ (drive : Drive) (config : Config) (InFamily : ℕ → Type 0)
    (leads : (c : ℕ) → InFamily c → LeadsBack drive InFamily c) where
  child-Gives-Never :
      (scan : ℕ → State → Outcome State) (parent : DirEntryData)
      → is_complete drive parent ≡ true
      → parent.is_directory ≡ true
      → ((st : State) → Ends Never Anyhow (scan parent.starting_cluster st))
      → Gives drive config scan Never parent
  unfolding finalize_directory_entry
  child-Gives-Never scan parent complete directory scans st =
      rw (complete, finalize_directory_entry, directory, Ends) (scans st)

  not_stopped :
      (depth cluster : ℕ)
      → leb max_recursion_depth depth ≡ false
      → is_valid_cluster drive cluster ≡ true
      → (leb max_recursion_depth depth || not (is_valid_cluster drive cluster)) ≡ true
      → ⊥
  not_stopped depth cluster shallow valid stopped = cc (rw (shallow, valid) at stopped)

  scan_directory-Never :
      (fuel cluster depth : ℕ) (st : State)
      → leb max_recursion_depth depth ≡ false
      → InFamily cluster
      → Ends Never Anyhow (scan_directory drive config fuel cluster depth st)
  unfolding scan_directory
  scan_directory-Never zero cluster depth st shallow in_family = tt
  scan_directory-Never (suc fuel) cluster depth st shallow in_family =
      let scan = λ (c : ℕ). scan_directory drive config fuel c 1 in
      let back = leads cluster in_family in
      scan_directory-step drive config Never Never fuel cluster depth st
        (λ stopped. not_stopped depth cluster shallow back.valid stopped)
        (λ entered.
          scan_cluster-Gives drive config scan Never cluster st back.place
            (λ other st' never. absurd never)
            (child-Gives-Never scan back.place.set back.complete back.directory (λ st'.
              scan_directory-Never fuel back.place.set.starting_cluster 1 st' refl back.again)))
        (λ st' next never e ends. never) (λ st' next entered never e both. absurd never)

  -- If each cluster of a family is valid and holds, in a readable sector, a complete set of a
  -- directory that starts at a cluster of the family, then the search of a cluster of the family
  -- at a depth below the limit returns on no fuel.
  pub scan_directory_never_returns :
      (fuel cluster depth : ℕ) (st st' : State)
      → leb max_recursion_depth depth ≡ false
      → InFamily cluster
      → scan_directory drive config fuel cluster depth st ≢ ok st'
  scan_directory_never_returns fuel cluster depth st st' shallow in_family returns =
      Ends-ok Never (scan_directory drive config fuel cluster depth st)
        (scan_directory-Never fuel cluster depth st shallow in_family) returns
