-- ===== src/Fat32/Scan/Found/Complete.antt =====
-- Every deleted file of a FAT32 volume that the search gets to is listed.
use data_recovery_tool.Common.{ℕ, zero, suc, ◌≡◌, inl, Bool, true, ◌||◌, [], ◌∷◌}
use data_recovery_tool.Common.{Some, Some-append_left, Some-append_right}
use data_recovery_tool.Common.{Outcome, Ends, Ends-bind, Ends-anyhow}
use data_recovery_tool.Config.{Config}
use data_recovery_tool.Fat32.Structs.{DirectoryEntry}
use data_recovery_tool.Fat32.Volume.{Drive, cluster_to_sector}
use data_recovery_tool.Fat32.Names.{parse_file_info}
use data_recovery_tool.Fat32.Scan.{
  State, record_file, add_to_recovery_list, is_directory, process_directory_entry, scan_sectors,
  scan_directory,
}
use data_recovery_tool.Fat32.Scan.Induction.{RecordsWell, process_directory_entry-Ends}
use data_recovery_tool.Fat32.Scan.Invariant.{scan_directory-Ends}
use data_recovery_tool.Fat32.Scan.Reached.{
  Place, entry_at, target, IsKept, IsDeletedFile, Reaches, here, chain, child, IsFileOf,
}
use data_recovery_tool.Fat32.Scan.Visits.{Anyhow, Keeps, Gives}
use data_recovery_tool.Fat32.Scan.Visits.Sectors.{scan_cluster-Gives}
use data_recovery_tool.Fat32.Scan.Found.{record_file-cases, next_cluster-Ends}

module _ (drive : Drive) (config : Config) (iswalnum : ℕ → Bool) where
  -- The list has a file of the entry.
  abbrev pub Lists : DirectoryEntry → State → Type 0
  Lists entry st = Some (IsFileOf drive entry) st.recovery_list

  module _ (wanted : (config.recover || config.analyze) ≡ true) (entry : DirectoryEntry) where
    record_file-keeps : RecordsWell drive config iswalnum (Lists entry) Anyhow (λ c. Unit)
    unfolding record_file add_to_recovery_list
    record_file-keeps other filename cluster st valid p =
        let parsed = parse_file_info iswalnum drive st.file_id filename cluster other.file_size in
        Ends-bind (λ _. Unit {0}) (Lists entry) Anyhow parsed _ (Ends-anyhow parsed)
          (λ (info, next_id) _.
            rw wanted (Some-append_left (IsFileOf drive entry) st.recovery_list (info ∷ []) p))

    scan-keeps :
        (fuel cluster : ℕ) (st : State)
        → Lists entry st
        → Ends (Lists entry) Anyhow (scan_directory drive config iswalnum fuel cluster st)
    scan-keeps fuel cluster st p =
        scan_directory-Ends drive config iswalnum (Lists entry) record_file-keeps fuel cluster st p

    place-Keeps :
        (fuel cluster : ℕ) (place : Place drive cluster)
        → Keeps drive config iswalnum
            (scan_directory drive config iswalnum fuel)
            (Lists entry)
            (entry_at drive place)
    place-Keeps fuel cluster place filename st p =
        process_directory_entry-Ends drive config iswalnum (Lists entry) Anyhow (λ c. Unit)
          record_file-keeps (scan_directory drive config iswalnum fuel)
          (λ c st' _ p'. scan-keeps fuel c st' p') (entry_at drive place) filename st (λ _ _. tt) p

    deleted-Gives :
        (scan : ℕ → State → Outcome State)
        → IsDeletedFile drive entry
        → Gives drive config iswalnum scan (Lists entry) entry
    unfolding process_directory_entry
    deleted-Gives scan (kept, file, deleted) filename st =
        rw (kept, file, deleted, Ends)
          (record_file-cases drive config iswalnum (Lists entry) entry filename st
            (λ unwanted st' e. cc (wanted, unwanted))
            (λ _ info st' same e.
              rw e
                (Some-append_right (IsFileOf drive entry) st.recovery_list (info ∷ []) (inl same))))

    child-Gives :
        (scan : ℕ → State → Outcome State) (directory : DirectoryEntry)
        → is_directory directory ≡ true
        → IsKept drive directory
        → ((st : State) → Ends (Lists entry) Anyhow (scan (target drive directory) st))
        → Gives drive config iswalnum scan (Lists entry) directory
    unfolding process_directory_entry
    child-Gives scan directory dir kept scans filename st = rw (kept, dir, Ends) (scans st)

    pub scan_directory-Lists :
        (fuel cluster found : ℕ) (st : State)
        → Reaches drive cluster found
        → (place : Place drive found) → entry_at drive place ≡ entry
        → IsDeletedFile drive entry
        → Ends (Lists entry) Anyhow (scan_directory drive config iswalnum fuel cluster st)
    unfolding scan_directory
    scan_directory-Lists zero cluster found st reaches place at deleted = tt
    scan_directory-Lists (suc fuel) cluster found st here place at deleted =
        let scan = scan_directory drive config iswalnum fuel in
        rw (place.valid, Ends)
          (Ends-bind (Lists entry) (Lists entry) Anyhow _ _
            (scan_cluster-Gives drive config iswalnum scan (Lists entry) cluster place.valid st
              place (place-Keeps fuel cluster) (rw at (deleted-Gives scan deleted)))
            (λ st' p'.
              next_cluster-Ends drive config iswalnum (Lists entry) cluster (λ next. scan next st')
                st' p' (λ next e more. scan-keeps fuel next st' p')))
    scan_directory-Lists (suc fuel) cluster found st (chain {n = n} valid next more reaches) place
          at deleted =
        let sectors =
          scan_sectors drive config iswalnum (scan_directory drive config iswalnum fuel)
            drive.sectors_per_cluster (cluster_to_sector drive cluster) st in
        rw (valid, Ends)
          (Ends-bind (λ _. Unit {0}) (Lists entry) Anyhow sectors _ (Ends-anyhow sectors)
            (λ st' _.
              rw (next, more, Ends)
                (scan_directory-Lists fuel n found st' reaches place at deleted)))
    scan_directory-Lists (suc fuel) cluster found st (child parent dir kept reaches) place at
          deleted =
        let scan = scan_directory drive config iswalnum fuel in
        rw (parent.valid, Ends)
          (Ends-bind (Lists entry) (Lists entry) Anyhow _ _
            (scan_cluster-Gives drive config iswalnum scan (Lists entry) cluster parent.valid st
              parent (place-Keeps fuel cluster)
              (child-Gives scan (entry_at drive parent) dir kept
                (λ st'. scan_directory-Lists fuel _ found st' reaches place at deleted)))
            (λ st' p'.
              next_cluster-Ends drive config iswalnum (Lists entry) cluster (λ next. scan next st')
                st' p' (λ next e more. scan-keeps fuel next st' p')))
