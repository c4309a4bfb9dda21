-- ===== src/Fat32/Scan/Found.antt =====
-- What one file adds to the list that the search of a FAT32 volume leaves, and the end of a cluster.
pub mod Sound
pub mod Complete
use data_recovery_tool.Common.{
  ℕ, zero, suc, ◌≡◌, ◌==◌, refl, sym, inl, inr, Bool, true, false, ◌||◌, ◌&&◌, not, List, [], ◌∷◌,
  ◌++◌,
}
use data_recovery_tool.Common.{
  All, All-append, Some, Some-append_left, Some-append_right, Bool-cases,
}
use data_recovery_tool.Common.{ok, Outcome, Ends, Ends-bind, Ends-anyhow, Ends-ok, Ends-self, ◌>>=◌}
use data_recovery_tool.Config.{Config}
use data_recovery_tool.Fat32.Structs.{DirectoryEntry, FileInfo}
use data_recovery_tool.Fat32.Volume.{Drive, is_valid_cluster, cluster_to_sector, get_next_cluster}
use data_recovery_tool.Fat32.Names.{parse_file_info}
use data_recovery_tool.Fat32.Names.Parse.{IsCounted, parse_file_info-Ends}
use data_recovery_tool.Fat32.Scan.{
  State, record_file, add_to_recovery_list, is_directory, is_deleted, first_cluster,
  process_directory_entry, scan_sectors, scan_directory, scan_for_deleted_files,
}
use data_recovery_tool.Fat32.Scan.Induction.{RecordsWell, process_directory_entry-Ends}
use data_recovery_tool.Fat32.Scan.Invariant.{at_start, scan_directory-Ends}
use data_recovery_tool.Fat32.Scan.Reached.{
  Place, entry_at, target, IsKept, IsDeletedFile, Reaches, here, chain, child, Reaches-trans,
  IsFileOf, Origin,
}
use data_recovery_tool.Fat32.Scan.Visits.{Anyhow, Keeps, Gives}
use data_recovery_tool.Fat32.Scan.Visits.Sectors.{scan_cluster-Keeps, scan_cluster-Gives}

module _ (drive : Drive) (config : Config) (iswalnum : ℕ → Bool) where
  -- What `record_file` leaves, if it returns: the state before, or one with a file of the entry.
  pub record_file-cases :
      (P : State → Type 0) (entry : DirectoryEntry) (filename : List ℕ) (st : State)
      → ((config.recover || config.analyze) ≡ false
          → (st' : State) → st'.recovery_list ≡ st.recovery_list
          → P st')
      → ((config.recover || config.analyze) ≡ true
          → (file : FileInfo) (st' : State) → IsFileOf drive entry file
          → st'.recovery_list ≡ st.recovery_list ++ file ∷ []
          → P st')
      → Ends P Anyhow (record_file drive config iswalnum entry filename (target drive entry) st)
  unfolding record_file add_to_recovery_list
  record_file-cases P entry filename st same more =
      let cluster = target drive entry in
      Ends-bind (IsCounted iswalnum drive st.file_id filename cluster entry.file_size) P Anyhow
        (parse_file_info iswalnum drive st.file_id filename cluster entry.file_size) _
        (parse_file_info-Ends iswalnum drive st.file_id filename cluster entry.file_size)
        (λ (info, next_id) (parsed, e). elim (Bool-cases (config.recover || config.analyze)) [
          | inl wanted ↦ rw wanted (more wanted info _ (parsed.same_cluster, parsed.same_size) refl)
          | inr unwanted ↦ rw unwanted (same unwanted _ refl)
        ])

  -- The end of the search of a cluster, which goes on to the next one of the chain.
  pub next_cluster-Ends :
      (P : State → Type 0) (cluster : ℕ) (scan : ℕ → Outcome State) (st : State)
      → P st
      → ((next : ℕ)
          → get_next_cluster drive cluster ≡ ok next
          → is_valid_cluster drive next ≡ true
          → Ends P Anyhow (scan next))
      → Ends P Anyhow (
          get_next_cluster drive cluster >>= λ next. elim (is_valid_cluster drive next) [
            | false ↦ ok st
            | true ↦ scan next
          ])
  next_cluster-Ends P cluster scan st p goes =
      let m = get_next_cluster drive cluster in
      Ends-bind (λ next. m ≡ ok next) P Anyhow m _ (Ends-self Anyhow m (Ends-anyhow m))
        (λ next e. elim (Bool-cases (is_valid_cluster drive next)) [
          | inr last ↦ rw (last, Ends) p
          | inl more ↦ rw (more, Ends) (goes next e more)
        ])
