-- ===== src/Fat32/Scan/Termination.antt =====
-- A volume whose directories form no cycle: the search ends.
use data_recovery_tool.Common.{ℕ, zero, suc, ◌+◌, ◌/◌, ◌≤◌, ◌<◌, ◌≡◌, refl, ◌≢◌, inl, inr, arith}
use data_recovery_tool.Common.{Bool, true, List, some, Bool-cases, ok, err, Failure}
use data_recovery_tool.Common.{out_of_fuel, out_of_bounds, division_by_zero, Ends}
use data_recovery_tool.Common.{Ends-bind, Ends-self}
use data_recovery_tool.Config.{Config}
use data_recovery_tool.Fat32.Structs.{sizeof_directory_entry}
use data_recovery_tool.Fat32.Volume.{Drive, is_valid_cluster, cluster_to_sector, get_next_cluster}
use data_recovery_tool.Fat32.Volume.Failures.{get_next_cluster-fails}
use data_recovery_tool.Fat32.Names.{parse_file_info}
use data_recovery_tool.Fat32.Names.Failures.{parse_file_info-fails}
use data_recovery_tool.Fat32.Scan.{State, scan_sectors, scan_directory, record_file}
use data_recovery_tool.Fat32.Scan.Induction.{RecordsWell, LeadsWell, scan_sectors-Ends}

abbrev pub Any : State → Type 0
Any st = Unit

abbrev pub HasFuel : Failure → Type 0
HasFuel e = e ≢ out_of_fuel

bounds-HasFuel : HasFuel out_of_bounds
bounds-HasFuel h = cc

division-HasFuel : HasFuel division_by_zero
division-HasFuel h = cc

module _ (drive : Drive) (config : Config) (iswalnum : ℕ → Bool) where
  record_file-HasFuel : (Q : ℕ → Type 0) → RecordsWell drive config iswalnum Any HasFuel Q
  unfolding record_file
  record_file-HasFuel Q entry filename cluster st good p =
      Ends-bind (λ _. Unit {0}) Any HasFuel
        (parse_file_info iswalnum drive st.file_id filename cluster entry.file_size) _
        (parse_file_info-fails HasFuel bounds-HasFuel drive iswalnum st.file_id filename cluster
          entry.file_size)
        (λ (info, next_id) _. tt)

  module _ (rank : ℕ → ℕ) where
    -- The rank falls from each valid cluster to the next of its chain, and to each subdirectory that
    -- an entry in a readable sector of the cluster leads to.
    pub record IsRanked : Type 0 where
      pub chain :
          (c n : ℕ)
          → is_valid_cluster drive c ≡ true
          → get_next_cluster drive c ≡ ok n
          → is_valid_cluster drive n ≡ true
          → rank n < rank c
      pub subdirectories :
          (c : ℕ)
          → is_valid_cluster drive c ≡ true
          → (s : ℕ) (buffer : List ℕ) → cluster_to_sector drive c ≤ s
          → s < cluster_to_sector drive c + drive.sectors_per_cluster
          → drive.reader.read_sector s drive.bytes_per_sector ≡ some buffer
          → (k : ℕ) → k < drive.bytes_per_sector / sizeof_directory_entry
          → LeadsWell drive config iswalnum Any HasFuel (λ d. rank d < rank c) buffer k

    scan_directory-HasFuel :
        IsRanked
        → (fuel cluster : ℕ) (st : State) → rank cluster < fuel
        → Ends Any HasFuel (scan_directory drive config iswalnum fuel cluster st)
    unfolding scan_directory
    scan_directory-HasFuel ranked zero cluster st h = absurd (omega arith)
    scan_directory-HasFuel ranked (suc fuel) cluster st h =
        let scan = scan_directory drive config iswalnum fuel in
        let sector = cluster_to_sector drive cluster in
        elim (Bool-cases (is_valid_cluster drive cluster)) [
          | inr invalid ↦ rw (invalid, Ends) tt
          | inl valid ↦
              rw (valid, Ends)
                (Ends-bind Any Any HasFuel
                  (scan_sectors drive config iswalnum scan drive.sectors_per_cluster sector st) _
                  (scan_sectors-Ends drive config iswalnum Any HasFuel (λ d. rank d < rank cluster)
                    (record_file-HasFuel (λ d. rank d < rank cluster)) scan
                    (λ d st' less _. scan_directory-HasFuel ranked fuel d st' (omega arith))
                    drive.sectors_per_cluster sector st (ranked.subdirectories cluster valid) tt)
                  (λ st' _.
                    Ends-bind (λ n. get_next_cluster drive cluster ≡ ok n) Any HasFuel
                      (get_next_cluster drive cluster) _
                      (Ends-self HasFuel (get_next_cluster drive cluster) (
                        get_next_cluster-fails HasFuel bounds-HasFuel division-HasFuel drive
                          cluster))
                      (λ next e. elim (Bool-cases (is_valid_cluster drive next)) [
                        | inr last ↦ rw (last, Ends) tt
                        | inl more ↦
                            let less = ranked.chain cluster next valid e more in
                            rw (more, Ends)
                              (scan_directory-HasFuel ranked fuel next st' (omega arith))
                      ])))
        ]

    -- If some rank falls along the directories, then any fuel above the rank of a cluster is enough
    -- for its search: it ends in a state or by another failure.
    pub scan_directory_terminates :
        IsRanked
        → (fuel cluster : ℕ) (st : State) → rank cluster < fuel
        → scan_directory drive config iswalnum fuel cluster st ≢ err out_of_fuel
    scan_directory_terminates ranked fuel cluster st h stuck =
        not_stuck (rw (stuck, Ends) at (scan_directory-HasFuel ranked fuel cluster st h))
      where
        not_stuck : (out_of_fuel ≢ out_of_fuel) → ⊥
        not_stuck k = k refl
