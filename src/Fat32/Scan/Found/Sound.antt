-- ===== src/Fat32/Scan/Found/Sound.antt =====
-- Every file that the search of a FAT32 volume lists is a deleted file of the volume.
use data_recovery_tool.Common.{ℕ, zero, suc, ◌==◌, inl, inr, Bool, [], ◌∷◌}
use data_recovery_tool.Common.{All, All-append, Bool-cases}
use data_recovery_tool.Common.{Outcome, Ends, Ends-bind}
use data_recovery_tool.Config.{Config}
use data_recovery_tool.Fat32.Volume.{Drive, is_valid_cluster}
use data_recovery_tool.Fat32.Scan.{
  State, is_directory, is_deleted, process_directory_entry, scan_directory,
}
use data_recovery_tool.Fat32.Scan.Reached.{
  Place, entry_at, target, Reaches, here, chain, child, Reaches-trans, Origin,
}
use data_recovery_tool.Fat32.Scan.Visits.{Anyhow, Keeps}
use data_recovery_tool.Fat32.Scan.Visits.Sectors.{scan_cluster-Keeps}
use data_recovery_tool.Fat32.Scan.Found.{record_file-cases, next_cluster-Ends}

module _ (drive : Drive) (config : Config) (iswalnum : ℕ → Bool) where
  module _ (root : ℕ) where
    abbrev pub IsOriginal : State → Type 0
    IsOriginal st = All (Origin drive root) st.recovery_list

    place-IsOriginal :
        (cluster : ℕ) (scan : ℕ → State → Outcome State)
        → ((c : ℕ) (st : State)
            → Reaches drive root c
            → IsOriginal st
            → Ends IsOriginal Anyhow (scan c st))
        → Reaches drive root cluster
        → (place : Place drive cluster)
        → Keeps drive config iswalnum scan IsOriginal (entry_at drive place)
    unfolding process_directory_entry
    place-IsOriginal cluster scan scans reached place filename st p =
        let entry = entry_at drive place in
        elim (Bool-cases (target drive entry == 0)) [
          | inl nowhere ↦ rw (nowhere, Ends) p
          | inr kept ↦ elim (Bool-cases (is_directory entry)) [
            | inl dir ↦
                rw (kept, dir, Ends)
                  (scans (target drive entry) st
                    (Reaches-trans drive reached (child place dir kept here)) p)
            | inr file ↦ elim (Bool-cases (is_deleted entry)) [
              | inl deleted ↦
                  rw (kept, file, deleted, Ends)
                    (record_file-cases drive config iswalnum IsOriginal entry filename st
                      (λ unwanted st' e. rw e p)
                      (λ wanted info st' same e. rw e (
                        All-append (Origin drive root) st.recovery_list (info ∷ []) p (
                          record {
                            cluster = cluster;
                            reached = reached;
                            place = place;
                            deleted = (kept, file, deleted);
                            same = same;
                          },
                          tt,
                        ))))
              | inr live ↦ rw (kept, file, live, Ends) p
            ]
          ]
        ]

    pub scan_directory-IsOriginal :
        (fuel cluster : ℕ) (st : State)
        → Reaches drive root cluster
        → IsOriginal st
        → Ends IsOriginal Anyhow (scan_directory drive config iswalnum fuel cluster st)
    unfolding scan_directory
    scan_directory-IsOriginal zero cluster st reached p = tt
    scan_directory-IsOriginal (suc fuel) cluster st reached p =
        let scan = scan_directory drive config iswalnum fuel in
        elim (Bool-cases (is_valid_cluster drive cluster)) [
          | inr invalid ↦ rw (invalid, Ends) p
          | inl valid ↦
              rw (valid, Ends)
                (Ends-bind IsOriginal IsOriginal Anyhow _ _
                  (scan_cluster-Keeps drive config iswalnum scan IsOriginal cluster valid st
                    (place-IsOriginal cluster scan
                      (λ c st' r. scan_directory-IsOriginal fuel c st' r) reached)
                    p)
                  (λ st' p'.
                    next_cluster-Ends drive config iswalnum IsOriginal cluster
                      (λ next. scan next st') st' p'
                      (λ next e more.
                        scan_directory-IsOriginal fuel next st'
                          (Reaches-trans drive reached (chain valid e more here)) p')))
        ]
