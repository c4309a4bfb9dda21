-- ===== src/Fat32/Volume/Failures.antt =====
-- How the step along a chain fails.
use data_recovery_tool.Common.{ℕ, ◌+◌, inl, inr, leb, ltb, length, Option-cases}
use data_recovery_tool.Common.{Failure, out_of_bounds, division_by_zero, require}
use data_recovery_tool.Common.{Ends, Ends-bind, require-Ends}
use data_recovery_tool.Fat32.Volume.{Drive, get_next_cluster, fat_sector_of, entry_offset_of}

module _ (F : Failure → Type 0) (bounds : F out_of_bounds) (division : F division_by_zero)
    (drive : Drive) (c : ℕ) where
  pub get_next_cluster-fails : Ends (λ _. Unit {0}) F (get_next_cluster drive c)
  unfolding get_next_cluster
  get_next_cluster-fails =
      Ends-bind (λ _. Unit {0}) (λ _. Unit {0}) F
        (require (ltb 0 drive.bytes_per_sector) division_by_zero) _
        (require-Ends F (ltb 0 drive.bytes_per_sector) division_by_zero division)
        (λ _ _.
          elim (Option-cases
            (drive.reader.read_sector (fat_sector_of drive c) drive.bytes_per_sector)) [
              | inl e ↦ rw (e, Ends) tt
              | inr (buffer, e) ↦
                  let fits = leb (entry_offset_of drive c + 4) (length buffer) in
                  rw (e, Ends)
                    (Ends-bind (λ _. Unit {0}) (λ _. Unit {0}) F (require fits out_of_bounds) _
                      (require-Ends F fits out_of_bounds bounds) (λ _ _. tt))
            ])
