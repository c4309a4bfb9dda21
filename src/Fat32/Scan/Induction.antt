-- ===== src/Fat32/Scan/Induction.antt =====
-- The induction over the search: what holds of every file that is recorded, and of every directory
-- that is entered, holds of the whole. `P` is a property of the state, `F` one of a failure, and `Q`
-- one of the clusters on which the search is called.
use data_recovery_tool.Common.{ℕ, zero, suc, ◌+◌, ◌*◌, ◌/◌, ◌≤◌, ◌<◌, ◌≡◌, inl, inr}
use data_recovery_tool.Common.{Bool, true, false, List, [], ◌++◌, some, ◌==◌, arith}
use data_recovery_tool.Common.{Bool-cases, Option-cases}
use data_recovery_tool.Common.{Outcome, Failure}
use data_recovery_tool.Common.{Ends, Ends-bind, get_or}
use data_recovery_tool.Config.{Config}
use data_recovery_tool.Fat32.Structs.{DirectoryEntry, directory_entry_at, lfn_entry_at}
use data_recovery_tool.Fat32.Structs.{sizeof_directory_entry}
use data_recovery_tool.Fat32.Volume.{Drive, is_valid_cluster, sanitize_cluster}
use data_recovery_tool.Fat32.Volume.Clusters.{sanitize_cluster-is_valid_cluster}
use data_recovery_tool.Fat32.Names.{get_long_filename}
use data_recovery_tool.Fat32.Scan.{
  State, record_file, is_directory, is_deleted, first_cluster, name_of,
}
use data_recovery_tool.Fat32.Scan.{process_directory_entry, process_entries, scan_sectors}
use data_recovery_tool.Fat32.Scan.{process_entries_in_sector}

-- The cluster that an entry leads to, if it is kept, is valid.
kept-is_valid_cluster :
    (drive : Drive) (c : ℕ)
    → (sanitize_cluster drive c == 0) ≡ false
    → is_valid_cluster drive (sanitize_cluster drive c) ≡ true
kept-is_valid_cluster drive c h =
    let e = sanitize_cluster-is_valid_cluster drive c in
    elim (Bool-cases (is_valid_cluster drive c)) [
      | inl valid ↦ rw (e, valid) valid
      | inr invalid ↦ absurd (zero_kept (rw (e, invalid) at h))
    ]
  where
    zero_kept : ◌==◌ 0 0 ≡ false → ⊥
    zero_kept q = cc

module _ (drive : Drive) (config : Config) (iswalnum : ℕ → Bool) (P : State → Type 0)
    (F : Failure → Type 0) (Q : ℕ → Type 0) where
  -- Every recording of a file keeps the property.
  abbrev pub RecordsWell : Type 0
  RecordsWell =
      (entry : DirectoryEntry) (filename : List ℕ) (cluster : ℕ) (st : State)
      → is_valid_cluster drive cluster ≡ true
      → P st
      → Ends P F (record_file drive config iswalnum entry filename cluster st)

  -- The `k`-th entry of a sector, if it is a directory that is entered, leads to a good cluster.
  abbrev pub LeadsWell : List ℕ → ℕ → Type 0
  LeadsWell buffer k =
      is_directory (directory_entry_at buffer (k * sizeof_directory_entry)) ≡ true
      → (sanitize_cluster drive
            (first_cluster (directory_entry_at buffer (k * sizeof_directory_entry)))
          == 0)
        ≡ false
      → Q (
          sanitize_cluster drive
            (first_cluster (directory_entry_at buffer (k * sizeof_directory_entry))))

  module _ (records : RecordsWell) (scan : ℕ → State → Outcome State)
      (scans : (c : ℕ) (st : State) → Q c → P st → Ends P F (scan c st)) where
    pub process_directory_entry-Ends :
        (entry : DirectoryEntry) (filename : List ℕ) (st : State)
        → (is_directory entry ≡ true
            → (sanitize_cluster drive (first_cluster entry) == 0) ≡ false
            → Q (sanitize_cluster drive (first_cluster entry)))
        → P st
        → Ends P F (process_directory_entry drive config iswalnum scan entry filename st)
    unfolding process_directory_entry
    process_directory_entry-Ends entry filename st leads p =
        let c = sanitize_cluster drive (first_cluster entry) in
        elim (Bool-cases (c == 0)) [
          | inl nowhere ↦ rw (nowhere, Ends) p
          | inr kept ↦ elim (Bool-cases (is_directory entry)) [
            | inl dir ↦ rw (kept, dir, Ends) (scans c st (leads dir kept) p)
            | inr file ↦ elim (Bool-cases (is_deleted entry)) [
              | inl deleted ↦
                  rw (kept, file, deleted, Ends)
                    (records entry filename c st
                      (kept-is_valid_cluster drive (first_cluster entry) kept) p)
              | inr live ↦ rw (kept, file, live, Ends) p
            ]
          ]
        ]

    process_entries-Ends :
        (left j : ℕ) (long_filename buffer : List ℕ) (st : State)
        → ((k : ℕ) → j ≤ k → k < j + left → LeadsWell buffer k)
        → P st
        → Ends P F (process_entries drive config iswalnum scan left j long_filename buffer st)
    unfolding process_entries
    process_entries-Ends zero j long_filename buffer st leads p = p
    process_entries-Ends (suc left) j long_filename buffer st leads p =
        let entry = directory_entry_at buffer (j * sizeof_directory_entry) in
        let lfn = lfn_entry_at buffer (j * sizeof_directory_entry) in
        let later =
          λ (k : ℕ) (a : j + 1 ≤ k) (b : k < j + 1 + left). leads k (omega arith) (omega arith) in
        elim (Bool-cases (get_or entry.name 0 0 == 0)) [
          | inl last ↦ rw (last, Ends) p
          | inr more ↦ elim (Bool-cases (entry.attr == 0x0F)) [
            | inl long ↦
                rw (more, long, Ends)
                  (process_entries-Ends left (j + 1) (get_long_filename lfn ++ long_filename) buffer
                    st later p)
            | inr plain ↦
                rw (more, plain, Ends)
                  (Ends-bind P P F _ _
                    (process_directory_entry-Ends entry (name_of entry long_filename) st
                      (leads j (omega arith) (omega arith)) p)
                    (λ st' p'. process_entries-Ends left (j + 1) [] buffer st' later p'))
          ]
        ]

    pub scan_sectors-Ends :
        (left sector : ℕ) (st : State)
        → ((s : ℕ) (buffer : List ℕ)
            → sector ≤ s
            → s < sector + left
            → drive.reader.read_sector s drive.bytes_per_sector ≡ some buffer
            → (k : ℕ) → k < drive.bytes_per_sector / sizeof_directory_entry
            → LeadsWell buffer k)
        → P st
        → Ends P F (scan_sectors drive config iswalnum scan left sector st)
    unfolding scan_sectors process_entries_in_sector
    scan_sectors-Ends zero sector st leads p = p
    scan_sectors-Ends (suc left) sector st leads p =
        let later = λ (s : ℕ) (buffer : List ℕ) (a : sector + 1 ≤ s) (b : s < sector + 1 + left).
          leads s buffer (omega arith) (omega arith) in
        Ends-bind P P F _ _
          (elim (Option-cases (drive.reader.read_sector sector drive.bytes_per_sector)) [
            | inl e ↦ rw e p
            | inr (buffer, e) ↦ rw e (
                process_entries-Ends (drive.bytes_per_sector / sizeof_directory_entry) 0 [] buffer
                  st (λ k a b. leads sector buffer (omega arith) (omega arith) e k (omega arith)) p)
          ])
          (λ st' p'. scan_sectors-Ends left (sector + 1) st' later p')
