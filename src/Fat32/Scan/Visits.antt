-- ===== src/Fat32/Scan/Visits.antt =====
-- How the search goes through a cluster: what each entry at a place keeps, the cluster keeps, and
-- what the entry at one place gives, the cluster gives. `scan` is the call on a subdirectory.
pub mod Sectors
use data_recovery_tool.Common.{
  ℕ, zero, suc, ◌+◌, ◌*◌, ◌/◌, ◌≤◌, ◌<◌, ◌≡◌, ◌⊎◌, inl, inr, refl, sym, subst, arith, true, false,
}
use data_recovery_tool.Common.{List, [], ◌++◌, some, none, ◌==◌, Bool, Bool-cases, Option-cases}
use data_recovery_tool.Common.{Outcome, Failure, Ends, Ends-bind, Ends-anyhow}
use data_recovery_tool.Config.{Config}
use data_recovery_tool.Fat32.Structs.{
  DirectoryEntry, directory_entry_at, lfn_entry_at, sizeof_directory_entry,
}
use data_recovery_tool.Fat32.Volume.{Drive, is_valid_cluster, cluster_to_sector}
use data_recovery_tool.Fat32.Names.{get_long_filename}
use data_recovery_tool.Fat32.Scan.{
  State, first_byte, name_of, process_directory_entry, process_entries, process_entries_in_sector,
  scan_sectors,
}
use data_recovery_tool.Fat32.Scan.Reached.{Place, entry_of, entry_at}

abbrev pub Anyhow : Failure → Type 0
Anyhow e = Unit

-- No entry before the `j`-th ends the sector.
abbrev pub AliveBelow : List ℕ → ℕ → Type 0
AliveBelow buffer j = (i : ℕ) → i < j → (first_byte (entry_of buffer i) == 0) ≡ false

AliveBelow-suc :
    (buffer : List ℕ) (j : ℕ)
    → AliveBelow buffer j
    → (first_byte (entry_of buffer j) == 0) ≡ false
    → AliveBelow buffer (j + 1)
AliveBelow-suc buffer j before here' i h = elim (below_or_at i j h) [
  | inl below ↦ before i below
  | inr at ↦ rw at here'
]
  where
    below_or_at : (i j : ℕ) → i < j + 1 → (i < j) ⊎ (i ≡ j)
    below_or_at i j h = ground arith

pub at_or_later : (j k : ℕ) → j ≤ k → (k ≡ j) ⊎ (j + 1 ≤ k)
at_or_later j k h = ground arith

module _ (drive : Drive) (config : Config) (iswalnum : ℕ → Bool) (scan : ℕ → State → Outcome State)
    (P : State → Type 0) where
  -- The entry keeps the property, and gives it.
  abbrev pub Keeps : DirectoryEntry → Type 0
  Keeps entry =
      (filename : List ℕ) (st : State)
      → P st
      → Ends P Anyhow (process_directory_entry drive config iswalnum scan entry filename st)

  abbrev pub Gives : DirectoryEntry → Type 0
  Gives entry =
      (filename : List ℕ) (st : State)
      → Ends P Anyhow (process_directory_entry drive config iswalnum scan entry filename st)

  -- The entries of a sector that the search comes to, from the `j`-th on.
  abbrev pub KeepsFrom : ℕ → ℕ → List ℕ → Type 0
  KeepsFrom left j buffer =
      (k : ℕ)
      → j ≤ k
      → k < j + left
      → AliveBelow buffer (k + 1)
      → ((entry_of buffer k).attr == 0x0F) ≡ false
      → Keeps (entry_of buffer k)

  pub process_entries-Keeps :
      (left j : ℕ) (long_filename buffer : List ℕ) (st : State)
      → AliveBelow buffer j
      → KeepsFrom left j buffer
      → P st
      → Ends P Anyhow (process_entries drive config iswalnum scan left j long_filename buffer st)
  unfolding process_entries
  process_entries-Keeps zero j long_filename buffer st before keeps p = p
  process_entries-Keeps (suc left) j long_filename buffer st before keeps p =
      let entry = entry_of buffer j in
      let lfn = lfn_entry_at buffer (j * sizeof_directory_entry) in
      let later =
        λ (k : ℕ) (a : j + 1 ≤ k) (b : k < j + 1 + left). keeps k (omega arith) (omega arith) in
      elim (Bool-cases (first_byte entry == 0)) [
        | inl last ↦ rw (last, Ends) p
        | inr more ↦
            let alive = AliveBelow-suc buffer j before more in
            elim (Bool-cases (entry.attr == 0x0F)) [
              | inl long ↦
                  rw (more, long, Ends)
                    (process_entries-Keeps left (j + 1) (get_long_filename lfn ++ long_filename)
                      buffer st alive later p)
              | inr plain ↦
                  rw (more, plain, Ends)
                    (Ends-bind P P Anyhow _ _
                      (keeps j (omega arith) (omega arith) alive plain (name_of entry long_filename)
                        st p)
                      (λ st' p'. process_entries-Keeps left (j + 1) [] buffer st' alive later p'))
            ]
      ]

  pub process_entries-Gives :
      (left j k : ℕ) (long_filename buffer : List ℕ) (st : State)
      → AliveBelow buffer j
      → KeepsFrom left j buffer
      → j ≤ k
      → k < j + left
      → AliveBelow buffer (k + 1)
      → ((entry_of buffer k).attr == 0x0F) ≡ false
      → Gives (entry_of buffer k)
      → Ends P Anyhow (process_entries drive config iswalnum scan left j long_filename buffer st)
  unfolding process_entries
  process_entries-Gives zero j k long_filename buffer st before keeps low high alive plain gives =
      absurd (omega arith)
  process_entries-Gives (suc left) j k long_filename buffer st before keeps low high alive plain
        gives =
      let entry = entry_of buffer j in
      let lfn = lfn_entry_at buffer (j * sizeof_directory_entry) in
      let later =
        λ (k : ℕ) (a : j + 1 ≤ k) (b : k < j + 1 + left). keeps k (omega arith) (omega arith) in
      let more = alive j (omega arith) in
      let alive' = AliveBelow-suc buffer j before more in
      elim (at_or_later j k low) [
        | inl at ↦
            let plain' : (entry.attr == 0x0F) ≡ false = rw (← at) plain in
            let gives' : Gives entry = rw (← at) gives in
            rw (more, plain', Ends)
              (Ends-bind P P Anyhow _ _ (gives' (name_of entry long_filename) st)
                (λ st' p'. process_entries-Keeps left (j + 1) [] buffer st' alive' later p'))
        | inr above ↦ elim (Bool-cases (entry.attr == 0x0F)) [
          | inl long ↦
              rw (more, long, Ends)
                (process_entries-Gives left (j + 1) k (get_long_filename lfn ++ long_filename)
                  buffer st alive' later above (omega arith) alive plain gives)
          | inr plain' ↦
              let first =
                process_directory_entry drive config iswalnum scan entry
                  (name_of entry long_filename) st in
              rw (more, plain', Ends)
                (Ends-bind (λ _. Unit {0}) P Anyhow first _ (Ends-anyhow first)
                  (λ st' _.
                    process_entries-Gives left (j + 1) k [] buffer st' alive' later above
                      (omega arith) alive plain gives))
        ]
      ]
