-- ===== src/ExFat/Scan/Visits.antt =====
-- How the search goes through a cluster of an exFAT directory: what each set keeps, the cluster keeps,
-- and what one set gives, the cluster gives. `scan` is the call on a subdirectory.
use data_recovery_tool.Common.{
  ℕ, zero, suc, ◌+◌, ◌/◌, ◌≤◌, ◌<◌, ◌≡◌, ◌⊎◌, inl, inr, refl, arith, false, leb, mul64, List, [],
  ◌∷◌, some, Some, Bool-cases, Option-cases,
}
use data_recovery_tool.Common.{Outcome, Failure, Ends, Ends-bind, Ends-anyhow}
use data_recovery_tool.Config.{Config}
use data_recovery_tool.ExFat.Structs.{DirEntryData, no_data, sizeof_directory_entry}
use data_recovery_tool.ExFat.Volume.{Drive, cluster_to_sector}
use data_recovery_tool.ExFat.Scan.{
  State, finalize_directory_entry, process_entries_in_sector, scan_sectors,
}
use data_recovery_tool.ExFat.Scan.Sets.{finalize_all, process_entries-sets_of}
use data_recovery_tool.ExFat.Scan.Reached.{Place, sets_in}

abbrev pub Anyhow : Failure → Type 0
Anyhow e = Unit

at_or_later : (j k : ℕ) → j ≤ k → (k ≡ j) ⊎ (j + 1 ≤ k)
at_or_later j k h = ground arith

module _ (drive : Drive) (config : Config) (scan : ℕ → State → Outcome State)
    (P : State → Type 0) where
  abbrev pub Keeps : DirEntryData → Type 0
  Keeps set =
      (st : State) → P st → Ends P Anyhow (finalize_directory_entry drive config scan set st)

  abbrev pub Gives : DirEntryData → Type 0
  Gives set = (st : State) → Ends P Anyhow (finalize_directory_entry drive config scan set st)

  abbrev KeepsAll : List DirEntryData → Type 0
  KeepsAll sets = (set : DirEntryData) → Some (λ dir. dir ≡ set) sets → Keeps set

  finalize_all-Keeps :
      (sets : List DirEntryData) (st : State)
      → KeepsAll sets
      → P st
      → Ends P Anyhow (finalize_all drive config scan sets st)
  unfolding finalize_all
  finalize_all-Keeps [] st keeps p = p
  finalize_all-Keeps (set ∷ sets) st keeps p =
      Ends-bind P P Anyhow (finalize_directory_entry drive config scan set st) _
        (keeps set (inl refl) st p)
        (λ st' p'. finalize_all-Keeps sets st' (λ other h. keeps other (inr h)) p')

  finalize_all-Gives :
      (sets : List DirEntryData) (wanted : DirEntryData) (st : State)
      → KeepsAll sets
      → Some (λ dir. dir ≡ wanted) sets
      → Gives wanted
      → Ends P Anyhow (finalize_all drive config scan sets st)
  unfolding finalize_all
  finalize_all-Gives [] wanted st keeps stands gives = absurd stands
  finalize_all-Gives (set ∷ sets) wanted st keeps (inl at) gives =
      Ends-bind P P Anyhow (finalize_directory_entry drive config scan set st) _ (rw at (gives st))
        (λ st' p'. finalize_all-Keeps sets st' (λ other h. keeps other (inr h)) p')
  finalize_all-Gives (set ∷ sets) wanted st keeps (inr later) gives =
      let first = finalize_directory_entry drive config scan set st in
      Ends-bind (λ _. Unit {0}) P Anyhow first _ (Ends-anyhow first)
        (λ st' _. finalize_all-Gives sets wanted st' (λ other h. keeps other (inr h)) later gives)

  abbrev bound : ℕ
  bound = mul64 drive.boot_sector.cluster_count drive.sectors_per_cluster

  -- The sets in the sectors of a range.
  abbrev KeepsWithin : ℕ → ℕ → Type 0
  KeepsWithin left sector =
      (s : ℕ) (buffer : List ℕ)
      → sector ≤ s
      → s < sector + left
      → leb bound s ≡ false
      → drive.reader.read_sector s drive.bytes_per_sector ≡ some buffer
      → KeepsAll (sets_in drive buffer)

  scan_sectors-Keeps :
      (left sector : ℕ) (st : State)
      → KeepsWithin left sector
      → P st
      → Ends P Anyhow (scan_sectors drive config scan left sector st)
  unfolding scan_sectors process_entries_in_sector
  scan_sectors-Keeps zero sector st keeps p = p
  scan_sectors-Keeps (suc left) sector st keeps p =
      let later = λ (s : ℕ) (buffer : List ℕ) (a : sector + 1 ≤ s) (b : s < sector + 1 + left).
        keeps s buffer (omega arith) (omega arith) in
      Ends-bind P P Anyhow _ _
        (elim (Bool-cases (leb bound sector)) [
          | inl outside ↦ rw (outside, Ends) p
          | inr inside ↦
              elim (Option-cases (drive.reader.read_sector sector drive.bytes_per_sector)) [
                | inl fails ↦ rw (inside, fails, Ends) p
                | inr (buffer, reads) ↦
                    rw
                      (
                        inside,
                        reads,
                        process_entries-sets_of drive config scan
                            (drive.bytes_per_sector / sizeof_directory_entry) 0 buffer no_data st,
                      )
                      (finalize_all-Keeps (sets_in drive buffer) st
                        (keeps sector buffer (omega arith) (omega arith) inside reads) p)
              ]
        ])
        (λ st' p'. scan_sectors-Keeps left (sector + 1) st' later p')

  scan_sectors-Gives :
      (left sector s : ℕ) (buffer : List ℕ) (wanted : DirEntryData) (st : State)
      → KeepsWithin left sector
      → sector ≤ s
      → s < sector + left
      → leb bound s ≡ false
      → drive.reader.read_sector s drive.bytes_per_sector ≡ some buffer
      → Some (λ dir. dir ≡ wanted) (sets_in drive buffer)
      → Gives wanted
      → Ends P Anyhow (scan_sectors drive config scan left sector st)
  unfolding scan_sectors process_entries_in_sector
  scan_sectors-Gives zero sector s buffer wanted st keeps low high inside reads stands gives =
      absurd (omega arith)
  scan_sectors-Gives (suc left) sector s buffer wanted st keeps low high inside reads stands gives =
      let later = λ (s : ℕ) (buffer : List ℕ) (a : sector + 1 ≤ s) (b : s < sector + 1 + left).
        keeps s buffer (omega arith) (omega arith) in
      elim (at_or_later sector s low) [
        | inl at ↦
            let inside' : leb bound sector ≡ false = rw (← at) inside in
            let reads' : drive.reader.read_sector sector drive.bytes_per_sector ≡ some buffer =
              rw (← at) reads in
            Ends-bind P P Anyhow _ _
              (rw
                (
                  inside',
                  reads',
                  process_entries-sets_of drive config scan
                      (drive.bytes_per_sector / sizeof_directory_entry) 0 buffer no_data st,
                )
                (finalize_all-Gives (sets_in drive buffer) wanted st
                  (keeps sector buffer (omega arith) (omega arith) inside' reads') stands gives))
              (λ st' p'. scan_sectors-Keeps left (sector + 1) st' later p')
        | inr above ↦
            Ends-bind (λ _. Unit {0}) P Anyhow _ _ (Ends-anyhow _)
              (λ st' _.
                scan_sectors-Gives left (sector + 1) s buffer wanted st' later above (omega arith)
                  inside reads stands gives)
      ]

  module _ (cluster : ℕ) where
    keeps_within :
        ((place : Place drive cluster) → Keeps place.set)
        → KeepsWithin drive.sectors_per_cluster (cluster_to_sector drive cluster)
    keeps_within keeps s buffer low high inside reads set stands = keeps (record {
      sector = s;
      buffer = buffer;
      set = set;
      low = low;
      high = high;
      inside = inside;
      read = reads;
      stands = stands;
    })

    -- What every set in the cluster keeps, the search of its sectors keeps.
    pub scan_cluster-Keeps :
        (st : State)
        → ((place : Place drive cluster) → Keeps place.set)
        → P st
        → Ends P Anyhow (
            scan_sectors drive config scan drive.sectors_per_cluster
              (cluster_to_sector drive cluster)
              st)
    scan_cluster-Keeps st keeps p =
        scan_sectors-Keeps drive.sectors_per_cluster (cluster_to_sector drive cluster) st
          (keeps_within keeps) p

    -- What one set gives, and the others keep, the search of the sectors gives.
    pub scan_cluster-Gives :
        (st : State) (place : Place drive cluster)
        → ((other : Place drive cluster) → Keeps other.set)
        → Gives place.set
        → Ends P Anyhow (
            scan_sectors drive config scan drive.sectors_per_cluster
              (cluster_to_sector drive cluster)
              st)
    scan_cluster-Gives st place keeps gives =
        scan_sectors-Gives drive.sectors_per_cluster (cluster_to_sector drive cluster) place.sector
          place.buffer place.set st (keeps_within keeps) place.low place.high place.inside
          place.read place.stands gives
