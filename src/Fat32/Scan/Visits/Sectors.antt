-- ===== src/Fat32/Scan/Visits/Sectors.antt =====
-- The sectors of a cluster in the search: what the entries keep and give, the cluster keeps and gives.
use data_recovery_tool.Common.{ℕ, zero, suc, ◌+◌, ◌/◌, ◌≤◌, ◌<◌, ◌≡◌, inl, inr, arith, true, false}
use data_recovery_tool.Common.{List, [], some, ◌==◌, Bool, Option-cases}
use data_recovery_tool.Common.{Outcome, Ends, Ends-bind, Ends-anyhow}
use data_recovery_tool.Config.{Config}
use data_recovery_tool.Fat32.Structs.{sizeof_directory_entry}
use data_recovery_tool.Fat32.Volume.{Drive, is_valid_cluster, cluster_to_sector}
use data_recovery_tool.Fat32.Scan.{State, process_entries_in_sector, scan_sectors}
use data_recovery_tool.Fat32.Scan.Reached.{Place, entry_of, entry_at}
use data_recovery_tool.Fat32.Scan.Visits.{
  Anyhow, AliveBelow, at_or_later, Keeps, Gives, KeepsFrom, process_entries-Keeps,
  process_entries-Gives,
}

module _ (drive : Drive) (config : Config) (iswalnum : ℕ → Bool) (scan : ℕ → State → Outcome State)
    (P : State → Type 0) where
  -- The entries that the search comes to in the sectors of a range.
  abbrev KeepsWithin : ℕ → ℕ → Type 0
  KeepsWithin left sector =
      (s : ℕ) (buffer : List ℕ)
      → sector ≤ s
      → s < sector + left
      → drive.reader.read_sector s drive.bytes_per_sector ≡ some buffer
      → KeepsFrom drive config iswalnum scan P (drive.bytes_per_sector / sizeof_directory_entry) 0
          buffer

  none_below : (buffer : List ℕ) → AliveBelow buffer 0
  none_below buffer i h = absurd (omega arith)

  scan_sectors-Keeps :
      (left sector : ℕ) (st : State)
      → KeepsWithin left sector
      → P st
      → Ends P Anyhow (scan_sectors drive config iswalnum scan left sector st)
  unfolding scan_sectors process_entries_in_sector
  scan_sectors-Keeps zero sector st keeps p = p
  scan_sectors-Keeps (suc left) sector st keeps p =
      let later = λ (s : ℕ) (buffer : List ℕ) (a : sector + 1 ≤ s) (b : s < sector + 1 + left).
        keeps s buffer (omega arith) (omega arith) in
      Ends-bind P P Anyhow _ _
        (elim (Option-cases (drive.reader.read_sector sector drive.bytes_per_sector)) [
          | inl e ↦ rw e p
          | inr (buffer, e) ↦ rw e (
              process_entries-Keeps drive config iswalnum scan P
                (drive.bytes_per_sector / sizeof_directory_entry) 0 [] buffer st (none_below buffer)
                (keeps sector buffer (omega arith) (omega arith) e) p)
        ])
        (λ st' p'. scan_sectors-Keeps left (sector + 1) st' later p')

  scan_sectors-Gives :
      (left sector s k : ℕ) (buffer : List ℕ) (st : State)
      → KeepsWithin left sector
      → sector ≤ s
      → s < sector + left
      → drive.reader.read_sector s drive.bytes_per_sector ≡ some buffer
      → k < drive.bytes_per_sector / sizeof_directory_entry
      → AliveBelow buffer (k + 1)
      → ((entry_of buffer k).attr == 0x0F) ≡ false
      → Gives drive config iswalnum scan P (entry_of buffer k)
      → Ends P Anyhow (scan_sectors drive config iswalnum scan left sector st)
  unfolding scan_sectors process_entries_in_sector
  scan_sectors-Gives zero sector s k buffer st keeps low high read few alive plain gives =
      absurd (omega arith)
  scan_sectors-Gives (suc left) sector s k buffer st keeps low high read few alive plain gives =
      let later = λ (s : ℕ) (buffer : List ℕ) (a : sector + 1 ≤ s) (b : s < sector + 1 + left).
        keeps s buffer (omega arith) (omega arith) in
      let entries = drive.bytes_per_sector / sizeof_directory_entry in
      elim (at_or_later sector s low) [
        | inl at ↦
            let read' : drive.reader.read_sector sector drive.bytes_per_sector ≡ some buffer =
              rw (← at) read in
            Ends-bind P P Anyhow _ _
              (rw read' (
                process_entries-Gives drive config iswalnum scan P entries 0 k [] buffer st
                  (none_below buffer) (keeps sector buffer (omega arith) (omega arith) read')
                  (omega arith) (omega arith) alive plain gives))
              (λ st' p'. scan_sectors-Keeps left (sector + 1) st' later p')
        | inr above ↦
            Ends-bind (λ _. Unit {0}) P Anyhow _ _ (Ends-anyhow _)
              (λ st' _.
                scan_sectors-Gives left (sector + 1) s k buffer st' later above (omega arith) read
                  few alive plain gives)
      ]

  module _ (cluster : ℕ) (valid : is_valid_cluster drive cluster ≡ true) where
    keeps_within :
        ((place : Place drive cluster) → Keeps drive config iswalnum scan P (entry_at drive place))
        → KeepsWithin drive.sectors_per_cluster (cluster_to_sector drive cluster)
    keeps_within keeps s buffer low high read k low' few alive plain = keeps (record {
      sector = s;
      buffer = buffer;
      index = k;
      valid = valid;
      low = low;
      high = high;
      read = read;
      few = omega (arith, few);
      alive = λ i h. alive i (omega arith);
      plain = plain;
    })

    -- What every entry at a place keeps, the search of the cluster's sectors keeps.
    pub scan_cluster-Keeps :
        (st : State)
        → ((place : Place drive cluster)
            → Keeps drive config iswalnum scan P (entry_at drive place))
        → P st
        → Ends P Anyhow (
            scan_sectors drive config iswalnum scan drive.sectors_per_cluster
              (cluster_to_sector drive cluster)
              st)
    scan_cluster-Keeps st keeps p =
        scan_sectors-Keeps drive.sectors_per_cluster (cluster_to_sector drive cluster) st
          (keeps_within keeps) p

    -- What the entry at one place gives, and the others keep, the search of the sectors gives.
    pub scan_cluster-Gives :
        (st : State) (place : Place drive cluster)
        → ((other : Place drive cluster)
            → Keeps drive config iswalnum scan P (entry_at drive other))
        → Gives drive config iswalnum scan P (entry_at drive place)
        → Ends P Anyhow (
            scan_sectors drive config iswalnum scan drive.sectors_per_cluster
              (cluster_to_sector drive cluster)
              st)
    scan_cluster-Gives st place keeps gives =
        scan_sectors-Gives drive.sectors_per_cluster (cluster_to_sector drive cluster) place.sector
          place.index place.buffer st (keeps_within keeps) place.low place.high place.read place.few
          (λ i h. place.alive i (omega arith)) place.plain gives
