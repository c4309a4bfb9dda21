-- ===== src/Fat32/Scan/Endless.antt =====
-- A directory chain that comes back to itself.
use data_recovery_tool.Common.{ℕ, zero, suc, ◌≡◌, ◌≢◌, Bool, true, ok, Failure}
use data_recovery_tool.Common.{Ends, Ends-bind, Ends-anyhow, Ends-ok}
use data_recovery_tool.Config.{Config}
use data_recovery_tool.Fat32.Volume.{Drive, is_valid_cluster, cluster_to_sector, get_next_cluster}
use data_recovery_tool.Fat32.Scan.{State, scan_sectors, scan_directory}

abbrev Never : State → Type 0
Never st = ⊥

abbrev Anyhow : Failure → Type 0
Anyhow e = Unit

module _ (drive : Drive) (config : Config) (iswalnum : ℕ → Bool) (InCycle : ℕ → Type 0) where
  abbrev pub IsCycle : Type 0
  IsCycle =
      (c : ℕ)
      → InCycle c
      → (is_valid_cluster drive c ≡ true)
        × ((n : ℕ) × (get_next_cluster drive c ≡ ok n) × InCycle n)

  scan_directory-Never :
      IsCycle
      → (fuel cluster : ℕ) (st : State) → InCycle cluster
      → Ends Never Anyhow (scan_directory drive config iswalnum fuel cluster st)
  unfolding scan_directory
  scan_directory-Never loops zero cluster st in_cycle = tt
  scan_directory-Never loops (suc fuel) cluster st in_cycle =
      let (valid, (n, next, again)) = loops cluster in_cycle in
      let valid_next = (loops n again).0 in
      let sectors =
        scan_sectors drive config iswalnum (scan_directory drive config iswalnum fuel)
          drive.sectors_per_cluster (cluster_to_sector drive cluster) st in
      rw (valid, Ends)
        (Ends-bind (λ _. Unit {0}) Never Anyhow sectors _ (Ends-anyhow sectors)
          (λ st₁ _. rw (next, valid_next, Ends) (scan_directory-Never loops fuel n st₁ again)))

  -- If the table leads from each cluster of a set of valid clusters to one of the set, then the
  -- search of a directory in the set returns on no fuel, whatever its sectors hold.
  pub scan_directory_endless :
      IsCycle
      → (fuel cluster : ℕ) (st st' : State) → InCycle cluster
      → scan_directory drive config iswalnum fuel cluster st ≢ ok st'
  scan_directory_endless loops fuel cluster st st' in_cycle returns =
      Ends-ok Never (scan_directory drive config iswalnum fuel cluster st)
        (scan_directory-Never loops fuel cluster st in_cycle) returns
