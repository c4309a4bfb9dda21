-- ===== src/ExFat/Scan/Found/Complete.antt =====
-- Every deleted file of an exFAT volume that the search gets to is listed.
use data_recovery_tool.Common.{
  ℕ, zero, suc, ◌+◌, ◌≡◌, ◌==◌, sym, ◌∙◌, inl, true, false, ◌||◌, ◌&&◌, not, [], ◌∷◌, leb,
}
use data_recovery_tool.Common.{
  Some, Some-append_left, Some-append_right, Outcome, ok, Ends, Ends-anyhow,
}
use data_recovery_tool.Config.{Config}
use data_recovery_tool.ExFat.Structs.{DirEntryData}
use data_recovery_tool.ExFat.Volume.{Drive, is_valid_cluster}
use data_recovery_tool.ExFat.Scan.{
  State, scan_directory, is_complete, finalize_directory_entry, max_recursion_depth,
}
use data_recovery_tool.ExFat.Scan.Reached.{Place, Reaches, IsEntered, IsDeletedFile, IsFileOf}
use data_recovery_tool.ExFat.Scan.Visits.{
  Anyhow, Keeps, Gives, scan_cluster-Keeps, scan_cluster-Gives,
}
use data_recovery_tool.ExFat.Scan.Found.{record_file-adds, finalize-Ends, scan_directory-step}

ok_injective : {a b : ℕ} → ◌≡◌ {A = Outcome ℕ} (ok a) (ok b) → a ≡ b
ok_injective h = cc

module _ (drive : Drive) (config : Config) (wanted : (config.recover || config.analyze) ≡ true)
    (set : DirEntryData) where
  -- The list has a file of the set.
  abbrev pub Lists : State → Type 0
  Lists st = Some (IsFileOf drive set) st.recovery_list

  set-Keeps :
      (scan : ℕ → State → Outcome State)
      → ((c : ℕ) (st : State) → Lists st → Ends Lists Anyhow (scan c st))
      → (other : DirEntryData) → Keeps drive config scan Lists other
  set-Keeps scan scans other st p =
      finalize-Ends drive config Lists scan other st
        (λ complete directory. scans other.starting_cluster st p)
        (λ deleted.
          let (file, added, same) = record_file-adds drive config wanted other st in
          rw added (Some-append_left (IsFileOf drive set) st.recovery_list (file ∷ []) p))
        p

  scan-keeps :
      (fuel cluster depth : ℕ) (st : State)
      → Lists st
      → Ends Lists Anyhow (scan_directory drive config fuel cluster depth st)
  unfolding scan_directory
  scan-keeps zero cluster depth st p = tt
  scan-keeps (suc fuel) cluster depth st p =
      let scan = λ (c : ℕ). scan_directory drive config fuel c 1 in
      scan_directory-step drive config Lists Lists fuel cluster depth st (λ stopped. p)
        (λ entered.
          scan_cluster-Keeps drive config scan Lists cluster st
            (λ place. set-Keeps scan (λ c st' p'. scan-keeps fuel c 1 st' p') place.set) p)
        (λ st' next p' e ends. p')
        (λ st' next entered p' e both. scan-keeps fuel next (depth + 1) st' p')

  deleted-Gives :
      (scan : ℕ → State → Outcome State)
      → IsDeletedFile drive set
      → Gives drive config scan Lists set
  unfolding finalize_directory_entry
  deleted-Gives scan (complete, file, deleted) st =
      let (listed, added, same) = record_file-adds drive config wanted set st in
      rw (complete, finalize_directory_entry, file, deleted, Ends)
        (rw added
          (Some-append_right (IsFileOf drive set) st.recovery_list (listed ∷ []) (inl same)))

  child-Gives :
      (scan : ℕ → State → Outcome State) (parent : DirEntryData)
      → is_complete drive parent ≡ true
      → parent.is_directory ≡ true
      → ((st : State) → Ends Lists Anyhow (scan parent.starting_cluster st))
      → Gives drive config scan Lists parent
  unfolding finalize_directory_entry
  child-Gives scan parent complete directory scans st =
      rw (complete, finalize_directory_entry, directory, Ends) (scans st)

  -- A cluster that is entered is not left alone.
  not_stopped :
      (depth cluster : ℕ)
      → IsEntered drive depth cluster
      → (leb max_recursion_depth depth || not (is_valid_cluster drive cluster)) ≡ true
      → ⊥
  not_stopped depth cluster (shallow, valid) stopped = cc (rw (shallow, valid) at stopped)

  pub scan_directory-Lists :
      (fuel depth cluster found : ℕ) (st : State)
      → Reaches drive depth cluster found
      → (place : Place drive found) → place.set ≡ set
      → IsDeletedFile drive set
      → Ends Lists Anyhow (scan_directory drive config fuel cluster depth st)
  unfolding scan_directory
  scan_directory-Lists zero depth cluster found st reaches place at deleted = tt
  scan_directory-Lists (suc fuel) depth cluster found st (Reaches.here entered) place at deleted =
      let scan = λ (c : ℕ). scan_directory drive config fuel c 1 in
      scan_directory-step drive config Lists Lists fuel cluster depth st
        (λ stopped. absurd (not_stopped depth cluster entered stopped))
        (λ _.
          scan_cluster-Gives drive config scan Lists cluster st place
            (λ other. set-Keeps scan (λ c st' p'. scan-keeps fuel c 1 st' p') other.set)
            (rw at (deleted-Gives scan deleted)))
        (λ st' next p' e ends. p') (λ st' next _ p' e both. scan-keeps fuel next (depth + 1) st' p')
  scan_directory-Lists (suc fuel) depth cluster found st
        (Reaches.chain {n = n} entered next valid other reaches) place at deleted =
      let scan = λ (c : ℕ). scan_directory drive config fuel c 1 in
      scan_directory-step drive config Lists (λ _. Unit {0}) fuel cluster depth st
        (λ stopped. absurd (not_stopped depth cluster entered stopped)) (λ _. Ends-anyhow _)
        (λ st' next' _ e ends. absurd (goes_on next' (ok_injective (sym e ∙ next)) ends))
        (λ st' next' _ _ e both.
          rw (ok_injective (sym e ∙ next))
            (scan_directory-Lists fuel (depth + 1) n found st' reaches place at deleted))
    where
      goes_on : (m : ℕ) → m ≡ n → (is_valid_cluster drive m && not (m == cluster)) ≡ false → ⊥
      goes_on m same ends = cc (rw (same, valid, other) at ends)
  scan_directory-Lists (suc fuel) depth cluster found st
        (Reaches.child entered parent complete directory reaches) place at deleted =
      let scan = λ (c : ℕ). scan_directory drive config fuel c 1 in
      scan_directory-step drive config Lists Lists fuel cluster depth st
        (λ stopped. absurd (not_stopped depth cluster entered stopped))
        (λ _.
          scan_cluster-Gives drive config scan Lists cluster st parent
            (λ other. set-Keeps scan (λ c st' p'. scan-keeps fuel c 1 st' p') other.set)
            (child-Gives scan parent.set complete directory (λ st'.
              scan_directory-Lists fuel 1 parent.set.starting_cluster found st' reaches place at
                deleted)))
        (λ st' next p' e ends. p') (λ st' next _ p' e both. scan-keeps fuel next (depth + 1) st' p')
