-- ===== src/Tests/TreeRuns.antt =====
-- A FAT32 volume of two directories, the second inside the first.
use data_recovery_tool.Common.{ℕ, ◌<◌, ◌≡◌, ◌≢◌, refl, sym, ◌∙◌, ◌⊎◌, inl, inr, arith}
use data_recovery_tool.Common.{List, [], ◌∷◌, ◌++◌, ok, err, true, ◌==◌, if◌then◌else◌, replicate}
use data_recovery_tool.Common.{out_of_fuel, Option, some, Outcome}
use data_recovery_tool.Text.{codes}
use data_recovery_tool.Fat32.Volume.{Drive, get_next_cluster, is_valid_cluster, sanitize_cluster}
use data_recovery_tool.Fat32.Volume.{cluster_to_sector}
use data_recovery_tool.Fat32.Structs.{directory_entry_at}
use data_recovery_tool.Fat32.Volume.Clusters.{is_valid_cluster_iff}
use data_recovery_tool.Fat32.Scan.{scan_directory}
use data_recovery_tool.Fat32.Scan.Induction.{LeadsWell}
use data_recovery_tool.Fat32.Scan.Invariant.{at_start}
use data_recovery_tool.Fat32.Scan.Termination.{IsRanked, Any, HasFuel, scan_directory_terminates}
use data_recovery_tool.Tests.Sample.{fit, drive_of, recovering, is_ascii_alnum}

-- Every table entry is 0, and the root directory in cluster 2 holds a directory in cluster 3.
abbrev tree_sectors : ℕ → List ℕ
tree_sectors sector =
    if sector == 2 then codes "SUB        " ++ (0x10 ∷ replicate 14 0) ++ 3 ∷ [] else []

abbrev tree : Drive
tree = let d = drive_of tree_sectors in record d { info = record d.info { max_cluster_count = 3 } }

abbrev rank : ℕ → ℕ
rank c = if c == 2 then 1 else 0

two_clusters : (c : ℕ) → is_valid_cluster tree c ≡ true → (c ≡ 2) ⊎ (c ≡ 3)
two_clusters c valid =
    let (low, high, small) = (is_valid_cluster_iff tree c).0 valid in ground arith

no_next : (c : ℕ) → is_valid_cluster tree c ≡ true → get_next_cluster tree c ≡ ok 0
unfolding get_next_cluster
no_next c valid = elim (two_clusters c valid) [ inl e ↦ rw e refl | inr e ↦ rw e refl ]

place : (c : ℕ) → is_valid_cluster tree c ≡ true → cluster_to_sector tree c ≡ c
unfolding cluster_to_sector
place c valid = elim (two_clusters c valid) [ inl e ↦ rw e refl | inr e ↦ rw e refl ]

unwrap : {a b : List ℕ} → ◌≡◌ {A = Option (List ℕ)} (some a) (some b) → a ≡ b
unwrap h = cc

unwrap_ok : {a b : ℕ} → ◌≡◌ {A = Outcome ℕ} (ok a) (ok b) → a ≡ b
unwrap_ok h = cc

two_entries : (k : ℕ) → k < 2 → (k ≡ 0) ⊎ (k ≡ 1)
two_entries k few = ground arith

leads :
    (c k : ℕ)
    → is_valid_cluster tree c ≡ true
    → k < 2
    → LeadsWell tree recovering is_ascii_alnum Any HasFuel
        (λ d. rank d < rank c)
        (fit 64 (tree_sectors c))
        k
unfolding sanitize_cluster directory_entry_at
leads c k valid few = elim (two_clusters c valid) [
  | inl e ↦ elim (two_entries k few) [
    | inl e' ↦ rw (e, e') (λ h kept. omega arith)
    | inr e' ↦ rw (e, e') (λ h kept. cc)
  ]
  | inr e ↦ elim (two_entries k few) [
    | inl e' ↦ rw (e, e') (λ h kept. cc)
    | inr e' ↦ rw (e, e') (λ h kept. cc)
  ]
]

invalid_zero : is_valid_cluster tree 0 ≡ true → ⊥
unfolding is_valid_cluster
invalid_zero h = cc

tree-IsRanked : IsRanked tree recovering is_ascii_alnum rank
tree-IsRanked = record {
  chain = λ c n valid next valid_n.
      absurd (invalid_zero (rw (unwrap_ok (sym next ∙ no_next c valid)) at valid_n));
  subdirectories = λ c valid s buffer low high read k few.
      let at_c : s ≡ c = omega (arith, place c valid) in
      let filled : buffer ≡ fit 64 (tree_sectors c) = rw (← at_c) (sym (unwrap read)) in
      rw filled (leads c k valid few);
}

scan_directory_terminates_example :
    scan_directory tree recovering is_ascii_alnum 2 2 at_start ≢ err out_of_fuel
scan_directory_terminates_example =
    scan_directory_terminates tree recovering is_ascii_alnum rank tree-IsRanked 2 2 at_start
      (omega arith)
