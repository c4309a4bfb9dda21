-- ===== src/History/Overlap.antt =====
-- When a cluster has overlapping usages.
use data_recovery_tool.Common.{ℕ, ◌≡◌, refl, sym, ◌∙◌, ◌↔◌, inl, inr, true, arith}
use data_recovery_tool.Common.{List, [], ◌∷◌, ◌++◌, All, Bool-cases}
use data_recovery_tool.History.{ClusterUsage, ClusterHistory, is_overlap, overlaps_of, overlaps}
use data_recovery_tool.History.{find_overlapping_usage}

-- All usages are those of one file.
abbrev pub IsOneFile : List ClusterUsage → Type 0
IsOneFile [] = Unit
IsOneFile (u ∷ us) = All (λ (v : ClusterUsage). v.file_id ≡ u.file_id) us

abbrev pub AllDeleted : List ClusterUsage → Type 0
AllDeleted us = All (λ (u : ClusterUsage). u.is_deleted ≡ true) us

overlaps_of_empty :
    (u : ClusterUsage) (us : List ClusterUsage)
    → u.is_deleted ≡ true
    → AllDeleted us
    → (overlaps_of u us ≡ []) ↔ All (λ (v : ClusterUsage). v.file_id ≡ u.file_id) us
unfolding overlaps_of
overlaps_of_empty u [] d ds = (λ e. tt, λ h. refl)
overlaps_of_empty u (v ∷ us) d (d', ds) =
    let (to, from) = overlaps_of_empty u us d ds in
    elim (Bool-cases (is_overlap u v)) [
      | inl overlap ↦ (
        λ e. absurd (no_cons (rw (overlap, overlaps_of) at e)),
        λ (same, rest). absurd (ground arith),
      )
      | inr apart ↦ (
        λ e. (ground arith, to (rw (apart, overlaps_of) at e)),
        λ (same, rest). rw (apart, overlaps_of) (from rest),
      )
    ]
  where
    no_cons :
        {p : ClusterUsage × ClusterUsage} {ps : List (ClusterUsage × ClusterUsage)}
        → p ∷ ps ≡ []
        → ⊥
    no_cons e = cc

append-eq-nil : (ps qs : List (ClusterUsage × ClusterUsage)) → ps ++ qs ≡ [] → (ps ≡ []) × (qs ≡ [])
append-eq-nil [] qs e = (refl, e)
append-eq-nil (p ∷ ps) qs e = absurd cc

All-same :
    (u : ClusterUsage) (us : List ClusterUsage)
    → All (λ (v : ClusterUsage). v.file_id ≡ u.file_id) us
    → IsOneFile us
All-same u [] same = tt
All-same u (v ∷ us) (e, same) = all_equal us same
  where
    all_equal :
        (ws : List ClusterUsage)
        → All (λ (w : ClusterUsage). w.file_id ≡ u.file_id) ws
        → All (λ (w : ClusterUsage). w.file_id ≡ v.file_id) ws
    all_equal [] h = tt
    all_equal (w ∷ ws) (e', h) = (e' ∙ sym e, all_equal ws h)

overlaps_empty : (us : List ClusterUsage) → AllDeleted us → (overlaps us ≡ []) ↔ IsOneFile us
unfolding overlaps
overlaps_empty [] ds = (λ e. tt, λ h. refl)
overlaps_empty (u ∷ us) (d, ds) =
    let (to, from) = overlaps_of_empty u us d ds in
    let (to', from') = overlaps_empty us ds in
    (
      λ e. to ((append-eq-nil (overlaps_of u us) (overlaps us) e).0),
      λ same. rw (from same, from' (All-same u us same)),
    )

-- Where all usages of a cluster are those of deleted files, as the program records them, no overlap
-- is found exactly if they are all of one file.
pub find_overlapping_usage_empty :
    (history : ClusterHistory) (cluster : ℕ)
    → AllDeleted (history cluster)
    → (find_overlapping_usage history cluster ≡ []) ↔ IsOneFile (history cluster)
unfolding find_overlapping_usage
find_overlapping_usage_empty history cluster deleted = overlaps_empty (history cluster) deleted
