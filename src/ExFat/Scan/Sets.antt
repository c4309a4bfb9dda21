-- ===== src/ExFat/Scan/Sets.antt =====
-- The sets of entries that a sector of an exFAT directory amounts to, apart from what the search does
-- with them.
use data_recovery_tool.Common.{
  ℕ, zero, suc, ◌+◌, ◌*◌, ◌≡◌, refl, sym, Bool, true, false, ◌&&◌, List, [], ◌∷◌,
}
use data_recovery_tool.Common.{
  ltb, length, if◌then◌else◌, Bool-cases, inl, inr, Outcome, ok, err, ◌>>=◌,
}
use data_recovery_tool.Config.{Config}
use data_recovery_tool.ExFat.Structs.{
  DirEntryData, no_data, sizeof_directory_entry, common_entry_at,
}
use data_recovery_tool.ExFat.Volume.{Drive}
use data_recovery_tool.ExFat.Scan.{
  State, is_directory_entry, process_directory_entry, finalize_directory_entry, process_entries,
}

-- The set that was begun, if it has a name entry.
abbrev pub pending : DirEntryData → List DirEntryData
pending dir = if dir.in_file_entry then dir ∷ [] else []

-- The sets from the `j`-th entry on.
unfoldable pub sets_of : ℕ → ℕ → List ℕ → DirEntryData → List DirEntryData
unfolding process_directory_entry is_directory_entry common_entry_at
sets_of zero j buffer dir = pending dir
sets_of (suc left) j buffer dir =
    let i = j * sizeof_directory_entry in
    let begins = is_directory_entry (common_entry_at buffer i).entry_type && dir.in_file_entry in
    let next = sets_of left (j + 1) buffer (process_directory_entry buffer i no_data) in
    let same = sets_of left (j + 1) buffer (process_directory_entry buffer i dir) in
    if ltb (length buffer) ((j + 1) * sizeof_directory_entry)
    then pending dir
    else if begins
    then dir ∷ next
    else same

module _ (drive : Drive) (config : Config) (scan : ℕ → State → Outcome State) where
  unfoldable pub finalize_all : List DirEntryData → State → Outcome State
  unfolding finalize_directory_entry
  finalize_all [] st = ok st
  finalize_all (dir ∷ dirs) st = do
    st' ← finalize_directory_entry drive config scan dir st
    finalize_all dirs st'

  bind-ok : (m : Outcome State) → (m >>= λ st. ok st) ≡ m
  bind-ok (ok st) = refl
  bind-ok (err e) = refl

  bind-ap :
      (m : Outcome State) (f g : State → Outcome State)
      → ((st : State) → f st ≡ g st)
      → (m >>= f) ≡ (m >>= g)
  bind-ap (ok st) f g h = h st
  bind-ap (err e) f g h = refl

  finalize_all-pending :
      (named : Bool) (dir : DirEntryData) (st : State)
      → finalize_all (if named then dir ∷ [] else []) st
        ≡ elim named [ false ↦ ok st | true ↦ finalize_directory_entry drive config scan dir st ]
  unfolding finalize_all
  finalize_all-pending true dir st = bind-ok (finalize_directory_entry drive config scan dir st)
  finalize_all-pending false dir st = refl

  -- The search finalizes the sets of a sector in their order.
  pub process_entries-sets_of :
      (left j : ℕ) (buffer : List ℕ) (dir : DirEntryData) (st : State)
      → process_entries drive config scan left j buffer dir st
        ≡ finalize_all (sets_of left j buffer dir) st
  unfolding process_entries sets_of finalize_all
  process_entries-sets_of zero j buffer dir st = sym (finalize_all-pending dir.in_file_entry dir st)
  process_entries-sets_of (suc left) j buffer dir st =
      let i = j * sizeof_directory_entry in
      let begins = is_directory_entry (common_entry_at buffer i).entry_type && dir.in_file_entry in
      elim (Bool-cases (ltb (length buffer) ((j + 1) * sizeof_directory_entry))) [
        | inl outside ↦
            rw (outside, process_entries) (sym (finalize_all-pending dir.in_file_entry dir st))
        | inr inside ↦ elim (Bool-cases begins) [
          | inl next ↦
              rw (inside, process_entries, next)
                (bind-ap (finalize_directory_entry drive config scan dir st) _ _ (
                  process_entries-sets_of left (j + 1) buffer
                    (process_directory_entry buffer i no_data)))
          | inr same ↦
              rw (inside, process_entries, same)
                (process_entries-sets_of left (j + 1) buffer (process_directory_entry buffer i dir)
                  st)
        ]
      ]
