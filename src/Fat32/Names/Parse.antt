-- ===== src/Fat32/Names/Parse.antt =====
-- What `parseFileInfo` makes of a name.
use data_recovery_tool.Common.{ℕ, suc, ◌+◌, ◌%◌, ◌^◌, ◌≡◌, refl, sym, ◌⊎◌, inl, inr, Bool}
use data_recovery_tool.Common.{true, false, List, ◌∷◌, ◌++◌, some, all, keep, drop}
use data_recovery_tool.Common.{Option-cases, Bool-cases, ◌==◌, ok}
use data_recovery_tool.Common.{
  Ends, Ends-bind, Ends-anyhow, Ends-ok, Ends-self, Failure, All, take, length, length-take, arith,
}
use data_recovery_tool.Text.{
  find_last, find_last-split, find_last-none, find_last-last, find_last-lt,
}
use data_recovery_tool.Fat32.Structs.{FileInfo}
use data_recovery_tool.Fat32.Volume.{Drive}
use data_recovery_tool.Fat32.Names.{parse_file_info, parse_with_dot, parse_without_dot}
use data_recovery_tool.Fat32.Names.{parse_parts}
use data_recovery_tool.Fat32.Names.{is_not_null, predict_extension}

-- No character is a dot.
abbrev pub IsWithoutDot : List ℕ → Type 0
IsWithoutDot text = All (λ c. (c == b'.') ≡ false) text

module _ (iswalnum : ℕ → Bool) (drive : Drive) (file_id : ℕ) (full_name : List ℕ)
    (cluster size : ℕ) where
  -- No dot counts: there is none, or only one, which comes first.
  abbrev pub IsUndotted : Type 0
  IsUndotted =
      IsWithoutDot full_name ⊎ ((rest : List ℕ) × (full_name ≡ b'.' ∷ rest) × IsWithoutDot rest)

  -- The name is a stem of some characters, a dot, and what stands behind the last dot.
  pub record IsSplit (stem extension : List ℕ) : Type 0 where
    pub joined : full_name ≡ stem ++ b'.' ∷ extension
    pub last : IsWithoutDot extension
    pub some_stem : (length stem == 0) ≡ false

  -- The extension is predicted from the content, and stands behind the given stem.
  pub record IsPredicted (stem : List ℕ) (info : FileInfo) : Type 0 where
    pub marked : info.is_extension_predicted ≡ true
    pub name : info.file_name ≡ stem
    pub predicted : predict_extension drive cluster ≡ ok info.extension
    pub whole : info.full_name ≡ stem ++ b'.' ∷ info.extension

  -- The extension is that of the name.
  pub record IsKept (stem extension : List ℕ) (info : FileInfo) : Type 0 where
    pub marked : info.is_extension_predicted ≡ false
    pub name : info.file_name ≡ stem
    pub kept : info.extension ≡ extension
    pub whole : info.full_name ≡ keep is_not_null full_name

  -- The information keeps the counter, the cluster and the size that it is given, and splits the
  -- name: an undotted one is the stem as a whole, and another is split at its last dot.
  pub record IsParsed (info : FileInfo) : Type 0 where
    pub same_id : info.file_id ≡ file_id
    pub same_cluster : info.cluster ≡ cluster
    pub same_size : info.file_size ≡ size
    pub named :
        IsUndotted × IsPredicted full_name info
        ⊎ (stem extension : List ℕ) × IsSplit stem extension
          × ((all iswalnum extension ≡ false) × IsPredicted stem info
              ⊎ (all iswalnum extension ≡ true) × IsKept stem extension info)

  abbrev Anyhow : Failure → Type 0
  Anyhow e = Unit

  predicts :
      Ends (λ p. predict_extension drive cluster ≡ ok p) Anyhow (predict_extension drive cluster)
  predicts =
      Ends-self Anyhow (predict_extension drive cluster)
        (Ends-anyhow (predict_extension drive cluster))

  parse_with_dot-IsParsed :
      (dot_pos : ℕ)
      → find_last b'.' full_name ≡ some dot_pos
      → (dot_pos == 0) ≡ false
      → Ends IsParsed Anyhow (parse_with_dot iswalnum drive file_id full_name cluster size dot_pos)
  unfolding parse_with_dot
  parse_with_dot-IsParsed dot_pos e later =
      let stem = take dot_pos full_name in
      let extension = drop (suc dot_pos) full_name in
      let split : IsSplit stem extension = record {
        joined = sym (find_last-split b'.' full_name dot_pos e);
        last = find_last-last b'.' full_name dot_pos e;
        some_stem =
            let size = find_last-lt b'.' full_name dot_pos e in
            let taken = length-take dot_pos full_name in ground arith;
      } in
      elim (Bool-cases (all iswalnum extension)) [
        | inl valid ↦
            rw (valid, Ends)
              (record {
                same_id = refl;
                same_cluster = refl;
                same_size = refl;
                named = inr (
                  stem,
                  extension,
                  split,
                  inr (valid, record { marked = refl; name = refl; kept = refl; whole = refl }),
                );
              })
        | inr invalid ↦
            rw (invalid, Ends)
              (Ends-bind (λ p. predict_extension drive cluster ≡ ok p) IsParsed Anyhow
                (predict_extension drive cluster) _ predicts
                (λ predicted returns. record {
                  same_id = refl;
                  same_cluster = refl;
                  same_size = refl;
                  named = inr (
                    stem,
                    extension,
                    split,
                    inl (
                      invalid,
                      record { marked = refl; name = refl; predicted = returns; whole = refl },
                    ),
                  );
                }))
      ]

  parse_without_dot-IsParsed :
      IsUndotted
      → Ends IsParsed Anyhow (parse_without_dot iswalnum drive file_id full_name cluster size)
  unfolding parse_without_dot
  parse_without_dot-IsParsed undotted =
      Ends-bind (λ p. predict_extension drive cluster ≡ ok p) IsParsed Anyhow
        (predict_extension drive cluster) _ predicts
        (λ predicted returns. record {
          same_id = refl;
          same_cluster = refl;
          same_size = refl;
          named =
              inl (
                undotted,
                record { marked = refl; name = refl; predicted = returns; whole = refl },
              );
        })

  parse_parts-IsParsed :
      Ends IsParsed Anyhow (parse_parts iswalnum drive file_id full_name cluster size)
  unfolding parse_parts
  parse_parts-IsParsed = elim (Option-cases (find_last b'.' full_name)) [
    | inl e ↦ rw (e, Ends) (parse_without_dot-IsParsed (inl (find_last-none b'.' full_name e)))
    | inr (dot_pos, e) ↦ elim (Bool-cases (dot_pos == 0)) [
      | inl first ↦
          let at_start : dot_pos ≡ 0 = ground arith in
          let split : full_name ≡ b'.' ∷ drop 1 full_name =
            sym (find_last-split b'.' full_name 0 (rw at_start at e)) in
          rw (e, first, Ends)
            (parse_without_dot-IsParsed
              (inr (drop 1 full_name, split, find_last-last b'.' full_name 0 (rw at_start at e))))
      | inr later ↦ rw (e, later, Ends) (parse_with_dot-IsParsed dot_pos e later)
    ]
  ]

  abbrev pub IsCounted : FileInfo × ℕ → Type 0
  IsCounted (info, next_id) = IsParsed info × (next_id ≡ (file_id + 1) % 2 ^ 16)

  pub parse_file_info-Ends :
      Ends IsCounted Anyhow (parse_file_info iswalnum drive file_id full_name cluster size)
  unfolding parse_file_info
  parse_file_info-Ends =
      Ends-bind IsParsed IsCounted Anyhow
        (parse_parts iswalnum drive file_id full_name cluster size) _ parse_parts-IsParsed
        (λ info h. (h, refl))

  -- Whenever `parseFileInfo` returns, the information keeps the id, the cluster and the size that it
  -- was given, and the counter is one more, in 16 bits. A name with no dot, or with its only dot in
  -- front, is the stem as a whole, and the extension is predicted. Another name is split at its last
  -- dot, and what stands before it is the stem: if all behind the dot passes `iswalnum`, it is the
  -- extension, and the full name is the given one without its nulls; if not, the extension is
  -- predicted. A predicted extension is what `predictExtension` gives for the cluster, and the full
  -- name is then the stem, a dot and the extension.
  pub parse_file_info-IsParsed :
      (info : FileInfo) (next_id : ℕ)
      → parse_file_info iswalnum drive file_id full_name cluster size ≡ ok (info, next_id)
      → IsParsed info × (next_id ≡ (file_id + 1) % 2 ^ 16)
  parse_file_info-IsParsed info next_id returns =
      Ends-ok IsCounted (parse_file_info iswalnum drive file_id full_name cluster size)
        parse_file_info-Ends returns
