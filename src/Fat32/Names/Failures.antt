-- ===== src/Fat32/Names/Failures.antt =====
-- How the parsing of a name fails: only by a first sector of fewer than eight bytes.
use data_recovery_tool.Common.{ℕ, suc, Bool, List, inl, inr, leb, length, all, drop, ◌==◌}
use data_recovery_tool.Common.{Option-cases, Bool-cases, Failure, out_of_bounds}
use data_recovery_tool.Common.{require, Ends, Ends-bind, require-Ends}
use data_recovery_tool.Text.{find_last}
use data_recovery_tool.Fat32.Volume.{Drive}
use data_recovery_tool.Fat32.Names.{parse_file_info, parse_parts, parse_with_dot}
use data_recovery_tool.Fat32.Names.{parse_without_dot, predict_extension, first_sector}

module _ (F : Failure → Type 0) (bounds : F out_of_bounds) (drive : Drive) (iswalnum : ℕ → Bool)
    (file_id : ℕ) (name : List ℕ) (c size : ℕ) where
  predict_extension-Ends : Ends (λ _. Unit {0}) F (predict_extension drive c)
  unfolding predict_extension
  predict_extension-Ends =
      Ends-bind (λ _. Unit {0}) (λ _. Unit {0}) F
        (require (leb 8 (length (first_sector drive c))) out_of_bounds) _
        (require-Ends F (leb 8 (length (first_sector drive c))) out_of_bounds bounds) (λ _ _. tt)

  without_dot-Ends : Ends (λ _. Unit {0}) F (parse_without_dot iswalnum drive file_id name c size)
  unfolding parse_without_dot
  without_dot-Ends =
      Ends-bind (λ _. Unit {0}) (λ _. Unit {0}) F (predict_extension drive c) _
        predict_extension-Ends (λ _ _. tt)

  with_dot-Ends :
      (dot_pos : ℕ)
      → Ends (λ _. Unit {0}) F (parse_with_dot iswalnum drive file_id name c size dot_pos)
  unfolding parse_with_dot
  with_dot-Ends dot_pos = elim (Bool-cases (all iswalnum (drop (suc dot_pos) name))) [
    | inl valid ↦ rw (valid, Ends) tt
    | inr invalid ↦
        rw (invalid, Ends)
          (Ends-bind (λ _. Unit {0}) (λ _. Unit {0}) F (predict_extension drive c) _
            predict_extension-Ends (λ _ _. tt))
  ]

  parse_parts-Ends : Ends (λ _. Unit {0}) F (parse_parts iswalnum drive file_id name c size)
  unfolding parse_parts
  parse_parts-Ends = elim (Option-cases (find_last b'.' name)) [
    | inl e ↦ rw (e, Ends) without_dot-Ends
    | inr (dot_pos, e) ↦ elim (Bool-cases (dot_pos == 0)) [
      | inl first ↦ rw (e, first, Ends) without_dot-Ends
      | inr later ↦ rw (e, later, Ends) (with_dot-Ends dot_pos)
    ]
  ]

  pub parse_file_info-fails :
      Ends (λ _. Unit {0}) F (parse_file_info iswalnum drive file_id name c size)
  unfolding parse_file_info
  parse_file_info-fails =
      Ends-bind (λ _. Unit {0}) (λ _. Unit {0}) F (parse_parts iswalnum drive file_id name c size) _
        parse_parts-Ends (λ _ _. tt)
