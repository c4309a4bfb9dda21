-- ===== src/Analysis/FileName.antt =====
-- `isFileNameCorrupted`.
use data_recovery_tool.Common.{ℕ, ◌+◌, ◌/◌, Bool, true, ◌||◌, List, [], ◌∷◌}
use data_recovery_tool.Common.{ltb, ◌==◌, if◌then◌else◌, length, false}
use data_recovery_tool.Text.{codes}

unfoldable pub is_member : ℕ → List ℕ → Bool
is_member c [] = false
is_member c (x ∷ xs) = c == x || is_member c xs

-- `find_first_of` finds something.
unfoldable pub has_any : List ℕ → List ℕ → Bool
unfolding is_member
has_any invalid [] = false
has_any invalid (c ∷ cs) = is_member c invalid || has_any invalid cs

abbrev pub invalid_chars : List ℕ
invalid_chars = codes "<>:\"/\\|?*"

unfoldable pub count_control : List ℕ → ℕ
count_control [] = 0
count_control (c ∷ cs) = (if ltb c 32 then 1 else 0) + count_control cs

unfoldable pub count_unusual : List ℕ → ℕ
count_unusual [] = 0
count_unusual (c ∷ cs) = (if ltb 127 c then 1 else 0) + count_unusual cs

unfoldable pub is_file_name_corrupted : List ℕ → Bool
unfolding has_any count_control count_unusual
is_file_name_corrupted file_name =
    if length file_name == 0
    then true
    else if has_any invalid_chars file_name
    then true
    else ltb 0 (count_control file_name) || ltb (length file_name / 2) (count_unusual file_name)
