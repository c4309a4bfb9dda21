-- ===== src/Fat32/Names/Folders.antt =====
-- `compareFolderNames` of src/FAT32Recovery.cpp, which nothing calls: the names of two folders are
-- the same but for the case of their letters and the spaces at their end.
use data_recovery_tool.Common.{ℕ, Bool, not, List, ◌==◌, map, keep}
use data_recovery_tool.Text.{same_text, c_string, trim_spaces}

-- The first name ends before its first null, and is taken without the padding of long names.
unfoldable pub compare_folder_names : (ℕ → ℕ) → List ℕ → List ℕ → Bool
unfolding same_text c_string trim_spaces
compare_folder_names towupper filename1 filename2 =
    let trimmed = keep (λ c. not (c == 0xFFFF)) (c_string filename1) in
    same_text (trim_spaces (map towupper trimmed)) (trim_spaces (map towupper filename2))
