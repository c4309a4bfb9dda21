-- ===== src/Tests/ReportRuns.antt =====
-- The log, the report of a file, the partition table and the names of folders, on small inputs.
use data_recovery_tool.Common.{
  ℕ, ◌≡◌, refl, true, false, List, [], ◌∷◌, ◌++◌, ◌==◌, ◌-◌, ◌&&◌, some, none, ok, leb, ltb, all,
  map,
}
use data_recovery_tool.Common.{flatten, if◌then◌else◌, replicate}
use data_recovery_tool.Text.{codes, same_text}
use data_recovery_tool.Device.{SectorReader}
use data_recovery_tool.CommandLine.{initial_config}
use data_recovery_tool.Config.{Config}
use data_recovery_tool.Utils.{get_output_path}
use data_recovery_tool.Utils.Log.{LogLine, LogFolder, render, open_log_file, log_search}
use data_recovery_tool.Utils.Log.{new_log_file, confirm_proceed_without_log_file}
use data_recovery_tool.Utils.Log.Content.{bytes_of, log_search-content}
use data_recovery_tool.Fat32.Names.Folders.{compare_folder_names}
use data_recovery_tool.Handler.Partition.{
  get_partition_type, get_partition_type_of_gpt, is_mbr, mbr,
}

-- A stream that converts characters below 256 and stops at the first other one.
abbrev narrow_part : List ℕ → List ℕ
narrow_part [] = []
narrow_part (c ∷ cs) = if ltb c 256 then c ∷ narrow_part cs else []

abbrev folder : LogFolder
folder = record {
  holds = λ name. false;
  can_open = λ name. true;
  tries = 3;
  convert = λ text. (narrow_part text, all (λ c. ltb c 256) text);
}

abbrev config : Config
config = record initial_config { log_file = codes "FileDataLog.txt" }

abbrev line_a : LogLine
line_a = record { file_id = 1; file_name = codes "A.TXT"; file_size = 10 }

abbrev line_b : LogLine
line_b = record { file_id = 2; file_name = 0x416 ∷ codes ".TXT"; file_size = 20 }

abbrev line_c : LogLine
line_c = record { file_id = 3; file_name = codes "C.TXT"; file_size = 30 }

rendered : render line_a ≡ codes "#1 Filename: \"A.TXT\" (10 bytes)\n"
unfolding render
rendered = refl

log_search-content_example :
    (log_search folder config (line_a ∷ [])
      ≡ ok (record {
        is_open = false;
        failed = false;
        content = flatten (map (bytes_of folder config refl) (line_a ∷ []));
      }))
    × (log_search folder config (line_a ∷ line_b ∷ line_c ∷ [])
        ≡ ok (record {
          is_open = false;
          failed = true;
          content =
              flatten (map (bytes_of folder config refl) (line_a ∷ []))
              ++ bytes_of folder config refl line_b;
        }))
unfolding render get_output_path
log_search-content_example =
    log_search-content folder config refl (codes "FileDataLog.txt") (line_a ∷ []) (line_c ∷ [])
      line_b refl refl (refl, tt) refl

-- With `--no-log` the stream is not opened, so the prompt is asked.
not_opened :
    open_log_file folder (record config { create_file_data_log = false }) new_log_file
    ≡ ok (new_log_file, false)
unfolding open_log_file
not_opened = refl

answers : confirm_proceed_without_log_file (codes "what" ∷ codes "n" ∷ []) ≡ false
unfolding confirm_proceed_without_log_file same_text
answers = refl

abbrev boot_record : List ℕ
boot_record = replicate 510 0 ++ 0x55 ∷ 0xAA ∷ []

abbrev disk : SectorReader
disk = record {
  read_sector = λ sector size.
      if sector == 0
      then some boot_record
      else if sector == 1
      then some (codes "EFI PART" ++ replicate 504 0)
      else none;
  left_behind = λ sector size. [];
  bytes_per_sector = 512;
  filesystem_type = [];
  total_mft_records = 0;
}

gpt_taken_for_mbr : get_partition_type (some disk) 512 ≡ ok mbr
unfolding is_mbr
gpt_taken_for_mbr = get_partition_type_of_gpt disk 512 boot_record (replicate 504 0) refl refl refl

same_folders :
    compare_folder_names
      (λ c. if leb b'a' c && leb c b'z' then c - 32 else c)
      (codes "Photos" ++ 0 ∷ 0xFFFF ∷ [])
      (codes "PHOTOS  ")
    ≡ true
unfolding compare_folder_names
same_folders = refl
