-- ===== src/Utils/Log/Content.antt =====
-- What a search leaves in its log file.
use data_recovery_tool.Common.{
  ℕ, ◌≡◌, refl, ap, sym, ◌∙◌, true, false, not, List, [], ◌∷◌, ◌++◌, map, flatten,
}
use data_recovery_tool.Common.{All, ok}
use mathlib.Core.List.{append-nil, append_assoc}
use data_recovery_tool.Config.{Config}
use data_recovery_tool.Utils.{get_output_path}
use data_recovery_tool.Utils.Log.{
  LogLine, LogFile, LogFolder, render, close_log_file, open_log_file, write_to_log_file,
  log_file_info, log_files, log_search,
}

module _ (folder : LogFolder) (config : Config) (wanted : config.create_file_data_log ≡ true) where
  -- The bytes of the line of a file, all of whose characters can be converted.
  abbrev pub IsConverted : LogLine → Type 0
  IsConverted line = (folder.convert (render line)).1 ≡ true

  abbrev pub bytes_of : LogLine → List ℕ
  bytes_of line = (folder.convert (render line)).0

  abbrev ready : List ℕ → LogFile
  ready content = record { is_open = true; failed = false; content = content }

  abbrev stuck : List ℕ → LogFile
  stuck content = record { is_open = true; failed = true; content = content }

  log_file_info-ready :
      (line : LogLine) (content : List ℕ)
      → log_file_info folder config line (ready content) ≡ record {
        is_open = true;
        failed = not (folder.convert (render line)).1;
        content = content ++ bytes_of line;
      }
  unfolding log_file_info write_to_log_file
  log_file_info-ready line content = rw wanted refl

  -- A stream that has failed stays as it is.
  log_files-stuck :
      (lines : List LogLine) (content : List ℕ)
      → log_files folder config lines (stuck content) ≡ stuck content
  unfolding log_files log_file_info write_to_log_file
  log_files-stuck [] content = refl
  log_files-stuck (line ∷ lines) content =
      let same : log_file_info folder config line (stuck content) ≡ stuck content =
        rw wanted refl in
      ap (log_files folder config lines) same ∙ log_files-stuck lines content

  log_files-converted :
      (lines others : List LogLine) (content : List ℕ)
      → All IsConverted lines
      → log_files folder config (lines ++ others) (ready content)
        ≡ log_files folder config others (ready (content ++ flatten (map bytes_of lines)))
  unfolding log_files
  log_files-converted [] others content h =
      ap (λ t. log_files folder config others (ready t)) (sym (append-nil content))
  log_files-converted (line ∷ lines) others content (whole, h) =
      let step : log_file_info folder config line (ready content)
          ≡ ready (content ++ bytes_of line) =
        log_file_info-ready line content
        ∙ ap (λ b. record (ready (content ++ bytes_of line)) { failed = not b }) whole in
      ap (log_files folder config (lines ++ others)) step
      ∙ log_files-converted lines others (content ++ bytes_of line) h
      ∙ ap (λ t. log_files folder config others (ready t))
          (append_assoc content (bytes_of line) (flatten (map bytes_of lines)))

  -- Where the name that is chosen can be opened, the search leaves what the open stream takes.
  log_search-ready :
      (name : List ℕ) (lines : List LogLine)
      → get_output_path folder.holds folder.tries config.log_file ≡ ok name
      → folder.can_open name ≡ true
      → log_search folder config lines
        ≡ ok (close_log_file (log_files folder config lines (ready [])))
  unfolding log_search open_log_file
  log_search-ready name lines named opens = rw (wanted, named, opens) refl

  -- If the log is wanted, and the name chosen for it can be opened, then the lines of the files
  -- reported are in the log file in their order, all of them where every line can be converted by
  -- the stream's locale. A line that cannot is the last that leaves anything: the files reported
  -- behind it are missing, whatever their names.
  pub log_search-content :
      (name : List ℕ) (before after : List LogLine) (bad : LogLine)
      → get_output_path folder.holds folder.tries config.log_file ≡ ok name
      → folder.can_open name ≡ true
      → All IsConverted before
      → (folder.convert (render bad)).1 ≡ false
      → (log_search folder config before
          ≡ ok
              (record { is_open = false; failed = false; content = flatten (map bytes_of before) }))
        × (log_search folder config (before ++ bad ∷ after)
            ≡ ok (record {
              is_open = false;
              failed = true;
              content = flatten (map bytes_of before) ++ bytes_of bad;
            }))
  unfolding close_log_file log_files
  log_search-content name before after bad named opens converted refused =
      let written = flatten (map bytes_of before) in
      let failing : log_file_info folder config bad (ready written)
          ≡ stuck (written ++ bytes_of bad) =
        log_file_info-ready bad written
        ∙ ap (λ b. record (ready (written ++ bytes_of bad)) { failed = not b }) refused in
      (
        log_search-ready name before named opens
            ∙ ap (λ log. ok (close_log_file log))
                (ap (λ t. log_files folder config t (ready [])) (sym (append-nil before))
                  ∙ log_files-converted before [] [] converted),
        log_search-ready name (before ++ bad ∷ after) named opens
            ∙ ap (λ log. ok (close_log_file log))
                (log_files-converted before (bad ∷ after) [] converted
                  ∙ ap (log_files folder config after) failing
                  ∙ log_files-stuck after (written ++ bytes_of bad)),
      )
