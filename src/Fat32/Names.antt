-- ===== src/Fat32/Names.antt =====
-- File names, extensions and their prediction from the first bytes of the content, after
-- FAT32Recovery.cpp.
pub mod Signatures
pub mod Parse
pub mod Failures
pub mod Folders
use data_recovery_tool.Common.{ℕ, suc, ◌+◌, ◌-◌, ◌/◌, ◌%◌, ◌^◌, Bool, true, false}
use data_recovery_tool.Common.{not, ◌||◌, List, [], ◌∷◌, ◌++◌, map, none, some}
use data_recovery_tool.Common.{ltb, leb, ◌==◌, if◌then◌else◌, length, take, drop, replicate}
use data_recovery_tool.Common.{keep, all, Outcome, ok, ◌>>=◌, ◌>>◌, require, out_of_bounds}
use data_recovery_tool.Text.{codes, same_text, c_string, trim_spaces, find_last}
use data_recovery_tool.Fat32.Structs.{DirectoryEntry, LfnEntry, FileInfo}
use data_recovery_tool.Fat32.Volume.{Drive, cluster_to_sector}

is_name_unit : ℕ → Bool
is_name_unit c = not (c == 0 || c == 0xFFFF || ltb c 32)

-- The units of one long-name entry, less padding and control characters.
unfoldable pub get_long_filename : LfnEntry → List ℕ
unfolding is_name_unit
get_long_filename lfn = keep is_name_unit (lfn.name1 ++ lfn.name2 ++ lfn.name3)

-- `char` is signed, so its upper half is extended by ones to a 16-bit `wchar_t`.
unfoldable pub widen : ℕ → ℕ
widen c = if ltb c 128 then c else c + 0xFF00

abbrev restore_first : Bool → List ℕ → List ℕ
restore_first is_deleted [] = []
restore_first is_deleted (c ∷ cs) = (if is_deleted then b'_' else c) ∷ cs

-- The eight bytes of the name and the three of the extension, without the spaces behind them.
unfoldable pub get_short_filename : DirectoryEntry → Bool → List ℕ
unfolding widen trim_spaces c_string
get_short_filename entry is_deleted =
    let name = trim_spaces (c_string (restore_first is_deleted (take 8 entry.name))) in
    let ext = trim_spaces (c_string (take 3 (drop 8 entry.name))) in
    elim ext [ [] ↦ map widen name | c ∷ cs ↦ map widen name ++ b'.' ∷ map widen (c ∷ cs) ]

hex_digit : ℕ → ℕ
hex_digit d = if ltb d 10 then b'0' + d else b'a' + (d - 10)

-- Two digits for each byte.
hex_of : List ℕ → List ℕ
unfolding hex_digit
hex_of [] = []
hex_of (b ∷ bs) = hex_digit (b / 16) ∷ hex_digit (b % 16) ∷ hex_of bs

-- The digits of the first four bytes.
unfoldable pub get_file_signature : List ℕ → List ℕ
unfolding hex_of
get_file_signature bytes = hex_of (take 4 bytes)

-- One `if` of `guessFileExtension`: how much of the signature is compared, with what, and the
-- extension.
pub record Rule : Type 0 where
  pub prefix : ℕ
  pub literal : List ℕ
  pub result : List ℕ

-- The tests in the order of the source; the two of "gif" stand one after the other.
unfoldable pub rules : List Rule
rules =
    record { prefix = 6; literal = codes "ffd8ff"; result = codes "jpg" }
    ∷ record { prefix = 8; literal = codes "89504e47"; result = codes "png" }
    ∷ record { prefix = 8; literal = codes "47494638"; result = codes "gif" }
    ∷ record { prefix = 3; literal = codes "383761"; result = codes "gif" }
    ∷ record { prefix = 4; literal = codes "424d"; result = codes "bmp" }
    ∷ record { prefix = 8; literal = codes "49492a00"; result = codes "tif" }
    ∷ record { prefix = 8; literal = codes "4d4d002a"; result = codes "tif" }
    ∷ record { prefix = 8; literal = codes "52494646"; result = codes "webp" }
    ∷ record { prefix = 8; literal = codes "25504446"; result = codes "pdf" }
    ∷ record { prefix = 8; literal = codes "504b0304"; result = codes "zip" }
    ∷ record { prefix = 8; literal = codes "d0cf11e0"; result = codes "doc" }
    ∷ record { prefix = 8; literal = codes "7b5c7274"; result = codes "rtf" }
    ∷ record { prefix = 8; literal = codes "52494646"; result = codes "wav" }
    ∷ record { prefix = 8; literal = codes "494433"; result = codes "mp3" }
    ∷ record { prefix = 8; literal = codes "66747970"; result = codes "mp4" }
    ∷ record { prefix = 8; literal = codes "52494646"; result = codes "avi" }
    ∷ record { prefix = 4; literal = codes "4f676753"; result = codes "ogg" }
    ∷ record { prefix = 4; literal = codes "4d5a"; result = codes "exe" }
    ∷ record { prefix = 8; literal = codes "7f454c46"; result = codes "elf" }
    ∷ record { prefix = 8; literal = codes "504b0304"; result = codes "zip" }
    ∷ record { prefix = 6; literal = codes "526172"; result = codes "rar" }
    ∷ record { prefix = 8; literal = codes "1f8b0808"; result = codes "gz" }
    ∷ record { prefix = 6; literal = codes "425a68"; result = codes "bz2" }
    ∷ record { prefix = 8; literal = codes "377abcaf"; result = codes "7z" }
    ∷ record { prefix = 8; literal = codes "53514c69"; result = codes "sqlite" }
    ∷ record { prefix = 8; literal = codes "3c3f786d"; result = codes "xml" }
    ∷ record { prefix = 8; literal = codes "7b0d0a20"; result = codes "json" }
    ∷ record { prefix = 8; literal = codes "3c21444f"; result = codes "html" }
    ∷ record { prefix = 8; literal = codes "4f54544f"; result = codes "otf" }
    ∷ record { prefix = 8; literal = codes "00010000"; result = codes "ttf" }
    ∷ []

-- The first rule that the signature fits; "bin" if none does.
unfoldable pub first_match : List Rule → List ℕ → List ℕ
unfolding same_text
first_match [] signature = codes "bin"
first_match (r ∷ rs) signature =
    if same_text (take r.prefix signature) r.literal then r.result else first_match rs signature

unfoldable pub guess_file_extension : List ℕ → List ℕ
unfolding first_match rules
guess_file_extension signature = first_match rules signature

-- The buffer begins with zeros; a read that fails may have stored some bytes, and its result is not
-- looked at.
first_sector : Drive → ℕ → List ℕ
unfolding cluster_to_sector
first_sector drive cluster =
    elim (drive.reader.read_sector (cluster_to_sector drive cluster) drive.bytes_per_sector) [
      | none ↦
          let stored =
            drive.reader.left_behind (cluster_to_sector drive cluster) drive.bytes_per_sector in
          take drive.bytes_per_sector (stored ++ replicate drive.bytes_per_sector 0)
      | some bytes ↦ bytes
    ]

unfoldable pub predict_extension : Drive → ℕ → Outcome (List ℕ)
unfolding guess_file_extension get_file_signature first_sector
predict_extension drive cluster = do
  require (leb 8 (length (first_sector drive cluster))) out_of_bounds
  ok (guess_file_extension (get_file_signature (take 8 (first_sector drive cluster))))

unfoldable pub is_not_null : ℕ → Bool
is_not_null c = not (c == 0)

module _ (iswalnum : ℕ → Bool) (drive : Drive) where
  -- The information of a file with a dot in its name that is not the first character.
  parse_with_dot : ℕ → List ℕ → ℕ → ℕ → ℕ → Outcome FileInfo
  unfolding predict_extension is_not_null
  parse_with_dot file_id full_name cluster size dot_pos = do
    let file_name = take dot_pos full_name
    let extension = drop (suc dot_pos) full_name
    let valid : FileInfo = record {
      file_id = file_id;
      full_name = keep is_not_null full_name;
      file_name = file_name;
      extension = extension;
      file_size = size;
      cluster = cluster;
      is_extension_predicted = false;
    }
    elim (all iswalnum extension) [
      | true ↦ ok valid
      | false ↦ do
        predicted ← predict_extension drive cluster
        ok (record valid {
          full_name = file_name ++ b'.' ∷ predicted;
          extension = predicted;
          is_extension_predicted = true;
        })
    ]

  parse_without_dot : ℕ → List ℕ → ℕ → ℕ → Outcome FileInfo
  unfolding predict_extension
  parse_without_dot file_id full_name cluster size = do
    predicted ← predict_extension drive cluster
    ok (record {
      file_id = file_id;
      full_name = full_name ++ b'.' ∷ predicted;
      file_name = full_name;
      extension = predicted;
      file_size = size;
      cluster = cluster;
      is_extension_predicted = true;
    })

  -- The two cases of the dot.
  parse_parts : ℕ → List ℕ → ℕ → ℕ → Outcome FileInfo
  unfolding parse_with_dot parse_without_dot find_last
  parse_parts file_id full_name cluster size = elim (find_last b'.' full_name) [
    | none ↦ parse_without_dot file_id full_name cluster size
    | some dot_pos ↦
        if dot_pos == 0
        then parse_without_dot file_id full_name cluster size
        else parse_with_dot file_id full_name cluster size dot_pos
  ]

  -- `iswalnum` depends on the locale. The second result is the counter `fileId` afterwards.
  unfoldable pub parse_file_info : ℕ → List ℕ → ℕ → ℕ → Outcome (FileInfo × ℕ)
  unfolding parse_parts
  parse_file_info file_id full_name cluster size = do
    info ← parse_parts file_id full_name cluster size
    ok (info, (file_id + 1) % 2 ^ 16)
