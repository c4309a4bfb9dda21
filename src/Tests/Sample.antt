-- ===== src/Tests/Sample.antt =====
-- A FAT32 volume of 64-byte sectors: the table in sector 1, the root directory in cluster 2, and a
-- deleted file of ten bytes that begins in cluster 3.
use data_recovery_tool.Common.{ℕ, ◌%◌, ◌≡◌, subst, List, [], ◌∷◌, ◌++◌, some}
use data_recovery_tool.Common.{Bool, true, false, length, take, replicate, length-take, ◌==◌}
use data_recovery_tool.Common.{
  leb, ◌&&◌, ◌||◌, length-append, length-replicate, if◌then◌else◌, arith, Option,
}
use data_recovery_tool.Config.{Config}
use data_recovery_tool.Text.{codes}
use data_recovery_tool.Device.{SectorReader, IsExact}
use data_recovery_tool.Fat32.Structs.{BootSector}
use data_recovery_tool.Fat32.Volume.{Drive}

abbrev zeros : ℕ → List ℕ
zeros n = replicate n 0

-- A sector of the size asked for: the bytes given, then zeros.
abbrev pub fit : ℕ → List ℕ → List ℕ
fit n bytes = take n (bytes ++ zeros n)

pub length-fit : (n : ℕ) (bytes : List ℕ) → length (fit n bytes) ≡ n
length-fit n bytes = omega (
  arith,
  length-take n (bytes ++ zeros n),
  length-append bytes (zeros n),
  length-replicate {A = ℕ} n 0,
)

some_injective : {a b : List ℕ} → ◌≡◌ {A = Option (List ℕ)} (some a) (some b) → a ≡ b
some_injective h = cc

-- A device with the given sectors.
abbrev pub device : (ℕ → List ℕ) → SectorReader
device content = record {
  read_sector = λ sector size. some (fit size (content sector));
  left_behind = λ sector size. [];
  bytes_per_sector = 64;
  filesystem_type = codes "FAT32";
  total_mft_records = 0;
}

pub device-IsExact : (content : ℕ → List ℕ) → IsExact (device content)
device-IsExact content = record {
  filled = λ sector size bytes e.
      subst (λ b. length b ≡ size) (some_injective e) (length-fit size (content sector));
}

abbrev table : List ℕ
table = replicate 8 0 ++ 0xFF ∷ 0xFF ∷ 0xFF ∷ 0x0F ∷ []

-- A deleted entry: the name, the attributes, the cluster 3 and the size 10.
abbrev root_directory : List ℕ
root_directory =
    (0xE5 ∷ codes "OTES   TXT") ++ (0x20 ∷ replicate 14 0) ++ (3 ∷ 0 ∷ 10 ∷ 0 ∷ 0 ∷ 0 ∷ [])

abbrev pub sectors : ℕ → List ℕ
sectors sector =
    if sector == 1
    then table
    else if sector == 2
    then root_directory
    else replicate 64 (sector % 256)

abbrev boot : BootSector
boot = record {
  jmp_boot = [];
  oem_name = [];
  bytes_per_sector = 64;
  sectors_per_cluster = 1;
  reserved_sector_count = 1;
  num_fats = 1;
  root_entry_count = 0;
  total_sectors16 = 0;
  media = 0xF8;
  fat_size16 = 0;
  sectors_per_track = 0;
  number_of_heads = 0;
  hidden_sectors = 0;
  total_sectors32 = 12;
  fat_size32 = 1;
  ext_flags = 0;
  fs_version = 0;
  root_cluster = 2;
  fs_info = 0;
  bk_boot_sec = 0;
  reserved = [];
  drive_number = 0;
  reserved1 = 0;
  boot_signature = 0;
  volume_id = 0;
  volume_label = [];
  file_system_type = codes "FAT32   ";
  boot_code = [];
  boot_sector_signature = 0xAA55;
}

-- The drive, with the sectors as a parameter.
abbrev pub drive_of : (ℕ → List ℕ) → Drive
drive_of content = record {
  reader = device content;
  info = record {
    boot_sector = boot;
    fat_start_sector = 1;
    data_start_sector = 2;
    root_dir_cluster = 2;
    max_cluster_count = 10;
  };
}

abbrev pub drive : Drive
drive = drive_of sectors

abbrev pub recovering : Config
recovering = record {
  drive_path = codes "F:";
  input_folder = [];
  output_folder = codes "Recovered";
  log_folder = codes "Log";
  log_file = codes "FileDataLog.txt";
  target_cluster = 0;
  target_file_size = 0;
  create_file_data_log = true;
  recover = true;
  analyze = false;
}

-- `iswalnum` of the "C" locale.
abbrev pub is_ascii_alnum : ℕ → Bool
is_ascii_alnum c = leb b'0' c && leb c b'9' || leb b'A' c && leb c b'Z' || leb b'a' c && leb c b'z'
