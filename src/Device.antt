-- ===== src/Device.antt =====
-- The interface through which the recovery classes read the medium (src/SectorReader.h), and the
-- two wrappers that every recovery class has around it. The medium does not change during a run,
-- so a read is a function of the sector and the size.
use data_recovery_tool.Common.{ℕ, ◌==◌, ◌≡◌, if◌then◌else◌, length, List, Option, none, some}
use data_recovery_tool.Common.{Outcome, ok, err, thrown}
use data_recovery_tool.Common.{sector_reader_not_initialized, invalid_bytes_per_sector}
use data_recovery_tool.Common.{invalid_sector_reader}

-- `readSector` gives the bytes that it stores, `none` for the result `false`; then `left_behind` are
-- the bytes that were stored at the start of the buffer all the same.
pub record SectorReader : Type 0 where
  pub read_sector : ℕ → ℕ → Option (List ℕ)
  pub left_behind : ℕ → ℕ → List ℕ
  pub bytes_per_sector : ℕ
  pub filesystem_type : List ℕ
  pub total_mft_records : ℕ

-- What the callers rely on: a read that succeeds fills the whole buffer.
pub record IsExact (reader : SectorReader) : Type 0 where
  pub filled :
      (sector size : ℕ) (bytes : List ℕ)
      → reader.read_sector sector size ≡ some bytes
      → length bytes ≡ size

-- `setSectorReader`: the pointer that is kept is never null.
unfoldable pub set_sector_reader : Option SectorReader → Outcome SectorReader
set_sector_reader none = err (thrown invalid_sector_reader)
set_sector_reader (some reader) = ok reader

-- `getBytesPerSector`, on a pointer that may be null.
unfoldable pub get_bytes_per_sector : Option SectorReader → Outcome ℕ
get_bytes_per_sector none = err (thrown sector_reader_not_initialized)
get_bytes_per_sector (some reader) =
    if reader.bytes_per_sector == 0
    then err (thrown invalid_bytes_per_sector)
    else ok reader.bytes_per_sector
