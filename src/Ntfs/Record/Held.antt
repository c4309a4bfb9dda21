-- ===== src/Ntfs/Record/Held.antt =====
-- The attributes that a record of the file table holds, said of its bytes alone, and that the loop of
-- `processAttribute` finds them.
pub mod Deleted
use data_recovery_tool.Common.{
  ℕ, zero, suc, ◌+◌, ◌^◌, ◌≤◌, ◌<◌, ◌≡◌, refl, arith, true, false, ◌==◌, ◌||◌, ltb, leb, le→leb,
  lt→ltb, add32,
}
use data_recovery_tool.Common.{List, [], ◌∷◌, length, flatten, map, All, ok, ◌>>=◌}
use data_recovery_tool.Common.{if◌then◌else◌, Bool-cases, inl, inr, not, ◌&&◌, ◌%◌, ap}
use data_recovery_tool.Ntfs.Structs.{no_info, read32}
use data_recovery_tool.Ntfs.Volume.{Drive, validate_file_info}
use data_recovery_tool.Ntfs.Runs.Encoding.{bytes_of}
use data_recovery_tool.Ntfs.Record.{
  Found, process_file_name_attribute, process_data_attribute, process_one_attribute,
  process_attribute, process_mft_record, is_valid_file_record, record_file, State,
}
use data_recovery_tool.Ntfs.Record.Layout.{
  IsAt, read8-IsAt, read16-IsAt, read32-IsAt, read_units-IsAt, bytes_at-IsAt,
}

-- A name or a content in the record itself, with the offset of it in the attribute, or an attribute
-- of another kind.
pub data Attribute : Type 0 where
  name : ℕ → List ℕ → Attribute
  content : ℕ → List ℕ → Attribute
  other : ℕ → Attribute

-- The attribute stands at the offset of the buffer.
abbrev pub Stands : List ℕ → ℕ → Attribute → Type 0
Stands buffer at (name o units) =
    IsAt buffer at (bytes_of 4 0x30)
    × IsAt buffer (at + 8) (0 ∷ [])
    × IsAt buffer (at + 20) (bytes_of 2 o)
    × (o < 65536)
    × IsAt buffer (at + o + 64) (length units ∷ [])
    × (length units ≤ 255)
    × IsAt buffer (at + o + 66) (flatten (map (bytes_of 2) units))
    × All (λ u. u < 65536) units
Stands buffer at (content o bytes) =
    IsAt buffer at (bytes_of 4 0x80)
    × IsAt buffer (at + 8) (0 ∷ [])
    × IsAt buffer (at + 16) (bytes_of 4 (length bytes))
    × (length bytes < 2 ^ 32)
    × IsAt buffer (at + 20) (bytes_of 2 o)
    × (o < 65536)
    × IsAt buffer (at + o) bytes
    × (at + o + length bytes ≤ length buffer)
Stands buffer at (other kind) =
    IsAt buffer at (bytes_of 4 kind)
    × (kind < 0xFFFFFFFF)
    × ((kind == 0x30) ≡ false)
    × ((kind == 0x80) ≡ false)

-- From the offset on, the attributes stand one behind the other inside `size` bytes, each with its
-- length, and then the mark of the end.
abbrev pub Holds : List ℕ → ℕ → ℕ → List Attribute → Type 0
Holds buffer size at [] = (at < size) × IsAt buffer at (bytes_of 4 0xFFFFFFFF)
Holds buffer size at (a ∷ attributes) =
    (len : ℕ) × (1 ≤ len)
    × (at + len ≤ size)
    × IsAt buffer (at + 4) (bytes_of 4 len)
    × Stands buffer at a
    × Holds buffer size (at + len) attributes

-- What an attribute says of its file: a later name or content takes the place of an earlier one.
abbrev pub tell : ℕ → Attribute → Found → Found
tell file_id (name o units) found = record found {
  info = record found.info { file_name = units; file_id = file_id };
  has_file_name = true;
}
tell file_id (content o bytes) found = record found {
  info = record found.info { file_size = length bytes; non_resident = false; content = bytes };
  has_data = true;
}
tell file_id (other kind) found = found

abbrev pub tell_all : ℕ → List Attribute → Found → Found
tell_all file_id [] found = found
tell_all file_id (a ∷ attributes) found = tell_all file_id attributes (tell file_id a found)

abbrev pub nothing_told : Found
nothing_told = record { info = no_info; has_file_name = false; has_data = false }

module _ (drive : Drive) (file_id : ℕ) (buffer : List ℕ) where
  -- The type of an attribute, as the loop reads it.
  abbrev kind_of : Attribute → ℕ
  kind_of (name o units) = 0x30
  kind_of (content o bytes) = 0x80
  kind_of (other kind) = kind

  kind-Stands :
      (at : ℕ) (a : Attribute)
      → Stands buffer at a
      → (read32 buffer at ≡ ok (kind_of a)) × ((kind_of a == 0xFFFFFFFF) ≡ false)
  kind-Stands at (name o units) s = (read32-IsAt buffer at 0x30 (omega arith) s.0, refl)
  kind-Stands at (content o bytes) s = (read32-IsAt buffer at 0x80 (omega arith) s.0, refl)
  kind-Stands at (other kind) (stands, small, no_name, no_data) =
      (read32-IsAt buffer at kind (omega arith) stands, ground arith)

  process_one_attribute-Stands :
      (at : ℕ) (a : Attribute) (found : Found)
      → Stands buffer at a
      → process_one_attribute drive file_id buffer at (kind_of a) found ≡ ok (tell file_id a found)
  unfolding process_one_attribute process_file_name_attribute process_data_attribute
  process_one_attribute-Stands at (name o units) found
        (kind, resident, offset, small, counted, few, stands, units_small) =
      let resident_read = read8-IsAt buffer (at + 8) 0 resident in
      let offset_read = read16-IsAt buffer (at + 20) o small offset in
      let count_read = read8-IsAt buffer (at + o + 64) (length units) counted in
      let short : ltb 255 (length units) ≡ false = ground arith in
      let name_read = read_units-IsAt buffer units (at + o + 66) units_small stands in
      rw (resident_read, offset_read, count_read, ◌>>=◌, short, name_read) refl
  process_one_attribute-Stands at (content o bytes) found
        (kind, resident, size, fits, offset, small, stands, inside) =
      let resident_read = read8-IsAt buffer (at + 8) 0 resident in
      let offset_read = read16-IsAt buffer (at + 20) o small offset in
      let size_read = read32-IsAt buffer (at + 16) (length bytes) fits size in
      let room : leb (at + o + length bytes) (length buffer) ≡ true = le→leb _ _ inside in
      let content_read = bytes_at-IsAt buffer (at + o) bytes stands in
      rw (resident_read, offset_read, size_read, room, content_read) refl
  process_one_attribute-Stands at (other kind) found (stands, small, no_name, no_data) =
      rw (no_name, process_one_attribute, no_data) refl

  -- Where a record of less than 2 ^ 32 bytes holds a list of attributes from an offset on, of which
  -- the names and contents lie in the record itself, more fuel than attributes is enough for the
  -- loop, and it returns the last name and the last content among them.
  pub process_attribute-Holds :
      drive.mft_record_size < 2 ^ 32
      → (attributes : List Attribute) (fuel at : ℕ) (found : Found) → length attributes < fuel
      → Holds buffer drive.mft_record_size at attributes
      → process_attribute drive fuel file_id buffer at found
        ≡ ok (tell_all file_id attributes found)
  unfolding process_attribute
  process_attribute-Holds small attributes zero at found enough holds = absurd (omega arith)
  process_attribute-Holds small [] (suc fuel) at found enough (inside, ends) =
      let goes : ltb at drive.mft_record_size ≡ true = lt→ltb _ _ inside in
      let mark = read32-IsAt buffer at 0xFFFFFFFF (omega arith) ends in
      rw (goes, process_attribute, mark) refl
  process_attribute-Holds small (a ∷ attributes) (suc fuel) at found enough
        (len, some_bytes, inside, has_length, stands, holds) =
      let goes : ltb at drive.mft_record_size ≡ true = lt→ltb _ _ (omega arith) in
      let (kind, no_mark) = kind-Stands at a stands in
      let length_read = read32-IsAt buffer (at + 4) len (omega arith) has_length in
      let sum : add32 at len ≡ at + len = omega arith in
      let accepted : (len == 0 || ltb drive.mft_record_size (add32 at len)) ≡ false =
        rw sum (ground arith) in
      let one = process_one_attribute-Stands at a found stands in
      let later =
        process_attribute-Holds small attributes fuel (at + len) (tell file_id a found)
          (omega arith) holds in
      rw
        (
          goes, process_attribute, kind, ◌>>=◌, no_mark, length_read, ◌>>=◌, accepted, one, sum,
          later,
        )
        refl
