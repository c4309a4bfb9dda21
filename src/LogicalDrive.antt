-- ===== src/LogicalDrive.antt =====
-- The reader of logical drives (src/LogicalDriveReader.cpp and .h). The functions of Windows that it
-- calls are parameters: what they answer may depend on every call made before. The calls are kept,
-- the last one first, so that the state of each handle can be read off them.
pub mod Ownership
pub mod Requests
pub mod Moves
pub mod DoubleClose
pub mod Disk
pub mod Refinement
use data_recovery_tool.Common.{ℕ, ◌*◌, ◌/◌, ◌%◌, ◌^◌, Bool, true, false, not, List, ◌∷◌, length}
use data_recovery_tool.Common.{◌==◌, if◌then◌else◌, Option, none, some, Outcome, ok, err, thrown}
use data_recovery_tool.Common.{
  division_by_zero, failed_to_initialize_reader, administrator_required, ◌-◌,
}
use data_recovery_tool.Text.{codes}

-- A call of Windows that changes what a handle stands for.
pub data Call : Type 0 where
  created : List ℕ → ℕ → Call
  closed : ℕ → Call
  moved : ℕ → ℕ → Call
  read : ℕ → ℕ → Call
  asked : ℕ → Call

-- What `FSCTL_GET_NTFS_VOLUME_DATA` gives.
pub record VolumeData : Type 0 where
  pub mft_valid_data_length : ℕ
  pub bytes_per_file_record_segment : ℕ

-- The answers of Windows after the calls so far; `none` is a call that fails. `read_file` gives the
-- bytes that it stored.
pub record Windows : Type 0 where
  pub create_file : List Call → List ℕ → ℕ
  pub get_last_error : List Call → ℕ
  pub set_file_pointer : List Call → ℕ → ℕ → Bool
  pub read_file : List Call → ℕ → ℕ → Option (List ℕ)
  pub get_drive_geometry : List Call → ℕ → Option ℕ
  pub get_volume_information : List Call → ℕ → Option (List ℕ)
  pub get_ntfs_volume_data : List Call → ℕ → Option VolumeData

-- The fields of the class.
pub record LogicalDriveReader : Type 0 where
  pub h_drive : ℕ
  pub drive_path : List ℕ

-- An object, and the calls made so far.
pub record State : Type 0 where
  pub reader : LogicalDriveReader
  pub calls : List Call

-- What a method ends in, and the state that it leaves, also when it throws.
pub record Ran {ℓ} (A : Type ℓ) : Type ℓ where
  pub result : Outcome A
  pub state : State

abbrev pub invalid_handle_value : ℕ
invalid_handle_value = 2 ^ 64 - 1

abbrev pub error_access_denied : ℕ
error_access_denied = 5

abbrev pub ran {ℓ} : {A : Type ℓ} → Outcome A → State → Ran A
ran result state = record { result = result; state = state }

unfoldable pub is_open : LogicalDriveReader → Bool
is_open reader = not (reader.h_drive == invalid_handle_value)

-- The object with another handle, after one more call.
abbrev pub put_handle : ℕ → Call → State → State
put_handle handle call s = record {
  reader = record { h_drive = handle; drive_path = s.reader.drive_path };
  calls = call ∷ s.calls;
}

abbrev pub log_call : Call → State → State
log_call call s = record { reader = s.reader; calls = call ∷ s.calls }

unfoldable pub close : State → State
unfolding is_open
close s =
    if is_open s.reader then put_handle invalid_handle_value (closed s.reader.h_drive) s else s

-- The destructor.
unfoldable pub destroy : State → State
unfolding close
destroy s = close s

-- The move constructor: the new object, and the one that it is made from. The path that a move
-- leaves behind is unspecified in C++ and is not read again; it is kept here.
unfoldable pub move_construct : LogicalDriveReader → LogicalDriveReader × LogicalDriveReader
move_construct other = (other, record other { h_drive = invalid_handle_value })

-- The move assignment, to another object or (`same`) to itself: the assigned object with the calls,
-- and the one that is moved from.
unfoldable pub move_assign : Bool → State → LogicalDriveReader → State × LogicalDriveReader
unfolding close
move_assign same s other = if same then (s, other) else (
  record { reader = other; calls = (close s).calls },
  record other { h_drive = invalid_handle_value },
)

abbrev pub unknown_filesystem_name : List ℕ
unknown_filesystem_name = codes "UNKNOWN_TYPE"

-- The constructor: it throws where the drive is not opened.
abbrev pub unopened : List ℕ → List Call → State
unopened path calls = record {
  reader = record { h_drive = invalid_handle_value; drive_path = path };
  calls = calls;
}

unfoldable pub require_opened : Outcome Bool → State → Ran (Unit {0})
require_opened (ok true) s = ran (ok tt) s
require_opened (ok false) s = ran (err (thrown failed_to_initialize_reader)) s
require_opened (err e) s = ran (err e) s

-- How the four queries begin: a drive that is not open is opened again, and the query gives
-- `failed` where that is refused.
unfoldable pub go_on {ℓ} : {A : Type ℓ} → A → (State → Ran A) → Outcome Bool → State → Ran A
go_on failed query (ok true) s = query s
go_on failed query (ok false) s = ran (ok failed) s
go_on failed query (err e) s = ran (err e) s

-- A read counts only if it fills the buffer.
unfoldable pub filled : ℕ → Option (List ℕ) → Option (List ℕ)
filled size none = none
filled size (some bytes) = if length bytes == size then some bytes else none

-- What a query gives for the answer of Windows.
unfoldable pub answered {ℓ κ} : {A : Type ℓ} {B : Type κ} → A → (B → A) → Option B → State → Ran A
answered failed value none s = ran (ok failed) s
answered failed value (some answer) s = ran (ok (value answer)) s

-- A failure closes the handle and leaves it in the object.
unfoldable pub total_records : Option VolumeData → State → Ran ℕ
total_records none s = ran (ok 0) (log_call (closed s.reader.h_drive) s)
total_records (some nvdb) s =
    if nvdb.bytes_per_file_record_segment == 0
    then ran (err division_by_zero) s
    else ran (ok (nvdb.mft_valid_data_length / nvdb.bytes_per_file_record_segment)) s

module _ (windows : Windows) where
  unfoldable pub open_drive : State → Ran Bool
  unfolding close
  open_drive s =
      let s1 = close s in
      let handle = windows.create_file s1.calls s1.reader.drive_path in
      let s2 = put_handle handle (created s1.reader.drive_path handle) s1 in
      if handle == invalid_handle_value
      then if windows.get_last_error s2.calls == error_access_denied
        then ran (err (thrown administrator_required)) s2
        else ran (ok false) s2
      else ran (ok true) s2

  unfoldable pub reopen : State → Ran Bool
  unfolding open_drive
  reopen s = open_drive s

  unfoldable pub construct : List ℕ → List Call → Ran (Unit {0})
  unfolding open_drive require_opened
  construct path calls =
      let start = unopened path calls in
      require_opened (open_drive start).result (open_drive start).state

  unfoldable pub when_open {ℓ} : {A : Type ℓ} → A → (State → Ran A) → State → Ran A
  unfolding is_open reopen go_on
  when_open failed query s =
      if is_open s.reader then query s else go_on failed query (reopen s).result (reopen s).state

  unfoldable pub read_open : ℕ → ℕ → State → Ran (Option (List ℕ))
  unfolding filled
  read_open sector size s =
      let handle = s.reader.h_drive in
      let offset = sector * size % 2 ^ 64 in
      let s1 = log_call (moved handle offset) s in
      if windows.set_file_pointer s.calls handle offset
      then ran (ok (filled size (windows.read_file s1.calls handle size)))
          (log_call (read handle size) s1)
      else ran (ok none) s1

  unfoldable pub read_sector : ℕ → ℕ → State → Ran (Option (List ℕ))
  unfolding when_open read_open
  read_sector sector size = when_open none (read_open sector size)

  -- The queries of an open drive.
  unfoldable pub ask_geometry : State → Ran ℕ
  unfolding answered
  ask_geometry s =
      answered 0 (λ bytes_per_sector. bytes_per_sector)
        (windows.get_drive_geometry s.calls s.reader.h_drive) (log_call (asked s.reader.h_drive) s)

  unfoldable pub ask_volume : State → Ran (List ℕ)
  unfolding answered
  ask_volume s =
      answered unknown_filesystem_name (λ name. name)
        (windows.get_volume_information s.calls s.reader.h_drive)
        (log_call (asked s.reader.h_drive) s)

  unfoldable pub ask_records : State → Ran ℕ
  unfolding total_records
  ask_records s =
      total_records (windows.get_ntfs_volume_data s.calls s.reader.h_drive)
        (log_call (asked s.reader.h_drive) s)

  unfoldable pub get_bytes_per_sector : State → Ran ℕ
  unfolding when_open ask_geometry
  get_bytes_per_sector = when_open 0 ask_geometry

  unfoldable pub get_filesystem_type : State → Ran (List ℕ)
  unfolding when_open ask_volume
  get_filesystem_type = when_open unknown_filesystem_name ask_volume

  unfoldable pub get_total_mft_records : State → Ran ℕ
  unfolding when_open ask_records
  get_total_mft_records = when_open 0 ask_records
