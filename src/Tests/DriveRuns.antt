-- ===== src/Tests/DriveRuns.antt =====
-- The reader of logical drives on a drive of 4096 bytes, and on a Windows that refuses the query of
-- the NTFS volume data.
use data_recovery_tool.Common.{
  ℕ, ◌≡◌, ◌≢◌, refl, List, [], ◌∷◌, ◌+◌, ◌%◌, ◌^◌, Option, some, none, ok, true, leb,
}
use data_recovery_tool.Common.{ltb, map, if◌then◌else◌, replicate}
use data_recovery_tool.Text.{codes}
use data_recovery_tool.LogicalDrive.{
  Call, created, closed, moved, read, asked, Windows, State, construct, destroy,
  get_total_mft_records, is_open, filled,
}
use data_recovery_tool.LogicalDrive.Ownership.{open_handles, IsClean}
use data_recovery_tool.LogicalDrive.Requests.{
  Request, sector_at, sector_size, filesystem, mft_records, opened_again, shut, bytes, number, text,
  whether, nothing, serve_all, lifetime, lifetime_closes,
}
use data_recovery_tool.LogicalDrive.Disk.{Disk, Serves, sector_reader_of, reply_of}
use data_recovery_tool.LogicalDrive.Refinement.{serve_all-refines}
use data_recovery_tool.LogicalDrive.DoubleClose.{get_total_mft_records-closes_twice}

abbrev path : List ℕ
path = codes "\\\\.\\F:"

-- Each byte is the low byte of the offset at which the read starts; the drive ends at 4096.
abbrev disk : Disk
disk = record {
  contents = λ offset size.
      if leb (offset + size) 4096 then some (replicate size (offset % 251)) else none;
  bytes_per_sector = 4;
  filesystem_name = codes "NTFS";
  volume_data = record { mft_valid_data_length = 8192; bytes_per_file_record_segment = 1024 };
}

-- The bytes at the place of the last `SetFilePointerEx`.
abbrev read_placed : List Call → ℕ → Option (List ℕ)
read_placed [] size = none
read_placed (created name handle ∷ calls) size = none
read_placed (closed handle ∷ calls) size = none
read_placed (moved handle offset ∷ calls) size = disk.contents offset size
read_placed (read handle size' ∷ calls) size = none
read_placed (asked handle ∷ calls) size = none

abbrev windows : Windows
windows = record {
  create_file = λ calls name. 7;
  get_last_error = λ calls. 0;
  set_file_pointer = λ calls handle offset. ltb offset (2 ^ 63);
  read_file = λ calls handle size. read_placed calls size;
  get_drive_geometry = λ calls handle. some disk.bytes_per_sector;
  get_volume_information = λ calls handle. some disk.filesystem_name;
  get_ntfs_volume_data = λ calls handle. some disk.volume_data;
}

serves : Serves windows path disk
serves = record {
  opens = λ calls. refl;
  places = λ calls handle offset among. refl;
  reads = λ calls handle offset size among. refl;
  geometry = λ calls handle among. refl;
  volume = λ calls handle among. refl;
  records = λ calls handle among. refl;
  segment = refl;
}

-- Two reads, the second behind the end of the drive, a closing between them, and the queries.
abbrev requests : List Request
requests =
    sector_at 3 4
    ∷ shut
    ∷ sector_at 1024 4
    ∷ sector_size
    ∷ filesystem
    ∷ mft_records
    ∷ opened_again
    ∷ []

serve_all-refines_example :
    let made = construct windows path [] in
    (made.result ≡ ok tt)
    × ((serve_all windows requests made.state).0
        ≡ map (λ request. ok (reply_of (sector_reader_of disk) request)) requests)
serve_all-refines_example = serve_all-refines windows path disk serves requests

replies :
    map (reply_of (sector_reader_of disk)) requests
    ≡ bytes (some (12 ∷ 12 ∷ 12 ∷ 12 ∷ []))
      ∷ nothing
      ∷ bytes none
      ∷ number 4
      ∷ text (codes "NTFS")
      ∷ number 8
      ∷ whether true
      ∷ []
unfolding sector_reader_of reply_of filled
replies = refl

answers : (calls : List Call) (handle : ℕ) → windows.get_ntfs_volume_data calls handle ≢ none
answers calls handle e = cc e

lifetime_closes_example :
    (open_handles (lifetime windows path requests) ≡ []) × IsClean (lifetime windows path requests)
lifetime_closes_example = lifetime_closes windows answers path requests

-- A drive that is not NTFS.
abbrev other_windows : Windows
other_windows = record windows { get_ntfs_volume_data = λ calls handle. none }

abbrev opened_state : State
opened_state = record {
  reader = record { h_drive = 7; drive_path = path };
  calls = created path 7 ∷ [];
}

get_total_mft_records-closes_twice_example :
    let failed = get_total_mft_records other_windows opened_state in
    (failed.result ≡ ok 0)
    × (is_open failed.state.reader ≡ true)
    × ¬ IsClean (destroy failed.state).calls
unfolding is_open
get_total_mft_records-closes_twice_example =
    get_total_mft_records-closes_twice other_windows opened_state (refl, tt) refl refl
