-- ===== src/LogicalDrive/Refinement.antt =====
-- The class of src/LogicalDriveReader.cpp as an implementation of the interface of
-- src/SectorReader.h: on a drive that Windows serves, a user sees a reader without state.
use data_recovery_tool.Common.{ℕ, ◌*◌, ◌%◌, ◌^◌, true, List, [], ◌∷◌, map}
use data_recovery_tool.Common.{none, ◌≡◌, refl, ap, ap₂, ◌∙◌, Ends, ok, ltb}
use data_recovery_tool.Common.{Bool-cases, if-holds, inl, inr}
use data_recovery_tool.Device.{SectorReader}
use data_recovery_tool.LogicalDrive.{
  asked, Windows, State, Ran, is_open, log_call, close, open_drive, reopen, construct, unopened,
  require_opened, unknown_filesystem_name, when_open, go_on, read_open, read_sector,
  get_bytes_per_sector, get_filesystem_type, get_total_mft_records, answered, ask_geometry,
  ask_volume, ask_records, total_records,
}
use data_recovery_tool.LogicalDrive.Ownership.{
  open_handles, is_among, Owns, among-open, close-OwnsBeside, open_drive-OwnsBeside,
  open_drive-is_open, log-OwnsBeside,
}
use data_recovery_tool.LogicalDrive.Requests.{
  Request, sector_at, sector_size, filesystem, mft_records, opened_again, shut, bytes, number, text,
  whether, map_outcome, serve, serve_all,
}
use data_recovery_tool.LogicalDrive.Disk.{Disk, Serves, sector_reader_of, reply_of}

module _ (windows : Windows) (path : List ℕ) (disk : Disk) (serves : Serves windows path disk) where
  -- The object owns its handle, and is of this drive.
  abbrev IsGood : State → Type 0
  IsGood s = Owns s × (s.reader.drive_path ≡ path)

  -- A call returns the value, and leaves a good object.
  abbrev Gives : {A : Type 0} → A → Ran A → Type 0
  Gives a run = (run.result ≡ ok a) × IsGood run.state

  open_drive-ok : (s : State) → IsGood s → (open_drive windows s).result ≡ ok true
  unfolding open_drive
  open_drive-ok s (owns, at) =
      let (closed', shut', path') = close-OwnsBeside [] s owns in
      rw (path' ∙ at, serves.opens (close s).calls) refl

  open_drive-Gives :
      (s : State)
      → IsGood s
      → Gives true (open_drive windows s) × (is_open (open_drive windows s).state.reader ≡ true)
  open_drive-Gives s (owns, at) =
      let opens = open_drive-ok s (owns, at) in
      let (kept, path') = open_drive-OwnsBeside windows [] s owns in
      let open' = open_drive-is_open windows [] s in
      ((opens, (kept, path' ∙ at)), rw (opens, Ends) at open')

  when_open-Gives :
      {A : Type 0} (failed a : A) (query : State → Ran A) (s : State)
      → ((t : State) → IsGood t → is_open t.reader ≡ true → Gives a (query t))
      → IsGood s
      → Gives a (when_open windows failed query s)
  unfolding when_open reopen go_on
  when_open-Gives failed a query s gives good =
      if-holds (Gives a) (is_open s.reader) (gives s good) (λ shut'.
        let (opens, open') = open_drive-Gives s good in
        rw (opens.0, go_on) (gives (open_drive windows s).state opens.1 open'))

  -- What stands of the open object at a query.
  among :
      (s : State)
      → IsGood s
      → is_open s.reader ≡ true
      → is_among s.reader.h_drive (open_handles s.calls) ≡ true
  among s (owns, at) open' = among-open [] s owns open'

  asked-IsGood :
      (s : State)
      → IsGood s
      → is_open s.reader ≡ true
      → IsGood (log_call (asked s.reader.h_drive) s)
  asked-IsGood s (owns, at) open' = (log-OwnsBeside windows [] s owns open', at)

  abbrev reader : SectorReader
  reader = sector_reader_of disk

  read_open-Gives :
      (sector size : ℕ) (s : State)
      → IsGood s
      → is_open s.reader ≡ true
      → Gives (reader.read_sector sector size) (read_open windows sector size s)
  unfolding read_open sector_reader_of
  read_open-Gives sector size s (owns, at) open' =
      let opened' = among s (owns, at) open' in
      let handle = s.reader.h_drive in
      let offset = sector * size % 2 ^ 64 in
      let places = serves.places s.calls handle offset opened' in
      let reads = serves.reads s.calls handle offset size opened' in
      elim (Bool-cases (ltb offset (2 ^ 63))) [
        | inl placed ↦
            rw (places, placed, reads) (refl, ((owns.0, (opened', (opened', owns.1))), at))
        | inr refused ↦ rw (places, refused) (refl, ((owns.0, (opened', owns.1)), at))
      ]

  ask_geometry-Gives :
      (s : State)
      → IsGood s
      → is_open s.reader ≡ true
      → Gives disk.bytes_per_sector (ask_geometry windows s)
  unfolding ask_geometry answered
  ask_geometry-Gives s good open' =
      rw (serves.geometry s.calls s.reader.h_drive (among s good open'))
        (refl, asked-IsGood s good open')

  ask_volume-Gives :
      (s : State)
      → IsGood s
      → is_open s.reader ≡ true
      → Gives disk.filesystem_name (ask_volume windows s)
  unfolding ask_volume answered
  ask_volume-Gives s good open' =
      rw (serves.volume s.calls s.reader.h_drive (among s good open'))
        (refl, asked-IsGood s good open')

  ask_records-Gives :
      (s : State)
      → IsGood s
      → is_open s.reader ≡ true
      → Gives reader.total_mft_records (ask_records windows s)
  unfolding ask_records total_records sector_reader_of
  ask_records-Gives s good open' =
      rw
        (
          serves.records s.calls s.reader.h_drive (among s good open'),
          total_records,
          serves.segment,
        )
        (refl, asked-IsGood s good open')

  serve-Gives :
      (request : Request) (s : State)
      → IsGood s
      → Gives (reply_of reader request) (serve windows request s)
  unfolding serve reply_of map_outcome read_sector get_bytes_per_sector get_filesystem_type
      get_total_mft_records reopen sector_reader_of
  serve-Gives (sector_at sector size) s good =
      let (returns, good') =
        when_open-Gives none _ (read_open windows sector size) s (read_open-Gives sector size)
          good in
      (ap (map_outcome bytes) returns, good')
  serve-Gives sector_size s good =
      let (returns, good') = when_open-Gives 0 _ (ask_geometry windows) s ask_geometry-Gives good in
      (ap (map_outcome number) returns, good')
  serve-Gives filesystem s good =
      let (returns, good') =
        when_open-Gives unknown_filesystem_name _ (ask_volume windows) s ask_volume-Gives good in
      (ap (map_outcome text) returns, good')
  serve-Gives mft_records s good =
      let (returns, good') = when_open-Gives 0 _ (ask_records windows) s ask_records-Gives good in
      (ap (map_outcome number) returns, good')
  serve-Gives opened_again s good =
      let ((returns, good'), open') = open_drive-Gives s good in
      (ap (map_outcome whether) returns, good')
  serve-Gives shut s (owns, at) =
      let (owns', shut', path') = close-OwnsBeside [] s owns in (refl, (owns', path' ∙ at))

  serve_all-Gives :
      (requests : List Request) (s : State)
      → IsGood s
      → (serve_all windows requests s).0 ≡ map (λ request. ok (reply_of reader request)) requests
  unfolding serve_all
  serve_all-Gives [] s good = refl
  serve_all-Gives (request ∷ requests) s good =
      let (returns, good') = serve-Gives request s good in
      ap₂ (λ reply replies. reply ∷ replies) returns
        (serve_all-Gives requests (serve windows request s).state good')

-- On a drive that Windows serves at the path, the constructor succeeds, and every sequence of calls
-- on the new object, closings and reopenings among them, gets the replies of the reader without
-- state that reads the drive at sector times size modulo 2^64: no reply depends on the calls before
-- it, and none is an exception.
pub serve_all-refines :
    (windows : Windows) (path : List ℕ) (disk : Disk)
    → Serves windows path disk
    → (requests : List Request)
    → let made = construct windows path [] in
      (made.result ≡ ok tt)
      × ((serve_all windows requests made.state).0
          ≡ map (λ request. ok (reply_of (sector_reader_of disk) request)) requests)
unfolding construct
serve_all-refines windows path disk serves requests =
    let start = unopened path [] in
    let (opens, open') = open_drive-Gives windows path disk serves start ((refl, tt), refl) in
    rw (opens.0, require_opened)
      (
        refl,
        serve_all-Gives windows path disk serves requests (open_drive windows start).state opens.1,
      )
