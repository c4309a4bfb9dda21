-- ===== src/LogicalDrive/Requests.antt =====
-- Any sequence of calls of an object of src/LogicalDriveReader.cpp, from its constructor to its
-- destructor, and the handles that it leaves.
use data_recovery_tool.Common.{ℕ, Bool, true, false, List, [], ◌∷◌, ◌≡◌, refl, arith}
use data_recovery_tool.Common.{Option, none, some, Outcome, ok, err, if-holds, Ends, ◌≢◌}
use data_recovery_tool.LogicalDrive.{
  Call, asked, VolumeData, Windows, State, Ran, ran, is_open, log_call, close, destroy, open_drive,
  reopen, construct, unopened, require_opened, read_open, read_sector, get_bytes_per_sector,
  get_filesystem_type, get_total_mft_records, answered, ask_geometry, ask_volume, ask_records,
  total_records, unknown_filesystem_name,
}
use data_recovery_tool.LogicalDrive.Ownership.{
  open_handles, IsClean, OwnsBeside, Owns, among-open, close-OwnsBeside, open_drive-OwnsBeside,
  open_drive-is_open, log-OwnsBeside, when_open-OwnsBeside,
}

-- The methods that a user of the reader calls.
pub data Request : Type 0 where
  sector_at : ℕ → ℕ → Request
  sector_size : Request
  filesystem : Request
  mft_records : Request
  opened_again : Request
  shut : Request

-- What they give back.
pub data Reply : Type 0 where
  bytes : Option (List ℕ) → Reply
  number : ℕ → Reply
  text : List ℕ → Reply
  whether : Bool → Reply
  nothing : Reply

unfoldable pub map_outcome {ℓ κ} : {A : Type ℓ} {B : Type κ} → (A → B) → Outcome A → Outcome B
map_outcome f (ok a) = ok (f a)
map_outcome f (err e) = err e

abbrev pub replied {ℓ} : {A : Type ℓ} → (A → Reply) → Ran A → Ran Reply
replied f call = ran (map_outcome f call.result) call.state

module _ (windows : Windows) where
  unfoldable pub serve : Request → State → Ran Reply
  unfolding map_outcome
  serve (sector_at sector size) s = replied bytes (read_sector windows sector size s)
  serve sector_size s = replied number (get_bytes_per_sector windows s)
  serve filesystem s = replied text (get_filesystem_type windows s)
  serve mft_records s = replied number (get_total_mft_records windows s)
  serve opened_again s = replied whether (reopen windows s)
  serve shut s = ran (ok nothing) (close s)

  -- The replies, and the state at the end. A user may go on after an exception.
  unfoldable pub serve_all : List Request → State → List (Outcome Reply) × State
  unfolding serve
  serve_all [] s = ([], s)
  serve_all (request ∷ requests) s =
      let served = serve request s in
      let (replies, end) = serve_all requests served.state in (served.result ∷ replies, end)

  -- The whole life of an object: where the constructor throws there is no object to use or destroy.
  pub lived : Outcome (Unit {0}) → State → List Request → List Call
  unfolding serve_all destroy
  lived (ok built) s requests = (destroy (serve_all requests s).1).calls
  lived (err e) s requests = s.calls

  unfoldable pub lifetime : List ℕ → List Request → List Call
  unfolding construct lived
  lifetime path requests =
      let made = construct windows path [] in lived made.result made.state requests

  module _ (others : List ℕ) where
    read_open-OwnsBeside :
        (sector size : ℕ) (s : State)
        → OwnsBeside others s
        → is_open s.reader ≡ true
        → OwnsBeside others (read_open windows sector size s).state
    unfolding read_open
    read_open-OwnsBeside sector size s (owned, clean) open' =
        let among = among-open others s (owned, clean) open' in
        if-holds (λ (run : Ran (Option (List ℕ))). OwnsBeside others run.state) _
          (λ placed. (owned, (among, (among, clean)))) (λ refused. (owned, (among, clean)))

    answered-OwnsBeside :
        {A B : Type 0} (failed : A) (value : B → A) (answer : Option B) (s : State)
        → OwnsBeside others s
        → OwnsBeside others (answered failed value answer s).state
    unfolding answered
    answered-OwnsBeside failed value none s owns = owns
    answered-OwnsBeside failed value (some b) s owns = owns

    ask_geometry-OwnsBeside :
        (s : State)
        → OwnsBeside others s
        → is_open s.reader ≡ true
        → OwnsBeside others (ask_geometry windows s).state
    unfolding ask_geometry
    ask_geometry-OwnsBeside s owns open' =
        answered-OwnsBeside _ _ (windows.get_drive_geometry s.calls s.reader.h_drive)
          (log_call (asked s.reader.h_drive) s) (log-OwnsBeside windows others s owns open')

    ask_volume-OwnsBeside :
        (s : State)
        → OwnsBeside others s
        → is_open s.reader ≡ true
        → OwnsBeside others (ask_volume windows s).state
    unfolding ask_volume
    ask_volume-OwnsBeside s owns open' =
        answered-OwnsBeside _ _ (windows.get_volume_information s.calls s.reader.h_drive)
          (log_call (asked s.reader.h_drive) s) (log-OwnsBeside windows others s owns open')

    total_records-OwnsBeside :
        (answer : Option VolumeData) (s : State)
        → answer ≢ none
        → OwnsBeside others s
        → OwnsBeside others (total_records answer s).state
    unfolding total_records
    total_records-OwnsBeside none s answers owns = absurd (answers refl)
    total_records-OwnsBeside (some nvdb) s answers owns =
        if-holds (λ (run : Ran ℕ). OwnsBeside others run.state) _ (λ zero. owns) (λ nonzero. owns)

    serve-OwnsBeside :
        ((calls : List Call) (handle : ℕ) → windows.get_ntfs_volume_data calls handle ≢ none)
        → (request : Request) (s : State) → OwnsBeside others s
        → OwnsBeside others (serve request s).state
    unfolding serve read_sector ask_records get_bytes_per_sector get_filesystem_type
        get_total_mft_records reopen
    serve-OwnsBeside answers (sector_at sector size) s owns =
        when_open-OwnsBeside windows others none (read_open windows sector size) s
          (read_open-OwnsBeside sector size) owns
    serve-OwnsBeside answers sector_size s owns =
        when_open-OwnsBeside windows others 0 (ask_geometry windows) s ask_geometry-OwnsBeside owns
    serve-OwnsBeside answers filesystem s owns =
        when_open-OwnsBeside windows others unknown_filesystem_name (ask_volume windows) s
          ask_volume-OwnsBeside owns
    serve-OwnsBeside answers mft_records s owns =
        when_open-OwnsBeside windows others 0 (ask_records windows) s
          (λ t owns' open'.
            total_records-OwnsBeside (windows.get_ntfs_volume_data t.calls t.reader.h_drive)
              (log_call (asked t.reader.h_drive) t) (answers t.calls t.reader.h_drive)
              (log-OwnsBeside windows others t owns' open'))
          owns
    serve-OwnsBeside answers opened_again s owns = (open_drive-OwnsBeside windows others s owns).0
    serve-OwnsBeside answers shut s owns = (close-OwnsBeside others s owns).0

    serve_all-OwnsBeside :
        ((calls : List Call) (handle : ℕ) → windows.get_ntfs_volume_data calls handle ≢ none)
        → (requests : List Request) (s : State) → OwnsBeside others s
        → OwnsBeside others (serve_all requests s).1
    unfolding serve_all
    serve_all-OwnsBeside answers [] s owns = owns
    serve_all-OwnsBeside answers (request ∷ requests) s owns =
        serve_all-OwnsBeside answers requests (serve request s).state
          (serve-OwnsBeside answers request s owns)

  -- A closed object holds nothing.
  closed-Owns :
      (s : State)
      → Owns s
      → is_open s.reader ≡ false
      → (open_handles s.calls ≡ []) × IsClean s.calls
  unfolding is_open
  closed-Owns s (owned, clean) shut' = ground (arith, owned, clean, shut')

  lived-Owns :
      ((calls : List Call) (handle : ℕ) → windows.get_ntfs_volume_data calls handle ≢ none)
      → (result : Outcome Bool) (s : State) (requests : List Request) → Owns s
      → Ends (λ whether. is_open s.reader ≡ whether) (λ _. is_open s.reader ≡ false) result
      → let made = require_opened result s in
        let calls = lived made.result made.state requests in
        (open_handles calls ≡ []) × IsClean calls
  unfolding lived require_opened destroy
  lived-Owns answers (ok true) s requests owns opens =
      let s' = (serve_all requests s).1 in
      let (owns', shut', path) =
        close-OwnsBeside [] s' (serve_all-OwnsBeside [] answers requests s owns) in
      closed-Owns (close s') owns' shut'
  lived-Owns answers (ok false) s requests owns opens = closed-Owns s owns opens
  lived-Owns answers (err e) s requests owns opens = closed-Owns s owns opens

  -- If the query of the NTFS volume data never fails, then no object leaves a handle open, and every
  -- call that it makes is made on a handle that is open at that time: none is used or closed after
  -- it was closed. This holds for every sequence of the methods from the constructor to the
  -- destructor, whatever else Windows answers and with whichever exceptions.
  pub lifetime_closes :
      ((calls : List Call) (handle : ℕ) → windows.get_ntfs_volume_data calls handle ≢ none)
      → (path : List ℕ) (requests : List Request)
      → (open_handles (lifetime path requests) ≡ []) × IsClean (lifetime path requests)
  unfolding lifetime construct destroy
  lifetime_closes answers path requests =
      let start = unopened path [] in
      lived-Owns answers _ (open_drive windows start).state requests
        (open_drive-OwnsBeside windows [] start (refl, tt)).0 (open_drive-is_open windows [] start)
