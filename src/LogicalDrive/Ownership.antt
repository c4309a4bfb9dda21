-- ===== src/LogicalDrive/Ownership.antt =====
-- The handles that an object of src/LogicalDriveReader.cpp holds: which are open after the calls made
-- so far, and whether each call was made on one of them.
use data_recovery_tool.Common.{ℕ, Bool, true, false, ◌||◌, List, [], ◌∷◌, ◌++◌, ◌==◌, arith}
use data_recovery_tool.Common.{if◌then◌else◌, ◌≡◌, inl, inr, Bool-cases, if-holds}
use data_recovery_tool.Common.{Outcome, ok, err, Ends}
use data_recovery_tool.LogicalDrive.{
  Call, created, closed, moved, read, asked, Windows, LogicalDriveReader, State, Ran, is_open,
  invalid_handle_value, log_call, close, open_drive, reopen, when_open, go_on,
}

abbrev pub remove_first : ℕ → List ℕ → List ℕ
remove_first handle [] = []
remove_first handle (h ∷ hs) = if h == handle then hs else h ∷ remove_first handle hs

abbrev pub is_among : ℕ → List ℕ → Bool
is_among handle [] = false
is_among handle (h ∷ hs) = h == handle || is_among handle hs

-- The handles that were created and not closed.
abbrev pub open_handles : List Call → List ℕ
open_handles [] = []
open_handles (created path h ∷ calls) =
    if h == invalid_handle_value then open_handles calls else h ∷ open_handles calls
open_handles (closed h ∷ calls) = remove_first h (open_handles calls)
open_handles (moved h offset ∷ calls) = open_handles calls
open_handles (read h size ∷ calls) = open_handles calls
open_handles (asked h ∷ calls) = open_handles calls

-- Every call was made on a handle that was open: none is used or closed after it was closed.
abbrev pub IsClean : List Call → Type 0
IsClean [] = Unit
IsClean (created path h ∷ calls) = IsClean calls
IsClean (closed h ∷ calls) = (is_among h (open_handles calls) ≡ true) × IsClean calls
IsClean (moved h offset ∷ calls) = (is_among h (open_handles calls) ≡ true) × IsClean calls
IsClean (read h size ∷ calls) = (is_among h (open_handles calls) ≡ true) × IsClean calls
IsClean (asked h ∷ calls) = (is_among h (open_handles calls) ≡ true) × IsClean calls

abbrev pub held : LogicalDriveReader → List ℕ
unfolding is_open
held reader = if is_open reader then reader.h_drive ∷ [] else []

-- The open handles are the one of the object, if it has one, and `others`.
abbrev pub OwnsBeside : List ℕ → State → Type 0
OwnsBeside others s = (open_handles s.calls ≡ held s.reader ++ others) × IsClean s.calls

abbrev pub Owns : State → Type 0
Owns = OwnsBeside []

-- The handle of an open object is open.
pub among-open :
    (others : List ℕ) (s : State)
    → OwnsBeside others s
    → is_open s.reader ≡ true
    → is_among s.reader.h_drive (open_handles s.calls) ≡ true
unfolding is_open
among-open others s (owned, clean) opened = ground (arith, owned, opened)

pub close-OwnsBeside :
    (others : List ℕ) (s : State)
    → OwnsBeside others s
    → OwnsBeside others (close s)
      × (is_open (close s).reader ≡ false)
      × ((close s).reader.drive_path ≡ s.reader.drive_path)
unfolding close is_open
close-OwnsBeside others s (owned, clean) = elim (Bool-cases (is_open s.reader)) [
  | inl opened ↦ ground (arith, owned, clean, opened)
  | inr shut ↦ ground (arith, owned, clean, shut)
]

module _ (windows : Windows) (others : List ℕ) where
  pub open_drive-OwnsBeside :
      (s : State)
      → OwnsBeside others s
      → OwnsBeside others (open_drive windows s).state
        × ((open_drive windows s).state.reader.drive_path ≡ s.reader.drive_path)
  unfolding open_drive is_open
  open_drive-OwnsBeside s owns =
      let ((owned, clean), shut, path) = close-OwnsBeside others s owns in
      ground (arith, owned, clean, shut, path)

  -- A call that only names an open handle.
  pub log-OwnsBeside :
      (s : State)
      → OwnsBeside others s
      → is_open s.reader ≡ true
      → OwnsBeside others (log_call (asked s.reader.h_drive) s)
  log-OwnsBeside s (owned, clean) opened =
      (owned, (among-open others s (owned, clean) opened, clean))

  -- The result says whether the object is open.
  pub open_drive-is_open :
      (s : State)
      → Ends
          (λ whether. is_open (open_drive windows s).state.reader ≡ whether)
          (λ _. is_open (open_drive windows s).state.reader ≡ false)
          (open_drive windows s).result
  unfolding open_drive is_open
  open_drive-is_open s = ground arith

  go_on-OwnsBeside :
      {A : Type 0} (failed : A) (query : State → Ran A) (result : Outcome Bool) (s : State)
      → ((t : State)
          → OwnsBeside others t
          → is_open t.reader ≡ true
          → OwnsBeside others (query t).state)
      → OwnsBeside others s
      → Ends (λ whether. is_open s.reader ≡ whether) (λ _. is_open s.reader ≡ false) result
      → OwnsBeside others (go_on failed query result s).state
  unfolding go_on
  go_on-OwnsBeside failed query (ok true) s keeps owns opens = keeps s owns opens
  go_on-OwnsBeside failed query (ok false) s keeps owns opens = owns
  go_on-OwnsBeside failed query (err e) s keeps owns opens = owns

  -- The drive is opened again for a query, if it is not open.
  pub when_open-OwnsBeside :
      {A : Type 0} (failed : A) (query : State → Ran A) (s : State)
      → ((t : State)
          → OwnsBeside others t
          → is_open t.reader ≡ true
          → OwnsBeside others (query t).state)
      → OwnsBeside others s
      → OwnsBeside others (when_open windows failed query s).state
  unfolding when_open reopen
  when_open-OwnsBeside failed query s keeps owns =
      if-holds (λ (run : Ran _). OwnsBeside others run.state) (is_open s.reader) (keeps s owns)
        (λ shut.
          go_on-OwnsBeside failed query _ (open_drive windows s).state keeps
            (open_drive-OwnsBeside s owns).0 (open_drive-is_open s))
