-- ===== src/LogicalDrive/DoubleClose.antt =====
-- The failure of getTotalMftRecords (src/LogicalDriveReader.cpp), which closes the handle that the
-- object keeps.
use data_recovery_tool.Common.{◌≡◌, true, ok, none, arith}
use data_recovery_tool.LogicalDrive.{
  Windows, State, is_open, close, destroy, get_total_mft_records, when_open, ask_records,
  total_records,
}
use data_recovery_tool.LogicalDrive.Ownership.{IsClean, Owns}

-- On an object that is open and owns its handle, a failing query of the NTFS volume data gives 0 and
-- the object goes on calling itself open; its destructor then closes a handle that is already closed.
pub get_total_mft_records-closes_twice :
    (windows : Windows) (s : State)
    → Owns s
    → is_open s.reader ≡ true
    → windows.get_ntfs_volume_data s.calls s.reader.h_drive ≡ none
    → let failed = get_total_mft_records windows s in
      (failed.result ≡ ok 0)
      × (is_open failed.state.reader ≡ true)
      × ¬ IsClean (destroy failed.state).calls
unfolding get_total_mft_records when_open ask_records total_records destroy close is_open
get_total_mft_records-closes_twice windows s (owned, clean) open' fails =
    ground (arith, owned, open', fails)
