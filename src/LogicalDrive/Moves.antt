-- ===== src/LogicalDrive/Moves.antt =====
-- The moves of src/LogicalDriveReader.cpp hand the handle over.
use data_recovery_tool.Common.{false, ◌≡◌, arith}
use data_recovery_tool.LogicalDrive.{LogicalDriveReader, State, is_open, move_assign}
use data_recovery_tool.LogicalDrive.Ownership.{OwnsBeside, held, close-OwnsBeside}

-- Two objects that own the open handles between them still do after a move assignment: the handle
-- that the assigned object had is closed, and it has that of the other, which is left closed.
pub move_assign-OwnsBeside :
    (s : State) (other : LogicalDriveReader)
    → OwnsBeside (held other) s
    → let (s', other') = move_assign false s other in
      OwnsBeside (held other') s' × (s'.reader ≡ other) × (is_open other' ≡ false)
unfolding move_assign is_open
move_assign-OwnsBeside s other owns =
    let ((owned, clean), shut, path) = close-OwnsBeside (held other) s owns in
    ground (arith, owned, clean, shut)
