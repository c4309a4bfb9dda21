-- ===== src/Ntfs/Runs.antt =====
-- The list of data runs of a nonresident attribute: the loop of `processDataAttribute`.
pub mod Encoding
pub mod Last
pub mod Failures
use data_recovery_tool.Common.{ℕ, zero, suc, ◌+◌, ◌-◌, ◌*◌, ◌/◌, ◌%◌, ◌^◌, true, false}
use data_recovery_tool.Common.{
  List, [], ◌∷◌, Option, none, some, ltb, leb, ◌==◌, ◌||◌, if◌then◌else◌,
}
use data_recovery_tool.Common.{add64, Outcome, ok, err, ◌>>=◌, ◌>>◌, require}
use data_recovery_tool.Common.{out_of_bounds, undefined_shift, division_by_zero, out_of_fuel}
use data_recovery_tool.Ntfs.Structs.{FileInfo}
use data_recovery_tool.Ntfs.Volume.{Drive}

-- `n` bytes as a number, the lowest first, and the bytes behind them. The bytes are joined by `|`
-- at places that do not overlap.
unfoldable pub read_number : ℕ → List ℕ → Outcome (ℕ × List ℕ)
read_number zero bytes = ok (0, bytes)
read_number (suc n) [] = err out_of_bounds
read_number (suc n) (b ∷ bytes) = do (high, rest) ← read_number n bytes; ok (b + 256 * high, rest)

-- An offset of `n` bytes as a 64-bit pattern: the highest bit is copied upwards. For eight bytes
-- with that bit set the code shifts by 64.
unfoldable pub sign_extend : ℕ → ℕ → Outcome ℕ
sign_extend n value =
    if n == 0 || ltb value (2 ^ (8 * n - 1))
    then ok value
    else require (ltb n 8) undefined_shift >> ok (value + (2 ^ 64 - 2 ^ (8 * n)))

pub record DataRun : Type 0 where
  pub run_length : ℕ
  pub run_offset : ℕ

-- One round up to the addition of the offset, at a header that is not 0; `none` is the `break` at a
-- length of no bytes. Numbers of more than eight bytes are shifted by 64 or more.
unfoldable pub read_run : ℕ → List ℕ → Outcome (Option (DataRun × List ℕ))
unfolding read_number sign_extend
read_run header bytes = elim (header % 16 == 0) [
  | true ↦ ok none
  | false ↦ do
    require (leb (header % 16) 8) undefined_shift
    (run_length, after_length) ← read_number (header % 16) bytes
    require (leb (header / 16) 8) undefined_shift
    (pattern, rest) ← read_number (header / 16) after_length
    run_offset ← sign_extend (header / 16) pattern
    ok (some (record { run_length = run_length; run_offset = run_offset }, rest))
]

-- The loop, with the bytes from the pointer to the end of the buffer. Each run overwrites the
-- cluster and the length that the run before it left.
unfoldable pub read_runs : ℕ → Drive → List ℕ → ℕ → FileInfo → Outcome FileInfo
unfolding read_run
read_runs zero drive bytes lcn info = err out_of_fuel
read_runs (suc fuel) drive [] lcn info = err out_of_bounds
read_runs (suc fuel) drive (header ∷ bytes) lcn info = elim (header == 0) [
  | true ↦ ok info
  | false ↦ do
    read ← read_run header bytes
    elim read [
      | none ↦ ok info
      | some (run, rest) ↦ do
        let lcn' = add64 lcn run.run_offset
        require (ltb 0 drive.boot_sector.sectors_per_cluster) division_by_zero
        let limit = drive.boot_sector.total_sectors / drive.boot_sector.sectors_per_cluster
        elim (ltb limit lcn') [
          | true ↦ ok info
          | false ↦
              read_runs fuel drive rest lcn'
                (record info { cluster = lcn'; run_length = run.run_length; non_resident = true })
        ]
    ]
]
