-- ===== src/Tests.antt =====
-- Runs on small volumes, and the theorems at concrete inputs.
mod Sample
mod Fat32Runs
mod RecoveryRuns
mod AnalysisRuns
mod TreeRuns
mod NtfsRuns
mod TableRuns
mod RecordRuns
mod PathRuns
mod ExFatRuns
mod ProgramRuns
mod AttributeRuns
mod DriveRuns
mod ReportRuns
mod ListingRuns
mod ExFatLoops
mod ExFatRecovered
