-- ===== src/Analysis.antt =====
-- The corruption analysis, which FAT32Recovery.cpp and exFATRecovery.cpp hold in the same words.
pub mod Status
pub mod Pattern
pub mod FileName
pub mod Overwrites
pub mod Chain
pub mod Report
