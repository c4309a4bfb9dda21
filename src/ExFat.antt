-- ===== src/ExFat.antt =====
-- The exFAT recovery class (src/exFATRecovery.cpp, src/exFATRecovery.h, src/exFATStructs.h).
pub mod Structs
pub mod Volume
pub mod Scan
pub mod Recover
pub mod Run
