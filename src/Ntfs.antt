-- ===== src/Ntfs.antt =====
-- The NTFS recovery class (src/NTFSRecovery.cpp, src/NTFSRecovery.h, src/NTFSStructs.h).
pub mod Structs
pub mod Volume
pub mod Runs
pub mod Record
pub mod Recover
pub mod Run
