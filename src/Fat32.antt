-- ===== src/Fat32.antt =====
-- The FAT32 recovery class (src/FAT32Recovery.cpp, src/FAT32Recovery.h, src/FAT32Structs.h).
pub mod Structs
pub mod Volume
pub mod Names
pub mod Scan
pub mod Recover
pub mod Run
