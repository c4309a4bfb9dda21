-- ===== src/Lib.antt =====
-- Verification of the data recovery tool, a program that searches FAT32, exFAT and NTFS volumes
-- for deleted files, judges their clusters, and writes their content to an output folder.
--
-- The program. A drive handler picks one recovery class by the file system (src/FAT32Recovery.cpp,
-- src/exFATRecovery.cpp, src/NTFSRecovery.cpp). Each reads sectors through the interface
-- `SectorReader`, reads its boot sector once, searches the volume and keeps a list of the deleted
-- files found, lets the user select, and then follows, judges and writes the clusters of each
-- file.
--
-- The files, and the code that they model.
--   Common: shared names, lists, machine words and running ids, and the type `Outcome` of what a
--     call ends in: a value, an exception, `exit`, or behaviour that C++ leaves undefined.
--   Device, Config, Session: src/SectorReader.h, src/Config.h, src/Enums.h, and the fields and the
--     surroundings that the recovery of files shares.
--   Text: texts as lists of code units, and the operations of the strings that the code uses.
--   History: src/ClusterHistory.cpp.
--   Analysis: the functions on chains of clusters that src/FAT32Recovery.cpp and
--     src/exFATRecovery.cpp hold in the same words. Analysis.Chain is the loop of
--     `validateClusterChain` and what stands behind it, Analysis.Pattern `analyzeClusterPattern`,
--     Analysis.Overwrites `analyzeClusterOverwrites`, Analysis.FileName `isFileNameCorrupted`. The
--     file allocation table is a parameter of theirs.
--   Recovery: `recoverFile` of the three classes. Select: `selectFilesToRecover` of the three.
--   Utils: src/Utils.cpp: `getOutputPath`, and in Utils.Log the log of the files found.
--   Analysis.Report is what is printed of a file's status: `showAnalysisResult` and
--     `showRecoveryResult`.
--   LogicalDrive: src/LogicalDriveReader.cpp and .h, over a record of the functions of Windows,
--     with the calls made so far as a list. Ownership says which handles are open after them,
--     Requests is the life of an object, Disk the drive that it stands for.
--   Fat32, ExFat, Ntfs: one module for each class, with Structs for the packed structures, Volume
--     for the boot sector and the clusters, Scan or Record for the search, and Recover for the
--     recovery. Fat32.Scan.Reached and ExFat.Scan.Reached say what a volume holds without the
--     search, and ExFat.Scan.Sets which sets of entries a sector has; Ntfs.Record.Layout and
--     Ntfs.Record.Held say where bytes stand in a record and which attributes it holds, and
--     Ntfs.Record.Whole which records can be read. Fat32.Names holds `parseFileInfo` and the guess
--     of an extension, Ntfs.Runs the data runs; Run is the entry point of the class. The operations
--     have the names of the member functions, in lower case with underscores.
--   Handler: src/DriveHandler.cpp and `main`; Handler.Partition the test for partition tables.
--     CommandLine: `parseCommandLine` of src/main.cpp.
--   Tests: runs on small volumes, of the whole program too.
--
-- State. A drive is a record of its reader and of what the constructor reads; the search threads a
-- record of the counter `fileId`, the list of files and the files reported to the log. The
-- recovery threads the record of used clusters, `nextFileId` and the names written. A number of w
-- bits keeps its wrap-around. A read past a buffer, a division by 0 and a shift by too much end a
-- call with a failure of their own. The files written are kept in their order, with their names;
-- `Session.left_in_folder` says which of them are in the output folder in the end, as a file opened
-- under the name of an earlier one truncates it. Which names are the same to the file system is a
-- parameter, `same_name`. A run of the program leaves the files recovered and the log of its search.
--
-- Bounds. The recursions over directories, over attributes and over usages of clusters take fuel,
-- and end in `out_of_fuel` when it is used up; loops over sectors and entries count down what is
-- left. The search and the loop over attributes get their fuel from the caller, since the code
-- sets no bound. The list of data runs has one round more than the buffer has bytes, as each round
-- uses up a byte; the overwrites of a file have as many rounds as the file has bytes, as each
-- round moves by a cluster; the search of a free name has the number of names tried that
-- `Session.Host` gives. Sector numbers are added without a wrap at 2^64. A volume does not change
-- during a run.
--
-- Not modelled. The headings, the progress bar and the prompts' texts that the program prints; the
-- functions of Windows, which src/LogicalDriveReader.cpp calls and which are parameters, with the
-- hypothesis `LogicalDrive.Disk.Serves` where a theorem needs that they serve a drive; the reader
-- of sectors is a parameter of the recovery, with the hypothesis `Device.IsExact` that a read that
-- succeeds fills its buffer, which holds of the reader that an object of LogicalDrive stands for;
-- and src/PhysicalDriveReader.cpp, which is commented out. In a name of an output file only slashes and
-- backslashes are looked at, not a drive's letter with a colon.
pub mod Common
pub mod Device
pub mod LogicalDrive
pub mod Config
pub mod Text
pub mod History
pub mod Analysis
pub mod Recovery
pub mod Select
pub mod Utils
pub mod Session
pub mod CommandLine
pub mod Fat32
pub mod ExFat
pub mod Ntfs
pub mod Handler
mod Tests
