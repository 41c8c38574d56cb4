-- ===== src/Filesys.antt =====
-- The file system, code/filesys.
pub mod FileHeader
pub mod SynchDisk
pub mod OpenFile
pub mod MapFile
pub mod Directory
pub mod DirectoryFile
pub mod FileSystem
mod OneSector
mod Tests
