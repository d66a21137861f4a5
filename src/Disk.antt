-- ===== src/Disk.antt =====
-- `src/disk/`: blocks, files, and the manager that moves blocks between them.
pub mod Block
pub mod Error
pub mod Files
pub mod Finalize
pub mod FileSystem
pub mod Manager
pub mod Message
pub mod Transfer
mod Tests
