-- ===== src/Intervals/Append.antt =====
-- `appendNode`, `appendSubNode`, `getlastnode`, `getPointEnd` and `getFileSize` (haarp/utils.cpp):
-- what is recorded when a block has been written to disk.
mod Last
mod Insert
pub mod Disk
pub mod Places
