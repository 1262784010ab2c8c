-- ===== src/Flat.antt =====
-- Flat records (tkrzw_file_util.cc): strings written one behind the other to a file.
pub mod File
pub mod Record
pub mod Reader
pub mod Window
pub mod Scan
