-- ===== src/Sigan/Journal.antt =====
-- The append-only journal (include/mari/sigan/journal.hpp, sigan/src/journal.cpp): the records, the
-- buffered writer over a file, the scan of a file, and the recovery of an unfinished session.
pub mod Records
pub mod Writer
pub mod Scan
pub mod Laws
pub mod Recovery
pub mod Crash
pub mod Intact
pub mod Whole
pub mod Gaps
pub mod Prefix
