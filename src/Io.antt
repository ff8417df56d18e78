-- ===== src/Io.antt =====
-- Files (io).
pub mod Reader
pub mod Tar
