-- ===== src/Upload.antt =====
-- upload/: in-progress blob uploads.
pub mod Session
pub mod Spool
pub mod Manager
pub mod Examples
