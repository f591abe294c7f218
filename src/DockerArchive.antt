-- ===== src/DockerArchive.antt =====
-- dockerarchive/: the archives of `docker image save`, and what an import of one stores.
pub mod Names
pub mod Archive
pub mod Resolve
pub mod Plan
pub mod Assign
mod Examples
