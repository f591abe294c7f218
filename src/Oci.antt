-- ===== src/Oci.antt =====
-- oci/: the OCI distribution grammar and wire types that every other package shares.
pub mod Errors
pub mod Digest
pub mod Names
pub mod Manifest
pub mod Examples
