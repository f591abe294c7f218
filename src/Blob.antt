-- ===== src/Blob.antt =====
-- blob/: the blobs of images, as prisms or verbatim.
pub mod Tar
pub mod Analyze
pub mod Store
pub mod Pull
pub mod Pipe
mod Examples
pub mod PullExamples
