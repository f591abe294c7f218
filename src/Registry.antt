-- ===== src/Registry.antt =====
-- registry/: the HTTP handlers of the distribution API.
pub mod Pages
pub mod Routes
pub mod Uploads
pub mod Blobs
pub mod Manifests
mod Examples
mod PullExamples
mod PushExamples
