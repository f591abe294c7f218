-- ===== src/Image.antt =====
-- image/: image roots and the references that name them.
pub mod Refs
pub mod Meta
pub mod Store
pub mod List
pub mod Stats
pub mod Rootfs
pub mod Put
pub mod Pull
pub mod Pushes
mod Examples
mod PushExamples
