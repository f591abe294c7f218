-- ===== src/Rootfs.antt =====
-- rootfs/: the root filesystem that the layers of an image merge into.
pub mod Path
pub mod Entry
pub mod Tree
pub mod Builder
mod Examples
