-- ===== src/Image/Meta.antt =====
-- image/meta.go: what an image root holds beside the manifest.
use oci_amber.Prelude.{ℕ, Option, List}
use oci_amber.Prelude.Text.{Bytes, codes}
use oci_amber.Prelude.Assoc.{Assoc}
use oci_amber.Oci.Digest.{Digest}
use oci_amber.Oci.Manifest.{Descriptor}
use oci_amber.Rootfs.Builder.{Skip}

pub data ImageKind : Type 0 where
  kind_manifest kind_index : ImageKind

abbrev pub manifest_file : Bytes
manifest_file = codes "manifest"

abbrev pub meta_file : Bytes
meta_file = codes "meta.json"

abbrev pub blobs_dir : Bytes
blobs_dir = codes "blobs"

abbrev pub manifests_dir : Bytes
manifests_dir = codes "manifests"

abbrev pub rootfs_dir : Bytes
rootfs_dir = codes "rootfs"

pub data RootfsStatus : Type 0 where
  rootfs_ok rootfs_partial rootfs_unavailable rootfs_not_applicable : RootfsStatus

-- The text of the reason is left out.
pub record RootfsInfo : Type 0 where
  pub status : RootfsStatus
  pub entries : ℕ
  pub skipped : List Skip
  pub skipped_count : ℕ

-- The int64 fields as 64-bit patterns.
pub record ImageStats : Type 0 where
  pub total_bytes : ℕ
  pub logical_bytes : ℕ
  pub deduped_bytes : ℕ
  pub disk_bytes : ℕ

pub record ImageMeta : Type 0 where
  pub kind : ImageKind
  pub media_type : Bytes
  pub digest : Digest
  pub size : ℕ
  pub artifact_type : Bytes
  pub subject : Option Descriptor
  pub annotations : Assoc Bytes
  pub created_at : ℕ
  pub stats : ImageStats
  pub rootfs : Option RootfsInfo
