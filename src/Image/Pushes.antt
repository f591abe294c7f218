-- ===== src/Image/Pushes.antt =====
-- Stores with images, for the tests: an image to delete, and a manifest to push.
use oci_amber.Prelude.{true, false, Option, none, some, [], ◌∷◌, if◌then◌else◌}
use oci_amber.Prelude.Int.{pos}
use oci_amber.Prelude.Text.{Bytes, codes, bytes_eq}
use oci_amber.Prelude.Assoc.{Assoc}
use oci_amber.Oci.Manifest.{Descriptor, Manifest}
use oci_amber.Oci.Examples.{sha_a, sha_b, repo_name, tag_name}
use oci_amber.Store.{Key}
use oci_amber.Blob.Store
use oci_amber.Image.Refs.{tag_ref, manifest_ref}
use oci_amber.Image.Meta.{ImageMeta, kind_manifest, meta_file}
use oci_amber.Image.Store.{Objects}
use oci_amber.Image.Rootfs.{layer_absent, no_tree}
use oci_amber.Image.Put.{PushIo, Images, blob_ref}
use oci_amber.Samples.{chunk_a, file_a, quiet}

abbrev pub root_a : Key
root_a = 4 ∷ []

abbrev pub root_b : Key
root_b = 4 ∷ 1 ∷ []

abbrev pub meta_a : ImageMeta
meta_a = record {
  kind = kind_manifest;
  media_type = codes "m";
  digest = sha_a;
  size = 3;
  artifact_type = [];
  subject = none;
  annotations = [];
  created_at = 1;
  stats = record { total_bytes = 0; logical_bytes = 0; deduped_bytes = 0; disk_bytes = 0 };
  rootfs = none;
}

-- The meta.json of root_a is that of sha_a, and any other root has that of sha_b.
abbrev pub sample_objects : Objects
sample_objects = record {
  lookup_key = λ root name. some (if bytes_eq name meta_file then root else file_a);
  read_file = λ k. some k;
  unmarshal_meta =
      λ b. some (if bytes_eq b root_a then meta_a else record meta_a { digest = sha_b });
}

abbrev pub other_tag : Bytes
other_tag = codes "v2"

-- An image with a tag, and a tag of another image.
abbrev pub two_images : Assoc Bytes
two_images =
    (manifest_ref repo_name sha_a, 1 ∷ root_a)
    ∷ (tag_ref repo_name tag_name, 1 ∷ root_a)
    ∷ (tag_ref repo_name other_tag, 1 ∷ root_b)
    ∷ []

abbrev pub one_image : Assoc Bytes
one_image = (tag_ref repo_name other_tag, 1 ∷ root_b) ∷ []

abbrev pub config_b : Descriptor
config_b = record {
  media_type = [];
  digest = sha_b;
  size = pos 7;
  artifact_type = [];
  annotations = [];
  platform = none;
}

abbrev pub pushed_manifest : Manifest
pushed_manifest = record {
  schema_version = pos 2;
  media_type = codes "m";
  artifact_type = [];
  config = some config_b;
  layers = [];
  manifests = none;
  subject = none;
  annotations = [];
}

abbrev pub any_manifest : Bytes → Option Manifest
any_manifest body = some pushed_manifest

-- A store below that takes everything.
abbrev pub pushing : PushIo
pushing = record {
  live = true;
  live_later = true;
  refs = quiet;
  layer = λ d. layer_absent;
  write_tree = λ t. none;
  stored = λ b. some chunk_a;
  takes = λ e. true;
  build = λ es. some root_a;
  close_first = some (record { logical_bytes = 3; deduped_bytes = 0; disk_bytes = 3 });
  close_second = true;
  marshal_meta = λ m. some [];
  now = 1;
}

-- A store below that refuses the tag.
abbrev pub refusing_tag : PushIo
refusing_tag = record pushing {
  refs = record quiet { put_fails = λ n. bytes_eq n (tag_ref repo_name tag_name) };
}

abbrev pub no_blobs : Store.Store
no_blobs = record {
  published = [];
  recent = [];
  allow_raw = false;
  recent_ttl = 100;
  read_only = false;
}

-- The blob of the config is there.
abbrev pub before_push : Images (Assoc Bytes)
before_push = record { state = (blob_ref sha_b, 1 ∷ root_b) ∷ []; blobs = no_blobs }

abbrev pub pushed_meta : ImageMeta
pushed_meta = record meta_a {
  stats = record { total_bytes = 10; logical_bytes = 10; deduped_bytes = 7; disk_bytes = 3 };
  rootfs = some no_tree;
}
