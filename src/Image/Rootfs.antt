-- ===== src/Image/Rootfs.antt =====
-- image/rootfs.go: the root filesystem of an image being pushed. What the blob store and archive/tar
-- give of a layer, and the key that the written tree gets, are arguments.
use oci_amber.Prelude.{
  ℕ, Bool, false, not, ◌||◌, Option, none, some, List, [], ◌∷◌, ltb, if◌then◌else◌,
}
use oci_amber.Prelude.Text.{Bytes, codes, bytes_eq}
use oci_amber.Oci.Digest.{Digest}
use oci_amber.Oci.Manifest.{Descriptor, Manifest, is_index}
use oci_amber.Store.{Key}
use oci_amber.Store.Refs.{RefStore, RefIo, found, not_found, unresolved, resolve}
use oci_amber.Rootfs.Entry.{Header}
use oci_amber.Rootfs.Tree.{Forest}
use oci_amber.Rootfs.Builder.{Builder, new_builder, apply, entries}
use oci_amber.Image.Refs.{manifest_ref}
use oci_amber.Image.Meta.{
  RootfsInfo, rootfs_ok, rootfs_partial, rootfs_unavailable, rootfs_not_applicable, rootfs_dir,
}
use oci_amber.Image.Store.{Objects, Got, got, lost, internal, read_meta, has_tree}
use oci_amber.Image.Stats.{blob_unknown_error}

abbrev pub media_type_oci_config : Bytes
media_type_oci_config = codes "application/vnd.oci.image.config.v1+json"

abbrev pub media_type_docker_config : Bytes
media_type_docker_config = codes "application/vnd.docker.container.image.v1+json"

-- rootfsApplies
unfoldable pub rootfs_applies : Manifest → Bool
rootfs_applies m = if is_index m then false else elim m.config [
  | none ↦ false
  | some c ↦
      bytes_eq c.media_type media_type_oci_config || bytes_eq c.media_type media_type_docker_config
]

-- A layer: absent, unreadable, stored raw, an archive that cannot be parsed, one that fails otherwise, or
-- its headers, each with the key of its content.
pub data Layer : Type 0 where
  layer_absent layer_unreadable layer_raw layer_malformed layer_failed : Layer
  layer_headers : List (Header × Bytes) → Layer

-- What the build makes of the layers: a tree, the reason that there is none, or an error.
pub data Built : Type 0 where
  built : Builder → Built
  unavailable : Built
  layer_gone : Digest → Built
  build_failed : Built

abbrev pub plain_info : ℕ → RootfsInfo
plain_info n = record { status = rootfs_ok; entries = n; skipped = []; skipped_count = 0 }

abbrev pub no_tree : RootfsInfo
no_tree = record (plain_info 0) { status = rootfs_not_applicable }

abbrev pub unavailable_tree : RootfsInfo
unavailable_tree = record (plain_info 0) { status = rootfs_unavailable }

-- The rootfs field of a written tree.
abbrev pub tree_info : Builder → ℕ → RootfsInfo
tree_info b n =
    if ltb 0 b.skipped_count
    then record (plain_info n) {
      status = rootfs_partial;
      skipped = b.skipped;
      skipped_count = b.skipped_count;
    }
    else plain_info n

-- One layer, and the rest of the loop.
apply_layer : (Builder → Built) → Digest → Layer → Builder → Built
apply_layer rest d layer_absent b = layer_gone d
apply_layer rest d layer_unreadable b = build_failed
apply_layer rest d layer_raw b = unavailable
apply_layer rest d layer_malformed b = unavailable
apply_layer rest d layer_failed b = build_failed
apply_layer rest d (layer_headers hs) b = rest (apply d (entries hs) b)

-- The loop of buildRootfs over the layers.
unfoldable pub build_layers : (Digest → Layer) → List Descriptor → Builder → Built
unfolding apply_layer
build_layers layer [] b = built b
build_layers layer (d ∷ ds) b = apply_layer (build_layers layer ds) d.digest (layer d.digest) b

module _ (o : Objects) {S : Type 0} (refs : RefStore S) where
  -- The tree of a root of the same digest; `none` when there is none to take.
  reuse_root : Key → Got (Option (RootfsInfo × Key))
  reuse_root root = elim (read_meta o root) [
    | none ↦ lost internal
    | some m ↦ elim m.rootfs [
      | none ↦ got none
      | some info ↦
          if not (has_tree (some info)) then got none else elim (o.lookup_key root rootfs_dir) [
            | none ↦ lost internal
            | some k ↦ got (some (info, k))
          ]
    ]
  ]

  -- reuseRootfs
  unfoldable pub reuse_rootfs : RefIo → Bytes → Digest → S → Got (Option (RootfsInfo × Key))
  unfolding reuse_root
  reuse_rootfs io repo d s = elim (resolve refs io (manifest_ref repo d) s) [
    | not_found ↦ got none
    | unresolved ↦ lost internal
    | found root ↦ reuse_root root
  ]

  -- (*Builder).Write is `write`, with the number of entries.
  written : (Forest → Option (Key × ℕ)) → Built → Got (RootfsInfo × Option Key)
  written write unavailable = got (unavailable_tree, none)
  written write (layer_gone d) = lost (blob_unknown_error d)
  written write build_failed = lost internal
  written write (built b) = elim (write b.tree) [
    | none ↦ lost internal
    | some (k, n) ↦ got (tree_info b n, some k)
  ]

  -- buildRootfs; `none` is the zero key.
  unfoldable pub build_rootfs :
      RefIo
      → (Digest → Layer)
      → (Forest → Option (Key × ℕ))
      → Bytes
      → Digest
      → Manifest
      → S
      → Got (RootfsInfo × Option Key)
  unfolding rootfs_applies reuse_rootfs written build_layers
  build_rootfs io layer write repo d m s =
      if not (rootfs_applies m) then got (no_tree, none) else elim (reuse_rootfs io repo d s) [
        | lost e ↦ lost e
        | got (some (info, k)) ↦ got (info, some k)
        | got none ↦ written write (build_layers layer m.layers new_builder)
      ]
