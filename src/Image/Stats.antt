-- ===== src/Image/Stats.antt =====
-- image/stats.go: the accounting of an image. An int64 is its 64-bit pattern.
use oci_amber.Prelude.{
  ℕ, ◌+◌, ◌-◌, ◌%◌, ◌^◌, Bool, true, false, not, ◌||◌, Option, none, some, List, [], ◌∷◌, length,
  if◌then◌else◌,
}
use oci_amber.Prelude.Int.{ℤ, pos, negsuc}
use oci_amber.Prelude.Text.{Bytes, bytes_eq}
use oci_amber.Oci.Digest.{Digest}
use oci_amber.Oci.Manifest.{Descriptor, Manifest, blob_descriptors, elements, is_index}
use oci_amber.Oci.Errors.{new_error, manifest_blob_unknown, digest_detail}
use oci_amber.Store.Refs.{RefStore, RefIo, found, not_found, unresolved, resolve}
use oci_amber.Blob.Store
use oci_amber.Blob.Store.{Stats, take_recent}
use oci_amber.Image.Refs.{manifest_ref}
use oci_amber.Image.Meta.{ImageStats}
use oci_amber.Image.Store.{Objects, Got, got, lost, internal, oci_error, ImageError, read_meta}

abbrev pub word : ℕ
word = 2 ^ 64

abbrev pub add64 : ℕ → ℕ → ℕ
add64 a b = (a + b) % word

-- The pattern of a descriptor's size.
abbrev pub size64 : ℤ → ℕ
size64 (pos n) = n % word
size64 (negsuc n) = (word - 1) - n % word

-- blobUnknown
abbrev pub blob_unknown_error : Digest → ImageError
blob_unknown_error d =
    oci_error (record (new_error manifest_blob_unknown) { detail = digest_detail d })

unfoldable pub contains_digest : Digest → List Digest → Bool
contains_digest d [] = false
contains_digest d (x ∷ xs) = bytes_eq x d || contains_digest d xs

-- A blob of which the stats are taken, or one that was there before.
abbrev pub add_blob : Descriptor → Option Stats → ImageStats → ImageStats
add_blob d (some r) st = record st {
  total_bytes = add64 st.total_bytes (size64 d.size);
  logical_bytes = add64 st.logical_bytes r.logical_bytes;
  deduped_bytes = add64 st.deduped_bytes r.deduped_bytes;
  disk_bytes = add64 st.disk_bytes r.disk_bytes;
}
add_blob d none st = record st {
  total_bytes = add64 st.total_bytes (size64 d.size);
  logical_bytes = add64 st.logical_bytes (size64 d.size);
  deduped_bytes = add64 st.deduped_bytes (size64 d.size);
}

-- The loop over the config and the layers, with the digests seen.
unfoldable pub add_blobs :
    ℕ → List Descriptor → List Digest → ImageStats → Store.Store → Store.Store × ImageStats
unfolding contains_digest
add_blobs now [] seen st b = (b, st)
add_blobs now (d ∷ ds) seen st b = elim (contains_digest d.digest seen) [
  | true ↦ add_blobs now ds seen st b
  | false ↦
      (let (b', r) = take_recent now d.digest b in
        add_blobs now ds (d.digest ∷ seen) (add_blob d r st) b')
]

abbrev pub add_child : ImageStats → ImageStats → ImageStats
add_child c st = record {
  total_bytes = add64 st.total_bytes c.total_bytes;
  logical_bytes = add64 st.logical_bytes c.logical_bytes;
  deduped_bytes = add64 st.deduped_bytes c.deduped_bytes;
  disk_bytes = add64 st.disk_bytes c.disk_bytes;
}

module _ (o : Objects) {S : Type 0} (refs : RefStore S) where
  -- The stats in the meta.json of a child.
  child_stats : RefIo → Bytes → S → Digest → Got ImageStats
  child_stats io repo s d = elim (resolve refs io (manifest_ref repo d) s) [
    | not_found ↦ lost (blob_unknown_error d)
    | unresolved ↦ lost internal
    | found root ↦ elim (read_meta o root) [ none ↦ lost internal | some m ↦ got m.stats ]
  ]

  -- The loop over the children of an index.
  unfoldable pub add_children :
      RefIo → Bytes → S → List Descriptor → List Digest → ImageStats → Got ImageStats
  unfolding contains_digest child_stats
  add_children io repo s [] seen st = got st
  add_children io repo s (d ∷ ds) seen st = elim (contains_digest d.digest seen) [
    | true ↦ add_children io repo s ds seen st
    | false ↦ elim (child_stats io repo s d.digest) [
      | lost e ↦ lost e
      | got c ↦ add_children io repo s ds (d.digest ∷ seen) (add_child c st)
    ]
  ]

  -- computeStats: the request is alive if `live` says so, and `own` are the objects of the manifest.
  unfoldable pub compute_stats :
      Bool
      → ℕ
      → RefIo
      → Bytes
      → Manifest
      → Bytes
      → Stats
      → S
      → Store.Store
      → Store.Store × Got ImageStats
  unfolding add_blobs add_children
  compute_stats live now io repo m body own s b =
      if not live
      then (b, lost internal)
      else (let start : ImageStats = record {
        total_bytes = length body % word;
        logical_bytes = own.logical_bytes;
        deduped_bytes = own.deduped_bytes;
        disk_bytes = own.disk_bytes;
      } in
          let (b', st) = add_blobs now (blob_descriptors m) [] start b in
          (b', if is_index m then add_children io repo s (elements m.manifests) [] st else got st))
