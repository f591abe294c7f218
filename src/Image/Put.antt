-- ===== src/Image/Put.antt =====
-- image/store.go: a manifest or an index pushed to a repository. A Put is one step: the lock of the
-- repository covers it but for the resolution of the blobs and the build of the root filesystem, which
-- read before it is taken. What the amber core writes, and json.Marshal, are arguments.
pub mod Steps
pub mod Published
pub mod Resolved
use oci_amber.Prelude.{
  ℕ, Bool, true, false, not, ◌&&◌, ◌||◌, Option, none, some, List, [], ◌∷◌, ◌++◌, length,
  if◌then◌else◌,
}
use oci_amber.Prelude.Text.{Bytes, codes, bytes_eq}
use oci_amber.Prelude.Assoc.{Assoc, lookup, insert}
use oci_amber.Prelude.Sort.{sort_by}
use oci_amber.Oci.Errors
use oci_amber.Oci.Errors.{
  Result, ok, err, is_ok, new_error, name_invalid, digest_invalid, manifest_invalid,
}
use oci_amber.Oci.Digest.{Digest, is_digest, parse_digest, digest_of_bytes}
use oci_amber.Oci.Names.{validate_repository, validate_tag}
use oci_amber.Oci.Manifest.{
  Descriptor, Manifest, parse_manifest, is_index, effective_media_type, effective_artifact_type,
  blob_descriptors, elements,
}
use oci_amber.Store.{Key, Keys}
use oci_amber.Store.Dir.{DirEntry, Dir, new_dir, add_file, add_dir, finish}
use oci_amber.Store.Refs.{RefStore, RefIo, found, not_found, unresolved, resolve, publish}
use oci_amber.Rootfs.Tree.{Forest}
use oci_amber.Blob.Store
use oci_amber.Image.Refs.{tag_ref, manifest_ref, referrer_ref}
use oci_amber.Image.Meta.{
  ImageKind, kind_manifest, kind_index, RootfsInfo, ImageStats, ImageMeta, blobs_dir, manifest_file,
  manifests_dir, meta_file, rootfs_dir,
}
use oci_amber.Image.Store.{
  Objects, Got, got, lost, ◌>>=◌, or_internal, ImageError, oci_error, internal,
}
use oci_amber.Image.Rootfs.{Layer, build_rootfs}
use oci_amber.Image.Stats.{blob_unknown_error, compute_stats}

-- blob.RefName
unfoldable pub blob_ref : Digest → Bytes
blob_ref d = codes "oci/blob/" ++ d

-- What the request and the store below answer on the way. `stored` is PutBytes; the directory builder
-- takes an entry by `takes` and makes a key by `build`; a Close that fails has no stats.
pub record PushIo : Type 0 where
  pub live : Bool
  pub live_later : Bool
  pub refs : RefIo
  pub layer : Digest → Layer
  pub write_tree : Forest → Option (Key × ℕ)
  pub stored : Bytes → Option Key
  pub takes : DirEntry → Bool
  pub build : List DirEntry → Option Key
  pub close_first : Option Store.Stats
  pub close_second : Bool
  pub marshal_meta : ImageMeta → Option Bytes
  pub now : ℕ

-- The references, and the blob store with its uploads of late.
pub record Images (S : Type 0) : Type 0 where
  pub state : S
  pub blobs : Store.Store

abbrev pub refuse : {A : Type 0} → Errors.ErrorCode → Got A
refuse code = lost (oci_error (new_error code))

-- A reference by digest must name the body; one by tag is kept.
unfoldable pub check_digest : Digest → Result Digest → Got (Option Bytes)
check_digest digest (err e) = refuse digest_invalid
check_digest digest (ok d) = if not (bytes_eq d digest) then refuse digest_invalid else got none

unfoldable pub check_reference : Bytes → Bytes → Digest → Got (Option Bytes)
unfolding check_digest
check_reference repo reference digest =
    if not (is_ok (validate_repository repo))
    then refuse name_invalid
    else if is_digest reference
    then check_digest digest (parse_digest reference)
    else if not (is_ok (validate_tag reference))
    then refuse manifest_invalid
    else got (some reference)

unfoldable pub check_subject : Option Descriptor → Got (Unit {0})
check_subject none = got tt
check_subject (some d) = if is_ok (parse_digest d.digest) then got tt else refuse manifest_invalid

abbrev pub parsed : {A : Type 0} → Result A → Got A
parsed (err e) = lost (oci_error e)
parsed (ok a) = got a

-- m's meta.json without its stats.
abbrev pub first_meta : PushIo → Bytes → Digest → Bytes → Manifest → Option RootfsInfo → ImageMeta
first_meta io content_type digest body m rootfs = record {
  kind = if is_index m then kind_index else kind_manifest;
  media_type = effective_media_type content_type m;
  digest = digest;
  size = length body;
  artifact_type = effective_artifact_type m;
  subject = m.subject;
  annotations = m.annotations;
  created_at = io.now;
  stats = record { total_bytes = 0; logical_bytes = 0; deduped_bytes = 0; disk_bytes = 0 };
  rootfs = rootfs;
}

module _ {S : Type 0} (refs : RefStore S) where
  -- The loop of resolveBlobs and resolveChildren: the root of each unique digest.
  unfoldable pub resolve_all :
      RefIo → (Digest → Bytes) → List Descriptor → Assoc Key → S → Got (Assoc Key)
  resolve_all io name [] roots s = got roots
  resolve_all io name (d ∷ ds) roots s = elim (lookup d.digest roots) [
    | some k ↦ resolve_all io name ds roots s
    | none ↦ elim (resolve refs io (name d.digest) s) [
      | not_found ↦ lost (blob_unknown_error d.digest)
      | unresolved ↦ lost internal
      | found k ↦ resolve_all io name ds (insert d.digest k roots) s
    ]
  ]

  unfoldable pub resolve_blobs : RefIo → Manifest → S → Got (Assoc Key)
  unfolding resolve_all
  resolve_blobs io m s = resolve_all io blob_ref (blob_descriptors m) [] s

  unfoldable pub resolve_children : RefIo → Bytes → Manifest → S → Got (Assoc Key)
  unfolding resolve_all
  resolve_children io repo m s = resolve_all io (manifest_ref repo) (elements m.manifests) [] s

module _ (keys : Keys) where
  -- The loop of buildRefDir.
  unfoldable pub add_dirs : (DirEntry → Bool) → List (Digest × Key) → Dir → Option Dir
  add_dirs takes [] d = some d
  add_dirs takes ((name, k) ∷ rest) d = elim (add_dir keys takes name k d) [
    | none ↦ none
    | some d' ↦ add_dirs takes rest d'
  ]

  abbrev pub finished : (List DirEntry → Option Key) → Option Dir → Option Key
  finished build none = none
  finished build (some d) = (finish build d).1

  unfoldable pub build_ref_dir : PushIo → Assoc Key → Option Key
  unfolding add_dirs
  build_ref_dir io roots =
      finished io.build (add_dirs io.takes (sort_by (λ (p : Digest × Key). p.0) roots) new_dir)

  -- An entry of a root that is there.
  add_optional : PushIo → Bytes → Option Key → Dir → Got Dir
  add_optional io name none d = got d
  add_optional io name (some k) d = or_internal (add_dir keys io.takes name k d)

  -- The directory of an image root.
  unfoldable pub root_dir : PushIo → Key → Key → Option Key → Key → Option Key → Got Dir
  unfolding add_optional
  root_dir io blobs manifest manifests meta rootfs = do
    a ← or_internal (add_dir keys io.takes blobs_dir blobs new_dir)
    b ← or_internal (add_file keys io.takes manifest_file manifest a)
    c ← add_optional io manifests_dir manifests b
    d ← or_internal (add_file keys io.takes meta_file meta c)
    add_optional io rootfs_dir rootfs d

-- What the first pass makes.
pub record Pass : Type 0 where
  pub info : Option RootfsInfo
  pub tree : Option Key
  pub manifest : Key
  pub blobs : Key
  pub manifests : Option Key
  pub own : Store.Stats

-- The checks of Put: the tag, if the reference is one, and the manifest.
unfoldable pub check_put :
    (Bytes → Option Manifest)
    → PushIo
    → Bytes
    → Bytes
    → Bytes
    → Digest
    → Got (Option Bytes × Manifest)
unfolding check_reference check_subject
check_put unmarshal io repo reference body digest = do
  tag ← check_reference repo reference digest
  m ← parsed (parse_manifest unmarshal body)
  checked ← check_subject m.subject
  if io.live then got (tag, m) else lost internal

-- Behind an operation that does not fail.
abbrev pub then_publish : {S : Type 0} → S × Bool → (S → S × Bool) → S × Bool
then_publish (s, false) next = (s, false)
then_publish (s, true) next = next s

module _ {S : Type 0} (refs : RefStore S) where
  unfoldable pub publish_tag : RefIo → Bytes → Option Bytes → Key → S → S × Bool
  publish_tag io repo none root s = (s, true)
  publish_tag io repo (some tag) root s = publish refs io (tag_ref repo tag) root s

  unfoldable pub publish_referrer : RefIo → Bytes → Option Descriptor → Digest → Key → S → S × Bool
  publish_referrer io repo none digest root s = (s, true)
  publish_referrer io repo (some d) digest root s =
      publish refs io (referrer_ref repo d.digest digest) root s

  -- The manifest reference, then the tag, then the referrer.
  unfoldable pub publish_refs :
      RefIo → Bytes → Option Bytes → Option Descriptor → Digest → Key → S → S × Bool
  unfolding publish_tag publish_referrer
  publish_refs io repo tag subject digest root s =
      then_publish
        (then_publish (publish refs io (manifest_ref repo digest) root s)
          (publish_tag io repo tag root))
        (publish_referrer io repo subject digest root)

module _ (keys : Keys) (o : Objects) {S : Type 0} (refs : RefStore S) where
  -- The root filesystem of a manifest that is not an index.
  first_tree : PushIo → Bytes → Digest → Manifest → S → Got (Option RootfsInfo × Option Key)
  first_tree io repo digest m s = if is_index m then got (none, none) else do
    (info, tree) ← build_rootfs o refs io.refs io.layer io.write_tree repo digest m s
    got (some info, tree)

  first_children : PushIo → Bytes → Manifest → S → Got (Assoc Key)
  unfolding resolve_children
  first_children io repo m s = if is_index m then resolve_children refs io.refs repo m s else got []

  child_dir : PushIo → Manifest → Assoc Key → Got (Option Key)
  unfolding build_ref_dir
  child_dir io m children =
      if is_index m
      then (do k ← or_internal (build_ref_dir keys io children); got (some k))
      else got none

  -- Put up to the Close of its first writer.
  unfoldable pub first_pass : PushIo → Bytes → Digest → Manifest → Bytes → S → Got Pass
  unfolding resolve_blobs first_tree first_children child_dir
  first_pass io repo digest m body s = do
    roots ← resolve_blobs refs io.refs m s
    (info, tree) ← first_tree io repo digest m s
    children ← first_children io repo m s
    manifest ← or_internal (io.stored body)
    blobs ← or_internal (build_ref_dir keys io roots)
    manifests ← child_dir io m children
    own ← or_internal io.close_first
    got (record {
      info = info;
      tree = tree;
      manifest = manifest;
      blobs = blobs;
      manifests = manifests;
      own = own;
    })

  -- meta.json and the root, up to the Close of the second writer.
  unfoldable pub second_pass : PushIo → ImageMeta → Pass → Got Key
  unfolding root_dir
  second_pass io meta p = do
    encoded ← or_internal (io.marshal_meta meta)
    k ← or_internal (io.stored (encoded ++ 10 ∷ []))
    d ← root_dir keys io p.blobs p.manifest p.manifests k p.tree
    root ← or_internal ((finish io.build d).1)
    if io.close_second then got root else lost internal

  publish_root :
      PushIo → Bytes → Option Bytes → ImageMeta → Images S → Got Key → Images S × Got ImageMeta
  unfolding publish_refs
  publish_root io repo tag meta st (lost e) = (st, lost e)
  publish_root io repo tag meta st (got root) =
      let (s, done) = publish_refs refs io.refs repo tag meta.subject meta.digest root st.state in
      (record st { state = s }, if done then got meta else lost internal)

  with_stats :
      PushIo
      → Bytes
      → Option Bytes
      → ImageMeta
      → Pass
      → Images S
      → Got ImageStats
      → Images S × Got ImageMeta
  unfolding publish_root second_pass
  with_stats io repo tag meta p st (lost e) = (st, lost e)
  with_stats io repo tag meta p st (got stats) =
      let full : ImageMeta = record meta { stats = stats } in
      publish_root io repo tag full st (second_pass io full p)

  put_passed :
      PushIo
      → Bytes
      → Bytes
      → Bytes
      → Digest
      → Option Bytes
      → Manifest
      → Images S
      → Got Pass
      → Images S × Got ImageMeta
  unfolding with_stats compute_stats
  put_passed io repo content_type body digest tag m st (lost e) = (st, lost e)
  put_passed io repo content_type body digest tag m st (got p) =
      let (b, stats) =
        compute_stats o refs io.live_later io.now io.refs repo m body p.own st.state st.blobs in
      with_stats io repo tag (first_meta io content_type digest body m p.info) p
        (record st { blobs = b }) stats

  put_checked :
      PushIo
      → Bytes
      → Bytes
      → Bytes
      → Digest
      → Images S
      → Got (Option Bytes × Manifest)
      → Images S × Got ImageMeta
  unfolding put_passed first_pass
  put_checked io repo content_type body digest st (lost e) = (st, lost e)
  put_checked io repo content_type body digest st (got (tag, m)) =
      put_passed io repo content_type body digest tag m st
        (first_pass io repo digest m body st.state)

  -- (*Store).Put
  unfoldable pub put_image :
      (Bytes → Bytes)
      → (Bytes → Option Manifest)
      → PushIo
      → Bytes
      → Bytes
      → Bytes
      → Bytes
      → Images S
      → Images S × Got ImageMeta
  unfolding put_checked check_put
  put_image sha256 unmarshal io repo reference content_type body st =
      let digest = digest_of_bytes sha256 body in
      put_checked io repo content_type body digest st
        (check_put unmarshal io repo reference body digest)
