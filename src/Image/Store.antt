-- ===== src/Image/Store.antt =====
-- image/store.go: images opened and deleted. The objects below the store below are arguments: the entry
-- of a directory, the content of a file and the decoder of meta.json. The lock of a repository makes
-- each operation here one step.
pub mod Delete
pub mod Untag
use oci_amber.Prelude.{
  ℕ, Bool, true, false, not, ◌||◌, Option, none, some, List, [], ◌∷◌, ◌++◌, if◌then◌else◌,
}
use oci_amber.Prelude.Text.{Bytes, bytes_eq}
use oci_amber.Oci.Errors.{Error, new_error, digest_invalid, Result, ok, err, is_ok}
use oci_amber.Oci.Digest.{Digest, is_digest, parse_digest}
use oci_amber.Oci.Names.{validate_repository, validate_tag}
use oci_amber.Oci.Manifest.{Descriptor}
use oci_amber.Store.{Key}
use oci_amber.Store.Refs.{
  Ref, RefStore, RefIo, Resolved, found, not_found, unresolved, Deleted, deleted, missing,
  not_deleted, resolve, delete_ref, list_refs,
}
use oci_amber.Image.Refs.{tag_prefix, tag_ref, manifest_ref, referrer_ref}
use oci_amber.Image.Meta.{
  ImageMeta, RootfsInfo, RootfsStatus, rootfs_ok, rootfs_partial, rootfs_unavailable,
  rootfs_not_applicable, meta_file, manifest_file, rootfs_dir,
}

-- LookupKey and ReadFile of the store below, and json.Unmarshal.
pub record Objects : Type 0 where
  pub lookup_key : Key → Bytes → Option Key
  pub read_file : Key → Option Bytes
  pub unmarshal_meta : Bytes → Option ImageMeta

-- image.ErrNotFound, an *oci.Error, or any other error.
pub data ImageError : Type 0 where
  image_not_found : ImageError
  oci_error : Error → ImageError
  internal : ImageError

pub data Got (A : Type 0) : Type 0 where
  got : A → Got A
  lost : ImageError → Got A

-- `if err != nil { return nil, err }` between two calls.
infixl 5 ◌>>=◌
abbrev pub ◌>>=◌ : {A B : Type 0} → Got A → (A → Got B) → Got B
lost e >>= next = lost e
got a >>= next = next a

-- An error of the store below.
abbrev pub or_internal : {A : Type 0} → Option A → Got A
or_internal none = lost internal
or_internal (some a) = got a

pub record Image : Type 0 where
  pub meta : ImageMeta
  pub root : Key
  pub manifest : Key
  pub rootfs : Option Key

digest_ref : Bytes → Result Digest → Got Bytes
digest_ref repo (err e) = lost (oci_error (new_error digest_invalid))
digest_ref repo (ok d) = got (manifest_ref repo d)

-- refFor
unfoldable pub ref_for : Bytes → Bytes → Got Bytes
unfolding digest_ref
ref_for repo reference =
    if not (is_ok (validate_repository repo))
    then lost image_not_found
    else if is_digest reference
    then digest_ref repo (parse_digest reference)
    else if not (is_ok (validate_tag reference))
    then lost image_not_found
    else got (tag_ref repo reference)

-- A root has a tree when its status is ok or partial.
unfoldable pub has_tree : Option RootfsInfo → Bool
has_tree none = false
has_tree (some r) = elim r.status [
  | rootfs_ok ↦ true
  | rootfs_partial ↦ true
  | rootfs_unavailable ↦ false
  | rootfs_not_applicable ↦ false
]

-- Behind an operation without an error.
abbrev pub then_delete :
    {S : Type 0} → S × Option ImageError → (S → S × Option ImageError) → S × Option ImageError
then_delete (s, some e) next = (s, some e)
then_delete (s, none) next = next s

module _ (o : Objects) where
  unfoldable pub read_meta : Key → Option ImageMeta
  read_meta root = elim (o.lookup_key root meta_file) [
    | none ↦ none
    | some k ↦ elim (o.read_file k) [ none ↦ none | some b ↦ o.unmarshal_meta b ]
  ]

  -- What is read of a root.
  unfoldable pub open_root : Key → Got Image
  unfolding read_meta has_tree
  open_root root = elim (read_meta root) [
    | none ↦ lost internal
    | some meta ↦ elim (o.lookup_key root manifest_file) [
      | none ↦ lost internal
      | some m ↦
          if not (has_tree meta.rootfs)
          then got (record { meta = meta; root = root; manifest = m; rootfs = none })
          else elim (o.lookup_key root rootfs_dir) [
            | none ↦ lost internal
            | some k ↦ got (record { meta = meta; root = root; manifest = m; rootfs = some k })
          ]
    ]
  ]

  -- Whether a tag's root is the image: `none` when its meta.json cannot be read.
  unfoldable pub same_image : Key → Digest → Key → Option Bool
  unfolding read_meta
  same_image root d k =
      if bytes_eq k root
      then some true
      else elim (read_meta k) [ none ↦ none | some m ↦ some (bytes_eq m.digest d) ]

  module _ {S : Type 0} (refs : RefStore S) where
    open_resolved : Resolved → Got Image
    unfolding open_root
    open_resolved not_found = lost image_not_found
    open_resolved unresolved = lost internal
    open_resolved (found root) = open_root root

    -- (*Store).Open
    unfoldable pub open_image : RefIo → Bytes → Bytes → S → Got Image
    unfolding open_resolved
    open_image io repo reference s = elim (ref_for repo reference) [
      | lost e ↦ lost e
      | got name ↦ open_resolved (resolve refs io name s)
    ]

    -- The error of a reference that was there before, or is gone.
    unfoldable pub delete_known : RefIo → Bytes → S → S × Option ImageError
    delete_known io name s =
        let (t, d) = delete_ref refs io name s in
        elim d [ deleted ↦ (t, none) | missing ↦ (t, none) | not_deleted ↦ (t, some internal) ]

    -- The error of a reference that must be there.
    unfoldable pub delete_named : RefIo → Bytes → S → S × Option ImageError
    delete_named io name s =
        let (t, d) = delete_ref refs io name s in
        elim d [
          | deleted ↦ (t, none)
          | missing ↦ (t, some image_not_found)
          | not_deleted ↦ (t, some internal)
        ]

    -- What the loop over the tags does to one.
    unfoldable pub delete_tag : RefIo → Key → Digest → Ref → S → S × Option ImageError
    delete_tag io root d r s = elim (same_image root d r.key) [
      | none ↦ (s, some internal)
      | some false ↦ (s, none)
      | some true ↦ delete_known io r.name s
    ]

    unfoldable pub delete_tags : RefIo → Key → Digest → List Ref → S → S × Option ImageError
    unfolding delete_tag
    delete_tags io root d [] s = (s, none)
    delete_tags io root d (r ∷ rs) s =
        then_delete (delete_tag io root d r s) (delete_tags io root d rs)

    -- The manifest's own referrer reference, when it has a subject.
    unfoldable pub delete_referrer :
        RefIo → Bytes → Digest → Option Descriptor → S → S × Option ImageError
    unfolding delete_known
    delete_referrer io repo d none s = (s, none)
    delete_referrer io repo d (some subject) s =
        delete_known io (referrer_ref repo subject.digest d) s

    delete_listed : RefIo → Bytes → Key → ImageMeta → S → Option (List Ref) → S × Option ImageError
    unfolding delete_tags delete_referrer
    delete_listed io repo root meta s none = (s, some internal)
    delete_listed io repo root meta s (some tags) =
        then_delete (delete_tags io root meta.digest tags s)
          (delete_referrer io repo meta.digest meta.subject)

    -- Delete by digest, behind the root's meta.json.
    unfoldable pub delete_manifest :
        RefIo → Bytes → Bytes → Key → ImageMeta → S → S × Option ImageError
    unfolding delete_named delete_listed
    delete_manifest io repo name root meta s =
        then_delete (delete_named io name s)
          (λ t. delete_listed io repo root meta t (list_refs refs io (tag_ref repo []) t))

    delete_resolved : RefIo → Bytes → Bytes → S → Resolved → S × Option ImageError
    unfolding delete_manifest
    delete_resolved io repo name s not_found = (s, some image_not_found)
    delete_resolved io repo name s unresolved = (s, some internal)
    delete_resolved io repo name s (found root) = elim (read_meta root) [
      | none ↦ (s, some internal)
      | some meta ↦ delete_manifest io repo name root meta s
    ]

    -- (*Store).Delete
    unfoldable pub delete_image : RefIo → Bytes → Bytes → S → S × Option ImageError
    unfolding delete_named delete_resolved
    delete_image io repo reference s = elim (ref_for repo reference) [
      | lost e ↦ (s, some e)
      | got name ↦
          if not (is_digest reference)
          then delete_named io name s
          else delete_resolved io repo name s (resolve refs io name s)
    ]
