-- ===== src/Registry/Manifests.antt =====
-- registry/manifests.go: the handler of manifests. The answer to a client that is gone is left out, and
-- so is the log. The log of repositories and the store below are those of image/.
pub mod Serve
use oci_amber.Prelude.{
  ℕ, ◌*◌, Bool, true, false, not, Option, none, some, List, [], ◌∷◌, ◌++◌, ltb, length,
  if◌then◌else◌,
}
use oci_amber.Prelude.Text.{Bytes, codes}
use oci_amber.Oci.Errors.{
  ErrorCode, Error, Detail, no_detail, default_status, manifest_invalid, manifest_unknown,
  unsupported,
}
use oci_amber.Oci.Digest.{Digest, is_empty}
use oci_amber.Oci.Manifest.{Descriptor, Manifest}
use oci_amber.Store.{Key, Keys}
use oci_amber.Store.Refs.{RefStore, RefIo}
use oci_amber.Blob.Pull.{Pulled}
use oci_amber.Image.Meta.{ImageMeta}
use oci_amber.Image.Store.{
  Objects, ImageError, image_not_found, oci_error, internal, Got, got, lost, Image, open_image,
  delete_image,
}
use oci_amber.Image.Put.{PushIo, Images, put_image}
use oci_amber.Image.Pull.{Stream, write_image}
use oci_amber.Registry.Blobs.{
  Method, get_method, head_method, put_method, post_method, patch_method, delete_method,
  other_method,
}

-- maxManifestSize
abbrev pub max_manifest_size : ℕ
max_manifest_size = 4 * 1024 * 1024

-- manifestLocation
unfoldable pub manifest_location : Bytes → Digest → Bytes
manifest_location name d = codes "/v2/" ++ (name ++ (codes "/manifests/" ++ d))

-- What the client reads; an aborted connection cuts the body off.
pub record ManifestResponse : Type 0 where
  pub status : ℕ
  pub code : Option ErrorCode
  pub detail : Detail
  pub content_type : Option Bytes
  pub content_length : Option ℕ
  pub digest : Option Digest
  pub location : Option Bytes
  pub subject : Option Digest
  pub body : Bytes
  pub aborted : Bool

abbrev pub plain : ℕ → ManifestResponse
plain status = record {
  status = status;
  code = none;
  detail = no_detail;
  content_type = none;
  content_length = none;
  digest = none;
  location = none;
  subject = none;
  body = [];
  aborted = false;
}

abbrev pub manifest_error : ErrorCode → ManifestResponse
manifest_error code = record (plain (default_status code)) { code = some code }

-- manifestTooLarge
abbrev pub too_large : ManifestResponse
too_large = record (plain 413) { code = some manifest_invalid }

-- handleError, for the errors of the image store.
unfoldable pub handle_error : ImageError → ManifestResponse
handle_error (oci_error e) = record (manifest_error e.code) { detail = e.detail }
handle_error image_not_found = manifest_error manifest_unknown
handle_error internal = plain 500

-- The headers of a manifest.
abbrev pub found_manifest : ImageMeta → ManifestResponse
found_manifest m = record (plain 200) {
  content_type = some m.media_type;
  content_length = some m.size;
  digest = some m.digest;
}

-- Behind the headers: a stream that failed before its first byte is answered with an error, and behind
-- it the connection is cut.
unfoldable pub manifest_body : ManifestResponse → Option Pulled → Option ManifestResponse
manifest_body r none = none
manifest_body r (some p) = some (elim p.error [
  | none ↦ record r { body = p.written }
  | some e ↦ if is_empty p.written then plain 500 else record r { body = p.written; aborted = true }
])

-- A request to push: the length that it declares, its body, and whether reading the body fails.
pub record Push : Type 0 where
  pub declared : Option ℕ
  pub body : Bytes
  pub broken : Bool
  pub content_type : Bytes

abbrev pub declares_more : Option ℕ → Bool
declares_more none = false
declares_more (some n) = ltb max_manifest_size n

-- The answer to a manifest that is stored.
abbrev pub created : Bytes → ImageMeta → ManifestResponse
created name m = record (plain 201) {
  location = some (manifest_location name m.digest);
  digest = some m.digest;
  subject = elim m.subject [ none ↦ none | some d ↦ some d.digest ];
}

module _ (o : Objects) {S : Type 0} (refs : RefStore S) where
  serve_image : Stream → ℕ → ℕ → Bool → Got Image → Option ManifestResponse
  unfolding manifest_body handle_error
  serve_image p f g with_body (lost e) = some (handle_error e)
  serve_image p f g with_body (got im) =
      if not with_body
      then some (found_manifest im.meta)
      else manifest_body (found_manifest im.meta) (write_image p f g im)

  -- serveManifest, of a GET if `with_body` says so; `none` is a stream that ran out of its fuel.
  unfoldable pub serve_manifest :
      Stream → ℕ → ℕ → RefIo → Bool → Bytes → Bytes → S → Option ManifestResponse
  unfolding serve_image
  serve_manifest p f g io with_body name reference s =
      serve_image p f g with_body (open_image o refs io name reference s)

  put_answer : Bytes → Images S × Got ImageMeta → Images S × ManifestResponse
  unfolding manifest_location handle_error
  put_answer name (st, lost e) = (st, handle_error e)
  put_answer name (st, got m) = (st, created name m)

  -- putManifest
  unfoldable pub put_manifest :
      Keys
      → (Bytes → Bytes)
      → (Bytes → Option Manifest)
      → PushIo
      → Bytes
      → Bytes
      → Push
      → Images S
      → Images S × ManifestResponse
  unfolding put_answer
  put_manifest keys sha256 unmarshal io name reference push st =
      if declares_more push.declared
      then (st, too_large)
      else if ltb max_manifest_size (length push.body)
      then (st, too_large)
      else if push.broken
      then (st, manifest_error manifest_invalid)
      else put_answer name
          (put_image keys o refs sha256 unmarshal io name reference push.content_type push.body st)

  delete_answer : Images S → S × Option ImageError → Images S × ManifestResponse
  unfolding handle_error
  delete_answer st (s, some e) = (record st { state = s }, handle_error e)
  delete_answer st (s, none) = (record st { state = s }, plain 202)

  -- deleteManifest
  unfoldable pub delete_manifests : RefIo → Bytes → Bytes → Images S → Images S × ManifestResponse
  unfolding delete_answer
  delete_manifests io name reference st =
      delete_answer st (delete_image o refs io name reference st.state)

  -- The fuel of a stream is `f` for a read and `g` for its rounds.
  dispatch_manifest :
      Keys
      → (Bytes → Option Manifest)
      → Stream
      → ℕ
      → ℕ
      → PushIo
      → Bytes
      → Bytes
      → Push
      → Images S
      → Method
      → Images S × Option ManifestResponse
  unfolding serve_manifest put_manifest delete_manifests
  dispatch_manifest keys unmarshal p f g io name rest push st head_method =
      (st, serve_manifest p f g io.refs false name rest st.state)
  dispatch_manifest keys unmarshal p f g io name rest push st get_method =
      (st, serve_manifest p f g io.refs true name rest st.state)
  dispatch_manifest keys unmarshal p f g io name rest push st put_method =
      let (t, r) = put_manifest keys p.sha256 unmarshal io name rest push st in (t, some r)
  dispatch_manifest keys unmarshal p f g io name rest push st delete_method =
      let (t, r) = delete_manifests io.refs name rest st in (t, some r)
  dispatch_manifest keys unmarshal p f g io name rest push st post_method =
      (st, some (manifest_error unsupported))
  dispatch_manifest keys unmarshal p f g io name rest push st patch_method =
      (st, some (manifest_error unsupported))
  dispatch_manifest keys unmarshal p f g io name rest push st other_method =
      (st, some (manifest_error unsupported))

  -- handleManifests
  unfoldable pub handle_manifests :
      Keys
      → (Bytes → Option Manifest)
      → Stream
      → ℕ
      → ℕ
      → PushIo
      → Bytes
      → Bytes
      → Push
      → Images S
      → Method
      → Images S × Option ManifestResponse
  unfolding dispatch_manifest
  handle_manifests keys unmarshal p f g io name rest push st method =
      if is_empty rest
      then (st, some (plain 404))
      else dispatch_manifest keys unmarshal p f g io name rest push st method
