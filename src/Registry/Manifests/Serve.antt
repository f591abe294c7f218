-- ===== src/Registry/Manifests/Serve.antt =====
-- What a push and a pull of a manifest are answered.
use oci_amber.Prelude.{
  ℕ, ◌+◌, ◌<◌, ◌≤◌, ◌≡◌, ◌≢◌, ◌⊎◌, refl, sym, ap, ◌∙◌, subst, inl, inr, true, false, Bool-cases,
  Option, some, List, [], ◌∷◌, ◌++◌, length, arith, ltb,
}
use oci_amber.Prelude.Text.{Bytes, codes, bytes_eq, cut_prefix, contains_byte, Lacks}
use oci_amber.Prelude.Text.Laws.{bytes_eq_refl, contains_byte-Lacks}
use oci_amber.Oci.Errors.{
  ErrorCode, default_status, is_ok, Result, ok, err, blob_unknown, blob_upload_invalid,
  blob_upload_unknown, digest_invalid, manifest_blob_unknown, manifest_invalid, manifest_unknown,
  name_invalid, name_unknown, size_invalid, unauthorized, denied, unsupported, too_many_requests,
  rootfs_unavailable, path_unknown, path_invalid, platform_unknown, other_code,
}
use oci_amber.Oci.Names.{validate_repository}
use oci_amber.Oci.Names.Charset.{validate_repository_line}
use oci_amber.Oci.Digest.{Digest, parse_digest, digest_of_bytes, is_empty}
use oci_amber.Oci.Digest.Shape.{parse_digest_iff, IsSha256-Lacks}
use oci_amber.Oci.Manifest.{Manifest}
use oci_amber.Regex.{in_set}
use oci_amber.Store.{Key, Keys}
use oci_amber.Store.Dir.{DirEntry}
use oci_amber.Store.Refs.{RefStore}
use oci_amber.Store.Refs.Laws.{RefLaws, target}
use oci_amber.Store.Reader.Content.{File}
use oci_amber.Image.Refs.{manifest_ref}
use oci_amber.Image.Meta.{ImageMeta}
use oci_amber.Image.Store.{
  Objects, ImageError, image_not_found, oci_error, internal, Got, got, lost, Image, open_image,
}
use oci_amber.Image.Put.{PushIo, Images, put_image}
use oci_amber.Image.Put.Published.{put_image-published, put_image-failed, put_image_valid}
use oci_amber.Image.Pull.{Stream}
use oci_amber.Image.Pull.Verified.{write_image-whole}
use oci_amber.Registry.Blobs.{get_method}
use oci_amber.Registry.Routes.{to_manifests, to_route, serve_target}
use oci_amber.Registry.Routes.Paths.{IsRoute, path_of-parse_path}
use oci_amber.Registry.Manifests.{
  ManifestResponse, Push, manifest_error, too_large, handle_error, created, declares_more,
  max_manifest_size, manifest_location, put_manifest, put_answer, handle_manifests,
  dispatch_manifest, serve_manifest, serve_image, manifest_body, found_manifest,
}

default_status-error : (c : ErrorCode) → 400 ≤ default_status c
unfolding default_status
default_status-error blob_unknown = omega arith
default_status-error blob_upload_invalid = omega arith
default_status-error blob_upload_unknown = omega arith
default_status-error digest_invalid = omega arith
default_status-error manifest_blob_unknown = omega arith
default_status-error manifest_invalid = omega arith
default_status-error manifest_unknown = omega arith
default_status-error name_invalid = omega arith
default_status-error name_unknown = omega arith
default_status-error size_invalid = omega arith
default_status-error unauthorized = omega arith
default_status-error denied = omega arith
default_status-error unsupported = omega arith
default_status-error too_many_requests = omega arith
default_status-error rootfs_unavailable = omega arith
default_status-error path_unknown = omega arith
default_status-error path_invalid = omega arith
default_status-error platform_unknown = omega arith
default_status-error (other_code c) = omega arith

handle_error-status : (e : ImageError) → 400 ≤ (handle_error e).status
unfolding handle_error
handle_error-status image_not_found = default_status-error manifest_unknown
handle_error-status (oci_error e) = default_status-error e.code
handle_error-status internal = omega arith

bytes_eq-slash : (n x w : Bytes) → Lacks b'/' w → bytes_eq (n ++ b'/' ∷ x) w ≡ false
bytes_eq-slash [] x [] l = refl
bytes_eq-slash [] x (c ∷ w) (e, l) = ground arith
bytes_eq-slash (a ∷ n) x [] l = refl
bytes_eq-slash (a ∷ n) x (c ∷ w) (e, l) = ground (arith, bytes_eq-slash n x w l)

manifest-IsRoute :
    (name : Bytes) (d : Digest)
    → validate_repository name ≡ ok tt
    → parse_digest d ≡ ok d
    → IsRoute (record { name = name; kind = to_manifests; rest = d })
unfolding in_set
manifest-IsRoute name d v h =
    let (ne, line) = validate_repository_line name v in
    let sha = ((parse_digest_iff d d).0 h).1 in
    record {
      named = ne;
      name_line = line;
      rest_line = IsSha256-Lacks 10 d (omega arith) refl sha;
      rest_segment = IsSha256-Lacks b'/' d (omega arith) refl sha;
    }

-- The location of a manifest is a path of the registry, and a request for it is sent to the manifest.
pub manifest_location-routed :
    (name : Bytes) (d : Digest)
    → validate_repository name ≡ ok tt
    → parse_digest d ≡ ok d
    → serve_target (manifest_location name d)
      ≡ to_route (record { name = name; kind = to_manifests; rest = d })
unfolding serve_target manifest_location cut_prefix
manifest_location-routed name d v h = ground (
  arith,
  bytes_eq-slash name (codes "manifests/" ++ d) [] tt,
  bytes_eq-slash name (codes "manifests/" ++ d) (codes "_catalog")
      (contains_byte-Lacks (codes "_catalog") b'/' (unfold contains_byte in refl)),
  v,
  path_of-parse_path (record { name = name; kind = to_manifests; rest = d })
      (manifest-IsRoute name d v h),
)

is_ok_tt : (r : Result (Unit {0})) → is_ok r ≡ true → r ≡ ok tt
is_ok_tt (err e) h = absurd cc
is_ok_tt (ok tt) h = refl

internal-status : (handle_error internal).status ≡ 500
unfolding handle_error
internal-status = refl

module _ (keys : Keys) (o : Objects) {S : Type 0} (refs : RefStore S) (sha256 : Bytes → Bytes)
    (unmarshal : Bytes → Option Manifest) (io : PushIo) (name reference : Bytes) (push : Push)
    (st : Images S) where
  put_manifest-cases :
      ((r : ManifestResponse) × (put_manifest o refs keys sha256 unmarshal io name reference push st
          ≡ (st, r))
        × (400 ≤ r.status))
      ⊎ (put_manifest o refs keys sha256 unmarshal io name reference push st
          ≡ put_answer o refs name (
              put_image keys o refs sha256 unmarshal io name reference push.content_type push.body
                st))
  unfolding put_manifest
  put_manifest-cases = elim (Bool-cases (declares_more push.declared)) [
    | inl a ↦ inl (too_large, ground arith, omega arith)
    | inr a ↦ elim (Bool-cases (ltb max_manifest_size (length push.body))) [
      | inl b ↦ inl (too_large, ground arith, omega arith)
      | inr b ↦ elim (Bool-cases push.broken) [
        | inl c ↦
            inl
              (manifest_error manifest_invalid, ground arith, default_status-error manifest_invalid)
        | inr c ↦ inr (ground arith)
      ]
    ]
  ]

  put_answer-cases :
      (p t : Images S × Got ImageMeta) (r : ManifestResponse)
      → put_answer o refs name p ≡ (t.0, r)
      → ((m : ImageMeta) × (p ≡ (t.0, got m)) × (r ≡ created name m))
        ⊎ ((e : ImageError) × (p ≡ (t.0, lost e)) × (r ≡ handle_error e))
  unfolding put_answer
  put_answer-cases (st', got m) t r h = inl (m, ap (λ x. (x.0, got m)) h, sym (ap (λ x. x.1) h))
  put_answer-cases (st', lost e) t r h = inr (e, ap (λ x. (x.0, lost e)) h, sym (ap (λ x. x.1) h))

  -- What a push was: refused before the store saw it, stored, or refused by it.
  abbrev Outcome : Images S → ManifestResponse → Type 0
  Outcome t r =
      ((t ≡ st) × (400 ≤ r.status))
      ⊎ (((m : ImageMeta) × (put_image keys o refs sha256 unmarshal io name reference
                push.content_type push.body st
              ≡ (t, got m))
            × (r ≡ created name m))
          ⊎ ((e : ImageError) × (put_image keys o refs sha256 unmarshal io name reference
                  push.content_type push.body st
                ≡ (t, lost e))
              × (r ≡ handle_error e)))

  put_manifest-Outcome :
      (t : Images S) (r : ManifestResponse)
      → put_manifest o refs keys sha256 unmarshal io name reference push st ≡ (t, r)
      → Outcome t r
  put_manifest-Outcome t r h = elim put_manifest-cases [
    | inl (r', e, k) ↦ inl (
      ap (λ x. x.0) (sym h ∙ e),
      subst (λ (x : ManifestResponse). 400 ≤ x.status) (ap (λ x. x.1) (sym e ∙ h)) k,
    )
    | inr e ↦ inr (
        put_answer-cases
          (put_image keys o refs sha256 unmarshal io name reference push.content_type push.body st)
          (t, lost internal) r (sym e ∙ h))
  ]

  module _ (laws : RefLaws refs)
      (fresh : (es : List DirEntry) (k : Key) → io.build es ≡ some k → refs.parse k ≡ some k) where
    -- A push that is answered by 201 leaves the manifest under the digest of the body, and the Location
    -- header is a path that the registry routes to that manifest. The sum of the body must be one that
    -- makes a digest, and the keys that the directory builder makes must parse.
    pub put_manifest-location :
        (t : Images S) (r : ManifestResponse) (d : Digest)
        → digest_of_bytes sha256 push.body ≡ d
        → parse_digest d ≡ ok d
        → put_manifest o refs keys sha256 unmarshal io name reference push st ≡ (t, r)
        → r.status ≡ 201
        → (root : Key) × (path : Bytes) × (target refs (manifest_ref name d) t.state ≡ some root)
          × (r.digest ≡ some d)
          × (r.location ≡ some path)
          × (serve_target path ≡ to_route (record { name = name; kind = to_manifests; rest = d }))
    put_manifest-location t r d e v h s = elim (put_manifest-Outcome t r h) [
      | inl (same, k) ↦ absurd (omega (arith, s, k))
      | inr (inr (x, p, q)) ↦ absurd (omega (arith, s, handle_error-status x, ap (λ y. y.status) q))
      | inr (inl (m, p, q)) ↦
          let (root, g, there) =
            put_image-published keys o refs sha256 unmarshal io name reference push.content_type
              push.body st laws fresh t m p in
          let same : m.digest ≡ d = g ∙ e in
          let valid = is_ok_tt (validate_repository name) (
            put_image_valid keys o refs sha256 unmarshal io name reference push.content_type
              push.body st t m p) in
          (
            root,
            manifest_location name d,
            ground (arith, there (manifest_ref name d), same, bytes_eq_refl (manifest_ref name d)),
            ap (λ y. y.digest) q ∙ ap some same,
            ap (λ y. y.location) q ∙ ap (λ y. some (manifest_location name y)) same,
            manifest_location-routed name d valid v,
          )
    ]

    -- A push that is answered by an error of the client, any status but 201 and 500, leaves every
    -- reference as it was.
    pub put_manifest-refused :
        (t : Images S) (r : ManifestResponse)
        → put_manifest o refs keys sha256 unmarshal io name reference push st ≡ (t, r)
        → r.status ≢ 201
        → r.status ≢ 500
        → t.state ≡ st.state
    put_manifest-refused t r h n k = elim (put_manifest-Outcome t r h) [
      | inl (same, l) ↦ ap (λ x. x.state) same
      | inr (inl (m, p, q)) ↦ absurd (n (ap (λ y. y.status) q))
      | inr (inr (x, p, q)) ↦
          elim (put_image-failed keys o refs sha256 unmarshal io name reference push.content_type
            push.body st laws fresh t x p) [
              | inl same ↦ same
              | inr (root, y, built, g) ↦
                  absurd (k (ap (λ z. z.status) (q ∙ ap handle_error y) ∙ internal-status))
            ]
    ]

-- A GET of a manifest that can be opened, whose file holds `d` of the digest in its meta.json, is answered
-- by `d` with the media type, the size and the digest of the meta.json.
pub get_manifest-whole :
    (o : Objects) {S : Type 0} (refs : RefStore S) (keys : Keys)
    (unmarshal : Bytes → Option Manifest) (p : Stream) (f n : ℕ) (io : PushIo)
    (name reference : Bytes) (push : Push) (st : Images S) (im : Image) (d : Bytes)
    → ((out q : Bytes) → p.takes out q ≡ true)
    → ((out : Bytes) → p.live out ≡ true)
    → is_empty reference ≡ false
    → open_image o refs io.refs name reference st.state ≡ got im
    → File p.keys p.get p.decode im.manifest d n
    → n + 1 < f
    → digest_of_bytes p.sha256 d ≡ im.meta.digest
    → handle_manifests o refs keys unmarshal p f (length d + 1) io name reference push st get_method
      ≡ (st, some (record (found_manifest im.meta) { body = d }))
unfolding handle_manifests dispatch_manifest serve_manifest serve_image manifest_body
get_manifest-whole o refs keys unmarshal p f n io name reference push st im d all live ne op file h
      s =
    ground (arith, ne, op, write_image-whole p f n im d all live file h s)
