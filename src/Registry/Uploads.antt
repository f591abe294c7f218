-- ===== src/Registry/Uploads.antt =====
-- registry/uploads.go: the upload handlers over the upload manager and the blob store. A request
-- brings what the system answers on its way; a response is what the client reads.
pub mod Range
pub mod Finish
use oci_amber.Prelude.{
  ℕ, ◌+◌, ◌-◌, Bool, true, false, not, ◌&&◌, ◌||◌, Option, none, some, List, [], ◌∷◌, ◌++◌, max,
  ◌==◌, get_elem?, if◌then◌else◌,
}
use oci_amber.Prelude.Text.{Bytes, bytes_eq}
use oci_amber.Oci.Errors.{
  ErrorCode, blob_unknown, blob_upload_invalid, blob_upload_unknown, digest_invalid, default_status,
  Detail, no_detail, mismatch_detail, Result, ok, err,
}
use oci_amber.Oci.Digest.{Digest, parse_digest, is_empty}
use oci_amber.Upload.Session.{
  Session, UploadError, unknown, manager_closed, spool_removed, io_error, Body, append, CloseIo,
}
use oci_amber.Upload.Spool.{Outcome, good, bad, Spool, spool, remove_spool}
use oci_amber.Upload.Manager.{Manager, create, get, on_session, remove}
use oci_amber.Registry.Uploads.Range.{parse_content_range}

-- What the blob store answers: a blob is there or not, and a put stores it, refuses to keep it raw,
-- or fails.
pub data Known : Type 0 where
  known absent failed : Known

pub data Stored : Type 0 where
  stored : Digest → Stored
  refused : Stored
  broken : Stored

-- The blob store that the handlers call, on a state of its own. A put is given the spool and the
-- file at its path.
pub record Blobs (S : Type 0) : Type 0 where
  pub exists : Digest → S → Known
  pub reuse : Digest → S → S × Known
  pub store_spool : Spool → Option Bytes → S → S × Stored

pub record Server (S : Type 0) : Type 0 where
  pub manager : Manager
  pub state : S

-- One request: its query and header, and what the system answers on its way.
pub record Request : Type 0 where
  pub mount : Bytes
  pub digest : Option Bytes
  pub content_range : Bytes
  pub body : Body
  pub new_id : Option Bytes
  pub now : ℕ
  pub entry : ℕ
  pub exit : ℕ
  pub close_io : CloseIo
  pub unlink_ok : Bool

-- `upload` is the session of the Location, Docker-Upload-UUID and Range headers: its id and its
-- offset. `created` is the digest of the Location and Docker-Content-Digest headers.
pub record Response : Type 0 where
  pub status : ℕ
  pub code : Option ErrorCode
  pub detail : Detail
  pub upload : Option (Bytes × ℕ)
  pub created : Option Digest

abbrev pub plain_response : ℕ → Response
plain_response status = record {
  status = status;
  code = none;
  detail = no_detail;
  upload = none;
  created = none;
}

abbrev pub error_response : ErrorCode → Response
error_response code = record (plain_response (default_status code)) { code = some code }

-- The last byte's index, in the Range header.
unfoldable pub upload_range_end : ℕ → ℕ
upload_range_end offset = max (offset - 1) 0

abbrev pub blob_created : Digest → Response
blob_created d = record (plain_response 201) { created = some d }

-- handleError, for the errors of uploads. The answer to a client that is gone is not modelled.
abbrev pub upload_error : UploadError → Response
upload_error unknown = error_response blob_upload_unknown
upload_error _ = plain_response 500

abbrev pub digest_error : Response
digest_error = error_response digest_invalid

abbrev pub session_response : ℕ → Session → Response
session_response status s = record (plain_response status) { upload = some (s.id, s.size) }

-- The response with the headers of the session at `p`.
abbrev pub with_session : ℕ → ℕ → Manager → Response
with_session status p m = elim (get_elem? m.objects p) [
  | none ↦ plain_response status
  | some s ↦ session_response status s
]

-- A method of the session at `p` that has a result besides.
unfoldable pub call {ℓ} : {A : Type ℓ} → (Session → Session × A) → ℕ → Manager → Manager × Option A
unfolding on_session
call f p m = elim (get_elem? m.objects p) [
  | none ↦ (m, none)
  | some s ↦ (on_session (λ x. (f x).0) p m, some (f s).1)
]

-- sess.Append(r.Body), without the size.
abbrev pub append_body : Request → Session → Session × Option UploadError
append_body r s = ((append r.entry r.exit r.body s).0, (append r.entry r.exit r.body s).2)

abbrev pub id_at : ℕ → Manager → Bytes
id_at p m = elim (get_elem? m.objects p) [ none ↦ [] | some s ↦ s.id ]

abbrev pub disk_at : ℕ → Manager → Option Bytes
disk_at p m = elim (get_elem? m.objects p) [ none ↦ none | some s ↦ s.disk ]

-- The session is dropped whatever Remove says.
abbrev pub discard_session : CloseIo → ℕ → Manager → Manager
discard_session io p m = (remove io (id_at p m) m).0

-- (*Spool).Remove on the file that the spool shares with the session at `p`.
unfoldable pub discard_spool : Bool → Spool → ℕ → Manager → Manager
unfolding on_session
discard_spool unlink_ok sp p m =
    on_session (λ s. record s { disk = (remove_spool unlink_ok s.disk sp).1 }) p m

abbrev pub discard : Request → Spool → ℕ → Manager → Manager
discard r sp p m = discard_spool r.unlink_ok sp p (discard_session r.close_io p m)

module _ {S : Type 0} (blobs : Blobs S) (sha256 : Bytes → Bytes) where
  abbrev pub reply : Manager → S → Response → Server S × Response
  reply m s response = (record { manager = m; state = s }, response)

  -- After the blob store's put.
  finish_put : Request → Bool → Spool → ℕ → Manager → S × Stored → Server S × Response
  finish_put r monolithic sp p m (s, stored d) = reply (discard r sp p m) s (blob_created d)
  finish_put r monolithic sp p m (s, refused) =
      reply (discard r sp p m) s (error_response blob_upload_invalid)
  finish_put r monolithic sp p m (s, broken) =
      if monolithic
      then reply (discard r sp p m) s (plain_response 500)
      else reply m s (plain_response 500)

  abbrev pub mismatch : Digest → Digest → Response
  mismatch want got = record digest_error { detail = mismatch_detail want got }

  -- Behind sess.Spool.
  finish_spool : Request → Digest → Bool → ℕ → Spool → Manager → S → Server S × Response
  unfolding finish_put
  finish_spool r want monolithic p sp m s =
      if not (bytes_eq sp.digest want)
      then reply (discard r sp p m) s (mismatch want sp.digest)
      else finish_put r monolithic sp p m (blobs.store_spool sp (disk_at p m) s)

  -- What sess.Spool returned.
  finish_called :
      Request → Digest → Bool → ℕ → S → Manager × Option (Outcome Spool) → Server S × Response
  unfolding finish_spool
  finish_called r want monolithic p s (m, none) = reply m s (plain_response 500)
  finish_called r want monolithic p s (m, some (bad e)) =
      if monolithic
      then reply (discard_session r.close_io p m) s (upload_error e)
      else reply m s (upload_error e)
  finish_called r want monolithic p s (m, some (good sp)) = finish_spool r want monolithic p sp m s

  unfoldable pub finalize : Request → Digest → Bool → ℕ → Server S → Server S × Response
  unfolding finish_called
  finalize r want monolithic p v =
      finish_called r want monolithic p v.state (call (spool sha256 r.now) p v.manager)

  -- What sess.Append returned, and the rest of the request.
  after_append :
      Request
      → Bool
      → ℕ
      → S
      → (Server S → Server S × Response)
      → Manager × Option (Option UploadError)
      → Server S × Response
  after_append r monolithic p s next (m, none) = reply m s (plain_response 500)
  after_append r monolithic p s next (m, some (some e)) =
      if monolithic
      then reply (discard_session r.close_io p m) s (upload_error e)
      else reply m s (upload_error e)
  after_append r monolithic p s next (m, some none) = next (record { manager = m; state = s })

  -- The body, appended to the session at `p`.
  append_then :
      Request → Bool → ℕ → Server S → (Server S → Server S × Response) → Server S × Response
  unfolding after_append
  append_then r monolithic p v next =
      after_append r monolithic p v.state next (call (append_body r) p v.manager)

  unfoldable pub create_session :
      Request → Server S → (ℕ → Server S → Server S × Response) → Server S × Response
  create_session r v next =
      let made = create r.new_id r.now v.manager in
      elim made.1 [
        | bad e ↦ reply made.0 v.state (upload_error e)
        | good p ↦ next p (record { manager = made.0; state = v.state })
      ]

  -- Behind the mount.
  start_new : Request → Server S → Server S × Response
  unfolding append_then
  start_new r v = elim r.digest [
    | none ↦ create_session r v (λ p u. (u, with_session 202 p u.manager))
    | some text ↦ elim (parse_digest text) [
      | err e ↦ (v, digest_error)
      | ok want ↦
          (let answer = blobs.reuse want v.state in
            elim answer.1 [
              | failed ↦ reply v.manager answer.0 (plain_response 500)
              | known ↦ reply v.manager answer.0 (blob_created want)
              | absent ↦
                  create_session r (record { manager = v.manager; state = answer.0 })
                    (λ p u. append_then r true p u (finalize r want true p))
            ])
    ]
  ]

  unfoldable pub start_upload : Request → Server S → Server S × Response
  unfolding start_new
  start_upload r v = if is_empty r.mount then start_new r v else elim (parse_digest r.mount) [
    | err e ↦ start_new r v
    | ok d ↦ elim (blobs.exists d v.state) [
      | failed ↦ (v, plain_response 500)
      | known ↦ (v, blob_created d)
      | absent ↦ start_new r v
    ]
  ]

  -- The session of a request, touched.
  after_get : S → (ℕ → Server S → Server S × Response) → Manager × Outcome ℕ → Server S × Response
  after_get s next (m, bad e) = reply m s (upload_error e)
  after_get s next (m, good p) = next p (record { manager = m; state = s })

  with_id : Bytes → Request → Server S → (ℕ → Server S → Server S × Response) → Server S × Response
  unfolding after_get
  with_id id r v next = after_get v.state next (get id r.now v.manager)

  abbrev pub offset_at : ℕ → Manager → ℕ
  offset_at p m = elim (get_elem? m.objects p) [ none ↦ 0 | some s ↦ s.size ]

  patch_body : Request → ℕ → Server S → Server S × Response
  unfolding append_then
  patch_body r p v = append_then r false p v (λ u. (u, with_session 202 p u.manager))

  patch_range : Request → ℕ → Server S → Option (ℕ × ℕ) → Server S × Response
  unfolding patch_body
  patch_range r p v none = (v, error_response blob_upload_invalid)
  patch_range r p v (some (start, end)) =
      if start == offset_at p v.manager
      then patch_body r p v
      else (v, record (with_session 416 p v.manager) { code = some blob_upload_invalid })

  patch_session : Request → ℕ → Server S → Server S × Response
  unfolding patch_range
  patch_session r p v =
      if is_empty r.content_range
      then patch_body r p v
      else patch_range r p v (parse_content_range r.content_range)

  unfoldable pub patch_upload : Bytes → Request → Server S → Server S × Response
  unfolding with_id patch_session
  patch_upload id r v = with_id id r v (patch_session r)

  put_body : Request → Digest → ℕ → Server S → Server S × Response
  unfolding append_then
  put_body r want p v = append_then r false p v (finalize r want false p)

  -- What knownBlob returned for a PUT.
  put_known : Request → Digest → ℕ → Manager → S × Known → Server S × Response
  unfolding put_body
  put_known r want p m (s, failed) = reply m s (plain_response 500)
  put_known r want p m (s, known) = reply (discard_session r.close_io p m) s (blob_created want)
  put_known r want p m (s, absent) = put_body r want p (record { manager = m; state = s })

  put_digest : Request → ℕ → Server S → Result Digest → Server S × Response
  unfolding put_known
  put_digest r p v (err e) = (v, digest_error)
  put_digest r p v (ok want) = put_known r want p v.manager (blobs.reuse want v.state)

  put_text : Request → ℕ → Server S → Option Bytes → Server S × Response
  unfolding put_digest
  put_text r p v none = (v, digest_error)
  put_text r p v (some text) =
      if is_empty text then (v, digest_error) else put_digest r p v (parse_digest text)

  unfoldable pub put_upload : Bytes → Request → Server S → Server S × Response
  unfolding with_id put_text
  put_upload id r v = with_id id r v (λ p u. put_text r p u r.digest)

  unfoldable pub upload_status : Bytes → Request → Server S → Server S × Response
  unfolding with_id
  upload_status id r v = with_id id r v (λ p u. (u, with_session 204 p u.manager))

  unfoldable pub cancel_upload : Bytes → Request → Server S → Server S × Response
  cancel_upload id r v =
      let removed = remove r.close_io id v.manager in
      elim removed.1 [
        | none ↦ reply removed.0 v.state (plain_response 204)
        | some e ↦ reply removed.0 v.state (upload_error e)
      ]
