-- ===== src/Registry/Uploads/Finish.antt =====
-- The end of an upload, from the last request to the blob store.
use oci_amber.Prelude.{
  ℕ, ◌==◌, ◌≡◌, ◌≢◌, refl, sym, ap, ◌∙◌, subst, Bool, true, false, Option, none, some, ◌++◌,
  append-nil, arith, get_elem?, get_elem?-update, get_elem?-lt, if◌then◌else◌,
}
use oci_amber.Prelude.Text.{Bytes, bytes_eq}
use oci_amber.Prelude.Text.Laws.{bytes_eq_iff}
use oci_amber.Prelude.Assoc.{lookup}
use oci_amber.Oci.Errors.{ok, blob_upload_invalid}
use oci_amber.Oci.Digest.{Digest, parse_digest, is_empty, digest_of_bytes}
use oci_amber.Upload.Session.{Session, Body, touch, append}
use oci_amber.Upload.Session.Contents.{IsValid, touch-IsValid}
use oci_amber.Upload.Session.Append.{received, is_none, append-open}
use oci_amber.Upload.Session.Same.{append-path}
use oci_amber.Upload.Spool.{good, Spool, spool, open_spool}
use oci_amber.Upload.Spool.Snapshot.{spool_snapshot}
use oci_amber.Upload.Manager.{Manager, get, on_session}
use oci_amber.Registry.Uploads.{
  Blobs, Server, Request, Response, known, absent, Stored, stored, refused, broken, call,
  append_body, finish_called, after_append, after_get, put_known, put_digest, put_text, patch_range,
  patch_session, append_then, discard, reply, finish_put, finish_spool, mismatch, finalize,
  put_upload, put_body, patch_upload, patch_body, with_id, with_session, session_response,
  offset_at, digest_error, discard_session, blob_created, disk_at, error_response, plain_response,
}
use oci_amber.Registry.Uploads.Range.{parse_content_range}

-- The session at a pointer after one of its methods.
on_session-at :
    (f : Session → Session) (p : ℕ) (m : Manager) (s : Session)
    → get_elem? m.objects p ≡ some s
    → get_elem? (on_session f p m).objects p ≡ some (f s)
unfolding on_session
on_session-at f p m s e =
    ground (arith, get_elem?-update m.objects p p (f s), get_elem?-lt m.objects p e)

get-some :
    (id : Bytes) (now p : ℕ) (m : Manager)
    → lookup id m.sessions ≡ some p
    → get id now m ≡ (on_session (touch now) p m, good p)
unfolding get
get-some id now p m e = ground arith

spool-disk : (sha256 : Bytes → Bytes) (now : ℕ) (s : Session) → (spool sha256 now s).0.disk ≡ s.disk
unfolding spool
spool-disk sha256 now s = ground arith

call-some :
    {A : Type 0} (f : Session → Session × A) (p : ℕ) (m : Manager) (s : Session)
    → get_elem? m.objects p ≡ some s
    → call f p m ≡ (on_session (λ x. (f x).0) p m, some (f s).1)
unfolding call
call-some f p m s e = rw (call, e) refl

module _ {S : Type 0} (blobs : Blobs S) (sha256 : Bytes → Bytes) where
  -- What the client and the blob store see when the bytes `w` were uploaded for the digest `want`,
  -- with the store in state `s`. Content with another digest is refused, with both digests in the
  -- answer, and does not reach the store. Otherwise the store is given a spool of that digest from
  -- which exactly those bytes are read, and its answer decides.
  pub record Finished (w : Bytes) (want : Digest) (s : S) (result : Server S × Response)
      : Type 0 where
    pub wrong :
        digest_of_bytes sha256 w ≢ want
        → (result.1 ≡ mismatch blobs sha256 want (digest_of_bytes sha256 w)) × (result.0.state ≡ s)
    pub right :
        digest_of_bytes sha256 w ≡ want
        → (sp : Spool) × (disk : Option Bytes) × (sp.digest ≡ want)
          × (open_spool disk sp ≡ good w)
          × (result.0.state ≡ (blobs.store_spool sp disk s).0)
          × ((d : Digest) → (blobs.store_spool sp disk s).1 ≡ stored d → result.1 ≡ blob_created d)
          × ((blobs.store_spool sp disk s).1 ≡ refused
              → result.1 ≡ error_response blob_upload_invalid)
          × ((blobs.store_spool sp disk s).1 ≡ broken → result.1 ≡ plain_response 500)

  finish_put-state :
      (r : Request) (mono : Bool) (sp : Spool) (p : ℕ) (m : Manager) (a : S × Stored)
      → (finish_put blobs sha256 r mono sp p m a).0.state ≡ a.0
  unfolding finish_put
  finish_put-state r mono sp p m (s, stored d) = refl
  finish_put-state r mono sp p m (s, refused) = refl
  finish_put-state r true sp p m (s, broken) = refl
  finish_put-state r false sp p m (s, broken) = refl

  finish_put-stored :
      (r : Request) (mono : Bool) (sp : Spool) (p : ℕ) (m : Manager) (a : S × Stored) (d : Digest)
      → a.1 ≡ stored d
      → (finish_put blobs sha256 r mono sp p m a).1 ≡ blob_created d
  unfolding finish_put
  finish_put-stored r mono sp p m (s, stored c) d e =
      ap
        (λ x. elim x [
          | stored y ↦ blob_created y
          | refused ↦ blob_created c
          | broken ↦ blob_created c
        ])
        e
  finish_put-stored r mono sp p m (s, refused) d e = cc
  finish_put-stored r mono sp p m (s, broken) d e = cc

  finish_put-refused :
      (r : Request) (mono : Bool) (sp : Spool) (p : ℕ) (m : Manager) (a : S × Stored)
      → a.1 ≡ refused
      → (finish_put blobs sha256 r mono sp p m a).1 ≡ error_response blob_upload_invalid
  unfolding finish_put
  finish_put-refused r mono sp p m (s, stored c) e = cc
  finish_put-refused r mono sp p m (s, refused) e = refl
  finish_put-refused r mono sp p m (s, broken) e = cc

  finish_put-broken :
      (r : Request) (mono : Bool) (sp : Spool) (p : ℕ) (m : Manager) (a : S × Stored)
      → a.1 ≡ broken
      → (finish_put blobs sha256 r mono sp p m a).1 ≡ plain_response 500
  unfolding finish_put
  finish_put-broken r mono sp p m (s, stored c) e = cc
  finish_put-broken r mono sp p m (s, refused) e = cc
  finish_put-broken r true sp p m (s, broken) e = refl
  finish_put-broken r false sp p m (s, broken) e = refl

  finish_spool-wrong :
      (r : Request) (want : Digest) (mono : Bool) (p : ℕ) (sp : Spool) (m : Manager) (s : S)
      → sp.digest ≢ want
      → finish_spool blobs sha256 r want mono p sp m s
        ≡ reply blobs sha256 (discard r sp p m) s (mismatch blobs sha256 want sp.digest)
  unfolding finish_spool
  finish_spool-wrong r want mono p sp m s n =
      let e : bytes_eq sp.digest want ≡ false = ground (arith, bytes_eq_iff sp.digest want) in
      rw e refl

  finish_spool-right :
      (r : Request) (want : Digest) (mono : Bool) (p : ℕ) (sp : Spool) (m : Manager) (s : S)
      → sp.digest ≡ want
      → finish_spool blobs sha256 r want mono p sp m s
        ≡ finish_put blobs sha256 r mono sp p m (blobs.store_spool sp (disk_at p m) s)
  unfolding finish_spool
  finish_spool-right r want mono p sp m s n =
      let e : bytes_eq sp.digest want ≡ true = (bytes_eq_iff sp.digest want).1 n in rw e refl

  finish_spool-Finished :
      (r : Request) (want : Digest) (mono : Bool) (p : ℕ) (sp : Spool) (m : Manager) (s : S)
      (w : Bytes)
      → sp.digest ≡ digest_of_bytes sha256 w
      → open_spool (disk_at p m) sp ≡ good w
      → Finished w want s (finish_spool blobs sha256 r want mono p sp m s)
  finish_spool-Finished r want mono p sp m s w d o = record {
    wrong = λ n.
        let e = finish_spool-wrong r want mono p sp m s (λ h. n (sym d ∙ h)) in
        (ap (λ x. x.1) e ∙ ap (mismatch blobs sha256 want) d, ap (λ x. x.0.state) e);
    right = λ h.
        let e = finish_spool-right r want mono p sp m s (d ∙ h) in
        let a = blobs.store_spool sp (disk_at p m) s in
        (
          sp,
          disk_at p m,
          d ∙ h,
          o,
          ap (λ x. x.0.state) e ∙ finish_put-state r mono sp p m a,
          λ c k. ap (λ x. x.1) e ∙ finish_put-stored r mono sp p m a c k,
          λ k. ap (λ x. x.1) e ∙ finish_put-refused r mono sp p m a k,
          λ k. ap (λ x. x.1) e ∙ finish_put-broken r mono sp p m a k,
        );
  }

  finalize-good :
      (r : Request) (want : Digest) (mono : Bool) (p : ℕ) (v : Server S) (s : Session) (sp : Spool)
      → get_elem? v.manager.objects p ≡ some s
      → (spool sha256 r.now s).1 ≡ good sp
      → finalize blobs sha256 r want mono p v
        ≡ finish_spool blobs sha256 r want mono p sp
            (on_session (λ x. (spool sha256 r.now x).0) p v.manager)
            v.state
  unfolding finalize finish_called
  finalize-good r want mono p v s sp g e = ap (finish_called blobs sha256 r want mono p v.state) (
      call-some (spool sha256 r.now) p v.manager s g
      ∙ ap (λ x. (on_session (λ y. (spool sha256 r.now y).0) p v.manager, some x)) e)

  -- Finalizing a session that is open.
  pub finalize-Finished :
      (r : Request) (want : Digest) (mono : Bool) (p : ℕ) (v : Server S) (s : Session)
      → get_elem? v.manager.objects p ≡ some s
      → IsValid s
      → s.closed ≡ false
      → is_empty s.path ≡ false
      → Finished s.hash want v.state (finalize blobs sha256 r want mono p v)
  finalize-Finished r want mono p v s g k o named =
      let (sp, e, d, reads, later) = spool_snapshot sha256 r.now 0 0 r.body s k o named in
      let m = on_session (λ x. (spool sha256 r.now x).0) p v.manager in
      let there = on_session-at (λ x. (spool sha256 r.now x).0) p v.manager s g in
      let disk : disk_at p m ≡ s.disk =
        ap (λ x. elim x [ none ↦ none | some y ↦ y.disk ]) there ∙ spool-disk sha256 r.now s in
      subst (Finished s.hash want v.state) (sym (finalize-good r want mono p v s sp g e)) (
        finish_spool-Finished r want mono p sp m v.state s.hash d
          (ap (λ x. open_spool x sp) disk ∙ reads))

  append_then-done :
      (r : Request) (mono : Bool) (p : ℕ) (v : Server S) (s : Session)
      (next : Server S → Server S × Response)
      → get_elem? v.manager.objects p ≡ some s
      → (append r.entry r.exit r.body s).2 ≡ none
      → append_then blobs sha256 r mono p v next
        ≡ next (record {
          manager = on_session (λ x. (append_body r x).0) p v.manager;
          state = v.state;
        })
  unfolding append_then after_append
  append_then-done r mono p v s next g e = ap (after_append blobs sha256 r mono p v.state next) (
      call-some (append_body r) p v.manager s g
      ∙ ap (λ x. (on_session (λ y. (append_body r y).0) p v.manager, some x)) e)

  -- The body of a PUT, appended to a session that is open, and its end.
  put_body-Finished :
      (r : Request) (want : Digest) (p : ℕ) (v : Server S) (s : Session)
      → get_elem? v.manager.objects p ≡ some s
      → IsValid s
      → s.closed ≡ false
      → is_empty s.path ≡ false
      → (append r.entry r.exit r.body s).2 ≡ none
      → Finished (s.hash ++ received r.body.chunks) want v.state (put_body blobs sha256 r want p v)
  unfolding put_body
  put_body-Finished r want p v s g k o named e =
      let u : Server S = record {
        manager = on_session (λ x. (append_body r x).0) p v.manager;
        state = v.state;
      } in
      let t = (append r.entry r.exit r.body s).0 in
      let (got, sized) = append-open r.entry r.exit r.body s k o in
      let whole : t.hash ≡ s.hash ++ received r.body.chunks =
        got.hash
        ∙ ap (λ x. s.hash ++ x)
            (sym (append-nil got.taken)
              ∙ ap (λ x. got.taken ++ x) (sym (got.all (ap is_none e)))
              ∙ sym got.parts) in
      subst (λ x. Finished x want v.state (put_body blobs sha256 r want p v)) whole
        (subst (Finished t.hash want v.state)
          (sym (append_then-done r false p v s (finalize blobs sha256 r want false p) g e))
          (finalize-Finished r want false p u t
            (on_session-at (λ x. (append_body r x).0) p v.manager s g) got.valid (got.closed ∙ o)
            (ap is_empty (append-path r.entry r.exit r.body s) ∙ named)))

  put_upload-body :
      (id : Bytes) (r : Request) (v : Server S) (p : ℕ) (text : Bytes) (want : Digest) (t : S)
      → lookup id v.manager.sessions ≡ some p
      → r.digest ≡ some text
      → is_empty text ≡ false
      → parse_digest text ≡ ok want
      → blobs.reuse want v.state ≡ (t, absent)
      → put_upload blobs sha256 id r v
        ≡ put_body blobs sha256 r want p
            (record { manager = on_session (touch r.now) p v.manager; state = t })
  unfolding put_upload with_id after_get put_text put_digest put_known
  put_upload-body id r v p text want t known_id d n parsed new =
      let m = on_session (touch r.now) p v.manager in
      let u : Server S = record { manager = m; state = v.state } in
      ap (after_get blobs sha256 v.state (λ q x. put_text blobs sha256 r q x r.digest))
        (get-some id r.now p v.manager known_id)
      ∙ ap (put_text blobs sha256 r p u) d
      ∙ ap (λ b. if b then (u, digest_error) else put_digest blobs sha256 r p u (parse_digest text))
          n
      ∙ ap (put_digest blobs sha256 r p u) parsed
      ∙ ap (put_known blobs sha256 r want p m) new

  -- A PUT that ends an upload, with a valid digest that is not stored yet, for a registered session
  -- that is open, valid and has a path, and whose append reports no error: the body is appended to
  -- what the session received before. If the digest of all of it is not the one asked for, the answer
  -- is DIGEST_INVALID with both digests, and the store is not asked. Otherwise the store gets a spool
  -- of that digest that reads as exactly those bytes, and the answer is 201 with the digest of what
  -- was stored, BLOB_UPLOAD_INVALID if the store refuses to keep the blob raw, or 500 if it fails.
  pub put_upload-Finished :
      (id : Bytes) (r : Request) (v : Server S) (p : ℕ) (s : Session) (text : Bytes) (want : Digest)
      (t : S)
      → lookup id v.manager.sessions ≡ some p
      → get_elem? v.manager.objects p ≡ some s
      → IsValid s
      → s.closed ≡ false
      → is_empty s.path ≡ false
      → r.digest ≡ some text
      → is_empty text ≡ false
      → parse_digest text ≡ ok want
      → blobs.reuse want v.state ≡ (t, absent)
      → (append r.entry r.exit r.body (touch r.now s)).2 ≡ none
      → Finished (s.hash ++ received r.body.chunks) want t (put_upload blobs sha256 id r v)
  put_upload-Finished id r v p s text want t known_id g k o named d n parsed new done =
      let u : Server S = record { manager = on_session (touch r.now) p v.manager; state = t } in
      subst (Finished (s.hash ++ received r.body.chunks) want t)
        (sym (put_upload-body id r v p text want t known_id d n parsed new))
        (put_body-Finished r want p u (touch r.now s) (on_session-at (touch r.now) p v.manager s g)
          (touch-IsValid r.now s k) o named done)

  put_upload-known_body :
      (id : Bytes) (r : Request) (v : Server S) (p : ℕ) (text : Bytes) (want : Digest) (t : S)
      → lookup id v.manager.sessions ≡ some p
      → r.digest ≡ some text
      → is_empty text ≡ false
      → parse_digest text ≡ ok want
      → blobs.reuse want v.state ≡ (t, known)
      → put_upload blobs sha256 id r v
        ≡ reply blobs sha256
            (discard_session r.close_io p (on_session (touch r.now) p v.manager))
            t
            (blob_created want)
  unfolding put_upload with_id after_get put_text put_digest put_known
  put_upload-known_body id r v p text want t known_id d n parsed new =
      let m = on_session (touch r.now) p v.manager in
      let u : Server S = record { manager = m; state = v.state } in
      ap (after_get blobs sha256 v.state (λ q x. put_text blobs sha256 r q x r.digest))
        (get-some id r.now p v.manager known_id)
      ∙ ap (put_text blobs sha256 r p u) d
      ∙ ap (λ b. if b then (u, digest_error) else put_digest blobs sha256 r p u (parse_digest text))
          n
      ∙ ap (put_digest blobs sha256 r p u) parsed
      ∙ ap (put_known blobs sha256 r want p m) new

  -- A PUT for a digest that is stored already is answered 201 whatever its body is: the body is not
  -- read, and two requests that differ in it alone have the same outcome.
  pub put_upload-unread :
      (id : Bytes) (r : Request) (other : Body) (v : Server S) (p : ℕ) (text : Bytes)
      (want : Digest) (t : S)
      → lookup id v.manager.sessions ≡ some p
      → r.digest ≡ some text
      → is_empty text ≡ false
      → parse_digest text ≡ ok want
      → blobs.reuse want v.state ≡ (t, known)
      → (put_upload blobs sha256 id r v ≡ put_upload blobs sha256 id (record r { body = other }) v)
        × ((put_upload blobs sha256 id r v).1 ≡ blob_created want)
  put_upload-unread id r other v p text want t known_id d n parsed new =
      let e = put_upload-known_body id r v p text want t known_id d n parsed new in
      (
        e
            ∙ sym (
                put_upload-known_body id (record r { body = other }) v p text want t known_id d n
                  parsed new),
        ap (λ x. x.1) e,
      )

  -- A PATCH whose Content-Range does not start at the session's offset is answered 416 with the
  -- session's headers, and the session keeps what it has: it is only touched.
  pub patch_upload-range :
      (id : Bytes) (r : Request) (v : Server S) (p start end : ℕ) (s : Session)
      → lookup id v.manager.sessions ≡ some p
      → get_elem? v.manager.objects p ≡ some s
      → is_empty r.content_range ≡ false
      → parse_content_range r.content_range ≡ some (start, end)
      → start ≢ s.size
      → ((patch_upload blobs sha256 id r v).1.status ≡ 416)
        × ((patch_upload blobs sha256 id r v).1.upload ≡ some (s.id, s.size))
        × (get_elem? (patch_upload blobs sha256 id r v).0.manager.objects p ≡ some (touch r.now s))
  unfolding patch_upload with_id after_get patch_session patch_range
  patch_upload-range id r v p start end s known_id g n parsed wrong =
      let m = on_session (touch r.now) p v.manager in
      let u : Server S = record { manager = m; state = v.state } in
      let there = on_session-at (touch r.now) p v.manager s g in
      let size : offset_at blobs sha256 p m ≡ s.size =
        ap (λ o. elim o [ none ↦ 0 | some x ↦ x.size ]) there in
      let off : (start == offset_at blobs sha256 p m) ≡ false =
        ap (λ x. start == x) size ∙ ground arith in
      let shown : with_session 416 p m ≡ session_response 416 (touch r.now s) =
        ap (λ o. elim o [ none ↦ plain_response 416 | some x ↦ session_response 416 x ]) there in
      let e : patch_upload blobs sha256 id r v
          ≡ (u, record (with_session 416 p m) { code = some blob_upload_invalid }) =
        ap (after_get blobs sha256 v.state (patch_session blobs sha256 r))
          (get-some id r.now p v.manager known_id)
        ∙ ap
            (λ b.
              if b
              then patch_body blobs sha256 r p u
              else patch_range blobs sha256 r p u (parse_content_range r.content_range))
            n
        ∙ ap (patch_range blobs sha256 r p u) parsed
        ∙ ap
            (λ b.
              if b
              then patch_body blobs sha256 r p u
              else (u, record (with_session 416 p m) { code = some blob_upload_invalid }))
            off in
      (
        ap (λ x. x.1.status) e ∙ ap (λ x. x.status) shown,
        ap (λ x. x.1.upload) e ∙ ap (λ x. x.upload) shown,
        ap (λ x. get_elem? x.0.manager.objects p) e ∙ there,
      )
