-- ===== src/Image/Put/Published.antt =====
-- Which references a push leaves behind: all of its own when it succeeds, and when it fails none, unless
-- the manifest reference was already there.
use oci_amber.Prelude.{
  ◌≡◌, ◌⊎◌, refl, sym, ap, ◌∙◌, subst, inl, inr, Bool, true, ◌||◌, Bool-cases, Option, some, List,
  [], ◌∷◌, ◌++◌, arith, if◌then◌else◌,
}
use oci_amber.Prelude.Text.{Bytes, bytes_eq}
use oci_amber.Oci.Errors.{is_ok, ok}
use oci_amber.Oci.Names.{validate_repository}
use oci_amber.Oci.Digest.{digest_of_bytes}
use oci_amber.Oci.Manifest.{Manifest, parse_manifest}
use oci_amber.Store.{Key, Keys}
use oci_amber.Store.Dir.{DirEntry, finish}
use oci_amber.Store.Refs.{RefStore}
use oci_amber.Store.Refs.Laws.{RefLaws, target}
use oci_amber.Image.Refs.{manifest_ref}
use oci_amber.Image.Meta.{ImageStats, ImageMeta}
use oci_amber.Image.Store.{Objects, Got, got, lost, ImageError, internal, or_internal}
use oci_amber.Image.Stats.{compute_stats}
use oci_amber.Image.Put.{
  PushIo, Images, Pass, check_put, root_dir, first_pass, second_pass, publish_refs, publish_root,
  with_stats, put_passed, put_checked, put_image, first_meta,
}
use oci_amber.Image.Put.Steps.{
  >>=-eq-got, or_internal-eq-got, finish-built, publish_refs-target, publish_refs-failed,
  lost_injective, got_injective, check_put-parts, check_put_valid, tag_of, is_tag, is_referrer,
}

module _ (keys : Keys) (o : Objects) {S : Type 0} (refs : RefStore S) (sha256 : Bytes → Bytes)
    (unmarshal : Bytes → Option Manifest) (io : PushIo) (repo reference content_type body : Bytes)
    (st : Images S) where
  -- A push that got as far as the references, with result r.
  pub record Reached (r : Images S × Got ImageMeta) : Type 0 where
    pub tag : Option Bytes
    pub manifest : Manifest
    pub pass : Pass
    pub meta : ImageMeta
    pub root : Key
    pub checked :
        check_put unmarshal io repo reference body (digest_of_bytes sha256 body)
        ≡ got (tag, manifest)
    pub passed :
        first_pass keys o refs io repo (digest_of_bytes sha256 body) manifest body st.state
        ≡ got pass
    pub digest : meta.digest ≡ digest_of_bytes sha256 body
    pub subject : meta.subject ≡ manifest.subject
    pub rooted : second_pass keys o refs io meta pass ≡ got root
    pub state :
        r.0.state ≡ (publish_refs refs io.refs repo tag meta.subject meta.digest root st.state).0
    pub result : r.1 ≡ (
        if (publish_refs refs io.refs repo tag meta.subject meta.digest root st.state).1
        then got meta
        else lost internal)

  -- A push that was refused before it.
  abbrev pub Refused : Images S × Got ImageMeta → Type 0
  Refused r = (e : ImageError) × (r.0.state ≡ st.state) × (r.1 ≡ lost e)

  publish_root-Reached :
      (tag : Option Bytes) (m : Manifest) (p : Pass) (meta : ImageMeta) (b : Images S) (g : Got Key)
      → check_put unmarshal io repo reference body (digest_of_bytes sha256 body) ≡ got (tag, m)
      → first_pass keys o refs io repo (digest_of_bytes sha256 body) m body st.state ≡ got p
      → meta.digest ≡ digest_of_bytes sha256 body
      → meta.subject ≡ m.subject
      → b.state ≡ st.state
      → second_pass keys o refs io meta p ≡ g
      → Refused (publish_root keys o refs io repo tag meta b g)
        ⊎ Reached (publish_root keys o refs io repo tag meta b g)
  unfolding publish_root
  publish_root-Reached tag m p meta b (lost e) c f d s k h = inl (e, k, refl)
  publish_root-Reached tag m p meta b (got root) c f d s k h = inr record {
    tag = tag;
    manifest = m;
    pass = p;
    meta = meta;
    root = root;
    checked = c;
    passed = f;
    digest = d;
    subject = s;
    rooted = h;
    state = ap (λ x. (publish_refs refs io.refs repo tag meta.subject meta.digest root x).0) k;
    result =
        ap
          (λ x.
            if (publish_refs refs io.refs repo tag meta.subject meta.digest root x).1
            then got meta
            else lost internal)
          k;
  }

  with_stats-Reached :
      (tag : Option Bytes) (m : Manifest) (p : Pass) (meta : ImageMeta) (b : Images S)
      (g : Got ImageStats)
      → check_put unmarshal io repo reference body (digest_of_bytes sha256 body) ≡ got (tag, m)
      → first_pass keys o refs io repo (digest_of_bytes sha256 body) m body st.state ≡ got p
      → meta.digest ≡ digest_of_bytes sha256 body
      → meta.subject ≡ m.subject
      → b.state ≡ st.state
      → Refused (with_stats keys o refs io repo tag meta p b g)
        ⊎ Reached (with_stats keys o refs io repo tag meta p b g)
  unfolding with_stats
  with_stats-Reached tag m p meta b (lost e) c f d s k = inl (e, k, refl)
  with_stats-Reached tag m p meta b (got stats) c f d s k =
      let full : ImageMeta = record meta { stats = stats } in
      publish_root-Reached tag m p full b (second_pass keys o refs io full p) c f d s k refl

  put_passed-Reached :
      (tag : Option Bytes) (m : Manifest) (g : Got Pass)
      → check_put unmarshal io repo reference body (digest_of_bytes sha256 body) ≡ got (tag, m)
      → first_pass keys o refs io repo (digest_of_bytes sha256 body) m body st.state ≡ g
      → Refused (
          put_passed keys o refs io repo content_type body (digest_of_bytes sha256 body) tag m st g)
        ⊎ Reached (
            put_passed keys o refs io repo content_type body
              (digest_of_bytes sha256 body)
              tag
              m
              st
              g)
  unfolding put_passed
  put_passed-Reached tag m (lost e) c f = inl (e, refl, refl)
  put_passed-Reached tag m (got p) c f =
      let r =
        compute_stats o refs io.live_later io.now io.refs repo m body p.own st.state st.blobs in
      with_stats-Reached tag m p
        (first_meta io content_type (digest_of_bytes sha256 body) body m p.info)
        (record st { blobs = r.0 }) r.1 c f refl refl refl

  put_checked-Reached :
      (g : Got (Option Bytes × Manifest))
      → check_put unmarshal io repo reference body (digest_of_bytes sha256 body) ≡ g
      → Refused
          (put_checked keys o refs io repo content_type body (digest_of_bytes sha256 body) st g)
        ⊎ Reached
            (put_checked keys o refs io repo content_type body (digest_of_bytes sha256 body) st g)
  unfolding put_checked
  put_checked-Reached (lost e) c = inl (e, refl, refl)
  put_checked-Reached (got (tag, m)) c =
      put_passed-Reached tag m
        (first_pass keys o refs io repo (digest_of_bytes sha256 body) m body st.state) c refl

  pub put_image-Reached :
      Refused (put_image keys o refs sha256 unmarshal io repo reference content_type body st)
      ⊎ Reached (put_image keys o refs sha256 unmarshal io repo reference content_type body st)
  unfolding put_image
  put_image-Reached =
      put_checked-Reached (check_put unmarshal io repo reference body (digest_of_bytes sha256 body))
        refl

  -- A push that succeeds named a valid repository.
  pub put_image_valid :
      (t : Images S) (meta : ImageMeta)
      → put_image keys o refs sha256 unmarshal io repo reference content_type body st
        ≡ (t, got meta)
      → is_ok (validate_repository repo) ≡ true
  put_image_valid t meta h = elim put_image-Reached [
    | inl (e, k, f) ↦ absurd (cc (ap (λ x. x.1) h, f))
    | inr r ↦
        check_put_valid unmarshal io repo reference body (digest_of_bytes sha256 body)
          (r.tag, r.manifest) r.checked
  ]

  -- The root of a push is a key of the directory builder.
  second_pass-built :
      (meta : ImageMeta) (p : Pass) (root : Key)
      → second_pass keys o refs io meta p ≡ got root
      → (es : List DirEntry) × (io.build es ≡ some root)
  unfolding second_pass
  second_pass-built meta p root h =
      let (encoded, a, h1) = >>=-eq-got (or_internal (io.marshal_meta meta)) _ h in
      let (k, b, h2) = >>=-eq-got (or_internal (io.stored (encoded ++ 10 ∷ []))) _ h1 in
      let (d, c, h3) = >>=-eq-got (root_dir keys io p.blobs p.manifest p.manifests k p.tree) _ h2 in
      let (root', e, h4) = >>=-eq-got (or_internal ((finish io.build d).1)) _ h3 in
      let same : root' ≡ root = ground arith in
      finish-built io.build d root (or_internal-eq-got (finish io.build d).1 e ∙ ap some same)

  -- The root of this push: what the second pass builds from the first pass over the body, for a
  -- meta.json with the digest of the body.
  abbrev pub IsNewRoot : Key → Type 0
  IsNewRoot root =
      (m : Manifest) × (p : Pass) × (meta : ImageMeta) × (meta.digest ≡ digest_of_bytes sha256 body)
      × (parse_manifest unmarshal body ≡ ok m)
      × (first_pass keys o refs io repo (digest_of_bytes sha256 body) m body st.state ≡ got p)
      × (second_pass keys o refs io meta p ≡ got root)

  module _ (laws : RefLaws refs)
      (fresh : (es : List DirEntry) (k : Key) → io.build es ≡ some k → refs.parse k ≡ some k) where
    result-if :
        {x : Images S × Got ImageMeta} {b : Bool} (r : Reached x)
        → (publish_refs refs io.refs repo r.tag r.meta.subject r.meta.digest r.root st.state).1 ≡ b
        → x.1 ≡ (if b then got r.meta else lost internal)
    result-if r f = r.result ∙ ap (λ b. if b then got r.meta else lost internal) f

    Reached-fresh : {x : Images S × Got ImageMeta} (r : Reached x) → refs.parse r.root ≡ some r.root
    Reached-fresh r =
        let (es, h) = second_pass-built r.meta r.pass r.root r.rooted in fresh es r.root h

    -- What a push with this meta.json leaves behind.
    abbrev Leaves : Images S → ImageMeta → Type 0
    Leaves t meta =
        (root : Key) × (meta.digest ≡ digest_of_bytes sha256 body)
        × ((n : Bytes)
            → target refs n t.state ≡ (
                if bytes_eq (manifest_ref repo meta.digest) n
                  || is_tag repo (tag_of reference) n
                  || is_referrer repo meta.subject meta.digest n
                then some root
                else target refs n st.state))

    Reached-Leaves :
        {x : Images S × Got ImageMeta} (t : Images S) (r : Reached x)
        → (publish_refs refs io.refs repo r.tag r.meta.subject r.meta.digest r.root st.state).1
          ≡ true
        → x.0.state ≡ t.state
        → Leaves t r.meta
    Reached-Leaves t r f h = (
      r.root,
      r.digest,
      λ n.
          ap (target refs n) (sym h ∙ r.state)
          ∙ publish_refs-target refs laws io.refs repo r.meta.digest r.root (Reached-fresh r) r.tag
              r.meta.subject n st.state f
          ∙ ap
              (λ tag.
                if bytes_eq (manifest_ref repo r.meta.digest) n
                  || is_tag repo tag n
                  || is_referrer repo r.meta.subject r.meta.digest n
                then some r.root
                else target refs n st.state)
              (check_put-parts unmarshal io repo reference body (digest_of_bytes sha256 body) r.tag
                r.manifest r.checked).0,
    )

    -- A push that succeeds returns a meta.json with the digest of the body, and leaves one root
    -- under the manifest reference, under the tag if it was pushed by one and under the referrer
    -- reference if the manifest has a subject; every other name is as it was. The keys that the directory
    -- builder makes must parse.
    pub put_image-published :
        (t : Images S) (meta : ImageMeta)
        → put_image keys o refs sha256 unmarshal io repo reference content_type body st
          ≡ (t, got meta)
        → (root : Key) × (meta.digest ≡ digest_of_bytes sha256 body)
          × ((n : Bytes)
              → target refs n t.state ≡ (
                  if bytes_eq (manifest_ref repo meta.digest) n
                    || is_tag repo (tag_of reference) n
                    || is_referrer repo meta.subject meta.digest n
                  then some root
                  else target refs n st.state))
    put_image-published t meta h = elim put_image-Reached [
      | inl (e, k, f) ↦ absurd (cc (ap (λ x. x.1) h, f))
      | inr r ↦
          elim (Bool-cases
            (publish_refs refs io.refs repo r.tag r.meta.subject r.meta.digest r.root st.state).1) [
              | inl f ↦
                  subst (Leaves t) (got_injective (sym (result-if r f) ∙ ap (λ x. x.1) h))
                    (Reached-Leaves t r f (ap (λ x. x.0.state) h))
              | inr f ↦ absurd (cc (result-if r f, ap (λ x. x.1) h))
            ]
    ]

    -- A push that fails leaves every reference as it was, or it failed for an internal reason and the
    -- manifest reference already points at the root that this push built: the one that its second pass
    -- gives for what its first pass made of the body. The keys that the directory builder makes must
    -- parse.
    pub put_image-failed :
        (t : Images S) (e : ImageError)
        → put_image keys o refs sha256 unmarshal io repo reference content_type body st
          ≡ (t, lost e)
        → (t.state ≡ st.state)
          ⊎ ((root : Key) × (e ≡ internal)
              × IsNewRoot root
              × (target refs (manifest_ref repo (digest_of_bytes sha256 body)) t.state ≡ some root))
    put_image-failed t e h = elim put_image-Reached [
      | inl (e', k, f) ↦ inl (ap (λ x. x.0.state) (sym h) ∙ k)
      | inr r ↦
          elim (Bool-cases
            (publish_refs refs io.refs repo r.tag r.meta.subject r.meta.digest r.root st.state).1) [
              | inl f ↦ absurd (cc (result-if r f, ap (λ x. x.1) h))
              | inr f ↦
                  let here : (publish_refs refs io.refs repo r.tag r.meta.subject r.meta.digest
                        r.root st.state).0
                      ≡ t.state =
                    sym r.state ∙ ap (λ x. x.0.state) h in
                  elim (publish_refs-failed refs laws io.refs repo r.meta.digest r.root
                    (Reached-fresh r) r.tag r.meta.subject st.state f) [
                      | inl k ↦ inl (sym here ∙ k)
                      | inr k ↦ inr (
                        r.root,
                        lost_injective
                            (put_image keys o refs sha256 unmarshal io repo reference content_type
                              body st).1
                            (ap (λ x. x.1) h) (result-if r f),
                        (
                          r.manifest,
                          r.pass,
                          r.meta,
                          r.digest,
                          (check_put-parts unmarshal io repo reference body
                              (digest_of_bytes sha256 body) r.tag r.manifest r.checked).1,
                          r.passed,
                          r.rooted,
                        ),
                        subst (λ d. target refs (manifest_ref repo d) t.state ≡ some r.root)
                            r.digest
                            (ap (target refs (manifest_ref repo r.meta.digest)) (sym here) ∙ k),
                      )
                    ]
            ]
    ]
