-- ===== src/Image/Store/Untag.antt =====
-- Deleting an image by digest: its tags go with it, and those of other images stay.
use oci_amber.Prelude.{
  ◌≡◌, ◌≢◌, refl, sym, ap, ◌∙◌, subst, inl, inr, true, false, Bool-cases, Option, none, some, List,
  [], arith,
}
use oci_amber.Prelude.Maybe.{Option-cases, some_injective}
use oci_amber.Prelude.Text.{Bytes, bytes_eq, has_prefix}
use oci_amber.Prelude.Text.Laws.{has_prefix-more, bytes_eq_iff}
use oci_amber.Oci.Errors.{ok, is_ok}
use oci_amber.Oci.Digest.{Digest, is_digest, parse_digest}
use oci_amber.Oci.Manifest.{Descriptor}
use oci_amber.Oci.Names.{validate_repository}
use oci_amber.Store.{Key}
use oci_amber.Store.Refs.{
  Ref, RefStore, RefIo, Resolved, found, not_found, unresolved, resolve, list_refs,
}
use oci_amber.Store.Refs.Laws.{RefLaws, target, resolve-found, list_refs-target, list_refs_complete}
use oci_amber.Image.Refs.{tag_ref, manifest_ref, referrer_ref}
use oci_amber.Image.Meta.{ImageMeta}
use oci_amber.Image.Store.{
  Objects, ImageError, ref_for, digest_ref, read_meta, same_image, delete_named, delete_tags,
  delete_referrer, delete_listed, delete_manifest, delete_resolved, delete_image,
}
use oci_amber.Image.Store.Delete.{
  Other, delete_known-gone, delete_known-other, delete_named-gone, delete_named-other,
  then_delete-none, none-stays, delete_tags-Fewer, delete_tags-gone, delete_tags-Other,
  delete_referrer-Fewer,
}

pub tag_ref-prefix : (repo tag : Bytes) → has_prefix (tag_ref repo tag) (tag_ref repo []) ≡ true
unfolding tag_ref has_prefix
tag_ref-prefix repo tag = has_prefix-more repo b':' tag

module _ (o : Objects) {S : Type 0} (refs : RefStore S) (laws : RefLaws refs) where
  -- What a Delete by digest did when it reports no error: the states after each of its steps.
  record Steps (io : RefIo) (repo name : Bytes) (root : Key) (meta : ImageMeta) (s t : S)
      : Type 0 where
    tags : List Ref
    named : (delete_named o refs io name s).1 ≡ none
    listed : list_refs refs io (tag_ref repo []) (delete_named o refs io name s).0 ≡ some tags
    looped :
        (delete_tags o refs io root meta.digest tags (delete_named o refs io name s).0).1 ≡ none
    referred :
        delete_referrer o refs io repo meta.digest meta.subject
          (delete_tags o refs io root meta.digest tags (delete_named o refs io name s).0).0
        ≡ (t, none)

  delete_manifest-Steps :
      (io : RefIo) (repo name : Bytes) (root : Key) (meta : ImageMeta) (s t : S)
      → delete_manifest o refs io repo name root meta s ≡ (t, none)
      → Steps io repo name root meta s t
  unfolding delete_manifest
  delete_manifest-Steps io repo name root meta s t h =
      let next : S → S × Option ImageError =
        λ u. delete_listed o refs io repo root meta u (list_refs refs io (tag_ref repo []) u) in
      let p = delete_named o refs io name s in
      let (a, b) = then_delete-none o refs laws p next (ap (λ q. q.1) h) in
      elim (Option-cases (list_refs refs io (tag_ref repo []) p.0)) [
        | inl e ↦ absurd (unfold delete_listed in ground (arith, h, b, e))
        | inr (tags, e) ↦
            let b' : delete_listed o refs io repo root meta p.0 (some tags) ≡ (t, none) =
              subst (λ l. delete_listed o refs io repo root meta p.0 l ≡ (t, none)) e (sym b ∙ h) in
            let (c, f) =
              then_delete-none o refs laws (delete_tags o refs io root meta.digest tags p.0)
                (delete_referrer o refs io repo meta.digest meta.subject)
                (unfold delete_listed in ap (λ q. q.1) b') in
            record {
              tags = tags;
              named = a;
              listed = e;
              looped = c;
              referred = sym f ∙ (unfold delete_listed in b');
            }
      ]

  -- A root of another image than the one at `root`: another root, with another digest in its
  -- meta.json.
  abbrev pub IsOther : Key → ImageMeta → Key → Type 0
  IsOther root meta k =
      (k ≢ root) × (m : ImageMeta) × (read_meta o k ≡ some m) × (m.digest ≢ meta.digest)

  same_image-IsOther :
      (root k : Key) (meta : ImageMeta)
      → same_image o root meta.digest k ≡ some false
      → IsOther root meta k
  unfolding same_image
  same_image-IsOther root k meta h = elim (Bool-cases (bytes_eq k root)) [
    | inl e ↦ absurd (ground arith)
    | inr n ↦ elim (Option-cases (read_meta o k)) [
      | inl e ↦ absurd (ground arith)
      | inr (m, e) ↦ (
        λ q. cc ((bytes_eq_iff k root).1 q, n),
        m,
        e,
        λ q.
            let s : some (bytes_eq m.digest meta.digest) ≡ some false = ground (arith, h, n, e) in
            cc ((bytes_eq_iff m.digest meta.digest).1 q, some_injective s),
      )
    ]
  ]

  IsOther-same_image :
      (root k : Key) (meta : ImageMeta)
      → IsOther root meta k
      → same_image o root meta.digest k ≡ some false
  unfolding same_image
  IsOther-same_image root k meta (n, m, e, d) =
      let a : bytes_eq k root ≡ false = ground (arith, n, bytes_eq_iff k root) in
      let b : bytes_eq m.digest meta.digest ≡ false =
        ground (arith, d, bytes_eq_iff m.digest meta.digest) in
      rw (a, e, b) refl

  -- The tags that are left point at other images.
  Steps-tags :
      (io : RefIo) (repo name : Bytes) (root : Key) (meta : ImageMeta) (s t : S) (tag : Bytes)
      (k : Key)
      → Steps io repo name root meta s t
      → target refs (tag_ref repo tag) t ≡ some k
      → Other o refs laws io root meta.digest k
  Steps-tags io repo name root meta s t tag k v h =
      let s1 = (delete_named o refs io name s).0 in
      let s2 = (delete_tags o refs io root meta.digest v.tags s1).0 in
      let at2 : target refs (tag_ref repo tag) s2 ≡ some k =
        delete_referrer-Fewer o refs laws io repo meta.digest meta.subject s2 (tag_ref repo tag) k
          (ap (λ q. target refs (tag_ref repo tag) q.0) v.referred ∙ h) in
      let at1 : target refs (tag_ref repo tag) s1 ≡ some k =
        delete_tags-Fewer o refs laws io root meta.digest v.tags s1 (tag_ref repo tag) k at2 in
      let (r, m, n, e) =
        list_refs_complete refs laws io (tag_ref repo []) (tag_ref repo tag) k s1 v.tags v.listed
          at1 (tag_ref-prefix repo tag) in
      elim (delete_tags-gone o refs laws io root meta.digest v.tags s1 r v.looped m) [
        | inl g ↦ absurd (cc (subst (λ x. target refs x s2 ≡ none) n g, at2))
        | inr g ↦ subst (λ x. Other o refs laws io root meta.digest x) e g
      ]

  -- The root of the image that a Delete by digest met, and its meta.json.
  record Removed (io : RefIo) (repo : Bytes) (d : Digest) (s t : S) : Type 0 where
    root : Key
    meta : ImageMeta
    was : target refs (manifest_ref repo d) s ≡ some root
    read : read_meta o root ≡ some meta
    steps : Steps io repo (manifest_ref repo d) root meta s t

  delete_resolved-Removed :
      (io : RefIo) (repo : Bytes) (d : Digest) (s t : S) (r : Resolved)
      → resolve refs io (manifest_ref repo d) s ≡ r
      → delete_resolved o refs io repo (manifest_ref repo d) s r ≡ (t, none)
      → Removed io repo d s t
  unfolding delete_resolved
  delete_resolved-Removed io repo d s t not_found e h = absurd cc
  delete_resolved-Removed io repo d s t unresolved e h = absurd cc
  delete_resolved-Removed io repo d s t (found root) e h = elim (Option-cases (read_meta o root)) [
    | inl a ↦ absurd (ground arith)
    | inr (meta, a) ↦ record {
      root = root;
      meta = meta;
      was = resolve-found refs io (manifest_ref repo d) s root e;
      read = a;
      steps = delete_manifest-Steps io repo (manifest_ref repo d) root meta s t (ground arith);
    }
  ]

  delete_image-Removed :
      (io : RefIo) (repo : Bytes) (d : Digest) (s t : S)
      → parse_digest d ≡ ok d
      → is_digest d ≡ true
      → delete_image o refs io repo d s ≡ (t, none)
      → Removed io repo d s t
  unfolding delete_image ref_for digest_ref
  delete_image-Removed io repo d s t v g h = elim (Bool-cases (is_ok (validate_repository repo))) [
    | inl a ↦
        delete_resolved-Removed io repo d s t (resolve refs io (manifest_ref repo d) s) refl
          (ground arith)
    | inr a ↦ absurd (ground arith)
  ]

  -- After a Delete by digest that reports no error, a tag of the repository that still exists points at
  -- a root of another image: it is not the root that was deleted, and its meta.json can be read and has
  -- another digest than the one of that root.
  pub delete_image-tags :
      (io : RefIo) (repo : Bytes) (d : Digest) (s t : S) (tag : Bytes) (k : Key)
      → parse_digest d ≡ ok d
      → is_digest d ≡ true
      → delete_image o refs io repo d s ≡ (t, none)
      → target refs (tag_ref repo tag) t ≡ some k
      → (root : Key) × (meta : ImageMeta) × (target refs (manifest_ref repo d) s ≡ some root)
        × (read_meta o root ≡ some meta)
        × IsOther root meta k
  delete_image-tags io repo d s t tag k v g h e =
      let r = delete_image-Removed io repo d s t v g h in
      (
        r.root,
        r.meta,
        r.was,
        r.read,
        same_image-IsOther r.root k r.meta
            (Steps-tags io repo (manifest_ref repo d) r.root r.meta s t tag k r.steps e),
      )

  -- The reference of a subject, when there is one, is gone.
  abbrev pub Unreferred : Bytes → Digest → Option Descriptor → S → Type 0
  Unreferred repo d none t = Unit {0}
  Unreferred repo d (some subject) t = target refs (referrer_ref repo subject.digest d) t ≡ none

  delete_referrer-gone :
      (io : RefIo) (repo : Bytes) (d : Digest) (subject : Option Descriptor) (s : S)
      → (delete_referrer o refs io repo d subject s).1 ≡ none
      → Unreferred repo d subject (delete_referrer o refs io repo d subject s).0
  unfolding delete_referrer
  delete_referrer-gone io repo d none s h = tt
  delete_referrer-gone io repo d (some subject) s h =
      delete_known-gone o refs laws io (referrer_ref repo subject.digest d) s h

  -- A Delete by digest that reports no error: the manifest was there, its reference is gone, and so is
  -- its own entry among the referrers of its subject.
  pub delete_image-gone :
      (io : RefIo) (repo : Bytes) (d : Digest) (s t : S)
      → parse_digest d ≡ ok d
      → is_digest d ≡ true
      → delete_image o refs io repo d s ≡ (t, none)
      → (root : Key) × (meta : ImageMeta) × (target refs (manifest_ref repo d) s ≡ some root)
        × (read_meta o root ≡ some meta)
        × (target refs (manifest_ref repo d) t ≡ none)
        × Unreferred repo meta.digest meta.subject t
  delete_image-gone io repo d s t v g h =
      let r = delete_image-Removed io repo d s t v g h in
      let p = r.steps in
      let s1 = (delete_named o refs io (manifest_ref repo d) s).0 in
      let s2 = (delete_tags o refs io r.root r.meta.digest p.tags s1).0 in
      let same = ap (λ q. q.0) p.referred in
      (
        r.root,
        r.meta,
        r.was,
        r.read,
        subst (λ x. target refs (manifest_ref repo d) x ≡ none) same
            (none-stays o refs laws s2
              (delete_referrer o refs io repo r.meta.digest r.meta.subject s2).0
              (manifest_ref repo d)
              (delete_referrer-Fewer o refs laws io repo r.meta.digest r.meta.subject s2)
              (none-stays o refs laws s1 s2 (manifest_ref repo d)
                (delete_tags-Fewer o refs laws io r.root r.meta.digest p.tags s1)
                (delete_named-gone o refs laws io (manifest_ref repo d) s p.named))),
        subst (Unreferred repo r.meta.digest r.meta.subject) same (
            delete_referrer-gone io repo r.meta.digest r.meta.subject s2
              (ap (λ q. q.1) p.referred)),
      )

  delete_referrer-tag :
      (io : RefIo) (repo : Bytes) (d : Digest) (subject : Option Descriptor) (s : S) (tag : Bytes)
      → target refs (tag_ref repo tag) (delete_referrer o refs io repo d subject s).0
        ≡ target refs (tag_ref repo tag) s
  unfolding delete_referrer
  delete_referrer-tag io repo d none s tag = refl
  delete_referrer-tag io repo d (some subject) s tag =
      delete_known-other o refs laws io (referrer_ref repo subject.digest d) (tag_ref repo tag) s
        (unfold referrer_ref tag_ref in refl)

  Steps-kept :
      (io : RefIo) (repo d : Bytes) (root : Key) (meta : ImageMeta) (s t : S) (tag : Bytes)
      (k : Key)
      → Steps io repo (manifest_ref repo d) root meta s t
      → target refs (tag_ref repo tag) s ≡ some k
      → Other o refs laws io root meta.digest k
      → target refs (tag_ref repo tag) t ≡ some k
  Steps-kept io repo d root meta s t tag k v e x =
      let s1 = (delete_named o refs io (manifest_ref repo d) s).0 in
      let s2 = (delete_tags o refs io root meta.digest v.tags s1).0 in
      let at1 : target refs (tag_ref repo tag) s1 ≡ some k =
        delete_named-other o refs laws io (manifest_ref repo d) (tag_ref repo tag) s
          (unfold manifest_ref tag_ref in refl)
        ∙ e in
      let at2 : target refs (tag_ref repo tag) s2 ≡ target refs (tag_ref repo tag) s1 =
        delete_tags-Other o refs laws io root meta.digest v.tags s1 (tag_ref repo tag) (λ r m n.
          subst (Other o refs laws io root meta.digest)
            (some_injective (
              sym at1
              ∙ ap (λ y. target refs y s1) (sym n)
              ∙ (list_refs-target refs laws io (tag_ref repo []) s1 v.tags r v.listed m).0))
            x) in
      ap (λ q. target refs (tag_ref repo tag) q.0) (sym v.referred)
      ∙ delete_referrer-tag io repo meta.digest meta.subject s2 tag
      ∙ at2
      ∙ at1

  -- A Delete by digest that reports no error keeps the tags of the repository that point at another
  -- image: at another root, whose meta.json can be read and has another digest.
  pub delete_image-kept :
      (io : RefIo) (repo : Bytes) (d : Digest) (s t : S) (tag : Bytes) (k root : Key)
      (meta : ImageMeta)
      → parse_digest d ≡ ok d
      → is_digest d ≡ true
      → delete_image o refs io repo d s ≡ (t, none)
      → target refs (manifest_ref repo d) s ≡ some root
      → read_meta o root ≡ some meta
      → target refs (tag_ref repo tag) s ≡ some k
      → IsOther root meta k
      → target refs (tag_ref repo tag) t ≡ some k
  delete_image-kept io repo d s t tag k root meta v g h w m e x =
      let r = delete_image-Removed io repo d s t v g h in
      let same : r.root ≡ root = some_injective (sym r.was ∙ w) in
      let same_meta : r.meta ≡ meta = some_injective (sym r.read ∙ ap (read_meta o) same ∙ m) in
      Steps-kept io repo d r.root r.meta s t tag k r.steps e (
        ap (λ y. same_image o y r.meta.digest k) same
        ∙ ap (λ (y : ImageMeta). same_image o root y.digest k) same_meta
        ∙ IsOther-same_image root k meta x)
