-- ===== src/Image/Put/Resolved.antt =====
-- What a push has found before it publishes anything: every blob of the manifest.
use oci_amber.Prelude.{
  ◌≡◌, refl, ap, ◌∙◌, subst, inl, inr, Bool-cases, Option, none, some, List, [], ◌∷◌, arith,
}
use oci_amber.Prelude.Maybe.{Option-cases}
use oci_amber.Prelude.Text.{Bytes, bytes_eq}
use oci_amber.Prelude.Text.Laws.{bytes_eq_iff}
use oci_amber.Prelude.Assoc.{Assoc, lookup, insert, lookup-insert}
use oci_amber.Prelude.Sort.{Has}
use oci_amber.Oci.Errors.{ok}
use oci_amber.Oci.Digest.{Digest, digest_of_bytes}
use oci_amber.Oci.Manifest.{Descriptor, Manifest, parse_manifest, blob_descriptors}
use oci_amber.Store.{Key, Keys}
use oci_amber.Store.Refs.{RefStore, RefIo, Resolved, found, not_found, unresolved, resolve}
use oci_amber.Store.Refs.Laws.{target, resolve-found}
use oci_amber.Image.Meta.{ImageMeta}
use oci_amber.Image.Store.{Objects, got}
use oci_amber.Image.Put.{
  PushIo, Images, Pass, blob_ref, resolve_all, resolve_blobs, first_pass, put_image,
}
use oci_amber.Image.Put.Steps.{>>=-eq-got, check_put-parts}
use oci_amber.Image.Put.Published.{put_image-Reached}

module _ {S : Type 0} (refs : RefStore S) (io : RefIo) (name : Digest → Bytes) (s : S) where
  -- The roots that are collected are those of the references.
  abbrev IsCollected : Assoc Key → Type 0
  IsCollected roots =
      (d : Digest) (k : Key) → lookup d roots ≡ some k → target refs (name d) s ≡ some k

  pub empty-IsCollected : IsCollected []
  unfolding lookup
  empty-IsCollected d k h = absurd (ground arith)

  insert-IsCollected :
      (d : Digest) (k : Key) (roots : Assoc Key)
      → target refs (name d) s ≡ some k
      → IsCollected roots
      → IsCollected (insert d k roots)
  insert-IsCollected d k roots h c d' k' e = elim (Bool-cases (bytes_eq d d')) [
    | inl b ↦
        subst (λ x. target refs (name x) s ≡ some k') ((bytes_eq_iff d d').0 b)
          (h ∙ ground (arith, lookup-insert d d' k roots))
    | inr b ↦ c d' k' (ground (arith, lookup-insert d d' k roots))
  ]

  -- A step of the loop: the descriptor's root, and the rest with it among the roots.
  abbrev Stepped : Descriptor → List Descriptor → Assoc Key → Type 0
  Stepped d ds r =
      (k : Key) × (roots : Assoc Key) × (target refs (name d.digest) s ≡ some k)
      × IsCollected roots
      × (resolve_all refs io name ds roots s ≡ got r)

  resolve_one-Stepped :
      (d : Descriptor) (ds : List Descriptor) (roots r : Assoc Key) (x : Resolved)
      → IsCollected roots
      → lookup d.digest roots ≡ none
      → resolve refs io (name d.digest) s ≡ x
      → resolve_all refs io name (d ∷ ds) roots s ≡ got r
      → Stepped d ds r
  unfolding resolve_all
  resolve_one-Stepped d ds roots r not_found c n e h = absurd (ground arith)
  resolve_one-Stepped d ds roots r unresolved c n e h = absurd (ground arith)
  resolve_one-Stepped d ds roots r (found k) c n e h =
      let t = resolve-found refs io (name d.digest) s k e in
      (k, insert d.digest k roots, t, insert-IsCollected d.digest k roots t c, ground arith)

  resolve_all-Stepped :
      (d : Descriptor) (ds : List Descriptor) (roots r : Assoc Key)
      → IsCollected roots
      → resolve_all refs io name (d ∷ ds) roots s ≡ got r
      → Stepped d ds r
  unfolding resolve_all
  resolve_all-Stepped d ds roots r c h = elim (Option-cases (lookup d.digest roots)) [
    | inl n ↦ resolve_one-Stepped d ds roots r (resolve refs io (name d.digest) s) c n refl h
    | inr (k, e) ↦ (k, roots, c d.digest k e, c, ground arith)
  ]

  pub resolve_all-found :
      (ds : List Descriptor) (roots r : Assoc Key) (d : Descriptor)
      → IsCollected roots
      → resolve_all refs io name ds roots s ≡ got r
      → Has d ds
      → (k : Key) × (target refs (name d.digest) s ≡ some k)
  resolve_all-found [] roots r d c h m = absurd m
  resolve_all-found (d' ∷ ds) roots r d c h m =
      let (k, roots', t, c', h') = resolve_all-Stepped d' ds roots r c h in
      elim m [
        | inl e ↦
            subst (λ (x : Descriptor). (k : Key) × (target refs (name x.digest) s ≡ some k)) e
              (k, t)
        | inr m' ↦ resolve_all-found ds roots' r d c' h' m'
      ]

first_pass-blobs :
    (keys : Keys) (o : Objects) {S : Type 0} (refs : RefStore S) (io : PushIo) (repo : Bytes)
    (digest : Digest) (m : Manifest) (body : Bytes) (s : S) (p : Pass)
    → first_pass keys o refs io repo digest m body s ≡ got p
    → (roots : Assoc Key) × (resolve_all refs io.refs blob_ref (blob_descriptors m) [] s
        ≡ got roots)
unfolding first_pass resolve_blobs
first_pass-blobs keys o refs io repo digest m body s p h =
    let (roots, e, h') = >>=-eq-got (resolve_blobs refs io.refs m s) _ h in (roots, e)

module _ (keys : Keys) (o : Objects) {S : Type 0} (refs : RefStore S) (sha256 : Bytes → Bytes)
    (unmarshal : Bytes → Option Manifest) (io : PushIo) (repo reference content_type body : Bytes)
    (st : Images S) where
  -- A push that succeeds parsed its body, and found every blob of the manifest: its config and its
  -- layers have references.
  pub put_image-blobs :
      (t : Images S) (meta : ImageMeta)
      → put_image keys o refs sha256 unmarshal io repo reference content_type body st
        ≡ (t, got meta)
      → (m : Manifest) × (parse_manifest unmarshal body ≡ ok m)
        × ((d : Descriptor)
            → Has d (blob_descriptors m)
            → (k : Key) × (target refs (blob_ref d.digest) st.state ≡ some k))
  put_image-blobs t meta h =
      elim (put_image-Reached keys o refs sha256 unmarshal io repo reference content_type body st) [
        | inl (e, k, f) ↦ absurd (cc (ap (λ x. x.1) h, f))
        | inr r ↦
            let (roots, e) =
              first_pass-blobs keys o refs io repo (digest_of_bytes sha256 body) r.manifest body
                st.state r.pass r.passed in
            (
              r.manifest,
              (check_put-parts unmarshal io repo reference body (digest_of_bytes sha256 body) r.tag
                  r.manifest r.checked).1,
              λ d m.
                  resolve_all-found refs io.refs blob_ref st.state (blob_descriptors r.manifest) []
                    roots d (empty-IsCollected refs io.refs blob_ref st.state) e m,
            )
      ]
