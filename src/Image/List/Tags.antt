-- ===== src/Image/List/Tags.antt =====
-- What the lists of a repository hold.
use oci_amber.Prelude.{
  ◌≡◌, ◌⊎◌, ◌↔◌, refl, sym, ap, ◌∙◌, subst, inl, inr, Bool-cases, Option, none, some, List, [], ◌∷◌,
  arith,
}
use oci_amber.Prelude.Maybe.{Option-cases}
use oci_amber.Prelude.Text.{Bytes, bytes_eq}
use oci_amber.Prelude.Text.Laws.{bytes_eq_refl, bytes_eq_iff}
use oci_amber.Prelude.Sort.{Has, sort_by, Has-sort_by, IsOrderedBy, sort_by-IsOrderedBy}
use oci_amber.Oci.Errors.{ok}
use oci_amber.Oci.Names.{validate_repository, validate_tag}
use oci_amber.Store.{Key}
use oci_amber.Store.Refs.Laws.{RefLaws, target, list_refs-target, list_refs_complete}
use oci_amber.Image.Refs.{tag_ref, parse_tag_ref}
use oci_amber.Image.Refs.RoundTrip.{parse_tag_ref-tag_ref, parse_tag_ref-eq}
use oci_amber.Image.Store.{got}
use oci_amber.Image.Store.Untag.{tag_ref-prefix}
use oci_amber.Store.Refs.{Ref, RefStore, RefIo, list_refs}
use oci_amber.Image.List.{keep, in_repository, list_tags, known_tags, no_tags, sort_texts}

keep_sound :
    (repo x : Bytes) (o : Option (Bytes × Bytes)) (rest : List Bytes)
    → Has x (keep repo o rest)
    → (o ≡ some (repo, x)) ⊎ Has x rest
unfolding keep
keep_sound repo x none rest h = inr h
keep_sound repo x (some (q, y)) rest h = elim (Bool-cases (bytes_eq q repo)) [
  | inl t ↦ elim (rw t at h) [ inl e ↦ inl (cc ((bytes_eq_iff q repo).0 t, e)) | inr m ↦ inr m ]
  | inr t ↦ inr (rw t at h)
]

keep-new : (repo x : Bytes) (rest : List Bytes) → Has x (keep repo (some (repo, x)) rest)
unfolding keep
keep-new repo x rest = rw (bytes_eq_refl repo) (inl refl)

keep-old :
    (repo x : Bytes) (o : Option (Bytes × Bytes)) (rest : List Bytes)
    → Has x rest
    → Has x (keep repo o rest)
unfolding keep
keep-old repo x none rest h = h
keep-old repo x (some (q, y)) rest h = elim (Bool-cases (bytes_eq q repo)) [
  | inl t ↦ rw t (inr h)
  | inr t ↦ rw t h
]

module _ (parse : Bytes → Option (Bytes × Bytes)) where
  -- An element comes from a name that parses to it.
  in_repository_sound :
      (repo x : Bytes) (rs : List Ref)
      → Has x (in_repository parse repo rs)
      → (r : Ref) × Has r rs × (parse r.name ≡ some (repo, x))
  unfolding in_repository
  in_repository_sound repo x [] h = absurd h
  in_repository_sound repo x (r ∷ rs) h =
      let ih = in_repository_sound repo x rs in
      elim (keep_sound repo x (parse r.name) (in_repository parse repo rs) h) [
        | inl e ↦ (r, inl refl, e)
        | inr m ↦ let (q, a, b) = ih m in (q, inr a, b)
      ]

  in_repository_complete :
      (repo x : Bytes) (rs : List Ref) (r : Ref)
      → Has r rs
      → parse r.name ≡ some (repo, x)
      → Has x (in_repository parse repo rs)
  unfolding in_repository
  in_repository_complete repo x [] r m e = absurd m
  in_repository_complete repo x (q ∷ rs) r m e =
      let ih = in_repository_complete repo x rs r in
      elim m [
        | inl a ↦
            subst (λ o. Has x (keep repo o (in_repository parse repo rs)))
              (sym (ap (λ (y : Ref). parse y.name) a ∙ e))
              (keep-new repo x (in_repository parse repo rs))
        | inr a ↦ keep-old repo x (parse q.name) (in_repository parse repo rs) (ih a e)
      ]

module _ {S : Type 0} (refs : RefStore S) (laws : RefLaws refs) where
  abbrev pub Valid : Bytes → Bytes → S → Type 0
  Valid repo tag s =
      (k : Key) × (target refs (tag_ref repo tag) s ≡ some k)
      × (validate_repository repo ≡ ok tt)
      × (validate_tag tag ≡ ok tt)

  listed-Valid :
      (io : RefIo) (repo tag : Bytes) (s : S) (rs : List Ref)
      → list_refs refs io (tag_ref repo []) s ≡ some rs
      → Has tag (in_repository parse_tag_ref repo rs) ↔ Valid repo tag s
  listed-Valid io repo tag s rs h = (
    λ m.
        let (r, a, e) = in_repository_sound parse_tag_ref repo tag rs m in
        let (n, vr, vt) = parse_tag_ref-eq r.name repo tag e in
        let (t, p) = list_refs-target refs laws io (tag_ref repo []) s rs r h a in
        (r.key, ap (λ x. target refs x s) (sym n) ∙ t, vr, vt),
    λ v.
        let (k, t, vr, vt) = v in
        let (r, a, n, e) =
          list_refs_complete refs laws io (tag_ref repo []) (tag_ref repo tag) k s rs h t
            (tag_ref-prefix repo tag) in
        in_repository_complete parse_tag_ref repo tag rs r a
          (ap parse_tag_ref n ∙ parse_tag_ref-tag_ref repo tag vr vt),
  )

  -- The known tags, when there are none.
  known_tags-listed :
      (io : RefIo) (repo : Bytes) (s : S) (found tags : List Bytes)
      → known_tags refs io repo s found ≡ got tags
      → tags ≡ sort_texts found
  unfolding known_tags no_tags sort_by
  known_tags-listed io repo s [] tags h = ground arith
  known_tags-listed io repo s (t ∷ ts) tags h = cc

  -- The tags that a repository is listed with are its tag references that can be read, those and no
  -- other, in bytewise order.
  pub list_tags_iff :
      (io : RefIo) (repo tag : Bytes) (s : S) (tags : List Bytes)
      → list_tags refs io repo s ≡ got tags
      → (Has tag tags ↔ Valid repo tag s) × IsOrderedBy (λ x. x) tags
  unfolding list_tags
  list_tags_iff io repo tag s tags h = elim (Option-cases (list_refs refs io (tag_ref repo []) s)) [
    | inl e ↦ absurd (ground arith)
    | inr (rs, e) ↦
        let found = in_repository parse_tag_ref repo rs in
        let same = known_tags-listed io repo s found tags (ground arith) in
        let (a, b) = Has-sort_by (λ x. x) tag found in
        let (c, d) = listed-Valid io repo tag s rs e in
        subst (λ l. (Has tag l ↔ Valid repo tag s) × IsOrderedBy (λ x. x) l) (sym same)
          ((λ m. c (a m), λ v. b (d v)), sort_by-IsOrderedBy (λ x. x) found)
  ]
