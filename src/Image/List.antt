-- ===== src/Image/List.antt =====
-- image/list.go: the tags, manifests and referrers of a repository, and the repositories.
pub mod Tags
use oci_amber.Prelude.{
  ℕ, Bool, true, false, not, ◌&&◌, ◌||◌, Option, none, some, List, [], ◌∷◌, ◌++◌, if◌then◌else◌,
}
use oci_amber.Prelude.Text.{Bytes, bytes_eq}
use oci_amber.Prelude.Sort.{sort_by}
use oci_amber.Prelude.Int.{pos}
use oci_amber.Oci.Digest.{Digest, is_empty}
use oci_amber.Oci.Manifest.{Descriptor}
use oci_amber.Store.{Key}
use oci_amber.Store.Refs.{Ref, RefStore, RefIo, list_refs}
use oci_amber.Image.Refs.{
  tag_prefix, manifest_prefix, tag_ref, manifest_ref, referrer_ref, parse_tag_ref,
  parse_manifest_ref, parse_referrer_ref,
}
use oci_amber.Image.Meta.{ImageMeta}
use oci_amber.Image.Store.{Objects, Got, got, lost, image_not_found, internal, read_meta}

-- slices.Sort
abbrev pub sort_texts : List Bytes → List Bytes
sort_texts xs = sort_by (λ s. s) xs

-- One name: its second part, when the first is `repo`.
unfoldable pub keep : Bytes → Option (Bytes × Bytes) → List Bytes → List Bytes
keep repo none rest = rest
keep repo (some (q, x)) rest = if bytes_eq q repo then x ∷ rest else rest

-- The second parts of the names that parse to `repo`.
unfoldable pub in_repository : (Bytes → Option (Bytes × Bytes)) → Bytes → List Ref → List Bytes
in_repository parse repo [] = []
in_repository parse repo (r ∷ rs) = keep repo (parse r.name) (in_repository parse repo rs)

abbrev pub nonempty {ℓ} : {A : Type ℓ} → List A → Bool
nonempty [] = false
nonempty (x ∷ xs) = true

unfoldable pub contains_text : Bytes → List Bytes → Bool
contains_text a [] = false
contains_text a (x ∷ xs) = bytes_eq x a || contains_text a xs

-- seen[a] = struct{}{}
unfoldable pub add : Bytes → List Bytes → List Bytes
unfolding contains_text
add a seen = if contains_text a seen then seen else a ∷ seen

-- The repositories of the names that parse, in the keys of a set.
unfoldable pub add_repositories :
    (Bytes → Option (Bytes × Bytes)) → List Ref → List Bytes → List Bytes
unfolding add
add_repositories parse [] seen = seen
add_repositories parse (r ∷ rs) seen = elim (parse r.name) [
  | none ↦ add_repositories parse rs seen
  | some (q, x) ↦ add_repositories parse rs (add q seen)
]

module _ {S : Type 0} (refs : RefStore S) where
  -- repoHasManifests; `none` is an error.
  unfoldable pub repo_has_manifests : RefIo → Bytes → S → Option Bool
  unfolding in_repository
  repo_has_manifests io repo s = elim (list_refs refs io (manifest_ref repo []) s) [
    | none ↦ none
    | some rs ↦ some (nonempty (in_repository parse_manifest_ref repo rs))
  ]

  -- What an empty list of tags stands for.
  no_tags : Option Bool → Got (List Bytes)
  no_tags none = lost internal
  no_tags (some false) = lost image_not_found
  no_tags (some true) = got []

  known_tags : RefIo → Bytes → S → List Bytes → Got (List Bytes)
  unfolding no_tags repo_has_manifests
  known_tags io repo s [] = no_tags (repo_has_manifests io repo s)
  known_tags io repo s (t ∷ ts) = got (sort_texts (t ∷ ts))

  -- (*Store).Tags
  unfoldable pub list_tags : RefIo → Bytes → S → Got (List Bytes)
  unfolding known_tags
  list_tags io repo s = elim (list_refs refs io (tag_ref repo []) s) [
    | none ↦ lost internal
    | some rs ↦ known_tags io repo s (in_repository parse_tag_ref repo rs)
  ]

  known_manifests : List Digest → Got (List Digest)
  known_manifests [] = lost image_not_found
  known_manifests (d ∷ ds) = got (sort_texts (d ∷ ds))

  -- (*Store).Manifests
  unfoldable pub list_manifests : RefIo → Bytes → S → Got (List Digest)
  unfolding known_manifests
  list_manifests io repo s = elim (list_refs refs io (manifest_ref repo []) s) [
    | none ↦ lost internal
    | some rs ↦ known_manifests (in_repository parse_manifest_ref repo rs)
  ]

  -- (*Store).Repositories
  unfoldable pub list_repositories : RefIo → S → Got (List Bytes)
  unfolding add_repositories
  list_repositories io s = elim (list_refs refs io tag_prefix s) [
    | none ↦ lost internal
    | some tags ↦ elim (list_refs refs io manifest_prefix s) [
      | none ↦ lost internal
      | some manifests ↦ got (
          sort_texts (
            add_repositories parse_manifest_ref manifests (add_repositories parse_tag_ref tags [])))
    ]
  ]

-- The descriptor of a referrer, from its meta.json.
abbrev pub referrer_descriptor : ImageMeta → Descriptor
referrer_descriptor m = record {
  media_type = m.media_type;
  digest = m.digest;
  size = pos m.size;
  artifact_type = m.artifact_type;
  annotations = m.annotations;
  platform = none;
}

-- Whether a reference is one of a referrer of the subject.
unfoldable pub refers_to : Bytes → Digest → Bytes → Bool
refers_to repo subject name = elim (parse_referrer_ref name) [
  | none ↦ false
  | some (q, d, r) ↦ bytes_eq q repo && bytes_eq d subject
]

module _ (o : Objects) {S : Type 0} (refs : RefStore S) where
  -- The loop of Referrers; a referrer whose meta.json cannot be read fails it.
  unfoldable pub collect_referrers : Bytes → Digest → Bytes → List Ref → Option (List Descriptor)
  unfolding refers_to
  collect_referrers repo subject artifact_type [] = some []
  collect_referrers repo subject artifact_type (r ∷ rs) =
      let rest = collect_referrers repo subject artifact_type rs in
      if not (refers_to repo subject r.name) then rest else elim (read_meta o r.key) [
        | none ↦ none
        | some m ↦
            if not (is_empty artifact_type) && not (bytes_eq m.artifact_type artifact_type)
            then rest
            else elim rest [ none ↦ none | some ds ↦ some (referrer_descriptor m ∷ ds) ]
      ]

  -- (*Store).Referrers
  unfoldable pub list_referrers : RefIo → Bytes → Digest → Bytes → S → Got (List Descriptor)
  unfolding collect_referrers
  list_referrers io repo subject artifact_type s =
      elim (list_refs refs io (referrer_ref repo subject []) s) [
        | none ↦ lost internal
        | some rs ↦ elim (collect_referrers repo subject artifact_type rs) [
          | none ↦ lost internal
          | some ds ↦ got (sort_by (λ (d : Descriptor). d.digest) ds)
        ]
      ]
