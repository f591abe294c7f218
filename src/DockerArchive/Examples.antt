-- ===== src/DockerArchive/Examples.antt =====
-- The plan of an archive with an index, its manifest and one blob.
use oci_amber.Prelude.{
  ℕ, ◌<◌, arith, Bool-cases, subst, ◌≡◌, ◌≢◌, ◌⊎◌, refl, ap, sym, ◌∙◌, inl, inr, true, false, none,
  some, List, [], ◌∷◌, All, replicate, if◌then◌else◌,
}
use oci_amber.Prelude.Int.{pos}
use oci_amber.Prelude.Maybe.{some_injective}
use oci_amber.Prelude.Text.{
  Bytes, codes, bytes_eq, cut, cut_prefix, contains_byte, last_index_byte, index_byte,
}
use oci_amber.Prelude.Assoc.{lookup, insert, without}
use oci_amber.Prelude.Sort.{Has}
use oci_amber.Regex.{matches, up_to}
use oci_amber.Oci.Digest.{
  Digest, parse_digest, sha256_hex_re, digest_of_bytes, digest_from_sum, hex_encode, hex_digit,
}
use oci_amber.Oci.Names.{validate_repository, validate_tag, repository_re, tag_re}
use oci_amber.Oci.Manifest.{
  Descriptor, Manifest, parse_manifest, is_index, is_attestation, media_type_oci_index,
  blob_descriptors, elements, validate_optional, validate_descriptor, validate_all,
}
use oci_amber.Oci.Examples.{sha_a, sha_b, repo_name, tag_name}
use oci_amber.DockerArchive.Names.{Name, name_from_repo_tag, split_repo_tag, checked_name, is_host}
use oci_amber.DockerArchive.Archive.{Archive, archive_has, archive_size, read_blob}
use oci_amber.DockerArchive.Resolve.{
  ManifestNode, Nodes, no_nodes, node, Json, resolve_node, resolve_each, keep_child, resolve_index,
  holds_all,
}
use oci_amber.Oci.Errors.{ok, ok_injective}
use oci_amber.Prelude.Text.Laws.{bytes_eq_iff}
use oci_amber.DockerArchive.Resolve.Depth.{IsRanked, Agree, resolve_node_enough}
use oci_amber.DockerArchive.Plan.{
  Root, Plan, plans_blob, plans_manifest, plan_roots, find_roots, walk, visit, plan_blobs,
  plan_manifest, plan_entry, count_children,
}
use oci_amber.DockerArchive.Plan.Order.{InRoots, IsConsistent, IsPublishable, child_digests}
use oci_amber.DockerArchive.Plan.Complete.{IsUnique}
use oci_amber.DockerArchive.Assign.{
  no_plan, name_entry, append_name, assign_names, legacy_names, tag_entries, name_positions,
  all_named, config_roots, walk_configs, add_config, plan_archive,
}
use oci_amber.DockerArchive.Assign.Named.{IsNamed}
use oci_amber.DockerArchive.Assign.Planned.{
  plan_archive-IsPublishable, plan_archive_complete, plan_archive-IsNamed,
}

abbrev sha_c : Digest
sha_c = codes "sha256:cccccccccccccccccccccccccccccccccccccccccccccccccccccccccccccccc"

abbrev points_at : Digest → Descriptor
points_at d = record {
  media_type = codes "m";
  digest = d;
  size = pos 1;
  artifact_type = [];
  annotations = [];
  platform = none;
}

abbrev image_manifest : Manifest
image_manifest = record {
  schema_version = pos 2;
  media_type = codes "m";
  artifact_type = [];
  config = some (points_at sha_c);
  layers = [];
  manifests = none;
  subject = none;
  annotations = [];
}

abbrev index_of : Digest → Manifest
index_of d = record image_manifest {
  media_type = media_type_oci_index;
  config = none;
  manifests = some (points_at d ∷ []);
}

abbrev index_text : Bytes
index_text = codes "i"

abbrev image_text : Bytes
image_text = codes "m"

-- Two texts, and the sums that stand for theirs.
abbrev sample_json : Json
sample_json = record {
  unmarshal = λ b. some (if bytes_eq b index_text then index_of sha_a else image_manifest);
  sha256 = λ b. replicate 32 (if bytes_eq b index_text then 187 else 170);
  members = λ b. none;
  retarget = λ b d s. none;
  join = λ b bs. none;
}

abbrev archive_a : Archive
archive_a = record {
  blobs =
      (sha_a, record { size = 1; content = some image_text })
      ∷ (sha_b, record { size = 1; content = some index_text })
      ∷ (sha_c, record { size = 7; content = none })
      ∷ [];
  index = index_of sha_b;
  legacy =
      record {
        config =
            codes "blobs/sha256/cccccccccccccccccccccccccccccccccccccccccccccccccccccccccccccccc";
        repo_tags = codes "team/app:v1.2" ∷ [];
      }
      ∷ [];
}

abbrev image_node : ManifestNode
image_node = record {
  desc = points_at sha_a;
  body = image_text;
  manifest = image_manifest;
  synthesized = false;
}

abbrev index_node : ManifestNode
index_node = record {
  desc = points_at sha_b;
  body = index_text;
  manifest = index_of sha_a;
  synthesized = false;
}

abbrev roots_a : List Root
roots_a = (index_node, node image_node no_nodes no_nodes) ∷ []

roots_a-found :
    find_roots sample_json archive_a 3 (elements archive_a.index.manifests) [] ≡ some roots_a
unfolding find_roots resolve_node resolve_each keep_child resolve_index holds_all archive_has
    read_blob lookup parse_manifest is_index blob_descriptors validate_optional validate_descriptor
    validate_all parse_digest cut index_byte matches sha256_hex_re digest_of_bytes digest_from_sum
    hex_encode hex_digit
roots_a-found = refl

-- The index stands above the image.
abbrev rank_a : Digest → ℕ
rank_a d = if bytes_eq sha_b d then 1 else 0

reads_a : read_blob sample_json.sha256 archive_a sha_a ≡ some image_text
unfolding read_blob lookup digest_of_bytes digest_from_sum hex_encode hex_digit
reads_a = refl

reads_b : read_blob sample_json.sha256 archive_a sha_b ≡ some index_text
unfolding read_blob lookup digest_of_bytes digest_from_sum hex_encode hex_digit
reads_b = refl

reads_none :
    (d : Digest)
    → bytes_eq sha_a d ≡ false
    → bytes_eq sha_b d ≡ false
    → read_blob sample_json.sha256 archive_a d ≡ none
unfolding read_blob lookup
reads_none d s t =
    rw s (rw t (elim (Bool-cases (bytes_eq sha_c d)) [ inl u ↦ rw u refl | inr u ↦ rw u refl ]))

parses_image : parse_manifest sample_json.unmarshal image_text ≡ ok image_manifest
unfolding parse_manifest is_index validate_optional validate_descriptor validate_all parse_digest
    cut index_byte matches sha256_hex_re
parses_image = refl

parses_index : parse_manifest sample_json.unmarshal index_text ≡ ok (index_of sha_a)
unfolding parse_manifest is_index validate_optional validate_descriptor validate_all parse_digest
    cut index_byte matches sha256_hex_re
parses_index = refl

archive_a-IsRanked : IsRanked sample_json archive_a rank_a
archive_a-IsRanked d body m c h p i = elim (Bool-cases (bytes_eq sha_a d)) [
  | inl t ↦
      let r = ap (read_blob sample_json.sha256 archive_a) ((bytes_eq_iff sha_a d).0 t) in
      let b : image_text ≡ body = some_injective (sym reads_a ∙ r ∙ h) in
      let q = ok_injective (sym parses_image ∙ ap (parse_manifest sample_json.unmarshal) b ∙ p) in
      absurd (subst (λ x. Has c (elements x.manifests)) (sym q) i)
  | inr s ↦ elim (Bool-cases (bytes_eq sha_b d)) [
    | inl t ↦
        let r = ap (read_blob sample_json.sha256 archive_a) ((bytes_eq_iff sha_b d).0 t) in
        let b : index_text ≡ body = some_injective (sym reads_b ∙ r ∙ h) in
        let q = ok_injective (sym parses_index ∙ ap (parse_manifest sample_json.unmarshal) b ∙ p) in
        elim (subst (λ x. Has c (elements x.manifests)) (sym q) i) [
          | inl e ↦
              subst (λ x. x < rank_a d) (ap (λ x. rank_a x.digest) e)
                (subst (λ x. 0 < (if x then 1 else 0)) (sym t) (omega arith))
          | inr e ↦ absurd e
        ]
    | inr t ↦ absurd (cc (reads_none d s t, h))
  ]
]

resolve_node_enough_example :
    Agree
      (resolve_node sample_json archive_a 2 (points_at sha_b))
      (resolve_node sample_json archive_a 3 (points_at sha_b))
resolve_node_enough_example =
    resolve_node_enough sample_json archive_a rank_a 2 3 (points_at sha_b) archive_a-IsRanked
      (omega arith) (omega arith)

abbrev team_app : Name
team_app = record { repo = repo_name; tag = tag_name }

abbrev plan_a : Plan
plan_a = record (plan_roots archive_a roots_a no_plan) {
  entries = name_entry 0 team_app (plan_roots archive_a roots_a no_plan).entries;
}

plan_a-made : plan_archive sample_json archive_a 3 [] none ≡ some plan_a
unfolding plan_archive find_roots resolve_node resolve_each keep_child resolve_index holds_all
    archive_has archive_size read_blob lookup insert without parse_manifest is_index is_attestation
    blob_descriptors validate_optional validate_descriptor validate_all parse_digest cut index_byte
    matches sha256_hex_re digest_of_bytes digest_from_sum hex_encode hex_digit plan_roots walk visit
    plan_blobs plan_manifest plan_entry count_children assign_names legacy_names tag_entries
    name_positions name_entry append_name all_named config_roots walk_configs add_config
    name_from_repo_tag split_repo_tag checked_name is_host contains_byte last_index_byte cut_prefix
    validate_repository repository_re validate_tag tag_re up_to
plan_a-made = refl

-- The two nodes below the root.
roots_a-cases :
    (m : ManifestNode) (ks : Nodes)
    → InRoots roots_a m ks
    → ((m.desc.digest ≡ sha_b) × (child_digests ks ≡ sha_a ∷ []))
      ⊎ ((m.desc.digest ≡ sha_a) × (child_digests ks ≡ []))
roots_a-cases m ks (inl (inl (e, f))) =
    inl (ap (λ x. x.desc.digest) (sym e), ap child_digests (sym f))
roots_a-cases m ks (inl (inr (inl (inl (e, f))))) =
    inr (ap (λ x. x.desc.digest) (sym e), ap child_digests (sym f))
roots_a-cases m ks (inl (inr (inl (inr (inl x))))) = absurd x
roots_a-cases m ks (inl (inr (inl (inr (inr x))))) = absurd x
roots_a-cases m ks (inl (inr (inr x))) = absurd x
roots_a-cases m ks (inr x) = absurd x

sha_a-other : sha_a ≢ sha_b
sha_a-other e = absurd (cc (ap (λ x. bytes_eq x sha_b) e))

roots_a-IsConsistent : IsConsistent (InRoots roots_a)
roots_a-IsConsistent m n ks cs u v e = elim (roots_a-cases m ks u) [
  | inl (a, b) ↦ elim (roots_a-cases n cs v) [
    | inl (c, d) ↦ b ∙ sym d
    | inr (c, d) ↦ absurd (sha_a-other (sym c ∙ sym e ∙ a))
  ]
  | inr (a, b) ↦ elim (roots_a-cases n cs v) [
    | inl (c, d) ↦ absurd (sha_a-other (sym a ∙ e ∙ c))
    | inr (c, d) ↦ b ∙ sym d
  ]
]

plan_archive-IsPublishable_example : IsPublishable (InRoots roots_a) [] plan_a.manifests
plan_archive-IsPublishable_example =
    plan_archive-IsPublishable sample_json archive_a 3 [] none plan_a roots_a roots_a-found
      plan_a-made roots_a-IsConsistent

plan_archive_complete_example :
    IsUnique plan_a.blobs
    × ((m : ManifestNode) (ks : Nodes)
        → InRoots roots_a m ks
        → (plans_manifest m.desc.digest plan_a.manifests ≡ true)
          × ((d : Descriptor)
              → Has d (blob_descriptors m.manifest)
              → plans_blob d.digest plan_a.blobs ≡ true))
plan_archive_complete_example =
    plan_archive_complete sample_json archive_a 3 [] none plan_a roots_a roots_a-found plan_a-made

plan_archive-IsNamed_example : All IsNamed plan_a.entries
plan_archive-IsNamed_example =
    plan_archive-IsNamed sample_json archive_a 3 [] none plan_a plan_a-made
