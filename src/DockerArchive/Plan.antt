-- ===== src/DockerArchive/Plan.antt =====
-- dockerarchive/plan.go: what an import stores. The set of digests that are seen is the list of what is
-- planned so far.
pub mod Order
pub mod Complete
use oci_amber.Prelude.{
  ℕ, zero, suc, ◌+◌, Bool, true, false, not, ◌&&◌, ◌||◌, Option, none, some, List, [], ◌∷◌, ◌++◌,
  ltb, length, ◌==◌, if◌then◌else◌,
}
use oci_amber.Prelude.Text.{Bytes, codes, bytes_eq, cut_prefix}
use oci_amber.Prelude.Assoc.{Assoc, lookup, insert}
use oci_amber.Oci.Errors.{Result, ok, err}
use oci_amber.Oci.Digest.{Digest, parse_digest}
use oci_amber.Oci.Manifest.{
  Descriptor, Manifest, is_index, is_attestation, blob_descriptors, elements,
}
use oci_amber.DockerArchive.Names.{
  Name, RepoTag, tagged, untagged, bad_tag, parse_name, name_from_repo_tag,
}
use oci_amber.DockerArchive.Archive.{Archive, LegacyEntry, archive_size}
use oci_amber.DockerArchive.Resolve.{
  ManifestNode, Nodes, no_nodes, node, Lookup, present, absent, broken, Json, resolve_node,
}

pub record PlanBlob : Type 0 where
  pub digest : Digest
  pub size : ℕ
  pub media_type : Bytes
  pub stored : Bool

pub record PlanManifest : Type 0 where
  pub digest : Digest
  pub media_type : Bytes
  pub body : Bytes
  pub indexed : Bool
  pub synthesized : Bool
  pub attestation : Bool

pub record PlanEntry : Type 0 where
  pub digest : Digest
  pub names : List Name
  pub indexed : Bool
  pub platforms : ℕ
  pub attestations : ℕ
  pub manifests : List Digest

pub record Plan : Type 0 where
  pub blobs : List PlanBlob
  pub manifests : List PlanManifest
  pub entries : List PlanEntry

abbrev pub plans_blob : Digest → List PlanBlob → Bool
plans_blob d [] = false
plans_blob d (b ∷ bs) = bytes_eq b.digest d || plans_blob d bs

abbrev pub plans_manifest : Digest → List PlanManifest → Bool
plans_manifest d [] = false
plans_manifest d (m ∷ ms) = bytes_eq m.digest d || plans_manifest d ms

-- The plan, and the manifests of the entry that is walked.
pub record Walked : Type 0 where
  pub blobs : List PlanBlob
  pub manifests : List PlanManifest
  pub order : List Digest

-- The loop over the blobs of a node.
unfoldable pub plan_blobs : Archive → List Descriptor → List PlanBlob → List PlanBlob
plan_blobs a [] bs = bs
plan_blobs a (d ∷ ds) bs = plan_blobs a ds (
    if plans_blob d.digest bs
    then bs
    else bs
      ++ record {
        digest = d.digest;
        size = archive_size a d.digest;
        media_type = d.media_type;
        stored = false;
      }
        ∷ [])

abbrev pub planned : ManifestNode → PlanManifest
planned n = record {
  digest = n.desc.digest;
  media_type = n.desc.media_type;
  body = n.body;
  indexed = is_index n.manifest;
  synthesized = n.synthesized;
  attestation = is_attestation n.desc;
}

unfoldable pub plan_manifest : ManifestNode → List PlanManifest → List PlanManifest
plan_manifest n ms = if plans_manifest n.desc.digest ms then ms else ms ++ planned n ∷ []

-- A node behind its children.
unfoldable pub visit : Archive → ManifestNode → Walked → Walked
unfolding plan_blobs plan_manifest
visit a n w = record {
  blobs = plan_blobs a (blob_descriptors n.manifest) w.blobs;
  manifests = plan_manifest n w.manifests;
  order = w.order ++ n.desc.digest ∷ [];
}

-- The function walk of Plan, over siblings.
unfoldable pub walk : Archive → Nodes → Walked → Walked
unfolding visit
walk a no_nodes w = w
walk a (node n cs ss) w = walk a ss (visit a n (walk a cs w))

-- The children with and without the annotation of an attestation.
unfoldable pub count_children : Nodes → ℕ × ℕ → ℕ × ℕ
count_children no_nodes c = c
count_children (node n cs ss) (platforms, attestations) =
    count_children ss (
      if is_attestation n.desc
      then (platforms, suc attestations)
      else (suc platforms, attestations))

abbrev pub Root : Type 0
Root = ManifestNode × Nodes

-- The entry of a root.
unfoldable pub plan_entry : Root → List Digest → PlanEntry
unfolding count_children
plan_entry (n, cs) order =
    let (platforms, attestations) =
      if is_index n.manifest then count_children cs (0, 0) else (0, 0) in
    record {
      digest = n.desc.digest;
      names = [];
      indexed = is_index n.manifest;
      platforms = platforms;
      attestations = attestations;
      manifests = order;
    }

-- The loop over the roots.
unfoldable pub plan_roots : Archive → List Root → Plan → Plan
unfolding walk visit plan_entry
plan_roots a [] p = p
plan_roots a ((n, cs) ∷ rs) p =
    let w =
      visit a n (walk a cs (record { blobs = p.blobs; manifests = p.manifests; order = [] })) in
    plan_roots a rs (record {
      blobs = w.blobs;
      manifests = w.manifests;
      entries = p.entries ++ plan_entry (n, cs) w.order ∷ [];
    })

abbrev pub has_root : Digest → List Root → Bool
has_root d [] = false
has_root d ((n, cs) ∷ rs) = bytes_eq n.desc.digest d || has_root d rs

-- A root is listed once; one that is absent is an error.
unfoldable pub add_root : Option Lookup → List Root → Option (List Root)
add_root none rs = none
add_root (some absent) rs = none
add_root (some broken) rs = none
add_root (some (present n cs)) rs =
    some (if has_root n.desc.digest rs then rs else rs ++ (n, cs) ∷ [])

-- The loop over index.json; running out of fuel is an error here.
unfoldable pub find_roots : Json → Archive → ℕ → List Descriptor → List Root → Option (List Root)
unfolding add_root resolve_node
find_roots json a f [] rs = some rs
find_roots json a f (d ∷ ds) rs = elim (add_root (resolve_node json a f d) rs) [
  | none ↦ none
  | some rs' ↦ find_roots json a f ds rs'
]

-- Asking whether each blob is there; `none` is an error.
unfoldable pub mark_stored : (Digest → Option Bool) → List PlanBlob → Option (List PlanBlob)
mark_stored asks [] = some []
mark_stored asks (b ∷ bs) = elim (asks b.digest) [
  | none ↦ none
  | some s ↦ elim (mark_stored asks bs) [
    | none ↦ none
    | some rest ↦ some (record b { stored = s } ∷ rest)
  ]
]
