-- ===== src/DockerArchive/Resolve.antt =====
-- dockerarchive/plan.go: the manifests of an archive, with the children that it holds. A JSON text and its
-- members are bytes, and encoding/json is an argument.
pub mod Depth
use oci_amber.Prelude.{
  ℕ, zero, suc, Bool, true, false, not, ◌&&◌, Option, none, some, List, [], ◌∷◌, ltb, length,
  get_elem?, ◌==◌, if◌then◌else◌,
}
use oci_amber.Prelude.Int.{ℤ, pos}
use oci_amber.Prelude.Text.{Bytes}
use oci_amber.Oci.Errors.{Result, ok, err}
use oci_amber.Oci.Digest.{Digest, is_empty, digest_of_bytes}
use oci_amber.Oci.Manifest.{
  Descriptor, Manifest, parse_manifest, is_index, effective_media_type, blob_descriptors, elements,
}
use oci_amber.DockerArchive.Archive.{Archive, archive_has, read_blob}

-- A node without its children.
pub record ManifestNode : Type 0 where
  pub desc : Descriptor
  pub body : Bytes
  pub manifest : Manifest
  pub synthesized : Bool

-- A node with its children, and the siblings behind it.
pub data Nodes : Type 0 where
  no_nodes : Nodes
  node : ManifestNode → Nodes → Nodes → Nodes

-- What resolve returns: a node with its children, nothing, or an error.
pub data Lookup : Type 0 where
  present : ManifestNode → Nodes → Lookup
  absent : Lookup
  broken : Lookup

-- The children that are there, with their positions.
pub record Kept : Type 0 where
  pub positions : List ℕ
  pub children : Nodes

-- json: the members of an index and the rest of it, a member with another digest and size, and the
-- text of an index.
pub record Json : Type 0 where
  pub unmarshal : Bytes → Option Manifest
  pub sha256 : Bytes → Bytes
  pub members : Bytes → Option (Bytes × List Bytes)
  pub retarget : Bytes → Digest → ℤ → Option Bytes
  pub join : Bytes → List Bytes → Option Bytes

module _ (json : Json) where
  -- A member that is kept, and those behind it.
  prune_member : ManifestNode → Option Bytes → Option (List Bytes) → Option (List Bytes)
  prune_member n none rest = none
  prune_member n (some raw) none = none
  prune_member n (some raw) (some rest) =
      if n.synthesized
      then elim (json.retarget raw n.desc.digest n.desc.size) [
        | none ↦ none
        | some r ↦ some (r ∷ rest)
      ]
      else some (raw ∷ rest)

  prune_members : List Bytes → List ℕ → Nodes → Option (List Bytes)
  unfolding prune_member
  prune_members raws [] ns = some []
  prune_members raws (i ∷ is) no_nodes = none
  prune_members raws (i ∷ is) (node n cs ss) =
      prune_member n (get_elem? raws i) (prune_members raws is ss)

  -- pruneIndex
  unfoldable pub prune_index : Bytes → List ℕ → Nodes → Option Bytes
  unfolding prune_members
  prune_index body keep children = elim (json.members body) [
    | none ↦ none
    | some (top, raws) ↦ elim (prune_members raws keep children) [
      | none ↦ none
      | some kept ↦ json.join top kept
    ]
  ]

  -- The rest of resolve behind pruneIndex.
  synthesize : Descriptor → Nodes → Bytes → Result Manifest → Lookup
  synthesize d children pruned (err e) = broken
  synthesize d children pruned (ok m) =
      present
        (record {
          desc = record d {
            digest = digest_of_bytes json.sha256 pruned;
            size = pos (length pruned);
          };
          body = pruned;
          manifest = m;
          synthesized = true;
        })
        children

  prune : Descriptor → Nodes → Option Bytes → Lookup
  unfolding synthesize
  prune d children none = broken
  prune d children (some pruned) =
      synthesize d children pruned (parse_manifest json.unmarshal pruned)

  -- An index, behind the loop over its children.
  unfoldable pub resolve_index : Descriptor → Bytes → Manifest → Kept → Lookup
  unfolding prune prune_index
  resolve_index d body m kept =
      if length kept.positions == 0
      then broken
      else if ltb (length kept.positions) (length (elements m.manifests))
      then prune d kept.children (prune_index body kept.positions kept.children)
      else present (record { desc = d; body = body; manifest = m; synthesized = false })
          kept.children

-- The loop over the blobs of a manifest.
unfoldable pub holds_all : Archive → List Descriptor → Bool
holds_all a [] = true
holds_all a (d ∷ ds) = archive_has a d.digest && holds_all a ds

-- One child, and the children behind it; an error leaves the loop.
unfoldable pub keep_child : ℕ → Lookup → Option (Option Kept) → Option (Option Kept)
keep_child i broken rest = some none
keep_child i absent rest = rest
keep_child i (present n cs) none = none
keep_child i (present n cs) (some none) = some none
keep_child i (present n cs) (some (some k)) =
    some (some record { positions = i ∷ k.positions; children = node n cs k.children })

-- The loop over the children; the outer `none` is a child that ran out of fuel.
unfoldable pub resolve_each :
    (Descriptor → Option Lookup) → ℕ → List Descriptor → Option (Option Kept)
unfolding keep_child
resolve_each r i [] = some (some record { positions = []; children = no_nodes })
resolve_each r i (d ∷ ds) = elim (r d) [
  | none ↦ none
  | some l ↦ keep_child i l (resolve_each r (suc i) ds)
]

-- A descriptor without a media type gets the manifest's.
abbrev pub typed : Descriptor → Manifest → Descriptor
typed d m = if is_empty d.media_type then record d { media_type = effective_media_type [] m } else d

module _ (json : Json) (a : Archive) where
  unfoldable pub after_children :
      Descriptor → Bytes → Manifest → Option (Option Kept) → Option Lookup
  unfolding resolve_index
  after_children d body m none = none
  after_children d body m (some none) = some broken
  after_children d body m (some (some kept)) = some (resolve_index json d body m kept)

  -- A manifest that is read and parsed.
  unfoldable pub resolve_parsed :
      (Descriptor → Option Lookup) → Descriptor → Bytes → Result Manifest → Option Lookup
  unfolding after_children holds_all
  resolve_parsed r d body (err e) = some broken
  resolve_parsed r d body (ok m) =
      if is_index m
      then after_children (typed d m) body m (resolve_each r 0 (elements m.manifests))
      else if holds_all a (blob_descriptors m)
      then some (
          present (record { desc = typed d m; body = body; manifest = m; synthesized = false })
            no_nodes)
      else some broken

  unfoldable pub resolve_read :
      (Descriptor → Option Lookup) → Descriptor → Option Bytes → Option Lookup
  unfolding resolve_parsed
  resolve_read r d none = some broken
  resolve_read r d (some body) = resolve_parsed r d body (parse_manifest json.unmarshal body)

  -- (*Archive).resolve, in indexes nested `f` deep at most.
  unfoldable pub resolve_node : ℕ → Descriptor → Option Lookup
  unfolding resolve_read
  resolve_node zero d = none
  resolve_node (suc f) d =
      if not (archive_has a d.digest)
      then some absent
      else resolve_read (resolve_node f) d (read_blob json.sha256 a d.digest)
