-- ===== src/DockerArchive/Assign.antt =====
-- dockerarchive/plan.go: the names of the entries, and the whole plan.
pub mod Named
pub mod Planned
pub mod Depth
use oci_amber.Prelude.{
  ℕ, zero, suc, Bool, true, false, not, ◌&&◌, Option, none, some, List, [], ◌∷◌, ◌++◌, length, ltb,
  ◌==◌, if◌then◌else◌,
}
use oci_amber.Prelude.Text.{Bytes, codes, bytes_eq, cut_prefix}
use oci_amber.Prelude.Assoc.{Assoc, lookup, insert}
use oci_amber.Oci.Errors.{Result, ok, err}
use oci_amber.Oci.Digest.{Digest, parse_digest}
use oci_amber.Oci.Manifest.{Descriptor, Manifest, elements}
use oci_amber.DockerArchive.Names.{
  Name, RepoTag, tagged, untagged, bad_tag, parse_name, name_from_repo_tag,
}
use oci_amber.DockerArchive.Archive.{Archive, LegacyEntry}
use oci_amber.DockerArchive.Resolve.{ManifestNode, Nodes, no_nodes, node, Json}
use oci_amber.DockerArchive.Plan.{
  PlanBlob, PlanEntry, Plan, Root, plan_roots, find_roots, mark_stored,
}

abbrev pub same_name : Name → Name → Bool
same_name a b = bytes_eq a.repo b.repo && bytes_eq a.tag b.tag

abbrev pub has_name : Name → List Name → Bool
has_name n [] = false
has_name n (x ∷ xs) = if same_name x n then true else has_name n xs

-- appendName
unfoldable pub append_name : List Name → Name → List Name
append_name names n = if has_name n names then names else names ++ n ∷ []

-- A name for the entry at a position.
unfoldable pub name_entry : ℕ → Name → List PlanEntry → List PlanEntry
unfolding append_name
name_entry i n [] = []
name_entry zero n (e ∷ es) = record e { names = append_name e.names n } ∷ es
name_entry (suc i) n (e ∷ es) = e ∷ name_entry i n es

-- The loop over the names that override the archive's.
unfoldable pub override_names : List Bytes → List PlanEntry → Option (List PlanEntry)
unfolding name_entry
override_names [] es = some es
override_names (s ∷ ss) es = elim (parse_name s) [
  | none ↦ none
  | some n ↦ override_names ss (name_entry 0 n es)
]

-- configRoot: the positions of the roots by the digest of a config.
abbrev pub add_position : Digest → ℕ → Assoc (List ℕ) → Assoc (List ℕ)
add_position d i m = insert d (elim (lookup d m) [ none ↦ i ∷ [] | some is ↦ is ++ i ∷ [] ]) m

unfoldable pub add_config : ℕ → ManifestNode → Assoc (List ℕ) → Assoc (List ℕ)
add_config i n m = elim n.manifest.config [ none ↦ m | some c ↦ add_position c.digest i m ]

-- The function walk of assignNames, over siblings.
unfoldable pub walk_configs : ℕ → Nodes → Assoc (List ℕ) → Assoc (List ℕ)
unfolding add_config
walk_configs i no_nodes m = m
walk_configs i (node n cs ss) m = walk_configs i ss (walk_configs i cs (add_config i n m))

unfoldable pub config_roots : ℕ → List Root → Assoc (List ℕ) → Assoc (List ℕ)
unfolding walk_configs
config_roots i [] m = m
config_roots i ((n, cs) ∷ rs) m = config_roots (suc i) rs (walk_configs i cs (add_config i n m))

-- Every position gets the name.
unfoldable pub name_positions : List ℕ → Name → List PlanEntry → List PlanEntry
unfolding name_entry
name_positions [] n es = es
name_positions (i ∷ is) n es = name_positions is n (name_entry i n es)

-- The loop over RepoTags.
unfoldable pub tag_entries : List ℕ → List Bytes → List PlanEntry → Option (List PlanEntry)
unfolding name_positions
tag_entries is [] es = some es
tag_entries is (t ∷ ts) es = elim (name_from_repo_tag t) [
  | bad_tag ↦ none
  | untagged ↦ tag_entries is ts es
  | tagged n ↦ tag_entries is ts (name_positions is n es)
]

-- strings.TrimPrefix of the blob path.
abbrev pub blob_hex : Bytes → Bytes
blob_hex path = elim (cut_prefix path (codes "blobs/sha256/")) [ none ↦ path | some hex ↦ hex ]

tag_config : List Bytes → Option (List ℕ) → List PlanEntry → Option (List PlanEntry)
unfolding tag_entries
tag_config tags none es = none
tag_config tags (some is) es = if ltb 1 (length is) then none else tag_entries is tags es

legacy_entry :
    Assoc (List ℕ) → List Bytes → Result Digest → List PlanEntry → Option (List PlanEntry)
unfolding tag_config
legacy_entry m tags (err e) es = none
legacy_entry m tags (ok d) es = tag_config tags (lookup d m) es

-- The loop over manifest.json.
unfoldable pub legacy_names :
    Assoc (List ℕ) → List LegacyEntry → List PlanEntry → Option (List PlanEntry)
unfolding legacy_entry
legacy_names m [] es = some es
legacy_names m (l ∷ ls) es =
    elim (legacy_entry m l.repo_tags (parse_digest (codes "sha256:" ++ blob_hex l.config)) es) [
      | none ↦ none
      | some es' ↦ legacy_names m ls es'
    ]

-- The last loop of assignNames.
unfoldable pub all_named : List PlanEntry → Bool
all_named [] = true
all_named (e ∷ es) = not (length e.names == 0) && all_named es

named_only : Option (List PlanEntry) → Option (List PlanEntry)
unfolding all_named
named_only none = none
named_only (some es) = if all_named es then some es else none

-- assignNames
unfoldable pub assign_names :
    Archive → List Root → List Bytes → List PlanEntry → Option (List PlanEntry)
unfolding named_only override_names legacy_names config_roots
assign_names a roots [] es = named_only (legacy_names (config_roots 0 roots []) a.legacy es)
assign_names a roots (s ∷ ss) es = if not (length es == 1) then none else override_names (s ∷ ss) es

abbrev pub no_plan : Plan
no_plan = record { blobs = []; manifests = []; entries = [] }

marked : Plan → Option (List PlanBlob) → Option Plan
marked p none = none
marked p (some bs) = some record p { blobs = bs }

with_names : Option (Digest → Option Bool) → Plan → Option (List PlanEntry) → Option Plan
unfolding marked mark_stored
with_names asks p none = none
with_names none p (some es) = some record p { entries = es }
with_names (some asks) p (some es) = marked (record p { entries = es }) (mark_stored asks p.blobs)

unfoldable pub plan_found :
    Archive → List Bytes → Option (Digest → Option Bool) → Option (List Root) → Option Plan
unfolding with_names plan_roots assign_names
plan_found a names asks none = none
plan_found a names asks (some roots) =
    let p = plan_roots a roots no_plan in with_names asks p (assign_names a roots names p.entries)

-- (*Archive).Plan
unfoldable pub plan_archive :
    Json → Archive → ℕ → List Bytes → Option (Digest → Option Bool) → Option Plan
unfolding plan_found find_roots
plan_archive json a f names asks =
    plan_found a names asks (find_roots json a f (elements a.index.manifests) [])
