-- ===== src/DockerArchive/Archive.antt =====
-- dockerarchive/archive.go: the blobs of an archive. What archive/tar reads of a file, and the decoders of
-- encoding/json, are arguments.
use oci_amber.Prelude.{
  ℕ, ◌*◌, Bool, true, false, not, Option, none, some, List, [], ◌∷◌, ◌++◌, ltb, if◌then◌else◌,
}
use oci_amber.Prelude.Text.{Bytes, codes, bytes_eq, cut_prefix}
use oci_amber.Prelude.Assoc.{Assoc, lookup, insert}
use oci_amber.Oci.Errors.{Result, ok, err}
use oci_amber.Oci.Digest.{Digest, parse_digest, digest_of_bytes}
use oci_amber.Oci.Manifest.{Manifest, parse_manifest, is_index}

abbrev pub max_top_file : ℕ
max_top_file = 16 * 1024 * 1024

abbrev pub max_small_blob : ℕ
max_small_blob = 64 * 1024 * 1024

-- A section of the file: its size, and its bytes when they can be read.
pub record Section : Type 0 where
  pub size : ℕ
  pub content : Option Bytes

pub record LegacyEntry : Type 0 where
  pub config : Bytes
  pub repo_tags : List Bytes

pub record Archive : Type 0 where
  pub blobs : Assoc Section
  pub index : Manifest
  pub legacy : List LegacyEntry

-- A header of the tar file, and the section behind it, if its offset can be found.
pub record TarEntry : Type 0 where
  pub regular : Bool
  pub located : Bool
  pub name : Bytes
  pub section : Section

-- The files that scan collects.
pub record Scanned : Type 0 where
  pub sections : Assoc Section
  pub index_file : Option Bytes
  pub manifest_file : Option Bytes
  pub layout_file : Option Bytes

abbrev pub nothing_scanned : Scanned
nothing_scanned = record {
  sections = [];
  index_file = none;
  manifest_file = none;
  layout_file = none;
}

-- readTop
unfoldable pub read_top : Section → Option Bytes
read_top s = if ltb max_top_file s.size then none else s.content

abbrev pub trim_dot : Bytes → Bytes
trim_dot name = elim (cut_prefix name (codes "./")) [ none ↦ name | some rest ↦ rest ]

-- A blob under blobs/sha256; another file is passed over.
scan_blob : TarEntry → Scanned → Result Digest → Option Scanned
scan_blob e s (err x) = some s
scan_blob e s (ok d) =
    if e.located then some record s { sections = insert d e.section s.sections } else none

scan_path : TarEntry → Scanned → Option Bytes → Option Scanned
unfolding scan_blob
scan_path e s none = some s
scan_path e s (some hex) = scan_blob e s (parse_digest (codes "sha256:" ++ hex))

-- The switch of scan on the name of a regular file.
unfoldable pub scan_entry : TarEntry → Scanned → Option Scanned
unfolding read_top scan_path
scan_entry e s =
    let name = trim_dot e.name in
    if not e.regular
    then some s
    else if bytes_eq name (codes "index.json")
    then elim (read_top e.section) [ none ↦ none | some b ↦ some record s { index_file = some b } ]
    else if bytes_eq name (codes "manifest.json")
    then elim (read_top e.section) [
      | none ↦ none
      | some b ↦ some record s { manifest_file = some b }
    ]
    else if bytes_eq name (codes "oci-layout")
    then elim (read_top e.section) [ none ↦ none | some b ↦ some record s { layout_file = some b } ]
    else scan_path e s (cut_prefix name (codes "blobs/sha256/"))

-- The loop of scan; `broken` is an error of the tar reader behind the entries.
unfoldable pub scan_entries : Bool → List TarEntry → Scanned → Option Scanned
unfolding scan_entry
scan_entries broken [] s = if broken then none else some s
scan_entries broken (e ∷ es) s = elim (scan_entry e s) [
  | none ↦ none
  | some s' ↦ scan_entries broken es s'
]

-- The decoders of index.json, manifest.json and oci-layout.
pub record Decoders : Type 0 where
  pub index_of : Bytes → Option Manifest
  pub legacy_of : Bytes → Option (List LegacyEntry)
  pub layout_ok : Bytes → Bool

abbrev pub optional_legacy : Decoders → Option Bytes → Option (List LegacyEntry)
optional_legacy d none = some []
optional_legacy d (some b) = d.legacy_of b

abbrev pub optional_layout : Decoders → Option Bytes → Bool
optional_layout d none = true
optional_layout d (some b) = d.layout_ok b

scan_index : Decoders → Scanned → Result Manifest → Option Archive
scan_index d s (err e) = none
scan_index d s (ok m) =
    if not (is_index m) then none else elim (optional_legacy d s.manifest_file) [
      | none ↦ none
      | some legacy ↦
          if optional_layout d s.layout_file
          then some record { blobs = s.sections; index = m; legacy = legacy }
          else none
    ]

scan_files : Decoders → Option Scanned → Option Archive
unfolding scan_index
scan_files d none = none
scan_files d (some s) = elim s.index_file [
  | none ↦ none
  | some b ↦ scan_index d s (parse_manifest d.index_of b)
]

-- scan
unfoldable pub scan_archive : Decoders → Bool → List TarEntry → Option Archive
unfolding scan_files scan_entries
scan_archive d broken es = scan_files d (scan_entries broken es nothing_scanned)

-- (*Archive).Has
unfoldable pub archive_has : Archive → Digest → Bool
archive_has a d = elim (lookup d a.blobs) [ none ↦ false | some s ↦ true ]

-- (*Archive).Size, 0 when there is no blob.
unfoldable pub archive_size : Archive → Digest → ℕ
archive_size a d = elim (lookup d a.blobs) [ none ↦ 0 | some s ↦ s.size ]

-- (*Archive).ReadBlob; `none` is an error.
unfoldable pub read_blob : (Bytes → Bytes) → Archive → Digest → Option Bytes
read_blob sha256 a d = elim (lookup d a.blobs) [
  | none ↦ none
  | some s ↦ if ltb max_small_blob s.size then none else elim s.content [
    | none ↦ none
    | some b ↦ if bytes_eq (digest_of_bytes sha256 b) d then some b else none
  ]
]
