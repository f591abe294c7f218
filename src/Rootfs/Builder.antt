-- ===== src/Rootfs/Builder.antt =====
-- rootfs/builder.go: layers applied over each other, and the entries that were left out. The entries
-- of a layer are the headers that archive/tar delivers, each with the key of its content.
pub mod Skips
pub mod Safe
use oci_amber.Prelude.{
  ℕ, suc, Bool, true, false, Option, none, some, List, [], ◌∷◌, ◌++◌, map, ltb, length,
  if◌then◌else◌,
}
use oci_amber.Prelude.Text.{Bytes}
use oci_amber.Oci.Digest.{Digest}
use oci_amber.Rootfs.Entry.{
  Reason, Entry, Header, convert, Kind, file, dir, symlink, hardlink, char, block, fifo, whiteout,
  opaque, skip,
}
use oci_amber.Rootfs.Tree.{Forest, nil, Done, put, link, whiteout_entry, opaque_entry}

abbrev pub max_skipped : ℕ
max_skipped = 100

pub record Skip : Type 0 where
  pub layer : Digest
  pub path : Bytes
  pub reason : Reason

pub record Builder : Type 0 where
  pub tree : Forest
  pub skipped : List Skip
  pub skipped_count : ℕ

abbrev pub new_builder : Builder
new_builder = record { tree = nil; skipped = []; skipped_count = 0 }

-- (*Builder).record, after an operation on the tree.
unfoldable pub record_skip : Digest → Entry → Done → Builder → Builder
record_skip layer e (t, none) b = record b { tree = t }
record_skip layer e (t, some r) b = record {
  tree = t;
  skipped =
      if ltb (length b.skipped) max_skipped
      then b.skipped ++ record { layer = layer; path = e.path; reason = r } ∷ []
      else b.skipped;
  skipped_count = suc b.skipped_count;
}

-- The first loop of Apply: whiteouts.
unfoldable pub apply_whiteout : Digest → Entry → Builder → Builder
apply_whiteout layer e b = elim e.kind [
  | whiteout ↦ record_skip layer e (whiteout_entry e b.tree) b
  | opaque ↦ record_skip layer e (opaque_entry e b.tree) b
  | _ ↦ b
]

-- The second loop: everything else.
unfoldable pub apply_entry : Digest → Entry → Builder → Builder
apply_entry layer e b = elim e.kind [
  | whiteout ↦ b
  | opaque ↦ b
  | skip ↦ record_skip layer e (b.tree, e.reason) b
  | hardlink ↦ record_skip layer e (link e b.tree) b
  | _ ↦ record_skip layer e (put e b.tree) b
]

unfoldable pub each : (Entry → Builder → Builder) → List Entry → Builder → Builder
each f [] b = b
each f (e ∷ es) b = each f es (f e b)

unfoldable pub apply : Digest → List Entry → Builder → Builder
apply layer es b = each (apply_entry layer) es (each (apply_whiteout layer) es b)

-- The entries of a layer.
unfoldable pub entries : List (Header × Bytes) → List Entry
entries [] = []
entries ((hdr, content) ∷ rest) = convert hdr content ∷ entries rest

unfoldable pub apply_layers : List (Digest × List (Header × Bytes)) → Builder → Builder
apply_layers [] b = b
apply_layers ((layer, headers) ∷ rest) b = apply_layers rest (apply layer (entries headers) b)
