-- ===== src/Rootfs/Builder/Safe.antt =====
-- The trees that layers build.
use oci_amber.Prelude.{◌≡◌, ◌≢◌, refl, true, none, some, List, [], ◌∷◌, All}
use oci_amber.Prelude.Text.{Bytes}
use oci_amber.Oci.Digest.{Digest}
use oci_amber.Rootfs.Path.{path_base}
use oci_amber.Rootfs.Path.Clean.{IsName}
use oci_amber.Rootfs.Entry.{
  Entry, Header, file, dir, symlink, hardlink, char, block, fifo, whiteout, opaque, skip, convert,
}
use oci_amber.Rootfs.Entry.Convert.{is_placed, convert-IsName}
use oci_amber.Rootfs.Tree.{Done, put, link, whiteout_entry, opaque_entry}
use oci_amber.Rootfs.Tree.Proper.{
  IsProper, put-IsProper, link-IsProper, whiteout_entry-IsProper, opaque_entry-IsProper,
}
use oci_amber.Rootfs.Builder.{
  Builder, record_skip, apply_whiteout, apply_entry, each, apply, apply_layers, entries,
}
use oci_amber.Rootfs.Builder.Skips.{each-keeps}

-- An entry whose node gets a proper name; a hard link at the root does not.
abbrev IsNamed : Entry → Type 0
IsNamed e =
    (is_placed e.kind ≡ true → e.path ≢ [] → IsName (path_base e.path))
    × (e.kind ≡ hardlink → e.path ≢ [])

abbrev ProperTree : Builder → Type 0
ProperTree b = IsProper b.tree

record_skip-tree :
    (layer : Digest) (e : Entry) (d : Done) (b : Builder)
    → IsProper d.0
    → ProperTree (record_skip layer e d b)
unfolding record_skip
record_skip-tree layer e (t, none) b p = p
record_skip-tree layer e (t, some r) b p = p

apply_whiteout-IsProper :
    (layer : Digest) (e : Entry) (b : Builder)
    → ProperTree b
    → ProperTree (apply_whiteout layer e b)
unfolding apply_whiteout
apply_whiteout-IsProper layer e b p =
    elim e.kind
      as (λ x. ProperTree (elim x as (λ _. Builder) [
        | whiteout ↦ record_skip layer e (whiteout_entry e b.tree) b
        | opaque ↦ record_skip layer e (opaque_entry e b.tree) b
        | _ ↦ b
      ])) [
        | whiteout ↦
            record_skip-tree layer e (whiteout_entry e b.tree) b
              (whiteout_entry-IsProper e b.tree p)
        | opaque ↦
            record_skip-tree layer e (opaque_entry e b.tree) b (opaque_entry-IsProper e b.tree p)
        | _ ↦ p
      ]

apply_entry-IsProper :
    (layer : Digest) (e : Entry) (b : Builder)
    → IsNamed e
    → ProperTree b
    → ProperTree (apply_entry layer e b)
unfolding apply_entry is_placed
apply_entry-IsProper layer e b (n, r) p =
    elim e.kind
        as (λ x.
          (is_placed x ≡ true → e.path ≢ [] → IsName (path_base e.path))
          → (x ≡ hardlink → e.path ≢ [])
          → ProperTree (elim x as (λ _. Builder) [
            | whiteout ↦ b
            | opaque ↦ b
            | skip ↦ record_skip layer e (b.tree, e.reason) b
            | hardlink ↦ record_skip layer e (link e b.tree) b
            | _ ↦ record_skip layer e (put e b.tree) b
          ])) [
            | whiteout ↦ λ m q. p
            | opaque ↦ λ m q. p
            | skip ↦ λ m q. record_skip-tree layer e (b.tree, e.reason) b p
            | hardlink ↦ λ m q.
                record_skip-tree layer e (link e b.tree) b
                  (link-IsProper e b.tree (m refl (q refl)) p)
            | file ↦
                λ m q. record_skip-tree layer e (put e b.tree) b (put-IsProper e b.tree (m refl) p)
            | dir ↦
                λ m q. record_skip-tree layer e (put e b.tree) b (put-IsProper e b.tree (m refl) p)
            | symlink ↦
                λ m q. record_skip-tree layer e (put e b.tree) b (put-IsProper e b.tree (m refl) p)
            | char ↦
                λ m q. record_skip-tree layer e (put e b.tree) b (put-IsProper e b.tree (m refl) p)
            | block ↦
                λ m q. record_skip-tree layer e (put e b.tree) b (put-IsProper e b.tree (m refl) p)
            | fifo ↦
                λ m q. record_skip-tree layer e (put e b.tree) b (put-IsProper e b.tree (m refl) p)
          ]
      n r

-- No header of the layer is a hard link for the root.
abbrev pub NoRootLink : List (Header × Bytes) → Type 0
NoRootLink =
    All (λ (h : Header × Bytes). (convert h.0 h.1).kind ≡ hardlink → (convert h.0 h.1).path ≢ [])

entries-IsNamed :
    (headers : List (Header × Bytes)) → NoRootLink headers → All IsNamed (entries headers)
unfolding entries
entries-IsNamed [] n = tt
entries-IsNamed ((hdr, content) ∷ rest) (n, a) =
    ((convert-IsName hdr content, n), entries-IsNamed rest a)

apply-IsProper :
    (layer : Digest) (es : List Entry) (b : Builder)
    → All IsNamed es
    → ProperTree b
    → ProperTree (apply layer es b)
unfolding apply
apply-IsProper layer es b a p =
    each-keeps ProperTree IsNamed (apply_entry layer) es (each (apply_whiteout layer) es b)
      (apply_entry-IsProper layer) a
      (each-keeps ProperTree IsNamed (apply_whiteout layer) es b
        (λ e c n. apply_whiteout-IsProper layer e c) a p)

-- Whatever layers are applied, with whatever names, symlinks and hard links, as long as no hard link
-- is for the root itself: every name in the tree is a proper one, not empty, neither "." nor "..",
-- and without '/', and only directories have children.
pub apply_layers-IsProper :
    (layers : List (Digest × List (Header × Bytes))) (b : Builder)
    → All (λ (l : Digest × List (Header × Bytes)). NoRootLink l.1) layers
    → IsProper b.tree
    → IsProper (apply_layers layers b).tree
unfolding apply_layers
apply_layers-IsProper [] b a p = p
apply_layers-IsProper ((layer, headers) ∷ rest) b (n, a) p =
    apply_layers-IsProper rest (apply layer (entries headers) b) a
      (apply-IsProper layer (entries headers) b (entries-IsNamed headers n) p)
