-- ===== src/Rootfs/Entry/Convert.antt =====
-- What convert makes of a header.
use oci_amber.Prelude.{
  ◌≡◌, ◌≢◌, ◌<◌, ◌⊎◌, refl, sym, ap, ◌∙◌, subst, Bool, true, false, inl, inr, [], arith,
}
use oci_amber.Prelude.Text.{Bytes}
use oci_amber.Rootfs.Path.{clean_path, path_base, parent_dir}
use oci_amber.Rootfs.Path.Clean.{IsName, path_base-IsName}
use oci_amber.Rootfs.Entry.{
  Entry, Header, Kind, whiteout, opaque, skip, convert, common, convert_whiteout, convert_link,
  convert_type,
}

-- The kinds that put a node into the tree.
unfoldable pub is_placed : Kind → Bool
is_placed whiteout = false
is_placed opaque = false
is_placed skip = false
is_placed _ = true

convert_whiteout-is_placed :
    (base parent : Bytes) (e : Entry) → is_placed (convert_whiteout base parent e).kind ≡ false
unfolding convert_whiteout is_placed
convert_whiteout-is_placed base parent e = ground arith

convert_type-path :
    (hdr : Header) (content : Bytes) (e : Entry) → (convert_type hdr content e).path ≡ e.path
unfolding convert_type convert_link
convert_type-path hdr content e = ground arith

convert-cases :
    (hdr : Header) (content : Bytes)
    → (is_placed (convert hdr content).kind ≡ false)
      ⊎ (((clean_path hdr.name).1 ≡ true)
          × (convert hdr content ≡ convert_type hdr content (common hdr)))
unfolding convert is_placed
convert-cases hdr content = ground (
  arith,
  convert_whiteout-is_placed (path_base (common hdr).path) (parent_dir (common hdr).path)
      (common hdr),
)

common-path : (hdr : Header) → (common hdr).path ≡ (clean_path hdr.name).0
unfolding common
common-path hdr = refl

-- An entry that puts a node into the tree stays inside the root: its last component is a proper
-- name, unless it is the root itself.
pub convert-IsName :
    (hdr : Header) (content : Bytes)
    → is_placed (convert hdr content).kind ≡ true
    → (convert hdr content).path ≢ []
    → IsName (path_base (convert hdr content).path)
convert-IsName hdr content p n = elim (convert-cases hdr content) [
  | inl f ↦ absurd (cc (p, f))
  | inr (inside, e) ↦
      (let same : (convert hdr content).path ≡ (clean_path hdr.name).0 =
          ap (λ x. x.path) e ∙ convert_type-path hdr content (common hdr) ∙ common-path hdr in
        subst (λ x. IsName (path_base x)) (sym same)
          (path_base-IsName hdr.name (clean_path hdr.name).0
            (λ i. ((clean_path hdr.name).0, inside i)) (λ z. n (same ∙ z))))
]

convert_whiteout-mode :
    (base parent : Bytes) (e : Entry) → (convert_whiteout base parent e).mode ≡ e.mode
unfolding convert_whiteout
convert_whiteout-mode base parent e = ground arith

convert_type-mode :
    (hdr : Header) (content : Bytes) (e : Entry) → (convert_type hdr content e).mode ≡ e.mode
unfolding convert_type convert_link
convert_type-mode hdr content e = ground arith

convert-mode : (hdr : Header) (content : Bytes) → (convert hdr content).mode ≡ (common hdr).mode
unfolding convert
convert-mode hdr content = ground (
  arith,
  convert_whiteout-mode (path_base (common hdr).path) (parent_dir (common hdr).path) (common hdr),
  convert_type-mode hdr content (common hdr),
)

-- The mode of an entry is permission bits only.
pub convert-mode_lt : (hdr : Header) (content : Bytes) → (convert hdr content).mode < 4096
unfolding common
convert-mode_lt hdr content = rw (convert-mode hdr content) (omega arith)
