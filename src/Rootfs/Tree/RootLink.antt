-- ===== src/Rootfs/Tree/RootLink.antt =====
-- A hard link whose cleaned path is the root.
use oci_amber.Prelude.{
  ◌≡◌, refl, ap, ◌∙◌, subst, inl, inr, Bool-cases, false, if◌then◌else◌, none, some, [],
}
use oci_amber.Prelude.Text.{Bytes, bytes_eq, last_index_byte, has_prefix}
use oci_amber.Prelude.Split.{split, join}
use oci_amber.Rootfs.Path.{
  dot, path_base, parent_dir, path_dir, path_clean, clean_parts, split_path, split_parent,
}
use oci_amber.Rootfs.Entry.{Entry}
use oci_amber.Rootfs.Tree.Proper.{IsProper}
use oci_amber.Rootfs.Tree.Change.{get_child-set_child}
use oci_amber.Rootfs.Tree.{
  Forest, nil, child, Attr, is_dir, get_child, link, linked, find, set_child, link_to, in_parent,
  resolve_dir, walk, change_at,
}

in_parent-root : (h : Bytes → Forest → Forest) (t : Forest) → in_parent [] h t ≡ (h dot t, none)
unfolding in_parent resolve_dir split_path walk change_at split_parent parent_dir path_dir
    path_clean has_prefix last_index_byte join clean_parts split path_base
in_parent-root h t = refl

link_to-root :
    (e : Entry) (t f : Forest) (a : Attr)
    → e.path ≡ []
    → is_dir a ≡ false
    → link_to e (some (a, f), none) t ≡ (set_child dot (linked e a) f t, none)
unfolding link_to
link_to-root e t f a r d = rw (d, r) (in_parent-root (λ name. set_child name (linked e a) f) t)

-- It is placed in the root directory, under the name ".".
link-root :
    (e : Entry) (t f : Forest) (a : Attr)
    → e.path ≡ []
    → find e.target t ≡ (some (a, f), none)
    → is_dir a ≡ false
    → link e t ≡ (set_child dot (linked e a) f t, none)
unfolding link
link-root e t f a r h d = rw h (link_to-root e t f a r d)

-- A tree with a node under "." is not proper.
set_child-dot : (a : Attr) (f t : Forest) → IsProper (set_child dot a f t) → ⊥
unfolding IsProper set_child
set_child-dot a f nil p = absurd (cc (p.0.0))
set_child-dot a f (child d b g rest) p = elim (Bool-cases (bytes_eq d dot)) [
  | inl e ↦ absurd (
      cc (
        (subst
          (λ x. IsProper (if x then child dot a f rest else child d b g (set_child dot a f rest))) e
          p).0.0))
  | inr e ↦
      set_child-dot a f rest
        (subst
          (λ x. IsProper (if x then child dot a f rest else child d b g (set_child dot a f rest))) e
          p).3
]

-- A hard link whose cleaned path is the root and whose target is found and is no directory is not
-- recorded as a skip, and leaves a tree that is not proper: the root directory holds, under the name
-- ".", the target's node with the attributes of the entry.
pub link-not_IsProper :
    (e : Entry) (t f : Forest) (a : Attr)
    → e.path ≡ []
    → find e.target t ≡ (some (a, f), none)
    → is_dir a ≡ false
    → ((link e t).1 ≡ none)
      × (¬ IsProper (link e t).0)
      × (get_child dot (link e t).0 ≡ some (linked e a, f))
link-not_IsProper e t f a r h d =
    let same = link-root e t f a r h d in
    (
      ap (λ x. x.1) same,
      λ p. set_child-dot (linked e a) f t (subst (λ x. IsProper x.0) same p),
      ap (λ x. get_child dot x.0) same ∙ (get_child-set_child dot dot (linked e a) f t).0 refl,
    )
