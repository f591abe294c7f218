-- ===== src/Rootfs/Examples.antt =====
-- Two small layers, and the tree that they make.
use oci_amber.Prelude.{ℕ, ◌≡◌, refl, true, false, none, some, List, [], ◌∷◌, arith}
use oci_amber.Prelude.Int.{pos}
use oci_amber.Prelude.Text.{Bytes, codes, last_index_byte, has_prefix, cut_prefix}
use oci_amber.Prelude.Split.{split, join}
use oci_amber.Oci.Examples.{sha_a, sha_b}
use oci_amber.Rootfs.Path.{
  dot, clean_path, clean_parts, path_clean, path_dir, path_base, parent_dir, join_path, split_path,
  split_parent,
}
use oci_amber.Rootfs.Entry.{Entry, Header, Kind, file, whiteout, hardlink, convert, is_sparse}
use oci_amber.Rootfs.Tree.{
  Forest, nil, child, Attr, get_child, set_child, remove_child, children_at, change_at, put, link,
  find, linked, attr_of, resolve_dir, walk, whiteout_entry,
}
use oci_amber.Rootfs.Tree.Proper.{IsProper}
use oci_amber.Rootfs.Tree.Placed.{Shows, Keeps, put-Shows}
use oci_amber.Rootfs.Tree.Walk.{Ends, Changed, resolve_dir-Ends}
use oci_amber.Rootfs.Tree.RootLink.{link-not_IsProper}
use oci_amber.Rootfs.Builder.{new_builder, apply, apply_layers}
use oci_amber.Rootfs.Builder.Skips.{apply-swap}
use oci_amber.Rootfs.Builder.Safe.{NoRootLink, apply_layers-IsProper}

abbrev header : Bytes → ℕ → Bytes → Header
header name flag linkname = record {
  name = name;
  linkname = linkname;
  flag = flag;
  mode = 420;
  uid = pos 0;
  gid = pos 0;
  mod_time = none;
  devmajor = pos 0;
  devminor = pos 0;
  records = [];
}

abbrev h_dir : Header
h_dir = header (codes "./etc/") b'5' []

abbrev h_file : Header
h_file = header (codes "/etc/motd") b'0' []

abbrev h_link : Header
h_link = header (codes "lib") b'2' (codes "../etc")

abbrev h_wh : Header
h_wh = header (codes "etc/.wh.motd") b'0' []

abbrev layer_a : List (Header × Bytes)
layer_a = (h_dir, []) ∷ (h_file, codes "k") ∷ (h_link, []) ∷ []

abbrev e_file : Entry
e_file = convert h_file (codes "k")

abbrev e_wh : Entry
e_wh = convert h_wh []

clean_path-run : clean_path (codes "./etc//x/../motd/") ≡ (codes "etc/motd", true)
unfolding clean_path path_clean clean_parts split join has_prefix cut_prefix
clean_path-run = refl

e_file-run : (e_file.kind ≡ file) × (e_file.path ≡ codes "etc/motd")
unfolding convert clean_path path_clean clean_parts split join has_prefix cut_prefix path_base
    is_sparse
e_file-run = (refl, refl)

e_wh-run : (e_wh.kind ≡ whiteout) × (e_wh.path ≡ codes "etc/motd")
unfolding convert clean_path path_clean clean_parts split join has_prefix cut_prefix path_base
    path_dir parent_dir last_index_byte join_path is_sparse
e_wh-run = (refl, refl)

apply-swap_example :
    apply sha_a (e_file ∷ e_wh ∷ []) new_builder ≡ apply sha_a (e_wh ∷ e_file ∷ []) new_builder
apply-swap_example =
    apply-swap sha_a [] [] e_file e_wh new_builder (ground (arith, e_file-run.0))
      (ground (arith, e_wh-run.0))

resolve_dir-Ends_example : Ends true (resolve_dir (codes "lib" ∷ codes ".." ∷ []) true nil)
resolve_dir-Ends_example = resolve_dir-Ends (codes "lib" ∷ codes ".." ∷ []) true nil

layer_b-NoRootLink : NoRootLink ((h_file, codes "k") ∷ [])
layer_b-NoRootLink = (λ k. absurd (cc (e_file-run.0, k)), tt)

apply_layers-IsProper_example :
    IsProper (apply_layers ((sha_b, (h_file, codes "k") ∷ []) ∷ []) new_builder).tree
apply_layers-IsProper_example =
    apply_layers-IsProper ((sha_b, (h_file, codes "k") ∷ []) ∷ []) new_builder
      (layer_b-NoRootLink, tt) (unfold IsProper in tt)

abbrev plain : Kind → Bytes → Entry
plain k p = record {
  kind = k;
  path = p;
  target = codes "motd";
  mode = 420;
  uid = 0;
  gid = 0;
  mtime = pos 0;
  rdev = (0, 0);
  xattrs = [];
  content = codes "k";
  reason = none;
}

abbrev motd : Bytes
motd = codes "motd"

abbrev motd_attr : Attr
motd_attr = record {
  mode = 33188;
  uid = 0;
  gid = 0;
  mtime = pos 0;
  content = codes "k";
  link = [];
  rdev = (0, 0);
  xattrs = [];
  implicit = false;
}

motd-attr : attr_of (plain file motd) ≡ some motd_attr
unfolding attr_of
motd-attr = refl

motd-put : put (plain file motd) nil ≡ (child motd motd_attr nil nil, none)
unfolding put attr_of resolve_dir split_path walk change_at split_parent parent_dir path_dir
    path_clean has_prefix last_index_byte join clean_parts split path_base set_child get_child
motd-put = refl

put-Shows_example :
    (c : Changed
      (split_path (split_parent motd).0)
      true
      (path_base motd)
      nil
      (put (plain file motd) nil).0)
    × (a : Attr) × (f : Forest) × (get_child (path_base motd) c.later ≡ some (a, f))
    × Shows (plain file motd) 32768 a
    × Keeps file (get_child (path_base motd) c.before) f
put-Shows_example =
    put-Shows (plain file motd) 32768 nil refl refl (omega arith) (ground (arith, motd-put))

abbrev one_file : Forest
one_file = child motd motd_attr nil nil

motd-gone : whiteout_entry (plain whiteout motd) one_file ≡ (nil, none)
unfolding whiteout_entry resolve_dir split_path walk change_at split_parent parent_dir path_dir
    path_clean has_prefix last_index_byte join clean_parts split path_base remove_child
motd-gone = refl

motd-found : find motd one_file ≡ (some (motd_attr, nil), none)
unfolding find children_at resolve_dir split_path walk split_parent parent_dir path_dir path_clean
    has_prefix last_index_byte join clean_parts split path_base get_child
motd-found = refl

link-not_IsProper_example :
    ((link (plain hardlink []) one_file).1 ≡ none)
    × (¬ IsProper (link (plain hardlink []) one_file).0)
    × (get_child dot (link (plain hardlink []) one_file).0
        ≡ some (linked (plain hardlink []) motd_attr, nil))
link-not_IsProper_example =
    link-not_IsProper (plain hardlink []) one_file nil motd_attr refl motd-found refl
