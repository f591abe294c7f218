-- ===== src/Rootfs/Tree.antt =====
-- rootfs/tree.go: the merged tree. A directory's children are a forest: a name, the node's
-- attributes, its own children, and the siblings behind it. Nothing is shared in a tree, so a *node
-- of the code is a path of names from the root; a stack of directories is such a path.
pub mod Walk
pub mod Placed
pub mod Proper
pub mod Change
pub mod RootLink
use oci_amber.Prelude.{
  ℕ, zero, suc, ◌+◌, ◌/◌, ◌%◌, ◌*◌, Bool, true, false, not, ◌&&◌, ◌||◌, Option, none, some, List,
  [], ◌∷◌, ◌++◌, ◌==◌, if◌then◌else◌,
}
use oci_amber.Prelude.Int.{ℤ, pos}
use oci_amber.Prelude.Text.{Bytes, bytes_eq, has_prefix}
use oci_amber.Prelude.Split.{split}
use oci_amber.Prelude.Assoc.{Assoc}
use oci_amber.Oci.Digest.{is_empty}
use oci_amber.Rootfs.Path.{slash, is_still, dot_dot, trim_slash, split_path, split_parent}
use oci_amber.Rootfs.Entry.{
  Reason, loop, not_a_directory, link_not_found, link_to_directory, Entry, Kind, file, dir, symlink,
  char, block, fifo,
}

abbrev pub max_symlink_hops : ℕ
max_symlink_hops = 40

-- The type bits of store/dir.go.
abbrev pub type_fifo : ℕ
type_fifo = 4096

abbrev pub type_char : ℕ
type_char = 8192

abbrev pub type_dir : ℕ
type_dir = 16384

abbrev pub type_block : ℕ
type_block = 24576

abbrev pub type_reg : ℕ
type_reg = 32768

abbrev pub type_link : ℕ
type_link = 40960

-- A node without its children. The modes are permission bits below 4096 with type bits above, so
-- that `|` is a sum and `& TypeMask` drops the low 12 bits; a mode has no bits above 2 ^ 16.
pub record Attr : Type 0 where
  pub mode : ℕ
  pub uid : ℕ
  pub gid : ℕ
  pub mtime : ℤ
  pub content : Bytes
  pub link : Bytes
  pub rdev : ℕ × ℕ
  pub xattrs : Assoc Bytes
  pub implicit : Bool

pub data Forest : Type 0 where
  nil : Forest
  child : Bytes → Attr → Forest → Forest → Forest

abbrev pub typ : Attr → ℕ
typ a = a.mode / 4096 % 16 * 4096

abbrev pub is_dir : Attr → Bool
is_dir a = typ a == type_dir

abbrev pub is_link : Attr → Bool
is_link a = typ a == type_link

abbrev pub new_dir : Attr
new_dir = record {
  mode = type_dir + 493;
  uid = 0;
  gid = 0;
  mtime = pos 0;
  content = [];
  link = [];
  rdev = (0, 0);
  xattrs = [];
  implicit = true;
}

-- dir.children[c]
unfoldable pub get_child : Bytes → Forest → Option (Attr × Forest)
get_child c nil = none
get_child c (child d a f rest) = if bytes_eq d c then some (a, f) else get_child c rest

-- dir.children[c] = n
unfoldable pub set_child : Bytes → Attr → Forest → Forest → Forest
set_child c a f nil = child c a f nil
set_child c a f (child d b g rest) =
    let others = set_child c a f rest in
    if bytes_eq d c then child c a f rest else child d b g others

-- delete(dir.children, c)
unfoldable pub remove_child : Bytes → Forest → Forest
remove_child c nil = nil
remove_child c (child d b g rest) =
    let others = remove_child c rest in if bytes_eq d c then others else child d b g others

-- The children of the directory at a stack of names.
unfoldable pub children_at : List Bytes → Forest → Option Forest
children_at [] t = some t
children_at (c ∷ cs) nil = none
children_at (c ∷ cs) (child d a f rest) =
    let below = children_at cs f in
    let beside = children_at (c ∷ cs) rest in
    if bytes_eq d c then (if is_dir a then below else none) else beside

-- A change of the children of the directory at a stack of names.
unfoldable pub change_at : List Bytes → (Forest → Forest) → Forest → Forest
change_at [] h t = h t
change_at (c ∷ cs) h nil = nil
change_at (c ∷ cs) h (child d a f rest) =
    let below = change_at cs h f in
    let beside = change_at (c ∷ cs) h rest in
    if bytes_eq d c
    then (if is_dir a then child d a below rest else child d a f rest)
    else child d a f beside

abbrev pub get_at : List Bytes → Bytes → Forest → Option (Attr × Forest)
get_at stack c t = elim (children_at stack t) [ none ↦ none | some f ↦ get_child c f ]

-- stack[:len(stack)-1] while there is more than the root.
abbrev pub pop : List Bytes → List Bytes
pop [] = []
pop (c ∷ []) = []
pop (c ∷ d ∷ cs) = c ∷ pop (d ∷ cs)

-- What one component does to a walk.
pub data Move : Type 0 where
  stay : Move
  up : Move
  enter : Move
  make : Move
  follow : Bytes → Move
  stop : Move

found : Bool → Option (Attr × Forest) → Move
found create none = if create then make else stop
found create (some (a, f)) =
    if is_link a
    then follow a.link
    else if not (is_dir a)
    then (if create then make else stop)
    else enter

unfoldable pub move : Bool → Bytes → List Bytes → Forest → Move
unfolding found
move create c stack t =
    if is_still c then stay else if bytes_eq c dot_dot then up else found create (get_at stack c t)

-- A symlink loop leaves what was created before it was found.
pub data Walked : Type 0 where
  reached : Forest → List Bytes → Walked
  missing : Walked
  looped : Forest → Walked

abbrev pub start_of_link : Bytes → List Bytes → List Bytes
start_of_link target stack = if has_prefix target (slash ∷ []) then [] else stack

abbrev pub link_parts : Bytes → List Bytes
link_parts target = split (trim_slash target) slash

abbrev pub made : Bytes → List Bytes → Forest → Forest
made c stack t = change_at stack (set_child c new_dir nil) t

-- `hops` is the number of links that may still be followed.
unfoldable pub walk : ℕ → List Bytes → Bool → List Bytes → Forest → Walked
unfolding move
walk hops [] create stack t = reached t stack
walk zero (c ∷ cs) create stack t = elim (move create c stack t) [
  | stay ↦ walk zero cs create stack t
  | up ↦ walk zero cs create (pop stack) t
  | enter ↦ walk zero cs create (stack ++ c ∷ []) t
  | make ↦ walk zero cs create (stack ++ c ∷ []) (made c stack t)
  | follow target ↦ looped t
  | stop ↦ missing
]
walk (suc hops) (c ∷ cs) create stack t = elim (move create c stack t) [
  | stay ↦ walk (suc hops) cs create stack t
  | up ↦ walk (suc hops) cs create (pop stack) t
  | enter ↦ walk (suc hops) cs create (stack ++ c ∷ []) t
  | make ↦ walk (suc hops) cs create (stack ++ c ∷ []) (made c stack t)
  | follow target ↦ walk hops (link_parts target ++ cs) create (start_of_link target stack) t
  | stop ↦ missing
]

unfoldable pub resolve_dir : List Bytes → Bool → Forest → Walked
resolve_dir comps create t = walk max_symlink_hops comps create [] t

-- The result of an operation: the tree, and why the entry was left out, if it was.
abbrev pub Done : Type 0
Done = Forest × Option Reason

-- A change in the directory that holds the last component of `p`, which is created if it is missing.
in_parent : Bytes → (Bytes → Forest → Forest) → Forest → Done
in_parent p h t = elim (resolve_dir (split_path (split_parent p).0) true t) [
  | reached u stack ↦ (change_at stack (h (split_parent p).1) u, none)
  | missing ↦ (t, none)
  | looped u ↦ (u, some loop)
]

-- Symlinks are followed in the parent components only.
unfoldable pub find : Bytes → Forest → Option (Attr × Forest) × Option Reason
find p t =
    if is_empty p
    then (some (new_dir, t), none)
    else elim (resolve_dir (split_path (split_parent p).0) false t) [
      | reached u stack ↦ (get_at stack (split_parent p).1 u, none)
      | missing ↦ (none, none)
      | looped u ↦ (none, some loop)
    ]

new_node : Entry → Attr
new_node e = record {
  mode = e.mode;
  uid = e.uid;
  gid = e.gid;
  mtime = e.mtime;
  content = [];
  link = [];
  rdev = (0, 0);
  xattrs = e.xattrs;
  implicit = false;
}

-- The attributes that put gives the node.
unfoldable pub attr_of : Entry → Option Attr
unfolding new_node
attr_of e =
    let n = new_node e in
    elim e.kind [
      | file ↦ some (record n { mode = type_reg + e.mode; content = e.content })
      | dir ↦ some (record n { mode = type_dir + e.mode })
      | symlink ↦ some (record n { mode = type_link + e.mode; link = e.target })
      | char ↦ some (record n { mode = type_char + e.mode; rdev = e.rdev })
      | block ↦ some (record n { mode = type_block + e.mode; rdev = e.rdev })
      | fifo ↦ some (record n { mode = type_fifo + e.mode })
      | _ ↦ none
    ]

-- A directory over a directory keeps the children.
abbrev pub kept_children : Bool → Option (Attr × Forest) → Forest
kept_children true (some (a, f)) = if is_dir a then f else nil
kept_children _ _ = nil

abbrev pub place : Attr → Bytes → Forest → Forest
place a name f = set_child name a (kept_children (is_dir a) (get_child name f)) f

abbrev pub is_dir_kind : Kind → Bool
is_dir_kind dir = true
is_dir_kind _ = false

-- The kinds that Apply never passes leave the tree as it is.
unfoldable pub put : Entry → Forest → Done
unfolding in_parent attr_of
put e t =
    if is_empty e.path
    then (t, if is_dir_kind e.kind then none else some not_a_directory)
    else elim (attr_of e) [ none ↦ (t, none) | some a ↦ in_parent e.path (place a) t ]

-- The payload and the type bits are the target's.
abbrev pub linked : Entry → Attr → Attr
linked e a = record a {
  mode = typ a + e.mode;
  uid = e.uid;
  gid = e.gid;
  mtime = e.mtime;
  xattrs = e.xattrs;
}

link_to : Entry → Option (Attr × Forest) × Option Reason → Forest → Done
unfolding in_parent
link_to e (n, some r) t = (t, some r)
link_to e (none, none) t = (t, some link_not_found)
link_to e (some (a, f), none) t =
    if is_dir a
    then (t, some link_to_directory)
    else in_parent e.path (λ name. set_child name (linked e a) f) t

unfoldable pub link : Entry → Forest → Done
unfolding link_to
link e t = link_to e (find e.target t) t

-- A change in an existing directory.
in_directory : Bytes → (Forest → Forest) → Forest → Done
in_directory p h t = elim (resolve_dir (split_path p) false t) [
  | reached u stack ↦ (change_at stack h u, none)
  | missing ↦ (t, none)
  | looped u ↦ (u, some loop)
]

unfoldable pub whiteout_entry : Entry → Forest → Done
unfolding in_directory
whiteout_entry e t =
    if is_empty e.path
    then (t, none)
    else in_directory (split_parent e.path).0 (remove_child (split_parent e.path).1) t

unfoldable pub opaque_entry : Entry → Forest → Done
unfolding in_directory
opaque_entry e t = in_directory e.path (λ f. nil) t
