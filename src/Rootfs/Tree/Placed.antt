-- ===== src/Rootfs/Tree/Placed.antt =====
-- rootfs/tree.go: the node that put places, field by field.
use oci_amber.Prelude.{
  ℕ, ◌+◌, ◌*◌, ◌/◌, ◌%◌, ◌==◌, ◌<◌, ◌≡◌, refl, sym, ap, ◌∙◌, subst, true, false, inl, inr, Option,
  none, some, [], arith,
}
use oci_amber.Prelude.Maybe.{Option-cases, some_injective}
use oci_amber.Prelude.Text.{Bytes}
use oci_amber.Oci.Digest.{is_empty}
use oci_amber.Rootfs.Path.{split_path, split_parent, path_base}
use oci_amber.Rootfs.Entry.{
  Entry, Kind, file, dir, symlink, char, block, fifo, hardlink, whiteout, opaque, skip,
}
use oci_amber.Rootfs.Tree.{
  Forest, nil, Attr, is_dir, is_dir_kind, attr_of, put, get_child, kept_children,
}
use oci_amber.Rootfs.Tree.Walk.{Changed, put-Changed}

-- The file type bits of a kind that is a node.
abbrev pub type_bits : Kind → Option ℕ
type_bits file = some 32768
type_bits dir = some 16384
type_bits symlink = some 40960
type_bits char = some 8192
type_bits block = some 24576
type_bits fifo = some 4096
type_bits _ = none

-- Only a file has content, only a symlink a target, and only a device a number.
abbrev pub content_of : Kind → Bytes → Bytes
content_of file x = x
content_of _ x = []

abbrev pub target_of : Kind → Bytes → Bytes
target_of symlink x = x
target_of _ x = []

abbrev pub device_of : Kind → ℕ × ℕ → ℕ × ℕ
device_of char x = x
device_of block x = x
device_of _ x = (0, 0)

-- The attributes that the entry asks for.
pub record Shows (e : Entry) (bits : ℕ) (a : Attr) : Type 0 where
  pub mode : a.mode ≡ bits + e.mode
  pub uid : a.uid ≡ e.uid
  pub gid : a.gid ≡ e.gid
  pub mtime : a.mtime ≡ e.mtime
  pub xattrs : a.xattrs ≡ e.xattrs
  pub content : a.content ≡ content_of e.kind e.content
  pub link_target : a.link ≡ target_of e.kind e.target
  pub rdev : a.rdev ≡ device_of e.kind e.rdev
  pub explicit : a.implicit ≡ false

-- A directory over a directory keeps the children; anything else has none.
abbrev pub Keeps : Kind → Option (Attr × Forest) → Forest → Type 0
Keeps dir (some (b, g)) f = (is_dir b ≡ true → f ≡ g) × (is_dir b ≡ false → f ≡ nil)
Keeps dir none f = f ≡ nil
Keeps k x f = f ≡ nil

attr_of-Shows :
    (e : Entry) (bits : ℕ)
    → type_bits e.kind ≡ some bits
    → (a : Attr) × (attr_of e ≡ some a) × Shows e bits a
unfolding attr_of
attr_of-Shows e bits h = elim (Option-cases (attr_of e)) [
  | inl n ↦ absurd (ground arith)
  | inr (a, n) ↦ (
    a,
    n,
    record {
      mode = ground arith;
      uid = ground arith;
      gid = ground arith;
      mtime = ground arith;
      xattrs = ground arith;
      content = ground arith;
      link_target = ground arith;
      rdev = ground arith;
      explicit = ground arith;
    },
  )
]

of_bits :
    (b bits m : ℕ)
    → b ≡ bits
    → (b + m) / 4096 % 16 * 4096 ≡ b
    → ((bits + m) / 4096 % 16 * 4096 == 16384) ≡ (b == 16384)
of_bits b bits m e h =
    subst (λ x. ((x + m) / 4096 % 16 * 4096 == 16384) ≡ (b == 16384)) e (ap (λ x. x == 16384) h)

-- The type bits stand above the permissions.
bits-is_dir :
    (k : Kind) (bits m : ℕ)
    → type_bits k ≡ some bits
    → m < 4096
    → ((bits + m) / 4096 % 16 * 4096 == 16384) ≡ is_dir_kind k
bits-is_dir file bits m h l = of_bits 32768 bits m (some_injective h) (omega arith)
bits-is_dir dir bits m h l = of_bits 16384 bits m (some_injective h) (omega arith)
bits-is_dir symlink bits m h l = of_bits 40960 bits m (some_injective h) (omega arith)
bits-is_dir char bits m h l = of_bits 8192 bits m (some_injective h) (omega arith)
bits-is_dir block bits m h l = of_bits 24576 bits m (some_injective h) (omega arith)
bits-is_dir fifo bits m h l = of_bits 4096 bits m (some_injective h) (omega arith)
bits-is_dir hardlink bits m h l = absurd (cc h)
bits-is_dir whiteout bits m h l = absurd (cc h)
bits-is_dir opaque bits m h l = absurd (cc h)
bits-is_dir skip bits m h l = absurd (cc h)

Shows-is_dir :
    (e : Entry) (bits : ℕ) (a : Attr)
    → type_bits e.kind ≡ some bits
    → e.mode < 4096
    → Shows e bits a
    → is_dir a ≡ is_dir_kind e.kind
Shows-is_dir e bits a h m s =
    ap (λ x. x / 4096 % 16 * 4096 == 16384) s.mode ∙ bits-is_dir e.kind bits e.mode h m

kept_children-Keeps :
    (k : Kind) (x : Option (Attr × Forest)) → Keeps k x (kept_children (is_dir_kind k) x)
kept_children-Keeps dir none = refl
kept_children-Keeps dir (some (b, g)) = (λ t. rw t refl, λ t. rw t refl)
kept_children-Keeps file x = refl
kept_children-Keeps symlink x = refl
kept_children-Keeps char x = refl
kept_children-Keeps block x = refl
kept_children-Keeps fifo x = refl
kept_children-Keeps hardlink x = refl
kept_children-Keeps whiteout x = refl
kept_children-Keeps opaque x = refl
kept_children-Keeps skip x = refl

-- A put of an entry for a node below the root, with permission bits below 4096 as convert gives them,
-- that reports no error: the directory that the rest of the path leads to has, under the last
-- component of the path, a node with the type bits of the entry's kind above its permissions, and with
-- its owner, time and attributes, its content, target or device number. A directory over a directory
-- keeps the children, any other node has none, and the other entries of that directory stay as they
-- were.
pub put-Shows :
    (e : Entry) (bits : ℕ) (t : Forest)
    → is_empty e.path ≡ false
    → type_bits e.kind ≡ some bits
    → e.mode < 4096
    → (put e t).1 ≡ none
    → (c : Changed (split_path (split_parent e.path).0) true (path_base e.path) t (put e t).0)
      × (a : Attr) × (f : Forest) × (get_child (path_base e.path) c.later ≡ some (a, f))
      × Shows e bits a
      × Keeps e.kind (get_child (path_base e.path) c.before) f
put-Shows e bits t n h m d =
    let (a, made, s) = attr_of-Shows e bits h in
    let (c, there) = put-Changed e a t n made d in
    let x = get_child (path_base e.path) c.before in
    (
      c,
      a,
      kept_children (is_dir a) x,
      there,
      s,
      subst (λ y. Keeps e.kind x (kept_children y x)) (sym (Shows-is_dir e bits a h m s))
          (kept_children-Keeps e.kind x),
    )
