-- ===== src/Store/Dir.antt =====
-- store/dir.go: the builder of a directory. What fstree.DirBuilder makes of the entries, and whether it
-- takes one, are arguments.
pub mod Ordered
use oci_amber.Prelude.{
  ℕ, suc, ◌%◌, ◌/◌, Bool, true, false, not, ◌&&◌, ◌||◌, Option, none, some, List, [], ◌∷◌, ◌++◌,
  ltb, ◌==◌, length, if◌then◌else◌,
}
use oci_amber.Prelude.Text.{Bytes, codes, bytes_eq, bytes_lt, contains_byte}
use oci_amber.Oci.Digest.{is_empty}
use oci_amber.Store.{
  Key, KeyType, blob_key, file_node, dir_leaf, dir_node, xattr_set, other_key, Keys,
}

abbrev pub mode_file : ℕ
mode_file = 0o100644

abbrev pub mode_dir : ℕ
mode_dir = 0o040755

-- An fstree.Entry; the metadata that AddEntry stores as it is given are left out.
pub record DirEntry : Type 0 where
  pub name : Bytes
  pub mode : ℕ
  pub content_key : Bytes
  pub link_target : Bytes
  pub rdev : List ℕ
  pub xattrs_in : Bytes
  pub xattrs_key : Bytes

pub record Dir : Type 0 where
  pub entries : List DirEntry
  pub last : Bytes
  pub count : ℕ
  pub done : Bool

abbrev pub new_dir : Dir
new_dir = record { entries = []; last = []; count = 0; done = false }

-- The type bits of a mode.
pub data FileType : Type 0 where
  type_reg type_dir type_link type_device type_pipe type_none : FileType

-- e.Mode & TypeMask
unfoldable pub file_type : ℕ → FileType
file_type mode =
    let bits = (mode / 0o10000) % 16 in
    if bits == 8
    then type_reg
    else if bits == 4
    then type_dir
    else if bits == 10
    then type_link
    else if (bits == 2) || (bits == 6)
    then type_device
    else if (bits == 1) || (bits == 12)
    then type_pipe
    else type_none

abbrev pub is_file_key : KeyType → Bool
is_file_key blob_key = true
is_file_key file_node = true
is_file_key _ = false

abbrev pub is_dir_key : KeyType → Bool
is_dir_key dir_leaf = true
is_dir_key dir_node = true
is_dir_key _ = false

abbrev pub is_xattr_key : KeyType → Bool
is_xattr_key xattr_set = true
is_xattr_key _ = false

unfoldable pub valid_name : Bytes → Bool
valid_name name = not (
    is_empty name
    || bytes_eq name (codes ".")
    || bytes_eq name (codes "..")
    || contains_byte name b'/'
    || contains_byte name 0)

abbrev pub no_devices : List ℕ → Bool
no_devices [] = true
no_devices (x ∷ xs) = false

module _ (keys : Keys) where
  -- A key that parses, of a type.
  abbrev pub has_type : (KeyType → Bool) → Bytes → Bool
  has_type test raw = elim (keys.parse raw) [ none ↦ false | some k ↦ test (keys.typ k) ]

  -- The payload that the type bits call for.
  unfoldable pub valid_typed : FileType → DirEntry → Bool
  valid_typed type_reg e =
      is_empty e.link_target && no_devices e.rdev && has_type is_file_key e.content_key
  valid_typed type_dir e =
      is_empty e.link_target && no_devices e.rdev && has_type is_dir_key e.content_key
  valid_typed type_link e =
      is_empty e.content_key && no_devices e.rdev && not (is_empty e.link_target)
  valid_typed type_device e =
      is_empty e.content_key && is_empty e.link_target && (length e.rdev == 2)
  valid_typed type_pipe e = is_empty e.content_key && is_empty e.link_target && no_devices e.rdev
  valid_typed type_none e = false

  -- The extended attributes: one form at most.
  unfoldable pub valid_xattrs : DirEntry → Bool
  valid_xattrs e =
      is_empty e.xattrs_key || (is_empty e.xattrs_in && has_type is_xattr_key e.xattrs_key)

  -- validatePayload
  unfoldable pub valid_payload : DirEntry → Bool
  unfolding valid_typed valid_xattrs file_type
  valid_payload e = valid_typed (file_type e.mode) e && valid_xattrs e

  -- (*Dir).AddEntry; `none` is an error, which leaves the directory as it was.
  unfoldable pub add_entry : (DirEntry → Bool) → DirEntry → Dir → Option Dir
  add_entry takes e d =
      if d.done
      then none
      else if not (valid_name e.name)
      then none
      else if ltb 0 d.count && not (bytes_lt d.last e.name)
      then none
      else if not (valid_payload e)
      then none
      else if not (takes e)
      then none
      else some
          record { entries = d.entries ++ e ∷ []; last = e.name; count = suc d.count; done = false }

  abbrev pub content_entry : Bytes → ℕ → Key → DirEntry
  content_entry name mode k = record {
    name = name;
    mode = mode;
    content_key = k;
    link_target = [];
    rdev = [];
    xattrs_in = [];
    xattrs_key = [];
  }

  unfoldable pub add_file : (DirEntry → Bool) → Bytes → Key → Dir → Option Dir
  unfolding add_entry
  add_file takes name k d =
      if not (is_file_key (keys.typ k))
      then none
      else add_entry takes (content_entry name mode_file k) d

  unfoldable pub add_dir : (DirEntry → Bool) → Bytes → Key → Dir → Option Dir
  unfolding add_entry
  add_dir takes name k d =
      if not (is_dir_key (keys.typ k))
      then none
      else add_entry takes (content_entry name mode_dir k) d

-- (*Dir).Finish; `build` is the key that the builder makes of the entries.
unfoldable pub finish : (List DirEntry → Option Key) → Dir → Dir × Option Key
finish build d = if d.done then (d, none) else (record d { done = true }, build d.entries)
