-- ===== src/Rootfs/Entry.antt =====
-- rootfs/layer.go: what one archive header does to the tree. archive/tar delivers the header; the
-- type flags are its letters, and the content key comes with the file.
pub mod Convert
use oci_amber.Prelude.{
  ℕ, ◌%◌, Bool, true, false, not, ◌&&◌, ◌||◌, Option, none, some, List, [], ◌∷◌, ◌==◌,
  if◌then◌else◌,
}
use oci_amber.Prelude.Int.{ℤ, pos, negsuc}
use oci_amber.Prelude.Text.{Bytes, codes, bytes_eq, has_prefix, cut_prefix}
use oci_amber.Prelude.Assoc.{Assoc, insert}
use oci_amber.Oci.Digest.{is_empty}
use oci_amber.Rootfs.Path.{clean_path, path_base, parent_dir, join_path}

-- Why an entry was left out: the reasons of convert and of the tree.
pub data Reason : Type 0 where
  escapes sparse nameless_whiteout link_escapes unsupported : Reason
  loop not_a_directory link_not_found link_to_directory : Reason

pub data Kind : Type 0 where
  file dir symlink hardlink char block fifo whiteout opaque skip : Kind

pub record Entry : Type 0 where
  pub kind : Kind
  pub path : Bytes
  pub target : Bytes
  pub mode : ℕ
  pub uid : ℕ
  pub gid : ℕ
  pub mtime : ℤ
  pub rdev : ℕ × ℕ
  pub xattrs : Assoc Bytes
  pub content : Bytes
  pub reason : Option Reason

-- A tar.Header. `mode` is the header's mode as 64-bit two's complement, and `mod_time` is `none` for
-- the zero time.
pub record Header : Type 0 where
  pub name : Bytes
  pub linkname : Bytes
  pub flag : ℕ
  pub mode : ℕ
  pub uid : ℤ
  pub gid : ℤ
  pub mod_time : Option ℤ
  pub devmajor : ℤ
  pub devminor : ℤ
  pub records : Assoc Bytes

abbrev pub skip_entry : Reason → Entry → Entry
skip_entry r e = record e { kind = skip; reason = some r }

unfoldable pub has_content : ℕ → Bool
has_content flag = (flag == b'0') || (flag == b'7') || (flag == b'S')

unfoldable pub clamp_uint : ℤ → ℕ
clamp_uint (pos n) = n
clamp_uint (negsuc n) = 0

unfoldable pub mtime_nanos : Option ℤ → ℤ
mtime_nanos none = pos 0
mtime_nanos (some t) = t

-- strings.TrimPrefix
abbrev pub trim_prefix : Bytes → Bytes → Bytes
trim_prefix s p = elim (cut_prefix s p) [ none ↦ s | some t ↦ t ]

abbrev pub whiteout_prefix : Bytes
whiteout_prefix = codes ".wh."

abbrev pub opaque_whiteout : Bytes
opaque_whiteout = codes ".wh..wh..opq"

unfoldable pub pax_xattrs : Assoc Bytes → Assoc Bytes
pax_xattrs [] = []
pax_xattrs ((k, v) ∷ records) =
    let rest = pax_xattrs records in
    elim (cut_prefix k (codes "SCHILY.xattr.")) [
      | none ↦ rest
      | some name ↦ if is_empty name then rest else insert name v rest
    ]

any_sparse : Assoc Bytes → Bool
any_sparse [] = false
any_sparse ((k, v) ∷ records) = has_prefix k (codes "GNU.sparse.") || any_sparse records

unfoldable pub is_sparse : Header → Bool
unfolding any_sparse
is_sparse hdr = (hdr.flag == b'S') || any_sparse hdr.records

-- What convert reads out of every header. `kind` is set by the rest.
common : Header → Entry
common hdr = record {
  kind = file;
  path = (clean_path hdr.name).0;
  target = [];
  mode = hdr.mode % 4096;
  uid = clamp_uint hdr.uid;
  gid = clamp_uint hdr.gid;
  mtime = mtime_nanos hdr.mod_time;
  rdev = (0, 0);
  xattrs = pax_xattrs hdr.records;
  content = [];
  reason = none;
}

-- An entry whose name begins with ".wh.".
convert_whiteout : Bytes → Bytes → Entry → Entry
convert_whiteout base parent e =
    if bytes_eq base opaque_whiteout
    then record e { kind = opaque; path = parent }
    else let name = trim_prefix base whiteout_prefix in
      if is_empty name
      then skip_entry nameless_whiteout e
      else record e { kind = whiteout; path = join_path parent name }

convert_link : Bytes → Entry → Entry
convert_link linkname e =
    if not (clean_path linkname).1
    then skip_entry link_escapes e
    else record e { kind = hardlink; target = (clean_path linkname).0 }

device_numbers : Header → ℕ × ℕ
device_numbers hdr = (clamp_uint hdr.devmajor, clamp_uint hdr.devminor)

-- The switch over the type flag.
convert_type : Header → Bytes → Entry → Entry
unfolding convert_link device_numbers
convert_type hdr content e =
    if (hdr.flag == b'0') || (hdr.flag == b'7')
    then record e { kind = file; content = content }
    else if hdr.flag == b'5'
    then record e { kind = dir }
    else if hdr.flag == b'2'
    then record e { kind = symlink; target = hdr.linkname }
    else if hdr.flag == b'1'
    then convert_link hdr.linkname e
    else if hdr.flag == b'3'
    then record e { kind = char; rdev = device_numbers hdr }
    else if hdr.flag == b'4'
    then record e { kind = block; rdev = device_numbers hdr }
    else if hdr.flag == b'6'
    then record e { kind = fifo }
    else skip_entry unsupported e

unfoldable pub convert : Header → Bytes → Entry
unfolding common convert_whiteout convert_type
convert hdr content =
    let e = common hdr in
    let base = path_base e.path in
    if not (clean_path hdr.name).1
    then skip_entry escapes e
    else if is_sparse hdr
    then skip_entry sparse e
    else if not (is_empty e.path) && has_prefix base whiteout_prefix
    then convert_whiteout base (parent_dir e.path) e
    else convert_type hdr content e
