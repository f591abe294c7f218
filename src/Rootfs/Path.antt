-- ===== src/Rootfs/Path.antt =====
-- Paths inside an archive and inside a tree: the functions of the package `path` that rootfs/ calls,
-- and cleanPath, joinPath, splitPath and splitParent.
pub mod Clean
use oci_amber.Prelude.{
  ℕ, suc, Bool, true, false, not, ◌&&◌, ◌||◌, Option, none, some, List, [], ◌∷◌, ◌++◌, reverse,
  take, if◌then◌else◌,
}
use oci_amber.Prelude.Text.{Bytes, codes, bytes_eq, cut_prefix, has_prefix, last_index_byte}
use oci_amber.Prelude.Split.{split, join}
use oci_amber.Oci.Digest.{is_empty}

abbrev pub slash : ℕ
slash = b'/'

abbrev pub dot : Bytes
dot = codes "."

abbrev pub dot_dot : Bytes
dot_dot = codes ".."

-- strings.TrimPrefix(p, "/")
abbrev pub trim_slash : Bytes → Bytes
trim_slash p = elim (cut_prefix p (slash ∷ [])) [ none ↦ p | some q ↦ q ]

-- A component that path.Clean drops, and one with which it goes up.
abbrev pub is_still : Bytes → Bool
is_still c = is_empty c || bytes_eq c dot

-- One component of path.Clean: `out` is what is kept so far, the last one first.
clean_step : Bool → List Bytes → Bytes → List Bytes
clean_step rooted [] c =
    if is_still c
    then []
    else if bytes_eq c dot_dot
    then (if rooted then [] else c ∷ [])
    else c ∷ []
clean_step rooted (d ∷ out) c =
    if is_still c
    then d ∷ out
    else if bytes_eq c dot_dot
    then (if bytes_eq d dot_dot then c ∷ d ∷ out else out)
    else c ∷ d ∷ out

unfoldable pub clean_parts : Bool → List Bytes → List Bytes → List Bytes
unfolding clean_step
clean_parts rooted out [] = out
clean_parts rooted out (c ∷ cs) = clean_parts rooted (clean_step rooted out c) cs

clean_text : Bool → Bytes → Bytes
clean_text true p = slash ∷ p
clean_text false p = if is_empty p then dot else p

-- path.Clean
unfoldable pub path_clean : Bytes → Bytes
unfolding clean_text
path_clean p =
    let rooted = has_prefix p (slash ∷ []) in
    clean_text rooted (join (reverse (clean_parts rooted [] (split p slash))) slash)

-- The last part that is not empty: what is left of path.Base once it has cut the slashes off.
last_part : List Bytes → Option Bytes
last_part [] = none
last_part (p ∷ ps) = elim (last_part ps) [
  | none ↦ if is_empty p then none else some p
  | some q ↦ some q
]

-- path.Base
unfoldable pub path_base : Bytes → Bytes
unfolding last_part
path_base p =
    if is_empty p then dot else elim (last_part (split p slash)) [ none ↦ slash ∷ [] | some b ↦ b ]

-- path.Dir
unfoldable pub path_dir : Bytes → Bytes
path_dir p = path_clean (elim (last_index_byte p slash) [ none ↦ [] | some i ↦ take (suc i) p ])

check_inside : Bytes → Bytes × Bool
check_inside p =
    if is_still p
    then ([], true)
    else if bytes_eq p dot_dot || has_prefix p (codes "../")
    then (p, false)
    else (p, true)

-- The path, and whether it stays inside the root.
unfoldable pub clean_path : Bytes → Bytes × Bool
unfolding check_inside
clean_path name = check_inside (trim_slash (path_clean name))

-- `path.Dir` with "" for the root, as convert and splitParent write it.
unfoldable pub parent_dir : Bytes → Bytes
parent_dir p = let dir = path_dir p in if bytes_eq dir dot then [] else dir

unfoldable pub join_path : Bytes → Bytes → Bytes
join_path dir name = if is_empty dir then name else dir ++ slash ∷ name

unfoldable pub split_path : Bytes → List Bytes
split_path p = if is_empty p then [] else split p slash

unfoldable pub split_parent : Bytes → Bytes × Bytes
split_parent p = (parent_dir p, path_base p)

-- rootfs.Clean, for request paths.
unfoldable pub clean_request : Bytes → Bytes
clean_request p = trim_slash (path_clean (slash ∷ p))
