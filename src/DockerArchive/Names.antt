-- ===== src/DockerArchive/Names.antt =====
-- dockerarchive/names.go: the names that an image is published under.
pub mod Valid
use oci_amber.Prelude.{
  ℕ, suc, Bool, true, false, not, ◌&&◌, ◌||◌, Option, none, some, List, [], ◌∷◌, ◌++◌, take, drop,
  ◌==◌, if◌then◌else◌,
}
use oci_amber.Prelude.Text.{Bytes, codes, bytes_eq, last_index_byte, contains_byte, cut}
use oci_amber.Oci.Errors.{is_ok}
use oci_amber.Oci.Digest.{is_empty}
use oci_amber.Oci.Names.{validate_repository, validate_tag}

pub record Name : Type 0 where
  pub repo : Bytes
  pub tag : Bytes

-- (Name).String
unfoldable pub name_string : Name → Bytes
name_string n = n.repo ++ b':' ∷ n.tag

abbrev pub latest : Bytes
latest = codes "latest"

-- Behind the search for the last colon.
tag_split : Bytes → Option ℕ → Bytes × Bytes
tag_split s none = (s, [])
tag_split s (some i) = if contains_byte (drop i s) b'/' then (s, []) else (take i s, drop (suc i) s)

-- splitTag
unfoldable pub split_repo_tag : Bytes → Bytes × Bytes
unfolding tag_split
split_repo_tag s = tag_split s (last_index_byte s b':')

abbrev pub ends_with : ℕ → Bytes → Bool
ends_with c [] = false
ends_with c (x ∷ []) = x == c
ends_with c (x ∷ y ∷ s) = ends_with c (y ∷ s)

-- The checks on a repository and a tag.
unfoldable pub checked_name : Bytes → Bytes → Option Name
checked_name repo tag =
    if not (is_ok (validate_repository repo))
    then none
    else if not (is_ok (validate_tag tag))
    then none
    else some record { repo = repo; tag = tag }

name_parts : Bytes → Bytes × Bytes → Option Name
unfolding checked_name
name_parts s (repo, tag) =
    if not (is_empty tag)
    then checked_name repo tag
    else if ends_with b':' s
    then none
    else checked_name repo latest

-- ParseName; `none` is an error.
unfoldable pub parse_name : Bytes → Option Name
unfolding name_parts split_repo_tag
parse_name s =
    if is_empty s
    then none
    else if contains_byte s b'@'
    then none
    else name_parts s (split_repo_tag s)

-- isHost
unfoldable pub is_host : Bytes → Bool
is_host c = bytes_eq c (codes "localhost") || contains_byte c b'.' || contains_byte c b':'

-- What is behind a registry host.
without_host : Bytes → Option (Bytes × Bytes) → Bytes
unfolding is_host
without_host s none = s
without_host s (some (first, rest)) = if is_host first then rest else s

-- A RepoTags entry: a digest names nothing, and an error is `bad_tag`.
pub data RepoTag : Type 0 where
  tagged : Name → RepoTag
  untagged : RepoTag
  bad_tag : RepoTag

abbrev pub repo_tag : Option Name → RepoTag
repo_tag none = bad_tag
repo_tag (some n) = tagged n

tag_or_latest : Bytes × Bytes → Option Name
unfolding checked_name
tag_or_latest (repo, tag) = checked_name repo (if is_empty tag then latest else tag)

-- nameFromRepoTag
unfoldable pub name_from_repo_tag : Bytes → RepoTag
unfolding without_host tag_or_latest
name_from_repo_tag s =
    if contains_byte s b'@'
    then untagged
    else repo_tag (tag_or_latest (split_repo_tag (without_host s (cut s b'/'))))
