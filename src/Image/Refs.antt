-- ===== src/Image/Refs.antt =====
-- image/refs.go: the names of tag, manifest and referrer references.
pub mod RoundTrip
use oci_amber.Prelude.{
  ℕ, suc, Bool, true, false, ◌&&◌, not, ◌||◌, Option, none, some, [], ◌∷◌, ◌++◌, ltb, take, drop,
  if◌then◌else◌,
}
use oci_amber.Prelude.Maybe.{◌>>=◌}
use oci_amber.Prelude.Text.{Bytes, codes, cut_prefix, cut, last_index_byte}
use oci_amber.Oci.Digest.{Digest, is_empty, parse_digest}
use oci_amber.Oci.Names.{validate_repository, validate_tag}
use oci_amber.Oci.Errors.{Result, ok, err, is_ok}

abbrev pub tag_prefix : Bytes
tag_prefix = codes "oci/tag/"

abbrev pub manifest_prefix : Bytes
manifest_prefix = codes "oci/manifest/"

abbrev pub referrer_prefix : Bytes
referrer_prefix = codes "oci/referrer/"

unfoldable pub tag_ref : Bytes → Bytes → Bytes
tag_ref repo tag = tag_prefix ++ (repo ++ b':' ∷ tag)

unfoldable pub manifest_ref : Bytes → Digest → Bytes
manifest_ref repo d = manifest_prefix ++ (repo ++ b'/' ∷ d)

unfoldable pub referrer_ref : Bytes → Digest → Digest → Bytes
referrer_ref repo subject referrer =
    referrer_prefix ++ (repo ++ b'/' ∷ (subject ++ b'/' ∷ referrer))

-- The text before and behind the last '/', which must not stand first: `i <= 0` fails.
cut_last : Bytes → Option (Bytes × Bytes)
cut_last s = do
  i ← last_index_byte s b'/'
  if ltb 0 i then some (take i s, drop (suc i) s) else none

-- The value of a call whose error only makes the caller fail.
valid_digest : Result Digest → Option Digest
valid_digest (ok d) = some d
valid_digest (err e) = none

-- The checks on the two parts of a tag reference.
check_tag_ref : Bytes → Bytes → Option (Bytes × Bytes)
check_tag_ref repo tag =
    if is_empty repo || is_empty tag
    then none
    else if not (is_ok (validate_repository repo)) || not (is_ok (validate_tag tag))
    then none
    else some (repo, tag)

-- The last check on a manifest or referrer reference.
check_repository {ℓ} : {A : Type ℓ} → Bytes → A → Option A
check_repository repo a = if is_ok (validate_repository repo) then some a else none

unfoldable pub parse_tag_ref : Bytes → Option (Bytes × Bytes)
unfolding check_tag_ref
parse_tag_ref name = do
  rest ← cut_prefix name tag_prefix
  (repo, tag) ← cut rest b':'
  check_tag_ref repo tag

unfoldable pub parse_manifest_ref : Bytes → Option (Bytes × Digest)
unfolding cut_last valid_digest check_repository
parse_manifest_ref name = do
  rest ← cut_prefix name manifest_prefix
  (repo, last) ← cut_last rest
  d ← valid_digest (parse_digest last)
  check_repository repo (repo, d)

unfoldable pub parse_referrer_ref : Bytes → Option (Bytes × Digest × Digest)
unfolding cut_last valid_digest check_repository
parse_referrer_ref name = do
  rest ← cut_prefix name referrer_prefix
  (front, last) ← cut_last rest
  referrer ← valid_digest (parse_digest last)
  (repo, middle) ← cut_last front
  subject ← valid_digest (parse_digest middle)
  check_repository repo (repo, subject, referrer)
