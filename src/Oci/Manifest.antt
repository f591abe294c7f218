-- ===== src/Oci/Manifest.antt =====
-- oci/manifest.go: descriptors, platforms and manifests. encoding/json is an argument.
pub mod Laws
use oci_amber.Prelude.{
  ℕ, Bool, true, false, not, ◌&&◌, ◌||◌, Option, none, some, List, [], ◌∷◌, ◌++◌, ltb, length, take,
  if◌then◌else◌, ◌==◌,
}
use oci_amber.Prelude.Int.{ℤ, pos, negsuc, is_negative}
use oci_amber.Prelude.Text.{Bytes, codes, bytes_eq, index_byte}
use oci_amber.Prelude.Split.{split, trim_space}
use oci_amber.Prelude.Assoc.{Assoc, lookup}
use oci_amber.Oci.Digest.{Digest, is_empty, parse_digest}
use oci_amber.Oci.Errors.{Result, ok, err, new_error, manifest_invalid, ◌>>◌}

abbrev pub media_type_oci_manifest : Bytes
media_type_oci_manifest = codes "application/vnd.oci.image.manifest.v1+json"

abbrev pub media_type_oci_index : Bytes
media_type_oci_index = codes "application/vnd.oci.image.index.v1+json"

abbrev pub media_type_docker_manifest_list : Bytes
media_type_docker_manifest_list = codes "application/vnd.docker.distribution.manifest.list.v2+json"

pub record Platform : Type 0 where
  pub os : Bytes
  pub architecture : Bytes
  pub variant : Bytes

pub record Descriptor : Type 0 where
  pub media_type : Bytes
  pub digest : Digest
  pub size : ℤ
  pub artifact_type : Bytes
  pub annotations : Assoc Bytes
  pub platform : Option Platform

-- A missing annotation reads as "".
unfoldable pub is_attestation : Descriptor → Bool
is_attestation d = elim (lookup (codes "vnd.docker.reference.type") d.annotations) [
  | none ↦ false
  | some v ↦ bytes_eq v (codes "attestation-manifest")
]

-- (Platform).String
unfoldable pub platform_string : Platform → Bytes
platform_string p =
    let s = p.os ++ b'/' ∷ p.architecture in if is_empty p.variant then s else s ++ b'/' ∷ p.variant

any_empty : List Bytes → Bool
any_empty [] = false
any_empty (p ∷ ps) = is_empty p || any_empty ps

platform_of : List Bytes → Option Platform
platform_of (a ∷ b ∷ []) = some record { os = a; architecture = b; variant = [] }
platform_of (a ∷ b ∷ c ∷ []) = some record { os = a; architecture = b; variant = c }
platform_of _ = none

unfoldable pub parse_platform : Bytes → Option Platform
unfolding any_empty platform_of
parse_platform s =
    let parts = split s b'/' in
    if ltb (length parts) 2 || ltb 3 (length parts)
    then none
    else if any_empty parts
    then none
    else platform_of parts

-- (Platform).Matches: the request is the first argument.
unfoldable pub platform_matches : Platform → Platform → Bool
platform_matches p c =
    bytes_eq p.os c.os
    && bytes_eq p.architecture c.architecture
    && (is_empty p.variant || bytes_eq p.variant c.variant)

-- `none` for `manifests` is the nil of a body that has no such array.
pub record Manifest : Type 0 where
  pub schema_version : ℤ
  pub media_type : Bytes
  pub artifact_type : Bytes
  pub config : Option Descriptor
  pub layers : List Descriptor
  pub manifests : Option (List Descriptor)
  pub subject : Option Descriptor
  pub annotations : Assoc Bytes

unfoldable pub validate_descriptor : Descriptor → Result (Unit {0})
validate_descriptor d = elim (parse_digest d.digest) [
  | err e ↦ err (new_error manifest_invalid)
  | ok p ↦ if is_negative d.size then err (new_error manifest_invalid) else ok tt
]

unfoldable pub validate_optional : Option Descriptor → Result (Unit {0})
validate_optional none = ok tt
validate_optional (some d) = validate_descriptor d

unfoldable pub validate_all : List Descriptor → Result (Unit {0})
validate_all [] = ok tt
validate_all (d ∷ ds) = validate_descriptor d >> validate_all ds

-- A nil slice has no elements to range over.
abbrev pub elements : Option (List Descriptor) → List Descriptor
elements none = []
elements (some ds) = ds

is_version_2 : ℤ → Bool
is_version_2 (pos n) = n == 2
is_version_2 (negsuc n) = false

validate_manifest : Manifest → Result (Unit {0})
validate_manifest m =
    validate_optional m.config
    >> validate_all m.layers
    >> validate_all (elements m.manifests)
    >> validate_optional m.subject

-- What follows json.Unmarshal.
check_manifest : Manifest → Result Manifest
unfolding validate_manifest is_version_2
check_manifest m =
    if not (is_version_2 m.schema_version)
    then err (new_error manifest_invalid)
    else validate_manifest m >> ok m

-- json.Unmarshal is an argument: `none` is its error.
unfoldable pub parse_manifest : (Bytes → Option Manifest) → Bytes → Result Manifest
unfolding check_manifest
parse_manifest unmarshal body = elim (unmarshal body) [
  | none ↦ err (new_error manifest_invalid)
  | some m ↦ check_manifest m
]

unfoldable pub is_index : Manifest → Bool
is_index m =
    if bytes_eq m.media_type media_type_oci_index
      || bytes_eq m.media_type media_type_docker_manifest_list
    then true
    else if is_empty m.media_type
    then elim m.manifests [ none ↦ false | some ds ↦ true ]
    else false

unfoldable pub strip_media_type_params : Bytes → Bytes
strip_media_type_params content_type = elim (index_byte content_type b';') [
  | none ↦ trim_space content_type
  | some i ↦ trim_space (take i content_type)
]

unfoldable pub effective_media_type : Bytes → Manifest → Bytes
effective_media_type content_type m =
    let ct = strip_media_type_params content_type in
    if not (is_empty ct)
    then ct
    else if not (is_empty m.media_type)
    then m.media_type
    else if is_index m
    then media_type_oci_index
    else media_type_oci_manifest

unfoldable pub effective_artifact_type : Manifest → Bytes
effective_artifact_type m =
    if not (is_empty m.artifact_type)
    then m.artifact_type
    else if not (is_index m)
    then elim m.config [ none ↦ [] | some d ↦ d.media_type ]
    else []

unfoldable pub blob_descriptors : Manifest → List Descriptor
blob_descriptors m =
    if is_index m then [] else elim m.config [ none ↦ m.layers | some d ↦ d ∷ m.layers ]
