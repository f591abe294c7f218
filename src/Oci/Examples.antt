-- ===== src/Oci/Examples.antt =====
-- Runs of the definitions on concrete names and digests.
use oci_amber.Prelude.{Option, ◌≡◌, refl, length, none, some, [], ◌∷◌, All, replicate, ◌↔◌, arith}
use oci_amber.Prelude.Text.{Bytes, codes, cut, Lacks}
use oci_amber.Regex.{matches, up_to}
use oci_amber.Oci.Errors.{ok}
use oci_amber.Oci.Digest.{Digest, parse_digest, sha256_hex_re, hex, algorithm, algorithm_sha256}
use oci_amber.Oci.Digest.Shape.{IsHex, IsSha256, parse_digest_iff, hex-parse_digest}
use oci_amber.Oci.Digest.Sum.{IsByte}
use oci_amber.Prelude.Int.{pos}
use oci_amber.Oci.Manifest.{
  Platform, Descriptor, Manifest, parse_manifest, validate_optional, validate_descriptor,
  validate_all,
}
use oci_amber.Oci.Manifest.Laws.{IsAccepted, parse_manifest_iff}
use oci_amber.Oci.Names.{repository_re, tag_re, validate_repository, validate_tag}
use oci_amber.Oci.Names.Charset.{validate_repository-charset}

abbrev pub sha_a : Digest
sha_a = codes "sha256:aaaaaaaaaaaaaaaaaaaaaaaaaaaaaaaaaaaaaaaaaaaaaaaaaaaaaaaaaaaaaaaa"

abbrev pub sha_b : Digest
sha_b = codes "sha256:bbbbbbbbbbbbbbbbbbbbbbbbbbbbbbbbbbbbbbbbbbbbbbbbbbbbbbbbbbbbbbbb"

abbrev pub repo_name : Bytes
repo_name = codes "team/app"

abbrev pub tag_name : Bytes
tag_name = codes "v1.2"

pub sha_a-valid : parse_digest sha_a ≡ ok sha_a
unfolding parse_digest cut matches sha256_hex_re
sha_a-valid = refl

pub sha_b-valid : parse_digest sha_b ≡ ok sha_b
unfolding parse_digest cut matches sha256_hex_re
sha_b-valid = refl

pub repo_name-valid : validate_repository repo_name ≡ ok tt
unfolding validate_repository matches repository_re
repo_name-valid = refl

pub tag_name-valid : validate_tag tag_name ≡ ok tt
unfolding validate_tag matches tag_re up_to
tag_name-valid = refl

parse_digest_iff_example : (parse_digest sha_a ≡ ok sha_a) ↔ ((sha_a ≡ sha_a) × IsSha256 sha_a)
parse_digest_iff_example = parse_digest_iff sha_a sha_a

hex-parse_digest_example :
    (algorithm sha_a ≡ algorithm_sha256) × (length (hex sha_a) ≡ 64) × All IsHex (hex sha_a)
hex-parse_digest_example = hex-parse_digest sha_a sha_a sha_a-valid

abbrev sum_a : Bytes
sum_a = replicate 32 170

sum_a-bytes : All IsByte sum_a
sum_a-bytes = ground arith

repo_name-plain : Lacks b':' repo_name × Lacks b'@' repo_name
repo_name-plain = let (a, b, c, d) = validate_repository-charset repo_name repo_name-valid in (c, d)

abbrev linux_arm : Platform
linux_arm = record { os = codes "linux"; architecture = codes "arm"; variant = codes "v7" }

abbrev config_a : Descriptor
config_a = record {
  media_type = [];
  digest = sha_a;
  size = pos 7;
  artifact_type = [];
  annotations = [];
  platform = none;
}

abbrev manifest_a : Manifest
manifest_a = record {
  schema_version = pos 2;
  media_type = [];
  artifact_type = [];
  config = some config_a;
  layers = record config_a { digest = sha_b } ∷ [];
  manifests = none;
  subject = none;
  annotations = [];
}

-- The body that stands for the manifest, and no other.
abbrev unmarshal_a : Bytes → Option Manifest
unmarshal_a [] = none
unmarshal_a (c ∷ s) = some manifest_a

parse_manifest_iff_example :
    (parse_manifest unmarshal_a (codes "x") ≡ ok manifest_a)
    ↔ ((unmarshal_a (codes "x") ≡ some manifest_a) × IsAccepted manifest_a)
parse_manifest_iff_example = parse_manifest_iff unmarshal_a (codes "x") manifest_a

manifest_a-parses : parse_manifest unmarshal_a (codes "x") ≡ ok manifest_a
unfolding parse_manifest validate_optional validate_descriptor validate_all parse_digest cut matches
    sha256_hex_re
manifest_a-parses = refl
