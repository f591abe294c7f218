-- ===== src/Registry/PullExamples.antt =====
-- Requests to the registry: a range of a blob, a path, and a manifest pushed and pulled.
use oci_amber.Prelude.{◌<◌, ◌≤◌, ◌≡◌, refl, true, false, some, [], ◌∷◌, arith}
use oci_amber.Prelude.Text.{Bytes, codes, cut, cut_prefix, contains_byte, index_byte}
use oci_amber.Prelude.Split.{trim_space}
use oci_amber.Prelude.Assoc.{lookup}
use oci_amber.Oci.Examples.{sha_a, sha_a-valid}
use oci_amber.Blob.Store.{Store}
use oci_amber.Blob.PullExamples.{raw_blob, raw_blob-supports_range}
use oci_amber.Registry.Blobs.{part, parse_range, BlobResponse, Pulls, handle_blob, get_method}
use oci_amber.Registry.Blobs.Asked.{asked, Answers}
use oci_amber.Registry.Blobs.Serve.{IsStored, get_blob-Answers, parse_range_bounds}
use oci_amber.Registry.Uploads.Range.{parse_natural, digits_from, parse_digits}
use oci_amber.Registry.Routes.{Route, to_uploads, parse_path}
use oci_amber.Registry.Routes.Paths.{path_of, path_of-parse_path}
use oci_amber.Samples.{
  sample_keys, sample_get, sample_decode, file_a, text_a, file_a-File, constant_sum,
  digest-constant_sum,
}

abbrev range_header : Bytes
range_header = codes "bytes=1-9"

header-parsed : parse_range range_header 3 ≡ part 1 2
unfolding parse_range trim_space cut_prefix contains_byte cut index_byte parse_natural digits_from
    parse_digits
header-parsed = refl

parse_range_bounds_example : (1 ≤ 2) × (2 < 3)
parse_range_bounds_example = parse_range_bounds range_header 3 1 2 header-parsed

abbrev pulls : Pulls
pulls = record {
  keys = sample_keys;
  get = sample_get;
  decode = sample_decode;
  takes = λ o q. true;
  source = λ c. (text_a, true);
  sha256 = constant_sum;
}

abbrev one_blob : Store
one_blob = record {
  published = (sha_a, raw_blob) ∷ [];
  recent = [];
  allow_raw = true;
  recent_ttl = 9;
  read_only = false;
}

raw_blob-IsStored : IsStored pulls one_blob sha_a text_a raw_blob file_a 4
unfolding lookup
raw_blob-IsStored = record {
  valid = sha_a-valid;
  published = refl;
  named = refl;
  raw = raw_blob-supports_range;
  at_key = refl;
  sized = refl;
  file = file_a-File;
  streamed = refl;
  hashed = digest-constant_sum text_a;
}

get_blob-Answers_example :
    (r : BlobResponse) × (handle_blob pulls 6 true get_method range_header sha_a one_blob
      ≡ (one_blob, some r))
    × Answers text_a r (asked range_header)
get_blob-Answers_example =
    get_blob-Answers pulls one_blob sha_a text_a raw_blob file_a 4 raw_blob-IsStored 6 (omega arith)
      (λ o q. refl) range_header

-- A repository with the name of a keyword in it.
abbrev upload_route : Route
upload_route = record { name = codes "a/blobs/b"; kind = to_uploads; rest = codes "id" }

path_of-parse_path_example : parse_path (path_of upload_route) ≡ some upload_route
path_of-parse_path_example = path_of-parse_path upload_route (record {
  named = cc;
  name_line = ground arith;
  rest_line = ground arith;
  rest_segment = ground arith;
})
