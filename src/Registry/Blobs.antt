-- ===== src/Registry/Blobs.antt =====
-- registry/blobs.go: the handler of stored blobs, with ranges. The answer to a client that is gone is
-- left out, and so is the log.
pub mod Asked
pub mod Serve
use oci_amber.Prelude.{
  ℕ, ◌+◌, ◌-◌, Bool, true, false, not, ◌||◌, Option, none, some, List, [], ◌∷◌, ◌++◌, ltb, leb,
  ◌==◌, min, if◌then◌else◌,
}
use oci_amber.Prelude.Text.{Bytes, codes, bytes_eq, cut, cut_prefix, contains_byte}
use oci_amber.Prelude.Split.{trim_space}
use oci_amber.Oci.Errors.{
  ErrorCode, blob_unknown, digest_invalid, unsupported, default_status, ok, err,
}
use oci_amber.Oci.Digest.{Digest, parse_digest, is_empty}
use oci_amber.Store.{Key, Keys}
use oci_amber.Blob.Store.{
  Store, Root, Opened, opened, not_found, unreadable, delete_blob, open_blob,
}
use oci_amber.Prelude.Assoc.{lookup}
use oci_amber.Blob.Pull.{Pulled, Source, supports_range, write_range, write_to}
use oci_amber.Registry.Uploads.Range.{parse_natural}

-- What parseRange returns: no range to serve, one with its inclusive bounds, or errUnsatisfiable.
pub data Range : Type 0 where
  whole : Range
  part : ℕ → ℕ → Range
  unsatisfiable : Range

-- A suffix range: the last `n` bytes.
suffix_range : ℕ → Option ℕ → Range
suffix_range size none = whole
suffix_range size (some n) =
    if (n == 0) || (size == 0) then unsatisfiable else part (size - min n size) (size - 1)

-- The checks behind the two numbers; `end` is none when it is malformed.
range_between : ℕ → ℕ → Option ℕ → Range
range_between size start none = whole
range_between size start (some end) =
    if leb size start then unsatisfiable else part start (min end (size - 1))

-- `end < start` refuses an end that is given.
given_end : ℕ → Option ℕ → Option ℕ
given_end start none = none
given_end start (some end) = if ltb end start then none else some end

range_from : ℕ → Bytes → Option ℕ → Range
unfolding range_between given_end
range_from size last none = whole
range_from size last (some start) =
    if is_empty last
    then range_between size start (some (size - 1))
    else range_between size start (given_end start (parse_natural last))

range_parts : ℕ → Option (Bytes × Bytes) → Range
unfolding suffix_range range_from
range_parts size none = whole
range_parts size (some (first, last)) =
    if is_empty (trim_space first)
    then suffix_range size (parse_natural (trim_space last))
    else range_from size (trim_space last) (parse_natural (trim_space first))

-- What is behind "bytes=".
range_spec : ℕ → Option Bytes → Range
unfolding range_parts
range_spec size none = whole
range_spec size (some spec) =
    if contains_byte spec b',' then whole else range_parts size (cut (trim_space spec) b'-')

-- parseRange
unfoldable pub parse_range : Bytes → ℕ → Range
unfolding range_spec
parse_range header size = range_spec size (cut_prefix (trim_space header) (codes "bytes="))

-- What the client reads. `content_range` has the bounds, none for "*", and the size; an aborted
-- connection cuts the body off.
pub record BlobResponse : Type 0 where
  pub status : ℕ
  pub code : Option ErrorCode
  pub digest : Option Digest
  pub content_length : Option ℕ
  pub accept_ranges : Bool
  pub content_range : Option (Option (ℕ × ℕ) × ℕ)
  pub body : Bytes
  pub aborted : Bool

abbrev pub bare : ℕ → BlobResponse
bare status = record {
  status = status;
  code = none;
  digest = none;
  content_length = none;
  accept_ranges = false;
  content_range = none;
  body = [];
  aborted = false;
}

abbrev pub blob_error : ErrorCode → BlobResponse
blob_error code = record (bare (default_status code)) { code = some code }

-- The headers of a stored blob.
abbrev pub found_blob : Digest → Root → BlobResponse
found_blob d b = record (bare 200) {
  digest = some d;
  content_length = some b.meta.size;
  accept_ranges = supports_range b;
}

abbrev pub out_of_range : Digest → Root → BlobResponse
out_of_range d b = record (found_blob d b) {
  status = 416;
  digest = none;
  content_length = some 0;
  content_range = some (none, b.meta.size);
}

abbrev pub partial : Digest → Root → ℕ → ℕ → BlobResponse
partial d b start end = record (found_blob d b) {
  status = 206;
  content_length = some (end - start + 1);
  content_range = some (some (start, end), b.meta.size);
}

-- What is behind the headers: a stream that failed before its first byte is answered with an error, and
-- behind it the connection is cut.
unfoldable pub stream_body : BlobResponse → Pulled → BlobResponse
stream_body r p = elim p.error [
  | none ↦ record r { body = p.written }
  | some e ↦ if is_empty p.written then bare 500 else record r { body = p.written; aborted = true }
]

-- A stream on fuel that ran out has no response.
stream_part : BlobResponse → Option Pulled → Option BlobResponse
unfolding stream_body
stream_part r none = none
stream_part r (some p) = some (stream_body r p)

pub record Pulls : Type 0 where
  pub keys : Keys
  pub get : Key → Option Bytes
  pub decode : Bytes → Option (List Key)
  pub takes : Bytes → Bytes → Bool
  pub source : Source
  pub sha256 : Bytes → Bytes

module _ (p : Pulls) where
  serve_whole : Digest → Root → BlobResponse
  unfolding stream_body
  serve_whole d b = stream_body (found_blob d b) (write_to p.sha256 p.source b)

  serve_range : ℕ → Digest → Root → Range → Option BlobResponse
  unfolding serve_whole stream_part
  serve_range f d b whole = some (serve_whole d b)
  serve_range f d b unsatisfiable = some (out_of_range d b)
  serve_range f d b (part start end) =
      stream_part (partial d b start end) (write_range p.keys p.get p.decode p.takes f start end b)

  -- serveBlob, of a GET if `with_body` says so, behind blobs.Open.
  serve_opened : ℕ → Bool → Bytes → Digest → Root → Option BlobResponse
  unfolding serve_whole serve_range
  serve_opened f with_body header d b =
      if not with_body
      then some (found_blob d b)
      else if supports_range b
      then serve_range f d b (parse_range header b.meta.size)
      else some (serve_whole d b)

  -- serveBlob. `read_ok` is false when the reference or meta.json cannot be read.
  unfoldable pub serve_blob : ℕ → Bool → Bool → Bytes → Digest → Store → Option BlobResponse
  unfolding serve_opened
  serve_blob f read_ok with_body header d s = elim (open_blob read_ok d s) [
    | not_found ↦ some (blob_error blob_unknown)
    | unreadable ↦ some (bare 500)
    | opened m ↦ elim (lookup d s.published) [
      | none ↦ some (bare 500)
      | some b ↦ serve_opened f with_body header d b
    ]
  ]

-- deleteBlob
unfoldable pub serve_delete : Digest → Store → Store × BlobResponse
serve_delete d s =
    let (left, gone) = delete_blob d s in
    if gone
    then (left, bare 202)
    else if s.read_only
    then (left, bare 500)
    else (left, blob_error blob_unknown)

pub data Method : Type 0 where
  get_method head_method put_method post_method patch_method delete_method other_method : Method

module _ (p : Pulls) where
  dispatch_blob : ℕ → Bool → Method → Bytes → Store → Digest → Store × Option BlobResponse
  unfolding serve_blob serve_delete
  dispatch_blob f read_ok head_method header s d = (s, serve_blob p f read_ok false header d s)
  dispatch_blob f read_ok get_method header s d = (s, serve_blob p f read_ok true header d s)
  dispatch_blob f read_ok delete_method header s d =
      ((serve_delete d s).0, some (serve_delete d s).1)
  dispatch_blob f read_ok put_method header s d = (s, some (blob_error unsupported))
  dispatch_blob f read_ok post_method header s d = (s, some (blob_error unsupported))
  dispatch_blob f read_ok patch_method header s d = (s, some (blob_error unsupported))
  dispatch_blob f read_ok other_method header s d = (s, some (blob_error unsupported))

  -- handleBlob for the text behind "blobs/".
  unfoldable pub handle_blob :
      ℕ → Bool → Method → Bytes → Bytes → Store → Store × Option BlobResponse
  unfolding dispatch_blob
  handle_blob f read_ok method header rest s =
      if is_empty rest then (s, some (bare 404)) else elim (parse_digest rest) [
        | err e ↦ (s, some (blob_error digest_invalid))
        | ok d ↦ dispatch_blob f read_ok method header s d
      ]
