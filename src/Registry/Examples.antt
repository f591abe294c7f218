-- ===== src/Registry/Examples.antt =====
-- A tag list read in pages, and the end of an upload into a store that keeps everything.
use oci_amber.Prelude.{◌≡◌, refl, true, false, none, some, List, [], ◌∷◌, ◌++◌, arith}
use oci_amber.Prelude.Text.{Bytes, codes, cut, cut_prefix, index_byte}
use oci_amber.Prelude.Split.{trim_space}
use oci_amber.Prelude.Assoc.{lookup}
use oci_amber.Oci.Digest.{Digest}
use oci_amber.Oci.Examples.{sha_a, sha_a-valid}
use oci_amber.Samples.{constant_sum}
use oci_amber.Upload.Session.{Session, new_session, touch, append, copy}
use oci_amber.Upload.Session.Contents.{new_session-IsValid}
use oci_amber.Upload.Session.Append.{received}
use oci_amber.Registry.Pages.Follow.{follow, follow-items}
use oci_amber.Registry.Uploads.{Blobs, Server, Request, known, absent, stored, put_upload}
use oci_amber.Registry.Uploads.Range.{parse_content_range, parse_natural, digits_from, parse_digits}
use oci_amber.Registry.Uploads.Finish.{Finished, put_upload-Finished}

abbrev tags : List Bytes
tags = codes "a" ∷ codes "b" ∷ codes "c" ∷ codes "d" ∷ codes "e" ∷ []

follow-items_example : follow 5 tags 2 [] ≡ tags
follow-items_example =
    follow-items 5 tags 2
      (
        (refl, (refl, (refl, (refl, tt)))),
        ((refl, (refl, (refl, tt))), ((refl, (refl, tt)), ((refl, tt), (tt, tt)))),
      )
      (refl, (refl, (refl, (refl, (refl, tt))))) (omega arith)

-- Not a hash: any function will do.

-- A store whose state is the digests that it was given.
abbrev keeping : Blobs (List Digest)
keeping = record {
  exists = λ d s. absent;
  reuse = λ d s. (s, absent);
  store_spool = λ sp disk s. (sp.digest ∷ s, stored sp.digest);
}

abbrev knowing : Blobs (List Digest)
knowing = record {
  exists = λ d s. known;
  reuse = λ d s. (s, known);
  store_spool = λ sp disk s. (s, stored sp.digest);
}

abbrev session : Session
session = new_session (codes "id") (codes "up/id") 4 0

abbrev server : Server (List Digest)
server = record {
  manager = record {
    dir = codes "up";
    max_in_memory = 4;
    timeout = 100;
    objects = session ∷ [];
    sessions = (codes "id", 0) ∷ [];
    closed = false;
  };
  state = [];
}

abbrev request : Request
request = record {
  mount = [];
  digest = some sha_a;
  content_range = codes "5-9";
  body = record { chunks = []; fails = false };
  new_id = none;
  now = 1;
  entry = 2;
  exit = 3;
  close_io = record { close_ok = true; remove_ok = true };
  unlink_ok = true;
}

session-registered : lookup (codes "id") server.manager.sessions ≡ some 0
unfolding lookup
session-registered = refl

empty-appends : (append 2 3 request.body (touch 1 session)).2 ≡ none
unfolding append copy
empty-appends = refl

put_upload-Finished_example :
    Finished keeping constant_sum
      (session.hash ++ received [])
      sha_a
      []
      (put_upload keeping constant_sum (codes "id") request server)
put_upload-Finished_example =
    put_upload-Finished keeping constant_sum (codes "id") request server 0 session sha_a sha_a []
      session-registered refl (new_session-IsValid (codes "id") (codes "up/id") 4 0) refl refl refl
      refl sha_a-valid refl empty-appends

range-parses : parse_content_range (codes "5-9") ≡ some (5, 9)
unfolding parse_content_range trim_space cut_prefix index_byte cut parse_natural digits_from
    parse_digits
range-parses = refl
