-- ===== src/Registry/Routes.antt =====
-- registry/server.go: the routes of the registry below /v2/.
pub mod Paths
use oci_amber.Prelude.{
  ℕ, Bool, true, false, not, ◌||◌, Option, none, some, List, [], ◌∷◌, ◌++◌, if◌then◌else◌,
}
use oci_amber.Prelude.Text.{Bytes, codes, bytes_eq, cut_prefix, contains_byte}
use oci_amber.Oci.Errors.{is_ok}
use oci_amber.Oci.Names.{validate_repository}

pub data RouteKind : Type 0 where
  to_blobs to_uploads to_manifests to_tags to_referrers : RouteKind

pub record Route : Type 0 where
  pub name : Bytes
  pub kind : RouteKind
  pub rest : Bytes

-- The keyword segment of pathRE.
abbrev pub segment : RouteKind → Bytes
segment to_blobs = codes "/blobs/"
segment to_uploads = codes "/blobs/uploads/"
segment to_manifests = codes "/manifests/"
segment to_tags = codes "/tags/"
segment to_referrers = codes "/referrers/"

-- The first keyword segment that a text begins with, and what is behind it.
first_segment : List RouteKind → Bytes → Option (RouteKind × Bytes)
first_segment [] s = none
first_segment (k ∷ ks) s = elim (cut_prefix s (segment k)) [
  | some r ↦ some (k, r)
  | none ↦ first_segment ks s
]

abbrev pub keywords : List RouteKind
keywords = to_blobs ∷ to_manifests ∷ to_tags ∷ to_referrers ∷ []

-- The greedy `(.+)`: the text up to the last keyword segment, the segment, and the text behind it.
last_segment : Bytes → Option (Bytes × RouteKind × Bytes)
unfolding first_segment
last_segment [] = none
last_segment (c ∷ s) = elim (last_segment s) [
  | some (n, k, r) ↦ some (c ∷ n, k, r)
  | none ↦ elim (first_segment keywords (c ∷ s)) [ none ↦ none | some (k, r) ↦ some ([], k, r) ]
]

-- An upload is below "blobs/uploads/".
upload_route : Bytes → Bytes → Option Bytes → Route
upload_route name rest none = record { name = name; kind = to_blobs; rest = rest }
upload_route name rest (some after) = record { name = name; kind = to_uploads; rest = after }

route_of : Bytes → RouteKind → Bytes → Route
unfolding upload_route
route_of name to_blobs rest = upload_route name rest (cut_prefix rest (codes "uploads/"))
route_of name to_uploads rest = record { name = name; kind = to_uploads; rest = rest }
route_of name to_manifests rest = record { name = name; kind = to_manifests; rest = rest }
route_of name to_tags rest = record { name = name; kind = to_tags; rest = rest }
route_of name to_referrers rest = record { name = name; kind = to_referrers; rest = rest }

-- What is behind "/v2/": `.` takes no newline, and the name is not empty.
match_path : Bytes → Option Route
unfolding last_segment route_of
match_path [] = none
match_path (c ∷ s) =
    if contains_byte (c ∷ s) 10
    then none
    else elim (last_segment s) [ none ↦ none | some (n, k, r) ↦ some (route_of (c ∷ n) k r) ]

-- parsePath
unfoldable pub parse_path : Bytes → Option Route
unfolding match_path
parse_path p = elim (cut_prefix p (codes "/v2/")) [ none ↦ none | some s ↦ match_path s ]

-- Where ServeHTTP sends a request path.
pub data Target : Type 0 where
  to_fs : Bytes → Target
  to_base to_catalog no_route bad_name : Target
  to_route : Route → Target

named_target : Option Route → Target
named_target none = no_route
named_target (some r) = if not (is_ok (validate_repository r.name)) then bad_name else to_route r

-- The tests of ServeHTTP, in its order.
unfoldable pub serve_target : Bytes → Target
unfolding named_target
serve_target p = elim (cut_prefix p (codes "/fs/")) [
  | some rest ↦ to_fs rest
  | none ↦
      if bytes_eq p (codes "/v2/") || bytes_eq p (codes "/v2")
      then to_base
      else if bytes_eq p (codes "/v2/_catalog")
      then to_catalog
      else named_target (parse_path p)
]
