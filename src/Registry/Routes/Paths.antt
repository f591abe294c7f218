-- ===== src/Registry/Routes/Paths.antt =====
-- The path of a route, and that it is parsed back.
use oci_amber.Prelude.{
  ℕ, ◌≡◌, ◌≢◌, refl, sym, ap, ◌∙◌, inl, inr, false, none, some, List, [], ◌∷◌, ◌++◌, arith,
}
use oci_amber.Prelude.Maybe.{Option-cases}
use oci_amber.Prelude.Text.{Bytes, codes, cut_prefix, contains_byte, Lacks}
use oci_amber.Prelude.Text.Laws.{
  cut_prefix-eq, Lacks-contains_byte, Lacks-append, contains_byte-Lacks,
}
use oci_amber.Registry.Routes.{
  RouteKind, to_blobs, to_uploads, to_manifests, to_tags, to_referrers, Route, segment,
  first_segment, keywords, last_segment, upload_route, route_of, match_path, parse_path,
}

-- The path of a route.
abbrev pub path_of : Route → Bytes
path_of r = codes "/v2/" ++ (r.name ++ (segment r.kind ++ r.rest))

pieces :
    {n n' r r' : Bytes} {k k' : RouteKind}
    → n ≡ n'
    → k ≡ k'
    → r ≡ r'
    → n ++ (segment k ++ r) ≡ n' ++ (segment k' ++ r')
pieces a b c = cc (a, b, c)

first_segment-eq :
    (ks : List RouteKind) (s : Bytes) (k : RouteKind) (r : Bytes)
    → first_segment ks s ≡ some (k, r)
    → s ≡ segment k ++ r
unfolding first_segment
first_segment-eq [] s k r h = absurd (ground arith)
first_segment-eq (j ∷ ks) s k r h = elim (Option-cases (cut_prefix s (segment j))) [
  | inl e ↦ first_segment-eq ks s k r (ground arith)
  | inr (r', e) ↦
      let same : (j ≡ k) × (r' ≡ r) = ground arith in
      cut_prefix-eq s (segment j) r' e ∙ pieces {n = []} {n' = []} refl same.0 same.1
]

last_segment-eq :
    (s n : Bytes) (k : RouteKind) (r : Bytes)
    → last_segment s ≡ some (n, k, r)
    → s ≡ n ++ (segment k ++ r)
unfolding last_segment
last_segment-eq [] n k r h = absurd (ground arith)
last_segment-eq (c ∷ s) n k r h = elim (Option-cases (last_segment s)) [
  | inr ((n', k', r'), e) ↦
      let same : ((c ∷ n') ≡ n) × (k' ≡ k) × (r' ≡ r) = ground arith in
      ap (λ x. c ∷ x) (last_segment-eq s n' k' r' e) ∙ pieces same.0 same.1 same.2
  | inl e ↦ elim (Option-cases (first_segment keywords (c ∷ s))) [
    | inl f ↦ absurd (ground arith)
    | inr ((k', r'), f) ↦
        let same : ([] ≡ n) × (k' ≡ k) × (r' ≡ r) = ground arith in
        first_segment-eq keywords (c ∷ s) k' r' f ∙ pieces same.0 same.1 same.2
  ]
]

route_of-path :
    (name : Bytes) (k : RouteKind) (r : Bytes)
    → path_of (route_of name k r) ≡ codes "/v2/" ++ (name ++ (segment k ++ r))
unfolding route_of upload_route
route_of-path name to_blobs r = elim (Option-cases (cut_prefix r (codes "uploads/"))) [
  | inl e ↦ ap (λ o. path_of (upload_route name r o)) e
  | inr (after, e) ↦
      ap (λ o. path_of (upload_route name r o)) e
      ∙ ap (λ x. codes "/v2/" ++ (name ++ (codes "/blobs/" ++ x)))
          (sym (cut_prefix-eq r (codes "uploads/") after e))
]
route_of-path name to_uploads r = refl
route_of-path name to_manifests r = refl
route_of-path name to_tags r = refl
route_of-path name to_referrers r = refl

-- A path with a route is the path of that route.
pub parse_path-path_of : (p : Bytes) (r : Route) → parse_path p ≡ some r → path_of r ≡ p
unfolding parse_path match_path
parse_path-path_of p r h = elim (Option-cases (cut_prefix p (codes "/v2/"))) [
  | inl e ↦ absurd (ground arith)
  | inr ([], e) ↦ absurd (ground arith)
  | inr (c ∷ s, e) ↦ elim (Option-cases (last_segment s)) [
    | inl f ↦ absurd (ground arith)
    | inr ((n, k, rest), f) ↦
        let same : route_of (c ∷ n) k rest ≡ r = ground arith in
        ap path_of (sym same)
        ∙ route_of-path (c ∷ n) k rest
        ∙ ap (λ x. codes "/v2/" ++ c ∷ x) (sym (last_segment-eq s n k rest f))
        ∙ sym (cut_prefix-eq p (codes "/v2/") (c ∷ s) e)
  ]
]

cut_prefix-Lacks : (s w : Bytes) → Lacks b'/' s → cut_prefix s (w ++ b'/' ∷ []) ≡ none
unfolding cut_prefix
cut_prefix-Lacks [] [] l = refl
cut_prefix-Lacks [] (p ∷ w) l = refl
cut_prefix-Lacks (c ∷ s) [] (n, l) = ground arith
cut_prefix-Lacks (c ∷ s) (p ∷ w) (n, l) = ground (arith, cut_prefix-Lacks s w l)

-- A segment does not start where a text does not start with a slash.
last_segment-skip :
    (c : ℕ) (s : Bytes) → c ≢ b'/' → last_segment s ≡ none → last_segment (c ∷ s) ≡ none
unfolding last_segment first_segment cut_prefix
last_segment-skip c s n h = ground arith

last_segment-Lacks : (s : Bytes) → Lacks b'/' s → last_segment s ≡ none
unfolding last_segment
last_segment-Lacks [] l = refl
last_segment-Lacks (c ∷ s) (n, l) = last_segment-skip c s n (last_segment-Lacks s l)

last_segment-more :
    (m s n : Bytes) (k : RouteKind) (r : Bytes)
    → last_segment s ≡ some (n, k, r)
    → last_segment (m ++ s) ≡ some (m ++ n, k, r)
unfolding last_segment
last_segment-more [] s n k r h = h
last_segment-more (c ∷ m) s n k r h = rw (last_segment-more m s n k r h) refl

-- A slash before a text without one starts no segment.
last_segment-slash : (s : Bytes) → Lacks b'/' s → last_segment (b'/' ∷ s) ≡ none
unfolding last_segment
last_segment-slash s l =
    let blobs : first_segment keywords (b'/' ∷ s) ≡ none =
      unfold first_segment cut_prefix in
      ground (
        arith,
        cut_prefix-Lacks s (codes "blobs") l,
        cut_prefix-Lacks s (codes "manifests") l,
        cut_prefix-Lacks s (codes "tags") l,
        cut_prefix-Lacks s (codes "referrers") l,
      ) in
    ground (arith, last_segment-Lacks s l, blobs)

last_segment-word :
    (w s : Bytes) → Lacks b'/' w → last_segment s ≡ none → last_segment (w ++ s) ≡ none
last_segment-word [] s l h = h
last_segment-word (c ∷ w) s (n, l) h = last_segment-skip c (w ++ s) n (last_segment-word w s l h)

-- A segment that is the first of its text and the last.
last_segment-here :
    (w s : Bytes) (k : RouteKind) (r : Bytes)
    → contains_byte w b'/' ≡ false
    → last_segment s ≡ none
    → first_segment keywords (b'/' ∷ w ++ s) ≡ some (k, r)
    → last_segment (b'/' ∷ w ++ s) ≡ some ([], k, r)
unfolding last_segment
last_segment-here w s k r l h f =
    ground (arith, last_segment-word w s (contains_byte-Lacks w b'/' l) h, f)

-- The routes of the registry that a client names: `rest` is one segment.
pub record IsRoute (r : Route) : Type 0 where
  pub named : r.name ≢ []
  pub name_line : Lacks 10 r.name
  pub rest_line : Lacks 10 r.rest
  pub rest_segment : Lacks b'/' r.rest

-- What a segment and a text without a slash are parsed to.
abbrev Parsed : RouteKind → Bytes → Type 0
Parsed k rest =
    (j : RouteKind) × (r : Bytes) × (last_segment (segment k ++ rest) ≡ some ([], j, r))
    × ((name : Bytes) → route_of name j r ≡ record { name = name; kind = k; rest = rest })

segment-Parsed : (k : RouteKind) (rest : Bytes) → Lacks b'/' rest → Parsed k rest
unfolding first_segment cut_prefix contains_byte route_of upload_route
segment-Parsed to_blobs rest l = (
  to_blobs,
  rest,
  last_segment-here (codes "blobs") (b'/' ∷ rest) to_blobs rest refl (last_segment-slash rest l)
      refl,
  λ name. ground (arith, cut_prefix-Lacks rest (codes "uploads") l),
)
segment-Parsed to_uploads rest l = (
  to_blobs,
  codes "uploads/" ++ rest,
  last_segment-here (codes "blobs") (codes "/uploads/" ++ rest) to_blobs (codes "uploads/" ++ rest)
      refl
      (unfold last_segment in
        ground (
          arith,
          last_segment-word (codes "uploads") (b'/' ∷ rest)
              (contains_byte-Lacks (codes "uploads") b'/' refl) (last_segment-slash rest l),
        ))
      refl,
  λ name. refl,
)
segment-Parsed to_manifests rest l = (
  to_manifests,
  rest,
  last_segment-here (codes "manifests") (b'/' ∷ rest) to_manifests rest refl
      (last_segment-slash rest l) refl,
  λ name. refl,
)
segment-Parsed to_tags rest l = (
  to_tags,
  rest,
  last_segment-here (codes "tags") (b'/' ∷ rest) to_tags rest refl (last_segment-slash rest l) refl,
  λ name. refl,
)
segment-Parsed to_referrers rest l = (
  to_referrers,
  rest,
  last_segment-here (codes "referrers") (b'/' ∷ rest) to_referrers rest refl
      (last_segment-slash rest l) refl,
  λ name. refl,
)

segment-line : (k : RouteKind) → contains_byte (segment k) 10 ≡ false
unfolding contains_byte
segment-line to_blobs = refl
segment-line to_uploads = refl
segment-line to_manifests = refl
segment-line to_tags = refl
segment-line to_referrers = refl

append_nil : (n : Bytes) → n ++ [] ≡ n
append_nil [] = refl
append_nil (c ∷ n) = ap (λ x. c ∷ x) (append_nil n)

match_path-route :
    (name : Bytes) (k : RouteKind) (rest : Bytes)
    → IsRoute (record { name = name; kind = k; rest = rest })
    → match_path (name ++ (segment k ++ rest)) ≡ some record { name = name; kind = k; rest = rest }
unfolding match_path
match_path-route [] k rest v = absurd (v.named refl)
match_path-route (c ∷ n) k rest v =
    let (j, r, e, f) = segment-Parsed k rest v.rest_segment in
    let line = Lacks-contains_byte (c ∷ n ++ (segment k ++ rest)) 10 (
      Lacks-append 10 (c ∷ n) (segment k ++ rest) v.name_line (
        Lacks-append 10 (segment k) rest (contains_byte-Lacks (segment k) 10 (segment-line k))
          v.rest_line)) in
    let there = last_segment-more n (segment k ++ rest) [] j r e in
    ground (arith, line, there, f (c ∷ n), append_nil n)

-- The path of a route with a name and one segment behind its keyword, neither of which has a newline,
-- is parsed to that route, whatever segments the name has.
pub path_of-parse_path : (r : Route) → IsRoute r → parse_path (path_of r) ≡ some r
unfolding parse_path cut_prefix
path_of-parse_path r v = match_path-route r.name r.kind r.rest v
