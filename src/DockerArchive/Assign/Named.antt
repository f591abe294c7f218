-- ===== src/DockerArchive/Assign/Named.antt =====
-- The names of the entries of a plan.
use oci_amber.Prelude.{
  ℕ, zero, suc, ◌≡◌, ◌≢◌, refl, subst, inl, inr, true, Bool-cases, not, some, List, [], ◌∷◌, ◌++◌,
  length, ◌==◌, arith, All, All-append,
}
use oci_amber.Prelude.Maybe.{Option-cases, some_injective}
use oci_amber.Prelude.Text.{Bytes, codes}
use oci_amber.Prelude.Assoc.{Assoc, lookup}
use oci_amber.Oci.Errors.{Result, ok, err}
use oci_amber.Oci.Digest.{Digest, parse_digest}
use oci_amber.DockerArchive.Names.{
  Name, RepoTag, tagged, untagged, bad_tag, parse_name, name_from_repo_tag,
}
use oci_amber.DockerArchive.Names.Valid.{
  IsValidName, parse_name-IsValidName, name_from_repo_tag-IsValidName,
}
use oci_amber.DockerArchive.Archive.{Archive, LegacyEntry}
use oci_amber.DockerArchive.Plan.{PlanEntry, Plan, Root, plan_entry, plan_roots}
use oci_amber.DockerArchive.Assign.{
  has_name, append_name, name_entry, override_names, name_positions, tag_entries, tag_config,
  blob_hex, legacy_entry, legacy_names, all_named, named_only, assign_names, config_roots,
}

-- The names of an entry are valid.
abbrev HasValidNames : PlanEntry → Type 0
HasValidNames e = All IsValidName e.names

append_name-IsValidName :
    (names : List Name) (n : Name)
    → IsValidName n
    → All IsValidName names
    → All IsValidName (append_name names n)
unfolding append_name
append_name-IsValidName names n v h = elim (Bool-cases (has_name n names)) [
  | inl t ↦ rw t h
  | inr t ↦ rw t (All-append IsValidName names (n ∷ []) h (v, tt))
]

name_entry-HasValidNames :
    (i : ℕ) (n : Name) (es : List PlanEntry)
    → IsValidName n
    → All HasValidNames es
    → All HasValidNames (name_entry i n es)
unfolding name_entry
name_entry-HasValidNames i n [] v h = tt
name_entry-HasValidNames zero n (e ∷ es) v (k, h) = (append_name-IsValidName e.names n v k, h)
name_entry-HasValidNames (suc i) n (e ∷ es) v (k, h) = (k, name_entry-HasValidNames i n es v h)

name_positions-HasValidNames :
    (is : List ℕ) (n : Name) (es : List PlanEntry)
    → IsValidName n
    → All HasValidNames es
    → All HasValidNames (name_positions is n es)
unfolding name_positions
name_positions-HasValidNames [] n es v h = h
name_positions-HasValidNames (i ∷ is) n es v h =
    name_positions-HasValidNames is n (name_entry i n es) v (name_entry-HasValidNames i n es v h)

-- One tag, given what holds of those behind it.
tag_one-HasValidNames :
    (is : List ℕ) (t : Bytes) (ts : List Bytes) (es out : List PlanEntry) (r : RepoTag)
    → name_from_repo_tag t ≡ r
    → tag_entries is (t ∷ ts) es ≡ some out
    → ((next : List PlanEntry)
        → tag_entries is ts next ≡ some out
        → All HasValidNames next
        → All HasValidNames out)
    → All HasValidNames es
    → All HasValidNames out
unfolding tag_entries
tag_one-HasValidNames is t ts es out bad_tag e q ih h = absurd (ground arith)
tag_one-HasValidNames is t ts es out untagged e q ih h = ih es (ground arith) h
tag_one-HasValidNames is t ts es out (tagged n) e q ih h =
    ih (name_positions is n es) (ground arith)
      (name_positions-HasValidNames is n es (name_from_repo_tag-IsValidName t n e) h)

tag_entries-HasValidNames :
    (is : List ℕ) (ts : List Bytes) (es out : List PlanEntry)
    → tag_entries is ts es ≡ some out
    → All HasValidNames es
    → All HasValidNames out
tag_entries-HasValidNames is [] es out q h =
    unfold tag_entries in subst (All HasValidNames) (some_injective q) h
tag_entries-HasValidNames is (t ∷ ts) es out q h =
    tag_one-HasValidNames is t ts es out (name_from_repo_tag t) refl q
      (λ next. tag_entries-HasValidNames is ts next out) h

override_names-HasValidNames :
    (ss : List Bytes) (es out : List PlanEntry)
    → override_names ss es ≡ some out
    → All HasValidNames es
    → All HasValidNames out
unfolding override_names
override_names-HasValidNames [] es out q h = subst (All HasValidNames) (some_injective q) h
override_names-HasValidNames (s ∷ ss) es out q h = elim (Option-cases (parse_name s)) [
  | inl e ↦ absurd (ground arith)
  | inr (n, e) ↦
      override_names-HasValidNames ss (name_entry 0 n es) out (ground arith)
        (name_entry-HasValidNames 0 n es (parse_name-IsValidName s n e) h)
]

legacy_entry-HasValidNames :
    (m : Assoc (List ℕ)) (ts : List Bytes) (r : Result Digest) (es out : List PlanEntry)
    → legacy_entry m ts r es ≡ some out
    → All HasValidNames es
    → All HasValidNames out
unfolding legacy_entry tag_config
legacy_entry-HasValidNames m ts (err e) es out q h = absurd (ground arith)
legacy_entry-HasValidNames m ts (ok d) es out q h = elim (Option-cases (lookup d m)) [
  | inl e ↦ absurd (ground arith)
  | inr (is, e) ↦ tag_entries-HasValidNames is ts es out (ground arith) h
]

legacy_names-HasValidNames :
    (m : Assoc (List ℕ)) (ls : List LegacyEntry) (es out : List PlanEntry)
    → legacy_names m ls es ≡ some out
    → All HasValidNames es
    → All HasValidNames out
unfolding legacy_names
legacy_names-HasValidNames m [] es out q h = subst (All HasValidNames) (some_injective q) h
legacy_names-HasValidNames m (l ∷ ls) es out q h =
    let r = parse_digest (codes "sha256:" ++ blob_hex l.config) in
    elim (Option-cases (legacy_entry m l.repo_tags r es)) [
      | inl e ↦ absurd (ground arith)
      | inr (next, e) ↦
          legacy_names-HasValidNames m ls next out (ground arith)
            (legacy_entry-HasValidNames m l.repo_tags r es next e h)
    ]

-- An entry that can be published.
abbrev pub IsNamed : PlanEntry → Type 0
IsNamed e = (e.names ≢ []) × All IsValidName e.names

length-eq-zero : (names : List Name) → not (length names == 0) ≡ true → names ≢ []
length-eq-zero [] h = absurd cc
length-eq-zero (n ∷ names) h = cc

all_named-IsNamed :
    (es : List PlanEntry) → all_named es ≡ true → All HasValidNames es → All IsNamed es
unfolding all_named
all_named-IsNamed [] h k = tt
all_named-IsNamed (e ∷ es) h (k, ks) =
    ((length-eq-zero e.names (ground arith), k), all_named-IsNamed es (ground arith) ks)

-- A name that is added stays.
append_name-ne : (names : List Name) (n : Name) → append_name names n ≢ []
unfolding append_name
append_name-ne [] n = cc
append_name-ne (x ∷ names) n = elim (Bool-cases (has_name n (x ∷ names))) [
  | inl t ↦ rw t cc
  | inr t ↦ rw t cc
]

-- One entry that has been given a name keeps one.
override_names-IsNamed :
    (ss : List Bytes) (e : PlanEntry) (out : List PlanEntry)
    → override_names ss (e ∷ []) ≡ some out
    → e.names ≢ []
    → All (λ x. x.names ≢ []) out
unfolding override_names name_entry
override_names-IsNamed [] e out q h = subst (All (λ x. x.names ≢ [])) (some_injective q) (h, tt)
override_names-IsNamed (s ∷ ss) e out q h = elim (Option-cases (parse_name s)) [
  | inl f ↦ absurd (ground arith)
  | inr (n, f) ↦
      override_names-IsNamed ss (record e { names = append_name e.names n }) out (ground arith)
        (append_name-ne e.names n)
]

All-both :
    (es : List PlanEntry) → All (λ x. x.names ≢ []) es → All HasValidNames es → All IsNamed es
All-both [] a b = tt
All-both (e ∷ es) (h, a) (k, b) = ((h, k), All-both es a b)

override_names-first :
    (s : Bytes) (ss : List Bytes) (es out : List PlanEntry)
    → (length es == 1) ≡ true
    → override_names (s ∷ ss) es ≡ some out
    → All (λ x. x.names ≢ []) out
unfolding override_names name_entry
override_names-first s ss [] out l q = absurd cc
override_names-first s ss (e ∷ f ∷ es) out l q = absurd (ground arith)
override_names-first s ss (e ∷ []) out l q = elim (Option-cases (parse_name s)) [
  | inl f ↦ absurd (ground arith)
  | inr (n, f) ↦
      override_names-IsNamed ss (record e { names = append_name e.names n }) out (ground arith)
        (append_name-ne e.names n)
]

-- Names are assigned to all entries, or it is an error.
pub assign_names-IsNamed :
    (a : Archive) (rs : List Root) (names : List Bytes) (es out : List PlanEntry)
    → assign_names a rs names es ≡ some out
    → All HasValidNames es
    → All IsNamed out
unfolding assign_names named_only
assign_names-IsNamed a rs (s ∷ ss) es out q h = elim (Bool-cases (length es == 1)) [
  | inr t ↦ absurd (ground arith)
  | inl t ↦
      let done : override_names (s ∷ ss) es ≡ some out = ground arith in
      All-both out (override_names-first s ss es out t done)
        (override_names-HasValidNames (s ∷ ss) es out done h)
]
assign_names-IsNamed a rs [] es out q h =
    elim (Option-cases (legacy_names (config_roots 0 rs []) a.legacy es)) [
      | inl e ↦ absurd (ground arith)
      | inr (next, e) ↦ elim (Bool-cases (all_named next)) [
        | inr t ↦ absurd (ground arith)
        | inl t ↦
            let same : next ≡ out = ground arith in
            subst (All IsNamed) same (
              all_named-IsNamed next t
                (legacy_names-HasValidNames (config_roots 0 rs []) a.legacy es next e h))
      ]
    ]

-- The entries start without a name.
pub plan_roots-HasValidNames :
    (a : Archive) (rs : List Root) (p : Plan)
    → All HasValidNames p.entries
    → All HasValidNames (plan_roots a rs p).entries
unfolding plan_roots plan_entry
plan_roots-HasValidNames a [] p h = h
plan_roots-HasValidNames a ((n, cs) ∷ rs) p h =
    plan_roots-HasValidNames a rs _ (All-append HasValidNames p.entries _ h (tt, tt))
