-- ===== src/DockerArchive/Resolve/Depth.antt =====
-- dockerarchive/plan.go: the recursion of resolve ends, since the manifests of an archive name each
-- other by digest without a cycle.
use oci_amber.Prelude.{
  ◌≡◌, ◌<◌, refl, ap, inl, inr, ℕ, zero, suc, false, Bool-cases, Option, none, some, List, [], ◌∷◌,
  arith,
}
use oci_amber.Prelude.Text.{Bytes}
use oci_amber.Prelude.Sort.{Has}
use oci_amber.Oci.Errors.{ok, Result-cases}
use oci_amber.Oci.Digest.{Digest}
use oci_amber.Oci.Manifest.{
  Descriptor, Manifest, parse_manifest, is_index, elements, blob_descriptors,
}
use oci_amber.DockerArchive.Archive.{Archive, archive_has, read_blob}
use oci_amber.DockerArchive.Resolve.{
  Lookup, absent, broken, present, Kept, Json, keep_child, resolve_each, resolve_index,
  resolve_parsed, resolve_read, resolve_node, holds_all, no_nodes, node, after_children, typed,
}

-- Two computations end, in the same value.
abbrev pub Agree : {A : Type 0} → Option A → Option A → Type 0
Agree {A} x y = (a : A) × (x ≡ some a) × (y ≡ some a)

-- A rank of the digests by which the manifests that a manifest names stand below it.
abbrev pub IsRanked : Json → Archive → (Digest → ℕ) → Type 0
IsRanked json a rank =
    (d : Digest) (body : Bytes) (m : Manifest) (c : Descriptor)
    → read_blob json.sha256 a d ≡ some body
    → parse_manifest json.unmarshal body ≡ ok m
    → Has c (elements m.manifests)
    → rank c.digest < rank d

keep_child-Agree :
    (i : ℕ) (l : Lookup) (x y : Option (Option Kept))
    → Agree x y
    → Agree (keep_child i l x) (keep_child i l y)
unfolding keep_child
keep_child-Agree i broken x y h = (none, refl, refl)
keep_child-Agree i absent x y h = h
keep_child-Agree i (present n cs) x y (none, p, q) =
    (none, ap (keep_child i (present n cs)) p, ap (keep_child i (present n cs)) q)
keep_child-Agree i (present n cs) x y (some k, p, q) = (
  some record { positions = i ∷ k.positions; children = node n cs k.children },
  ap (keep_child i (present n cs)) p,
  ap (keep_child i (present n cs)) q,
)

resolve_each-Agree :
    (r q : Descriptor → Option Lookup) (i : ℕ) (ds : List Descriptor)
    → ((d : Descriptor) → Has d ds → Agree (r d) (q d))
    → Agree (resolve_each r i ds) (resolve_each q i ds)
unfolding resolve_each
resolve_each-Agree r q i [] h = (some record { positions = []; children = no_nodes }, refl, refl)
resolve_each-Agree r q i (d ∷ ds) h =
    let (l, e, e') = h d (inl refl) in
    let (k, p, p') =
      keep_child-Agree i l (resolve_each r (suc i) ds) (resolve_each q (suc i) ds)
        (resolve_each-Agree r q (suc i) ds (λ c m. h c (inr m))) in
    (k, rw (e, resolve_each) p, rw (e', resolve_each) p')

module _ (json : Json) (a : Archive) where
  after_children-Agree :
      (d : Descriptor) (body : Bytes) (m : Manifest) (x y : Option (Option Kept))
      → Agree x y
      → Agree (after_children json a d body m x) (after_children json a d body m y)
  unfolding after_children
  after_children-Agree d body m x y (none, p, q) =
      (broken, ap (after_children json a d body m) p, ap (after_children json a d body m) q)
  after_children-Agree d body m x y (some k, p, q) = (
    resolve_index json d body m k,
    ap (after_children json a d body m) p,
    ap (after_children json a d body m) q,
  )

  resolve_parsed-Agree :
      (r q : Descriptor → Option Lookup) (d : Descriptor) (body : Bytes) (m : Manifest)
      → ((c : Descriptor) → Has c (elements m.manifests) → Agree (r c) (q c))
      → Agree (resolve_parsed json a r d body (ok m)) (resolve_parsed json a q d body (ok m))
  unfolding resolve_parsed
  resolve_parsed-Agree r q d body m h = elim (Bool-cases (is_index m)) [
    | inl t ↦ rw t (
        after_children-Agree (typed d m) body m (resolve_each r 0 (elements m.manifests))
          (resolve_each q 0 (elements m.manifests))
          (resolve_each-Agree r q 0 (elements m.manifests) h))
    | inr t ↦ elim (Bool-cases (holds_all a (blob_descriptors m))) [
      | inl u ↦ (
        present (record { desc = typed d m; body = body; manifest = m; synthesized = false })
            no_nodes,
        ground (arith, t, u),
        ground (arith, t, u),
      )
      | inr u ↦ (broken, ground (arith, t, u), ground (arith, t, u))
    ]
  ]

  resolve_read-Agree :
      (r q : Descriptor → Option Lookup) (d : Descriptor) (x : Option Bytes)
      → ((body : Bytes) (m : Manifest) (c : Descriptor)
          → x ≡ some body
          → parse_manifest json.unmarshal body ≡ ok m
          → Has c (elements m.manifests)
          → Agree (r c) (q c))
      → Agree (resolve_read json a r d x) (resolve_read json a q d x)
  unfolding resolve_read resolve_parsed
  resolve_read-Agree r q d none h = (broken, refl, refl)
  resolve_read-Agree r q d (some body) h =
      elim (Result-cases (parse_manifest json.unmarshal body)) [
        | inl (e, k) ↦ rw k (broken, refl, refl)
        | inr (m, k) ↦ rw k (resolve_parsed-Agree r q d body m (λ c i. h body m c refl k i))
      ]

  -- When the manifests of an archive name each other without a cycle, so that some rank falls from each
  -- to those that it names, the resolving of a descriptor ends with every fuel above its rank, and the
  -- fuel makes no difference to what it finds.
  pub resolve_node_enough :
      (rank : Digest → ℕ) (f g : ℕ) (d : Descriptor)
      → IsRanked json a rank
      → rank d.digest < f
      → rank d.digest < g
      → Agree (resolve_node json a f d) (resolve_node json a g d)
  unfolding resolve_node
  resolve_node_enough rank zero g d v h k = absurd (omega arith)
  resolve_node_enough rank (suc f) zero d v h k = absurd (omega arith)
  resolve_node_enough rank (suc f) (suc g) d v h k = elim (Bool-cases (archive_has a d.digest)) [
    | inl t ↦ rw t (
        resolve_read-Agree (resolve_node json a f) (resolve_node json a g) d
          (read_blob json.sha256 a d.digest)
          (λ body m c p q i.
            let lt = v d.digest body m c p q i in
            resolve_node_enough rank f g c v (omega arith) (omega arith)))
    | inr t ↦ (absent, ground (arith, t), ground (arith, t))
  ]
