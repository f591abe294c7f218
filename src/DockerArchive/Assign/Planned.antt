-- ===== src/DockerArchive/Assign/Planned.antt =====
-- What a plan promises: its order, that it is complete, and the names of its entries.
use oci_amber.Prelude.{
  ℕ, ◌≡◌, sym, ap, ◌∙◌, subst, inl, inr, Bool, true, Option, none, some, List, [], arith, All,
}
use oci_amber.Prelude.Maybe.{Option-cases, some_injective}
use oci_amber.Prelude.Text.{Bytes}
use oci_amber.Prelude.Sort.{Has}
use oci_amber.Oci.Digest.{Digest}
use oci_amber.Oci.Manifest.{Descriptor, elements, blob_descriptors}
use oci_amber.DockerArchive.Archive.{Archive}
use oci_amber.DockerArchive.Resolve.{ManifestNode, Nodes, Json}
use oci_amber.DockerArchive.Plan.{
  PlanEntry, Plan, Root, plans_blob, plans_manifest, plan_roots, find_roots, mark_stored,
}
use oci_amber.DockerArchive.Plan.Order.{
  InRoots, IsConsistent, IsPublishable, plan_roots-IsPublishable,
}
use oci_amber.DockerArchive.Plan.Complete.{
  IsUnique, plan_roots_complete, plan_roots-IsUnique, mark_stored-plans, mark_stored-IsUnique,
}
use oci_amber.DockerArchive.Assign.{
  assign_names, no_plan, marked, with_names, plan_found, plan_archive,
}
use oci_amber.DockerArchive.Assign.Named.{IsNamed, assign_names-IsNamed, plan_roots-HasValidNames}

-- What is kept of the plan that is made of the roots.
with_names-parts :
    (asks : Option (Digest → Option Bool)) (q p : Plan) (es : List PlanEntry)
    → with_names asks q (some es) ≡ some p
    → (p.manifests ≡ q.manifests)
      × (p.entries ≡ es)
      × (IsUnique q.blobs → IsUnique p.blobs)
      × ((d : Digest) → plans_blob d p.blobs ≡ plans_blob d q.blobs)
unfolding with_names marked
with_names-parts none q p es h =
    let same = some_injective (sym h) in
    (
      ap (λ x. x.manifests) same,
      ap (λ x. x.entries) same,
      λ u. subst IsUnique (ap (λ x. x.blobs) (sym same)) u,
      λ d. ap (λ x. plans_blob d x.blobs) same,
    )
with_names-parts (some asks) q p es h = elim (Option-cases (mark_stored asks q.blobs)) [
  | inl e ↦ absurd (ground arith)
  | inr (bs, e) ↦
      let same : p ≡ record { blobs = bs; manifests = q.manifests; entries = es } = ground arith in
      (
        ap (λ x. x.manifests) same,
        ap (λ x. x.entries) same,
        λ u.
            subst IsUnique (ap (λ x. x.blobs) (sym same))
              (mark_stored-IsUnique asks q.blobs bs e u),
        λ d. ap (λ x. plans_blob d x.blobs) same ∙ mark_stored-plans asks q.blobs bs d e,
      )
]

module _ (json : Json) (a : Archive) (f : ℕ) (names : List Bytes)
    (asks : Option (Digest → Option Bool)) (p : Plan) where
  plan_archive-parts :
      (rs : List Root)
      → find_roots json a f (elements a.index.manifests) [] ≡ some rs
      → plan_archive json a f names asks ≡ some p
      → (es : List PlanEntry) × (assign_names a rs names (plan_roots a rs no_plan).entries
          ≡ some es)
        × (with_names asks (plan_roots a rs no_plan) (some es) ≡ some p)
  unfolding plan_archive plan_found
  plan_archive-parts rs r h =
      elim (Option-cases (assign_names a rs names (plan_roots a rs no_plan).entries)) [
        | inl e ↦ absurd (unfold with_names in ground arith)
        | inr (es, e) ↦ (es, e, ground arith)
      ]

  -- In the plan of an archive every manifest stands behind its children: the children of each node
  -- with its digest are planned before it. The digest of a node must determine its children.
  pub plan_archive-IsPublishable :
      (rs : List Root)
      → find_roots json a f (elements a.index.manifests) [] ≡ some rs
      → plan_archive json a f names asks ≡ some p
      → IsConsistent (InRoots rs)
      → IsPublishable (InRoots rs) [] p.manifests
  plan_archive-IsPublishable rs r h same =
      let (es, e, w) = plan_archive-parts rs r h in
      let (m, n, u, b) = with_names-parts asks (plan_roots a rs no_plan) p es w in
      subst (IsPublishable (InRoots rs) []) (sym m)
        (plan_roots-IsPublishable (InRoots rs) a same rs no_plan (λ m ks i. i) tt)

  -- The plan of an archive holds every manifest below its roots and every blob that one of them
  -- names, and no blob twice.
  pub plan_archive_complete :
      (rs : List Root)
      → find_roots json a f (elements a.index.manifests) [] ≡ some rs
      → plan_archive json a f names asks ≡ some p
      → IsUnique p.blobs
        × ((m : ManifestNode) (ks : Nodes)
            → InRoots rs m ks
            → (plans_manifest m.desc.digest p.manifests ≡ true)
              × ((d : Descriptor)
                  → Has d (blob_descriptors m.manifest)
                  → plans_blob d.digest p.blobs ≡ true))
  plan_archive_complete rs r h =
      let (es, e, w) = plan_archive-parts rs r h in
      let (m, n, u, b) = with_names-parts asks (plan_roots a rs no_plan) p es w in
      (
        u (plan_roots-IsUnique a rs no_plan tt),
        λ x ks i.
            let (c, d) = plan_roots_complete a rs no_plan x ks i in
            (ap (plans_manifest x.desc.digest) m ∙ c, λ y j. b y.digest ∙ d y j),
      )

  -- Every entry of the plan of an archive has a name, and all its names have a valid repository and
  -- a valid tag.
  pub plan_archive-IsNamed : plan_archive json a f names asks ≡ some p → All IsNamed p.entries
  plan_archive-IsNamed h =
      elim (Option-cases (find_roots json a f (elements a.index.manifests) [])) [
        | inl e ↦ absurd (unfold plan_archive plan_found in ground arith)
        | inr (rs, r) ↦
            let (es, e, w) = plan_archive-parts rs r h in
            let (m, n, u, b) = with_names-parts asks (plan_roots a rs no_plan) p es w in
            subst (All IsNamed) (sym n) (
              assign_names-IsNamed a rs names (plan_roots a rs no_plan).entries es e
                (plan_roots-HasValidNames a rs no_plan tt))
      ]
