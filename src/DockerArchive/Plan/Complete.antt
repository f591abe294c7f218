-- ===== src/DockerArchive/Plan/Complete.antt =====
-- What a plan holds: every manifest of its roots, and every blob of theirs once.
use oci_amber.Prelude.{
  ◌≡◌, refl, sym, ap, ◌∙◌, subst, inl, inr, Bool, true, false, Bool-cases, ◌||◌, Option, some, List,
  [], ◌∷◌, ◌++◌, arith, if◌then◌else◌,
}
use oci_amber.Prelude.Maybe.{Option-cases, some_injective}
use oci_amber.Prelude.Text.{bytes_eq}
use oci_amber.Prelude.Text.Laws.{bytes_eq_iff, bytes_eq_refl}
use oci_amber.Prelude.Sort.{Has}
use oci_amber.Oci.Digest.{Digest}
use oci_amber.Oci.Manifest.{Descriptor, blob_descriptors}
use oci_amber.DockerArchive.Archive.{Archive, archive_size}
use oci_amber.DockerArchive.Resolve.{ManifestNode, Nodes, no_nodes, node}
use oci_amber.DockerArchive.Plan.{
  PlanBlob, Plan, Walked, Root, plans_blob, plans_manifest, plan_blobs, visit, walk, plan_roots,
  mark_stored,
}
use oci_amber.DockerArchive.Plan.Order.{Within, InRoots, walk-Within, walk-more}

-- No digest is planned twice.
abbrev pub IsUnique : List PlanBlob → Type 0
IsUnique [] = Unit {0}
IsUnique (b ∷ bs) = (plans_blob b.digest bs ≡ false) × IsUnique bs

plans_blob-append :
    (d : Digest) (bs cs : List PlanBlob)
    → plans_blob d (bs ++ cs) ≡ (plans_blob d bs || plans_blob d cs)
plans_blob-append d [] cs = refl
plans_blob-append d (b ∷ bs) cs = ground (arith, plans_blob-append d bs cs)

IsUnique-append :
    (bs : List PlanBlob) (b : PlanBlob)
    → IsUnique bs
    → plans_blob b.digest bs ≡ false
    → IsUnique (bs ++ b ∷ [])
IsUnique-append [] b u h = (refl, tt)
IsUnique-append (c ∷ bs) b (k, u) h = (
  ground (
    arith,
    plans_blob-append c.digest bs (b ∷ []),
    bytes_eq_iff b.digest c.digest,
    bytes_eq_iff c.digest b.digest,
  ),
  IsUnique-append bs b u (ground arith),
)

module _ (a : Archive) where
  abbrev blob_of : Descriptor → PlanBlob
  blob_of d = record {
    digest = d.digest;
    size = archive_size a d.digest;
    media_type = d.media_type;
    stored = false;
  }

  -- One round of the loop over the blobs.
  abbrev with_blob : Descriptor → List PlanBlob → List PlanBlob
  with_blob d bs = if plans_blob d.digest bs then bs else bs ++ blob_of d ∷ []

  with_blob-more :
      (d : Descriptor) (bs : List PlanBlob) (e : Digest)
      → plans_blob e bs ≡ true
      → plans_blob e (with_blob d bs) ≡ true
  with_blob-more d bs e h = ground (arith, plans_blob-append e bs (blob_of d ∷ []))

  with_blob-here :
      (d : Descriptor) (bs : List PlanBlob) → plans_blob d.digest (with_blob d bs) ≡ true
  with_blob-here d bs =
      ground (arith, plans_blob-append d.digest bs (blob_of d ∷ []), bytes_eq_refl d.digest)

  with_blob-IsUnique :
      (d : Descriptor) (bs : List PlanBlob) → IsUnique bs → IsUnique (with_blob d bs)
  with_blob-IsUnique d bs u = elim (Bool-cases (plans_blob d.digest bs)) [
    | inl t ↦ rw t u
    | inr t ↦ rw t (IsUnique-append bs (blob_of d) u t)
  ]

  plan_blobs-more :
      (ds : List Descriptor) (bs : List PlanBlob) (e : Digest)
      → plans_blob e bs ≡ true
      → plans_blob e (plan_blobs a ds bs) ≡ true
  unfolding plan_blobs
  plan_blobs-more [] bs e h = h
  plan_blobs-more (d ∷ ds) bs e h = plan_blobs-more ds (with_blob d bs) e (with_blob-more d bs e h)

  plan_blobs-Has :
      (ds : List Descriptor) (bs : List PlanBlob) (d : Descriptor)
      → Has d ds
      → plans_blob d.digest (plan_blobs a ds bs) ≡ true
  unfolding plan_blobs
  plan_blobs-Has [] bs d h = absurd h
  plan_blobs-Has (x ∷ ds) bs d (inl e) = plan_blobs-more ds (with_blob x bs) d.digest (
      subst (λ (y : Descriptor). plans_blob y.digest (with_blob x bs) ≡ true) e
        (with_blob-here x bs))
  plan_blobs-Has (x ∷ ds) bs d (inr h) = plan_blobs-Has ds (with_blob x bs) d h

  plan_blobs-IsUnique :
      (ds : List Descriptor) (bs : List PlanBlob) → IsUnique bs → IsUnique (plan_blobs a ds bs)
  unfolding plan_blobs
  plan_blobs-IsUnique [] bs u = u
  plan_blobs-IsUnique (d ∷ ds) bs u =
      plan_blobs-IsUnique ds (with_blob d bs) (with_blob-IsUnique d bs u)

  walk-keeps_blob :
      (ns : Nodes) (w : Walked) (e : Digest)
      → plans_blob e w.blobs ≡ true
      → plans_blob e (walk a ns w).blobs ≡ true
  unfolding walk visit
  walk-keeps_blob no_nodes w e h = h
  walk-keeps_blob (node n cs ss) w e h = walk-keeps_blob ss (visit a n (walk a cs w)) e (
      plan_blobs-more (blob_descriptors n.manifest) (walk a cs w).blobs e
        (walk-keeps_blob cs w e h))

  walk-blob :
      (ns : Nodes) (w : Walked) (m : ManifestNode) (ks : Nodes) (d : Descriptor)
      → Within m ks ns
      → Has d (blob_descriptors m.manifest)
      → plans_blob d.digest (walk a ns w).blobs ≡ true
  unfolding walk visit
  walk-blob no_nodes w m ks d h i = absurd h
  walk-blob (node n cs ss) w m ks d (inl (e, f)) i =
      walk-keeps_blob ss (visit a n (walk a cs w)) d.digest (
        plan_blobs-Has (blob_descriptors n.manifest) (walk a cs w).blobs d
          (subst (λ (x : ManifestNode). Has d (blob_descriptors x.manifest)) (sym e) i))
  walk-blob (node n cs ss) w m ks d (inr (inl h)) i =
      walk-keeps_blob ss (visit a n (walk a cs w)) d.digest (
        plan_blobs-more (blob_descriptors n.manifest) (walk a cs w).blobs d.digest
          (walk-blob cs w m ks d h i))
  walk-blob (node n cs ss) w m ks d (inr (inr h)) i =
      walk-blob ss (visit a n (walk a cs w)) m ks d h i

  walk-IsUnique : (ns : Nodes) (w : Walked) → IsUnique w.blobs → IsUnique (walk a ns w).blobs
  unfolding walk visit
  walk-IsUnique no_nodes w u = u
  walk-IsUnique (node n cs ss) w u =
      walk-IsUnique ss (visit a n (walk a cs w)) (
        plan_blobs-IsUnique (blob_descriptors n.manifest) (walk a cs w).blobs
          (walk-IsUnique cs w u))

  abbrev start : Plan → Walked
  start p = record { blobs = p.blobs; manifests = p.manifests; order = [] }

  plan_roots-keeps :
      (rs : List Root) (p : Plan) (e : Digest)
      → (plans_blob e p.blobs ≡ true → plans_blob e (plan_roots a rs p).blobs ≡ true)
        × (plans_manifest e p.manifests ≡ true
            → plans_manifest e (plan_roots a rs p).manifests ≡ true)
  unfolding plan_roots walk
  plan_roots-keeps [] p e = (λ h. h, λ h. h)
  plan_roots-keeps ((n, cs) ∷ rs) p e = (
    λ h. (plan_roots-keeps rs _ e).0 (walk-keeps_blob (node n cs no_nodes) (start p) e h),
    λ h. (plan_roots-keeps rs _ e).1 (walk-more a (node n cs no_nodes) (start p) e h),
  )

  -- Every manifest below a root is planned, and so is every blob that it names.
  pub plan_roots_complete :
      (rs : List Root) (p : Plan) (m : ManifestNode) (ks : Nodes)
      → InRoots rs m ks
      → (plans_manifest m.desc.digest (plan_roots a rs p).manifests ≡ true)
        × ((d : Descriptor)
            → Has d (blob_descriptors m.manifest)
            → plans_blob d.digest (plan_roots a rs p).blobs ≡ true)
  unfolding plan_roots walk
  plan_roots_complete [] p m ks h = absurd h
  plan_roots_complete ((n, cs) ∷ rs) p m ks (inl h) = (
    (plan_roots-keeps rs _ m.desc.digest).1 (walk-Within a (node n cs no_nodes) (start p) m ks h),
    λ d i. (plan_roots-keeps rs _ d.digest).0 (walk-blob (node n cs no_nodes) (start p) m ks d h i),
  )
  plan_roots_complete ((n, cs) ∷ rs) p m ks (inr h) = plan_roots_complete rs _ m ks h

  pub plan_roots-IsUnique :
      (rs : List Root) (p : Plan) → IsUnique p.blobs → IsUnique (plan_roots a rs p).blobs
  unfolding plan_roots walk
  plan_roots-IsUnique [] p u = u
  plan_roots-IsUnique ((n, cs) ∷ rs) p u =
      plan_roots-IsUnique rs _ (walk-IsUnique (node n cs no_nodes) (start p) u)

pub mark_stored-plans :
    (asks : Digest → Option Bool) (bs cs : List PlanBlob) (d : Digest)
    → mark_stored asks bs ≡ some cs
    → plans_blob d cs ≡ plans_blob d bs
unfolding mark_stored
mark_stored-plans asks [] cs d h = ap (plans_blob d) (some_injective (sym h))
mark_stored-plans asks (b ∷ bs) cs d h = elim (Option-cases (asks b.digest)) [
  | inl e ↦ absurd (ground arith)
  | inr (s, e) ↦ elim (Option-cases (mark_stored asks bs)) [
    | inl f ↦ absurd (ground arith)
    | inr (rest, f) ↦
        let same : (record b { stored = s } ∷ rest) ≡ cs = ground arith in
        ap (plans_blob d) (sym same)
        ∙ ap (λ x. bytes_eq b.digest d || x) (mark_stored-plans asks bs rest d f)
  ]
]

pub mark_stored-IsUnique :
    (asks : Digest → Option Bool) (bs cs : List PlanBlob)
    → mark_stored asks bs ≡ some cs
    → IsUnique bs
    → IsUnique cs
unfolding mark_stored
mark_stored-IsUnique asks [] cs h u = subst IsUnique (some_injective h) tt
mark_stored-IsUnique asks (b ∷ bs) cs h (k, u) = elim (Option-cases (asks b.digest)) [
  | inl e ↦ absurd (ground arith)
  | inr (s, e) ↦ elim (Option-cases (mark_stored asks bs)) [
    | inl f ↦ absurd (ground arith)
    | inr (rest, f) ↦
        let same : (record b { stored = s } ∷ rest) ≡ cs = ground arith in
        subst IsUnique same
          (mark_stored-plans asks bs rest b.digest f ∙ k, mark_stored-IsUnique asks bs rest f u)
  ]
]
