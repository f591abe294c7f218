-- ===== src/DockerArchive/Plan/Order.antt =====
-- The order of the manifests of a plan: the children of an index stand before it.
use oci_amber.Prelude.{
  ◌≡◌, ◌⊎◌, refl, sym, subst, inl, inr, true, Bool-cases, ◌||◌, List, [], ◌∷◌, ◌++◌, arith, All,
  append_assoc, append-nil,
}
use oci_amber.Prelude.Text.Laws.{bytes_eq_refl}
use oci_amber.Oci.Digest.{Digest}
use oci_amber.DockerArchive.Archive.{Archive}
use oci_amber.DockerArchive.Resolve.{ManifestNode, Nodes, no_nodes, node}
use oci_amber.DockerArchive.Plan.{
  PlanManifest, Plan, Walked, Root, plans_manifest, planned, plan_manifest, visit, walk, plan_roots,
}

-- The digests of the children of a node.
abbrev pub child_digests : Nodes → List Digest
child_digests no_nodes = []
child_digests (node n cs ss) = n.desc.digest ∷ child_digests ss

-- A node with its children, somewhere below.
abbrev pub Within : ManifestNode → Nodes → Nodes → Type 0
Within m ks no_nodes = ⊥
Within m ks (node n cs ss) = ((n ≡ m) × (cs ≡ ks)) ⊎ (Within m ks cs ⊎ Within m ks ss)

-- A node of a root.
abbrev pub InRoots : List Root → ManifestNode → Nodes → Type 0
InRoots [] m ks = ⊥
InRoots ((n, cs) ∷ rs) m ks = Within m ks (node n cs no_nodes) ⊎ InRoots rs m ks

abbrev Planned : List PlanManifest → Digest → Type 0
Planned ms d = plans_manifest d ms ≡ true

plans_manifest-append :
    (d : Digest) (ms ns : List PlanManifest)
    → plans_manifest d (ms ++ ns) ≡ (plans_manifest d ms || plans_manifest d ns)
plans_manifest-append d [] ns = refl
plans_manifest-append d (m ∷ ms) ns = ground (arith, plans_manifest-append d ms ns)

plan_manifest-more :
    (n : ManifestNode) (ms : List PlanManifest) (d : Digest)
    → Planned ms d
    → Planned (plan_manifest n ms) d
unfolding plan_manifest
plan_manifest-more n ms d h = ground (arith, plans_manifest-append d ms (planned n ∷ []), h)

plan_manifest-here :
    (n : ManifestNode) (ms : List PlanManifest) → Planned (plan_manifest n ms) n.desc.digest
unfolding plan_manifest
plan_manifest-here n ms =
    ground
      (arith, plans_manifest-append n.desc.digest ms (planned n ∷ []), bytes_eq_refl n.desc.digest)

module _ (a : Archive) where
  pub walk-more :
      (ns : Nodes) (w : Walked) (d : Digest)
      → Planned w.manifests d
      → Planned (walk a ns w).manifests d
  unfolding walk visit
  walk-more no_nodes w d h = h
  walk-more (node n cs ss) w d h =
      walk-more ss (visit a n (walk a cs w)) d
        (plan_manifest-more n (walk a cs w).manifests d (walk-more cs w d h))

  -- Every node that is walked is planned.
  pub walk-Within :
      (ns : Nodes) (w : Walked) (m : ManifestNode) (ks : Nodes)
      → Within m ks ns
      → Planned (walk a ns w).manifests m.desc.digest
  unfolding walk visit
  walk-Within no_nodes w m ks h = absurd h
  walk-Within (node n cs ss) w m ks (inl (e, f)) =
      walk-more ss (visit a n (walk a cs w)) m.desc.digest (
        subst
          (λ (x : ManifestNode). Planned (plan_manifest n (walk a cs w).manifests) x.desc.digest) e
          (plan_manifest-here n (walk a cs w).manifests))
  walk-Within (node n cs ss) w m ks (inr (inl h)) =
      walk-more ss (visit a n (walk a cs w)) m.desc.digest
        (plan_manifest-more n (walk a cs w).manifests m.desc.digest (walk-Within cs w m ks h))
  walk-Within (node n cs ss) w m ks (inr (inr h)) = walk-Within ss (visit a n (walk a cs w)) m ks h

  walk-child_digests :
      (ns : Nodes) (w : Walked) → All (Planned (walk a ns w).manifests) (child_digests ns)
  unfolding walk visit
  walk-child_digests no_nodes w = tt
  walk-child_digests (node n cs ss) w = (
    walk-more ss (visit a n (walk a cs w)) n.desc.digest
        (plan_manifest-here n (walk a cs w).manifests),
    walk-child_digests ss (visit a n (walk a cs w)),
  )

-- The digest of a node determines its children, as the digest of its text does.
abbrev pub IsConsistent : (ManifestNode → Nodes → Type 0) → Type 0
IsConsistent U =
    (m n : ManifestNode) (ks cs : Nodes)
    → U m ks
    → U n cs
    → m.desc.digest ≡ n.desc.digest
    → child_digests ks ≡ child_digests cs

module _ (U : ManifestNode → Nodes → Type 0) where
  -- The children of every node with the digest of x are among the manifests before it.
  abbrev pub IsClosed : List PlanManifest → PlanManifest → Type 0
  IsClosed before x =
      (m : ManifestNode) (ks : Nodes)
      → U m ks
      → m.desc.digest ≡ x.digest
      → All (λ d. plans_manifest d before ≡ true) (child_digests ks)

  -- Behind `before`, the manifests can be published one by one.
  abbrev pub IsPublishable : List PlanManifest → List PlanManifest → Type 0
  IsPublishable before [] = Unit {0}
  IsPublishable before (x ∷ rest) = IsClosed before x × IsPublishable (before ++ x ∷ []) rest

  IsPublishable-append :
      (before ms : List PlanManifest) (x : PlanManifest)
      → IsPublishable before ms
      → IsClosed (before ++ ms) x
      → IsPublishable before (ms ++ x ∷ [])
  IsPublishable-append before [] x h c = (subst (λ l. IsClosed l x) (append-nil before) c, tt)
  IsPublishable-append before (y ∷ ms) x (k, h) c = (
    k,
    IsPublishable-append (before ++ y ∷ []) ms x h
        (subst (λ l. IsClosed l x) (sym (append_assoc before (y ∷ []) ms)) c),
  )

  module _ (a : Archive) (same : IsConsistent U) where
    plan_manifest-IsPublishable :
        (n : ManifestNode) (cs : Nodes) (ms : List PlanManifest)
        → U n cs
        → All (Planned ms) (child_digests cs)
        → IsPublishable [] ms
        → IsPublishable [] (plan_manifest n ms)
    unfolding plan_manifest
    plan_manifest-IsPublishable n cs ms u c h =
        elim (Bool-cases (plans_manifest n.desc.digest ms)) [
          | inl t ↦ rw t h
          | inr t ↦ rw t (
              IsPublishable-append [] ms (planned n) h
                (λ m ks v e. subst (All (Planned ms)) (same n m cs ks u v (sym e)) c))
        ]

    walk-IsPublishable :
        (ns : Nodes) (w : Walked)
        → ((m : ManifestNode) (ks : Nodes) → Within m ks ns → U m ks)
        → IsPublishable [] w.manifests
        → IsPublishable [] (walk a ns w).manifests
    unfolding walk visit
    walk-IsPublishable no_nodes w u h = h
    walk-IsPublishable (node n cs ss) w u h =
        walk-IsPublishable ss (visit a n (walk a cs w)) (λ m ks i. u m ks (inr (inr i)))
          (plan_manifest-IsPublishable n cs (walk a cs w).manifests (u n cs (inl (refl, refl)))
            (walk-child_digests a cs w)
            (walk-IsPublishable cs w (λ m ks i. u m ks (inr (inl i))) h))

    pub plan_roots-IsPublishable :
        (rs : List Root) (p : Plan)
        → ((m : ManifestNode) (ks : Nodes) → InRoots rs m ks → U m ks)
        → IsPublishable [] p.manifests
        → IsPublishable [] (plan_roots a rs p).manifests
    unfolding plan_roots walk
    plan_roots-IsPublishable [] p u h = h
    plan_roots-IsPublishable ((n, cs) ∷ rs) p u h =
        plan_roots-IsPublishable rs _ (λ m ks i. u m ks (inr i))
          (walk-IsPublishable (node n cs no_nodes)
            (record { blobs = p.blobs; manifests = p.manifests; order = [] })
            (λ m ks i. u m ks (inl i)) h)
