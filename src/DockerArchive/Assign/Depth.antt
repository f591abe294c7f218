-- ===== src/DockerArchive/Assign/Depth.antt =====
-- dockerarchive/plan.go: the fuel of a plan, which bounds how deep the indexes of an archive nest.
use oci_amber.Prelude.{◌≡◌, refl, ap, Bool, inl, inr, ℕ, ◌<◌, Option, some, List, [], ◌∷◌}
use oci_amber.Prelude.Text.{Bytes}
use oci_amber.Prelude.Maybe.{Option-cases}
use oci_amber.Prelude.Sort.{Has}
use oci_amber.Oci.Digest.{Digest}
use oci_amber.Oci.Manifest.{Descriptor, elements}
use oci_amber.DockerArchive.Archive.{Archive}
use oci_amber.DockerArchive.Resolve.{Json}
use oci_amber.DockerArchive.Resolve.Depth.{IsRanked, resolve_node_enough}
use oci_amber.DockerArchive.Plan.{Root, find_roots, add_root}
use oci_amber.DockerArchive.Assign.{plan_found, plan_archive}

module _ (json : Json) (a : Archive) (rank : Digest → ℕ) (v : IsRanked json a rank) (f g : ℕ) where
  find_roots_enough :
      (ds : List Descriptor) (rs : List Root)
      → ((d : Descriptor) → Has d ds → (rank d.digest < f) × (rank d.digest < g))
      → find_roots json a f ds rs ≡ find_roots json a g ds rs
  unfolding find_roots
  find_roots_enough [] rs h = refl
  find_roots_enough (d ∷ ds) rs h =
      let (below_f, below_g) = h d (inl refl) in
      let (l, e, e') = resolve_node_enough json a rank f g d v below_f below_g in
      rw (e, find_roots)
        (rw (e', find_roots)
          (elim (Option-cases (add_root (some l) rs)) [
            | inl n ↦ rw n refl
            | inr (rs', n) ↦ rw n (find_roots_enough ds rs' (λ c i. h c (inr i)))
          ]))

  -- Every fuel above the ranks of the manifests that index.json names gives the same plan: none of
  -- its refusals is for the fuel.
  pub plan_archive_enough :
      (names : List Bytes) (asks : Option (Digest → Option Bool))
      → ((d : Descriptor)
          → Has d (elements a.index.manifests)
          → (rank d.digest < f) × (rank d.digest < g))
      → plan_archive json a f names asks ≡ plan_archive json a g names asks
  unfolding plan_archive
  plan_archive_enough names asks h =
      ap (plan_found a names asks) (find_roots_enough (elements a.index.manifests) [] h)
