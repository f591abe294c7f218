-- ===== src/Rootfs/Tree/Change.antt =====
-- Reading a tree back after a change.
use oci_amber.Prelude.{
  ◌≡◌, refl, ap, ◌∙◌, true, false, inl, inr, Bool-cases, none, some, List, [], ◌∷◌, ◌++◌, arith,
}
use oci_amber.Prelude.Maybe.{some_injective}
use oci_amber.Prelude.Text.{Bytes, bytes_eq}
use oci_amber.Prelude.Text.Laws.{bytes_eq_iff}
use oci_amber.Rootfs.Tree.{
  Forest, nil, child, Attr, is_dir, get_child, set_child, remove_child, children_at, change_at, pop,
}

pub get_child-set_child :
    (c d : Bytes) (a : Attr) (f t : Forest)
    → (c ≡ d → get_child d (set_child c a f t) ≡ some (a, f))
      × (bytes_eq c d ≡ false → get_child d (set_child c a f t) ≡ get_child d t)
unfolding get_child set_child
get_child-set_child c d a f nil = ground (arith, bytes_eq_iff c d)
get_child-set_child c d a f (child e b g rest) =
    ground (
      arith,
      get_child-set_child c d a f rest,
      bytes_eq_iff c d,
      bytes_eq_iff e c,
      bytes_eq_iff e d,
    )

pub get_child-remove_child :
    (c d : Bytes) (t : Forest)
    → (c ≡ d → get_child d (remove_child c t) ≡ none)
      × (bytes_eq c d ≡ false → get_child d (remove_child c t) ≡ get_child d t)
unfolding get_child remove_child
get_child-remove_child c d nil = ground arith
get_child-remove_child c d (child e b g rest) =
    ground
      (arith, get_child-remove_child c d rest, bytes_eq_iff c d, bytes_eq_iff e c, bytes_eq_iff e d)

pub children_at-change_at :
    (s : List Bytes) (h : Forest → Forest) (t f : Forest)
    → children_at s t ≡ some f
    → children_at s (change_at s h t) ≡ some (h f)
unfolding children_at change_at
children_at-change_at [] h t f e = ap some (ap h (some_injective e))
children_at-change_at (c ∷ cs) h nil f e = cc
children_at-change_at (c ∷ cs) h (child d a g rest) f e =
    ground (arith, children_at-change_at cs h g f, children_at-change_at (c ∷ cs) h rest f)

pub children_at-snoc :
    (s : List Bytes) (c : Bytes) (t f : Forest) (a : Attr) (g : Forest)
    → children_at s t ≡ some f
    → get_child c f ≡ some (a, g)
    → is_dir a ≡ true
    → children_at (s ++ c ∷ []) t ≡ some g
unfolding children_at get_child
children_at-snoc [] c t f a g e k d = go t (ap (get_child c) (some_injective e) ∙ k)
  where
    go : (t : Forest) → get_child c t ≡ some (a, g) → children_at (c ∷ []) t ≡ some g
    go nil h = cc
    go (child d' b i rest) h = ground (arith, go rest)
children_at-snoc (b ∷ s) c nil f a g e k d = cc
children_at-snoc (b ∷ s) c (child x y i rest) f a g e k d =
    ground (arith, children_at-snoc s c i f a g, children_at-snoc (b ∷ s) c rest f a g)

pub children_at-pop :
    (s : List Bytes) (t f : Forest)
    → children_at s t ≡ some f
    → (g : Forest) × (children_at (pop s) t ≡ some g)
unfolding children_at
children_at-pop [] t f e = (t, refl)
children_at-pop (c ∷ []) t f e = (t, refl)
children_at-pop (c ∷ d ∷ cs) nil f e = cc
children_at-pop (c ∷ d ∷ cs) (child x y i rest) f e = elim (Bool-cases (bytes_eq x c)) [
  | inr n ↦ (let (g, k) = children_at-pop (c ∷ d ∷ cs) rest f (ground arith) in (g, rw n k))
  | inl m ↦ elim (Bool-cases (is_dir y)) [
    | inl z ↦ (let (g, k) = children_at-pop (d ∷ cs) i f (ground arith) in (g, rw (m, z) k))
    | inr z ↦ absurd (ground arith)
  ]
]
