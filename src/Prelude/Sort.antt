-- ===== src/Prelude/Sort.antt =====
-- Membership in a list, and slices.Sort on texts.
use mathlib.Core.Bool.{true, false}
use mathlib.Core.List.{List, [], ◌∷◌}
use mathlib.Core.Logic.{◌⊎◌, inl, inr, ◌↔◌}
use mathlib.Core.Path.{◌≡◌}
use native.Mathlib.Omega.{arith}
use oci_amber.Prelude.Tests.{if◌then◌else◌, Bool-cases}
use oci_amber.Prelude.Lists.{All}
use oci_amber.Prelude.Text.{Bytes, bytes_lt}
use oci_amber.Prelude.Order.{bytes_lt_trans, bytes_lt_irrefl, bytes_lt_total}

-- An element of a list.
abbrev pub Has : {A : Type 0} → A → List A → Type 0
Has a [] = ⊥
Has a (x ∷ xs) = (x ≡ a) ⊎ Has a xs

-- A list of values ordered by a text of theirs.
module _ {A : Type 0} (key : A → Bytes) where
  abbrev pub IsOrderedBy : List A → Type 0
  IsOrderedBy [] = Unit {0}
  IsOrderedBy (x ∷ xs) = All (λ y. bytes_lt (key y) (key x) ≡ false) xs × IsOrderedBy xs

  insert_by : A → List A → List A
  insert_by a [] = a ∷ []
  insert_by a (x ∷ xs) =
      let rest = insert_by a xs in if bytes_lt (key x) (key a) then x ∷ rest else a ∷ x ∷ xs

  -- slices.SortFunc by the key.
  unfoldable pub sort_by : List A → List A
  unfolding insert_by
  sort_by [] = []
  sort_by (x ∷ xs) = insert_by x (sort_by xs)

  Has-insert_by : (a b : A) (xs : List A) → Has b (insert_by a xs) ↔ ((a ≡ b) ⊎ Has b xs)
  unfolding insert_by
  Has-insert_by a b [] = (λ h. h, λ h. h)
  Has-insert_by a b (x ∷ xs) = elim (Bool-cases (bytes_lt (key x) (key a))) [
    | inl t ↦ rw t (
      λ h. elim h [
        | inl e ↦ inr (inl e)
        | inr m ↦ elim ((Has-insert_by a b xs).0 m) [ inl e ↦ inl e | inr n ↦ inr (inr n) ]
      ],
      λ h. elim h [
        | inl e ↦ inr ((Has-insert_by a b xs).1 (inl e))
        | inr m ↦ elim m [ inl e ↦ inl e | inr n ↦ inr ((Has-insert_by a b xs).1 (inr n)) ]
      ],
    )
    | inr t ↦ rw t (λ h. h, λ h. h)
  ]

  -- Sorting keeps the elements.
  pub Has-sort_by : (b : A) (xs : List A) → Has b (sort_by xs) ↔ Has b xs
  unfolding sort_by
  Has-sort_by b [] = (λ h. h, λ h. h)
  Has-sort_by b (x ∷ xs) = (
    λ h. elim ((Has-insert_by x b (sort_by xs)).0 h) [
      | inl e ↦ inl e
      | inr m ↦ inr ((Has-sort_by b xs).0 m)
    ],
    λ h.
        (Has-insert_by x b (sort_by xs)).1
          (elim h [ inl e ↦ inl e | inr m ↦ inr ((Has-sort_by b xs).1 m) ]),
  )

  -- What is above `a` by its key is above what is not above `a`.
  All-insert_by :
      (a : A) (t : Bytes) (xs : List A)
      → bytes_lt (key a) t ≡ false
      → All (λ y. bytes_lt (key y) t ≡ false) xs
      → All (λ y. bytes_lt (key y) t ≡ false) (insert_by a xs)
  unfolding insert_by
  All-insert_by a t [] h k = (h, tt)
  All-insert_by a t (x ∷ xs) h (kx, k) = elim (Bool-cases (bytes_lt (key x) (key a))) [
    | inl e ↦ rw e (kx, All-insert_by a t xs h k)
    | inr e ↦ rw e (h, (kx, k))
  ]

  above : (s t u : Bytes) → bytes_lt t s ≡ false → bytes_lt u t ≡ false → bytes_lt u s ≡ false
  above s t u h k =
      ground
        (arith, bytes_lt_trans s t u, bytes_lt_trans u s t, bytes_lt_total s t, bytes_lt_total t u)

  All-above :
      (s t : Bytes) (xs : List A)
      → bytes_lt t s ≡ false
      → All (λ y. bytes_lt (key y) t ≡ false) xs
      → All (λ y. bytes_lt (key y) s ≡ false) xs
  All-above s t [] h k = tt
  All-above s t (x ∷ xs) h (kx, k) = (above s t (key x) h kx, All-above s t xs h k)

  not_below : (s t : Bytes) → bytes_lt s t ≡ true → bytes_lt t s ≡ false
  not_below s t h = ground (arith, bytes_lt_trans s t s, bytes_lt_irrefl s)

  insert_by-IsOrderedBy : (a : A) (xs : List A) → IsOrderedBy xs → IsOrderedBy (insert_by a xs)
  unfolding insert_by
  insert_by-IsOrderedBy a [] h = (tt, tt)
  insert_by-IsOrderedBy a (x ∷ xs) (hx, h) = elim (Bool-cases (bytes_lt (key x) (key a))) [
    | inl e ↦
        rw e (
          All-insert_by a (key x) xs (not_below (key x) (key a) e) hx,
          insert_by-IsOrderedBy a xs h,
        )
    | inr e ↦ rw e ((e, All-above (key a) (key x) xs e hx), (hx, h))
  ]

  pub sort_by-IsOrderedBy : (xs : List A) → IsOrderedBy (sort_by xs)
  unfolding sort_by
  sort_by-IsOrderedBy [] = tt
  sort_by-IsOrderedBy (x ∷ xs) = insert_by-IsOrderedBy x (sort_by xs) (sort_by-IsOrderedBy xs)
