-- ===== src/Registry/Pages/Follow.antt =====
-- A client that follows the links.
use oci_amber.Prelude.{
  ℕ, zero, suc, ◌-◌, ◌==◌, ◌≡◌, ◌≤◌, ◌<◌, refl, sym, ap, ◌∙◌, subst, true, false, inl, inr,
  Bool-cases, some, List, [], ◌∷◌, ◌++◌, append_assoc, All, arith, ltb, length, All-append_right,
  take, drop, length-drop, take-append-drop, if◌then◌else◌,
}
use oci_amber.Prelude.Text.{Bytes, bytes_lt}
use oci_amber.Prelude.Order.{bytes_lt_irrefl, bytes_lt_trans}
use oci_amber.Oci.Digest.{is_empty}
use oci_amber.Registry.Pages.{after, item_at, cut_page, paginate}

-- Strictly increasing, as image.Store lists names.
abbrev pub Sorted : List Bytes → Type 0
Sorted [] = Unit
Sorted (x ∷ xs) = All (λ y. bytes_lt x y ≡ true) xs × Sorted xs

-- Requests with the page size `n`, each with the `last` of the link before, until there is no link.
unfoldable pub follow : ℕ → List Bytes → ℕ → Bytes → List Bytes
follow zero items n last = []
follow (suc fuel) items n last =
    let (page, next) = paginate items (some n) last in
    let rest = follow fuel items n next in if is_empty next then page else page ++ rest

not_above : (x y : Bytes) → bytes_lt x y ≡ true → bytes_lt y x ≡ false
not_above x y h = elim (Bool-cases (bytes_lt y x)) [
  | inr e ↦ e
  | inl e ↦ absurd (cc (bytes_lt_irrefl x, bytes_lt_trans x y x h e))
]

-- The items behind one that is in the list.
after-item : (xs ys : List Bytes) (y : Bytes) → Sorted (xs ++ y ∷ ys) → after y (xs ++ y ∷ ys) ≡ ys
unfolding after
after-item [] [] y s = rw (bytes_lt_irrefl y) refl
after-item [] (z ∷ ys) y ((l, a), s) = rw (bytes_lt_irrefl y, l) refl
after-item (x ∷ xs) ys y (a, s) =
    let (below, others) = All-append_right (λ z. bytes_lt x z ≡ true) xs (y ∷ ys) a in
    rw (not_above x y below) (after-item xs ys y s)

-- The last item of a page.
page_end :
    (n : ℕ) (s : List Bytes)
    → n < length s
    → (q : List Bytes) × (take (suc n) s ≡ q ++ item_at (take (suc n) s) n ∷ [])
page_end n [] h = absurd (omega arith)
page_end zero (x ∷ s) h = ([], refl)
page_end (suc n) (x ∷ s) h = let (q, e) = page_end n s (omega arith) in (x ∷ q, ap (λ l. x ∷ l) e)

abbrev IsText : Bytes → Type 0
IsText x = is_empty x ≡ false

-- A page that is not the last one ends with an item, behind which the next one begins.
page-split :
    (m : ℕ) (before s : List Bytes)
    → m < length s
    → Sorted (before ++ s)
    → All IsText s
    → (is_empty (item_at (take (suc m) s) m) ≡ false)
      × (after (item_at (take (suc m) s) m) (before ++ s) ≡ drop (suc m) s)
page-split m before s l o t =
    let y = item_at (take (suc m) s) m in
    let (q, e) = page_end m s l in
    let whole : s ≡ q ++ y ∷ drop (suc m) s =
      sym (take-append-drop (suc m) s)
      ∙ ap (λ x. x ++ drop (suc m) s) e
      ∙ append_assoc q (y ∷ []) (drop (suc m) s) in
    let all : before ++ s ≡ (before ++ q) ++ y ∷ drop (suc m) s =
      ap (λ x. before ++ x) whole ∙ sym (append_assoc before q (y ∷ drop (suc m) s)) in
    (
      (All-append_right IsText q (y ∷ drop (suc m) s) (subst (All IsText) whole t)).0,
      ap (after y) all ∙ after-item (before ++ q) (drop (suc m) s) y (subst Sorted all o),
    )

empty-list : (s : List Bytes) → ltb 0 (length s) ≡ false → s ≡ []
empty-list [] h = refl
empty-list (x ∷ s) h = absurd (ground arith)

follow-last :
    (fuel : ℕ) (items : List Bytes) (n : ℕ) (last : Bytes)
    → length (after last items) ≤ n
    → follow (suc fuel) items n last ≡ after last items
unfolding follow paginate cut_page
follow-last fuel items n last h = ground arith

cut_page-more :
    (s : List Bytes) (m : ℕ)
    → suc m < length s
    → cut_page s (suc m) ≡ (take (suc m) s, item_at (take (suc m) s) m)
unfolding cut_page
cut_page-more s m h =
    let e : ltb (suc m) (length s) ≡ true = ground arith in
    let z : ltb 0 (suc m) ≡ true = ground arith in
    let p : suc m - 1 ≡ m = omega arith in rw (e, z, p) refl

follow-more :
    (fuel : ℕ) (items : List Bytes) (m : ℕ) (last : Bytes)
    → suc m < length (after last items)
    → is_empty (item_at (take (suc m) (after last items)) m) ≡ false
    → follow (suc fuel) items (suc m) last
      ≡ take (suc m) (after last items)
        ++ follow fuel items (suc m) (item_at (take (suc m) (after last items)) m)
unfolding follow paginate cut_page
follow-more fuel items m last h e = rw (cut_page-more (after last items) m h) (rw e refl)

parts : (m : ℕ) (before s : List Bytes) → before ++ s ≡ (before ++ take (suc m) s) ++ drop (suc m) s
parts m before s =
    ap (λ x. before ++ x) (sym (take-append-drop (suc m) s))
    ∙ sym (append_assoc before (take (suc m) s) (drop (suc m) s))

follow-after :
    (fuel : ℕ) (before s : List Bytes) (m : ℕ) (last : Bytes)
    → Sorted (before ++ s)
    → All IsText s
    → after last (before ++ s) ≡ s
    → length s ≤ fuel
    → follow fuel (before ++ s) (suc m) last ≡ s
follow-after zero before [] m last o t a h = unfold follow in refl
follow-after zero before (x ∷ s) m last o t a h = absurd (omega arith)
follow-after (suc fuel) before s m last o t a h = elim (Bool-cases (ltb (suc m) (length s))) [
  | inr e ↦ follow-last fuel (before ++ s) (suc m) last (rw a (ground arith)) ∙ a
  | inl e ↦
      (let l : suc m < length s = ground arith in
        let y = item_at (take (suc m) s) m in
        let (ne, next) = page-split m before s (omega arith) o t in
        let again =
          follow-after fuel (before ++ take (suc m) s) (drop (suc m) s) m y
            (subst Sorted (parts m before s) o)
            (All-append_right IsText (take (suc m) s) (drop (suc m) s)
              (subst (All IsText) (sym (take-append-drop (suc m) s)) t))
            (ap (after y) (sym (parts m before s)) ∙ next) (omega (arith, length-drop (suc m) s)) in
        follow-more fuel (before ++ s) m last (subst (λ x. suc m < length x) (sym a) l)
          (subst (λ x. is_empty (item_at (take (suc m) x) m) ≡ false) (sym a) ne)
        ∙ ap (λ x. take (suc m) x ++ follow fuel (before ++ s) (suc m) (item_at (take (suc m) x) m))
            a
        ∙ ap (λ x. take (suc m) s ++ follow fuel x (suc m) y) (parts m before s)
        ∙ ap (λ x. take (suc m) s ++ x) again
        ∙ take-append-drop (suc m) s)
]

after-start : (items : List Bytes) → All IsText items → after [] items ≡ items
unfolding after
after-start [] t = refl
after-start ([] ∷ xs) (t, a) = absurd (cc t)
after-start ((c ∷ x) ∷ xs) t = refl

follow-nothing : (fuel : ℕ) (items : List Bytes) (last : Bytes) → follow fuel items 0 last ≡ []
unfolding follow paginate cut_page
follow-nothing zero items last = refl
follow-nothing (suc fuel) items last = elim (Bool-cases (ltb 0 (length (after last items)))) [
  | inl e ↦ rw e refl
  | inr e ↦ rw e (empty-list (after last items) e)
]

-- A client that starts at the front and follows the links gets every item exactly once, in order,
-- whatever the page size, if the list is strictly increasing and holds no empty name; with a page
-- size of zero it gets nothing. As many requests as there are items are enough.
pub follow-items :
    (fuel : ℕ) (items : List Bytes) (n : ℕ)
    → Sorted items
    → All IsText items
    → length items ≤ fuel
    → follow fuel items n [] ≡ (if n == 0 then [] else items)
follow-items fuel items zero o t l = follow-nothing fuel items []
follow-items fuel items (suc m) o t l =
    let e : (suc m == 0) ≡ false = ground arith in
    rw e (follow-after fuel [] items m [] o t (after-start items t) l)
