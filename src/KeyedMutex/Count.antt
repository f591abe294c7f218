-- ===== src/KeyedMutex/Count.antt =====
-- How many threads refer to an entry, and how many hold it.
use oci_amber.Prelude.{
  ℕ, zero, suc, ◌+◌, ◌≡◌, ◌≢◌, ◌≤◌, refl, some, List, [], ◌∷◌, ◌==◌, arith, get_elem?, update,
  replicate, if◌then◌else◌,
}
use oci_amber.KeyedMutex.{Thread, outside, waiting, holding, leaving}

abbrev pub refers : ℕ → Thread → ℕ
refers p outside = 0
refers p (waiting k q) = if q == p then 1 else 0
refers p (holding k q) = if q == p then 1 else 0
refers p (leaving k q) = if q == p then 1 else 0

abbrev pub holds : ℕ → Thread → ℕ
holds p (holding k q) = if q == p then 1 else 0
holds p _ = 0

abbrev pub total : (Thread → ℕ) → List Thread → ℕ
total f [] = 0
total f (t ∷ ts) = f t + total f ts

pub total-update :
    (f : Thread → ℕ) (ts : List Thread) (i : ℕ) (s t : Thread)
    → get_elem? ts i ≡ some s
    → total f (update ts i t) + f s ≡ total f ts + f t
total-update f [] i s t h = cc
total-update f (x ∷ ts) zero s t h = ground arith
total-update f (x ∷ ts) (suc i) s t h = omega (arith, total-update f ts i s t h)

pub total-le :
    (f : Thread → ℕ) (ts : List Thread) (i : ℕ) (s : Thread)
    → get_elem? ts i ≡ some s
    → f s ≤ total f ts
total-le f [] i s h = cc
total-le f (x ∷ ts) zero s h = ground arith
total-le f (x ∷ ts) (suc i) s h = omega (arith, total-le f ts i s h)

pub total-two :
    (f : Thread → ℕ) (ts : List Thread) (i j : ℕ) (s t : Thread)
    → i ≢ j
    → get_elem? ts i ≡ some s
    → get_elem? ts j ≡ some t
    → f s + f t ≤ total f ts
total-two f [] i j s t n h k = cc
total-two f (x ∷ ts) zero zero s t n h k = absurd (n refl)
total-two f (x ∷ ts) zero (suc j) s t n h k = ground (arith, total-le f ts j t k)
total-two f (x ∷ ts) (suc i) zero s t n h k = ground (arith, total-le f ts i s h)
total-two f (x ∷ ts) (suc i) (suc j) s t n h k =
    omega (arith, total-two f ts i j s t (omega arith) h k)

-- A total that is not zero counts some thread.
pub total-some :
    (f : Thread → ℕ) (ts : List Thread)
    → total f ts ≢ 0
    → (i : ℕ) × (t : Thread) × (get_elem? ts i ≡ some t) × (f t ≢ 0)
total-some f [] n = absurd (n refl)
total-some f (x ∷ ts) n =
    elim (f x)
        as (λ c. f x ≡ c → (i : ℕ) × (t : Thread) × (get_elem? (x ∷ ts) i ≡ some t) × (f t ≢ 0)) [
          | zero ↦ λ e. let (i, t, g, k) = total-some f ts (omega arith) in (suc i, t, g, k)
          | suc c ↦ λ e. (0, x, refl, omega arith)
        ]
      refl

pub holds-refers : (p : ℕ) (t : Thread) → holds p t ≤ refers p t
holds-refers p outside = omega arith
holds-refers p (waiting k q) = ground arith
holds-refers p (holding k q) = omega arith
holds-refers p (leaving k q) = ground arith

pub total-replicate : (f : Thread → ℕ) (n : ℕ) → f outside ≡ 0 → total f (replicate n outside) ≡ 0
total-replicate f zero h = refl
total-replicate f (suc n) h = omega (arith, total-replicate f n h)

pub total-holds_le : (p : ℕ) (ts : List Thread) → total (holds p) ts ≤ total (refers p) ts
total-holds_le p [] = omega arith
total-holds_le p (t ∷ ts) = omega (arith, holds-refers p t, total-holds_le p ts)
