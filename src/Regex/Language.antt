-- ===== src/Regex/Language.antt =====
-- The texts that a pattern describes, and what they are made of.
use oci_amber.Prelude.{
  ℕ, zero, suc, ◌≤◌, ◌≡◌, refl, true, ◌⊎◌, inl, inr, [], ◌∷◌, ◌++◌, arith, All, All-append, length,
}
use oci_amber.Prelude.Text.{Bytes}
use oci_amber.Regex.{Ranges, in_set, Regex, never, eps, set, seq, alt, star, times, up_to}

pub data Star (P : Bytes → Type 0) : Bytes → Type 0 where
  none : Star P []
  more : {u : Bytes} (s t : Bytes) → u ≡ s ++ t → P s → Star P t → Star P u

abbrev pub Lang : Regex → Bytes → Type 0
Lang never u = ⊥
Lang eps u = u ≡ []
Lang (set rs) u = (c : ℕ) × (u ≡ c ∷ []) × (in_set c rs ≡ true)
Lang (seq r q) u = (s : Bytes) × (t : Bytes) × (u ≡ s ++ t) × Lang r s × Lang q t
Lang (alt r q) u = Lang r u ⊎ Lang q u
Lang (star r) u = Star (Lang r) u

-- Every byte that a set of the pattern admits satisfies `P`.
abbrev pub OnSets : (ℕ → Type 0) → Regex → Type 0
OnSets P never = Unit
OnSets P eps = Unit
OnSets P (set rs) = (c : ℕ) → in_set c rs ≡ true → P c
OnSets P (seq r q) = OnSets P r × OnSets P q
OnSets P (alt r q) = OnSets P r × OnSets P q
OnSets P (star r) = OnSets P r

module _ (P : ℕ → Type 0) where
  All-Star : (Q : Bytes → Type 0) {u : Bytes} → ((s : Bytes) → Q s → All P s) → Star Q u → All P u
  All-Star Q f none = tt
  All-Star Q f (more s t e q rest) = rw e (All-append P s t (f s q) (All-Star Q f rest))

  pub All-Lang : (r : Regex) (u : Bytes) → OnSets P r → Lang r u → All P u
  All-Lang never u o h = absurd h
  All-Lang eps u o h = rw h tt
  All-Lang (set rs) u o (c, e, h) = rw e (o c h, tt)
  All-Lang (seq r q) u (o, p) (s, t, e, h, k) =
      rw e (All-append P s t (All-Lang r s o h) (All-Lang q t p k))
  All-Lang (alt r q) u (o, p) (inl h) = All-Lang r u o h
  All-Lang (alt r q) u (o, p) (inr h) = All-Lang q u p h
  All-Lang (star r) u o h = All-Star (Lang r) (λ s. All-Lang r s o) h

  pub OnSets-times : (n : ℕ) (r : Regex) → OnSets P r → OnSets P (times n r)
  unfolding times
  OnSets-times zero r o = tt
  OnSets-times (suc n) r o = (o, OnSets-times n r o)

  pub OnSets-up_to : (n : ℕ) (r : Regex) → OnSets P r → OnSets P (up_to n r)
  unfolding up_to
  OnSets-up_to zero r o = tt
  OnSets-up_to (suc n) r o = (tt, (o, OnSets-up_to n r o))

-- The length of a counted repetition of a set.
pub length-times : (n : ℕ) (rs : Ranges) (u : Bytes) → Lang (times n (set rs)) u → length u ≡ n
unfolding times
length-times zero rs u h = rw h
length-times (suc n) rs u (s, t, e, (c, d, h), k) = rw (e, d) (omega (arith, length-times n rs t k))

pub length-up_to : (n : ℕ) (rs : Ranges) (u : Bytes) → Lang (up_to n (set rs)) u → length u ≤ n
unfolding up_to
length-up_to zero rs u h = rw h (omega arith)
length-up_to (suc n) rs u (inl h) = rw h (omega arith)
length-up_to (suc n) rs u (inr (s, t, e, (c, d, h), k)) =
    rw (e, d) (omega (arith, length-up_to n rs t k))

-- Texts of set bytes are counted repetitions.
pub Lang-times :
    (rs : Ranges) (u : Bytes) → All (λ c. in_set c rs ≡ true) u → Lang (times (length u) (set rs)) u
unfolding times
Lang-times rs [] h = refl
Lang-times rs (c ∷ u) (hc, h) = (c ∷ [], u, refl, (c, refl, hc), Lang-times rs u h)

pub Lang-up_to :
    (rs : Ranges) (n : ℕ) (u : Bytes)
    → length u ≤ n
    → All (λ c. in_set c rs ≡ true) u
    → Lang (up_to n (set rs)) u
unfolding up_to
Lang-up_to rs zero [] l h = refl
Lang-up_to rs zero (c ∷ u) l h = absurd (omega arith)
Lang-up_to rs (suc n) [] l h = inl refl
Lang-up_to rs (suc n) (c ∷ u) l (hc, h) =
    inr (c ∷ [], u, refl, (c, refl, hc), Lang-up_to rs n u (omega arith) h)

pub Lang-Star : (rs : Ranges) (u : Bytes) → All (λ c. in_set c rs ≡ true) u → Star (Lang (set rs)) u
Lang-Star rs [] h = none
Lang-Star rs (c ∷ u) (hc, h) = more (c ∷ []) u refl (c, refl, hc) (Lang-Star rs u h)
