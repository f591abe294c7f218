-- ===== src/Prelude/Text/Laws.antt =====
-- Laws of the text functions: equality, and searches at the first and the last separator.
use oci_amber.Prelude.Text.{
  has_prefix, Bytes, bytes_eq, cut_prefix, index_byte, last_index_byte, contains_byte, cut, Lacks,
}
use Prim.Native.Nat.{ℕ, zero, suc, ◌≤◌}
use mathlib.Core.Bool.{true, false}
use mathlib.Core.List.{[], ◌∷◌, ◌++◌}
use mathlib.Core.Logic.{◌≢◌, ◌⊎◌, ◌↔◌, inl, inr}
use mathlib.Core.Option.{none, some}
use mathlib.Core.Path.{◌≡◌, refl, subst}
use native.Mathlib.Omega.{arith}
use oci_amber.Prelude.Tests.{Option-cases}
use oci_amber.Prelude.Lists.{All-append, length, take, drop, take-append}

bytes_eq-eq : (s t : Bytes) → bytes_eq s t ≡ true → s ≡ t
bytes_eq-eq [] [] h = refl
bytes_eq-eq [] (b ∷ t) h = cc
bytes_eq-eq (a ∷ s) [] h = cc
bytes_eq-eq (a ∷ s) (b ∷ t) h = ground (arith, bytes_eq-eq s t)

pub bytes_eq_refl : (s : Bytes) → bytes_eq s s ≡ true
bytes_eq_refl [] = refl
bytes_eq_refl (a ∷ s) = ground (arith, bytes_eq_refl s)

-- The test decides equality.
pub bytes_eq_iff : (s t : Bytes) → (bytes_eq s t ≡ true) ↔ (s ≡ t)
bytes_eq_iff s t = (bytes_eq-eq s t, λ e. subst (λ u. bytes_eq s u ≡ true) e (bytes_eq_refl s))

pub cut_prefix-append : (p s : Bytes) → cut_prefix (p ++ s) p ≡ some s
unfolding cut_prefix
cut_prefix-append [] s = refl
cut_prefix-append (c ∷ p) s = ground (arith, cut_prefix-append p s)

pub cut_prefix-eq : (s p r : Bytes) → cut_prefix s p ≡ some r → s ≡ p ++ r
unfolding cut_prefix
cut_prefix-eq s [] r h = ground arith
cut_prefix-eq [] (c ∷ p) r h = cc
cut_prefix-eq (d ∷ s) (c ∷ p) r h = ground (arith, cut_prefix-eq s p r)

pub index_byte-append :
    (a s : Bytes) (b : ℕ) → Lacks b a → index_byte (a ++ b ∷ s) b ≡ some (length a)
unfolding index_byte
index_byte-append [] s b h = ground arith
index_byte-append (c ∷ a) s b (hc, h) = ground (arith, index_byte-append a s b h)

pub index_byte-Lacks : (s : Bytes) (b : ℕ) → Lacks b s → index_byte s b ≡ none
unfolding index_byte
index_byte-Lacks [] b h = refl
index_byte-Lacks (c ∷ s) b (hc, h) = ground (arith, index_byte-Lacks s b h)

pub last_index_byte-Lacks : (s : Bytes) (b : ℕ) → Lacks b s → last_index_byte s b ≡ none
unfolding last_index_byte
last_index_byte-Lacks [] b h = refl
last_index_byte-Lacks (c ∷ s) b (hc, h) = ground (arith, last_index_byte-Lacks s b h)

last_index_byte-none : (s : Bytes) (b : ℕ) → last_index_byte s b ≡ none → Lacks b s
unfolding last_index_byte
last_index_byte-none [] b h = tt
last_index_byte-none (c ∷ s) b h = ground (arith, last_index_byte-none s b)

pub last_index_byte-append :
    (a s : Bytes) (b : ℕ) → Lacks b s → last_index_byte (a ++ b ∷ s) b ≡ some (length a)
unfolding last_index_byte
last_index_byte-append [] s b h = ground (arith, last_index_byte-Lacks s b h)
last_index_byte-append (c ∷ a) s b h = ground (arith, last_index_byte-append a s b h)

pub drop_past : (a s : Bytes) (b : ℕ) → drop (suc (length a)) (a ++ b ∷ s) ≡ s
drop_past [] s b = refl
drop_past (c ∷ a) s b = drop_past a s b

-- A cut at the first separator.
pub cut-append : (a s : Bytes) (b : ℕ) → Lacks b a → cut (a ++ b ∷ s) b ≡ some (a, s)
unfolding cut
cut-append a s b h = rw (index_byte-append a s b h, cut) (rw (take-append, drop_past a s b))

pub index_byte-split :
    (s : Bytes) (b i : ℕ)
    → index_byte s b ≡ some i
    → (s ≡ take i s ++ b ∷ drop (suc i) s) × Lacks b (take i s)
unfolding index_byte
index_byte-split [] b i h = cc
index_byte-split (c ∷ s) b zero h = ground arith
index_byte-split (c ∷ s) b (suc i) h = ground (arith, index_byte-split s b i)

pub last_index_byte-split :
    (s : Bytes) (b i : ℕ)
    → last_index_byte s b ≡ some i
    → (s ≡ take i s ++ b ∷ drop (suc i) s) × Lacks b (drop (suc i) s)
unfolding last_index_byte
last_index_byte-split [] b i h = cc
last_index_byte-split (c ∷ s) b zero h = ground (arith, last_index_byte-none s b)
last_index_byte-split (c ∷ s) b (suc i) h = ground (arith, last_index_byte-split s b i)

-- What a successful cut says of the text.
pub cut-split :
    (s : Bytes) (b : ℕ) {x y : Bytes} → cut s b ≡ some (x, y) → (s ≡ x ++ b ∷ y) × Lacks b x
unfolding cut
cut-split s b h = elim (Option-cases (index_byte s b)) [
  | inl e ↦ ground (arith, e)
  | inr (i, e) ↦ ground (arith, index_byte-split s b i e)
]

pub contains_byte-Lacks : (s : Bytes) (b : ℕ) → contains_byte s b ≡ false → Lacks b s
unfolding contains_byte
contains_byte-Lacks [] b h = tt
contains_byte-Lacks (c ∷ s) b h = (ground arith, contains_byte-Lacks s b (ground arith))

pub Lacks-contains_byte : (s : Bytes) (b : ℕ) → Lacks b s → contains_byte s b ≡ false
unfolding contains_byte
Lacks-contains_byte [] b h = refl
Lacks-contains_byte (c ∷ s) b (hc, h) = ground (arith, Lacks-contains_byte s b h)

-- Searches in the first part of a text, and the parts that they cut.
pub last_index_byte-skip :
    (a s : Bytes) (b : ℕ) → Lacks b s → last_index_byte (a ++ s) b ≡ last_index_byte a b
unfolding last_index_byte
last_index_byte-skip [] s b h = last_index_byte-Lacks s b h
last_index_byte-skip (c ∷ a) s b h = rw (last_index_byte-skip a s b h)

pub last_index_byte-lt : (s : Bytes) (b i : ℕ) → last_index_byte s b ≡ some i → suc i ≤ length s
unfolding last_index_byte
last_index_byte-lt [] b i h = cc
last_index_byte-lt (c ∷ s) b zero h = omega arith
last_index_byte-lt (c ∷ s) b (suc i) h = ground (arith, last_index_byte-lt s b i)

pub drop-append_le : (n : ℕ) (a s : Bytes) → n ≤ length a → drop n (a ++ s) ≡ drop n a ++ s
drop-append_le zero a s h = refl
drop-append_le (suc n) [] s h = absurd (omega arith)
drop-append_le (suc n) (c ∷ a) s h = drop-append_le n a s (omega arith)

pub Lacks-drop : (n : ℕ) (b : ℕ) (s : Bytes) → Lacks b s → Lacks b (drop n s)
Lacks-drop zero b s h = h
Lacks-drop (suc n) b [] h = tt
Lacks-drop (suc n) b (c ∷ s) (hc, h) = Lacks-drop n b s h

pub Lacks-append : (b : ℕ) (s t : Bytes) → Lacks b s → Lacks b t → Lacks b (s ++ t)
Lacks-append b s t = All-append (λ c. c ≢ b) s t

-- A slice expression with an index of zero or one past the last separator.
pub last_index_byte-cases :
    (s : Bytes) (b : ℕ)
    → (last_index_byte s b ≡ none) ⊎ ((i : ℕ) × (last_index_byte s b ≡ some i) × (suc i ≤ length s))
last_index_byte-cases s b = elim (Option-cases (last_index_byte s b)) [
  | inl e ↦ inl e
  | inr (i, e) ↦ inr (i, e, last_index_byte-lt s b i e)
]

pub has_prefix-more : (p : Bytes) (c : ℕ) (s : Bytes) → has_prefix (p ++ c ∷ s) (p ++ c ∷ []) ≡ true
unfolding has_prefix
has_prefix-more [] c s = ground arith
has_prefix-more (b ∷ p) c s = ground (arith, has_prefix-more p c s)
