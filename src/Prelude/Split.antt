-- ===== src/Prelude/Split.antt =====
-- strings.Split at a byte, strings.Join, and strings.TrimSpace.
use Prim.Native.Nat.{ℕ, zero, suc}
use mathlib.Core.Path.{◌≡◌, refl, sym, subst}
use mathlib.Core.Bool.{Bool}
use mathlib.Core.List.{List, [], ◌∷◌, ◌++◌, map, reverse}
use mathlib.Core.Option.{Option, none, some}
use mathlib.Core.Logic.{◌≢◌, inl, inr}
use native.Mathlib.Omega.{arith}
use oci_amber.Prelude.Lists.{length, All}
use oci_amber.Prelude.Tests.{if◌then◌else◌, ◌==◌, Bool-cases}
use oci_amber.Prelude.Text.{Bytes, cut_prefix, Lacks}

-- A byte in front of the first part.
abbrev pub push_byte : ℕ → List Bytes → List Bytes
push_byte c [] = (c ∷ []) ∷ []
push_byte c (p ∷ ps) = (c ∷ p) ∷ ps

unfoldable pub split : Bytes → ℕ → List Bytes
split [] b = [] ∷ []
split (c ∷ s) b = let rest = split s b in if c == b then [] ∷ rest else push_byte c rest

unfoldable pub join : List Bytes → ℕ → Bytes
join [] b = []
join (p ∷ []) b = p
join (p ∷ q ∷ ps) b = p ++ b ∷ join (q ∷ ps) b

pub split-ne : (s : Bytes) (b : ℕ) → split s b ≢ []
unfolding split
split-ne [] b = cc
split-ne (c ∷ s) b = elim (split s b) [ [] ↦ ground arith | p ∷ ps ↦ ground arith ]

-- A part without the separator comes out whole.
pub split-Lacks : (p : Bytes) (b : ℕ) → Lacks b p → split p b ≡ p ∷ []
unfolding split
split-Lacks [] b l = refl
split-Lacks (c ∷ p) b l = ground (arith, split-Lacks p b)

pub split-append : (p s : Bytes) (b : ℕ) → Lacks b p → split (p ++ b ∷ s) b ≡ p ∷ split s b
unfolding split
split-append [] s b l = ground arith
split-append (c ∷ p) s b l = ground (arith, split-append p s b)

pub join-push : (c : ℕ) (ps : List Bytes) (b : ℕ) → join (push_byte c ps) b ≡ c ∷ join ps b
unfolding join
join-push c [] b = refl
join-push c (p ∷ []) b = refl
join-push c (p ∷ q ∷ ps) b = refl

join-nil : (ps : List Bytes) (b : ℕ) → ps ≢ [] → join ([] ∷ ps) b ≡ b ∷ join ps b
unfolding join
join-nil [] b n = absurd (n refl)
join-nil (p ∷ ps) b n = refl

pub join-split : (s : Bytes) (b : ℕ) → join (split s b) b ≡ s
unfolding split
join-split [] b = unfold join in refl
join-split (c ∷ s) b =
    ground (arith, join-nil (split s b) b (split-ne s b), join-push c (split s b) b, join-split s b)

push_byte-All :
    (c : ℕ) (ps : List Bytes) (b : ℕ) → c ≢ b → All (Lacks b) ps → All (Lacks b) (push_byte c ps)
push_byte-All c [] b n a = ((n, tt), tt)
push_byte-All c (p ∷ ps) b n (a, r) = ((n, a), r)

-- Every part lacks the separator.
pub split-All : (s : Bytes) (b : ℕ) → All (Lacks b) (split s b)
unfolding split
split-All [] b = (tt, tt)
split-All (c ∷ s) b = elim (Bool-cases (c == b)) [
  | inl e ↦
      subst (λ (t : Bool). All (Lacks b) (if t then [] ∷ split s b else push_byte c (split s b)))
        (sym e) (tt, split-All s b)
  | inr e ↦
      subst (λ (t : Bool). All (Lacks b) (if t then [] ∷ split s b else push_byte c (split s b)))
        (sym e) (push_byte-All c (split s b) b (ground arith) (split-All s b))
]

-- The UTF-8 forms of the runes that unicode.IsSpace accepts.
abbrev space_runes : List Bytes
space_runes =
    (9 ∷ [])
    ∷ (10 ∷ [])
    ∷ (11 ∷ [])
    ∷ (12 ∷ [])
    ∷ (13 ∷ [])
    ∷ (32 ∷ [])
    ∷ (194 ∷ 133 ∷ [])
    ∷ (194 ∷ 160 ∷ [])
    ∷ (225 ∷ 154 ∷ 128 ∷ [])
    ∷ (226 ∷ 128 ∷ 128 ∷ [])
    ∷ (226 ∷ 128 ∷ 129 ∷ [])
    ∷ (226 ∷ 128 ∷ 130 ∷ [])
    ∷ (226 ∷ 128 ∷ 131 ∷ [])
    ∷ (226 ∷ 128 ∷ 132 ∷ [])
    ∷ (226 ∷ 128 ∷ 133 ∷ [])
    ∷ (226 ∷ 128 ∷ 134 ∷ [])
    ∷ (226 ∷ 128 ∷ 135 ∷ [])
    ∷ (226 ∷ 128 ∷ 136 ∷ [])
    ∷ (226 ∷ 128 ∷ 137 ∷ [])
    ∷ (226 ∷ 128 ∷ 138 ∷ [])
    ∷ (226 ∷ 128 ∷ 168 ∷ [])
    ∷ (226 ∷ 128 ∷ 169 ∷ [])
    ∷ (226 ∷ 128 ∷ 175 ∷ [])
    ∷ (226 ∷ 129 ∷ 159 ∷ [])
    ∷ (227 ∷ 128 ∷ 128 ∷ [])
    ∷ []

cut_one : List Bytes → Bytes → Option Bytes
cut_one [] s = none
cut_one (r ∷ rs) s = elim (cut_prefix s r) [ none ↦ cut_one rs s | some t ↦ some t ]

-- Each round drops a byte at least, so the length is fuel enough.
trim_front : List Bytes → ℕ → Bytes → Bytes
unfolding cut_one
trim_front rs zero s = s
trim_front rs (suc n) s = elim (cut_one rs s) [ none ↦ s | some t ↦ trim_front rs n t ]

-- strings.TrimSpace; a rune at the end is one at the front of the reversed text.
unfoldable pub trim_space : Bytes → Bytes
unfolding trim_front
trim_space s =
    let t = trim_front space_runes (length s) s in
    reverse (trim_front (map reverse space_runes) (length t) (reverse t))
