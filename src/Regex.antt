-- ===== src/Regex.antt =====
-- Go's package `regexp` on the anchored patterns that the grammars of oci/names.go, oci/digest.go
-- and registry/server.go use: byte sets, concatenation, alternatives and repetition, matched
-- against a whole text. The matcher takes derivatives, so it runs on concrete inputs.
pub mod Language
pub mod Sound
pub mod Complete
use oci_amber.Prelude.{
  ℕ, zero, suc, Bool, true, false, ◌&&◌, ◌||◌, List, [], ◌∷◌, leb, if◌then◌else◌,
}
use oci_amber.Prelude.Text.{Bytes}

-- The inclusive ranges of a bracket expression.
abbrev pub Ranges : Type 0
Ranges = List (ℕ × ℕ)

unfoldable pub in_set : ℕ → Ranges → Bool
in_set c [] = false
in_set c ((lo, hi) ∷ rs) = (leb lo c && leb c hi) || in_set c rs

pub data Regex : Type 0 where
  never eps : Regex
  set : Ranges → Regex
  seq alt : Regex → Regex → Regex
  star : Regex → Regex

unfoldable pub nullable : Regex → Bool
nullable never = false
nullable eps = true
nullable (set rs) = false
nullable (seq r q) = nullable r && nullable q
nullable (alt r q) = nullable r || nullable q
nullable (star r) = true

-- `seq` and `alt`, simplified so that derivatives stay small.
unfoldable pub mk_seq : Regex → Regex → Regex
mk_seq never q = never
mk_seq eps q = q
mk_seq r q = seq r q

unfoldable pub mk_alt : Regex → Regex → Regex
mk_alt never q = q
mk_alt r never = r
mk_alt r q = alt r q

unfoldable pub deriv : ℕ → Regex → Regex
unfolding nullable mk_seq mk_alt in_set
deriv c never = never
deriv c eps = never
deriv c (set rs) = if in_set c rs then eps else never
deriv c (seq r q) =
    let left = mk_seq (deriv c r) q in
    let right = deriv c q in if nullable r then mk_alt left right else left
deriv c (alt r q) = mk_alt (deriv c r) (deriv c q)
deriv c (star r) = mk_seq (deriv c r) (star r)

-- Does the whole text match?
unfoldable pub matches : Regex → Bytes → Bool
unfolding deriv
matches r [] = nullable r
matches r (c ∷ s) = matches (deriv c r) s

-- The notations `r+`, `r{n}` and `r{0,n}`.
abbrev pub plus : Regex → Regex
plus r = seq r (star r)

unfoldable pub times : ℕ → Regex → Regex
times zero r = eps
times (suc n) r = seq r (times n r)

unfoldable pub up_to : ℕ → Regex → Regex
up_to zero r = eps
up_to (suc n) r = alt eps (seq r (up_to n r))

abbrev pub byte : ℕ → Regex
byte c = set ((c, c) ∷ [])
