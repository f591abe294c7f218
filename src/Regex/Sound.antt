-- ===== src/Regex/Sound.antt =====
-- A text that the matcher accepts is in the pattern's language.
use oci_amber.Prelude.{
  ℕ, ◌≡◌, refl, ap, Bool, true, false, inl, inr, [], ◌∷◌, arith, Bool-cases, and_left, and_right,
  if◌then◌else◌,
}
use oci_amber.Prelude.Text.{Bytes}
use oci_amber.Regex.{
  Ranges, in_set, Regex, never, eps, set, seq, alt, star, nullable, mk_seq, mk_alt, deriv, matches,
}
use oci_amber.Regex.Language.{none, more, Lang}

Lang-nullable : (r : Regex) → nullable r ≡ true → Lang r []
unfolding nullable
Lang-nullable never h = cc
Lang-nullable eps h = refl
Lang-nullable (set rs) h = cc
Lang-nullable (seq r q) h =
    ([], [], refl, Lang-nullable r (and_left _ _ h), Lang-nullable q (and_right (nullable r) _ h))
Lang-nullable (alt r q) h = elim (Bool-cases (nullable r)) [
  | inl e ↦ inl (Lang-nullable r e)
  | inr e ↦ inr (Lang-nullable q (ground arith))
]
Lang-nullable (star r) h = none

Lang-mk_seq : (r q : Regex) (u : Bytes) → Lang (mk_seq r q) u → Lang (seq r q) u
unfolding mk_seq
Lang-mk_seq never q u h = absurd h
Lang-mk_seq eps q u h = ([], u, refl, refl, h)
Lang-mk_seq _ q u h = h

Lang-mk_alt : (r q : Regex) (u : Bytes) → Lang (mk_alt r q) u → Lang (alt r q) u
unfolding mk_alt
Lang-mk_alt never q u h = inr h
Lang-mk_alt eps never u h = inl h
Lang-mk_alt (set rs) never u h = inl h
Lang-mk_alt (seq r p) never u h = inl h
Lang-mk_alt (alt r p) never u h = inl h
Lang-mk_alt (star r) never u h = inl h
Lang-mk_alt eps _ u h = h
Lang-mk_alt (set rs) _ u h = h
Lang-mk_alt (seq r p) _ u h = h
Lang-mk_alt (alt r p) _ u h = h
Lang-mk_alt (star r) _ u h = h

Lang-deriv_set :
    (c : ℕ) (rs : Ranges) (u : Bytes) (b : Bool)
    → in_set c rs ≡ b
    → Lang (if b then eps else never) u
    → Lang (set rs) (c ∷ u)
Lang-deriv_set c rs u true e h = (c, ap (λ l. c ∷ l) h, e)
Lang-deriv_set c rs u false e h = absurd h

-- The first part takes the byte.
Lang-deriv_left :
    (c : ℕ) (r q : Regex) (u : Bytes)
    → ((s : Bytes) → Lang (deriv c r) s → Lang r (c ∷ s))
    → Lang (mk_seq (deriv c r) q) u
    → Lang (seq r q) (c ∷ u)
Lang-deriv_left c r q u f h =
    let (s, t, e, k, m) = Lang-mk_seq (deriv c r) q u h in (c ∷ s, t, ap (λ l. c ∷ l) e, f s k, m)

Lang-deriv_seq :
    (c : ℕ) (r q : Regex) (u : Bytes) (b : Bool)
    → nullable r ≡ b
    → ((s : Bytes) → Lang (deriv c r) s → Lang r (c ∷ s))
    → ((s : Bytes) → Lang (deriv c q) s → Lang q (c ∷ s))
    → Lang (if b then mk_alt (mk_seq (deriv c r) q) (deriv c q) else mk_seq (deriv c r) q) u
    → Lang (seq r q) (c ∷ u)
Lang-deriv_seq c r q u false e f g h = Lang-deriv_left c r q u f h
Lang-deriv_seq c r q u true e f g h = elim (Lang-mk_alt (mk_seq (deriv c r) q) (deriv c q) u h) [
  | inl k ↦ Lang-deriv_left c r q u f k
  | inr k ↦ ([], c ∷ u, refl, Lang-nullable r e, g u k)
]

Lang-deriv : (c : ℕ) (r : Regex) (u : Bytes) → Lang (deriv c r) u → Lang r (c ∷ u)
unfolding deriv
Lang-deriv c never u h = absurd h
Lang-deriv c eps u h = absurd h
Lang-deriv c (set rs) u h = Lang-deriv_set c rs u (in_set c rs) refl h
Lang-deriv c (seq r q) u h =
    Lang-deriv_seq c r q u (nullable r) refl (Lang-deriv c r) (Lang-deriv c q) h
Lang-deriv c (alt r q) u h = elim (Lang-mk_alt (deriv c r) (deriv c q) u h) [
  | inl k ↦ inl (Lang-deriv c r u k)
  | inr k ↦ inr (Lang-deriv c q u k)
]
Lang-deriv c (star r) u h =
    let (s, t, e, k, m) = Lang-mk_seq (deriv c r) (star r) u h in
    more (c ∷ s) t (ap (λ l. c ∷ l) e) (Lang-deriv c r s k) m

pub matches_sound : (r : Regex) (u : Bytes) → matches r u ≡ true → Lang r u
unfolding matches
matches_sound r [] h = Lang-nullable r h
matches_sound r (c ∷ u) h = Lang-deriv c r u (matches_sound (deriv c r) u h)
