-- ===== src/Regex/Complete.antt =====
-- The matcher accepts every text of the pattern's language.
use oci_amber.Prelude.{
  ℕ, ◌≡◌, refl, sym, ◌∙◌, subst, Bool, true, false, inl, inr, [], ◌∷◌, ◌++◌, arith, ◌↔◌,
  if◌then◌else◌,
}
use oci_amber.Prelude.Text.{Bytes}
use oci_amber.Regex.{
  in_set, Regex, never, eps, set, seq, alt, star, nullable, mk_seq, mk_alt, deriv, matches,
}
use oci_amber.Regex.Language.{Star, none, more, Lang}
use oci_amber.Regex.Sound.{matches_sound}

nullable-Lang : (r : Regex) (u : Bytes) → u ≡ [] → Lang r u → nullable r ≡ true
unfolding nullable
nullable-Lang never u z h = absurd h
nullable-Lang eps u z h = refl
nullable-Lang (set rs) u z (c, e, h) = cc
nullable-Lang (seq r q) u z ([], [], e, h, k) =
    rw (nullable-Lang r [] refl h, nullable-Lang q [] refl k)
nullable-Lang (seq r q) u z ([], c ∷ t, e, h, k) = cc
nullable-Lang (seq r q) u z (c ∷ s, t, e, h, k) = cc
nullable-Lang (alt r q) u z (inl h) = ground (arith, nullable-Lang r u z h)
nullable-Lang (alt r q) u z (inr h) = ground (arith, nullable-Lang q u z h)
nullable-Lang (star r) u z h = refl

mk_seq-Lang : (r q : Regex) (u : Bytes) → Lang (seq r q) u → Lang (mk_seq r q) u
unfolding mk_seq
mk_seq-Lang never q u (s, t, e, h, k) = absurd h
mk_seq-Lang eps q u (s, t, e, h, k) = rw (e, h) k
mk_seq-Lang (set rs) q u h = h
mk_seq-Lang _ q u h = h

mk_alt-Lang : (r q : Regex) (u : Bytes) → Lang (alt r q) u → Lang (mk_alt r q) u
unfolding mk_alt
mk_alt-Lang never q u (inl h) = absurd h
mk_alt-Lang never q u (inr h) = h
mk_alt-Lang eps never u (inl h) = h
mk_alt-Lang eps never u (inr h) = absurd h
mk_alt-Lang (set rs) never u (inl h) = h
mk_alt-Lang (set rs) never u (inr h) = absurd h
mk_alt-Lang (seq r p) never u (inl h) = h
mk_alt-Lang (seq r p) never u (inr h) = absurd h
mk_alt-Lang (alt r p) never u (inl h) = h
mk_alt-Lang (alt r p) never u (inr h) = absurd h
mk_alt-Lang (star r) never u (inl h) = h
mk_alt-Lang (star r) never u (inr h) = absurd h
mk_alt-Lang eps _ u h = h
mk_alt-Lang (set rs) _ u h = h
mk_alt-Lang (seq r p) _ u h = h
mk_alt-Lang (alt r p) _ u h = h
mk_alt-Lang (star r) _ u h = h

-- A first byte of a repetition is the first byte of its first part that is not empty.
Star-cons :
    {P : Bytes → Type 0} (c : ℕ) (u v : Bytes)
    → v ≡ c ∷ u
    → Star P v
    → (s : Bytes) × (t : Bytes) × (u ≡ s ++ t) × P (c ∷ s) × Star P t
Star-cons c u v z none = cc
Star-cons c u v z (more [] t e p rest) = Star-cons c u t (sym e ∙ z) rest
Star-cons {P} c u v z (more (d ∷ s) t e p rest) = (s, t, cc, subst (λ x. P (x ∷ s)) (cc) p, rest)

deriv-Lang_left :
    (c : ℕ) (r q : Regex) (u : Bytes) (b : Bool)
    → Lang (seq (deriv c r) q) u
    → Lang (if b then mk_alt (mk_seq (deriv c r) q) (deriv c q) else mk_seq (deriv c r) q) u
deriv-Lang_left c r q u true h = mk_alt-Lang _ _ u (inl (mk_seq-Lang (deriv c r) q u h))
deriv-Lang_left c r q u false h = mk_seq-Lang (deriv c r) q u h

deriv-Lang : (c : ℕ) (r : Regex) (u : Bytes) → Lang r (c ∷ u) → Lang (deriv c r) u
unfolding deriv
deriv-Lang c never u h = absurd h
deriv-Lang c eps u h = cc
deriv-Lang c (set rs) u (d, e, h) = rw (subst (λ x. in_set x rs ≡ true) {x = d} {y = c} (cc) h) (cc)
deriv-Lang c (seq r q) u ([], t, e, h, k) =
    rw (nullable-Lang r [] refl h)
      (mk_alt-Lang _ _ u (inr (deriv-Lang c q u (subst (Lang q) (sym e) k))))
deriv-Lang c (seq r q) u (d ∷ s, t, e, h, k) =
    deriv-Lang_left c r q u (nullable r)
      (s, t, cc, deriv-Lang c r s (subst (λ x. Lang r (x ∷ s)) {x = d} {y = c} (cc) h), k)
deriv-Lang c (alt r q) u (inl h) = mk_alt-Lang (deriv c r) (deriv c q) u (inl (deriv-Lang c r u h))
deriv-Lang c (alt r q) u (inr h) = mk_alt-Lang (deriv c r) (deriv c q) u (inr (deriv-Lang c q u h))
deriv-Lang c (star r) u h =
    let (s, t, e, k, m) = Star-cons c u (c ∷ u) refl h in
    mk_seq-Lang (deriv c r) (star r) u (s, t, e, deriv-Lang c r s k, m)

matches_complete : (r : Regex) (u : Bytes) → Lang r u → matches r u ≡ true
unfolding matches
matches_complete r [] h = nullable-Lang r [] refl h
matches_complete r (c ∷ u) h = matches_complete (deriv c r) u (deriv-Lang c r u h)

-- The matcher decides the language.
pub matches_iff : (r : Regex) (u : Bytes) → (matches r u ≡ true) ↔ Lang r u
matches_iff r u = (matches_sound r u, matches_complete r u)
