-- ===== src/Oci/Digest/Shape.antt =====
-- Which texts are digests, and how references are routed.
use oci_amber.Prelude.{
  ℕ, ◌≡◌, refl, sym, ap, ◌∙◌, subst, ◌↔◌, true, Option, none, some, [], ◌∷◌, ◌++◌, arith, All,
  length, false, ◌≢◌, All-map,
}
use oci_amber.Prelude.Text.{Bytes, codes, cut, Lacks}
use oci_amber.Prelude.Text.Laws.{cut-append, cut-split, bytes_eq_iff, Lacks-append}
use oci_amber.Regex.{in_set, matches, times, set}
use oci_amber.Regex.Language.{Lang, Lang-times, length-times, All-Lang, OnSets-times}
use oci_amber.Regex.Complete.{matches_iff}
use oci_amber.Oci.Errors.{ok}
use oci_amber.Oci.Digest.{
  Digest, algorithm_sha256, hex_set, sha256_hex_re, check_parts, parse_digest, hex, algorithm,
}

abbrev pub IsHex : ℕ → Type 0
IsHex c = in_set c hex_set ≡ true

-- "sha256:" and 64 lowercase hexadecimal digits.
abbrev pub IsSha256 : Bytes → Type 0
IsSha256 s = (h : Bytes) × (s ≡ codes "sha256:" ++ h) × (length h ≡ 64) × All IsHex h

-- What the checks on the two parts establish.
check_parts_ok :
    (s algo enc : Bytes) (d : Digest)
    → check_parts s (some (algo, enc)) ≡ ok d
    → (d ≡ s) × (algo ≡ algorithm_sha256) × (matches sha256_hex_re enc ≡ true)
unfolding check_parts
check_parts_ok s algo enc d h = ground (arith, bytes_eq_iff algo algorithm_sha256)

matches-IsHex : (h : Bytes) → matches sha256_hex_re h ≡ true → (length h ≡ 64) × All IsHex h
unfolding sha256_hex_re
matches-IsHex h m =
    let l = (matches_iff (times 64 (set hex_set)) h).0 m in
    (
      length-times 64 hex_set h l,
      All-Lang IsHex (times 64 (set hex_set)) h (OnSets-times IsHex 64 (set hex_set) (λ c e. e)) l,
    )

pub hex-matches : (h : Bytes) → length h ≡ 64 → All IsHex h → matches sha256_hex_re h ≡ true
unfolding sha256_hex_re
hex-matches h l a =
    (matches_iff (times 64 (set hex_set)) h).1
      (subst (λ n. Lang (times n (set hex_set)) h) l (Lang-times hex_set h a))

parse_digest-check_parts : (s : Bytes) → parse_digest s ≡ check_parts s (cut s b':')
unfolding parse_digest
parse_digest-check_parts s = refl

check_parts_sound :
    (s : Bytes) (p : Option (Bytes × Bytes)) (d : Digest)
    → cut s b':' ≡ p
    → check_parts s p ≡ ok d
    → (d ≡ s) × IsSha256 s
check_parts_sound s none d e h = (unfold check_parts in cc)
check_parts_sound s (some (algo, enc)) d e h =
    let (same, name, m) = check_parts_ok s algo enc d h in
    let (parts, none_before) = cut-split s b':' e in
    let (l, a) = matches-IsHex enc m in (same, (enc, parts ∙ ap (λ x. x ++ b':' ∷ enc) name, l, a))

parse_digest_sound : (s : Bytes) (d : Digest) → parse_digest s ≡ ok d → (d ≡ s) × IsSha256 s
parse_digest_sound s d h =
    check_parts_sound s (cut s b':') d refl (sym (parse_digest-check_parts s) ∙ h)

parse_digest_complete :
    (h : Bytes)
    → length h ≡ 64
    → All IsHex h
    → parse_digest (codes "sha256:" ++ h) ≡ ok (codes "sha256:" ++ h)
parse_digest_complete [] l a = absurd (omega arith)
parse_digest_complete (c ∷ h) l a =
    rw (parse_digest-check_parts, cut-append algorithm_sha256 (c ∷ h) b':' (omega arith))
      (unfold check_parts in rw (hex-matches (c ∷ h) l a))

-- A text parses as a digest exactly when it is "sha256:" and 64 lowercase hexadecimal digits, and
-- the digest is the text itself.
pub parse_digest_iff : (s : Bytes) (d : Digest) → (parse_digest s ≡ ok d) ↔ ((d ≡ s) × IsSha256 s)
parse_digest_iff s d =
    (parse_digest_sound s d, λ p. rw (p.0, p.1.1) (parse_digest_complete p.1.0 p.1.2 p.1.3))

IsHex-other : (b c : ℕ) → in_set b hex_set ≡ false → IsHex c → c ≢ b
IsHex-other b c h k e = absurd (cc (e, h, k))

-- A digest has no byte but its own prefix and hexadecimal digits.
pub IsSha256-Lacks :
    (b : ℕ) (s : Bytes)
    → Lacks b (codes "sha256:")
    → in_set b hex_set ≡ false
    → IsSha256 s
    → Lacks b s
IsSha256-Lacks b s p n (h, e, l, a) =
    subst (Lacks b) (sym e)
      (Lacks-append b (codes "sha256:") h p (All-map _ _ h (λ c k. IsHex-other b c n k) a))

cut-sha256 : (h : Bytes) → cut (codes "sha256:" ++ h) b':' ≡ some (algorithm_sha256, h)
cut-sha256 h = cut-append algorithm_sha256 h b':' (omega arith)

pub hex-sha256 : (h : Bytes) → hex (codes "sha256:" ++ h) ≡ h
unfolding hex
hex-sha256 h = rw (cut-sha256 h, hex)

algorithm-sha256 : (h : Bytes) → algorithm (codes "sha256:" ++ h) ≡ algorithm_sha256
unfolding algorithm
algorithm-sha256 h = rw (cut-sha256 h, algorithm)

-- The algorithm of a valid digest is sha256, and its encoded part is 64 hexadecimal digits.
pub hex-parse_digest :
    (s : Bytes) (d : Digest)
    → parse_digest s ≡ ok d
    → (algorithm d ≡ algorithm_sha256) × (length (hex d) ≡ 64) × All IsHex (hex d)
hex-parse_digest s d h =
    let (same, sha) = parse_digest_sound s d h in
    rw (same, sha.1, algorithm-sha256, hex-sha256) (refl, sha.2, sha.3)
