-- ===== src/Image/Refs/RoundTrip.antt =====
-- Reference names parse back to what they were built from, and nothing else parses.
use oci_amber.Prelude.{
  ℕ, suc, ◌≡◌, ◌≢◌, refl, sym, ap, ◌∙◌, subst, true, false, some, [], ◌∷◌, ◌++◌, arith, length,
  take-append, All-map, lt→ltb, append_assoc,
}
use oci_amber.Prelude.Maybe.{>>=-eq-some}
use oci_amber.Prelude.Text.{Bytes, codes, cut_prefix, cut, last_index_byte, Lacks}
use oci_amber.Prelude.Text.Laws.{
  cut_prefix-append, cut_prefix-eq, cut-append, cut-split, last_index_byte-append,
  last_index_byte-split, drop_past, Lacks-append,
}
use oci_amber.Regex.{in_set}
use oci_amber.Oci.Errors.{Result, ok, err, is_ok}
use oci_amber.Oci.Digest.{Digest, is_empty, parse_digest}
use oci_amber.Oci.Digest.Shape.{IsHex, parse_digest_iff}
use oci_amber.Oci.Names.{validate_repository, validate_tag}
use oci_amber.Oci.Names.Charset.{validate_repository-charset, validate_tag-charset}
use oci_amber.Image.Refs.{
  tag_prefix, manifest_prefix, referrer_prefix, tag_ref, manifest_ref, referrer_ref, cut_last,
  valid_digest, check_tag_ref, check_repository, parse_tag_ref, parse_manifest_ref,
  parse_referrer_ref,
}

is_empty-ne : (s : Bytes) → s ≢ [] → is_empty s ≡ false
is_empty-ne [] h = absurd (h refl)
is_empty-ne (c ∷ s) h = refl

is_ok-eq : (r : Result (Unit {0})) → is_ok r ≡ true → r ≡ ok tt
is_ok-eq (ok tt) h = refl
is_ok-eq (err e) h = cc

-- A tag reference parses to its repository and tag, when both are valid.
pub parse_tag_ref-tag_ref :
    (repo tag : Bytes)
    → validate_repository repo ≡ ok tt
    → validate_tag tag ≡ ok tt
    → parse_tag_ref (tag_ref repo tag) ≡ some (repo, tag)
unfolding parse_tag_ref tag_ref
parse_tag_ref-tag_ref repo tag hr ht =
    let (rn, rl, rc, ra) = validate_repository-charset repo hr in
    let (tn, tc, ta, ts) = validate_tag-charset tag ht in
    rw (cut_prefix-append tag_prefix (repo ++ b':' ∷ tag), cut-append repo tag b':' rc)
      (rw (is_empty-ne repo rn, is_empty-ne tag tn, hr, ht))

check_tag_ref-eq :
    (r t repo tag : Bytes)
    → check_tag_ref r t ≡ some (repo, tag)
    → (r ≡ repo) × (t ≡ tag) × (validate_repository r ≡ ok tt) × (validate_tag t ≡ ok tt)
unfolding check_tag_ref
check_tag_ref-eq r t repo tag h = (
  ground arith,
  ground arith,
  is_ok-eq (validate_repository r) (ground arith),
  is_ok-eq (validate_tag t) (ground arith),
)

-- Only tag references of valid names parse.
pub parse_tag_ref-eq :
    (name repo tag : Bytes)
    → parse_tag_ref name ≡ some (repo, tag)
    → (name ≡ tag_ref repo tag) × (validate_repository repo ≡ ok tt) × (validate_tag tag ≡ ok tt)
unfolding parse_tag_ref tag_ref
parse_tag_ref-eq name repo tag h =
    let (rest, p, h1) = >>=-eq-some (cut_prefix name tag_prefix) _ h in
    let ((r, t), q, h2) = >>=-eq-some (cut rest b':') _ h1 in
    let (er, et, vr, vt) = check_tag_ref-eq r t repo tag h2 in
    (
      cut_prefix-eq name tag_prefix rest p
          ∙ ap (λ x. tag_prefix ++ x) ((cut-split rest b':' q).0 ∙ cc (er, et)),
      subst (λ x. validate_repository x ≡ ok tt) er vr,
      subst (λ x. validate_tag x ≡ ok tt) et vt,
    )

hex-slash : (c : ℕ) → IsHex c → c ≢ b'/'
unfolding in_set
hex-slash c h = ground arith

-- No byte of a digest is a slash.
digest-Lacks : (s : Bytes) (d : Digest) → parse_digest s ≡ ok d → Lacks b'/' s
digest-Lacks s d h =
    let (same, (x, e, l, a)) = (parse_digest_iff s d).0 h in
    rw e (Lacks-append b'/' (codes "sha256:") x (omega arith) (All-map _ _ x hex-slash a))

append-ne-nil : (s t : Bytes) → s ≢ [] → (s ++ t) ≢ []
append-ne-nil [] t h = absurd (h refl)
append-ne-nil (c ∷ s) t h = cc

cut_last-append : (a s : Bytes) → a ≢ [] → Lacks b'/' s → cut_last (a ++ b'/' ∷ s) ≡ some (a, s)
unfolding cut_last
cut_last-append [] s ne h = absurd (ne refl)
cut_last-append (c ∷ a) s ne h =
    rw (last_index_byte-append (c ∷ a) s b'/' h)
      (rw (lt→ltb 0 (suc (length a)) (omega arith), take-append, drop_past (c ∷ a) s b'/'))

cut_last-split : (u a s : Bytes) → cut_last u ≡ some (a, s) → u ≡ a ++ b'/' ∷ s
unfolding cut_last
cut_last-split u a s h =
    let (i, e, h1) = >>=-eq-some (last_index_byte u b'/') _ h in
    (last_index_byte-split u b'/' i e).0 ∙ ground arith

check_repository-eq {ℓ} :
    {A : Type ℓ} (repo : Bytes) (a b : A)
    → check_repository repo a ≡ some b
    → (a ≡ b) × (validate_repository repo ≡ ok tt)
unfolding check_repository
check_repository-eq repo a b h = (ground arith, is_ok-eq (validate_repository repo) (ground arith))

valid_digest-eq :
    (s : Bytes) (d : Digest) → valid_digest (parse_digest s) ≡ some d → parse_digest s ≡ ok d
unfolding valid_digest
valid_digest-eq s d h = ground arith

-- A digest is its own text, so parsing it again gives it back.
digest-text : (s : Bytes) (d : Digest) → parse_digest s ≡ ok d → s ≡ d
digest-text s d h = sym ((parse_digest_iff s d).0 h).0

-- A manifest reference parses to its repository and digest, when both are valid.
pub parse_manifest_ref-manifest_ref :
    (repo : Bytes) (d : Digest)
    → validate_repository repo ≡ ok tt
    → parse_digest d ≡ ok d
    → parse_manifest_ref (manifest_ref repo d) ≡ some (repo, d)
unfolding parse_manifest_ref manifest_ref
parse_manifest_ref-manifest_ref repo d hr hd =
    let (rn, rl, rc, ra) = validate_repository-charset repo hr in
    rw (cut_prefix-append manifest_prefix (repo ++ b'/' ∷ d))
      (rw (cut_last-append repo d rn (digest-Lacks d d hd)) (rw (hd, hr)))

-- Only manifest references of valid names and digests parse.
pub parse_manifest_ref-eq :
    (name repo : Bytes) (d : Digest)
    → parse_manifest_ref name ≡ some (repo, d)
    → (name ≡ manifest_ref repo d) × (validate_repository repo ≡ ok tt) × (parse_digest d ≡ ok d)
unfolding parse_manifest_ref manifest_ref
parse_manifest_ref-eq name repo d h =
    let (rest, p, h1) = >>=-eq-some (cut_prefix name manifest_prefix) _ h in
    let ((r, last), q, h2) = >>=-eq-some (cut_last rest) _ h1 in
    let (e, k, h3) = >>=-eq-some (valid_digest (parse_digest last)) _ h2 in
    let (same, vr) = check_repository-eq r (r, e) (repo, d) h3 in
    let pd = valid_digest-eq last e k in
    let last_d : last ≡ d = digest-text last e pd ∙ cc same in
    (
      cut_prefix-eq name manifest_prefix rest p
          ∙ ap (λ x. manifest_prefix ++ x) (cut_last-split rest r last q ∙ cc (same, last_d)),
      subst (λ x. validate_repository x ≡ ok tt) {x = r} (cc same) vr,
      cc (pd, last_d, same),
    )

-- A referrer reference parses to its repository, subject and referrer, when all are valid.
pub parse_referrer_ref-referrer_ref :
    (repo : Bytes) (subject referrer : Digest)
    → validate_repository repo ≡ ok tt
    → parse_digest subject ≡ ok subject
    → parse_digest referrer ≡ ok referrer
    → parse_referrer_ref (referrer_ref repo subject referrer) ≡ some (repo, subject, referrer)
unfolding parse_referrer_ref referrer_ref
parse_referrer_ref-referrer_ref repo subject referrer hr hs hd =
    let (rn, rl, rc, ra) = validate_repository-charset repo hr in
    let front =
      cut_last-append (repo ++ b'/' ∷ subject) referrer (append-ne-nil repo _ rn)
        (digest-Lacks referrer referrer hd) in
    rw (cut_prefix-append referrer_prefix (repo ++ b'/' ∷ (subject ++ b'/' ∷ referrer))) (
      rw (← append_assoc repo (b'/' ∷ subject) (b'/' ∷ referrer), front)
        (rw (hd, cut_last-append repo subject rn (digest-Lacks subject subject hs)) (rw (hs, hr))))
