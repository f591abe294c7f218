-- ===== src/Oci/Names/Charset.antt =====
-- What valid names are made of, and that tags and digests are told apart.
use oci_amber.Prelude.{
  ℕ, ◌≤◌, ◌<◌, ◌≡◌, ◌≢◌, refl, sym, ◌∙◌, subst, ◌↔◌, true, false, inl, inr, [], ◌∷◌, ◌++◌, arith,
  All, All-map, All-append_right, length, Bool-cases, ap, append_assoc,
}
use oci_amber.Prelude.Text.{Bytes, codes, Lacks}
use oci_amber.Regex.{in_set, matches, set, up_to, plus}
use oci_amber.Regex.Language.{
  none, OnSets, All-Lang, OnSets-up_to, length-up_to, Lang-up_to, Lang-Star,
}
use oci_amber.Regex.Complete.{matches_iff}
use oci_amber.Oci.Errors.{ok}
use oci_amber.Oci.Digest.{Digest, encoded_set, alnum, digest_shape_re, is_digest, parse_digest}
use oci_amber.Oci.Digest.Shape.{IsHex, parse_digest_iff}
use oci_amber.Oci.Names.{
  component_re, repository_re, tag_re, word_set, tag_set, max_repository_length,
  validate_repository, validate_tag,
}

-- A byte of a repository name.
abbrev pub IsNameByte : ℕ → Type 0
IsNameByte c = (c ≢ b':') × (c ≢ b'@') × (c ≢ 10) × (c < 128)

abbrev pub IsTagByte : ℕ → Type 0
IsTagByte c = in_set c tag_set ≡ true

alnum-IsNameByte : (c : ℕ) → in_set c alnum ≡ true → IsNameByte c
unfolding in_set
alnum-IsNameByte c h = ground arith

pub in_set_one : (b c : ℕ) → in_set c ((b, b) ∷ []) ≡ true → c ≡ b
unfolding in_set
in_set_one b c h = ground arith

one-IsNameByte : (b : ℕ) → IsNameByte b → (c : ℕ) → in_set c ((b, b) ∷ []) ≡ true → IsNameByte c
one-IsNameByte b n c h = rw (in_set_one b c h) n

OnSets-component_re : OnSets IsNameByte component_re
OnSets-component_re =
    let dot = one-IsNameByte b'.' (omega arith) in
    let underscore = one-IsNameByte b'_' (omega arith) in
    let hyphen = one-IsNameByte b'-' (omega arith) in
    let run : OnSets IsNameByte (plus (set alnum)) = (alnum-IsNameByte, alnum-IsNameByte) in
    (run, ((dot, (underscore, ((underscore, underscore), (hyphen, hyphen)))), run))

OnSets-repository_re : OnSets IsNameByte repository_re
unfolding repository_re
OnSets-repository_re =
    (OnSets-component_re, (one-IsNameByte b'/' (omega arith), OnSets-component_re))

validate_repository-matches :
    (name : Bytes)
    → validate_repository name ≡ ok tt
    → (name ≢ []) × (length name ≤ max_repository_length) × (matches repository_re name ≡ true)
unfolding validate_repository
validate_repository-matches [] h = cc
validate_repository-matches (c ∷ name) h = (cc, ground arith, ground arith)

validate_tag-matches : (tag : Bytes) → (validate_tag tag ≡ ok tt) ↔ (matches tag_re tag ≡ true)
unfolding validate_tag
validate_tag-matches tag = (λ h. ground arith, λ h. ground arith)

-- A valid repository name is not empty, has at most 255 bytes, and holds neither ':' nor '@', so
-- it can stand inside a reference name.
pub validate_repository-charset :
    (name : Bytes)
    → validate_repository name ≡ ok tt
    → (name ≢ []) × (length name ≤ max_repository_length) × Lacks b':' name × Lacks b'@' name
validate_repository-charset name h =
    let (ne, le, m) = validate_repository-matches name h in
    let bytes =
      All-Lang IsNameByte repository_re name OnSets-repository_re ((matches_iff _ _).0 m) in
    (ne, le, All-map _ _ name (λ c p. p.0) bytes, All-map _ _ name (λ c p. p.1) bytes)

-- A valid repository name is not empty and stands on one line.
pub validate_repository_line :
    (name : Bytes) → validate_repository name ≡ ok tt → (name ≢ []) × Lacks 10 name
validate_repository_line name h =
    let (ne, le, m) = validate_repository-matches name h in
    (
      ne,
      All-map _ _ name (λ c p. p.2)
          (All-Lang IsNameByte repository_re name OnSets-repository_re ((matches_iff _ _).0 m)),
    )

abbrev TagParts : Bytes → Type 0
TagParts tag =
    (c : ℕ) × (rest : Bytes) × (tag ≡ c ∷ rest)
    × (in_set c word_set ≡ true)
    × (length rest ≤ 127)
    × All IsTagByte rest

tag_parts : (tag : Bytes) → matches tag_re tag ≡ true → TagParts tag
unfolding tag_re
tag_parts tag m =
    let (s, rest, e, (c, f, w), l) = (matches_iff tag_re tag).0 m in
    (
      c,
      rest,
      e ∙ ap (λ x. x ++ rest) f,
      w,
      length-up_to 127 tag_set rest l,
      All-Lang IsTagByte (up_to 127 (set tag_set)) rest
          (OnSets-up_to IsTagByte 127 (set tag_set) (λ d x. x)) l,
    )

parts_tag : (tag : Bytes) → TagParts tag → matches tag_re tag ≡ true
unfolding tag_re
parts_tag tag (c, rest, e, w, l, a) =
    (matches_iff tag_re tag).1 (c ∷ [], rest, e, (c, refl, w), Lang-up_to tag_set 127 rest l a)

-- A tag is valid exactly when it is a word byte and at most 127 tag bytes.
pub validate_tag_iff :
    (tag : Bytes)
    → (validate_tag tag ≡ ok tt) ↔ (
        (c : ℕ) × (rest : Bytes) × (tag ≡ c ∷ rest)
        × (in_set c word_set ≡ true)
        × (length rest ≤ 127)
        × All IsTagByte rest)
validate_tag_iff tag = (
  λ h. tag_parts tag ((validate_tag-matches tag).0 h),
  λ p. (validate_tag-matches tag).1 (parts_tag tag p),
)

IsTagByte-name : (c : ℕ) → IsTagByte c → IsNameByte c × (c ≢ b'/')
unfolding in_set
IsTagByte-name c h = ground arith

word-IsTagByte : (c : ℕ) → in_set c word_set ≡ true → IsTagByte c
unfolding in_set
word-IsTagByte c h = ground arith

-- A valid tag holds no '/', ':' or '@', and is not empty.
pub validate_tag-charset :
    (tag : Bytes)
    → validate_tag tag ≡ ok tt
    → (tag ≢ []) × Lacks b':' tag × Lacks b'@' tag × Lacks b'/' tag
validate_tag-charset tag h =
    let (c, rest, e, w, l, a) = (validate_tag_iff tag).0 h in
    let all : All IsTagByte tag = rw e (word-IsTagByte c w, a) in
    (
      rw e (cc),
      All-map _ _ tag (λ d p. (IsTagByte-name d p).0.0) all,
      All-map _ _ tag (λ d p. (IsTagByte-name d p).0.1) all,
      All-map _ _ tag (λ d p. (IsTagByte-name d p).1) all,
    )

-- A text with the shape of a digest holds a colon.
is_digest-colon : (s : Bytes) → is_digest s ≡ true → (x : Bytes) × (y : Bytes) × (s ≡ x ++ b':' ∷ y)
unfolding is_digest
is_digest-colon s h =
    let (a, r, e, la, (b, q, f, lb, (k, z, g, (c, d, m), lz))) =
      (matches_iff digest_shape_re s).0 h in
    (a ++ b, z, rw (e, f, g, d, in_set_one b':' c m) (sym (append_assoc a b (b':' ∷ z))))

not-Lacks-colon : (s : Bytes) → ((x : Bytes) × (y : Bytes) × (s ≡ x ++ b':' ∷ y)) → ¬ Lacks b':' s
not-Lacks-colon s (x, y, e) h =
    (All-append_right (λ c. c ≢ b':') x (b':' ∷ y) (subst (Lacks b':') e h)).0 refl

-- A valid tag never has the shape of a digest, and a valid digest always has: references are
-- routed without overlap.
pub is_digest-validate_tag : (tag : Bytes) → validate_tag tag ≡ ok tt → is_digest tag ≡ false
is_digest-validate_tag tag h = elim (Bool-cases (is_digest tag)) [
  | inl e ↦ absurd (not-Lacks-colon tag (is_digest-colon tag e) (validate_tag-charset tag h).1)
  | inr e ↦ e
]

hex-encoded : (c : ℕ) → IsHex c → in_set c encoded_set ≡ true
unfolding in_set
hex-encoded c h = ground arith

s_alnum : in_set b's' alnum ≡ true
unfolding in_set
s_alnum = refl

rest_alnum : All (λ c. in_set c alnum ≡ true) (codes "ha256")
unfolding in_set
rest_alnum = (refl, (refl, (refl, (refl, (refl, tt)))))

is_digest-sha256 :
    (h : Bytes) → length h ≡ 64 → All IsHex h → is_digest (codes "sha256:" ++ h) ≡ true
unfolding is_digest
is_digest-sha256 [] l a = absurd (omega arith)
is_digest-sha256 (c ∷ h) l (hc, a) = (matches_iff digest_shape_re _).1 (
  codes "sha256",
  b':' ∷ c ∷ h,
  refl,
  (codes "s", codes "ha256", refl, (b's', refl, s_alnum), Lang-Star alnum _ rest_alnum),
  (
    [],
    b':' ∷ c ∷ h,
    refl,
    none,
    (
      b':' ∷ [],
      c ∷ h,
      refl,
      (b':', refl, unfold in_set in refl),
      (
        c ∷ [],
        h,
        refl,
        (c, refl, hex-encoded c hc),
        Lang-Star encoded_set h (All-map _ _ h hex-encoded a),
      ),
    ),
  ),
)

pub is_digest-parse_digest : (s : Bytes) (d : Digest) → parse_digest s ≡ ok d → is_digest s ≡ true
is_digest-parse_digest s d h =
    let (same, sha) = (parse_digest_iff s d).0 h in rw sha.1 (is_digest-sha256 sha.0 sha.2 sha.3)
