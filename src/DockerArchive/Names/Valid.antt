-- ===== src/DockerArchive/Names/Valid.antt =====
-- Names are valid, and a valid name is parsed back from its text.
use oci_amber.Prelude.{
  ℕ, ◌≡◌, ◌≢◌, refl, ap, ◌∙◌, inl, inr, true, false, Bool-cases, Option, none, some, [], ◌∷◌, ◌++◌,
  take-append, drop-append, arith, if◌then◌else◌,
}
use oci_amber.Prelude.Text.{Bytes, contains_byte, cut, Lacks}
use oci_amber.Prelude.Text.Laws.{
  last_index_byte-append, Lacks-contains_byte, Lacks-append, drop_past,
}
use oci_amber.Oci.Errors.{is_ok, ok}
use oci_amber.Oci.Digest.{is_empty}
use oci_amber.Oci.Names.{validate_repository, validate_tag}
use oci_amber.Oci.Names.Charset.{validate_repository-charset, validate_tag-charset}
use oci_amber.DockerArchive.Names.{
  Name, tagged, repo_tag, name_string, latest, tag_split, split_repo_tag, checked_name, name_parts,
  ends_with, parse_name, without_host, tag_or_latest, name_from_repo_tag,
}

abbrev pub IsValidName : Name → Type 0
IsValidName n = (is_ok (validate_repository n.repo) ≡ true) × (is_ok (validate_tag n.tag) ≡ true)

checked_name-IsValidName :
    (repo tag : Bytes) (n : Name) → checked_name repo tag ≡ some n → IsValidName n
unfolding checked_name
checked_name-IsValidName repo tag n h = elim (Bool-cases (is_ok (validate_repository repo))) [
  | inr a ↦ absurd (ground arith)
  | inl a ↦ elim (Bool-cases (is_ok (validate_tag tag))) [
    | inr b ↦ absurd (ground arith)
    | inl b ↦
        let same : n ≡ record { repo = repo; tag = tag } = ground arith in
        (
          ap (λ x. is_ok (validate_repository x.repo)) same ∙ a,
          ap (λ x. is_ok (validate_tag x.tag)) same ∙ b,
        )
  ]
]

name_parts-IsValidName :
    (s : Bytes) (p : Bytes × Bytes) (n : Name) → name_parts s p ≡ some n → IsValidName n
unfolding name_parts
name_parts-IsValidName s (repo, tag) n h = elim (Bool-cases (is_empty tag)) [
  | inr a ↦ checked_name-IsValidName repo tag n (ground arith)
  | inl a ↦ elim (Bool-cases (ends_with b':' s)) [
    | inl b ↦ absurd (ground arith)
    | inr b ↦ checked_name-IsValidName repo latest n (ground arith)
  ]
]

pub parse_name-IsValidName : (s : Bytes) (n : Name) → parse_name s ≡ some n → IsValidName n
unfolding parse_name
parse_name-IsValidName s n h = elim (Bool-cases (is_empty s)) [
  | inl a ↦ absurd (ground arith)
  | inr a ↦ elim (Bool-cases (contains_byte s b'@')) [
    | inl b ↦ absurd (ground arith)
    | inr b ↦ name_parts-IsValidName s (split_repo_tag s) n (ground arith)
  ]
]

repo_tag-tagged : (o : Option Name) (n : Name) → repo_tag o ≡ tagged n → o ≡ some n
repo_tag-tagged none n h = absurd cc
repo_tag-tagged (some m) n h = cc h

tag_or_latest-IsValidName :
    (p : Bytes × Bytes) (n : Name) → tag_or_latest p ≡ some n → IsValidName n
unfolding tag_or_latest
tag_or_latest-IsValidName (repo, tag) n h =
    checked_name-IsValidName repo (if is_empty tag then latest else tag) n h

pub name_from_repo_tag-IsValidName :
    (s : Bytes) (n : Name) → name_from_repo_tag s ≡ tagged n → IsValidName n
unfolding name_from_repo_tag
name_from_repo_tag-IsValidName s n h = elim (Bool-cases (contains_byte s b'@')) [
  | inl a ↦ absurd (ground arith)
  | inr a ↦ tag_or_latest-IsValidName (split_repo_tag (without_host s (cut s b'/'))) n (
      repo_tag-tagged (tag_or_latest (split_repo_tag (without_host s (cut s b'/')))) n
        (ground arith))
]

-- The text of a name is split at the colon before its tag.
split_repo_tag-string :
    (repo tag : Bytes)
    → Lacks b':' tag
    → Lacks b'/' tag
    → split_repo_tag (repo ++ b':' ∷ tag) ≡ (repo, tag)
unfolding split_repo_tag tag_split
split_repo_tag-string repo tag c s =
    let slash = Lacks-contains_byte (b':' ∷ tag) b'/' (omega arith, s) in
    ground (
      arith,
      last_index_byte-append repo tag b':' c,
      drop-append repo (b':' ∷ tag),
      slash,
      take-append repo (b':' ∷ tag),
      drop_past repo tag b':',
    )

is_empty-append : (a s : Bytes) (c : ℕ) → is_empty (a ++ c ∷ s) ≡ false
is_empty-append [] s c = refl
is_empty-append (b ∷ a) s c = refl

is_empty-other : (s : Bytes) → s ≢ [] → is_empty s ≡ false
is_empty-other [] h = absurd (h refl)
is_empty-other (c ∷ s) h = refl

name_parts-valid :
    (s repo tag : Bytes)
    → is_empty tag ≡ false
    → validate_repository repo ≡ ok tt
    → validate_tag tag ≡ ok tt
    → name_parts s (repo, tag) ≡ some (record { repo = repo; tag = tag })
unfolding name_parts checked_name
name_parts-valid s repo tag e r t = ground (arith, e, r, t)

-- A name with a valid repository and a valid tag is parsed back from its text.
pub parse_name-name_string :
    (n : Name)
    → validate_repository n.repo ≡ ok tt
    → validate_tag n.tag ≡ ok tt
    → parse_name (name_string n) ≡ some n
unfolding parse_name name_string
parse_name-name_string n r t =
    let (rn, rl, rc, ra) = validate_repository-charset n.repo r in
    let (tn, tc, ta, ts) = validate_tag-charset n.tag t in
    let at =
      Lacks-contains_byte (n.repo ++ b':' ∷ n.tag) b'@'
        (Lacks-append b'@' n.repo (b':' ∷ n.tag) ra (omega arith, ta)) in
    ground (
      arith,
      is_empty-append n.repo n.tag b':',
      at,
      split_repo_tag-string n.repo n.tag tc ts,
      name_parts-valid (n.repo ++ b':' ∷ n.tag) n.repo n.tag (is_empty-other n.tag tn) r t,
    )
