-- ===== src/Oci/Manifest/Laws.antt =====
-- What a manifest that ParseManifest accepts guarantees, and the text of platforms.
use oci_amber.Prelude.{
  ◌≡◌, ◌≢◌, ◌↔◌, append_assoc, if◌then◌else◌, refl, sym, ap, ◌∙◌, subst, true, false, Option, none,
  some, List, [], ◌∷◌, ◌++◌, All, arith, inl, inr, Bool-cases,
}
use oci_amber.Prelude.Maybe.{some_injective}
use oci_amber.Prelude.Int.{ℤ, pos, negsuc, is_negative}
use oci_amber.Prelude.Text.{Bytes, Lacks}
use oci_amber.Prelude.Split.{split, split-append, split-Lacks, join, join-split}
use oci_amber.Oci.Digest.{parse_digest, is_empty}
use oci_amber.Oci.Digest.Shape.{parse_digest_iff}
use oci_amber.Oci.Errors.{ok, err, new_error, manifest_invalid}
use oci_amber.Oci.Manifest.{
  Descriptor, Platform, Manifest, platform_string, parse_platform, any_empty, platform_of,
  validate_descriptor, validate_optional, validate_all, check_manifest, validate_manifest, elements,
  is_version_2, parse_manifest, effective_media_type, blob_descriptors,
}

-- A digest that parses and a size that is not negative.
abbrev pub IsSound : Descriptor → Type 0
IsSound d = (parse_digest d.digest ≡ ok d.digest) × (is_negative d.size ≡ false)

pub record IsAccepted (m : Manifest) : Type 0 where
  pub version : m.schema_version ≡ pos 2
  pub config : (d : Descriptor) → m.config ≡ some d → IsSound d
  pub layers : All IsSound m.layers
  pub manifests : All IsSound (elements m.manifests)
  pub subject : (d : Descriptor) → m.subject ≡ some d → IsSound d

validate_descriptor_iff : (d : Descriptor) → (validate_descriptor d ≡ ok tt) ↔ IsSound d
unfolding validate_descriptor
validate_descriptor_iff d =
    elim (parse_digest d.digest)
        as (λ r. (parse_digest d.digest ≡ r) → (validate_descriptor d ≡ ok tt) ↔ IsSound d) [
          | err e ↦ λ h. (ground (arith, h), λ s. absurd (cc (h, s.0)))
          | ok p ↦
              λ h. (ground (arith, h, ((parse_digest_iff d.digest p).0 h).0), ground (arith, h))
        ]
      refl

validate_optional_iff :
    (o : Option Descriptor)
    → (validate_optional o ≡ ok tt) ↔ ((d : Descriptor) → o ≡ some d → IsSound d)
unfolding validate_optional
validate_optional_iff none = (λ h d e. cc, λ h. refl)
validate_optional_iff (some d) = (
  λ h e s.
      subst IsSound (ap (λ o. elim o [ none ↦ d | some x ↦ x ]) s)
        ((validate_descriptor_iff d).0 h),
  λ h. (validate_descriptor_iff d).1 (h d refl),
)

validate_all_iff : (ds : List Descriptor) → (validate_all ds ≡ ok tt) ↔ All IsSound ds
unfolding validate_all
validate_all_iff [] = (λ h. tt, λ h. refl)
validate_all_iff (d ∷ ds) = (
  λ h. ((validate_descriptor_iff d).0 (ground arith), (validate_all_iff ds).0 (ground arith)),
  λ (s, r). rw ((validate_descriptor_iff d).1 s) ((validate_all_iff ds).1 r),
)

validate_manifest_iff :
    (m : Manifest)
    → (validate_manifest m ≡ ok tt) ↔ (
        (validate_optional m.config ≡ ok tt)
        × (validate_all m.layers ≡ ok tt)
        × (validate_all (elements m.manifests) ≡ ok tt)
        × (validate_optional m.subject ≡ ok tt))
unfolding validate_manifest
validate_manifest_iff m = (λ h. ground arith, λ h. ground arith)

validate_manifest-IsAccepted :
    (m : Manifest) → m.schema_version ≡ pos 2 → validate_manifest m ≡ ok tt → IsAccepted m
validate_manifest-IsAccepted m v h =
    let (c, l, s, t) = (validate_manifest_iff m).0 h in
    record {
      version = v;
      config = (validate_optional_iff m.config).0 c;
      layers = (validate_all_iff m.layers).0 l;
      manifests = (validate_all_iff (elements m.manifests)).0 s;
      subject = (validate_optional_iff m.subject).0 t;
    }

IsAccepted-validate_manifest : (m : Manifest) → IsAccepted m → validate_manifest m ≡ ok tt
IsAccepted-validate_manifest m k = (validate_manifest_iff m).1 (
  (validate_optional_iff m.config).1 k.config,
  (validate_all_iff m.layers).1 k.layers,
  (validate_all_iff (elements m.manifests)).1 k.manifests,
  (validate_optional_iff m.subject).1 k.subject,
)

is_version_2_iff : (v : ℤ) → (is_version_2 v ≡ true) ↔ (v ≡ pos 2)
unfolding is_version_2
is_version_2_iff (pos n) = (λ h. ap pos (ground arith), λ h. ground arith)
is_version_2_iff (negsuc n) = (λ h. cc, λ h. cc)

check_manifest-eq :
    (n m : Manifest)
    → check_manifest n ≡ ok m
    → (n ≡ m) × (n.schema_version ≡ pos 2) × (validate_manifest n ≡ ok tt)
unfolding check_manifest
check_manifest-eq n m h = ground (arith, (is_version_2_iff n.schema_version).0)

check_manifest-IsAccepted : (m : Manifest) → IsAccepted m → check_manifest m ≡ ok m
unfolding check_manifest
check_manifest-IsAccepted m k =
    ground
      (arith, (is_version_2_iff m.schema_version).1 k.version, IsAccepted-validate_manifest m k)

-- ParseManifest accepts a body exactly when it decodes to a manifest of schema version 2 in which
-- every descriptor, of the config, the layers, the manifests and the subject, has a valid digest and
-- a size that is not negative. It returns that manifest.
pub parse_manifest_iff :
    (unmarshal : Bytes → Option Manifest) (body : Bytes) (m : Manifest)
    → (parse_manifest unmarshal body ≡ ok m) ↔ ((unmarshal body ≡ some m) × IsAccepted m)
unfolding parse_manifest
parse_manifest_iff unmarshal body m =
    elim (unmarshal body)
      as (λ o.
        (elim o [ none ↦ err (new_error manifest_invalid) | some n ↦ check_manifest n ] ≡ ok m)
        ↔ ((o ≡ some m) × IsAccepted m)) [
          | none ↦ (λ h. cc, λ h. cc)
          | some n ↦ (
            λ h.
                let (e, v, k) = check_manifest-eq n m h in
                (ap some e, subst IsAccepted e (validate_manifest-IsAccepted n v k)),
            λ (e, k).
                subst (λ x. check_manifest x ≡ ok m) {x = m} {y = n} (sym (some_injective e))
                  (check_manifest-IsAccepted m k),
          )
        ]

split_platform :
    (p : Platform)
    → Lacks b'/' p.os
    → Lacks b'/' p.architecture
    → Lacks b'/' p.variant
    → split (platform_string p) b'/' ≡ (
        if is_empty p.variant
        then p.os ∷ p.architecture ∷ []
        else p.os ∷ p.architecture ∷ p.variant ∷ [])
unfolding platform_string
split_platform p lo la lv = elim (Bool-cases (is_empty p.variant)) [
  | inl e ↦ rw e (
      split-append p.os p.architecture b'/' lo
      ∙ ap (λ x. p.os ∷ x) (split-Lacks p.architecture b'/' la))
  | inr e ↦ rw e (
      ap (λ x. split x b'/') (append_assoc p.os (b'/' ∷ p.architecture) (b'/' ∷ p.variant))
      ∙ split-append p.os (p.architecture ++ b'/' ∷ p.variant) b'/' lo
      ∙ ap (λ x. p.os ∷ x)
          (split-append p.architecture p.variant b'/' la
            ∙ ap (λ x. p.architecture ∷ x) (split-Lacks p.variant b'/' lv)))
]

is_empty-nil : (v : Bytes) → is_empty v ≡ true → v ≡ []
is_empty-nil [] h = refl
is_empty-nil (c ∷ v) h = cc

is_empty-ne : (v : Bytes) → v ≢ [] → is_empty v ≡ false
is_empty-ne [] n = absurd (n refl)
is_empty-ne (c ∷ v) n = refl

-- The text of a platform whose parts have no '/', and are not empty but for the variant, parses to
-- that platform.
pub parse_platform-platform_string :
    (p : Platform)
    → p.os ≢ []
    → p.architecture ≢ []
    → Lacks b'/' p.os
    → Lacks b'/' p.architecture
    → Lacks b'/' p.variant
    → parse_platform (platform_string p) ≡ some p
unfolding parse_platform any_empty platform_of
parse_platform-platform_string p o a lo la lv = elim (Bool-cases (is_empty p.variant)) [
  | inl e ↦ rw (split_platform p lo la lv) (
      rw (e, is_empty-ne p.os o, is_empty-ne p.architecture a)
        (ap (λ v. some (record p { variant = v })) (sym (is_empty-nil p.variant e))))
  | inr e ↦
      rw (split_platform p lo la lv)
        (rw (e, is_empty-ne p.os o, is_empty-ne p.architecture a) (rw e refl))
]

platform_of-string :
    (ps : List Bytes) (p : Platform)
    → any_empty ps ≡ false
    → platform_of ps ≡ some p
    → platform_string p ≡ join ps b'/'
unfolding platform_of platform_string any_empty join
platform_of-string [] p n h = cc
platform_of-string (a ∷ []) p n h = cc
platform_of-string (a ∷ b ∷ []) p n h =
    subst (λ q. platform_string q ≡ a ++ b'/' ∷ b) (some_injective h) refl
platform_of-string (a ∷ b ∷ c ∷ []) p n h =
    subst (λ q. platform_string q ≡ a ++ b'/' ∷ (b ++ b'/' ∷ c)) (some_injective h)
      (let e : is_empty c ≡ false = ground arith in rw e (append_assoc a (b'/' ∷ b) (b'/' ∷ c)))
platform_of-string (a ∷ b ∷ c ∷ d ∷ ps) p n h = cc

-- Whatever parses as a platform is the text of that platform.
pub platform_string-parse_platform :
    (s : Bytes) (p : Platform) → parse_platform s ≡ some p → platform_string p ≡ s
unfolding parse_platform
platform_string-parse_platform s p h =
    platform_of-string (split s b'/') p (ground arith) (ground arith) ∙ join-split s b'/'

-- A manifest always has a media type to be served under.
pub effective_media_type-ne :
    (content_type : Bytes) (m : Manifest) → effective_media_type content_type m ≢ []
unfolding effective_media_type
effective_media_type-ne content_type m = ground arith

-- The blobs of an accepted manifest all have valid digests and sizes; an index has none.
pub blob_descriptors-IsSound : (m : Manifest) → IsAccepted m → All IsSound (blob_descriptors m)
unfolding blob_descriptors
blob_descriptors-IsSound m k =
    elim m.config as (λ o. m.config ≡ o → All IsSound (blob_descriptors m)) [
      | none ↦ λ e. ground (arith, e, k.layers)
      | some d ↦ λ e. ground (arith, e, k.layers, k.config d e)
    ]
      refl
