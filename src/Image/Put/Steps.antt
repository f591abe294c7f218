-- ===== src/Image/Put/Steps.antt =====
-- The steps of a push: its checks, and the references that it publishes one by one.
use oci_amber.Prelude.{
  ◌≡◌, ◌⊎◌, refl, sym, ap, ◌∙◌, inl, inr, Bool, true, false, ◌||◌, Bool-cases, Option, none, some,
  List, arith, if◌then◌else◌,
}
use oci_amber.Prelude.Text.{Bytes, bytes_eq}
use oci_amber.Prelude.Text.Laws.{bytes_eq_refl}
use oci_amber.Oci.Names.{validate_repository}
use oci_amber.Oci.Errors.{is_ok, Result, ok, err}
use oci_amber.Oci.Digest.{Digest, is_digest, parse_digest}
use oci_amber.Oci.Manifest.{Descriptor, Manifest, parse_manifest}
use oci_amber.Store.{Key}
use oci_amber.Store.Dir.{DirEntry, Dir, finish}
use oci_amber.Store.Refs.{RefStore, RefIo, publish}
use oci_amber.Store.Refs.Laws.{RefLaws, target, target-publish, publish-kept}
use oci_amber.Image.Refs.{tag_ref, manifest_ref, referrer_ref}
use oci_amber.Image.Store.{Got, got, lost, ImageError, or_internal, ◌>>=◌}
use oci_amber.Image.Put.{
  PushIo, check_digest, check_reference, check_subject, check_put, parsed, then_publish,
  publish_tag, publish_referrer, publish_refs,
}

pub >>=-eq-got :
    {A B : Type 0} (g : Got A) (f : A → Got B) {b : B}
    → (g >>= f) ≡ got b
    → (a : A) × (g ≡ got a) × (f a ≡ got b)
>>=-eq-got (lost e) f h = absurd cc
>>=-eq-got (got a) f h = (a, refl, h)

pub lost_injective : {A : Type 0} {a b : ImageError} (g : Got A) → g ≡ lost a → g ≡ lost b → a ≡ b
lost_injective g h k = cc (h, k)

pub got_injective : {A : Type 0} {a b : A} → got a ≡ got b → a ≡ b
got_injective h = cc h

pub or_internal-eq-got : {A : Type 0} (g : Option A) {a : A} → or_internal g ≡ got a → g ≡ some a
or_internal-eq-got none h = absurd cc
or_internal-eq-got (some a) h = cc h

parsed-eq-got : {A : Type 0} (r : Result A) {a : A} → parsed r ≡ got a → r ≡ ok a
parsed-eq-got (err e) h = absurd cc
parsed-eq-got (ok a) h = cc h

pub finish-built :
    (build : List DirEntry → Option Key) (d : Dir) (root : Key)
    → (finish build d).1 ≡ some root
    → (es : List DirEntry) × (build es ≡ some root)
unfolding finish
finish-built build d root h = elim (Bool-cases d.done) [
  | inl e ↦ absurd (ground arith)
  | inr e ↦ (d.entries, ground arith)
]

-- The tag that a reference is.
abbrev pub tag_of : Bytes → Option Bytes
tag_of reference = if is_digest reference then none else some reference

check_digest-tag :
    (digest : Digest) (r : Result Digest) (tag : Option Bytes)
    → check_digest digest r ≡ got tag
    → tag ≡ none
unfolding check_digest
check_digest-tag digest (err e) tag h = absurd cc
check_digest-tag digest (ok d) tag h = ground arith

check_reference-tag :
    (repo reference : Bytes) (digest : Digest) (tag : Option Bytes)
    → check_reference repo reference digest ≡ got tag
    → tag ≡ tag_of reference
unfolding check_reference
check_reference-tag repo reference digest tag h =
    ground (arith, check_digest-tag digest (parse_digest reference) tag)

check_reference_valid :
    (repo reference : Bytes) (digest : Digest) (tag : Option Bytes)
    → check_reference repo reference digest ≡ got tag
    → is_ok (validate_repository repo) ≡ true
unfolding check_reference
check_reference_valid repo reference digest tag h =
    elim (Bool-cases (is_ok (validate_repository repo))) [
      | inl a ↦ a
      | inr a ↦ absurd (ground arith)
    ]

pub check_put_valid :
    (unmarshal : Bytes → Option Manifest) (io : PushIo) (repo reference body : Bytes)
    (digest : Digest) (p : Option Bytes × Manifest)
    → check_put unmarshal io repo reference body digest ≡ got p
    → is_ok (validate_repository repo) ≡ true
unfolding check_put
check_put_valid unmarshal io repo reference body digest p h =
    let (tag, a, h1) = >>=-eq-got (check_reference repo reference digest) _ h in
    check_reference_valid repo reference digest tag a

pub check_put-parts :
    (unmarshal : Bytes → Option Manifest) (io : PushIo) (repo reference body : Bytes)
    (digest : Digest) (tag : Option Bytes) (m : Manifest)
    → check_put unmarshal io repo reference body digest ≡ got (tag, m)
    → (tag ≡ tag_of reference) × (parse_manifest unmarshal body ≡ ok m)
unfolding check_put
check_put-parts unmarshal io repo reference body digest tag m h =
    let (tag', a, h1) = >>=-eq-got (check_reference repo reference digest) _ h in
    let (m', b, h2) = >>=-eq-got (parsed (parse_manifest unmarshal body)) _ h1 in
    let (u, c, h3) = >>=-eq-got (check_subject m'.subject) _ h2 in
    let same : (tag' ≡ tag) × (m' ≡ m) = ground arith in
    (
      sym same.0 ∙ check_reference-tag repo reference digest tag' a,
      parsed-eq-got (parse_manifest unmarshal body) (b ∙ ap got same.1),
    )

-- The names that a push publishes.
abbrev pub is_tag : Bytes → Option Bytes → Bytes → Bool
is_tag repo none n = false
is_tag repo (some tag) n = bytes_eq (tag_ref repo tag) n

abbrev pub is_referrer : Bytes → Option Descriptor → Digest → Bytes → Bool
is_referrer repo none digest n = false
is_referrer repo (some d) digest n = bytes_eq (referrer_ref repo d.digest digest) n

module _ {S : Type 0} (refs : RefStore S) where
  then_publish-true :
      (p : S × Bool) (next : S → S × Bool)
      → (then_publish p next).1 ≡ true
      → (p.1 ≡ true) × (then_publish p next ≡ next p.0)
  then_publish-true (s, false) next h = absurd cc
  then_publish-true (s, true) next h = (refl, refl)

  then_publish-false :
      (p : S × Bool) (next : S → S × Bool)
      → p.1 ≡ false
      → ((then_publish p next).1 ≡ false) × ((then_publish p next).0 ≡ p.0)
  then_publish-false (s, false) next h = (refl, refl)
  then_publish-false (s, true) next h = absurd cc

  module _ (laws : RefLaws refs) (io : RefIo) (repo : Bytes) (digest : Digest) (root : Key)
      (fresh : refs.parse root ≡ some root) where
    publish-target :
        (n m : Bytes) (s : S)
        → (publish refs io n root s).1 ≡ true
        → target refs m (publish refs io n root s).0
          ≡ (if bytes_eq n m then some root else target refs m s)
    publish-target n m s h =
        target-publish refs laws io n m root s (publish refs io n root s).0 fresh
          (ap (λ b. ((publish refs io n root s).0, b)) h)

    -- A name that points at the root still does after one more publish of the root.
    publish-stays :
        (n m : Bytes) (s : S)
        → target refs m s ≡ some root
        → target refs m (publish refs io n root s).0 ≡ some root
    publish-stays n m s h = elim (Bool-cases (publish refs io n root s).1) [
      | inl e ↦ ground (arith, publish-target n m s e)
      | inr e ↦ ap (target refs m) (publish-kept refs io n root s e) ∙ h
    ]

    publish_tag-target :
        (tag : Option Bytes) (m : Bytes) (s : S)
        → (publish_tag refs io repo tag root s).1 ≡ true
        → target refs m (publish_tag refs io repo tag root s).0
          ≡ (if is_tag repo tag m then some root else target refs m s)
    unfolding publish_tag
    publish_tag-target none m s h = refl
    publish_tag-target (some tag) m s h = publish-target (tag_ref repo tag) m s h

    publish_tag-stays :
        (tag : Option Bytes) (m : Bytes) (s : S)
        → target refs m s ≡ some root
        → target refs m (publish_tag refs io repo tag root s).0 ≡ some root
    unfolding publish_tag
    publish_tag-stays none m s h = h
    publish_tag-stays (some tag) m s h = publish-stays (tag_ref repo tag) m s h

    publish_referrer-target :
        (d : Option Descriptor) (m : Bytes) (s : S)
        → (publish_referrer refs io repo d digest root s).1 ≡ true
        → target refs m (publish_referrer refs io repo d digest root s).0
          ≡ (if is_referrer repo d digest m then some root else target refs m s)
    unfolding publish_referrer
    publish_referrer-target none m s h = refl
    publish_referrer-target (some d) m s h =
        publish-target (referrer_ref repo d.digest digest) m s h

    publish_referrer-stays :
        (d : Option Descriptor) (m : Bytes) (s : S)
        → target refs m s ≡ some root
        → target refs m (publish_referrer refs io repo d digest root s).0 ≡ some root
    unfolding publish_referrer
    publish_referrer-stays none m s h = h
    publish_referrer-stays (some d) m s h = publish-stays (referrer_ref repo d.digest digest) m s h

    then_publish-stays :
        (p : S × Bool) (next : S → S × Bool) (m : Bytes)
        → target refs m p.0 ≡ some root
        → (target refs m p.0 ≡ some root → target refs m (next p.0).0 ≡ some root)
        → target refs m (then_publish p next).0 ≡ some root
    then_publish-stays (s, false) next m h f = h
    then_publish-stays (s, true) next m h f = f h

    cascade :
        (x y z : Option Key) (a b c : Bool)
        → y ≡ (if b then some root else x)
        → x ≡ (if a then some root else z)
        → (if c then some root else y) ≡ (if a || b || c then some root else z)
    cascade x y z a b c h g = ground arith

    -- The three steps together.
    pub publish_refs-target :
        (tag : Option Bytes) (d : Option Descriptor) (m : Bytes) (s : S)
        → (publish_refs refs io repo tag d digest root s).1 ≡ true
        → target refs m (publish_refs refs io repo tag d digest root s).0 ≡ (
            if bytes_eq (manifest_ref repo digest) m
              || is_tag repo tag m
              || is_referrer repo d digest m
            then some root
            else target refs m s)
    unfolding publish_refs
    publish_refs-target tag d m s h =
        let p = publish refs io (manifest_ref repo digest) root s in
        let q = then_publish p (publish_tag refs io repo tag root) in
        let (b, e) = then_publish-true q (publish_referrer refs io repo d digest root) h in
        let (a, f) = then_publish-true p (publish_tag refs io repo tag root) b in
        let third = publish_referrer-target d m q.0 (ap (λ x. x.1) (sym e) ∙ h) in
        let second = publish_tag-target tag m p.0 (ap (λ x. x.1) (sym f) ∙ b) in
        let first = publish-target (manifest_ref repo digest) m s a in
        ap (λ x. target refs m x.0) e
        ∙ third
        ∙ cascade (target refs m p.0) (target refs m q.0) (target refs m s)
            (bytes_eq (manifest_ref repo digest) m) (is_tag repo tag m)
            (is_referrer repo d digest m) (ap (λ x. target refs m x.0) f ∙ second) first

    pub publish_refs-failed :
        (tag : Option Bytes) (d : Option Descriptor) (s : S)
        → (publish_refs refs io repo tag d digest root s).1 ≡ false
        → ((publish_refs refs io repo tag d digest root s).0 ≡ s)
          ⊎ (target refs
                (manifest_ref repo digest)
                (publish_refs refs io repo tag d digest root s).0
              ≡ some root)
    unfolding publish_refs
    publish_refs-failed tag d s h =
        elim (Bool-cases (publish refs io (manifest_ref repo digest) root s).1) [
          | inl a ↦
              let p = publish refs io (manifest_ref repo digest) root s in
              let q = then_publish p (publish_tag refs io repo tag root) in
              let here : target refs (manifest_ref repo digest) p.0 ≡ some root = ground (
                arith,
                publish-target (manifest_ref repo digest) (manifest_ref repo digest) s a,
                bytes_eq_refl (manifest_ref repo digest),
              ) in
              inr (
                then_publish-stays q (publish_referrer refs io repo d digest root)
                  (manifest_ref repo digest)
                  (then_publish-stays p (publish_tag refs io repo tag root)
                    (manifest_ref repo digest) here
                    (publish_tag-stays tag (manifest_ref repo digest) p.0))
                  (publish_referrer-stays d (manifest_ref repo digest) q.0))
          | inr a ↦
              let p = publish refs io (manifest_ref repo digest) root s in
              let q = then_publish p (publish_tag refs io repo tag root) in
              let (b, e) = then_publish-false p (publish_tag refs io repo tag root) a in
              let (c, f) = then_publish-false q (publish_referrer refs io repo d digest root) b in
              inl (f ∙ e ∙ publish-kept refs io (manifest_ref repo digest) root s a)
        ]
