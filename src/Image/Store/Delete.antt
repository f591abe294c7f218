-- ===== src/Image/Store/Delete.antt =====
-- What each step of deleting an image leaves of the references.
use oci_amber.Prelude.{
  ◌≡◌, ◌⊎◌, refl, sym, ◌∙◌, subst, inl, inr, true, false, Bool-cases, Option, none, some, List, [],
  ◌∷◌, arith,
}
use oci_amber.Prelude.Maybe.{Option-cases}
use oci_amber.Prelude.Text.{Bytes, bytes_eq}
use oci_amber.Prelude.Text.Laws.{bytes_eq_refl, bytes_eq_iff}
use oci_amber.Oci.Digest.{Digest}
use oci_amber.Oci.Manifest.{Descriptor}
use oci_amber.Prelude.Sort.{Has}
use oci_amber.Store.{Key}
use oci_amber.Store.Refs.{Ref, RefStore, RefIo, delete_ref}
use oci_amber.Store.Refs.Laws.{RefLaws, target}
use oci_amber.Image.Refs.{referrer_ref}
use oci_amber.Image.Store.{
  Objects, ImageError, same_image, delete_known, delete_named, delete_tag, delete_tags,
  delete_referrer, then_delete,
}

module _ (o : Objects) {S : Type 0} (refs : RefStore S) (laws : RefLaws refs) where
  -- Every reference of `t` is one of `s`.
  abbrev pub Fewer : S → S → Type 0
  Fewer s t = (n : Bytes) (k : Key) → target refs n t ≡ some k → target refs n s ≡ some k

  pub delete_known-Fewer : (io : RefIo) (n : Bytes) (s : S) → Fewer s (delete_known o refs io n s).0
  unfolding delete_known delete_ref target
  delete_known-Fewer io n s m k h = ground (arith, laws.get-delete n m s)

  pub delete_known-gone :
      (io : RefIo) (n : Bytes) (s : S)
      → (delete_known o refs io n s).1 ≡ none
      → target refs n (delete_known o refs io n s).0 ≡ none
  unfolding delete_known delete_ref target
  delete_known-gone io n s h = ground (arith, laws.get-delete n n s, bytes_eq_refl n)

  pub delete_known-other :
      (io : RefIo) (n m : Bytes) (s : S)
      → bytes_eq n m ≡ false
      → target refs m (delete_known o refs io n s).0 ≡ target refs m s
  unfolding delete_known delete_ref target
  delete_known-other io n m s h = ground (arith, laws.get-delete n m s)

  pub delete_named-Fewer : (io : RefIo) (n : Bytes) (s : S) → Fewer s (delete_named o refs io n s).0
  unfolding delete_named delete_ref target
  delete_named-Fewer io n s m k h = ground (arith, laws.get-delete n m s)

  pub delete_named-gone :
      (io : RefIo) (n : Bytes) (s : S)
      → (delete_named o refs io n s).1 ≡ none
      → target refs n (delete_named o refs io n s).0 ≡ none
  unfolding delete_named delete_ref target
  delete_named-gone io n s h = ground (arith, laws.get-delete n n s, bytes_eq_refl n)

  pub delete_named-other :
      (io : RefIo) (n m : Bytes) (s : S)
      → bytes_eq n m ≡ false
      → target refs m (delete_named o refs io n s).0 ≡ target refs m s
  unfolding delete_named delete_ref target
  delete_named-other io n m s h = ground (arith, laws.get-delete n m s)

  then_delete-Fewer :
      (s : S) (p : S × Option ImageError) (next : S → S × Option ImageError)
      → Fewer s p.0
      → ((t : S) → Fewer t (next t).0)
      → Fewer s (then_delete p next).0
  then_delete-Fewer s (t, none) next h k n a e = h n a (k t n a e)
  then_delete-Fewer s (t, some x) next h k n a e = h n a e

  -- Without an error both operations were without one.
  pub then_delete-none :
      (p : S × Option ImageError) (next : S → S × Option ImageError)
      → (then_delete p next).1 ≡ none
      → (p.1 ≡ none) × (then_delete p next ≡ next p.0)
  then_delete-none (t, none) next h = (refl, refl)
  then_delete-none (t, some x) next h = cc

  -- A name that both operations leave alone.
  then_delete-other :
      (s : S) (p : S × Option ImageError) (next : S → S × Option ImageError) (n : Bytes)
      → target refs n p.0 ≡ target refs n s
      → ((t : S) → target refs n (next t).0 ≡ target refs n t)
      → target refs n (then_delete p next).0 ≡ target refs n s
  then_delete-other s (t, none) next n h k = k t ∙ h
  then_delete-other s (t, some x) next n h k = h

  pub none-stays :
      (s t : S) (n : Bytes) → Fewer s t → target refs n s ≡ none → target refs n t ≡ none
  none-stays s t n h e = elim (Option-cases (target refs n t)) [
    | inl a ↦ a
    | inr (k, a) ↦ absurd (cc (h n k a, e))
  ]

  -- The loop over the tags.
  module _ (io : RefIo) (root : Key) (d : Digest) where
    abbrev pub Other : Key → Type 0
    Other k = same_image o root d k ≡ some false

    abbrev tag_gone : Ref → S → S × Option ImageError
    tag_gone r s = delete_tag o refs io root d r s

    delete_tag-Fewer : (r : Ref) (s : S) → Fewer s (tag_gone r s).0
    unfolding delete_tag
    delete_tag-Fewer r s n k h = ground (arith, delete_known-Fewer io r.name s n k)

    delete_tag-gone :
        (r : Ref) (s : S)
        → (tag_gone r s).1 ≡ none
        → (target refs r.name (tag_gone r s).0 ≡ none) ⊎ Other r.key
    unfolding delete_tag
    delete_tag-gone r s h = elim (Option-cases (same_image o root d r.key)) [
      | inl e ↦ absurd (ground arith)
      | inr (true, e) ↦ inl (ground (arith, delete_known-gone io r.name s))
      | inr (false, e) ↦ inr e
    ]

    delete_tag-Other :
        (r : Ref) (s : S) (n : Bytes)
        → (r.name ≡ n → Other r.key)
        → target refs n (tag_gone r s).0 ≡ target refs n s
    unfolding delete_tag
    delete_tag-Other r s n h = elim (Bool-cases (bytes_eq r.name n)) [
      | inl e ↦ ground (arith, h ((bytes_eq_iff r.name n).0 e))
      | inr e ↦ ground (arith, delete_known-other io r.name n s e)
    ]

    pub delete_tags-Fewer : (rs : List Ref) (s : S) → Fewer s (delete_tags o refs io root d rs s).0
    unfolding delete_tags
    delete_tags-Fewer [] s = λ n k h. h
    delete_tags-Fewer (r ∷ rs) s =
        then_delete-Fewer s (tag_gone r s) (delete_tags o refs io root d rs) (delete_tag-Fewer r s)
          (delete_tags-Fewer rs)

    pub delete_tags-gone :
        (rs : List Ref) (s : S) (r : Ref)
        → (delete_tags o refs io root d rs s).1 ≡ none
        → Has r rs
        → (target refs r.name (delete_tags o refs io root d rs s).0 ≡ none) ⊎ Other r.key
    unfolding delete_tags
    delete_tags-gone [] s r h m = absurd m
    delete_tags-gone (q ∷ rs) s r h m =
        let rest = delete_tags o refs io root d rs in
        let ih = delete_tags-gone rs in
        let (a, b) = then_delete-none (tag_gone q s) rest h in
        let back = λ (e : target refs r.name (rest (tag_gone q s).0).0 ≡ none).
          subst (λ p. target refs r.name p.0 ≡ none) (sym b) e in
        elim m [
          | inl e ↦ elim (delete_tag-gone q s a) [
            | inl g ↦ inl (
                back (
                  none-stays (tag_gone q s).0 (rest (tag_gone q s).0).0 r.name
                    (delete_tags-Fewer rs (tag_gone q s).0)
                    (subst (λ x. target refs x.name (tag_gone q s).0 ≡ none) e g)))
            | inr g ↦ inr (subst (λ x. Other x.key) e g)
          ]
          | inr e ↦ elim (ih (tag_gone q s).0 r (subst (λ p. p.1 ≡ none) b h) e) [
            | inl g ↦ inl (back g)
            | inr g ↦ inr g
          ]
        ]

    pub delete_tags-Other :
        (rs : List Ref) (s : S) (n : Bytes)
        → ((r : Ref) → Has r rs → r.name ≡ n → Other r.key)
        → target refs n (delete_tags o refs io root d rs s).0 ≡ target refs n s
    unfolding delete_tags
    delete_tags-Other [] s n h = refl
    delete_tags-Other (q ∷ rs) s n h =
        then_delete-other s (tag_gone q s) (delete_tags o refs io root d rs) n
          (delete_tag-Other q s n (h q (inl refl)))
          (λ t. delete_tags-Other rs t n (λ r m. h r (inr m)))

  pub delete_referrer-Fewer :
      (io : RefIo) (repo : Bytes) (d : Digest) (subject : Option Descriptor) (s : S)
      → Fewer s (delete_referrer o refs io repo d subject s).0
  unfolding delete_referrer
  delete_referrer-Fewer io repo d none s = λ n k h. h
  delete_referrer-Fewer io repo d (some subject) s =
      delete_known-Fewer io (referrer_ref repo subject.digest d) s
