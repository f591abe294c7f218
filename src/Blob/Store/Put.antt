-- ===== src/Blob/Store/Put.antt =====
-- What a Put publishes.
use oci_amber.Prelude.{
  ℕ, ◌≡◌, ◌≢◌, refl, sym, ap, ◌∙◌, subst, Bool, true, false, inl, inr, Bool-cases, Option, none,
  some, arith, if◌then◌else◌,
}
use oci_amber.Prelude.Maybe.{Option-cases, some_injective}
use oci_amber.Prelude.Text.{bytes_eq}
use oci_amber.Prelude.Text.Laws.{bytes_eq_iff}
use oci_amber.Prelude.Assoc.{lookup, insert}
use oci_amber.Oci.Digest.{Digest}
use oci_amber.Blob.Analyze.{Reason, Decision, as_prism, as_raw, analyze, refuse_raw}
use oci_amber.Blob.Store.{
  Meta, Root, Store, Opened, opened, not_found, unreadable, open_blob, record_recent, dedup_hit,
  Prism, prism_done, fell_back, prism_failed, PutIo, PutResult, put_done, put_refused, put_failed,
  new_meta, publish_root, write_root, finalize_raw, keep_raw, keep_prism, finalize_blob, put_opened,
  put_blob, exists_blob, prism_root, raw_content,
}

-- A blob that is kept raw is no tar, or the store allows it.
abbrev pub IsAllowed : Bool → Meta → Type 0
IsAllowed allow_raw m = (r : Reason) → m.raw_reason ≡ some r → refuse_raw allow_raw r ≡ false

-- What a Put of the digest `d` leaves: on success `d` is published with the meta that is returned, and
-- otherwise nothing is changed.
pub data Stores (d : Digest) (size : ℕ) (b : Store) : Store × PutResult → Type 0 where
  published :
      (c : Store) (r : Root)
      → c.published ≡ insert d r b.published
      → r.meta.digest ≡ d
      → r.meta.size ≡ size
      → IsAllowed b.allow_raw r.meta
      → Stores d size b (c, put_done r.meta)
  already :
      (c : Store) (m : Meta)
      → c.published ≡ b.published
      → exists_blob d b ≡ true
      → m.digest ≡ d
      → Stores d size b (c, put_done m)
  unchanged :
      (result : PutResult) → ((m : Meta) → result ≢ put_done m) → Stores d size b (b, result)

Stores-if :
    {d : Digest} {size : ℕ} {b : Store} {x y : Store × PutResult} (c : Bool)
    → Stores d size b x
    → Stores d size b y
    → Stores d size b (if c then x else y)
Stores-if true p q = p
Stores-if false p q = q

write_root-Stores :
    (io : PutIo) (d : Digest) (size : ℕ) (r : Root) (b : Store)
    → r.meta.digest ≡ d
    → r.meta.size ≡ size
    → IsAllowed b.allow_raw r.meta
    → Stores d size b (write_root io d r b)
unfolding write_root publish_root record_recent
write_root-Stores io d size r b e s a = elim (Bool-cases io.root_ok) [
  | inr n ↦ rw n (unchanged put_failed (λ m. cc))
  | inl y ↦ rw y (elim (Bool-cases io.publish_ok) [
    | inr n ↦ rw n (unchanged put_failed (λ m. cc))
    | inl z ↦ rw z (published _ r refl e s a)
  ])
]

keep_raw-Stores :
    (io : PutIo) (m : Meta) (reason : Reason) (b : Store)
    → Stores m.digest m.size b (keep_raw io m reason b)
unfolding keep_raw finalize_raw
keep_raw-Stores io m reason b = elim (Bool-cases (refuse_raw b.allow_raw reason)) [
  | inl y ↦ rw y (unchanged (put_refused reason) (λ n. cc))
  | inr y ↦
      rw y
        (elim io.raw
          as (λ o. Stores m.digest m.size b (elim o as (λ _. Store × PutResult) [
            | none ↦ (b, put_failed)
            | some (k, s) ↦
                write_root io m.digest
                  (record {
                    meta = record m { raw_reason = some reason; stats = s };
                    content = raw_content k;
                  })
                  b
          ])) [
            | none ↦ unchanged put_failed (λ n. cc)
            | some (k, s) ↦
                write_root-Stores io m.digest m.size
                  (record {
                    meta = record m { raw_reason = some reason; stats = s };
                    content = raw_content k;
                  })
                  b refl refl
                  (λ r e. subst (λ x. refuse_raw b.allow_raw x ≡ false) (some_injective e) y)
          ])
]

keep_prism-Stores :
    (io : PutIo) (m : Meta) (p : Prism) (b : Store)
    → m.raw_reason ≡ none
    → Stores m.digest m.size b (keep_prism io m p b)
unfolding keep_prism
keep_prism-Stores io m (prism_done p) b n =
    write_root-Stores io m.digest m.size (prism_root m p) b refl refl (λ r e. cc (n, e))
keep_prism-Stores io m (fell_back reason) b n = keep_raw-Stores io m reason b
keep_prism-Stores io m prism_failed b n = unchanged put_failed (λ k. cc)

finalize_blob-Stores :
    (io : PutIo) (d : Digest) (size : ℕ) (o : Option Decision) (b : Store)
    → Stores d size b (finalize_blob io d size o b)
unfolding finalize_blob
finalize_blob-Stores io d size none b = unchanged put_failed (λ m. cc)
finalize_blob-Stores io d size (some (as_prism f)) b =
    keep_prism-Stores io (new_meta d size f) io.prism b refl
finalize_blob-Stores io d size (some (as_raw reason f)) b =
    keep_raw-Stores io (new_meta d size f) reason b

open_blob-opened :
    (read_ok : Bool) (d : Digest) (b : Store) (m : Meta)
    → open_blob read_ok d b ≡ opened m
    → (exists_blob d b ≡ true) × (m.digest ≡ d)
unfolding open_blob
open_blob-opened read_ok d b m h = elim (Option-cases (lookup d b.published)) [
  | inl e ↦ absurd (ground arith)
  | inr (r, e) ↦
      (let eq : bytes_eq r.meta.digest d ≡ true = ground arith in
        let same : opened r.meta ≡ opened m = ground arith in
        let meta : r.meta ≡ m =
          ap (λ o. elim o [ opened x ↦ x | not_found ↦ m | unreadable ↦ m ]) same in
        (ground arith, ap (λ x. x.digest) (sym meta) ∙ (bytes_eq_iff r.meta.digest d).0 eq))
]

put_opened-Stores :
    (io : PutIo) (d : Digest) (size : ℕ) (b : Store) (o : Opened)
    → open_blob io.read_ok d b ≡ o
    → Stores d size b (put_opened io d size b o)
unfolding put_opened dedup_hit record_recent
put_opened-Stores io d size b (opened m) e =
    let (there, same) = open_blob-opened io.read_ok d b m e in already _ _ refl there same
put_opened-Stores io d size b unreadable e = unchanged put_failed (λ m. cc)
put_opened-Stores io d size b not_found e = elim (Bool-cases io.slot) [
  | inr n ↦ rw n (unchanged put_failed (λ m. cc))
  | inl y ↦ rw y (finalize_blob-Stores io d size (analyze io.probe) b)
]

-- Whatever happens on the way of a Put, it either publishes the digest of the spool, and no other,
-- with a meta of that digest and size, which it returns, and which is raw only for a reason that the
-- store allows; or it finds the digest published and changes no blob; or it reports a refusal or a
-- failure and leaves the store exactly as it was.
pub put_blob-Stores :
    (io : PutIo) (d : Digest) (size : ℕ) (b : Store) → Stores d size b (put_blob io d size b)
unfolding put_blob
put_blob-Stores io d size b = Stores-if b.read_only (unchanged put_failed (λ m. cc)) (
    Stores-if io.over (unchanged put_failed (λ m. cc))
      (put_opened-Stores io d size b (open_blob io.read_ok d b) refl))
