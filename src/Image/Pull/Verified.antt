-- ===== src/Image/Pull/Verified.antt =====
-- What a stream of a manifest ends with.
use oci_amber.Prelude.{
  ℕ, zero, suc, ◌+◌, ◌<◌, ◌≡◌, ◌≢◌, refl, sym, ap, ◌∙◌, subst, inl, inr, true, false, Bool-cases,
  Option, none, some, [], ◌∷◌, ◌++◌, length, arith, append_assoc, append-nil, length-append,
}
use oci_amber.Prelude.Maybe.{Option-cases}
use oci_amber.Prelude.Text.{Bytes, bytes_eq}
use oci_amber.Prelude.Text.Laws.{bytes_eq_iff, bytes_eq_refl}
use oci_amber.Oci.Digest.{Digest, digest_of_bytes}
use oci_amber.Store.Reader.{Reader, Stop, eof, failed, new_reader, read}
use oci_amber.Store.Reader.Content.{File, Left, new_reader-Left}
use oci_amber.Store.Reader.Content.Refines.{read-Reads}
use oci_amber.Blob.Pull.{Pulled, sent, broken_off}
use oci_amber.Blob.Pull.Slice.{length_pos}
use oci_amber.Image.Store.{Image}
use oci_amber.Image.Pull.{
  Stream, image_buffer, hashed, image_step, image_part, image_loop, write_image,
}

module _ (p : Stream) (digest : Digest) where
  -- A stream that ends without an error has written bytes of the digest.
  abbrev Verified : Option Pulled → Type 0
  Verified o =
      (q : Pulled) → o ≡ some q → q.error ≡ none → digest_of_bytes p.sha256 q.written ≡ digest

  hashed-Verified : (out : Bytes) → Verified (some (hashed p digest out))
  unfolding hashed
  hashed-Verified out q h e = elim (Bool-cases (bytes_eq (digest_of_bytes p.sha256 out) digest)) [
    | inl t ↦
        let same : sent out ≡ q = ground arith in
        ap (λ x. digest_of_bytes p.sha256 x) (ap (λ x. x.written) (sym same))
        ∙ (bytes_eq_iff (digest_of_bytes p.sha256 out) digest).0 t
    | inr t ↦ absurd (ground arith)
  ]

  broken_off-Verified : (out : Bytes) → Verified (some (broken_off out))
  broken_off-Verified out q h e = absurd (ground arith)

  image_step-Verified :
      (rest : Bytes → Option Pulled) (out : Bytes) (e : Option Stop)
      → ((o : Bytes) → Verified (rest o))
      → Verified (image_step p digest rest out e)
  unfolding image_step
  image_step-Verified rest out none v = v out
  image_step-Verified rest out (some eof) v = hashed-Verified out
  image_step-Verified rest out (some failed) v = broken_off-Verified out

  image_part-Verified :
      (rest : Bytes → Option Pulled) (out q : Bytes) (e : Option Stop)
      → ((o : Bytes) → Verified (rest o))
      → Verified (image_part p digest rest out q e)
  unfolding image_part
  image_part-Verified rest out [] e v = image_step-Verified rest out e v
  image_part-Verified rest out (c ∷ q) e v = elim (Bool-cases (p.takes out (c ∷ q))) [
    | inl t ↦ rw t (image_step-Verified rest (out ++ c ∷ q) e v)
    | inr t ↦ rw t (broken_off-Verified out)
  ]

  image_loop-stopped :
      (f g : ℕ) (out : Bytes) (r : Reader)
      → p.live out ≡ false
      → image_loop p digest f (suc g) out r ≡ some (broken_off out)
  unfolding image_loop
  image_loop-stopped f g out r t = ground arith

  image_loop-part :
      (f g : ℕ) (out : Bytes) (r : Reader)
      → p.live out ≡ true
      → (r' : Reader) (q : Bytes) (e : Option Stop)
      → read p.keys p.get p.decode f image_buffer r ≡ some (r', q, e)
      → image_loop p digest f (suc g) out r
        ≡ image_part p digest (λ o. image_loop p digest f g o r') out q e
  unfolding image_loop
  image_loop-part f g out r t r' q e s = ground arith

  image_loop-Verified :
      (f g : ℕ) (out : Bytes) (r : Reader) → Verified (image_loop p digest f g out r)
  unfolding image_loop
  image_loop-Verified f zero out r = λ q h e. absurd (ground arith)
  image_loop-Verified f (suc g) out r = elim (Bool-cases (p.live out)) [
    | inr t ↦ subst Verified (sym (image_loop-stopped f g out r t)) (broken_off-Verified out)
    | inl t ↦ elim (Option-cases (read p.keys p.get p.decode f image_buffer r)) [
      | inl n ↦ λ q h e. absurd (ground arith)
      | inr ((r', q, e), s) ↦ subst Verified (sym (image_loop-part f g out r t r' q e s)) (
          image_part-Verified (λ o. image_loop p digest f g o r') out q e
            (λ o. image_loop-Verified f g o r'))
    ]
  ]

-- A manifest that is streamed without an error has the digest of its meta.json, whatever the store
-- below gave.
pub write_image_verified :
    (p : Stream) (f g : ℕ) (im : Image) (q : Pulled)
    → write_image p f g im ≡ some q
    → q.error ≡ none
    → digest_of_bytes p.sha256 q.written ≡ im.meta.digest
unfolding write_image
write_image_verified p f g im = image_loop-Verified p im.meta.digest f g [] (new_reader im.manifest)

module _ (p : Stream) (digest : Digest) (all : (out q : Bytes) → p.takes out q ≡ true)
    (live : (out : Bytes) → p.live out ≡ true) where
  image_part-more :
      (rest : Bytes → Option Pulled) (out q : Bytes)
      → q ≢ []
      → image_part p digest rest out q none ≡ rest (out ++ q)
  unfolding image_part image_step
  image_part-more rest out [] h = absurd (h refl)
  image_part-more rest out (c ∷ q) h = rw (all out (c ∷ q)) refl

  image_loop-whole :
      (f g : ℕ) (out : Bytes) (r : Reader) (d : Bytes)
      → length d < g
      → Left p.keys p.get p.decode d f r
      → image_loop p digest f g out r ≡ some (hashed p digest (out ++ d))
  unfolding image_loop image_part image_step
  image_loop-whole f zero out r d h v = absurd (omega arith)
  image_loop-whole f (suc g) out r d h v =
      elim (read-Reads p.keys p.get p.decode f image_buffer r d (omega arith) v) [
        | inl (r', q, e, eq, ne, le, s, v') ↦
            let rest : Bytes → Option Pulled = λ o. image_loop p digest f g o r' in
            let step : image_loop p digest f (suc g) out r ≡ image_part p digest rest out q none =
              ground (arith, eq, live out) in
            step
            ∙ image_part-more rest out q ne
            ∙ (image_loop-whole f g (out ++ q) r' e
                  (omega (arith, ap length s, length-append q e, length_pos q ne)) v'
                ∙ ap (λ x. some (hashed p digest x))
                    (append_assoc out q e ∙ ap (λ x. out ++ x) (sym s)))
        | inr (r', eq, s) ↦ ground (arith, eq, live out, s, append-nil out)
      ]

-- A manifest whose file holds `d`, of the digest in its meta.json, is streamed whole to a client that
-- takes every write, whatever the chunks and the index nodes of the file are.
pub write_image-whole :
    (p : Stream) (f n : ℕ) (im : Image) (d : Bytes)
    → ((out q : Bytes) → p.takes out q ≡ true)
    → ((out : Bytes) → p.live out ≡ true)
    → File p.keys p.get p.decode im.manifest d n
    → n + 1 < f
    → digest_of_bytes p.sha256 d ≡ im.meta.digest
    → write_image p f (length d + 1) im ≡ some (sent d)
unfolding write_image hashed
write_image-whole p f n im d all live file h s =
    let done =
      image_loop-whole p im.meta.digest all live f (length d + 1) [] (new_reader im.manifest) d
        (omega arith) (new_reader-Left p.keys p.get p.decode im.manifest d n f file h) in
    ground (arith, done, s, bytes_eq_refl im.meta.digest)
