-- ===== src/Blob/Pull/Slice.antt =====
-- A range of a raw blob is that part of its content.
use oci_amber.Prelude.{
  ℕ, zero, suc, ◌+◌, ◌-◌, ◌<◌, ◌≤◌, ◌≡◌, ◌≢◌, refl, sym, ap, ◌∙◌, inl, inr, Bool, true, Option,
  none, some, List, [], ◌∷◌, ◌++◌, length, take, drop, arith, append_assoc, append-nil,
  length-append, length-drop, min,
}
use oci_amber.Prelude.Text.{Bytes}
use oci_amber.Store.{Key, Keys}
use oci_amber.Store.Reader.{Reader, new_reader}
use oci_amber.Store.Reader.Content.{File, Left, new_reader-Left}
use oci_amber.Store.Reader.Content.Refines.{read-Reads, skip-Skips}
use oci_amber.Blob.Store.{Root, raw_content}
use oci_amber.Blob.Pull.{
  Pulled, sent, supports_range, copied, copy_n, copy_from, write_range, copy_buffer,
}

take-past : (n : ℕ) (p e : Bytes) → length p ≤ n → take n (p ++ e) ≡ p ++ take (n - length p) e
take-past n [] e h = ap (λ i. take i e) (omega arith)
take-past zero (x ∷ p) e h = absurd (omega arith)
take-past (suc n) (x ∷ p) e h =
    ap (λ l. x ∷ l) (take-past n p e (omega arith)) ∙ ap (λ i. x ∷ (p ++ take i e)) (omega arith)

pub length_pos : (p : Bytes) → p ≢ [] → 0 < length p
length_pos [] h = absurd (h refl)
length_pos (c ∷ p) h = omega arith

module _ (keys : Keys) (get : Key → Option Bytes) (decode : Bytes → Option (List Key))
    (takes : Bytes → Bytes → Bool) (all : (out p : Bytes) → takes out p ≡ true) where
  copied-more :
      (rest : Bytes → Option Pulled) (out p : Bytes)
      → p ≢ []
      → copied keys get decode takes rest out p none ≡ rest (out ++ p)
  unfolding copied
  copied-more rest out [] h = absurd (h refl)
  copied-more rest out (c ∷ p) h = rw (all out (c ∷ p)) refl

  -- The loop gives the next `left` bytes, in one round more than that at most.
  copy_n-take :
      (f g left : ℕ) (out : Bytes) (r : Reader) (d : Bytes)
      → left < g
      → left ≤ length d
      → Left keys get decode d f r
      → copy_n keys get decode takes f g left out r ≡ some (sent (out ++ take left d))
  unfolding copy_n
  copy_n-take f zero left out r d h l v = absurd (omega arith)
  copy_n-take f (suc g) zero out r d h l v = ap (λ o. some (sent o)) (sym (append-nil out))
  copy_n-take f (suc g) (suc left) out r d h l v =
      elim (read-Reads keys get decode f (min copy_buffer (suc left)) r d (omega arith) v) [
        | inl (r', p, e, eq, ne, le, q, v') ↦
            let n = suc left - length p in
            let rest : Bytes → Option Pulled = λ o. copy_n keys get decode takes f g n o r' in
            let step : copy_n keys get decode takes f (suc g) (suc left) out r
                ≡ copied keys get decode takes rest out p none =
              ground (arith, eq) in
            step
            ∙ copied-more rest out p ne
            ∙ (copy_n-take f g n (out ++ p) r' e (omega (arith, length_pos p ne))
                  (omega (arith, ap length q, length-append p e)) v'
                ∙ ap (λ o. some (sent o))
                    (append_assoc out p (take n e)
                      ∙ ap (λ x. out ++ x)
                          (sym (ap (take (suc left)) q ∙ take-past (suc left) p e (omega arith)))))
        | inr (r', eq, q) ↦ absurd (omega (arith, ap length q))
      ]

  -- A range within a raw blob, whose file holds `d`, is sent whole to a client that takes every write: it is the part of `d` from `start` to
  -- `end`, whatever the chunks and the index nodes of the file are.
  pub write_range-slice :
      (f start end : ℕ) (b : Root) (k : Key) (d : Bytes) (n : ℕ)
      → File keys get decode k d n
      → n + 1 < f
      → supports_range b ≡ true
      → b.content ≡ raw_content k
      → b.meta.size ≡ length d
      → start ≤ end
      → end < length d
      → write_range keys get decode takes f start end b
        ≡ some (sent (take (end - start + 1) (drop start d)))
  unfolding write_range copy_from
  write_range-slice f start end b k d n file h sr bc size se ed =
      let (r, eq, v) =
        skip-Skips keys get decode f start (new_reader k) d
          (new_reader-Left keys get decode k d n f file h) in
      let done =
        copy_n-take f (end - start + 2) (end - start + 1) [] r (drop start d) (omega arith)
          (omega (arith, length-drop start d)) v in
      ground (arith, eq, done)
