-- ===== src/Store/Reader/Content/Refines.antt =====
-- The reader gives the content of a file: Read a next part of it, Skip passes over the bytes it is
-- asked to.
use oci_amber.Prelude.{
  ℕ, zero, suc, ◌+◌, ◌-◌, ◌<◌, ◌≤◌, ◌≡◌, ◌≢◌, ◌⊎◌, refl, sym, ap, ◌∙◌, subst, inl, inr, true, Bool,
  Bool-cases, Option, none, some, List, [], ◌∷◌, ◌++◌, length, take, drop, leb, arith, append_assoc,
  length-take, take-append-drop,
}
use oci_amber.Prelude.Int.{pos}
use oci_amber.Prelude.Text.{Bytes}
use oci_amber.Prelude.Text.Laws.{drop-append_le}
use oci_amber.Store.{Key, blob_key, file_node, Keys}
use oci_amber.Store.Reader.{
  Reader, eof, descend, fetch_chunk, fetch_typed, fetch, fill, read, skip_keys, left_in, skip_by,
  skip,
}
use oci_amber.Store.Reader.Content.{
  at, Left, File, chunk, node, Levels, bottom, level, length-File, Next, next-Next,
}

module _ (keys : Keys) (get : Key → Option Bytes) (decode : Bytes → Option (List Key)) where
  abbrev After : List (List Key) → Bytes → ℕ → Type 0
  After = Levels keys get decode

  abbrev Has : Bytes → ℕ → Reader → Type 0
  Has = Left keys get decode

  abbrev start : List (List Key) → Bytes → Reader
  start = at keys get decode

  abbrev Fetched : ℕ → Key → List (List Key) → Bytes → ℕ → Type 0
  Fetched n k st d l =
      (r : Reader) × (fetch keys get decode n k (start st []) ≡ (r, true)) × Has d l r

  -- A node is fetched: its children are the deepest level.
  abbrev Opened : ℕ → Key → List (List Key) → Bytes → ℕ → Type 0
  Opened n k st d l =
      (ks : List Key) × (m : ℕ) × (fetch keys get decode n k (start st [])
        ≡ (start (ks ∷ st) [], true))
      × After (ks ∷ st) d m
      × (m < l)

  fetch-node :
      (n : ℕ) (k : Key) (st : List (List Key)) (c d : Bytes) (l m : ℕ)
      → File keys get decode k c l
      → keys.typ k ≡ file_node
      → After st d m
      → Opened n k st (c ++ d) (l + m)
  unfolding fetch fetch_typed descend
  fetch-node n k st c d l m (chunk t g e o) u ls = absurd (cc (t, u))
  fetch-node n k st c d l m (node {m = i} raw children t g dc fs e o) u ls =
      (children, i + m + 1, ground arith, level fs ls refl refl, omega arith)

  -- A chunk is fetched that holds the new position.
  fetch-chunk :
      (n : ℕ) (k : Key) (st : List (List Key)) (c d : Bytes) (l m : ℕ)
      → File keys get decode k c l
      → keys.typ k ≡ blob_key
      → After st d m
      → Fetched n k st (drop n c ++ d) (l + m)
  unfolding fetch fetch_typed fetch_chunk
  fetch-chunk n k st c d l m (chunk t g e o) u ls =
      (start st (drop n c), ground arith, (st, drop n c, d, m, refl, ls, refl, omega arith))
  fetch-chunk n k st c d l m (node raw children t g dc fs e o) u ls = absurd (cc (t, u))

  fetch-any :
      (k : Key) (st : List (List Key)) (c d : Bytes) (l m : ℕ)
      → File keys get decode k c l
      → After st d m
      → Fetched 0 k st (c ++ d) (l + m)
  fetch-any k st c d l m (chunk t g e o) ls = fetch-chunk 0 k st c d l m (chunk t g e o) t ls
  fetch-any k st c d l m (node raw cs t g dc fs e o) ls =
      let (ks, i, fe, v, lt) = fetch-node 0 k st c d l m (node raw cs t g dc fs e o) t ls in
      (start (ks ∷ st) [], fe, (ks ∷ st, [], c ++ d, i, refl, v, refl, lt))

  -- What fill gives: a current part and what is behind it, or the end.
  abbrev Fills : ℕ → Reader → Bytes → ℕ → Type 0
  Fills f r d n =
      ((st : List (List Key)) × (s : Bytes) × (b : Bytes) × (m : ℕ) × (fill keys get decode f r
          ≡ some (start st s, none))
        × (s ≢ [])
        × After st b m
        × (d ≡ s ++ b)
        × (m ≤ n))
      ⊎ ((fill keys get decode f r ≡ some (start [] [], some eof)) × (d ≡ []))

  fill-Fills :
      (f : ℕ) (st : List (List Key)) (s b : Bytes) (n : ℕ)
      → After st b n
      → n < f
      → Fills f (start st s) (s ++ b) n
  unfolding fill Next
  fill-Fills zero st s b n v h = absurd (omega arith)
  fill-Fills (suc f) st (x ∷ s) b n v h = inl (st, x ∷ s, b, n, refl, cc, v, refl, omega arith)
  fill-Fills (suc f) st [] b n v h = elim (next-Next keys get decode st b n v) [
    | inl (a, e) ↦ inr (ground arith, e)
    | inr (k, left, c, e, l, m, a, file, ls, q, le) ↦
        let (r, g, (st', s', b', m', re, v', q', lt)) = fetch-any k left c e l m file ls in
        elim (fill-Fills f st' s' b' m' v' (omega arith)) [
          | inl (st2, s2, b2, m2, e2, ne, v2, q2, le2) ↦
              inl (st2, s2, b2, m2, ground (arith, g, re, e2), ne, v2, q ∙ q' ∙ q2, omega arith)
          | inr (e2, q2) ↦ inr (ground (arith, g, re, e2), q ∙ q' ∙ q2)
        ]
  ]

  -- What Read gives: a next part of the content that is left, or the end.
  abbrev pub Reads : ℕ → ℕ → Reader → Bytes → ℕ → Type 0
  Reads f n r d l =
      ((r' : Reader) × (p : Bytes) × (e : Bytes) × (read keys get decode f n r ≡ some (r', p, none))
        × (p ≢ [])
        × (length p ≤ n)
        × (d ≡ p ++ e)
        × Has e l r')
      ⊎ ((r' : Reader) × (read keys get decode f n r ≡ some (r', [], some eof)) × (d ≡ []))

  take-ne-nil : (n : ℕ) (s : Bytes) → n ≢ 0 → s ≢ [] → take n s ≢ []
  take-ne-nil zero s h k = absurd (h refl)
  take-ne-nil (suc n) [] h k = absurd (k refl)
  take-ne-nil (suc n) (x ∷ s) h k = cc

  -- A Read into a buffer that is not empty gives a next part of the content that is left, never an
  -- empty one, or io.EOF when nothing is left.
  pub read-Reads : (f n : ℕ) (r : Reader) (d : Bytes) → n ≢ 0 → Has d f r → Reads f n r d f
  unfolding read
  read-Reads f n r d h (st, s, b, m, re, v, q, lt) =
      subst (λ x. Reads f n x d f) (sym re)
        (elim (fill-Fills f st s b m v lt) [
          | inl (st2, s2, b2, m2, e2, ne, v2, q2, le) ↦ inl (
            start st2 (drop n s2),
            take n s2,
            drop n s2 ++ b2,
            ground (arith, e2),
            take-ne-nil n s2 h ne,
            omega (arith, length-take n s2),
            q
                ∙ q2
                ∙ ap (λ x. x ++ b2) (sym (take-append-drop n s2))
                ∙ append_assoc (take n s2) (drop n s2) b2,
            (st2, drop n s2, b2, m2, refl, v2, refl, omega arith),
          )
          | inr (e2, q2) ↦
              inr (record { stack = []; cur = []; stop = some eof }, ground (arith, e2), q ∙ q2)
        ])

  -- What Skip gives: no error, and what is left behind the bytes passed over.
  abbrev pub Skips : Option (Reader × Bool) → Bytes → ℕ → Type 0
  Skips o d l = (r : Reader) × (o ≡ some (r, true)) × Has d l r

  skip_none : (f : ℕ) (r : Reader) → f ≢ 0 → skip_keys keys get decode f 0 r ≡ some (r, true)
  unfolding skip_keys
  skip_none zero r h = absurd (h refl)
  skip_none (suc f) r h = refl

  weaken : (d : Bytes) (l m : ℕ) (r : Reader) → l ≤ m → Has d l r → Has d m r
  weaken d l m r h (st, s, b, i, re, v, q, lt) = (st, s, b, i, re, v, q, omega arith)

  File-pos : {k : Key} {c : Bytes} {i : ℕ} → File keys get decode k c i → 0 < i
  File-pos (chunk t g l e) = omega arith
  File-pos (node raw cs t g dc fs l e) = omega arith

  drop-append_ge : (n : ℕ) (c e : Bytes) → length c ≤ n → drop n (c ++ e) ≡ drop (n - length c) e
  drop-append_ge n [] e h = ap (λ i. drop i e) (omega arith)
  drop-append_ge zero (x ∷ c) e h = absurd (omega arith)
  drop-append_ge (suc n) (x ∷ c) e h =
      drop-append_ge n c e (omega arith) ∙ ap (λ i. drop i e) (omega arith)

  -- Skip in the object that holds the new position; `ih` is the rest of the loop.
  skip-in :
      (f n : ℕ) (k : Key) (st : List (List Key)) (c e : Bytes) (i j : ℕ)
      → File keys get decode k c i
      → n < length c
      → i + j ≤ f
      → After st e j
      → ((st' : List (List Key)) (b' : Bytes) (m' : ℕ)
          → After st' b' m'
          → m' < f
          → Skips (skip_keys keys get decode f n (start st' [])) (drop n b') f)
      → (r : Reader) × (fetch keys get decode n k (start st []) ≡ (r, true))
        × Skips (skip_keys keys get decode f (left_in (keys.typ k) n) r) (drop n (c ++ e)) f
  skip-in f n k st c e i j (chunk t g l o) h le ls ih =
      let (r, fe, (st', s', b', m', re, v', q', lt)) =
        fetch-chunk n k st c e i j (chunk t g l o) t ls in
      (
        r,
        fe,
        (
          r,
          rw (t, skip_none f r (omega arith)) refl,
          (st', s', b', m', re, v', drop-append_le n c e (omega arith) ∙ q', omega arith),
        ),
      )
  skip-in f n k st c e i j (node raw cs t g dc fs l o) h le ls ih =
      let (ks, m, fe, v', lt) = fetch-node n k st c e i j (node raw cs t g dc fs l o) t ls in
      (start (ks ∷ st) [], fe, rw t (ih (ks ∷ st) (c ++ e) m v' (omega arith)))

  skip_keys-Skips :
      (f n : ℕ) (st : List (List Key)) (b : Bytes) (m : ℕ)
      → After st b m
      → m < f
      → Skips (skip_keys keys get decode f n (start st [])) (drop n b) f
  unfolding skip_keys Next
  skip_keys-Skips zero n st b m v h = absurd (omega arith)
  skip_keys-Skips (suc f) zero st b m v h = (start st [], refl, (st, [], b, m, refl, v, refl, h))
  skip_keys-Skips (suc f) (suc n) st b m v h = elim (next-Next keys get decode st b m v) [
    | inl (a, e) ↦ (
      start [] [],
      ground arith,
      ([], [], [], 0, refl, bottom refl refl, ap (drop (suc n)) e, omega arith),
    )
    | inr (k, left, c, e, i, j, a, file, ls, q, le) ↦
        let size = length-File keys get decode file in
        let pos = File-pos file in
        let ih = skip_keys-Skips f in
        elim (Bool-cases (leb (keys.size k) (suc n))) [
          | inl t ↦
              let (r, eq, has) = ih (suc n - keys.size k) left e j ls (omega arith) in
              let same =
                ap (drop (suc n)) q
                ∙ drop-append_ge (suc n) c e (ground arith)
                ∙ ap (λ x. drop (suc n - x) e) size in
              (
                r,
                ground (arith, a, eq),
                subst (λ x. Has x (suc f) r) (sym same) (weaken _ f (suc f) r (omega arith) has),
              )
          | inr t ↦
              let (r, fe, (r', eq, has)) =
                skip-in f (suc n) k left c e i j file (ground arith) (omega arith) ls
                  (ih (suc n)) in
              (
                r',
                ground (arith, a, fe, eq),
                subst (λ x. Has x (suc f) r') (sym (ap (drop (suc n)) q))
                    (weaken _ f (suc f) r' (omega arith) has),
              )
        ]
  ]

  -- Skip, with no negative count, passes over that many bytes of the content that is left, or over all
  -- of it.
  pub skip-Skips :
      (f n : ℕ) (r : Reader) (d : Bytes)
      → Has d f r
      → Skips (skip keys get decode f (pos n) r) (drop n d) f
  unfolding skip skip_by
  skip-Skips f n r d (st, s, b, m, re, v, q, lt) =
      subst (λ x. Skips (skip keys get decode f (pos n) x) (drop n d) f) (sym re)
        (elim (Bool-cases (leb n (length s))) [
          | inl t ↦ (
            start st (drop n s),
            ground arith,
            (st, drop n s, b, m, refl, v, ap (drop n) q ∙ drop-append_le n s b (ground arith), lt),
          )
          | inr t ↦
              let (r', eq, has) = skip_keys-Skips f (n - length s) st b m v lt in
              (
                r',
                ground (arith, eq),
                subst (λ x. Has x f r') (sym (ap (drop n) q ∙ drop-append_ge n s b (ground arith)))
                    has,
              )
        ])
