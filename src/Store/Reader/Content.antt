-- ===== src/Store/Reader/Content.antt =====
-- The content of a file: what the objects under its key hold, in order.
pub mod Refines
use oci_amber.Prelude.{
  ℕ, zero, suc, ◌+◌, ◌<◌, ◌≤◌, ◌≡◌, ◌⊎◌, refl, ap, ◌∙◌, inl, inr, Option, none, some, List, [], ◌∷◌,
  ◌++◌, length, arith, append_assoc, append-nil, sym,
}
use oci_amber.Prelude.Text.{Bytes}
use oci_amber.Store.{Key, KeyType, blob_key, file_node, Keys}
use oci_amber.Store.Reader.{Reader, next, new_reader}

module _ (keys : Keys) (get : Key → Option Bytes) (decode : Bytes → Option (List Key)) where
  mutual
    -- The file `k` has the content `d`, and reading it takes `n` steps.
    pub data File : Key → Bytes → ℕ → Type 0 where
      chunk :
          {k : Key} {d : Bytes} {n : ℕ}
          → keys.typ k ≡ blob_key
          → get k ≡ some d
          → length d ≡ keys.size k
          → n ≡ 1
          → File k d n
      node :
          {k : Key} {d : Bytes} {n m : ℕ} (raw : Bytes) (children : List Key)
          → keys.typ k ≡ file_node
          → get k ≡ some raw
          → decode raw ≡ some children
          → Files children d m
          → length d ≡ keys.size k
          → n ≡ m + 2
          → File k d n

    pub data Files : List Key → Bytes → ℕ → Type 0 where
      nil : {d : Bytes} {n : ℕ} → d ≡ [] → n ≡ 0 → Files [] d n
      cons :
          {k : Key} {ks : List Key} {c d e : Bytes} {l m n : ℕ}
          → File k c l
          → Files ks d m
          → e ≡ c ++ d
          → n ≡ l + m
          → Files (k ∷ ks) e n

  -- The levels of a reader, the deepest first.
  pub data Levels : List (List Key) → Bytes → ℕ → Type 0 where
    bottom : {d : Bytes} {n : ℕ} → d ≡ [] → n ≡ 0 → Levels [] d n
    level :
        {ks : List Key} {st : List (List Key)} {c d e : Bytes} {l m n : ℕ}
        → Files ks c l
        → Levels st d m
        → e ≡ c ++ d
        → n ≡ l + m + 1
        → Levels (ks ∷ st) e n

  abbrev pub at : List (List Key) → Bytes → Reader
  at st s = record { stack = st; cur = s; stop = none }

  -- A reader without an error that has `d` left, and needs less than `l` steps for it.
  abbrev pub Left : Bytes → ℕ → Reader → Type 0
  Left d l r =
      (st : List (List Key)) × (s : Bytes) × (b : Bytes) × (m : ℕ) × (r ≡ at st s)
      × Levels st b m
      × (d ≡ s ++ b)
      × (m < l)

  pub length-File : {k : Key} {d : Bytes} {n : ℕ} → File k d n → length d ≡ keys.size k
  length-File (chunk t g l e) = l
  length-File (node raw cs t g dc fs l e) = l

  -- What the next key is, or that nothing is left.
  pub Next : List (List Key) → Bytes → ℕ → Type 0
  Next st d n =
      (next st ≡ none) × (d ≡ [])
      ⊎ (k : Key) × (left : List (List Key)) × (c : Bytes) × (e : Bytes) × (l : ℕ) × (m : ℕ) × (next
            st
          ≡ some (k, left))
        × File k c l
        × Levels left e m
        × (d ≡ c ++ e)
        × (l + m ≤ n)

  Next-empty :
      (st : List (List Key)) (d e : Bytes) (n m : ℕ)
      → d ≡ e
      → m ≤ n
      → Next st e m
      → Next ([] ∷ st) d n
  unfolding next Next
  Next-empty st d e n m q l (inl (a, b)) = inl (a, q ∙ b)
  Next-empty st d e n m q l (inr (k, left, c, e', i, j, a, f, ls, b, h)) =
      inr (k, left, c, e', i, j, a, f, ls, q ∙ b, omega arith)

  pub next-Next : (st : List (List Key)) (d : Bytes) (n : ℕ) → Levels st d n → Next st d n
  unfolding next Next
  next-Next [] d n (bottom e z) = inl (refl, e)
  next-Next ([] ∷ st) d n (level {d = d'} {m = m} (nil ce le) ls e t) =
      Next-empty st d d' n m (e ∙ ap (λ x. x ++ d') ce) (omega arith) (next-Next st d' m ls)
  next-Next ((k ∷ ks) ∷ st) d n (level {d = d'} (cons {c = c} {d = c'} f fs ce le) ls e t) = inr (
    k,
    ks ∷ st,
    _,
    _,
    _,
    _,
    refl,
    f,
    level fs ls refl refl,
    e ∙ ap (λ x. x ++ d') ce ∙ append_assoc c c' d',
    omega arith,
  )

  -- A new reader has the content of its file.
  pub new_reader-Left :
      (k : Key) (d : Bytes) (n f : ℕ) → File k d n → n + 1 < f → Left d f (new_reader k)
  new_reader-Left k d n f file h = (
    (k ∷ []) ∷ [],
    [],
    d,
    n + 1,
    refl,
    level {l = n} {m = 0} (cons {m = 0} file (nil refl refl) (sym (append-nil d)) (omega arith))
        (bottom refl refl) (sym (append-nil d)) (omega arith),
    refl,
    h,
  )
