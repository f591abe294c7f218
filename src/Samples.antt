-- ===== src/Samples.antt =====
-- Concrete stores that the tests run the definitions on: keys whose first byte is their type, a file of two
-- chunks, and references kept in an association list.
use oci_amber.Prelude.{
  ℕ, ◌≡◌, refl, sym, ap, ◌∙◌, inl, inr, true, false, Bool-cases, Option, none, some, List, [], ◌∷◌,
  replicate, ◌==◌, arith, if◌then◌else◌,
}
use oci_amber.Prelude.Maybe.{some_injective}
use oci_amber.Prelude.Text.{Bytes, codes, bytes_eq}
use oci_amber.Prelude.Text.Laws.{bytes_eq_iff}
use oci_amber.Prelude.Assoc.{Assoc, lookup, without, insert, lookup-without, lookup-insert}
use oci_amber.Prelude.Sort.{Has}
use oci_amber.Oci.Digest.{digest_of_bytes, digest_from_sum, hex_encode, hex_digit}
use oci_amber.Oci.Examples.{sha_a}
use oci_amber.Store.{Key, KeyType, blob_key, file_node, dir_leaf, other_key, Keys}
use oci_amber.Store.Reader.Content.{File, chunk, node, cons, nil}
use oci_amber.Store.Refs.{RefStore, RefIo}
use oci_amber.Store.Refs.Laws.{RefLaws}

abbrev pub sample_typ : Key → KeyType
sample_typ [] = other_key
sample_typ (t ∷ k) =
    if t == 1
    then blob_key
    else if t == 3
    then file_node
    else if t == 4
    then dir_leaf
    else other_key

abbrev pub chunk_a : Key
chunk_a = 1 ∷ 0 ∷ []

abbrev pub chunk_b : Key
chunk_b = 1 ∷ 1 ∷ []

abbrev pub file_a : Key
file_a = 3 ∷ []

abbrev pub text_a : Bytes
text_a = codes "abc"

abbrev pub sample_keys : Keys
sample_keys = record {
  typ = sample_typ;
  size = λ k. if bytes_eq k chunk_a then 2 else if bytes_eq k chunk_b then 1 else 3;
  parse = λ k. some k;
}

abbrev pub sample_get : Key → Option Bytes
sample_get k =
    if bytes_eq k chunk_a
    then some (codes "ab")
    else if bytes_eq k chunk_b
    then some (codes "c")
    else if bytes_eq k file_a
    then some []
    else none

abbrev pub sample_decode : Bytes → Option (List Key)
sample_decode raw = some (chunk_a ∷ chunk_b ∷ [])

pub file_a-File : File sample_keys sample_get sample_decode file_a text_a 4
file_a-File =
    node {m = 2} [] (chunk_a ∷ chunk_b ∷ []) refl refl refl
      (cons {d = codes "c"} {l = 1} {m = 1} (chunk {d = codes "ab"} refl refl refl refl)
        (cons {d = []} {l = 1} {m = 0} (chunk {d = codes "c"} refl refl refl refl) (nil refl refl)
          refl refl)
        refl refl)
      refl refl

-- Not a hash: one sum for every text.
abbrev pub constant_sum : Bytes → Bytes
constant_sum s = replicate 32 170

pub digest-constant_sum : (s : Bytes) → digest_of_bytes constant_sum s ≡ sha_a
unfolding digest_of_bytes digest_from_sum hex_encode hex_digit
digest-constant_sum s = refl

-- Every name once.
unfoldable pub listed : Assoc Bytes → List (Bytes × Bytes)
unfolding without
listed [] = []
listed ((n, raw) ∷ m) = (n, raw) ∷ without n (listed m)

abbrev pub time_key : Bytes → Option (Key × ℕ)
time_key [] = none
time_key (t ∷ k) = some (k, t)

abbrev pub sample_refs : RefStore (Assoc Bytes)
sample_refs = record {
  get = lookup;
  put = insert;
  delete = without;
  all = listed;
  valid_name = λ n. true;
  encode = λ n k t. some (t ∷ k);
  decode = time_key;
  parse = λ k. some k;
}

Has-without :
    (k : Bytes) (m : Assoc Bytes) (n raw : Bytes)
    → Has (n, raw) (without k m)
    → (bytes_eq k n ≡ false) × Has (n, raw) m
unfolding without
Has-without k [] n raw h = absurd h
Has-without k ((j, v) ∷ m) n raw h = elim (Bool-cases (bytes_eq j k)) [
  | inl t ↦ let (a, b) = Has-without k m n raw (rw t at h) in (a, inr b)
  | inr t ↦ elim (rw t at h) [
    | inl e ↦ (ground (arith, t, ap (λ p. p.0) e, bytes_eq_iff j k, bytes_eq_iff k n), inl e)
    | inr i ↦ let (a, b) = Has-without k m n raw i in (a, inr b)
  ]
]

without-Has :
    (k : Bytes) (m : Assoc Bytes) (n raw : Bytes)
    → bytes_eq k n ≡ false
    → Has (n, raw) m
    → Has (n, raw) (without k m)
unfolding without
without-Has k [] n raw d h = absurd h
without-Has k ((j, v) ∷ m) n raw d h = elim (Bool-cases (bytes_eq j k)) [
  | inl t ↦ elim h [
    | inl e ↦ absurd (ground (arith, t, d, ap (λ p. p.0) e, bytes_eq_iff j k, bytes_eq_iff k n))
    | inr i ↦ rw t (without-Has k m n raw d i)
  ]
  | inr t ↦ elim h [ inl e ↦ rw t (inl e) | inr i ↦ rw t (inr (without-Has k m n raw d i)) ]
]

listed_sound : (m : Assoc Bytes) (n raw : Bytes) → Has (n, raw) (listed m) → lookup n m ≡ some raw
unfolding listed lookup
listed_sound [] n raw h = absurd h
listed_sound ((j, v) ∷ m) n raw (inl e) =
    ground (arith, ap (λ p. p.0) e, ap (λ p. p.1) e, bytes_eq_iff j n)
listed_sound ((j, v) ∷ m) n raw (inr h) =
    let (a, b) = Has-without j (listed m) n raw h in ground (arith, a, listed_sound m n raw b)

listed_complete :
    (m : Assoc Bytes) (n raw : Bytes) → lookup n m ≡ some raw → Has (n, raw) (listed m)
unfolding listed lookup
listed_complete [] n raw h = absurd (ground arith)
listed_complete ((j, v) ∷ m) n raw h = elim (Bool-cases (bytes_eq j n)) [
  | inl t ↦
      let same : v ≡ raw = ground arith in
      inl (ap (λ x. (x, v)) ((bytes_eq_iff j n).0 t) ∙ ap (λ x. (n, x)) same)
  | inr t ↦ inr (without-Has j (listed m) n raw t (listed_complete m n raw (ground arith)))
]

pub sample_refs-RefLaws : RefLaws sample_refs
sample_refs-RefLaws = record {
  get-put = λ n m raw s. lookup-insert n m raw s;
  get-delete = λ n m s. lookup-without n m s;
  all_sound = λ n raw s h. listed_sound s n raw h;
  all_complete = λ n raw s h. listed_complete s n raw h;
  decode-encode = λ n raw k t h. ap time_key (some_injective (sym h));
}

abbrev pub quiet : RefIo
quiet = record {
  get_fails = λ n. false;
  put_fails = λ n. false;
  delete_fails = λ n. false;
  list_fails = false;
  complete = λ k. true;
  now = 1;
}
