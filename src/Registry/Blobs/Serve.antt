-- ===== src/Registry/Blobs/Serve.antt =====
-- What a GET of a raw blob answers: the range that is asked for, or the whole blob.
use oci_amber.Prelude.{
  ℕ, zero, suc, min, ◌∙◌, ◌==◌, ◌||◌, if◌then◌else◌, Bool, ◌+◌, ◌-◌, ◌<◌, ◌≤◌, ◌≡◌, ◌⊎◌, refl, sym,
  ap, subst, inl, inr, true, false, Bool-cases, Option, none, some, [], ◌∷◌, length, length-take,
  length-drop, take, drop, arith, leb,
}
use oci_amber.Prelude.Maybe.{some_injective}
use oci_amber.Prelude.Text.{Bytes, codes, cut, cut_prefix, contains_byte, index_byte}
use oci_amber.Prelude.Split.{trim_space}
use oci_amber.Prelude.Text.Laws.{bytes_eq_refl}
use oci_amber.Prelude.Assoc.{lookup}
use oci_amber.Oci.Errors.{ok}
use oci_amber.Oci.Digest.{Digest, is_empty, parse_digest, digest_of_bytes}
use oci_amber.Store.{Key}
use oci_amber.Store.Reader.Content.{File}
use oci_amber.Blob.Store.{Store, Root, raw_content, open_blob}
use oci_amber.Blob.Pull.{supports_range, write_to}
use oci_amber.Blob.Pull.Slice.{write_range-slice}
use oci_amber.Registry.Uploads.Range.{parse_natural}
use oci_amber.Registry.Blobs.Asked.{
  Asked, between, from, suffix, ignored, asked, Sends, Beyond, SendsAll, Either, Answers, Fits,
  parse_range-Fits,
}
use oci_amber.Registry.Blobs.{
  Range, whole, part, unsatisfiable, suffix_range, range_between, given_end, range_from,
  range_parts, range_spec, parse_range, BlobResponse, Pulls, found_blob, partial, out_of_range,
  stream_body, stream_part, serve_whole, serve_range, serve_opened, serve_blob, dispatch_blob,
  get_method, handle_blob,
}

-- The bounds of a range to serve lie in the body.
abbrev Within : ℕ → Range → Type 0
Within size whole = Unit
Within size unsatisfiable = Unit
Within size (part start end) = (start ≤ end) × (end < size)

suffix_range-Within : (size : ℕ) (n : Option ℕ) → Within size (suffix_range size n)
unfolding suffix_range
suffix_range-Within size none = tt
suffix_range-Within size (some n) = ground arith

range_between-Within :
    (size start : ℕ) (e : Option ℕ)
    → ((end : ℕ) → e ≡ some end → (start ≤ end) ⊎ (size ≤ start))
    → Within size (range_between size start e)
unfolding range_between
range_between-Within size start none h = tt
range_between-Within size start (some end) h = ground (arith, h end refl)

given_end-le : (start end : ℕ) (e : Option ℕ) → given_end start e ≡ some end → start ≤ end
unfolding given_end
given_end-le start end none h = cc
given_end-le start end (some x) h = ground arith

last_start : (size start end : ℕ) → some (size - 1) ≡ some end → (start ≤ end) ⊎ (size ≤ start)
last_start size start end e = elim (Bool-cases (leb size start)) [
  | inl t ↦ inr (ground arith)
  | inr t ↦ inl (ground (arith, some_injective e))
]

range_from-Within :
    (size : ℕ) (last : Bytes) (start : Option ℕ) → Within size (range_from size last start)
unfolding range_from
range_from-Within size last none = tt
range_from-Within size last (some start) = elim (Bool-cases (is_empty last)) [
  | inl t ↦ rw t (range_between-Within size start (some (size - 1)) (last_start size start))
  | inr t ↦ rw t (
      range_between-Within size start (given_end start (parse_natural last))
        (λ end e. inl (given_end-le start end (parse_natural last) e)))
]

range_parts-Within : (size : ℕ) (o : Option (Bytes × Bytes)) → Within size (range_parts size o)
unfolding range_parts
range_parts-Within size none = tt
range_parts-Within size (some (first, last)) = elim (Bool-cases (is_empty (trim_space first))) [
  | inl t ↦ rw t (suffix_range-Within size (parse_natural (trim_space last)))
  | inr t ↦ rw t (range_from-Within size (trim_space last) (parse_natural (trim_space first)))
]

range_spec-Within : (size : ℕ) (o : Option Bytes) → Within size (range_spec size o)
unfolding range_spec
range_spec-Within size none = tt
range_spec-Within size (some spec) = elim (Bool-cases (contains_byte spec b',')) [
  | inl t ↦ rw t tt
  | inr t ↦ rw t (range_parts-Within size (cut (trim_space spec) b'-'))
]

parse_range-Within : (header : Bytes) (size : ℕ) → Within size (parse_range header size)
unfolding parse_range
parse_range-Within header size =
    range_spec-Within size (cut_prefix (trim_space header) (codes "bytes="))

-- Whatever the Range header holds, the bounds of a range to serve are in order and within the body.
pub parse_range_bounds :
    (header : Bytes) (size start end : ℕ)
    → parse_range header size ≡ part start end
    → (start ≤ end) × (end < size)
parse_range_bounds header size start end h = subst (Within size) h (parse_range-Within header size)

is_empty-valid : (d : Digest) → parse_digest d ≡ ok d → is_empty d ≡ false
unfolding parse_digest cut index_byte
is_empty-valid [] h = cc
is_empty-valid (c ∷ s) h = refl

-- The blob `d` is published raw, and both the chunks and the amber core give its bytes `content`.
pub record IsStored (p : Pulls) (s : Store) (d : Digest) (content : Bytes) (b : Root) (k : Key)
    (n : ℕ) : Type 0 where
  pub valid : parse_digest d ≡ ok d
  pub published : lookup d s.published ≡ some b
  pub named : b.meta.digest ≡ d
  pub raw : supports_range b ≡ true
  pub at_key : b.content ≡ raw_content k
  pub sized : b.meta.size ≡ length content
  pub file : File p.keys p.get p.decode k content n
  pub streamed : p.source b.content ≡ (content, true)
  pub hashed : digest_of_bytes p.sha256 content ≡ d

-- What a client reads of a range of `content`, of all of it, or of a range beyond its end.
abbrev Serves : Bytes → BlobResponse → Range → Type 0
Serves content r (part start end) =
    (r.status ≡ 206)
    × (r.body ≡ take (end - start + 1) (drop start content))
    × (r.content_length ≡ some (length r.body))
    × (r.content_range ≡ some (some (start, end), length content))
    × (r.aborted ≡ false)
Serves content r whole = SendsAll content r
Serves content r unsatisfiable = Beyond content r

length-slice :
    (start end : ℕ) (s : Bytes)
    → start ≤ end
    → end < length s
    → length (take (end - start + 1) (drop start s)) ≡ end - start + 1
length-slice start end s h l =
    omega (arith, length-take (end - start + 1) (drop start s), length-drop start s)

take-min : (m : ℕ) (s : Bytes) → take (min m (length s)) s ≡ take m s
take-min zero s = let e : min 0 (length s) ≡ 0 = ground arith in ap (λ n. take n s) e
take-min (suc m) [] = let e : min (suc m) 0 ≡ 0 = ground arith in ap (λ (n : ℕ). take n []) e
take-min (suc m) (c ∷ s) =
    let e : min (suc m) (suc (length s)) ≡ suc (min m (length s)) = ground arith in
    ap (λ n. take n (c ∷ s)) e ∙ ap (λ x. c ∷ x) (take-min m s)

-- The bytes from a position on, cut off behind the position `j` or behind the end.
slice_min :
    (i j : ℕ) (s : Bytes)
    → i ≤ j
    → i < length s
    → take (min j (length s - 1) - i + 1) (drop i s) ≡ take (j - i + 1) (drop i s)
slice_min i j s h l =
    let e : min j (length s - 1) - i + 1 ≡ min (j - i + 1) (length (drop i s)) =
      ground (arith, length-drop i s) in
    ap (λ n. take n (drop i s)) e ∙ take-min (j - i + 1) (drop i s)

take_full : (n : ℕ) (s : Bytes) → n ≡ length s → take n s ≡ s
take_full zero [] h = refl
take_full zero (c ∷ s) h = absurd (omega arith)
take_full (suc n) [] h = absurd (omega arith)
take_full (suc n) (c ∷ s) h = ap (λ x. c ∷ x) (take_full n s (omega arith))

-- A served part, with its bytes as they are asked for.
part-Sends :
    (content : Bytes) (r : BlobResponse) (start end : ℕ) (b : Bytes)
    → Within (length content) (part start end)
    → take (end - start + 1) (drop start content) ≡ b
    → Serves content r (part start end)
    → Sends content r start b
part-Sends content r start end b (se, es) same (st, body, len, range, ab) =
    let long : length b ≡ end - start + 1 =
      ap length (sym same) ∙ length-slice start end content se es in
    let stop : end ≡ start + length b - 1 = omega (arith, long, se) in
    (
      st,
      body ∙ same,
      len ∙ ap (λ x. some (length x)) (body ∙ same),
      range ∙ ap (λ x. some (some (start, x), length content)) stop,
      ab,
    )

-- The answer of a range that is unsatisfiable in one case.
Serves-Either :
    (content : Bytes) (r : BlobResponse) (b : Bool) (g h : Range) {A : Type 0}
    → g ≡ (if b then unsatisfiable else h)
    → Within (length content) g
    → Serves content r g
    → (Within (length content) h → Serves content r h → A)
    → Either b (Beyond content r) A
Serves-Either content r true g h e w v k = subst (Serves content r) e v
Serves-Either content r false g h e w v k =
    k (subst (Within (length content)) e w) (subst (Serves content r) e v)

Serves-Answers :
    (content : Bytes) (r : BlobResponse) (a : Asked) (g : Range)
    → Fits (length content) a g
    → Within (length content) g
    → Serves content r g
    → Answers content r a
Serves-Answers content r ignored g e w v = subst (Serves content r) e v
Serves-Answers content r (between i j) g (le, e) w v =
    let end = min j (length content - 1) in
    Serves-Either content r (leb (length content) i) g (part i end) e w v (λ (se, es) u.
      part-Sends content r i end (take (j - i + 1) (drop i content)) (se, es)
        (slice_min i j content le (omega (arith, se, es))) u)
Serves-Answers content r (from i) g e w v =
    let end = length content - 1 in
    Serves-Either content r (leb (length content) i) g (part i end) e w v (λ (se, es) u.
      part-Sends content r i end (drop i content) (se, es)
        (take_full (end - i + 1) (drop i content) (omega (arith, se, es, length-drop i content))) u)
Serves-Answers content r (suffix n) g e w v =
    let start = length content - n in
    let end = length content - 1 in
    let same : length content - min n (length content) ≡ start = ground arith in
    Serves-Either content r ((n == 0) || (length content == 0)) g (part start end)
      (e ∙ ap (λ x. if (n == 0) || (length content == 0) then unsatisfiable else part x end) same) w
      v
      (λ (se, es) u.
        part-Sends content r start end (drop start content) (se, es)
          (take_full (end - start + 1) (drop start content)
            (omega (arith, se, es, length-drop start content)))
          u)

module _ (p : Pulls) (s : Store) (d : Digest) (content : Bytes) (b : Root) (k : Key) (n : ℕ)
    (v : IsStored p s d content b k n) (f : ℕ) (fuel : n + 1 < f)
    (all : (out q : Bytes) → p.takes out q ≡ true) where
  abbrev Answered : Option BlobResponse → Range → Type 0
  Answered o g = (r : BlobResponse) × (o ≡ some r) × Serves content r g

  serve_range-Answered : (g : Range) → Within b.meta.size g → Answered (serve_range p f d b g) g
  unfolding serve_range serve_whole stream_body stream_part write_to
  serve_range-Answered whole h = (
    record (found_blob d b) { body = content },
    ground (arith, v.streamed, v.hashed, v.named, bytes_eq_refl d),
    (refl, refl, ap some v.sized, refl, refl),
  )
  serve_range-Answered unsatisfiable h =
      (out_of_range d b, refl, (refl, refl, refl, ap (λ i. some (none, i)) v.sized, refl))
  serve_range-Answered (part start end) (se, es) =
      let done =
        write_range-slice p.keys p.get p.decode p.takes all f start end b k content n v.file fuel
          v.raw v.at_key v.sized se (omega (arith, v.sized)) in
      (
        record (partial d b start end) { body = take (end - start + 1) (drop start content) },
        ground (arith, done),
        (
          refl,
          refl,
          ap some (sym (length-slice start end content se (omega (arith, v.sized)))),
          ap (λ i. some (some (start, end), i)) v.sized,
          refl,
        ),
      )

  -- A GET of a blob that is stored raw, to a client that takes all writes. A Range header that asks for
  -- the bytes between two positions, from a position on, or for the last bytes, is answered by 206 with
  -- those of them that the blob has, or by 416 if it has none of them. Any other header is ignored, and
  -- the answer is 200 with the whole blob.
  pub get_blob-Answers :
      (header : Bytes)
      → (r : BlobResponse) × (handle_blob p f true get_method header d s ≡ (s, some r))
        × Answers content r (asked header)
  unfolding handle_blob dispatch_blob serve_blob serve_opened open_blob
  get_blob-Answers header =
      let (r, e, a) =
        serve_range-Answered (parse_range header b.meta.size)
          (parse_range-Within header b.meta.size) in
      (
        r,
        ground (
          arith,
          e,
          v.valid,
          v.published,
          v.named,
          v.raw,
          bytes_eq_refl d,
          is_empty-valid d v.valid,
        ),
        Serves-Answers content r (asked header) (parse_range header (length content))
            (parse_range-Fits header (length content)) (parse_range-Within header (length content))
            (subst (λ i. Serves content r (parse_range header i)) v.sized a),
      )
