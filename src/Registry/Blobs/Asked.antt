-- ===== src/Registry/Blobs/Asked.antt =====
-- registry/blobs.go: what a Range header asks for, and which bytes answer it, without the bounds that
-- parseRange computes.
use oci_amber.Prelude.{
  ℕ, ◌+◌, ◌-◌, ◌≤◌, ◌≡◌, refl, ap, inl, inr, Bool, true, false, Bool-cases, ◌||◌, Option, none,
  some, [], length, take, drop, arith, leb, ltb, min, ◌==◌, if◌then◌else◌,
}
use oci_amber.Prelude.Text.{Bytes, codes, cut, cut_prefix, contains_byte}
use oci_amber.Prelude.Split.{trim_space}
use oci_amber.Oci.Digest.{is_empty}
use oci_amber.Registry.Uploads.Range.{parse_natural}
use oci_amber.Registry.Blobs.{
  Range, whole, part, unsatisfiable, suffix_range, range_between, given_end, range_from,
  range_parts, range_spec, parse_range, BlobResponse,
}

-- A range between two positions, the second included; from a position on; the last bytes; or a header
-- that is ignored: one that is not "bytes=", that lists several ranges, or that is malformed.
pub data Asked : Type 0 where
  between : ℕ → ℕ → Asked
  from : ℕ → Asked
  suffix : ℕ → Asked
  ignored : Asked

asked_end : ℕ → Bytes → Asked
asked_end i t = if is_empty t then from i else elim (parse_natural t) [
  | none ↦ ignored
  | some j ↦ if ltb j i then ignored else between i j
]

asked_last : Option ℕ → Asked
asked_last none = ignored
asked_last (some n) = suffix n

asked_start : Bytes → Option ℕ → Asked
unfolding asked_end
asked_start t none = ignored
asked_start t (some i) = asked_end i t

asked_parts : Option (Bytes × Bytes) → Asked
unfolding asked_last asked_start
asked_parts none = ignored
asked_parts (some (s, t)) =
    if is_empty (trim_space s)
    then asked_last (parse_natural (trim_space t))
    else asked_start (trim_space t) (parse_natural (trim_space s))

asked_spec : Option Bytes → Asked
unfolding asked_parts
asked_spec none = ignored
asked_spec (some spec) =
    if contains_byte spec b',' then ignored else asked_parts (cut (trim_space spec) b'-')

unfoldable pub asked : Bytes → Asked
unfolding asked_spec
asked header = asked_spec (cut_prefix (trim_space header) (codes "bytes="))

-- 206 with the bytes `b`, which stand at `start`.
abbrev pub Sends : Bytes → BlobResponse → ℕ → Bytes → Type 0
Sends content r start b =
    (r.status ≡ 206)
    × (r.body ≡ b)
    × (r.content_length ≡ some (length b))
    × (r.content_range ≡ some (some (start, start + length b - 1), length content))
    × (r.aborted ≡ false)

-- 416 with the size.
abbrev pub Beyond : Bytes → BlobResponse → Type 0
Beyond content r =
    (r.status ≡ 416)
    × (r.body ≡ [])
    × (r.content_length ≡ some 0)
    × (r.content_range ≡ some (none, length content))
    × (r.aborted ≡ false)

-- 200 with everything.
abbrev pub SendsAll : Bytes → BlobResponse → Type 0
SendsAll content r =
    (r.status ≡ 200)
    × (r.body ≡ content)
    × (r.content_length ≡ some (length content))
    × (r.content_range ≡ none)
    × (r.aborted ≡ false)

abbrev pub Either : Bool → Type 0 → Type 0 → Type 0
Either true A B = A
Either false A B = B

-- The answer to what is asked for: the bytes at the positions that are asked for and lie in the blob,
-- or 416 when there is none.
abbrev pub Answers : Bytes → BlobResponse → Asked → Type 0
Answers content r (between i j) =
    Either (leb (length content) i) (Beyond content r)
      (Sends content r i (take (j - i + 1) (drop i content)))
Answers content r (from i) =
    Either (leb (length content) i) (Beyond content r) (Sends content r i (drop i content))
Answers content r (suffix n) =
    Either ((n == 0) || (length content == 0)) (Beyond content r)
      (Sends content r (length content - n) (drop (length content - n) content))
Answers content r ignored = SendsAll content r

-- The range that parseRange makes of it.
abbrev pub Fits : ℕ → Asked → Range → Type 0
Fits size (between i j) g =
    (i ≤ j) × (g ≡ (if leb size i then unsatisfiable else part i (min j (size - 1))))
Fits size (from i) g = g ≡ (if leb size i then unsatisfiable else part i (size - 1))
Fits size (suffix n) g =
    g ≡ (if (n == 0) || (size == 0) then unsatisfiable else part (size - min n size) (size - 1))
Fits size ignored g = g ≡ whole

given_end-Fits :
    (size i : ℕ) (o : Option ℕ)
    → Fits size
        (elim o [ none ↦ ignored | some j ↦ if ltb j i then ignored else between i j ])
        (range_between size i (given_end i o))
unfolding range_between given_end
given_end-Fits size i none = refl
given_end-Fits size i (some j) = elim (Bool-cases (ltb j i)) [
  | inl e ↦ rw e refl
  | inr e ↦ rw e (ground arith, refl)
]

range_from-Fits :
    (size : ℕ) (t : Bytes) (o : Option ℕ) → Fits size (asked_start t o) (range_from size t o)
unfolding asked_start range_from range_between
range_from-Fits size t none = refl
range_from-Fits size t (some i) = elim (Bool-cases (is_empty t)) [
  | inl e ↦ rw e (ap (λ x. if leb size i then unsatisfiable else part i x) (ground arith))
  | inr e ↦ rw e (given_end-Fits size i (parse_natural t))
]

suffix_range-Fits : (size : ℕ) (o : Option ℕ) → Fits size (asked_last o) (suffix_range size o)
unfolding asked_last suffix_range
suffix_range-Fits size none = refl
suffix_range-Fits size (some n) = refl

range_parts-Fits :
    (size : ℕ) (o : Option (Bytes × Bytes)) → Fits size (asked_parts o) (range_parts size o)
unfolding asked_parts range_parts
range_parts-Fits size none = refl
range_parts-Fits size (some (s, t)) = elim (Bool-cases (is_empty (trim_space s))) [
  | inl e ↦ rw e (suffix_range-Fits size (parse_natural (trim_space t)))
  | inr e ↦ rw e (range_from-Fits size (trim_space t) (parse_natural (trim_space s)))
]

range_spec-Fits : (size : ℕ) (o : Option Bytes) → Fits size (asked_spec o) (range_spec size o)
unfolding asked_spec range_spec
range_spec-Fits size none = refl
range_spec-Fits size (some spec) = elim (Bool-cases (contains_byte spec b',')) [
  | inl e ↦ rw e refl
  | inr e ↦ rw e (range_parts-Fits size (cut (trim_space spec) b'-'))
]

pub parse_range-Fits :
    (header : Bytes) (size : ℕ) → Fits size (asked header) (parse_range header size)
unfolding asked parse_range
parse_range-Fits header size =
    range_spec-Fits size (cut_prefix (trim_space header) (codes "bytes="))
