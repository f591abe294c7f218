-- ===== src/Registry/Uploads/Range.antt =====
-- The Content-Range of an upload: parseContentRange.
use oci_amber.Prelude.{
  ℕ, ◌==◌, ◌+◌, ◌-◌, ◌*◌, ◌^◌, not, ◌&&◌, Option, none, some, [], ◌∷◌, ltb, leb, take,
  if◌then◌else◌,
}
use oci_amber.Prelude.Text.{Bytes, codes, cut, cut_prefix, index_byte}
use oci_amber.Oci.Digest.{is_empty}
use oci_amber.Prelude.Split.{trim_space}

-- The value of a text of decimal digits, from `n` on; `none` at any other byte.
unfoldable pub digits_from : ℕ → Bytes → Option ℕ
digits_from n [] = some n
digits_from n (c ∷ s) =
    let rest = digits_from (n * 10 + (c - b'0')) s in
    if leb b'0' c && leb c b'9' then rest else none

-- A number below 2^63, without a sign.
unfoldable pub parse_digits : Bytes → Option ℕ
parse_digits [] = none
parse_digits (c ∷ s) = elim (digits_from 0 (c ∷ s)) [
  | none ↦ none
  | some n ↦ if ltb n (2 ^ 63) then some n else none
]

-- strconv.ParseInt(s, 10, 64) where the caller refuses a negative number: "-0" is the only text with
-- a '-' that passes.
unfoldable pub parse_natural : Bytes → Option ℕ
parse_natural [] = none
parse_natural (c ∷ s) =
    if c == b'+'
    then parse_digits s
    else if c == b'-'
    then elim (digits_from 0 s) [
      | none ↦ none
      | some n ↦ if not (is_empty s) && (n == 0) then some 0 else none
    ]
    else parse_digits (c ∷ s)

abbrev pub trim_text : Bytes → Bytes → Bytes
trim_text s p = elim (cut_prefix s p) [ none ↦ s | some t ↦ t ]

-- The part before the '/'.
abbrev pub without_total : Bytes → Bytes
without_total v = elim (index_byte v b'/') [ none ↦ v | some i ↦ take i v ]

range_of : Option ℕ → Option ℕ → Option (ℕ × ℕ)
range_of none e = none
range_of (some start) none = none
range_of (some start) (some end) = if ltb end start then none else some (start, end)

unfoldable pub parse_content_range : Bytes → Option (ℕ × ℕ)
unfolding range_of
parse_content_range h =
    let v =
      without_total (trim_text (trim_text (trim_space h) (codes "bytes=")) (codes "bytes ")) in
    elim (cut v b'-') [
      | none ↦ none
      | some (a, b) ↦ range_of (parse_natural (trim_space a)) (parse_natural (trim_space b))
    ]
