-- ===== src/Blob/Tar.antt =====
-- blob/analyze.go: whether a stream starts like a tar archive. A stream is the bytes that it gives and
-- whether a read error ends it.
pub mod Probe
use oci_amber.Prelude.{
  ℕ, zero, suc, ◌+◌, ◌-◌, ◌*◌, Bool, true, false, not, ◌&&◌, ◌||◌, Option, none, some, List, [],
  ◌∷◌, length, ltb, leb, ◌==◌, take, drop, reverse, if◌then◌else◌,
}
use oci_amber.Prelude.Text.{Bytes}
use oci_amber.Oci.Digest.{is_empty}

pub record Content : Type 0 where
  pub bytes : Bytes
  pub fails : Bool

-- The value of a text of octal digits, from `n` on.
unfoldable pub octal_from : ℕ → Bytes → Option ℕ
octal_from n [] = some n
octal_from n (c ∷ s) =
    let rest = octal_from (n * 8 + (c - b'0')) s in if leb b'0' c && leb c b'7' then rest else none

octal_digits : Bool → Bytes → Option (Bool × ℕ)
unfolding octal_from
octal_digits negative [] = none
octal_digits negative (c ∷ s) = elim (octal_from 0 (c ∷ s)) [
  | none ↦ none
  | some n ↦ some (negative, n)
]

-- strconv.ParseInt(s, 8, 64), as a sign and a magnitude. A number that is out of range is no checksum
-- either way.
unfoldable pub parse_octal : Bytes → Option (Bool × ℕ)
unfolding octal_digits
parse_octal [] = none
parse_octal (c ∷ s) =
    if c == b'+'
    then octal_digits false s
    else if c == b'-'
    then octal_digits true s
    else octal_digits false (c ∷ s)

-- strings.Trim(s, " \x00")
unfoldable pub trim_pad : Bytes → Bytes
trim_pad [] = []
trim_pad (c ∷ s) = let rest = trim_pad s in if (c == 32) || (c == 0) then rest else c ∷ s

-- The checksum field is taken as spaces.
abbrev pub in_checksum : ℕ → Bool
in_checksum i = leb 148 i && ltb i 156

unfoldable pub unsigned_sum : ℕ → Bytes → ℕ
unsigned_sum i [] = 0
unsigned_sum i (c ∷ s) = (if in_checksum i then 32 else c) + unsigned_sum (suc i) s

-- The bytes that are negative as an int8, each of which makes the signed sum 256 smaller.
unfoldable pub negative_bytes : ℕ → Bytes → ℕ
negative_bytes i [] = 0
negative_bytes i (c ∷ s) =
    (if in_checksum i then 0 else if ltb 127 c then 1 else 0) + negative_bytes (suc i) s

-- `want == unsigned || want == signed`
abbrev pub is_checksum : ℕ → ℕ → Option (Bool × ℕ) → Bool
is_checksum sum negative none = false
is_checksum sum negative (some (false, n)) = (n == sum) || (n + 256 * negative == sum)
is_checksum sum negative (some (true, n)) = ((n == 0) && (sum == 0)) || (sum + n == 256 * negative)

-- isTarHeader, of a whole block.
unfoldable pub is_tar_header : Bytes → Bool
unfolding trim_pad parse_octal unsigned_sum negative_bytes
is_tar_header b =
    let field = reverse (trim_pad (reverse (trim_pad (take 8 (drop 148 b))))) in
    not (is_empty field) && is_checksum (unsigned_sum 0 b) (negative_bytes 0 b) (parse_octal field)

unfoldable pub all_zero : Bytes → Bool
all_zero [] = true
all_zero (c ∷ s) = (c == 0) && all_zero s

abbrev pub empty_archive_max : ℕ
empty_archive_max = 10240

-- probeTar; `none` is a read error.
unfoldable pub probe_tar : Content → Option Bool
unfolding is_tar_header all_zero
probe_tar c =
    let rest = take 9729 (drop 512 c.bytes) in
    if ltb (length c.bytes) 512
    then (if c.fails then none else some false)
    else if is_tar_header (take 512 c.bytes)
    then some true
    else if not (all_zero (take 512 c.bytes))
    then some false
    else if c.fails && ltb (length (drop 512 c.bytes)) 9729
    then none
    else if ltb 9728 (length rest)
    then some false
    else some (all_zero rest)
