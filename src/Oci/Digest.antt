-- ===== src/Oci/Digest.antt =====
-- oci/digest.go: content digests.
pub mod Shape
pub mod Sum
use oci_amber.Prelude.{
  ℕ, ◌+◌, ◌-◌, ◌/◌, ◌%◌, Bool, true, false, not, ◌||◌, Option, none, some, List, [], ◌∷◌, ◌++◌, ltb,
  ◌==◌, length, if◌then◌else◌,
}
use oci_amber.Prelude.Text.{Bytes, codes, bytes_eq, cut}
use oci_amber.Regex.{Ranges, Regex, set, seq, star, byte, plus, times, matches}
use oci_amber.Oci.Errors.{Result, ok, err, new_error, digest_invalid}

abbrev pub Digest : Type 0
Digest = Bytes

abbrev pub algorithm_sha256 : Bytes
algorithm_sha256 = codes "sha256"

abbrev pub hex_set : Ranges
hex_set = (b'a', b'f') ∷ (b'0', b'9') ∷ []

-- ^[a-f0-9]{64}$
unfoldable pub sha256_hex_re : Regex
unfolding times
sha256_hex_re = times 64 (set hex_set)

abbrev pub alnum : Ranges
alnum = (b'a', b'z') ∷ (b'0', b'9') ∷ []

abbrev pub encoded_set : Ranges
encoded_set =
    (b'a', b'z') ∷ (b'A', b'Z') ∷ (b'0', b'9') ∷ (b'=', b'=') ∷ (b'_', b'_') ∷ (b'-', b'-') ∷ []

abbrev pub separator_set : Ranges
separator_set = (b'+', b'+') ∷ (b'.', b'.') ∷ (b'_', b'_') ∷ (b'-', b'-') ∷ []

-- ^[a-z0-9]+(?:[+._-][a-z0-9]+)*:[a-zA-Z0-9=_-]+$
unfoldable pub digest_shape_re : Regex
digest_shape_re = seq (plus (set alnum)) (
    seq (star (seq (set separator_set) (plus (set alnum))))
      (seq (byte b':') (plus (set encoded_set))))

abbrev pub is_empty : Bytes → Bool
is_empty [] = true
is_empty (c ∷ s) = false

-- The checks that follow strings.Cut.
check_parts : Bytes → Option (Bytes × Bytes) → Result Digest
check_parts s none = err (new_error digest_invalid)
check_parts s (some (algo, enc)) =
    if is_empty algo || is_empty enc
    then err (new_error digest_invalid)
    else if not (bytes_eq algo algorithm_sha256)
    then err (new_error digest_invalid)
    else if not (matches sha256_hex_re enc)
    then err (new_error digest_invalid)
    else ok s

unfoldable pub parse_digest : Bytes → Result Digest
unfolding check_parts
parse_digest s = check_parts s (cut s b':')

unfoldable pub is_digest : Bytes → Bool
unfolding digest_shape_re
is_digest reference = matches digest_shape_re reference

-- One digit of encoding/hex.
unfoldable pub hex_digit : ℕ → ℕ
hex_digit n = if ltb n 10 then b'0' + n else b'a' + (n - 10)

unfoldable pub hex_encode : Bytes → Bytes
unfolding hex_digit
hex_encode [] = []
hex_encode (b ∷ s) = hex_digit (b / 16) ∷ hex_digit (b % 16) ∷ hex_encode s

-- `none` is the panic on a sum that does not have 32 bytes.
unfoldable pub digest_from_sum : Bytes → Option Digest
unfolding hex_encode
digest_from_sum sum =
    if length sum == 32 then some (algorithm_sha256 ++ b':' ∷ hex_encode sum) else none

-- (Digest).Hex and (Digest).Algorithm: strings.Cut at the colon, "" where it has none.
unfoldable pub hex : Digest → Bytes
hex d = elim (cut d b':') [ none ↦ [] | some (algo, enc) ↦ enc ]

unfoldable pub algorithm : Digest → Bytes
algorithm d = elim (cut d b':') [ none ↦ d | some (algo, enc) ↦ algo ]

-- crypto/sha256 is an argument: the 32-byte sum of a text.
module _ (sha256 : Bytes → Bytes) where
  -- The empty text stands for the panic, which no 32-byte sum reaches.
  unfoldable pub digest_of_bytes : Bytes → Digest
  digest_of_bytes b = elim (digest_from_sum (sha256 b)) [ none ↦ [] | some d ↦ d ]
