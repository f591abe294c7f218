-- ===== src/Oci/Digest/Sum.antt =====
-- The digest of a hash sum is always a valid one.
use oci_amber.Prelude.{
  ℕ, ◌*◌, ◌/◌, ◌%◌, ◌<◌, ◌≡◌, ◌≢◌, refl, none, some, [], ◌∷◌, ◌++◌, arith, All, length,
}
use oci_amber.Prelude.Text.{Bytes, codes}
use oci_amber.Regex.{in_set}
use oci_amber.Oci.Errors.{ok}
use oci_amber.Oci.Digest.{Digest, parse_digest, hex_digit, hex_encode, digest_from_sum, hex}
use oci_amber.Oci.Digest.Shape.{IsHex, hex-sha256, parse_digest_iff}

abbrev pub IsByte : ℕ → Type 0
IsByte b = b < 256

hex_digit-IsHex : (n : ℕ) → n < 16 → IsHex (hex_digit n)
unfolding hex_digit in_set
hex_digit-IsHex n h = ground arith

hex_encode-IsHex : (s : Bytes) → All IsByte s → All IsHex (hex_encode s)
unfolding hex_encode
hex_encode-IsHex [] h = tt
hex_encode-IsHex (b ∷ s) (hb, h) = (
  hex_digit-IsHex (b / 16) (omega arith),
  (hex_digit-IsHex (b % 16) (omega arith), hex_encode-IsHex s h),
)

length-hex_encode : (s : Bytes) → length (hex_encode s) ≡ 2 * length s
unfolding hex_encode
length-hex_encode [] = refl
length-hex_encode (b ∷ s) = omega (arith, length-hex_encode s)

-- The digest of a 32-byte sum is one that `ParseDigest` accepts, and it has the sum's hexadecimal
-- form behind the colon. A sum of any other length is refused.
pub digest_from_sum-valid :
    (sum : Bytes)
    → All IsByte sum
    → (length sum ≡ 32
        → (d : Digest) × (digest_from_sum sum ≡ some d)
          × (parse_digest d ≡ ok d)
          × (hex d ≡ hex_encode sum))
      × (length sum ≢ 32 → digest_from_sum sum ≡ none)
unfolding digest_from_sum
digest_from_sum-valid sum h = (
  λ l. (
    codes "sha256:" ++ hex_encode sum,
    ground arith,
    (parse_digest_iff _ _).1 (
      refl,
      (hex_encode sum, refl, omega (arith, length-hex_encode sum), hex_encode-IsHex sum h),
    ),
    hex-sha256 (hex_encode sum),
  ),
  λ l. ground arith,
)
