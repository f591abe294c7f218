-- ===== src/Oci/Names.antt =====
-- oci/names.go: repository names, tags and references.
pub mod Charset
pub mod Split
use oci_amber.Prelude.{
  ℕ, suc, ◌+◌, Bool, true, false, not, Option, none, some, List, [], ◌∷◌, ltb, length, take, drop,
  if◌then◌else◌,
}
use oci_amber.Prelude.Text.{Bytes, index_byte, last_index_byte}
use oci_amber.Regex.{Ranges, Regex, set, seq, alt, star, byte, plus, up_to, matches}
use oci_amber.Oci.Digest.{alnum, is_empty}
use oci_amber.Oci.Errors.{Result, ok, err, new_error, name_invalid, manifest_invalid}

abbrev pub max_repository_length : ℕ
max_repository_length = 255

-- (?:\.|_|__|-+)
abbrev separator_re : Regex
separator_re =
    alt (byte b'.') (alt (byte b'_') (alt (seq (byte b'_') (byte b'_')) (plus (byte b'-'))))

abbrev component_re : Regex
component_re = seq (plus (set alnum)) (star (seq separator_re (plus (set alnum))))

-- Components joined by '/'.
unfoldable pub repository_re : Regex
repository_re = seq component_re (star (seq (byte b'/') component_re))

abbrev pub word_set : Ranges
word_set = (b'a', b'z') ∷ (b'A', b'Z') ∷ (b'0', b'9') ∷ (b'_', b'_') ∷ []

abbrev pub tag_set : Ranges
tag_set =
    (b'a', b'z') ∷ (b'A', b'Z') ∷ (b'0', b'9') ∷ (b'.', b'.') ∷ (b'_', b'_') ∷ (b'-', b'-') ∷ []

-- ^[a-zA-Z0-9_][a-zA-Z0-9._-]{0,127}$
unfoldable pub tag_re : Regex
tag_re = seq (set word_set) (up_to 127 (set tag_set))

unfoldable pub validate_repository : Bytes → Result (Unit {0})
validate_repository name =
    if is_empty name
    then err (new_error name_invalid)
    else if ltb max_repository_length (length name)
    then err (new_error name_invalid)
    else if not (matches repository_re name)
    then err (new_error name_invalid)
    else ok tt

unfoldable pub validate_tag : Bytes → Result (Unit {0})
validate_tag tag = if not (matches tag_re tag) then err (new_error manifest_invalid) else ok tt

-- `slash + 1`, where Go's index is -1 if there is no slash.
abbrev pub after_slash : Option ℕ → ℕ
after_slash none = 0
after_slash (some i) = suc i

split_tag : Bytes → ℕ → Option ℕ → Bytes × Bytes
split_tag s start none = (s, [])
split_tag s start (some i) = (take (start + i) s, drop (suc (start + i)) s)

split_at : Bytes → Option ℕ → Bytes × Bytes
unfolding split_tag
split_at s (some i) = (take i s, drop (suc i) s)
split_at s none =
    let start = after_slash (last_index_byte s b'/') in
    split_tag s start (index_byte (drop start s) b':')

-- The repository and the reference, "" for a bare repository.
unfoldable pub split_reference : Bytes → Bytes × Bytes
unfolding split_at
split_reference s = split_at s (index_byte s b'@')
