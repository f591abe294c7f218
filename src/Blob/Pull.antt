-- ===== src/Blob/Pull.antt =====
-- blob/pull.go: a stored blob, streamed out. The client takes a write whole or not at all, as `takes`
-- says of what it has got and the next part. fstree.WriteContent and the composer of prisms are
-- arguments: what they wrote, and whether they did without an error.
pub mod Slice
use oci_amber.Prelude.{
  ℕ, zero, suc, ◌+◌, ◌-◌, Bool, true, false, not, ◌||◌, Option, none, some, List, [], ◌∷◌, ◌++◌,
  ltb, leb, ◌==◌, length, min, if◌then◌else◌,
}
use oci_amber.Prelude.Int.{pos}
use oci_amber.Prelude.Text.{Bytes, bytes_eq}
use oci_amber.Oci.Digest.{Digest, digest_of_bytes}
use oci_amber.Store.{Key, Keys}
use oci_amber.Store.Reader.{Reader, Stop, new_reader, read, skip}
use oci_amber.Blob.Store.{Content, raw_content, prism_content, Root}

-- (*Blob).SupportsRange: a raw blob has a reason.
unfoldable pub supports_range : Root → Bool
supports_range b = elim b.meta.raw_reason [ none ↦ false | some r ↦ true ]

-- What a stream ends with.
pub data PullError : Type 0 where
  digest_mismatch pull_failed : PullError

pub record Pulled : Type 0 where
  pub written : Bytes
  pub error : Option PullError

abbrev pub sent : Bytes → Pulled
sent p = record { written = p; error = none }

abbrev pub broken_off : Bytes → Pulled
broken_off p = record { written = p; error = some pull_failed }

-- The buffer of io.Copy.
abbrev pub copy_buffer : ℕ
copy_buffer = 32768

-- LookupKey of the entry "raw".
abbrev pub raw_key : Content → Option Key
raw_key (raw_content k) = some k
raw_key (prism_content a b c d) = none

module _ (keys : Keys) (get : Key → Option Bytes) (decode : Bytes → Option (List Key))
    (takes : Bytes → Bytes → Bool) where
  -- What one Read of the loop of io.CopyN brings, and the rest of the loop. An empty part is no write.
  unfoldable pub copied : (Bytes → Option Pulled) → Bytes → Bytes → Option Stop → Option Pulled
  copied rest out p (some e) = some (broken_off out)
  copied rest out [] none = rest out
  copied rest out (c ∷ p) none =
      if takes out (c ∷ p) then rest (out ++ c ∷ p) else some (broken_off out)

  -- io.CopyN of `left` more bytes.
  unfoldable pub copy_n : ℕ → ℕ → ℕ → Bytes → Reader → Option Pulled
  unfolding copied
  copy_n f zero left out r = none
  copy_n f (suc g) left out r = elim (left == 0) [
    | true ↦ some (sent out)
    | false ↦ elim (read keys get decode f (min copy_buffer left) r) [
      | none ↦ none
      | some (r', p, e) ↦ copied (λ o. copy_n f g (left - length p) o r') out p e
    ]
  ]

  copy_from : ℕ → ℕ → ℕ → Reader × Bool → Option Pulled
  unfolding copy_n
  copy_from f start end (r, false) = some (broken_off [])
  copy_from f start end (r, true) = copy_n f (end - start + 2) (end - start + 1) [] r

  -- (*Blob).WriteRange
  unfoldable pub write_range : ℕ → ℕ → ℕ → Root → Option Pulled
  unfolding copy_from
  write_range f start end b =
      if not (supports_range b)
      then some (broken_off [])
      else if ltb end start || leb b.meta.size end
      then some (broken_off [])
      else elim (raw_key b.content) [
        | none ↦ some (broken_off [])
        | some k ↦ elim (skip keys get decode f (pos start) (new_reader k)) [
          | none ↦ none
          | some r ↦ copy_from f start end r
        ]
      ]

-- The bytes of a whole blob, written by the amber core or by the composer.
abbrev pub Source : Type 0
Source = Content → Bytes × Bool

-- (*Blob).WriteTo
unfoldable pub write_to : (Bytes → Bytes) → Source → Root → Pulled
write_to sha256 source b =
    let (out, done) = source b.content in
    if not done
    then broken_off out
    else if bytes_eq (digest_of_bytes sha256 out) b.meta.digest
    then sent out
    else record { written = out; error = some digest_mismatch }
