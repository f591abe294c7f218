-- ===== src/Image/Pull.antt =====
-- image/store.go: the stored bytes of a manifest, streamed out and hashed. The client takes a write whole
-- or not at all, as `takes` says of what it has got and the next part; `live` says whether the context
-- lets the loop go on behind what is written.
pub mod Verified
use oci_amber.Prelude.{
  ℕ, zero, suc, Bool, true, false, not, Option, none, some, List, [], ◌∷◌, ◌++◌, if◌then◌else◌,
}
use oci_amber.Prelude.Text.{Bytes, bytes_eq}
use oci_amber.Oci.Digest.{Digest, digest_of_bytes}
use oci_amber.Store.{Key, Keys}
use oci_amber.Store.Reader.{Reader, Stop, eof, failed, new_reader, read}
use oci_amber.Blob.Pull.{Pulled, sent, broken_off, digest_mismatch}
use oci_amber.Image.Store.{Image}

-- The size of the buffer.
abbrev pub image_buffer : ℕ
image_buffer = 65536

-- The store below and the client of a stream.
pub record Stream : Type 0 where
  pub keys : Keys
  pub get : Key → Option Bytes
  pub decode : Bytes → Option (List Key)
  pub takes : Bytes → Bytes → Bool
  pub live : Bytes → Bool
  pub sha256 : Bytes → Bytes

module _ (p : Stream) (digest : Digest) where
  -- The comparison behind the loop.
  unfoldable pub hashed : Bytes → Pulled
  hashed out =
      if bytes_eq (digest_of_bytes p.sha256 out) digest
      then sent out
      else record { written = out; error = some digest_mismatch }

  -- Behind the write of one part.
  unfoldable pub image_step : (Bytes → Option Pulled) → Bytes → Option Stop → Option Pulled
  unfolding hashed
  image_step rest out none = rest out
  image_step rest out (some eof) = some (hashed out)
  image_step rest out (some failed) = some (broken_off out)

  -- An empty part is no write.
  unfoldable pub image_part : (Bytes → Option Pulled) → Bytes → Bytes → Option Stop → Option Pulled
  unfolding image_step
  image_part rest out [] e = image_step rest out e
  image_part rest out (c ∷ q) e =
      if p.takes out (c ∷ q) then image_step rest (out ++ c ∷ q) e else some (broken_off out)

  -- The loop of (*Image).WriteTo, in `g` rounds at most.
  unfoldable pub image_loop : ℕ → ℕ → Bytes → Reader → Option Pulled
  unfolding image_part
  image_loop f zero out r = none
  image_loop f (suc g) out r = elim (p.live out) [
    | false ↦ some (broken_off out)
    | true ↦ elim (read p.keys p.get p.decode f image_buffer r) [
      | none ↦ none
      | some (r', q, e) ↦ image_part (λ o. image_loop f g o r') out q e
    ]
  ]

-- (*Image).WriteTo
unfoldable pub write_image : Stream → ℕ → ℕ → Image → Option Pulled
unfolding image_loop
write_image p f g im = image_loop p im.meta.digest f g [] (new_reader im.manifest)
