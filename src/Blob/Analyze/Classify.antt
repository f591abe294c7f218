-- ===== src/Blob/Analyze/Classify.antt =====
-- Which uploads become prisms, and which are refused.
use oci_amber.Prelude.{◌≡◌, ◌⊎◌, Option, true, false, none, some, arith}
use oci_amber.Blob.Tar.{Content}
use oci_amber.Blob.Tar.Probe.{IsArchive, IsUnread}
use oci_amber.Blob.Analyze.{
  starts_with_tar, Format, not_tar, unsupported, Probe, as_raw, is_zstd, is_plain, probe_header,
  classify, analyze,
}

-- An upload whose first block is read and is no tar header is stored raw, whatever the store allows,
-- unless it is refused for its zstd window or the upload fails.
pub analyze-not_tar :
    (p : Probe) (f : Format)
    → p.over ≡ false
    → p.opens ≡ true
    → p.format ≡ some f
    → starts_with_tar p.content ≡ some false
    → (analyze p ≡ some (as_raw not_tar f))
      ⊎ ((analyze p ≡ some (as_raw unsupported f)) × (is_zstd f ≡ true))
unfolding analyze classify probe_header
analyze-not_tar p f o s g t = ground arith

-- The stream is an archive, or it is compressed and cannot be read so far.
abbrev pub IsTar : Format → Option Content → Type 0
IsTar f none = is_plain f ≡ false
IsTar f (some c) = IsArchive c ⊎ (IsUnread c × (is_plain f ≡ false))
