-- ===== src/Blob/Analyze.antt =====
-- blob/analyze.go and blob/refuse.go: what a blob is stored as. What zrecipe and the readers answer
-- about the upload's bytes is an argument.
pub mod Classify
use oci_amber.Blob.Tar.{Content, probe_tar}
use oci_amber.Prelude.{
  ℕ, Bool, true, false, not, ◌&&◌, ◌||◌, Option, none, some, ltb, if◌then◌else◌,
}

pub data Format : Type 0 where
  format_none format_gzip format_zstd format_other : Format

pub data Reason : Type 0 where
  not_tar analyze_timeout not_reproducible unsupported corrupt roundtrip_failed decompose_failed :
      Reason

-- What zrecipe.Start answers. `deadline` is the end of the analyze timeout.
pub data Start : Type 0 where
  started deadline irreproducible unsupported_stream corrupt_stream start_failed : Start

-- The answers about one upload: whether the request is over, before the analysis and when Start
-- failed, whether the spool opens, its format, the window of a zstd header, and the stream, which is
-- decompressed as its format says, where `none` is a failure to open it.
pub record Probe : Type 0 where
  pub over : Bool
  pub over_later : Bool
  pub opens : Bool
  pub format : Option Format
  pub window : Option ℕ
  pub content : Option Content
  pub start : Start

pub data Decision : Type 0 where
  as_prism : Format → Decision
  as_raw : Reason → Format → Decision

abbrev pub max_zstd_window : ℕ
max_zstd_window = 134217728

abbrev pub is_zstd : Format → Bool
is_zstd format_zstd = true
is_zstd _ = false

abbrev pub is_plain : Format → Bool
is_plain format_none = true
is_plain _ = false

-- A header that cannot be parsed decides nothing.
abbrev pub window_exceeds : Option ℕ → Bool
window_exceeds none = false
window_exceeds (some w) = ltb max_zstd_window w

-- zrecipe.Start and the switch over its error.
start_analysis : Probe → Format → Option Decision
start_analysis p f = elim p.start [
  | started ↦ some (as_prism f)
  | deadline ↦ if p.over_later then none else some (as_raw analyze_timeout f)
  | irreproducible ↦ if p.over_later then none else some (as_raw not_reproducible f)
  | unsupported_stream ↦ if p.over_later then none else some (as_raw unsupported f)
  | corrupt_stream ↦ if p.over_later then none else some (as_raw corrupt f)
  | start_failed ↦ none
]

-- startsWithTarHeader and startsWithCompressedTarHeader
abbrev pub starts_with_tar : Option Content → Option Bool
starts_with_tar none = none
starts_with_tar (some c) = probe_tar c

-- The probe for a tar archive: a compressed stream that cannot be read decides nothing.
probe_header : Probe → Format → Option Decision
unfolding start_analysis
probe_header p f = elim (starts_with_tar p.content) [
  | some true ↦ start_analysis p f
  | some false ↦ some (as_raw not_tar f)
  | none ↦ if is_plain f then none else start_analysis p f
]

classify : Probe → Format → Option Decision
unfolding probe_header
classify p f =
    if is_zstd f && window_exceeds p.window then some (as_raw unsupported f) else probe_header p f

-- `none` is a failure that fails the upload.
unfoldable pub analyze : Probe → Option Decision
unfolding classify
analyze p =
    if p.over
    then none
    else if not p.opens
    then none
    else elim p.format [ none ↦ none | some f ↦ classify p f ]

abbrev pub is_not_tar : Reason → Bool
is_not_tar not_tar = true
is_not_tar _ = false

-- Whether the blob may be stored raw.
unfoldable pub refuse_raw : Bool → Reason → Bool
refuse_raw allow_raw reason = not (is_not_tar reason || allow_raw)
