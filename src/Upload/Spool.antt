-- ===== src/Upload/Spool.antt =====
-- upload/spool.go and (*Session).Spool: snapshots of an upload.
pub mod Snapshot
use oci_amber.Prelude.{
  ℕ, Bool, true, false, not, ◌||◌, Option, none, some, [], ◌∷◌, length, take, drop, if◌then◌else◌,
}
use oci_amber.Prelude.Text.{Bytes}
use oci_amber.Oci.Digest.{Digest, is_empty, digest_of_bytes}
use oci_amber.Upload.Session.{Session, UploadError, unknown, spool_removed, io_error, touch}

pub data Outcome {ℓ} (A : Type ℓ) : Type ℓ where
  good : A → Outcome A
  bad : UploadError → Outcome A

-- `path` is "" unless a file backs the spool; `ra` is the caller's reader of a section spool.
pub record Spool : Type 0 where
  pub size : ℕ
  pub digest : Digest
  pub mem : Bytes
  pub path : Bytes
  pub ra : Option Bytes
  pub off : ℕ
  pub removed : Bool

-- What a reader of the spool delivers. `disk` is the file at the spool's path. What Open does to the
-- session is open_touch.
unfoldable pub open_spool : Option Bytes → Spool → Outcome Bytes
open_spool disk sp = if sp.removed then bad spool_removed else elim sp.ra [
  | some source ↦ good (take sp.size (drop sp.off source))
  | none ↦
      if is_empty sp.path
      then good sp.mem
      else elim disk [ none ↦ bad io_error | some d ↦ good (take sp.size d) ]
]

-- Open of a spool of a session touches the session, unless the spool is removed.
abbrev pub open_touch : ℕ → Spool → Session → Session
open_touch now sp s = if sp.removed then s else touch now s

-- The spool, the file that is left, and whether there was no error.
unfoldable pub remove_spool : Bool → Option Bytes → Spool → Spool × Option Bytes × Bool
remove_spool remove_ok disk sp =
    let gone = record sp { removed = true; mem = []; ra = none } in
    if is_empty sp.path then (gone, disk, true) else elim disk [
      | none ↦ (gone, none, true)
      | some d ↦ if remove_ok then (gone, none, true) else (gone, some d, false)
    ]

module _ (sha256 : Bytes → Bytes) where
  unfoldable pub new_memory_spool : Bytes → Spool
  new_memory_spool bytes = record {
    size = length bytes;
    digest = digest_of_bytes sha256 bytes;
    mem = bytes;
    path = [];
    ra = none;
    off = 0;
    removed = false;
  }

  snapshot : Session → Spool
  snapshot s = record {
    size = s.size;
    digest = digest_of_bytes sha256 s.hash;
    mem = if s.file then [] else s.buf;
    path = if s.file then s.path else [];
    ra = none;
    off = 0;
    removed = false;
  }

  -- The session is touched whether or not it is closed.
  unfoldable pub spool : ℕ → Session → Session × Outcome Spool
  unfolding snapshot
  spool now s = if s.closed then (touch now s, bad unknown) else (touch now s, good (snapshot s))

unfoldable pub new_section_spool : Bytes → ℕ → ℕ → Digest → Spool
new_section_spool source off size d = record {
  size = size;
  digest = d;
  mem = [];
  path = [];
  ra = some source;
  off = off;
  removed = false;
}
