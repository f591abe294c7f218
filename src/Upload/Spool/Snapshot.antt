-- ===== src/Upload/Spool/Snapshot.antt =====
-- A spool reads what the session held when it was taken, whatever is appended later.
use oci_amber.Prelude.{
  ℕ, ◌≡◌, refl, ap, ◌∙◌, ◌++◌, Bool, true, false, inl, inr, Option, none, some, [], arith, take,
  take-append, Bool-cases,
}
use oci_amber.Prelude.Text.{Bytes}
use oci_amber.Oci.Digest.{is_empty, digest_of_bytes}
use oci_amber.Upload.Session.{Session, Body, append, spool_removed}
use oci_amber.Upload.Session.Contents.{IsValid}
use oci_amber.Upload.Session.Append.{Got, Got-refl, append-open}
use oci_amber.Upload.Spool.{good, bad, Spool, open_spool, snapshot, spool, remove_spool}

-- The spool of a session, as a reader sees it.
abbrev pub Reads : Session → Spool → Bytes → Type 0
Reads t sp p = open_spool t.disk sp ≡ good p

open_spool-memory :
    (d : Option Bytes) (sp : Spool)
    → sp.removed ≡ false
    → sp.ra ≡ none
    → sp.path ≡ []
    → open_spool d sp ≡ good sp.mem
unfolding open_spool
open_spool-memory d sp r a p = ground arith

open_spool-file :
    (d : Bytes) (sp : Spool)
    → sp.removed ≡ false
    → sp.ra ≡ none
    → is_empty sp.path ≡ false
    → open_spool (some d) sp ≡ good (take sp.size d)
unfolding open_spool
open_spool-file d sp r a p = ground arith

module _ (sha256 : Bytes → Bytes) where
  Reads-memory :
      (s : Session) (d : Option Bytes)
      → IsValid s
      → s.closed ≡ false
      → s.file ≡ false
      → open_spool d (snapshot sha256 s) ≡ good s.hash
  unfolding snapshot
  Reads-memory s d v o f =
      open_spool-memory d (snapshot sha256 s) refl refl (ground arith)
      ∙ ap good (ground (arith, v.in_memory o f))

  Reads-file :
      (s t : Session) (rest : Bytes)
      → IsValid s
      → IsValid t
      → s.file ≡ true
      → t.closed ≡ false
      → t.file ≡ true
      → t.hash ≡ s.hash ++ rest
      → is_empty s.path ≡ false
      → open_spool t.disk (snapshot sha256 s) ≡ good s.hash
  unfolding snapshot
  Reads-file s t rest v w f o g e named = rw (w.in_file o g) (
      open_spool-file t.hash (snapshot sha256 s) refl refl (rw f named)
      ∙ ap good (rw (e, v.sized) (take-append s.hash rest)))

  Reads-later :
      (s t : Session) (p : Bytes) (d : Bool)
      → IsValid s
      → s.closed ≡ false
      → is_empty s.path ≡ false
      → Got s t p d
      → Reads t (snapshot sha256 s) s.hash
  Reads-later s t p d v o named g = elim (Bool-cases s.file) [
    | inl f ↦ Reads-file s t g.taken v g.valid f (g.closed ∙ o) (g.kept f) g.hash named
    | inr f ↦ Reads-memory s t.disk v o f
  ]

  -- The snapshot of an open session has the digest of the bytes received so far. Reading it gives
  -- those bytes, at once and also after any later append to the session, failing or not.
  pub spool_snapshot :
      (now entry exit : ℕ) (body : Body) (s : Session)
      → IsValid s
      → s.closed ≡ false
      → is_empty s.path ≡ false
      → (sp : Spool) × ((spool sha256 now s).1 ≡ good sp)
        × (sp.digest ≡ digest_of_bytes sha256 s.hash)
        × Reads s sp s.hash
        × Reads (append entry exit body s).0 sp s.hash
  unfolding spool
  spool_snapshot now entry exit body s v o named = (
    snapshot sha256 s,
    ground arith,
    refl,
    Reads-later s s [] true v o named (Got-refl s v),
    Reads-later s _ _ _ v o named (append-open entry exit body s v o).0,
  )

-- After Remove no reader is given out, and the session's file is gone if it could be unlinked.
pub open_spool-remove_spool :
    (ok : Bool) (disk : Option Bytes) (sp : Spool)
    → (open_spool (remove_spool ok disk sp).1 (remove_spool ok disk sp).0 ≡ bad spool_removed)
      × ((remove_spool ok disk sp).2 ≡ true
          → is_empty sp.path ≡ false
          → (remove_spool ok disk sp).1 ≡ none)
unfolding open_spool remove_spool
open_spool-remove_spool ok disk sp = ground arith
