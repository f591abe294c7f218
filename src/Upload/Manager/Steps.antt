-- ===== src/Upload/Manager/Steps.antt =====
-- Requests, the sweeper and the end of the process as interleaved steps of one manager.
use oci_amber.Prelude.{ℕ, ◌≡◌, Bool, true, none, some, get_elem?}
use oci_amber.Prelude.Text.{Bytes}
use oci_amber.Prelude.Assoc.{lookup}
use oci_amber.Upload.Session.{Session, Body, append, CloseIo}
use oci_amber.Upload.Spool.{Spool, spool, open_touch, remove_spool}
use oci_amber.Upload.Manager.{Manager, create, get, on_session, remove, expire, close_at, forget}

-- A session id is never drawn twice (16 random bytes); everything else is up to the environment:
-- which pointers a handler still holds, what bodies arrive, and what the system calls answer.
pub data Step (m : Manager) : Manager → Type 0 where
  creates : (id : Bytes) (now : ℕ) → lookup id m.sessions ≡ none → Step m (create (some id) now m).0
  gets : (id : Bytes) (now : ℕ) → Step m (get id now m).0
  appends :
      (p entry exit : ℕ) (body : Body) → Step m (on_session (λ s. (append entry exit body s).0) p m)
  spools :
      (p now : ℕ) (sha256 : Bytes → Bytes) → Step m (on_session (λ s. (spool sha256 now s).0) p m)
  opens : (p now : ℕ) (sp : Spool) → Step m (on_session (open_touch now sp) p m)
  removes : (id : Bytes) (io : CloseIo) → Step m (remove io id m).0
  expires : (p now : ℕ) (io : CloseIo) → Step m (expire io now p m).0
  -- The halves of Remove and of a round of Sweep, which other requests come between: the close, and,
  -- when it reported no error, the forgetting. A removed session stays removed.
  closes : (p : ℕ) (io : CloseIo) → Step m (close_at io p m).0
  forgets :
      (id : Bytes) (p : ℕ)
      → ((s : Session) → get_elem? m.objects p ≡ some s → s.removed ≡ true)
      → Step m (forget id p m)
  -- Spool.Remove, of a spool that shares its file with the session.
  unlinks :
      (p : ℕ) (sp : Spool) (unlink_ok : Bool)
      → Step m (on_session (λ s. record s { disk = (remove_spool unlink_ok s.disk sp).1 }) p m)
  -- The parts of Manager.Close, beside the close of each session: it sets closed first, and forgets each
  -- session also when its file could not be removed.
  shuts : Step m (record m { closed = true })
  drops : (id : Bytes) (p : ℕ) → m.closed ≡ true → Step m (forget id p m)

pub data Reach (m : Manager) : Manager → Type 0 where
  here : Reach m m
  next : {n o : Manager} → Reach m n → Step n o → Reach m o
