-- ===== src/Upload/Session/Close.antt =====
-- Closing a session is final at once, and can be retried until the file is gone.
use oci_amber.Prelude.{◌≡◌, true, false, none, [], arith}
use oci_amber.Upload.Session.{Session, CloseIo, close}

-- A removed session has no file and no buffer.
abbrev pub IsGone : Session → Type 0
IsGone s = (s.closed ≡ true) × (s.removed ≡ true) × (s.disk ≡ none)

-- After any close the session takes no bytes. It is removed, with its file gone, if the file could
-- be unlinked, and otherwise keeps its file for a later call.
pub close_lem :
    (io : CloseIo) (s : Session)
    → s.removed ≡ false
    → ((close io s).0.closed ≡ true)
      × ((close io s).0.buf ≡ [])
      × (io.remove_ok ≡ true → IsGone (close io s).0)
      × ((close io s).0.removed ≡ false → ((close io s).0.disk ≡ s.disk) × ((close io s).1 ≡ false))
unfolding close
close_lem io s r = ground arith

-- A removed session that is closed again stays as it is, without an error.
pub close-removed : (io : CloseIo) (s : Session) → IsGone s → close io s ≡ (s, true)
unfolding close
close-removed io s g = ground arith

-- A close whose system calls succeed removes the session and reports no error, also when earlier
-- closes failed, in whatever way.
pub close-close :
    (first second : CloseIo) (s : Session)
    → s.removed ≡ false
    → second.close_ok ≡ true
    → second.remove_ok ≡ true
    → IsGone (close second (close first s).0).0 × ((close second (close first s).0).1 ≡ true)
unfolding close
close-close first second s r c o = ground arith
