-- ===== src/Upload/Examples.antt =====
-- An upload of two chunks that spills into a file, its snapshot, and a manager that runs it.
use oci_amber.Prelude.{◌≡◌, refl, true, false, none, some, [], ◌∷◌, length}
use oci_amber.Prelude.Text.{Bytes, codes}
use oci_amber.Prelude.Assoc.{lookup, insert}
use oci_amber.Oci.Digest.{digest_of_bytes}
use oci_amber.Upload.Session.{
  Session, WriteIo, Body, CloseIo, new_session, append, write, copy, close,
}
use oci_amber.Upload.Session.Contents.{IsValid, new_session-IsValid}
use oci_amber.Upload.Session.Append.{Got, received, is_none, append-open}
use oci_amber.Upload.Spool.{Spool, good, Spool, spool}
use oci_amber.Upload.Spool.Snapshot.{Reads, spool_snapshot}
use oci_amber.Upload.Manager.{Manager, new_manager, create, remove, expire_all, is_idle}
use oci_amber.Upload.Manager.Steps.{creates, Reach, here, next}
use oci_amber.Upload.Manager.Leaks.{Tracked, manager-Tracked}
use oci_amber.Upload.Manager.Idle.{Holds, expire_all-active}

abbrev all_ok : WriteIo
all_ok = record { create_ok = true; dumped = 100; unlink_ok = true; taken = 100 }

abbrev full_disk : WriteIo
full_disk = record { create_ok = true; dumped = 100; unlink_ok = true; taken = 2 }

abbrev close_works : CloseIo
close_works = record { close_ok = true; remove_ok = true }

abbrev close_fails : CloseIo
close_fails = record { close_ok = false; remove_ok = false }

abbrev fresh : Session
fresh = new_session (codes "id") (codes "up/id") 4 0

-- The second write spills, and the third one is cut off by a full disk.
abbrev body : Body
body = record {
  chunks =
      record { bytes = codes "abc"; at = 1; io = all_ok }
      ∷ record { bytes = codes "defg"; at = 2; io = all_ok }
      ∷ record { bytes = codes "hijk"; at = 3; io = full_disk }
      ∷ [];
  fails = false;
}

fresh-IsValid : IsValid fresh
fresh-IsValid = new_session-IsValid (codes "id") (codes "up/id") 4 0

append-open_example :
    Got fresh (append 0 4 body fresh).0 (received body.chunks) (is_none (append 0 4 body fresh).2)
    × ((append 0 4 body fresh).1 ≡ length (append 0 4 body fresh).0.hash)
append-open_example = append-open 0 4 body fresh fresh-IsValid refl

append-run :
    ((append 0 4 body fresh).0.disk ≡ some (codes "abcdefghi")) × ((append 0 4 body fresh).1 ≡ 9)
unfolding append copy write
append-run = (refl, refl)

-- Not a hash: any function will do.
abbrev first_byte : Bytes → Bytes
first_byte [] = 0 ∷ []
first_byte (c ∷ s) = c ∷ []

spool_snapshot_example :
    (sp : Spool) × ((spool first_byte 5 fresh).1 ≡ good sp)
    × (sp.digest ≡ digest_of_bytes first_byte fresh.hash)
    × Reads fresh sp fresh.hash
    × Reads (append 6 7 body fresh).0 sp fresh.hash
spool_snapshot_example = spool_snapshot first_byte 5 6 7 body fresh fresh-IsValid refl refl

abbrev empty_manager : Manager
empty_manager = new_manager (codes "up") 4 100

abbrev one_session : Manager
one_session = (create (some (codes "id")) 0 empty_manager).0

Reach-one : Reach empty_manager one_session
unfolding lookup
Reach-one = next here (creates (codes "id") 0 refl)

-- The spool of the session's file.
abbrev taken : Spool
taken = record {
  size = 9;
  digest = [];
  mem = [];
  path = codes "up/id";
  ra = none;
  off = 0;
  removed = false;
}

one_session-Tracked : Tracked one_session
one_session-Tracked = manager-Tracked (codes "up") 4 100 Reach-one

one_session-Holds : Holds 0 fresh one_session
unfolding create insert lookup
one_session-Holds = (refl, refl)

one_session-active : is_idle 90 one_session.timeout fresh ≡ false
unfolding is_idle create
one_session-active = refl

expire_all-active_example : Holds 0 fresh (expire_all 90 ((0, close_works) ∷ []) one_session).0
expire_all-active_example =
    expire_all-active 90 ((0, close_works) ∷ []) 0 fresh one_session one_session-active
      one_session-Holds

remove-one : (remove close_works (codes "id") one_session).1 ≡ none
unfolding remove create insert lookup close
remove-one = refl
