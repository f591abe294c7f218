-- ===== src/Upload/Session.antt =====
-- upload/session.go: one upload session. The session's file is the field `disk`, `none` when there
-- is no file at the session's path. The running sha256 is the list of the bytes that were written
-- into it. What the operating system answers is an argument of each call.
pub mod Contents
pub mod Append
pub mod Close
pub mod Unlinked
pub mod Same
use oci_amber.Prelude.{
  ℕ, ◌+◌, ◌<◌, Bool, true, false, not, ◌&&◌, ◌||◌, Option, none, some, List, [], ◌∷◌, ◌++◌, min,
  ltb, length, take, if◌then◌else◌,
}
use oci_amber.Prelude.Text.{Bytes}

pub data UploadError : Type 0 where
  unknown : UploadError
  manager_closed : UploadError
  spool_removed : UploadError
  io_error : UploadError

pub record Session : Type 0 where
  pub id : Bytes
  pub path : Bytes
  pub max_in_memory : ℕ
  pub buf : Bytes
  pub file : Bool
  pub size : ℕ
  pub hash : Bytes
  pub closed : Bool
  pub removed : Bool
  pub last_active : ℕ
  pub disk : Option Bytes

-- The answers to one write: whether the file could be created, how many bytes of the buffer could be
-- written out, whether the file of a failed spill could be unlinked, and how many bytes a write to
-- the file took. A file write that takes fewer bytes than it was given reports an error.
pub record WriteIo : Type 0 where
  pub create_ok : Bool
  pub dumped : ℕ
  pub unlink_ok : Bool
  pub taken : ℕ

abbrev pub new_session : Bytes → Bytes → ℕ → ℕ → Session
new_session id path max_in_memory now = record {
  id = id;
  path = path;
  max_in_memory = max_in_memory;
  buf = [];
  file = false;
  size = 0;
  hash = [];
  closed = false;
  removed = false;
  last_active = now;
  disk = none;
}

abbrev pub touch : ℕ → Session → Session
touch now s = record s { last_active = now }

-- O_CREATE|O_EXCL refuses a path that has a file.
create_file : WriteIo → Session → Bool
create_file io s = io.create_ok && elim s.disk [ none ↦ true | some d ↦ false ]

-- The session afterwards, and whether it spilled.
spill : WriteIo → Session → Session × Bool
unfolding create_file
spill io s =
    if not (create_file io s)
    then (s, false)
    else if ltb io.dumped (length s.buf)
    then (record s { disk = if io.unlink_ok then none else some (take io.dumped s.buf) }, false)
    else (record s { file = true; buf = []; disk = some s.buf }, true)

-- A write to the open file.
abbrev extend : Option Bytes → Bytes → Option Bytes
extend none p = none
extend (some d) p = some (d ++ p)

write_file : WriteIo → Session → Bytes → Session × ℕ × Bool
write_file io s p =
    let n = min io.taken (length p) in
    let q = take n p in
    (
      record s { disk = extend s.disk q; hash = s.hash ++ q; size = s.size + n },
      n,
      not (ltb n (length p)),
    )

write_buffer : Session → Bytes → Session × ℕ × Bool
write_buffer s p =
    (record s { buf = s.buf ++ p; hash = s.hash ++ p; size = s.size + length p }, length p, true)

-- The part of `write` behind the spill: the file if there is one.
write_on : WriteIo → Session → Bytes → Session × ℕ × Bool
unfolding write_file write_buffer
write_on io s p = if s.file then write_file io s p else write_buffer s p

-- The write behind a spill, which ends it if it failed.
write_spilled : WriteIo → Bytes → Session × Bool → Session × ℕ × Bool
write_spilled io p (u, done) = if done then write_on io u p else (u, 0, false)

-- The session, the number of bytes written, and whether there was no error.
unfoldable pub write : WriteIo → ℕ → Session → Bytes → Session × ℕ × Bool
unfolding spill write_on write_spilled
write io now s p =
    let t = touch now s in
    if not t.file && ltb t.max_in_memory (t.size + length p)
    then write_spilled io p (spill io t)
    else write_on io t p

-- What a request body delivers: chunks, each with the time and the answers of the write that it
-- causes, and then the end, or a failure of the reader.
pub record Chunk : Type 0 where
  pub bytes : Bytes
  pub at : ℕ
  pub io : WriteIo

pub record Body : Type 0 where
  pub chunks : List Chunk
  pub fails : Bool

-- io.Copy: an empty read writes nothing, and a failed write ends the copy.
unfoldable pub copy : List Chunk → Bool → Session → Session × Bool
copy [] fails s = (s, not fails)
copy (c ∷ cs) fails s =
    let skip = copy cs fails s in
    let next = copy cs fails (write c.io c.at s c.bytes).0 in
    if ltb 0 (length c.bytes)
    then (if (write c.io c.at s c.bytes).2 then next else ((write c.io c.at s c.bytes).0, false))
    else skip

append_end : ℕ → Session × Bool → Session × ℕ × Option UploadError
append_end exit (t, done) = (touch exit t, t.size, if done then none else some io_error)

-- The new total, and the error if there is one. `entry` and `exit` are the times of the touches
-- around the copy.
unfoldable pub append : ℕ → ℕ → Body → Session → Session × ℕ × Option UploadError
unfolding append_end
append entry exit body s =
    if s.closed
    then (touch exit s, s.size, some unknown)
    else append_end exit (copy body.chunks body.fails (touch entry s))

abbrev pub offset : Session → ℕ
offset s = s.size

-- The answers to one close: whether the descriptor could be closed and the file unlinked.
pub record CloseIo : Type 0 where
  pub close_ok : Bool
  pub remove_ok : Bool

-- The session, and whether there was no error. Unlinking a file that is not there succeeds.
unfoldable pub close : CloseIo → Session → Session × Bool
close io s =
    let t = record s { closed = true } in
    if t.removed
    then (t, true)
    else let fd_ok = not t.file || io.close_ok in
      let u = record t { buf = []; file = t.file && not io.close_ok } in
      if elim u.disk [ none ↦ true | some d ↦ io.remove_ok ]
      then (record u { removed = true; disk = none }, fd_ok)
      else (u, false)
