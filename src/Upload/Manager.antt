-- ===== src/Upload/Manager.antt =====
-- upload/manager.go: the sessions of one process. `objects` holds every session that was created,
-- live or not, at the number that stands for its pointer: a handler that has looked a session up
-- keeps its pointer while others remove it. `sessions` is the map from ids to pointers. Manager/Steps.antt
-- interleaves the calls, and the halves of those that let go of the lock in between.
pub mod Steps
pub mod Leaks
pub mod Idle
use oci_amber.Prelude.{
  ℕ, suc, ◌+◌, ◌-◌, ◌/◌, Bool, true, false, not, Option, none, some, List, [], ◌∷◌, ◌++◌, ltb, ◌==◌,
  length, get_elem?, update, if◌then◌else◌, min, max,
}
use oci_amber.Prelude.Text.{Bytes}
use oci_amber.Prelude.Assoc.{Assoc, lookup, insert, without}
use oci_amber.Upload.Session.{
  Session, UploadError, unknown, manager_closed, io_error, new_session, touch, offset, CloseIo,
  close,
}
use oci_amber.Upload.Spool.{Outcome, good, bad}

pub record Manager : Type 0 where
  pub dir : Bytes
  pub max_in_memory : ℕ
  pub timeout : ℕ
  pub objects : List Session
  pub sessions : Assoc ℕ
  pub closed : Bool

-- The state that NewManager returns, behind its checks of the arguments and the emptied directory.
abbrev pub new_manager : Bytes → ℕ → ℕ → Manager
new_manager dir max_in_memory timeout = record {
  dir = dir;
  max_in_memory = max_in_memory;
  timeout = timeout;
  objects = [];
  sessions = [];
  closed = false;
}

-- Nanoseconds. A tenth of the timeout, between 10ms and a minute.
unfoldable pub sweep_interval : ℕ → ℕ
sweep_interval timeout = max 10_000_000 (min 60_000_000_000 (timeout / 10))

-- `none` is a failure of the random source.
unfoldable pub create : Option Bytes → ℕ → Manager → Manager × Outcome ℕ
create none now m = (m, bad io_error)
create (some id) now m = if m.closed then (m, bad manager_closed) else (
  record m {
    objects = m.objects ++ new_session id (m.dir ++ b'/' ∷ id) m.max_in_memory now ∷ [];
    sessions = insert id (length m.objects) m.sessions;
  },
  good (length m.objects),
)

-- A method of the session at pointer `p`.
unfoldable pub on_session : (Session → Session) → ℕ → Manager → Manager
on_session f p m = elim (get_elem? m.objects p) [
  | none ↦ m
  | some s ↦ record m { objects = update m.objects p (f s) }
]

unfoldable pub get : Bytes → ℕ → Manager → Manager × Outcome ℕ
unfolding on_session
get id now m = elim (lookup id m.sessions) [
  | none ↦ (m, bad unknown)
  | some p ↦ (on_session (touch now) p m, good p)
]

-- `if m.sessions[id] == s { delete(m.sessions, id) }`
unfoldable pub forget : Bytes → ℕ → Manager → Manager
forget id p m = elim (lookup id m.sessions) [
  | none ↦ m
  | some q ↦ if q == p then record m { sessions = without id m.sessions } else m
]

-- The close of the session at `p`, and whether there was no error.
unfoldable pub close_at : CloseIo → ℕ → Manager → Manager × Bool
close_at io p m = elim (get_elem? m.objects p) [
  | none ↦ (m, true)
  | some s ↦ (record m { objects = update m.objects p (close io s).0 }, (close io s).1)
]

-- The end of Remove and of one round of Sweep: forget the session that was closed.
unfoldable pub close_and_forget : CloseIo → Bytes → ℕ → Manager → Manager × Bool
unfolding close_at forget
close_and_forget io id p m =
    let (n, done) = close_at io p m in if done then (forget id p n, true) else (n, false)

unfoldable pub remove : CloseIo → Bytes → Manager → Manager × Option UploadError
unfolding close_and_forget
remove io id m = elim (lookup id m.sessions) [
  | none ↦ (m, some unknown)
  | some p ↦
      (let (n, done) = close_and_forget io id p m in (n, if done then none else some io_error))
]

-- now.Sub(active) > timeout; a time behind `now` is not idle either way.
unfoldable pub is_idle : ℕ → ℕ → Session → Bool
is_idle now timeout s = ltb timeout (now - s.last_active)

-- The first half of Sweep: the pointers of the sessions that are idle.
unfoldable pub idle : ℕ → Manager → Assoc ℕ → List ℕ
unfolding is_idle
idle now m [] = []
idle now m ((id, p) ∷ rest) =
    let others = idle now m rest in
    elim (get_elem? m.objects p) [
      | none ↦ others
      | some s ↦ if is_idle now m.timeout s then p ∷ others else others
    ]

-- One round of the second half: the session may have become active since. The result counts it.
unfoldable pub expire : CloseIo → ℕ → ℕ → Manager → Manager × ℕ
unfolding close_and_forget is_idle
expire io now p m = elim (get_elem? m.objects p) [
  | none ↦ (m, 0)
  | some s ↦ if not (is_idle now m.timeout s) then (m, 0) else ((close_and_forget io s.id p m).0, 1)
]

-- The second half over the collected pointers, with the answers of each close.
unfoldable pub expire_all : ℕ → List (ℕ × CloseIo) → Manager → Manager × ℕ
unfolding expire
expire_all now [] m = (m, 0)
expire_all now ((p, io) ∷ rest) m =
    let (n, k) = expire io now p m in let (o, l) = expire_all now rest n in (o, k + l)

abbrev pub answered : CloseIo → List ℕ → List (ℕ × CloseIo)
answered io [] = []
answered io (p ∷ ps) = (p, io) ∷ answered io ps

-- A sweep that nothing interrupts.
unfoldable pub sweep : CloseIo → ℕ → Manager → Manager × ℕ
unfolding idle expire_all
sweep io now m = expire_all now (answered io (idle now m m.sessions)) m

-- The rounds of Close: a session is forgotten also when its file could not be removed.
unfoldable pub close_all : List (ℕ × CloseIo) → Manager → Manager × Bool
unfolding close_at forget
close_all [] m = (m, true)
close_all ((p, io) ∷ rest) m =
    let (n, done) = close_at io p m in
    let k : Manager = elim (get_elem? m.objects p) [ none ↦ n | some s ↦ forget s.id p n ] in
    let (o, others) = close_all rest k in (o, elim done [ true ↦ others | false ↦ false ])

abbrev pub pointers : Assoc ℕ → List ℕ
pointers [] = []
pointers ((id, p) ∷ rest) = p ∷ pointers rest

-- (*Manager).Close
unfoldable pub close_manager : CloseIo → Manager → Manager × Bool
unfolding close_all
close_manager io m =
    if m.closed
    then (m, true)
    else close_all (answered io (pointers m.sessions)) (record m { closed = true })
