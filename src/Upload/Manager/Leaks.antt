-- ===== src/Upload/Manager/Leaks.antt =====
-- No session is lost: whatever requests, the sweeper and a shutdown do, and however they interleave.
use oci_amber.Prelude.{
  ℕ, ◌≡◌, ◌⊎◌, refl, Option, ap, sym, subst, Bool, true, false, none, some, inl, inr, ◌++◌, [], ◌∷◌,
  arith, length, get_elem?, update, get_elem?-update, get_elem?-lt, get_elem?-append, Bool-cases,
  if◌then◌else◌,
}
use oci_amber.Prelude.Maybe.{Option-cases}
use oci_amber.Prelude.Text.{Bytes}
use oci_amber.Prelude.Text.Laws.{bytes_eq_iff}
use oci_amber.Prelude.Assoc.{lookup, insert, without, lookup-insert, lookup-without}
use oci_amber.Upload.Session.{Session, CloseIo, append, touch, close, new_session}
use oci_amber.Upload.Session.Contents.{new_session-IsValid}
use oci_amber.Upload.Session.Close.{IsGone}
use oci_amber.Upload.Session.Same.{
  IsKept, Later, touch-Later, append-Later, close-Later, close-done, unlinked-Later,
}
use oci_amber.Upload.Spool.{Spool, spool, open_touch, remove_spool}
use oci_amber.Upload.Manager.{
  Manager, new_manager, create, on_session, get, remove, expire, close_at, forget, close_and_forget,
  is_idle,
}
use oci_amber.Upload.Manager.Steps.{
  Step, creates, gets, appends, spools, opens, removes, expires, closes, forgets, unlinks, shuts,
  drops, Reach, here, next,
}

-- Unless the manager is closed, a session that is not removed is registered under its id; a removed one
-- has no file; and every session is valid, but for a file that was removed with a spool.
pub record Tracked (m : Manager) : Type 0 where
  pub kept :
      m.closed ≡ false
      → (p : ℕ) (s : Session) → get_elem? m.objects p ≡ some s
      → s.removed ≡ false
      → lookup s.id m.sessions ≡ some p
  pub gone : (p : ℕ) (s : Session) → get_elem? m.objects p ≡ some s → s.removed ≡ true → IsGone s
  pub valid : (p : ℕ) (s : Session) → get_elem? m.objects p ≡ some s → IsKept s

set_at : ℕ → Session → Manager → Manager
set_at p t m = record m { objects = update m.objects p t }

-- A session at a pointer that is set to a later state.
set_at-cases :
    (p q : ℕ) (s t u : Session) (m : Manager)
    → get_elem? m.objects p ≡ some s
    → get_elem? (update m.objects p t) q ≡ some u
    → ((q ≡ p) × (u ≡ t)) ⊎ (get_elem? m.objects q ≡ some u)
set_at-cases p q s t u m g h = elim (get_elem?-update m.objects p q t) [
  | inl (e, l, k) ↦ inl (sym e, cc (h, k))
  | inr (inl (k, n)) ↦ inr (cc (h, k))
  | inr (inr (k, l)) ↦ inr (cc (h, k))
]

set_at-Tracked :
    (p : ℕ) (s t : Session) (m : Manager)
    → get_elem? m.objects p ≡ some s
    → Later s t
    → Tracked m
    → Tracked (set_at p t m)
unfolding set_at
set_at-Tracked p s t m g l k = record {
  kept = λ o q u h r. elim (set_at-cases p q s t u m g h) [
    | inl (e, f) ↦ ground (arith, e, f, l.id, l.removed, k.kept o p s g)
    | inr h' ↦ k.kept o q u h' r
  ];
  gone = λ q u h r. elim (set_at-cases p q s t u m g h) [
    | inl (e, f) ↦ subst IsGone (sym f) (l.gone (k.gone p s g) (cc (f, r)))
    | inr h' ↦ k.gone q u h' r
  ];
  valid = λ q u h. elim (set_at-cases p q s t u m g h) [
    | inl (e, f) ↦ subst IsKept (sym f) l.valid
    | inr h' ↦ k.valid q u h'
  ];
}

on_session-none :
    (f : Session → Session) (p : ℕ) (m : Manager)
    → get_elem? m.objects p ≡ none
    → on_session f p m ≡ m
unfolding on_session
on_session-none f p m e = ground arith

on_session-some :
    (f : Session → Session) (p : ℕ) (m : Manager) {s : Session}
    → get_elem? m.objects p ≡ some s
    → on_session f p m ≡ set_at p (f s) m
unfolding on_session set_at
on_session-some f p m e = ground arith

on_session-Tracked :
    (f : Session → Session) (p : ℕ) (m : Manager)
    → ((s : Session) → IsKept s → (s.removed ≡ true → IsGone s) → Later s (f s))
    → Tracked m
    → Tracked (on_session f p m)
on_session-Tracked f p m l k = elim (Option-cases (get_elem? m.objects p)) [
  | inl e ↦ subst Tracked (sym (on_session-none f p m e)) k
  | inr (s, e) ↦
      subst Tracked (sym (on_session-some f p m e))
        (set_at-Tracked p s (f s) m e (l s (k.valid p s e) (k.gone p s e)) k)
]

registered : Bytes → ℕ → Manager → Manager
registered id now m = record m {
  objects = m.objects ++ new_session id (m.dir ++ b'/' ∷ id) m.max_in_memory now ∷ [];
  sessions = insert id (length m.objects) m.sessions;
}

create-closed :
    (id : Bytes) (now : ℕ) (m : Manager) → m.closed ≡ true → (create (some id) now m).0 ≡ m
unfolding create
create-closed id now m c = ground arith

create-open :
    (id : Bytes) (now : ℕ) (m : Manager)
    → m.closed ≡ false
    → (create (some id) now m).0 ≡ registered id now m
unfolding create registered
create-open id now m c = ground arith

registered-Tracked :
    (id : Bytes) (now : ℕ) (m : Manager)
    → lookup id m.sessions ≡ none
    → Tracked m
    → Tracked (registered id now m)
unfolding registered
registered-Tracked id now m free k =
    let fresh = new_session id (m.dir ++ b'/' ∷ id) m.max_in_memory now in
    record {
      kept = λ o q u h r. elim (get_elem?-append m.objects fresh q h) [
        | inl g ↦ ground (
          arith,
          k.kept o q u g r,
          lookup-insert id u.id (length m.objects) m.sessions,
          bytes_eq_iff id u.id,
        )
        | inr (e, f) ↦ ground (
          arith,
          e,
          ap (λ x. x.id) f,
          lookup-insert id u.id (length m.objects) m.sessions,
          bytes_eq_iff id u.id,
        )
      ];
      gone = λ q u h r. elim (get_elem?-append m.objects fresh q h) [
        | inl g ↦ k.gone q u g r
        | inr (e, f) ↦ absurd (cc (ap (λ x. x.removed) f, r))
      ];
      valid = λ q u h. elim (get_elem?-append m.objects fresh q h) [
        | inl g ↦ k.valid q u g
        | inr (e, f) ↦
            subst IsKept (sym f) (
              unfold IsKept in
              inl (new_session-IsValid id (m.dir ++ b'/' ∷ id) m.max_in_memory now))
      ];
    }

create-Tracked :
    (id : Bytes) (now : ℕ) (m : Manager)
    → lookup id m.sessions ≡ none
    → Tracked m
    → Tracked (create (some id) now m).0
create-Tracked id now m free k = elim (Bool-cases m.closed) [
  | inl c ↦ subst Tracked (sym (create-closed id now m c)) k
  | inr o ↦ subst Tracked (sym (create-open id now m o)) (registered-Tracked id now m free k)
]

dropped : Bytes → Manager → Manager
dropped id m = record m { sessions = without id m.sessions }

forget-cases :
    (id : Bytes) (p : ℕ) (m : Manager)
    → (forget id p m ≡ m) ⊎ ((lookup id m.sessions ≡ some p) × (forget id p m ≡ dropped id m))
unfolding forget dropped
forget-cases id p m = ground arith

-- Forgetting a pointer whose session is removed.
forget-Tracked :
    (id : Bytes) (p : ℕ) (m : Manager)
    → ((s : Session) → get_elem? m.objects p ≡ some s → s.removed ≡ true)
    → Tracked m
    → Tracked (forget id p m)
unfolding dropped
forget-Tracked id p m gone k = elim (forget-cases id p m) [
  | inl e ↦ subst Tracked (sym e) k
  | inr (h, e) ↦ subst Tracked (sym e) record {
    kept = λ o i s g r. ground (
      arith,
      k.kept o i s g r,
      gone s,
      g,
      lookup-without id s.id m.sessions,
      bytes_eq_iff id s.id,
    );
    gone = k.gone;
    valid = k.valid;
  }
]

close_at-some :
    (io : CloseIo) (p : ℕ) (m : Manager) {s : Session}
    → get_elem? m.objects p ≡ some s
    → close_at io p m ≡ (set_at p (close io s).0 m, (close io s).1)
unfolding close_at set_at
close_at-some io p m e = ground arith

close_at-none :
    (io : CloseIo) (p : ℕ) (m : Manager)
    → get_elem? m.objects p ≡ none
    → close_at io p m ≡ (m, true)
unfolding close_at
close_at-none io p m e = ground arith

-- A close leaves the manager tracked, and the session removed if there was no error.
unfoldable pub Closes : ℕ → Manager × Bool → Type 0
Closes p r =
    Tracked r.0 × (r.1 ≡ true → (s : Session) → get_elem? r.0.objects p ≡ some s → s.removed ≡ true)

pub close_at-Closes : (io : CloseIo) (p : ℕ) (m : Manager) → Tracked m → Closes p (close_at io p m)
unfolding Closes set_at
close_at-Closes io p m k = elim (Option-cases (get_elem? m.objects p)) [
  | inl e ↦ subst (Closes p) (sym (close_at-none io p m e)) (k, λ d s g. absurd (cc (e, g)))
  | inr (s, e) ↦ subst (Closes p) (sym (close_at-some io p m e)) (
    set_at-Tracked p s (close io s).0 m e (close-Later io s (k.valid p s e)) k,
    λ d t g. ground (
      arith,
      get_elem?-update m.objects p p (close io s).0,
      get_elem?-lt m.objects p e,
      close-done io s d,
    ),
  )
]

close_and_forget-cases :
    (io : CloseIo) (id : Bytes) (p : ℕ) (m : Manager)
    → ((close_at io p m).1 ≡ true)
        × ((close_and_forget io id p m).0 ≡ forget id p (close_at io p m).0)
      ⊎ ((close_and_forget io id p m).0 ≡ (close_at io p m).0)
unfolding close_and_forget
close_and_forget-cases io id p m = ground arith

close_and_forget-Tracked :
    (io : CloseIo) (id : Bytes) (p : ℕ) (m : Manager)
    → Tracked m
    → Tracked (close_and_forget io id p m).0
unfolding Closes
close_and_forget-Tracked io id p m k =
    let (n, after) = close_at-Closes io p m k in
    elim (close_and_forget-cases io id p m) [
      | inl (d, e) ↦ subst Tracked (sym e) (forget-Tracked id p (close_at io p m).0 (after d) n)
      | inr e ↦ subst Tracked (sym e) n
    ]

get-cases :
    (id : Bytes) (now : ℕ) (m : Manager)
    → ((get id now m).0 ≡ m) ⊎ ((p : ℕ) × ((get id now m).0 ≡ on_session (touch now) p m))
unfolding get
get-cases id now m = elim (Option-cases (lookup id m.sessions)) [
  | inl e ↦ inl (ground arith)
  | inr (p, e) ↦ inr (p, ground arith)
]

remove-cases :
    (io : CloseIo) (id : Bytes) (m : Manager)
    → ((remove io id m).0 ≡ m) ⊎ ((p : ℕ) × ((remove io id m).0 ≡ (close_and_forget io id p m).0))
unfolding remove
remove-cases io id m = elim (Option-cases (lookup id m.sessions)) [
  | inl e ↦ inl (ground arith)
  | inr (p, e) ↦ inr (p, ground arith)
]

expire-cases :
    (io : CloseIo) (now p : ℕ) (m : Manager)
    → ((expire io now p m).0 ≡ m)
      ⊎ ((id : Bytes) × ((expire io now p m).0 ≡ (close_and_forget io id p m).0))
unfolding expire
expire-cases io now p m = elim (Option-cases (get_elem? m.objects p)) [
  | inl e ↦ inl (ground arith)
  | inr (s, e) ↦ elim (Bool-cases (is_idle now m.timeout s)) [
    | inl y ↦ inr (s.id, ground arith)
    | inr n ↦ inl (ground arith)
  ]
]

remove_spool-disk :
    (ok : Bool) (disk : Option Bytes) (sp : Spool)
    → ((remove_spool ok disk sp).1 ≡ disk) ⊎ ((remove_spool ok disk sp).1 ≡ none)
unfolding remove_spool
remove_spool-disk ok disk sp = ground arith

same-Later : (s : Session) → IsKept s → Later s s
same-Later s v = record { id = refl; removed = λ r. r; gone = λ g r. g r; valid = v }

unlink-Later :
    (ok : Bool) (sp : Spool) (s : Session)
    → IsKept s
    → Later s (record s { disk = (remove_spool ok s.disk sp).1 })
unlink-Later ok sp s v = elim (remove_spool-disk ok s.disk sp) [
  | inl e ↦ subst (λ x. Later s (record s { disk = x })) (sym e) (same-Later s v)
  | inr e ↦ subst (λ x. Later s (record s { disk = x })) (sym e) (unlinked-Later s v)
]

open_touch-Later : (now : ℕ) (sp : Spool) (s : Session) → IsKept s → Later s (open_touch now sp s)
open_touch-Later now sp s v = elim (Bool-cases sp.removed) [
  | inl e ↦ subst (λ b. Later s (if b then s else touch now s)) (sym e) (same-Later s v)
  | inr e ↦ subst (λ b. Later s (if b then s else touch now s)) (sym e) (touch-Later now s v)
]

-- Forgetting a session of a closed manager.
drop-Tracked :
    (id : Bytes) (p : ℕ) (m : Manager) → m.closed ≡ true → Tracked m → Tracked (forget id p m)
unfolding dropped
drop-Tracked id p m c k = elim (forget-cases id p m) [
  | inl e ↦ subst Tracked (sym e) k
  | inr (h, e) ↦
      subst Tracked (sym e)
        (record { kept = λ o. absurd (cc (c, o)); gone = k.gone; valid = k.valid })
]

-- One step of a request, of the sweeper or of a shutdown.
pub Step-Tracked : {m n : Manager} → Step m n → Tracked m → Tracked n
unfolding spool Closes
Step-Tracked {m} (creates id now free) k = create-Tracked id now m free k
Step-Tracked {m} (gets id now) k = elim (get-cases id now m) [
  | inl e ↦ subst Tracked (sym e) k
  | inr (p, e) ↦
      subst Tracked (sym e) (on_session-Tracked (touch now) p m (λ s v g. touch-Later now s v) k)
]
Step-Tracked {m} (appends p entry exit body) k =
    on_session-Tracked (λ s. (append entry exit body s).0) p m (append-Later entry exit body) k
Step-Tracked {m} (spools p now sha256) k =
    on_session-Tracked (λ s. (spool sha256 now s).0) p m
      (λ s v g. ground (arith, touch-Later now s v)) k
Step-Tracked {m} (opens p now sp) k =
    on_session-Tracked (open_touch now sp) p m (λ s v g. open_touch-Later now sp s v) k
Step-Tracked {m} (removes id io) k = elim (remove-cases io id m) [
  | inl e ↦ subst Tracked (sym e) k
  | inr (p, e) ↦ subst Tracked (sym e) (close_and_forget-Tracked io id p m k)
]
Step-Tracked {m} (expires p now io) k = elim (expire-cases io now p m) [
  | inl e ↦ subst Tracked (sym e) k
  | inr (id, e) ↦ subst Tracked (sym e) (close_and_forget-Tracked io id p m k)
]
Step-Tracked {m} (closes p io) k = (close_at-Closes io p m k).0
Step-Tracked {m} (forgets id p gone) k = forget-Tracked id p m gone k
Step-Tracked {m} (unlinks p sp ok) k =
    on_session-Tracked (λ s. record s { disk = (remove_spool ok s.disk sp).1 }) p m
      (λ s v g. unlink-Later ok sp s v) k
Step-Tracked {m} shuts k = record { kept = λ o. absurd (cc o); gone = k.gone; valid = k.valid }
Step-Tracked {m} (drops id p c) k = drop-Tracked id p m c k

Reach-Tracked : {m n : Manager} → Reach m n → Tracked m → Tracked n
Reach-Tracked here k = k
Reach-Tracked (next r s) k = Step-Tracked s (Reach-Tracked r k)

new_manager-Tracked : (dir : Bytes) (limit timeout : ℕ) → Tracked (new_manager dir limit timeout)
new_manager-Tracked dir limit timeout = record {
  kept = λ o p s g. cc;
  gone = λ p s g. cc;
  valid = λ p s g. cc;
}

pub manager-Tracked :
    (dir : Bytes) (limit timeout : ℕ) {m : Manager}
    → Reach (new_manager dir limit timeout) m
    → Tracked m
manager-Tracked dir limit timeout r = Reach-Tracked r (new_manager-Tracked dir limit timeout)
