-- ===== src/Upload/Manager/Idle.antt =====
-- What Sweep leaves alone and what Remove takes away.
use oci_amber.Prelude.{
  ℕ, ◌≡◌, ◌≢◌, sym, subst, true, false, none, some, inl, inr, List, [], ◌∷◌, arith, get_elem?,
  get_elem?-update, Bool-cases, ◌∙◌, ap,
}
use oci_amber.Prelude.Maybe.{Option-cases}
use oci_amber.Prelude.Text.{Bytes}
use oci_amber.Prelude.Text.Laws.{bytes_eq_iff}
use oci_amber.Prelude.Assoc.{lookup, lookup-without}
use oci_amber.Upload.Session.{Session, CloseIo, close}
use oci_amber.Upload.Session.Close.{IsGone}
use oci_amber.Upload.Manager.{
  Manager, remove, expire, expire_all, close_at, forget, close_and_forget, is_idle,
}
use oci_amber.Upload.Manager.Leaks.{Tracked, Closes, close_at-Closes}

-- The session at `p` is `s`, which is registered.
abbrev pub Holds : ℕ → Session → Manager → Type 0
Holds p s m = (get_elem? m.objects p ≡ some s) × (lookup s.id m.sessions ≡ some p)

close_at-Holds :
    (io : CloseIo) (q p : ℕ) (s : Session) (m : Manager)
    → q ≢ p
    → Holds p s m
    → Holds p s (close_at io q m).0
unfolding close_at
close_at-Holds io q p s m n h = elim (Option-cases (get_elem? m.objects q)) [
  | inl e ↦ ground arith
  | inr (t, e) ↦ ground (arith, get_elem?-update m.objects q p (close io t).0)
]

forget-Holds :
    (id : Bytes) (q p : ℕ) (s : Session) (m : Manager)
    → q ≢ p
    → Holds p s m
    → Holds p s (forget id q m)
unfolding forget
forget-Holds id q p s m n h =
    ground (arith, lookup-without id s.id m.sessions, bytes_eq_iff id s.id)

close_and_forget-Holds :
    (io : CloseIo) (id : Bytes) (q p : ℕ) (s : Session) (m : Manager)
    → q ≢ p
    → Holds p s m
    → Holds p s (close_and_forget io id q m).0
unfolding close_and_forget
close_and_forget-Holds io id q p s m n h = ground (
  arith,
  close_at-Holds io q p s m n h,
  forget-Holds id q p s (close_at io q m).0 n (close_at-Holds io q p s m n h),
)

close_and_forget-timeout :
    (io : CloseIo) (id : Bytes) (q : ℕ) (m : Manager)
    → (close_and_forget io id q m).0.timeout ≡ m.timeout
unfolding close_and_forget close_at forget
close_and_forget-timeout io id q m = ground arith

expire-Holds :
    (io : CloseIo) (now q p : ℕ) (s : Session) (m : Manager)
    → is_idle now m.timeout s ≡ false
    → Holds p s m
    → Holds p s (expire io now q m).0 × ((expire io now q m).0.timeout ≡ m.timeout)
unfolding expire
expire-Holds io now q p s m active h = elim (Option-cases (get_elem? m.objects q)) [
  | inl e ↦ ground arith
  | inr (t, e) ↦ elim (Bool-cases (is_idle now m.timeout t)) [
    | inr y ↦ ground arith
    | inl y ↦ ground (
      arith,
      close_and_forget-timeout io t.id q m,
      close_and_forget-Holds io t.id q p s m (λ x. cc (x, e, y, active, h.0)) h,
    )
  ]
]

-- A session whose last activity is not more than the timeout ago survives the second half of Sweep
-- untouched and registered, whichever pointers the first half collected and whatever the system
-- calls answer: it may have become active after it was collected.
pub expire_all-active :
    (now : ℕ) (due : List (ℕ × CloseIo)) (p : ℕ) (s : Session) (m : Manager)
    → is_idle now m.timeout s ≡ false
    → Holds p s m
    → Holds p s (expire_all now due m).0
unfolding expire_all
expire_all-active now [] p s m active h = h
expire_all-active now ((q, io) ∷ due) p s m active h =
    let (held, same) = expire-Holds io now q p s m active h in
    expire_all-active now due p s (expire io now q m).0
      (subst (λ t. is_idle now t s ≡ false) (sym same) active) held

remove-some :
    (io : CloseIo) (id : Bytes) (p : ℕ) (m : Manager)
    → lookup id m.sessions ≡ some p
    → (remove io id m).1 ≡ none
    → ((close_at io p m).1 ≡ true) × ((remove io id m).0 ≡ forget id p (close_at io p m).0)
unfolding remove close_and_forget
remove-some io id p m e d = ground arith

close_at-sessions : (io : CloseIo) (p : ℕ) (m : Manager) → (close_at io p m).0.sessions ≡ m.sessions
unfolding close_at
close_at-sessions io p m = ground arith

forget-lookup :
    (id : Bytes) (p : ℕ) (m : Manager)
    → lookup id m.sessions ≡ some p
    → lookup id (forget id p m).sessions ≡ none
unfolding forget
forget-lookup id p m e = ground (arith, lookup-without id id m.sessions, bytes_eq_iff id id)

forget-objects : (id : Bytes) (p : ℕ) (m : Manager) → (forget id p m).objects ≡ m.objects
unfolding forget
forget-objects id p m = ground arith

-- A Remove that reports no error: the id was registered, it is not afterwards, and the session's
-- file is gone.
pub remove-done :
    (io : CloseIo) (id : Bytes) (m : Manager)
    → Tracked m
    → (remove io id m).1 ≡ none
    → (p : ℕ) × (lookup id m.sessions ≡ some p)
      × (lookup id (remove io id m).0.sessions ≡ none)
      × ((s : Session) → get_elem? (remove io id m).0.objects p ≡ some s → IsGone s)
unfolding Closes
remove-done io id m k d = elim (Option-cases (lookup id m.sessions)) [
  | inl e ↦ absurd (unfold remove in ground arith)
  | inr (p, e) ↦
      let (closed, same) = remove-some io id p m e d in
      let n = (close_at io p m).0 in
      let (tracked, closes) = close_at-Closes io p m k in
      (
        p,
        e,
        subst (λ o. lookup id o.sessions ≡ none) (sym same)
            (forget-lookup id p n (ap (lookup id) (close_at-sessions io p m) ∙ e)),
        λ s g.
            let h : get_elem? n.objects p ≡ some s =
              ap (λ o. get_elem? o p) (sym (ap (λ o. o.objects) same ∙ forget-objects id p n))
              ∙ g in
            tracked.gone p s h (closes closed s h),
      )
]
